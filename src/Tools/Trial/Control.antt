-- ===== src/Tools/Trial/Control.antt =====
-- The first part of `run_trial`, up to the executor.
use labloop.Prelude.{String, ◌≡◌, true, some, string_eq}
use labloop.Models.{
  Programme, ProgrammeStatus, Trial, TrialStatus, Bundle, is_complete, programme_status_eq,
  trial_status_eq,
}
use labloop.Store.State.{State}
use labloop.Store.Rows.{get_programme, get_trial, get_bundle}
use labloop.Store.Trials.{coalesce}

-- What `run_trial` has done when it goes on to the executor.
pub record Started (programme trial now : String) (s s' : State) : Type 0 where
  pub t : Trial
  pub p : Programme
  pub bundle : String
  pub b : Bundle
  pub trial_found : get_trial trial s ≡ some t
  pub owned : t.programme_id ≡ programme
  pub programme_found : get_programme programme s ≡ some p
  pub active : p.status ≡ ProgrammeStatus.active
  pub designed : t.status ≡ TrialStatus.designed
  pub bundled : t.bundle_id ≡ some bundle
  pub bundle_found : get_bundle bundle s ≡ some b
  pub complete : is_complete b ≡ true
  pub now_running :
      get_trial trial s'
      ≡ some (record t { status = TrialStatus.running; started_at = coalesce t.started_at now })

abbrev running_row : String → Trial → Trial
running_row now t = record t {
  status = TrialStatus.running;
  started_at = coalesce t.started_at now;
}
