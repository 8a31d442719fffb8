-- ===== src/Tools/Programme/Gates.antt =====
-- The gates of `close_programme`, and the state in which they pass.
use labloop.Commitments.Active.{active-programme}
use labloop.Prelude.{
  any, String, ◌≡◌, ◌≢◌, ◌⊎◌, false, none, some, List, [], arith, string_eq, any-none, All,
}
use labloop.Exec.{ok}
use labloop.Models.{
  Programme, ProgrammeStatus, Trial, programme_status_eq, hypothesis_status_eq, trial_status_eq,
}
use labloop.Store.State.{State}
use labloop.Store.Rows.{get_programme, list_trials, list_hypotheses}
use labloop.Commitments.{check_programme_active, check_programme_has_trials}
use labloop.Tools.Programme.{close_gates, is_under_test, is_running}

-- The state in which a close goes through its gates.
pub record Closable (programme : String) (status : ProgrammeStatus) (s : State) : Type 0 where
  pub p : Programme
  pub found : get_programme programme s ≡ some p
  pub active : p.status ≡ ProgrammeStatus.active
  pub closes : (status ≡ ProgrammeStatus.completed) ⊎ (status ≡ ProgrammeStatus.abandoned)
  pub settled : All (λ t. is_running t ≡ false) (list_trials programme s)
  pub has_trials : status ≡ ProgrammeStatus.completed → list_trials programme s ≢ []
  pub concluded :
      status ≡ ProgrammeStatus.completed
      → All (λ h. is_under_test h ≡ false) (list_hypotheses programme s)

trials-exist : (ts : List Trial) → check_programme_has_trials ts ≡ none → ts ≢ []
unfolding check_programme_has_trials
trials-exist ts e = ground arith

module _ (programme : String) (status : ProgrammeStatus) (s : State)
    (e : close_gates programme status s ≡ (ok tt, s)) where
  gate_active : check_programme_active (get_programme programme s) ≡ none
  unfolding close_gates
  gate_active = ground arith

  gate_closing : (status ≡ ProgrammeStatus.completed) ⊎ (status ≡ ProgrammeStatus.abandoned)
  unfolding close_gates
  gate_closing = ground arith

  gate_running : any is_running (list_trials programme s) ≡ false
  unfolding close_gates
  gate_running = ground arith

  gate_trials :
      status ≡ ProgrammeStatus.completed
      → check_programme_has_trials (list_trials programme s) ≡ none
  unfolding close_gates
  gate_trials completing = ground arith

  gate_under_test :
      status ≡ ProgrammeStatus.completed → any is_under_test (list_hypotheses programme s) ≡ false
  unfolding close_gates
  gate_under_test completing = ground arith

  pub gates-Closable : Closable programme status s
  gates-Closable =
      let (p, found, active) = active-programme (get_programme programme s) gate_active in
      record {
        p = p;
        found = found;
        active = active;
        closes = gate_closing;
        settled = any-none is_running (list_trials programme s) gate_running;
        has_trials = λ completing. trials-exist (list_trials programme s) (gate_trials completing);
        concluded = λ completing.
            any-none is_under_test (list_hypotheses programme s) (gate_under_test completing);
      }
