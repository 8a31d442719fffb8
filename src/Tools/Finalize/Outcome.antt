-- ===== src/Tools/Finalize/Outcome.antt =====
-- `_finalize_trial` on a running trial.
use labloop.Prelude.{String, ◌≡◌, true, some, arith, string_eq, if◌then◌else◌}
use labloop.Json.{Text, Fields, text_truthy}
use labloop.Exec.{Result, ok, err}
use labloop.Table.Laws.{fetch-update_self}
use labloop.Models.{Trial, TrialStatus, trial_status_eq}
use labloop.Store.State.{State, Error, duration_unbindable, trial_id}
use labloop.Store.Rows.{get_trial}
use labloop.Store.Trials.{update_trial_executor_output, set_trial, coalesce}
use labloop.Tools.Finalize.{is_unbindable, reported_duration, persist_output}

abbrev pub with_output : Text → Trial → Trial
with_output output t = record t { executor_output_json = some output }

-- The output is in the row before anything else happens.
pub persisted :
    (trial : String) (output : Text) (s : State) (t : Trial)
    → get_trial trial s ≡ some t
    → text_truthy output ≡ true
    → persist_output trial output s ≡ (ok tt, set_trial trial (with_output output) s)
unfolding persist_output update_trial_executor_output
persisted trial output s t found e = ground arith

pub read_back :
    (trial : String) (f : Trial → Trial) (s : State) (t : Trial)
    → ((x : Trial) → trial_id (f x) ≡ trial_id x)
    → get_trial trial s ≡ some t
    → get_trial trial (set_trial trial f s) ≡ some (f t)
unfolding get_trial
read_back trial f s t keeps found = fetch-update_self trial_id f keeps trial s.trials found

-- The row of a trial that was running and now carries a final label.
pub record Labelled (trial : String) (status : TrialStatus) (output : Text) (now : String)
    (t : Trial) (s' : State) : Type 0 where
  pub row : Trial
  pub found : get_trial trial s' ≡ some row
  pub label : row.status ≡ status
  pub record_kept : row.executor_output_json ≡ some output
  pub ended : row.finished_at ≡ coalesce t.finished_at now

-- What the call answers once the row is labelled.
abbrev pub timed_answer : TrialStatus → Fields → Result Error TrialStatus
timed_answer status out =
    if is_unbindable (reported_duration out) then err duration_unbindable else ok status

module _ (trial : String) (output : Text) (now : String) (s : State) (t : Trial) where
  abbrev after_output : State
  after_output = set_trial trial (with_output output) s
