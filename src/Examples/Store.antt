-- ===== src/Examples/Store.antt =====
-- The theorems on sequences of store calls and on corrections, at concrete calls.
use labloop.Prelude.{◌≡◌, ◌⊎◌, refl, none, some, List, [], ◌∷◌, ◌++◌, arith, string_eq}
use labloop.Json.{has, get_or}
use labloop.Exec.{ok, err}
use labloop.Table.{fetch, update}
use labloop.Models.{Trial, TrialStatus, HypothesisStatus}
use labloop.Store.State.{State, Error}
use labloop.Store.Rows.{get_trial, get_hypothesis}
use labloop.Store.Calls.{
  Call, set_trial_status, set_output, set_hypothesis_status, abandon, run, call,
}
use labloop.Store.Lives.{TrialsValid, run-TrialsValid}
use labloop.Store.Labels.{EvidencedRow, NotCompleted, completed-evidenced}
use labloop.Store.Final.{run-terminal}
use labloop.Store.Corrections.{Corrected, correct-outcome}
use labloop.Store.Trials.{
  update_trial_status, correct_trial_status, update_trial_executor_output, check_status_update,
  stamp_status,
}
use labloop.Store.Transitions.{trial_transitions, validate_transition}
use labloop.Record.{record_evidences_completion, has_executor_record, completion_failure_signals}
use labloop.Examples.{designed, under_test, concludable, abandoned_early, run_output}

-- The calls of a trial that runs to its end.
abbrev to_the_end : List Call
to_the_end =
    set_trial_status "trial-2" TrialStatus.running none "t7"
    ∷ set_output "trial-2" run_output
    ∷ set_trial_status "trial-2" TrialStatus.completed none "t8"
    ∷ []

abbrev ended : Trial
ended = record designed {
  status = TrialStatus.completed;
  executor_output_json = some run_output;
  started_at = some "t7";
  finished_at = some "t8";
}

run-ended : get_trial "trial-2" (run to_the_end concludable) ≡ some ended
unfolding run call get_trial fetch update update_trial_status update_trial_executor_output
    check_status_update stamp_status trial_transitions validate_transition
    record_evidences_completion has_executor_record completion_failure_signals has get_or
run-ended = refl

designed-NotCompleted : NotCompleted (get_trial "trial-2" concludable)
unfolding get_trial fetch
designed-NotCompleted = ground arith

completed-evidenced_example :
    (before : List Call) × (later : List Call) × (to_the_end ≡ before ++ later)
    × EvidencedRow "trial-2" (run before concludable)
completed-evidenced_example =
    completed-evidenced to_the_end concludable "trial-2" ended designed-NotCompleted run-ended refl

concludable-TrialsValid : TrialsValid concludable.trials
unfolding fetch
concludable-TrialsValid = record {
  keyed = (refl, (refl, tt));
  stamped = (ground arith, (ground arith, tt));
}

run-TrialsValid_example : TrialsValid (run to_the_end concludable).trials
run-TrialsValid_example = run-TrialsValid to_the_end concludable concludable-TrialsValid

abbrev attempts : List Call
attempts =
    set_hypothesis_status "hyp-1" HypothesisStatus.accepted
    ∷ abandon "hyp-1" "again" "a reader" "t9"
    ∷ []

abandoned-read :
    get_hypothesis "hyp-1" abandoned_early
    ≡ some (record under_test { status = HypothesisStatus.abandoned })
unfolding get_hypothesis fetch
abandoned-read = refl

run-terminal_example :
    get_hypothesis "hyp-1" (run attempts abandoned_early)
    ≡ some (record under_test { status = HypothesisStatus.abandoned })
run-terminal_example =
    run-terminal attempts abandoned_early "hyp-1"
      (record under_test { status = HypothesisStatus.abandoned }) refl abandoned-read

correct-outcome_example :
    ((s' : State) × (correct_trial_status "trial-1" TrialStatus.failed "crashed" "t9" concludable
        ≡ (ok tt, s'))
      × Corrected "trial-1" TrialStatus.failed "crashed" "t9" concludable s')
    ⊎ ((e : Error) × (correct_trial_status "trial-1" TrialStatus.failed "crashed" "t9" concludable
          ≡ (err e, concludable)))
correct-outcome_example = correct-outcome "trial-1" TrialStatus.failed "crashed" "t9" concludable
