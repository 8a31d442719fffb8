-- ===== src/Examples/Tools.antt =====
-- The theorems on the handlers, at concrete stores.
use labloop.Prelude.{String, ◌≡◌, ◌≢◌, ◌⊎◌, refl, true, some, arith, string_eq}
use labloop.Json.{Fields, obj, has, get, dumps, put}
use labloop.Exec.{ok, err}
use labloop.Table.{fetch, IsKeyed}
use labloop.Models.{Trial, TrialStatus, HypothesisStatus, ProgrammeStatus, Verdict}
use labloop.Models.New.{new_conclusion}
use labloop.Store.State.{
  State, Error, illegal_transition, duplicate_conclusion, trial_id, hypothesis_id,
}
use labloop.Store.Rows.{
  get_trial, get_hypothesis, get_programme, list_trials, list_observations, list_conclusions,
  list_beliefs,
}
use labloop.Store.Trials.{
  correct_trial_status, set_trial, check_correction, correction_base, append_correction,
  corrected_list,
}
use labloop.Commitments.{
  check_hypothesis_in_programme, check_programme_active, check_duplicate_conclusion,
  check_evidence_exists, check_all_results_recorded, check_no_running_trials, check_belief_recorded,
  trials_testing,
}
use labloop.Tools.Schemas.{coerce_dict}
use labloop.Tools.Trial.{design_experiment}
use labloop.Tools.Trial.Design.{Designed, design-outcome}
use labloop.Tools.Programme.{conclude_gates, conclude_hypothesis, close_programme}
use labloop.Tools.Programme.Grounds.{Concludable}
use labloop.Tools.Programme.Conclude.{Concluded, with_conclusion, conclude-outcome}
use labloop.Tools.Programme.Stranded.{conclude-strands}
use labloop.Tools.Programme.Close.{Closed}
use labloop.Tools.Programme.Close.Outcome.{marks, close-outcome}
use labloop.Tools.Finalize.{finalize_trial}
use labloop.Tools.Finalize.Outcome.{with_output}
use labloop.Tools.Finalize.Finished.{finalize-erases_corrections}
use labloop.Examples.{completed, under_test, concludable, abandoned_early, run_output, config}

design-outcome_example :
    ((d : Fields) × (s' : State) × (coerce_dict (obj config) ≡ some d)
      × (design_experiment "prog-1" "hyp-1" (obj config) "trial-9" "t9" concludable
          ≡ (ok "trial-9", s'))
      × Designed "prog-1" "hyp-1" "trial-9" "t9" d concludable s')
    ⊎ ((e : Error) × (design_experiment "prog-1" "hyp-1" (obj config) "trial-9" "t9" concludable
          ≡ (err e, concludable)))
design-outcome_example = design-outcome "prog-1" "hyp-1" "trial-9" "t9" (obj config) concludable

conclude-outcome_example :
    ((s' : State) × (conclude_hypothesis "prog-1" "hyp-1" Verdict.accepted "it drops" "conc-1" "t9"
          concludable
        ≡ (ok "conc-1", s'))
      × Concluded "prog-1" "hyp-1" Verdict.accepted
          (new_conclusion "prog-1" "hyp-1" Verdict.accepted "it drops" "conc-1" "t9")
          concludable
          s')
    ⊎ (((b : Concludable "prog-1" "hyp-1" concludable) × (b.h.status ≢ HypothesisStatus.under_test)
          × (conclude_hypothesis "prog-1" "hyp-1" Verdict.accepted "it drops" "conc-1" "t9"
                concludable
              ≡ (
                err illegal_transition,
                with_conclusion
                    (new_conclusion "prog-1" "hyp-1" Verdict.accepted "it drops" "conc-1" "t9")
                    concludable,
              )))
        ⊎ ((e : Error) × (conclude_hypothesis "prog-1" "hyp-1" Verdict.accepted "it drops" "conc-1"
                "t9" concludable
              ≡ (err e, concludable))))
conclude-outcome_example =
    conclude-outcome "prog-1" "hyp-1" Verdict.accepted "it drops" "conc-1" "t9" concludable

abandoned_early-gates : conclude_gates "prog-1" "hyp-1" abandoned_early ≡ (ok tt, abandoned_early)
unfolding conclude_gates check_hypothesis_in_programme check_programme_active
    check_duplicate_conclusion check_evidence_exists check_all_results_recorded
    check_no_running_trials check_belief_recorded trials_testing list_trials list_observations
    list_conclusions list_beliefs get_programme get_hypothesis fetch
abandoned_early-gates = refl

abandoned_early-read :
    get_hypothesis "hyp-1" abandoned_early
    ≡ some (record under_test { status = HypothesisStatus.abandoned })
unfolding get_hypothesis fetch
abandoned_early-read = refl

conclude-strands_example :
    (conclude_hypothesis "prog-1" "hyp-1" Verdict.accepted "it drops" "conc-1" "t9" abandoned_early
      ≡ (
        err illegal_transition,
        with_conclusion
            (new_conclusion "prog-1" "hyp-1" Verdict.accepted "it drops" "conc-1" "t9")
            abandoned_early,
      ))
    × ((verdict' : Verdict) (summary' id' now' : String)
        → conclude_hypothesis "prog-1" "hyp-1" verdict' summary' id' now' (
            with_conclusion
              (new_conclusion "prog-1" "hyp-1" Verdict.accepted "it drops" "conc-1" "t9")
              abandoned_early)
          ≡ (
            err duplicate_conclusion,
            with_conclusion
                (new_conclusion "prog-1" "hyp-1" Verdict.accepted "it drops" "conc-1" "t9")
                abandoned_early,
          ))
unfolding fetch
conclude-strands_example =
    conclude-strands "prog-1" "hyp-1" abandoned_early Verdict.accepted "it drops" "conc-1" "t9"
      (record under_test { status = HypothesisStatus.abandoned }) abandoned_early-gates
      abandoned_early-read (ground arith) refl

concludable_hypotheses-IsKeyed : IsKeyed hypothesis_id concludable.hypotheses
unfolding fetch
concludable_hypotheses-IsKeyed = (refl, tt)

concludable_trials-IsKeyed : IsKeyed trial_id concludable.trials
unfolding fetch
concludable_trials-IsKeyed = (refl, (refl, tt))

close-outcome_example :
    ((s' : State) × (close_programme "prog-1" ProgrammeStatus.abandoned "t9" concludable
        ≡ (ok (marks "prog-1" ProgrammeStatus.abandoned "t9" concludable), s'))
      × Closed "prog-1" ProgrammeStatus.abandoned "t9" concludable s')
    ⊎ ((e : Error) × (close_programme "prog-1" ProgrammeStatus.abandoned "t9" concludable
          ≡ (err e, concludable)))
close-outcome_example =
    close-outcome "prog-1" ProgrammeStatus.abandoned "t9" concludable concludable_hypotheses-IsKeyed
      concludable_trials-IsKeyed

completed-read : get_trial "trial-1" concludable ≡ some completed
unfolding get_trial fetch
completed-read = refl

-- The store after a correction of the completed trial.
abbrev corrected_store : State
unfolding correct_trial_status
corrected_store = (correct_trial_status "trial-1" TrialStatus.failed "crashed" "t7" concludable).1

correction-accepted :
    correct_trial_status "trial-1" TrialStatus.failed "crashed" "t7" concludable
    ≡ (ok tt, corrected_store)
unfolding correct_trial_status get_trial fetch check_correction correction_base append_correction
    corrected_list get put
correction-accepted = refl

finalize-erases_corrections_example :
    (row : Trial) × (get_trial "trial-1" corrected_store ≡ some row)
    × (out : Fields) × (row.executor_output_json ≡ some (dumps (obj out)))
    × (has "corrections" out ≡ true)
    × (finalize_trial "trial-1" run_output "t9" corrected_store
        ≡ (ok TrialStatus.failed, set_trial "trial-1" (with_output run_output) corrected_store))
    × (get_trial "trial-1" (set_trial "trial-1" (with_output run_output) corrected_store)
        ≡ some (record row { executor_output_json = some run_output }))
finalize-erases_corrections_example =
    finalize-erases_corrections "trial-1" TrialStatus.failed "crashed" "t7" "t9" run_output
      concludable corrected_store correction-accepted refl
