-- ===== src/Commitments.antt =====
-- The ten commitments as checks: a check returns `none` if it passes, and its refusal if not.
-- ml-scientist/src/ml_episteme_mcp/enforcement/commitments.py.
pub mod Active
use labloop.Prelude.{
  ℕ, ◌+◌, ◌-◌, ◌*◌, String, Bool, false, not, ◌&&◌, ◌||◌, Option, none, some, List, [], ◌∷◌, length,
  filter, any, is_empty, leb, ◌==◌, string_eq, if◌then◌else◌,
}
use labloop.Strings.{is_blank, lower_is}
use labloop.Json.{Fields, no_fields, all_zero}
use labloop.Models.{
  Programme, ProgrammeStatus, programme_status_eq, Hypothesis, HypothesisStatus,
  hypothesis_status_eq, Trial, TrialStatus, trial_status_eq, Bundle, is_complete,
}
use labloop.Store.State.{
  State, Error, trial_not_found, trial_elsewhere, no_trials, programme_not_found, programme_closed,
  observation_not_in_memory, empty_failure_criterion, tautological_failure_criterion,
  trial_budget_exhausted, wall_time_budget_exhausted, no_bundle, incomplete_bundle,
  variance_required, duplicate_conclusion, no_metrics, hypothesis_not_found,
  hypothesis_not_testable, hypothesis_elsewhere, no_completed_trials, unrecorded_results,
  trials_still_running, trial_not_completed, no_belief,
}
use labloop.Store.Rows.{
  get_hypothesis, get_bundle, list_trials, list_observations, list_beliefs, list_conclusions,
}

abbrev refuse_if : Bool → Error → Option Error
refuse_if b e = if b then some e else none

-- Commitment 1: the loop is the unit

unfoldable pub check_loop_is_unit : Option Trial → String → Option Error
check_loop_is_unit none programme = some trial_not_found
check_loop_is_unit (some t) programme =
    refuse_if (not (t.programme_id == programme)) trial_elsewhere

unfoldable pub check_programme_has_trials : List Trial → Option Error
check_programme_has_trials trials = refuse_if (is_empty trials) no_trials

unfoldable pub check_programme_active : Option Programme → Option Error
check_programme_active none = some programme_not_found
check_programme_active (some p) =
    refuse_if (not (p.status == ProgrammeStatus.active)) programme_closed

-- Commitment 2: memory precedes optimization

abbrev same_id : Option String → String → Bool
same_id none id = false
same_id (some x) id = x == id

unfoldable pub check_memory_precedes_optimization :
    Option String → String → Option String → String → Option Error
check_memory_precedes_optimization observation_trial trial trial_programme programme =
    refuse_if (not (same_id observation_trial trial) || not (same_id trial_programme programme))
      observation_not_in_memory

-- Commitment 3: falsifiability is required for admission

unfoldable pub check_falsifiability : String → Option Error
check_falsifiability criterion =
    if is_blank criterion
    then some empty_failure_criterion
    else refuse_if
        (any (λ phrase. lower_is criterion phrase)
          ("the run was unlucky" ∷ "bad luck" ∷ "noise" ∷ []))
        tautological_failure_criterion

-- Commitment 5: budget is an epistemic resource

unfoldable pub check_budget_exhausted : Option Programme → List Trial → Option Error
check_budget_exhausted none trials = some programme_not_found
check_budget_exhausted (some p) trials =
    refuse_if (leb p.budget_max_trials (length trials)) trial_budget_exhausted

-- `remaining <= 0`, where Python's difference may be negative
unfoldable pub check_budget_remaining : Option Programme → List Trial → Option Error
check_budget_remaining none trials = some programme_not_found
check_budget_remaining (some p) trials =
    refuse_if (leb (p.budget_max_trials - length trials) 0) trial_budget_exhausted

abbrev pub is_completed : Trial → Bool
is_completed t = t.status == TrialStatus.completed

-- `[t.duration_seconds for t in trials if t.duration_seconds is not None]`
unfoldable pub durations : List Trial → List ℕ
durations [] = []
durations (t ∷ ts) = elim t.duration_seconds [ none ↦ durations ts | some d ↦ d ∷ durations ts ]

unfoldable pub total : List ℕ → ℕ
total [] = 0
total (n ∷ ns) = n + total ns

abbrev over_wall_time : ℕ → List ℕ → Option Error
over_wall_time hours [] = none
over_wall_time hours (d ∷ ds) =
    refuse_if (leb (hours * 3600) (total (d ∷ ds))) wall_time_budget_exhausted

unfoldable pub check_wall_time_exhausted : Option Programme → List Trial → Option Error
unfolding durations total
check_wall_time_exhausted none trials = some programme_not_found
check_wall_time_exhausted (some p) trials =
    if leb p.budget_max_wall_time_hours 0
    then none
    else over_wall_time p.budget_max_wall_time_hours (durations (filter is_completed trials))

-- Commitment 6: the bundle must be controlled

abbrev check_complete : Option Bundle → Option Error
check_complete none = some incomplete_bundle
check_complete (some b) = refuse_if (not (is_complete b)) incomplete_bundle

unfoldable pub check_bundle_controlled : Trial → State → Option Error
check_bundle_controlled t s = elim t.bundle_id [
  | none ↦ some no_bundle
  | some id ↦ check_complete (get_bundle id s)
]

-- Commitment 7: reproducibility is the price of admission

unfoldable pub check_reproducibility : Fields → Option Error
check_reproducibility variance =
    refuse_if (no_fields variance || all_zero variance) variance_required

-- Commitment 8: programmes, not runs

unfoldable pub check_duplicate_conclusion : String → String → State → Option Error
unfolding list_conclusions
check_duplicate_conclusion programme hypothesis s =
    refuse_if (any (λ c. c.hypothesis_id == hypothesis) (list_conclusions programme s))
      duplicate_conclusion

-- Commitment 9: belief is a tracked quantity

unfoldable pub check_belief_has_metrics : Fields → Option Error
check_belief_has_metrics metrics = refuse_if (no_fields metrics) no_metrics

-- Commitment 10: the agent is a scientist, not a scribe

unfoldable pub check_hypothesis_exists : Option Hypothesis → Option Error
check_hypothesis_exists none = some hypothesis_not_found
check_hypothesis_exists (some h) = none

unfoldable pub check_hypothesis_testable : Hypothesis → Option Error
check_hypothesis_testable h =
    refuse_if
      (not ((h.status == HypothesisStatus.proposed) || (h.status == HypothesisStatus.under_test)))
      hypothesis_not_testable

unfoldable pub check_hypothesis_in_programme : String → String → State → Option Error
check_hypothesis_in_programme programme hypothesis s = elim (get_hypothesis hypothesis s) [
  | none ↦ some hypothesis_not_found
  | some h ↦ refuse_if (not (h.programme_id == programme)) hypothesis_elsewhere
]

-- The trials that a verdict on a hypothesis rests on.

abbrev pub tests : String → TrialStatus → Trial → Bool
tests hypothesis status t = (t.hypothesis_id == hypothesis) && (t.status == status)

-- `[t for t in store.list_trials(programme_id) if t.hypothesis_id == ... and t.status == ...]`
unfoldable pub trials_testing : String → String → TrialStatus → State → List Trial
unfolding list_trials
trials_testing programme hypothesis status s =
    filter (tests hypothesis status) (list_trials programme s)

unfoldable pub check_evidence_exists : String → String → State → Option Error
check_evidence_exists programme hypothesis s =
    refuse_if (is_empty (trials_testing programme hypothesis TrialStatus.completed s))
      no_completed_trials

unfoldable pub check_all_results_recorded : String → String → State → Option Error
check_all_results_recorded programme hypothesis s =
    refuse_if
      (not (
        is_empty (
          filter (λ t. is_empty (list_observations t.id s))
            (trials_testing programme hypothesis TrialStatus.completed s))))
      unrecorded_results

unfoldable pub check_no_running_trials : String → String → State → Option Error
check_no_running_trials programme hypothesis s =
    refuse_if (not (is_empty (trials_testing programme hypothesis TrialStatus.running s)))
      trials_still_running

unfoldable pub check_observation_prerequisites : Option Trial → Option Error
check_observation_prerequisites none = some trial_not_found
check_observation_prerequisites (some t) = elim t.bundle_id [
  | none ↦ some no_bundle
  | some b ↦ refuse_if (not (is_completed t)) trial_not_completed
]

unfoldable pub check_belief_recorded : String → State → Option Error
check_belief_recorded programme s = refuse_if (is_empty (list_beliefs programme s)) no_belief
