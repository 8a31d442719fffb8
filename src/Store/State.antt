-- ===== src/Store/State.antt =====
-- The tables of `SCHEMA` that the experiment loop writes, and the errors that the handlers report,
-- one constructor for each message. ml-scientist/src/ml_episteme_mcp/state/store.py.
use labloop.Prelude.{String, List, []}
use labloop.Models.{Programme, Hypothesis, Bundle, Trial, Observation, Belief, Conclusion}

pub data Error : Type 0 where
  -- raised by the store
  trial_not_found hypothesis_not_found programme_not_found : Error
  illegal_transition unevidenced_completion duration_unbindable : Error
  not_correctable bad_correction_target corrections_not_a_list : Error
  integrity_error : Error
  -- refused by a commitment check
  trial_elsewhere programme_closed no_trials observation_not_in_memory : Error
  empty_failure_criterion tautological_failure_criterion : Error
  trial_budget_exhausted wall_time_budget_exhausted : Error
  no_bundle incomplete_bundle variance_required : Error
  duplicate_conclusion duplicate_programme empty_goal : Error
  no_metrics hypothesis_not_testable hypothesis_elsewhere : Error
  no_completed_trials unrecorded_results trials_still_running : Error
  trial_not_completed no_belief : Error
  -- refused by a handler
  rationale_required decided_by_required reason_required : Error
  bad_direction bad_programme_status hypothesis_under_test trial_running : Error
  trial_not_running trial_terminal observation_not_found : Error
  not_json optimizer_failed no_such_attribute : Error

pub record State : Type 0 where
  pub programmes : List Programme
  pub hypotheses : List Hypothesis
  pub trials : List Trial
  pub bundles : List Bundle
  pub observations : List Observation
  pub beliefs : List Belief
  pub conclusions : List Conclusion

abbrev pub empty : State
empty = record {
  programmes = [];
  hypotheses = [];
  trials = [];
  bundles = [];
  observations = [];
  beliefs = [];
  conclusions = [];
}

-- The primary keys.
abbrev pub programme_id : Programme → String
programme_id p = p.id

abbrev pub hypothesis_id : Hypothesis → String
hypothesis_id h = h.id

abbrev pub trial_id : Trial → String
trial_id t = t.id

abbrev pub bundle_id : Bundle → String
bundle_id b = b.id

abbrev pub observation_id : Observation → String
observation_id o = o.id

abbrev pub belief_id : Belief → String
belief_id b = b.id

abbrev pub conclusion_id : Conclusion → String
conclusion_id c = c.id
