-- ===== src/Store/Calls.antt =====
-- The writing methods of `StateStore` as one type of calls. Every handler is a sequence of such
-- calls, and since each call is one locked step, any interleaving of handlers is one too.
-- ml-scientist/src/ml_episteme_mcp/state/store.py.
use labloop.Prelude.{ℕ, String, Option, List, [], ◌∷◌}
use labloop.Json.{Text, Fields}
use labloop.Models.{
  Programme, ProgrammeStatus, HypothesisStatus, Bundle, TrialStatus, Observation, Belief,
  Conclusion,
}
use labloop.Models.New.{new_hypothesis, new_trial}
use labloop.Store.State.{State}
use labloop.Store.Rows.{
  Act, create_programme, create_hypothesis, create_trial, create_bundle, create_observation,
  create_belief, create_conclusion,
}
use labloop.Store.Trials.{
  update_trial_status, correct_trial_status, link_bundle, update_trial_duration,
  update_trial_artifact_path, update_trial_executor_output,
}
use labloop.Store.Hypotheses.{
  update_hypothesis_status, abandon_hypothesis_row, promote_hypothesis_if_proposed,
  update_programme_direction, update_programme_status,
}

-- The rows of hypotheses and trials are those that the handlers construct.
pub data Call : Type 0 where
  add_programme : Programme → Call
  add_hypothesis : String → String → String → List String → String → String → Call
  add_trial : String → String → Fields → String → String → Call
  add_bundle : Bundle → Call
  add_observation : Observation → Call
  add_belief : Belief → Call
  add_conclusion : Conclusion → Call
  set_trial_status : String → TrialStatus → Option String → String → Call
  correct_trial : String → TrialStatus → String → String → Call
  set_bundle : String → String → Call
  set_duration : String → ℕ → Call
  set_artifact_path : String → String → Call
  set_output : String → Text → Call
  set_hypothesis_status : String → HypothesisStatus → Call
  abandon : String → String → String → String → Call
  promote : String → Call
  set_direction : String → String → Call
  set_programme_status : String → ProgrammeStatus → Call

unfoldable pub call : Call → Act (Unit {0})
call (add_programme p) = create_programme p
call (add_hypothesis programme statement criterion variables id now) =
    create_hypothesis (new_hypothesis programme statement criterion variables id now)
call (add_trial programme hypothesis config id now) =
    create_trial (new_trial programme hypothesis config id now)
call (add_bundle b) = create_bundle b
call (add_observation o) = create_observation o
call (add_belief b) = create_belief b
call (add_conclusion c) = create_conclusion c
call (set_trial_status id status reason now) = update_trial_status id status reason now
call (correct_trial id status reason now) = correct_trial_status id status reason now
call (set_bundle id bundle) = link_bundle id bundle
call (set_duration id seconds) = update_trial_duration id seconds
call (set_artifact_path id path) = update_trial_artifact_path id path
call (set_output id output) = update_trial_executor_output id output
call (set_hypothesis_status id status) = update_hypothesis_status id status
call (abandon id rationale decided_by now) = abandon_hypothesis_row id rationale decided_by now
call (promote id) = promote_hypothesis_if_proposed id
call (set_direction id direction) = update_programme_direction id direction
call (set_programme_status id status) = update_programme_status id status

-- The store after one call, and after a sequence of calls, failing ones included.
abbrev pub after : Call → State → State
after c s = (call c s).1

unfoldable pub run : List Call → State → State
run [] s = s
run (c ∷ cs) s = run cs (after c s)
