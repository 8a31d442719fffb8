-- ===== src/Store/Frames.antt =====
-- The store calls and the table of hypotheses.
use labloop.Prelude.{◌≡◌, Bool, true, false, arith}
use labloop.Store.State.{State}
use labloop.Store.Rows.{
  create_programme, create_trial, create_bundle, create_observation, create_belief,
  create_conclusion,
}
use labloop.Store.Trials.{
  update_trial_status, correct_trial_status, link_bundle, update_trial_duration,
  update_trial_artifact_path, update_trial_executor_output,
}
use labloop.Store.Hypotheses.{update_programme_direction, update_programme_status}
use labloop.Store.Calls.{
  Call, add_programme, add_hypothesis, add_trial, add_bundle, add_observation, add_belief,
  add_conclusion, set_trial_status, correct_trial, set_bundle, set_duration, set_artifact_path,
  set_output, set_hypothesis_status, abandon, promote, set_direction, set_programme_status, call,
  after,
}

abbrev pub writes_hypotheses : Call → Bool
writes_hypotheses (add_hypothesis a b c d e f) = true
writes_hypotheses (set_hypothesis_status id status) = true
writes_hypotheses (abandon a b c d) = true
writes_hypotheses (promote id) = true
writes_hypotheses _ = false

pub hypotheses-after :
    (c : Call) (s : State) → writes_hypotheses c ≡ false → (after c s).hypotheses ≡ s.hypotheses
unfolding call
hypotheses-after (add_programme p) s w = unfold create_programme in ground arith
hypotheses-after (add_hypothesis a b c d e f) s w = cc
hypotheses-after (add_trial a b c d e) s w = unfold create_trial in ground arith
hypotheses-after (add_bundle b) s w = unfold create_bundle in ground arith
hypotheses-after (add_observation o) s w = unfold create_observation in ground arith
hypotheses-after (add_belief b) s w = unfold create_belief in ground arith
hypotheses-after (add_conclusion c) s w = unfold create_conclusion in ground arith
hypotheses-after (set_trial_status a b c d) s w = unfold update_trial_status in ground arith
hypotheses-after (correct_trial a b c d) s w = unfold correct_trial_status in ground arith
hypotheses-after (set_bundle a b) s w = unfold link_bundle in ground arith
hypotheses-after (set_duration a b) s w = unfold update_trial_duration in ground arith
hypotheses-after (set_artifact_path a b) s w = unfold update_trial_artifact_path in ground arith
hypotheses-after (set_output a b) s w = unfold update_trial_executor_output in ground arith
hypotheses-after (set_hypothesis_status a b) s w = cc
hypotheses-after (abandon a b c d) s w = cc
hypotheses-after (promote a) s w = cc
hypotheses-after (set_direction a b) s w = unfold update_programme_direction in ground arith
hypotheses-after (set_programme_status a b) s w = unfold update_programme_status in ground arith
