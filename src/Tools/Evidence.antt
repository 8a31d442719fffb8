-- ===== src/Tools/Evidence.antt =====
-- `record_observation` and `update_belief`, ml-scientist/src/ml_episteme_mcp/tools/observation.py
-- and belief.py. The optimizer role of `update_belief` is an argument: what its calls answer, in
-- their order, or `none` where one of them raises.
pub mod Outcome
use labloop.Prelude.{String, Option, none, some}
use labloop.Exec.{pure, gets, refuse, or_raise, ◌>>=◌, ◌>>◌}
use labloop.Json.{Json, Fields, field, end, obj, str, literal, dumps, loads}
use labloop.Models.{Programme, Trial}
use labloop.Tools.Schemas.{coerce_dict}
use labloop.Store.State.{State, Error, not_json, observation_not_found, optimizer_failed}
use labloop.Store.Rows.{
  Act, get_programme, get_trial, get_observation, create_observation, create_belief,
}
use labloop.Commitments.{
  check_programme_active, check_observation_prerequisites, check_reproducibility,
  check_memory_precedes_optimization, check_belief_has_metrics,
}

-- `if trial is not None: check_programme_active(...)`
abbrev check_trial_programme : Option Trial → State → Option Error
check_trial_programme none s = none
check_trial_programme (some t) s = check_programme_active (get_programme t.programme_id s)

unfoldable pub record_observation : String → Json → Json → String → String → String → Act String
record_observation trial metrics variance region id now = do
  metrics_dict ← or_raise (coerce_dict metrics) not_json
  variance_dict ← or_raise (coerce_dict variance) not_json
  t ← gets (get_trial trial)
  programme_closed ← gets (check_trial_programme t)
  refuse programme_closed
  refuse (check_observation_prerequisites t)
  refuse (check_reproducibility variance_dict)
  create_observation (record {
    id = id;
    trial_id = trial;
    metrics_json = dumps (obj metrics_dict);
    variance_json = dumps (obj variance_dict);
    spatiotemporal_region = region;
    created_at = now;
  })
  pure id

abbrev trial_programme : Option Trial → Option String
trial_programme none = none
trial_programme (some t) = some t.programme_id

-- `json.loads(obs.metrics_json)`, an object in every row that `record_observation` wrote
abbrev pub stored_metrics : Option Json → Option Fields
stored_metrics (some (obj d)) = some d
stored_metrics _ = none

-- What the optimizer answers after it has been told a result
pub record Posterior : Type 0 where
  pub best_trials : Json
  pub param_importance : Json

-- `programme.metric_direction if programme else "maximize"`
abbrev pub direction_of : Option Programme → String
direction_of none = "maximize"
direction_of (some p) = p.metric_direction

-- The dict of `state_json`
abbrev pub belief_state : String → Fields → Posterior → Fields
belief_state observation metrics posterior =
    field "updated_from_observation" (str (literal observation)) (
      field "metrics" (obj metrics) (
        field "best_trials" posterior.best_trials
          (field "param_importance" posterior.param_importance end)))

-- `optimizer programme trial metrics direction`: the answers of `best_trials` and
-- `param_importance` after the `tell`.
unfoldable pub update_belief :
    (String → String → Fields → String → Option Posterior)
    → String
    → String
    → String
    → String
    → String
    → Act String
update_belief optimizer programme trial observation id now = do
  p ← gets (get_programme programme)
  refuse (check_programme_active p)
  found ← gets (get_observation observation)
  obs ← or_raise found observation_not_found
  t ← gets (get_trial trial)
  refuse
      (check_memory_precedes_optimization (some obs.trial_id) trial (trial_programme t) programme)
  metrics ← or_raise (stored_metrics (loads obs.metrics_json)) not_json
  refuse (check_belief_has_metrics metrics)
  posterior ← or_raise (optimizer programme trial metrics (direction_of p)) optimizer_failed
  create_belief (record {
    id = id;
    programme_id = programme;
    state_json = dumps (obj (belief_state observation metrics posterior));
    updated_at = now;
  })
  pure id
