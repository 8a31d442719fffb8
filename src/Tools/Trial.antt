-- ===== src/Tools/Trial.antt =====
-- `design_experiment`, the part of `run_trial` before the dispatch, `cancel_trial`,
-- `mark_retryable` and `correct_trial_status` of ml-scientist/src/ml_episteme_mcp/tools/trial.py.
-- The executor role is an argument: what it answers to `cancel_async`.
pub mod Design
pub mod Control
pub mod Cancel
use labloop.Prelude.{String, Bool, false, not, ◌&&◌, ◌||◌, Option, none, some, ◌==◌, if◌then◌else◌}
use labloop.Exec.{pure, gets, refuse, raise_if, or_raise, ◌>>=◌, ◌>>◌, ok, err}
use labloop.Strings.{is_blank, contains}
use labloop.Json.{
  Json, Text, Lines, no_line, json_line, text_line, null, str, obj, log, loads, get_or, no_fields,
  truthy,
}
use labloop.Models.New.{new_trial}
use labloop.Models.{Trial, TrialStatus, trial_status_eq}
use labloop.Tools.Schemas.{coerce_dict}
use labloop.Store.State.{
  not_json, hypothesis_not_found, trial_not_found, trial_running, trial_terminal, trial_not_running,
  no_such_attribute, reason_required,
}
use labloop.Store.Rows.{Act, get_programme, get_hypothesis, get_trial, list_trials, create_trial}
use labloop.Store.Trials.{
  update_trial_status, correct_trial_status, update_trial_executor_output, is_correctable,
}
use labloop.Store.Hypotheses.{promote_hypothesis_if_proposed}
use labloop.Commitments.{
  check_hypothesis_exists, check_hypothesis_testable, check_programme_active,
  check_hypothesis_in_programme, check_budget_exhausted, check_wall_time_exhausted,
  check_loop_is_unit, check_bundle_controlled,
}

-- The gates of `design_experiment`, in their order.
unfoldable pub design_gates : String → String → Act (Unit {0})
design_gates programme hypothesis = do
  hyp ← gets (get_hypothesis hypothesis)
  refuse (check_hypothesis_exists hyp)
  h ← or_raise hyp hypothesis_not_found
  refuse (check_hypothesis_testable h)
  p ← gets (get_programme programme)
  refuse (check_programme_active p)
  refuse (← gets (check_hypothesis_in_programme programme hypothesis))
  trials ← gets (list_trials programme)
  refuse (check_budget_exhausted p trials)
  refuse (check_wall_time_exhausted p trials)

unfoldable pub design_experiment : String → String → Json → String → String → Act String
design_experiment programme hypothesis config id now = do
  config_dict ← or_raise (coerce_dict config) not_json
  design_gates programme hypothesis
  create_trial (new_trial programme hypothesis config_dict id now)
  promote_hypothesis_if_proposed hypothesis
  pure id

-- `check_loop_is_unit` on the row that was read, which is then there.
unfoldable pub owned_trial : String → String → Act Trial
owned_trial programme trial = do
  found ← gets (get_trial trial)
  refuse (check_loop_is_unit found programme)
  or_raise found trial_not_found

-- `run_trial` up to the status write.
unfoldable pub start_trial : String → String → String → Act Trial
start_trial programme trial now = do
  t ← owned_trial programme trial
  p ← gets (get_programme programme)
  refuse (check_programme_active p)
  raise_if (t.status == TrialStatus.running) trial_running
  raise_if (is_correctable t.status) trial_terminal
  controlled ← gets (check_bundle_controlled t)
  refuse controlled
  update_trial_status trial TrialStatus.running none now
  pure t

unfoldable pub cancel_trial : Text → String → String → String → Act TrialStatus
cancel_trial cancelled programme trial now = do
  t ← owned_trial programme trial
  if t.status == TrialStatus.designed
      then (update_trial_status trial TrialStatus.abandoned none now >> pure TrialStatus.abandoned)
      else (do
        raise_if (not (t.status == TrialStatus.running)) trial_not_running
        update_trial_status trial TrialStatus.failed none now
        update_trial_executor_output trial cancelled
        pure TrialStatus.failed)

-- `"No running task" in (x or "")`, for a text that is no JSON
mentions_no_task : Lines → Bool
mentions_no_task no_line = false
mentions_no_task (json_line j ls) = mentions_no_task ls
mentions_no_task (text_line t ls) = contains "No running task" t || mentions_no_task ls

abbrev no_running_task : Json → Bool
no_running_task (str (log ls)) = mentions_no_task ls
no_running_task _ = false

-- `out = json.loads(cancel_output)`, `{}` if that fails; a value with no `get` raises.
abbrev keep_loaded : Option Json → Text → String → Act (Unit {0})
keep_loaded none output trial s = (ok tt, s)
keep_loaded (some (obj out)) output trial s =
    if not (no_fields out) && not (no_running_task (get_or "error" null out))
    then update_trial_executor_output trial output s
    else (ok tt, s)
keep_loaded (some j) output trial s = if truthy j then (err no_such_attribute, s) else (ok tt, s)

-- The cancelled process's last output is kept, a "No running task" reply is not.
unfoldable pub keep_cancelled : Option Text → String → Act (Unit {0})
unfolding mentions_no_task
keep_cancelled none trial s = (ok tt, s)
keep_cancelled (some output) trial s = keep_loaded (loads output) output trial s

unfoldable pub mark_retryable : Option Text → String → String → String → String → Act TrialStatus
mark_retryable cancelled programme trial reason now = do
  t ← owned_trial programme trial
  raise_if (not (t.status == TrialStatus.running)) trial_not_running
  update_trial_status trial TrialStatus.retryable (some reason) now
  keep_cancelled cancelled trial
  pure TrialStatus.retryable

-- The tool `correct_trial_status`.
unfoldable pub correct_trial : String → String → TrialStatus → String → String → Act (Unit {0})
correct_trial programme trial status reason now = do
  owned_trial programme trial
  raise_if (is_blank reason) reason_required
  correct_trial_status trial status reason now
