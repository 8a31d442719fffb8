-- ===== src/Store/Trials.antt =====
-- The writes of one trial row: `update_trial_status`, `correct_trial_status`, `link_bundle` and the
-- plain updates. ml-scientist/src/ml_episteme_mcp/state/store.py.
use mathlib.Core.Bool.{not}
use labloop.Prelude.{String, ℕ, Bool, true, false, ◌&&◌, Option, none, some, ◌==◌, if◌then◌else◌}
use labloop.Json.{
  Json, Text, Fields, str, arr, obj, end, field, nil, cons, literal, loads, dumps, get, put,
  append_item, text_truthy,
}
use labloop.Exec.{ok, err}
use labloop.Table.{update}
use labloop.Models.{Trial, TrialStatus, trial_status_eq}
use labloop.Record.{record_evidences_completion}
use labloop.Store.State.{
  State, Error, trial_not_found, illegal_transition, unevidenced_completion, not_correctable,
  bad_correction_target, corrections_not_a_list, trial_id,
}
use labloop.Store.Transitions.{trial_transitions, validate_transition}
use labloop.Store.Rows.{Act, get_trial}

-- `UPDATE trials SET ... WHERE id = ?`
abbrev pub set_trial : String → (Trial → Trial) → State → State
set_trial id f s = record s { trials = update trial_id id f s.trials }

-- `COALESCE(column, now)`
abbrev pub coalesce : Option String → String → Option String
coalesce none now = some now
coalesce (some old) now = some old

-- The columns that `update_trial_status` writes for each target status.
unfoldable pub stamp_status : TrialStatus → String → Option String → Trial → Trial
stamp_status TrialStatus.running now reason t = record t {
  status = TrialStatus.running;
  started_at = coalesce t.started_at now;
}
stamp_status TrialStatus.retryable now (some reason) t = record t {
  status = TrialStatus.retryable;
  finished_at = coalesce t.finished_at now;
  retry_reason = some reason;
}
stamp_status TrialStatus.designed now reason t = record t { status = TrialStatus.designed }
stamp_status status now reason t = record t {
  status = status;
  finished_at = coalesce t.finished_at now;
}

-- The checks of `update_trial_status` on the row that it read.
unfoldable pub check_status_update : TrialStatus → Trial → Option Error
unfolding trial_transitions validate_transition
check_status_update status t =
    if not (validate_transition trial_transitions t.status status)
    then some illegal_transition
    else if (status == TrialStatus.completed)
        && not (record_evidences_completion t.executor_output_json)
    then some unevidenced_completion
    else none

unfoldable pub update_trial_status : String → TrialStatus → Option String → String → Act (Unit {0})
update_trial_status id status reason now s = elim (get_trial id s) [
  | none ↦ (err trial_not_found, s)
  | some t ↦ elim (check_status_update status t) [
    | some e ↦ (err e, s)
    | none ↦ (ok tt, set_trial id (stamp_status status now reason) s)
  ]
]

-- `status in ("completed", "failed", "retryable")`
abbrev pub is_correctable : TrialStatus → Bool
is_correctable TrialStatus.completed = true
is_correctable TrialStatus.failed = true
is_correctable TrialStatus.retryable = true
is_correctable _ = false

-- `t.status.value`
abbrev pub status_value : TrialStatus → String
status_value TrialStatus.designed = "designed"
status_value TrialStatus.running = "running"
status_value TrialStatus.completed = "completed"
status_value TrialStatus.failed = "failed"
status_value TrialStatus.retryable = "retryable"
status_value TrialStatus.abandoned = "abandoned"

abbrev loaded_base : Text → Option Json → Fields
loaded_base raw (some (obj out)) = out
loaded_base raw _ = field "unparsed_output" (str raw) end

-- The record that a correction starts from: the object that the column holds, or the text that
-- does not read as one under 'unparsed_output'. An absent or empty column reads as `{}`.
unfoldable pub correction_base : Option Text → Fields
correction_base none = end
correction_base (some raw) = if text_truthy raw then loaded_base raw (loads raw) else end

abbrev pub correction : TrialStatus → TrialStatus → String → String → Json
correction from to reason now = obj (
    field "from" (str (literal (status_value from))) (
      field "to" (str (literal (status_value to)))
        (field "reason" (str (literal reason)) (field "corrected_at" (str (literal now)) end))))

-- The list under 'corrections' with the entry appended; a value that is no list has no `append`.
unfoldable pub corrected_list : Json → Option Json → Option Json
corrected_list entry none = some (arr (cons entry nil))
corrected_list entry (some (arr entries)) = some (arr (append_item entries entry))
corrected_list entry (some _) = none

-- `out.setdefault("corrections", []).append(entry)`
unfoldable pub append_correction : Json → Fields → Option Fields
append_correction entry out = elim (corrected_list entry (get "corrections" out)) [
  | none ↦ none
  | some entries ↦ some (put "corrections" entries out)
]

unfoldable pub check_correction : TrialStatus → Trial → Option Error
check_correction status t =
    if not (is_correctable t.status)
    then some not_correctable
    else if not (is_correctable status)
    then some bad_correction_target
    else if (status == TrialStatus.completed)
        && not (record_evidences_completion t.executor_output_json)
    then some unevidenced_completion
    else none

-- The columns that `correct_trial_status` writes.
unfoldable pub stamp_correction : TrialStatus → Fields → String → Trial → Trial
stamp_correction TrialStatus.retryable out reason t = record t {
  status = TrialStatus.retryable;
  executor_output_json = some (dumps (obj out));
  retry_reason = some reason;
}
stamp_correction status out reason t = record t {
  status = status;
  executor_output_json = some (dumps (obj out));
}

unfoldable pub correct_trial_status : String → TrialStatus → String → String → Act (Unit {0})
unfolding check_correction
correct_trial_status id status reason now s = elim (get_trial id s) [
  | none ↦ (err trial_not_found, s)
  | some t ↦ elim (check_correction status t) [
    | some e ↦ (err e, s)
    | none ↦
        elim (append_correction (correction t.status status reason now)
          (correction_base t.executor_output_json)) [
            | none ↦ (err corrections_not_a_list, s)
            | some out ↦ (ok tt, set_trial id (stamp_correction status out reason) s)
          ]
  ]
]

unfoldable pub link_bundle : String → String → Act (Unit {0})
link_bundle id bundle s = (ok tt, set_trial id (λ t. record t { bundle_id = some bundle }) s)

unfoldable pub update_trial_duration : String → ℕ → Act (Unit {0})
update_trial_duration id seconds s =
    (ok tt, set_trial id (λ t. record t { duration_seconds = some seconds }) s)

unfoldable pub update_trial_artifact_path : String → String → Act (Unit {0})
update_trial_artifact_path id path s =
    (ok tt, set_trial id (λ t. record t { artifact_path = some path }) s)

unfoldable pub update_trial_executor_output : String → Text → Act (Unit {0})
update_trial_executor_output id output s =
    (ok tt, set_trial id (λ t. record t { executor_output_json = some output }) s)
