-- ===== src/Tools/Finalize.antt =====
-- `_parse_executor_output`, `_finalize_trial` and `get_trial_status` of
-- ml-scientist/src/ml_episteme_mcp/tools/trial.py: the writes to the trial row. The capture of the
-- executed code and of the artifacts, whose failures are swallowed, is left out.
pub mod Outcome
pub mod Finished
use Prim.Native.Nat.{◌/◌, ◌^◌}
use labloop.Prelude.{
  ◌==◌, ltb, ℕ, ◌*◌, String, Bool, true, false, not, ◌&&◌, ◌||◌, Option, none, some, is_some,
  if◌then◌else◌,
}
use labloop.Exec.{pure, gets, ◌>>=◌, ◌>>◌, ok, err}
use labloop.Json.{
  pos, arr, bool, Json, Text, Fields, null, num, str, obj, end, field, literal, loads, truthy,
  text_truthy, equals_zero, is_str, has, get_or,
}
use labloop.Models.{Trial, TrialStatus, trial_status_eq}
use labloop.Tools.Trial.{owned_trial}
use labloop.Record.{has_executor_record, inner_payload, inner_failed, inner_rc}
use labloop.Store.State.{duration_unbindable}
use labloop.Store.Rows.{Act, get_trial}
use labloop.Store.Trials.{
  update_trial_status, update_trial_duration, update_trial_executor_output, is_correctable,
}

abbrev parsed : Text → Option Json → Fields
parsed output (some (obj out)) = out
parsed output _ = field "status" (str (literal "completed")) (field "raw" (str output) end)

unfoldable pub parse_executor_output : Text → Fields
parse_executor_output output = parsed output (loads output)

-- `inner_error` is set, and is then no empty text.
unfoldable pub inner_error_set : Option Fields → Bool
inner_error_set none = false
inner_error_set (some inner) = inner_failed inner || truthy (inner_rc inner)

-- `status != "completed" or exit_code != 0 or has_error or inner_error`
unfoldable pub reports_failure : Fields → Bool
unfolding inner_error_set
reports_failure out =
    not (is_str "completed" (get_or "status" (str (literal "completed")) out))
    || (not (equals_zero (get_or "exit_code" (num (pos 0) 0) out))
        || (has "error" out || inner_error_set (inner_payload out)))

-- The values that SQLite takes for the column, or refuses with an `InterfaceError`. A text, a
-- negative number or one of more than 63 bits is left out: it would be stored as it is, or raise in
-- another way.
unfoldable pub is_measured : Json → Bool
is_measured null = true
is_measured (bool b) = true
is_measured (num (pos n) k) = ltb n (2 ^ 63)
is_measured (arr xs) = true
is_measured (obj d) = true
is_measured _ = false

-- A value that cannot be bound to the parameter of a statement
unfoldable pub is_unbindable : Json → Bool
is_unbindable (arr xs) = true
is_unbindable (obj d) = true
is_unbindable _ = false

-- A duration in seconds, as the column's thousandths.
unfoldable pub milliseconds : Json → Option ℕ
milliseconds (num (pos n) k) = some (n * 1000 / 10 ^ k)
milliseconds (bool b) = some (if b then 1000 else 0)
milliseconds _ = none

-- `out.get("duration_seconds")`
abbrev pub reported_duration : Fields → Json
reported_duration out = get_or "duration_seconds" null out

-- `if duration is not None: store.update_trial_duration(...)`, for a measured duration
unfoldable pub record_duration : String → Fields → Act (Unit {0})
unfolding milliseconds is_unbindable
record_duration trial out s =
    if is_unbindable (reported_duration out)
    then (err duration_unbindable, s)
    else elim (milliseconds (reported_duration out)) [
      | none ↦ (ok tt, s)
      | some d ↦ update_trial_duration trial d s
    ]

-- The raw output goes to the row that was read; writing the text that is there changes nothing.
unfoldable pub persist_output : String → Text → Act (Unit {0})
persist_output trial output s =
    if is_some (get_trial trial s) && text_truthy output
    then update_trial_executor_output trial output s
    else (ok tt, s)

unfoldable pub finalize_live : String → Text → String → Act TrialStatus
finalize_live trial output now s =
    if reports_failure (parse_executor_output output)
    then (do
      update_trial_status trial TrialStatus.failed none now
      record_duration trial (parse_executor_output output)
      pure TrialStatus.failed)
        s
    else if not (has_executor_record (some output))
    then (update_trial_status trial TrialStatus.failed none now >> pure TrialStatus.failed) s
    else (do
      update_trial_status trial TrialStatus.completed none now
      record_duration trial (parse_executor_output output)
      pure TrialStatus.completed)
        s

-- `trial is not None and trial.status.value in ("completed", "failed", "retryable")`
abbrev finished : Option Trial → Option TrialStatus
finished none = none
finished (some t) = if is_correctable t.status then some t.status else none

unfoldable pub finalize_trial : String → Text → String → Act TrialStatus
finalize_trial trial output now = do
  t ← gets (get_trial trial)
  persist_output trial output
  elim (finished t) [ some status ↦ pure status | none ↦ finalize_live trial output now ]

-- `async_data.get("status") in ("completed", "failed", "timeout")`
abbrev has_result : Json → Bool
has_result status = is_str "completed" status || (is_str "failed" status || is_str "timeout" status)

abbrev is_final : TrialStatus → Bool
is_final status = is_correctable status || (status == TrialStatus.abandoned)

-- `get_trial_status`, given what the executor's `get_async_status` returns: the status that it
-- answers with.
unfoldable pub get_trial_status : Text → String → String → String → Act TrialStatus
get_trial_status async_output programme trial now = do
  t ← owned_trial programme trial
  if has_result (get_or "status" null (parse_executor_output async_output))
      then finalize_trial trial async_output now
      else if is_final t.status
      then pure t.status
      else if is_str "running" (get_or "status" null (parse_executor_output async_output))
      then pure TrialStatus.running
      else pure t.status
