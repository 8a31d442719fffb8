-- ===== src/Record.antt =====
-- What an executor record says of the run it stands for: the predicates of
-- ml-scientist/src/ml_episteme_mcp/state/store.py on the column executor_output_json, which gate
-- the label 'completed' and feed the mislabeled_outcome audit.
pub mod Evidence
use mathlib.Core.List.{reverse}
use labloop.Prelude.{
  String, Bool, true, false, not, ◌&&◌, ◌||◌, Option, none, some, List, [], ◌∷◌, ◌++◌, any,
  is_empty, if◌then◌else◌,
}
use labloop.Json.{
  Json, Text, Lines, Fields, null, str, obj, document, log, loads, is_str, truthy, get, has, get_or,
  lines,
}

-- `_EXECUTOR_RECORD_KEYS`
abbrev pub executor_record_keys : List String
executor_record_keys =
    "exit_code" ∷ "status" ∷ "stdout" ∷ "stderr" ∷ "timed_out" ∷ "error" ∷ "metrics" ∷ "output" ∷ []

-- `isinstance(out, dict) and any(k in out for k in _EXECUTOR_RECORD_KEYS)`
abbrev carries_key : Json → Bool
carries_key (obj out) = any (λ k. has k out) executor_record_keys
carries_key _ = false

-- `_has_executor_record`. A text that does not load, the empty text too, carries no verdict.
unfoldable pub has_executor_record : Option Text → Bool
has_executor_record none = false
has_executor_record (some raw) = elim (loads raw) [ none ↦ false | some out ↦ carries_key out ]

abbrev as_object : Json → Option Fields
as_object (obj d) = some d
as_object _ = none

-- The loop of `_last_json_line` over the reversed lines.
first_object : List (Option Json) → Option Fields
first_object [] = none
first_object (some (obj d) ∷ ls) = some d
first_object (line ∷ ls) = first_object ls

-- `_last_json_line`
unfoldable pub last_json_line : Text → Option Fields
unfolding first_object lines
last_json_line (document j) = as_object j
last_json_line (log ls) = first_object (reverse (lines ls))

-- A failure signal of the record, without the value that its message quotes.
pub data Signal : Type 0 where
  outer_status outer_exit_code error_key timed_out inner_error inner_exit_code : Signal

abbrev signal_if : Bool → Signal → List Signal
signal_if b s = if b then s ∷ [] else []

-- `a or b` on Python values
abbrev pub or_value : Json → Json → Json
or_value a b = if truthy a then a else b

-- `inner.get("status") == "error" or inner.get("error")`
abbrev pub inner_failed : Fields → Bool
inner_failed inner =
    is_str "error" (get_or "status" null inner) || truthy (get_or "error" null inner)

-- `inner.get("_exit_code") or inner.get("exit_code")`
abbrev pub inner_rc : Fields → Json
inner_rc inner = or_value (get_or "_exit_code" null inner) (get_or "exit_code" null inner)

unfoldable pub inner_signals : Option Fields → List Signal
inner_signals none = []
inner_signals (some inner) =
    signal_if (inner_failed inner) inner_error
    ++ signal_if (truthy (inner_rc inner)) inner_exit_code

-- `_last_json_line(stdout)`, if `stdout` is a text.
unfoldable pub text_payload : Json → Option Fields
unfolding last_json_line
text_payload (str stdout) = last_json_line stdout
text_payload _ = none

abbrev pub inner_payload : Fields → Option Fields
inner_payload out = text_payload (get_or "stdout" null out)

-- `status in (None, "completed")`
abbrev none_or_completed : Json → Bool
none_or_completed null = true
none_or_completed j = is_str "completed" j

-- `_completion_failure_signals`
unfoldable pub completion_failure_signals : Fields → List Signal
unfolding text_payload inner_signals
completion_failure_signals out =
    signal_if (not (none_or_completed (get_or "status" null out))) outer_status
    ++ (signal_if (truthy (get_or "exit_code" null out)) outer_exit_code
        ++ (signal_if (has "error" out) error_key
            ++ (signal_if (truthy (get_or "timed_out" null out)) timed_out
                ++ inner_signals (inner_payload out))))

-- `_has_run_artifact`
abbrev pub has_run_artifact : Fields → Bool
has_run_artifact out = has "exit_code" out || has "stdout" out

abbrev evidences : Json → Bool
evidences (obj out) = has_run_artifact out && is_empty (completion_failure_signals out)
evidences _ = false

-- `_record_evidences_completion`
unfoldable pub record_evidences_completion : Option Text → Bool
unfolding has_executor_record
record_evidences_completion none = false
record_evidences_completion (some raw) =
    has_executor_record (some raw) && elim (loads raw) [ none ↦ false | some out ↦ evidences out ]
