-- ===== src/Arete/Canaries.antt =====
-- `record_canary` and `close_canary`, ml-scientist/src/ml_arete_mcp/tools/decisions.py.
use labloop.Prelude.{String, Bool, true, false, not, none, string_eq}
use labloop.Exec.{pure, gets, raise_if, or_raise, modify, ◌>>=◌, ◌>>◌}
use labloop.Json.{Fields}
use labloop.Arete.Models.{CanaryStatus}
use labloop.Arete.Store.{
  Act, get_policy_version, get_canary, create_canary, close_canary_row, policy_not_found,
  canary_not_found, canary_closed, canary_status_unknown,
}

unfoldable pub record_canary : String → Fields → String → String → Act String
record_canary policy scope id now = do
  found ← gets (get_policy_version policy)
  p ← or_raise found policy_not_found
  create_canary (record {
    id = id;
    policy_version_id = policy;
    scope = scope;
    status = CanaryStatus.opened;
    created_at = now;
    closed_at = none;
  })
  pure id

abbrev pub is_opened : CanaryStatus → Bool
is_opened CanaryStatus.opened = true
is_opened _ = false

-- `status in {"passed", "regressed"}`
abbrev pub is_closing : CanaryStatus → Bool
is_closing CanaryStatus.opened = false
is_closing _ = true

unfoldable pub close_canary : String → CanaryStatus → String → Act (Unit {0})
close_canary id status now = do
  found ← gets (get_canary id)
  c ← or_raise found canary_not_found
  raise_if (not (is_opened c.status)) canary_closed
  raise_if (not (is_closing status)) canary_status_unknown
  modify (close_canary_row id status now)
