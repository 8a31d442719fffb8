-- ===== src/Arete/Boundary.antt =====
-- The writable boundary and the admission of a proposal:
-- ml-scientist/src/ml_arete_mcp/enforcement/checks.py.
pub mod Admission
use labloop.Prelude.{
  ℕ, String, ◌≡◌, ◌≢◌, ◌↔◌, ◌⊎◌, inl, inr, refl, Bool, true, false, not, ◌&&◌, ◌||◌, Option, none,
  some, List, [], ◌∷◌, map, filter, any, is_empty, nat_beq, All, In, here, there, filter-some,
  filter-none, arith, if◌then◌else◌, Bool-cases, Eq,
}
use labloop.Strings.{comes_before, codes, strip, lower_code, codes_eq}
use labloop.Json.{Fields, end, field}
use labloop.Arete.Models.{ProposalStatus, Reason, immutable_touched}

pub data Class : Type 0 where
  immutable conditional modifiable unknown : Class

abbrev class_immutable : List String
class_immutable =
    "audit_log" ∷ "event_log" ∷ "audit_semantics" ∷ "artifact_hashing" ∷ "provenance"
    ∷ "artifact_provenance" ∷ "capability_model" ∷ "permission_model" ∷ "permissions"
    ∷ "budget_enforcement" ∷ "compute_ceiling" ∷ "compute_ceilings" ∷ "budgets"
    ∷ "promotion_protocol" ∷ "holdout_access_control" ∷ "heldout_access_control"
    ∷ "held_out_evaluation_access" ∷ "rollback_mechanism" ∷ "enforcement_kernel" ∷ "safety_kernel"
    ∷ []

abbrev class_conditional : List String
class_conditional =
    "evaluator_implementation" ∷ "evaluator" ∷ "metric_weighting" ∷ "metric_weights"
    ∷ "memory_schema" ∷ "scheduler" ∷ []

abbrev class_modifiable : List String
class_modifiable =
    "prompts" ∷ "policies" ∷ "search_policy" ∷ "planner" ∷ "planner_algorithm" ∷ "optimizer_policy"
    ∷ "optimizer" ∷ "role_composition" ∷ "memory_retrieval" ∷ "retrieval_strategy"
    ∷ "code_generation" ∷ "codegen_strategy" ∷ "experiment_templates" ∷ "model_choice"
    ∷ "fine_tuning" ∷ "tool_adapters" ∷ "tool_adaptors" ∷ []

-- `.replace("-", "_").replace(" ", "_")`, on a character
unfoldable pub underscore : ℕ → ℕ
underscore c = if nat_beq c 45 || nat_beq c 32 then 95 else c

-- The code points of the normal form. `str.lower` is taken as far as it yields ASCII.
unfoldable pub normalize_component : String → List ℕ
unfolding underscore
normalize_component name = map (λ c. underscore (lower_code c)) (codes (strip name))

abbrev pub among : List ℕ → List String → Bool
among n names = any (λ name. codes_eq n (codes name)) names

unfoldable pub classify_component : String → Class
classify_component name =
    let n = normalize_component name in
    if among n class_immutable
    then Class.immutable
    else if among n class_conditional
    then Class.conditional
    else if among n class_modifiable
    then Class.modifiable
    else Class.unknown

-- The classes that the proposer declares are not read.
unfoldable pub classify_class_map : Fields → List (String × Class)
classify_class_map end = []
classify_class_map (field name declared rest) =
    (name, classify_component name) ∷ classify_class_map rest

abbrev pub is_immutable : Class → Bool
is_immutable Class.immutable = true
is_immutable _ = false

abbrev pub needs_review : Class → Bool
needs_review Class.conditional = true
needs_review Class.unknown = true
needs_review _ = false

names : List (String × Class) → List String
names [] = []
names ((c, k) ∷ rest) = c ∷ names rest

-- `sorted`, by code points
unfoldable insert_name : String → List String → List String
insert_name x [] = x ∷ []
insert_name x (y ∷ ys) = if comes_before y x then y ∷ insert_name x ys else x ∷ y ∷ ys

unfoldable pub sorted : List String → List String
unfolding insert_name
sorted [] = []
sorted (x ∷ xs) = insert_name x (sorted xs)

unfoldable pub admission_verdict : List (String × Class) → ProposalStatus × Option Reason
unfolding names sorted
admission_verdict classification =
    let touched = filter (λ entry. is_immutable entry.1) classification in
    let flagged = filter (λ entry. needs_review entry.1) classification in
    if not (is_empty touched)
    then (ProposalStatus.rejected, some (immutable_touched (sorted (names touched))))
    else if not (is_empty flagged)
    then (ProposalStatus.conditional, none)
    else (ProposalStatus.admitted, none)
