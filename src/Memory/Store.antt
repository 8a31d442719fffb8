-- ===== src/Memory/Store.antt =====
-- `MemoryStore`, ml-scientist/src/ml_anamnesis_mcp/state/store.py: the tables of claims and edges
-- with their keys (`PRAGMA foreign_keys = ON`), the inserts, the reads and the transaction.
use labloop.Prelude.{
  String, Bool, true, not, ◌&&◌, ◌||◌, Option, none, some, List, [], ◌∷◌, filter, is_some, ◌==◌,
  string_eq, if◌then◌else◌,
}
use labloop.Exec.{Exec, ok, err}
use labloop.Table.{fetch, insert}
use labloop.Memory.Models.{Claim, ClaimEdge, ref_type_value, relation_value}

pub record Memory : Type 0 where
  pub claims : List Claim
  pub edges : List ClaimEdge

-- The refusals of the handlers, and the exceptions that they catch.
pub data Error : Type 0 where
  not_iso_8601 not_timezone_aware empty_validity_interval : Error
  relation_invalid ref_type_invalid internal_filed_as_external claim_type_invalid : Error
  to_ref_not_found superseded_not_found claim_not_found self_edge : Error
  computation_failed computation_without_evidence : Error
  key_error value_error validation_error integrity_error : Error

abbrev pub Act : Type 0 → Type 0
Act A = Exec Memory Error A

abbrev pub claim_id : Claim → String
claim_id c = c.id

abbrev pub claim_hash : Claim → String
claim_hash c = c.content_hash

abbrev pub edge_id : ClaimEdge → String
edge_id e = e.id

unfoldable pub get_claim : String → Memory → Option Claim
get_claim id m = fetch claim_id id m.claims

unfoldable pub get_claim_by_hash : String → Memory → Option Claim
get_claim_by_hash chash m = fetch claim_hash chash m.claims

unfoldable pub has_claim : Option String → Memory → Bool
unfolding get_claim
has_claim none m = true
has_claim (some id) m = is_some (get_claim id m)

-- The primary key, `content_hash TEXT NOT NULL UNIQUE` and the foreign key of `supersedes_id`.
unfoldable pub create_claim : Claim → Act (Unit {0})
unfolding get_claim_by_hash has_claim
create_claim c m = elim (insert claim_id c m.claims) [
  | none ↦ (err integrity_error, m)
  | some rows ↦
      if is_some (get_claim_by_hash c.content_hash m) || not (has_claim c.supersedes_id m)
      then (err integrity_error, m)
      else (ok tt, record m { claims = rows })
]

-- The primary key, and the foreign key of `from_claim`.
unfoldable pub create_edge : ClaimEdge → Act (Unit {0})
unfolding get_claim
create_edge e m = elim (insert edge_id e m.edges) [
  | none ↦ (err integrity_error, m)
  | some rows ↦
      if is_some (get_claim e.from_claim m)
      then (ok tt, record m { edges = rows })
      else (err integrity_error, m)
]

abbrev pub same_edge : String → String → String → String → ClaimEdge → Bool
same_edge from to_ref ref_type relation e =
    (e.from_claim == from)
    && ((e.to_ref == to_ref)
        && ((ref_type_value e.ref_type == ref_type) && (relation_value e.relation == relation)))

abbrev pub first : {A : Type 0} → (A → Bool) → List A → Option A
first p [] = none
first p (x ∷ xs) = if p x then some x else first p xs

unfoldable pub find_edge : String → String → String → String → Memory → Option ClaimEdge
find_edge from to_ref ref_type relation m = first (same_edge from to_ref ref_type relation) m.edges

unfoldable pub edges_from : String → Memory → List ClaimEdge
edges_from id m = filter (λ e. e.from_claim == id) m.edges

unfoldable pub edges_to : String → Memory → List ClaimEdge
edges_to ref m = filter (λ e. e.to_ref == ref) m.edges

-- `with store.transaction()`: what was written is rolled back on an error.
unfoldable pub transaction : {A : Type 0} → Act A → Act A
transaction act m = let (r, m') = act m in elim r [ ok a ↦ (ok a, m') | err e ↦ (err e, m) ]
