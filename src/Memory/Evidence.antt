-- ===== src/Memory/Evidence.antt =====
-- The evidence edges of `assert_claim`, ml-scientist/src/ml_anamnesis_mcp/tools/claims.py: their
-- checks and the loops that write them. An edge is a dict by its four keys, `none` for a missing
-- one.
use labloop.Prelude.{
  ℕ, suc, String, Bool, false, not, ◌&&◌, Option, none, some, List, [], ◌∷◌, is_some, ◌==◌,
  string_eq, if◌then◌else◌,
}
use labloop.Exec.{pure, gets, or_raise, ◌>>=◌, ◌>>◌}
use labloop.Memory.Models.{ClaimEdge, ref_type_of, relation_of, is_evidence}
use labloop.Memory.Store.{
  Memory, Error, Act, get_claim, create_edge, find_edge, to_ref_not_found, key_error, value_error,
}
use labloop.Memory.Checks.{check_relation_valid, check_ref_type_valid, check_ref_type_consistent}

pub record Spec : Type 0 where
  pub to_ref : Option String
  pub ref_type : Option String
  pub relation : Option String
  pub source_id : Option (Option String)

-- `d.get(k, default)`
abbrev pub default {ℓ} : {A : Type ℓ} → A → Option A → A
default a none = a
default a (some b) = b

-- The body of the loop that validates the evidence before anything is written.
unfoldable pub check_spec : Spec → Memory → Option Error
check_spec e m = elim (check_ref_type_valid (default "" e.ref_type)) [
  | some error ↦ some error
  | none ↦ elim (check_relation_valid (default "" e.relation)) [
    | some error ↦ some error
    | none ↦ elim (check_ref_type_consistent (default "" e.to_ref) (default "" e.ref_type)) [
      | some error ↦ some error
      | none ↦
          if (default "" e.ref_type == "claim") && not (is_some (get_claim (default "" e.to_ref) m))
          then some to_ref_not_found
          else none
    ]
  ]
]

unfoldable pub check_evidence : List Spec → Memory → Option Error
unfolding check_spec
check_evidence [] m = none
check_evidence (e ∷ es) m = elim (check_spec e m) [
  | some error ↦ some error
  | none ↦ check_evidence es m
]

-- `ClaimEdge(...)` from a dict, with the `KeyError` of a missing key and the `ValueError` of an
-- enum.
unfoldable pub edge_of : String → Option String → String → String → Spec → Act ClaimEdge
edge_of from source id now e = do
  to_ref ← or_raise e.to_ref key_error
  ref_type ← or_raise e.ref_type key_error
  relation ← or_raise e.relation key_error
  t ← or_raise (ref_type_of ref_type) value_error
  r ← or_raise (relation_of relation) value_error
  pure (record {
    id = id;
    from_claim = from;
    to_ref = to_ref;
    ref_type = t;
    relation = r;
    source_id = default source e.source_id;
    created_at = now;
  })

-- The loop of the mint.
unfoldable pub mint_edges :
    String → Option String → (ℕ → String) → String → ℕ → List Spec → Act (List String)
unfolding edge_of
mint_edges from source ids now i [] = pure []
mint_edges from source ids now i (e ∷ es) = do
  edge ← edge_of from source (ids i) now e
  create_edge edge
  rest ← mint_edges from source ids now (suc i) es
  pure (edge.id ∷ rest)

-- The loop of a deduplicated assertion: the ids of the edges, and how many are new.
unfoldable pub attach_edges :
    String → Option String → (ℕ → String) → String → ℕ → List Spec → Act (List String × ℕ)
unfolding edge_of
attach_edges from source ids now i [] = pure ([], 0)
attach_edges from source ids now i (e ∷ es) = do
  to_ref ← or_raise e.to_ref key_error
  ref_type ← or_raise e.ref_type key_error
  relation ← or_raise e.relation key_error
  dup ← gets (find_edge from to_ref ref_type relation)
  elim dup [
    | some d ↦ (do rest ← attach_edges from source ids now (suc i) es; pure (d.id ∷ rest.0, rest.1))
    | none ↦ (do
      edge ← edge_of from source (ids i) now e
      create_edge edge
      rest ← attach_edges from source ids now (suc i) es
      pure (edge.id ∷ rest.0, suc rest.1))
  ]

-- `any(e.get("relation") in EVIDENCE_RELATIONS for e in evidence)`
unfoldable pub brings_evidence : Spec → Bool
brings_evidence e = elim e.relation [
  | none ↦ false
  | some v ↦ elim (relation_of v) [ none ↦ false | some r ↦ is_evidence r ]
]

abbrev pub supersedes_spec : Option String → List Spec
supersedes_spec none = []
supersedes_spec (some id) =
    record {
      to_ref = some id;
      ref_type = some "claim";
      relation = some "supersedes";
      source_id = none;
    }
    ∷ []
