-- ===== src/Memory/Sound.antt =====
-- When the claim graph is well formed.
use labloop.Prelude.{
  ℕ, String, ◌≡◌, Bool, true, false, not, ◌&&◌, ◌||◌, none, some, List, any, is_some, All, ◌==◌,
  string_eq,
}
use labloop.Table.{fetch, IsKeyed}
use labloop.Memory.Models.{Claim, ClaimEdge, Basis, ref_type_value, is_evidence}
use labloop.Memory.Store.{Memory, claim_id, claim_hash, edge_id, same_edge}
use labloop.Memory.Checks.{is_internal}
use labloop.Memory.Claims.{in_bounds}

-- The claim that an edge starts from is there, and so is the one that a claim-typed edge goes to;
-- no edge to an internal id is filed as external.
unfoldable pub edge_ok : List Claim → ClaimEdge → Bool
edge_ok cs e =
    is_some (fetch claim_id e.from_claim cs)
    && ((not (ref_type_value e.ref_type == "claim") || is_some (fetch claim_id e.to_ref cs))
        && not ((ref_type_value e.ref_type == "external") && is_internal e.to_ref))

-- Some edge of the claim bears evidence.
unfoldable pub supported : String → List ClaimEdge → Bool
supported id es = any (λ e. (e.from_claim == id) && is_evidence e.relation) es

-- The basis says how the confidence came about.
unfoldable pub basis_ok : ℕ → List ClaimEdge → Claim → Bool
basis_ok one es c = elim c.confidence_basis [
  | none ↦ false
  | some b ↦ elim b [
    | Basis.grounded ↦
        is_some c.confidence
        && (in_bounds one c.confidence && (is_some c.confidence_computation && supported c.id es))
    | Basis.weakly_grounded ↦
        not (is_some c.confidence) && (not (is_some c.confidence_computation) && supported c.id es)
    | Basis.ungrounded ↦ not (is_some c.confidence) && not (is_some c.confidence_computation)
  ]
]

-- The claim that a claim supersedes is there, and an edge says the same.
unfoldable pub succession_ok : List Claim → List ClaimEdge → Claim → Bool
succession_ok cs es c = elim c.supersedes_id [
  | none ↦ true
  | some id ↦ is_some (fetch claim_id id cs) && any (same_edge c.id id "claim" "supersedes") es
]

abbrev pub claim_ok : ℕ → List Claim → List ClaimEdge → Claim → Bool
claim_ok one cs es c = basis_ok one es c && succession_ok cs es c

pub record WellFormed (one : ℕ) (m : Memory) : Type 0 where
  pub claim_ids : IsKeyed claim_id m.claims
  pub hashes : IsKeyed claim_hash m.claims
  pub edge_ids : IsKeyed edge_id m.edges
  pub edges_ok : All (λ e. edge_ok m.claims e ≡ true) m.edges
  pub claims_ok : All (λ c. claim_ok one m.claims m.edges c ≡ true) m.claims
