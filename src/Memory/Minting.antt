-- ===== src/Memory/Minting.antt =====
-- The branch of `assert_claim` that mints a claim.
use labloop.Prelude.{
  ℕ, String, ◌≡◌, refl, Bool, true, false, Option, none, some, List, [], ◌∷◌, ◌++◌, any, All, arith,
  eq_iff, string_eq, Option-cases, inl, inr,
}
use labloop.Exec.{ok, outcome-cases}
use labloop.Json.{Fields}
use labloop.Table.{fetch, insert}
use labloop.Table.Laws.{insert-eq, fetch-append_one}
use labloop.Memory.Models.{Claim, ClaimEdge, Basis}
use labloop.Memory.Models.Values.{ref_type_of_claim, relation_of_supersedes}
use labloop.Memory.Store.{
  Memory, claim_id, claim_hash, create_claim, get_claim, get_claim_by_hash, has_claim, transaction,
}
use labloop.Memory.Checks.{check_ref_type_valid, check_relation_valid, check_ref_type_consistent}
use labloop.Memory.Claims.{
  Outside, Assertion, Asserted, ground_confidence, new_claim, write_claim, mint, in_bounds,
  content_hash,
}
use labloop.Memory.Evidence.{
  Spec, check_spec, check_evidence, brings_evidence, default, supersedes_spec, mint_edges,
}
use labloop.Memory.Sound.{supported, basis_ok, succession_ok}
use labloop.Memory.Steps.{present}
use labloop.Memory.Keeps.{Covers}

-- `create_claim`, when it succeeds

module _ (c : Claim) (m : Memory) {u : Unit {0}} {m' : Memory}
    (done : create_claim c m ≡ (ok u, m')) where
  pub created_row : insert claim_id c m.claims ≡ some m'.claims
  unfolding create_claim
  created_row = ground arith

  pub created_edges : m'.edges ≡ m.edges
  unfolding create_claim
  created_edges = ground arith

  pub created_new_hash : fetch claim_hash c.content_hash m.claims ≡ none
  unfolding create_claim get_claim_by_hash
  created_new_hash = ground arith

  pub created_superseded : has_claim c.supersedes_id m ≡ true
  unfolding create_claim
  created_superseded = ground arith

  pub created_list : m'.claims ≡ m.claims ++ c ∷ []
  created_list = insert-eq claim_id c m.claims created_row

  pub created_found : fetch claim_id c.id m'.claims ≡ some c
  unfolding insert
  created_found = ground (
    arith,
    created_list,
    created_row,
    fetch-append_one claim_id c.id m.claims c,
    eq_iff c.id c.id,
  )

-- A check that has passed, on more claims.
pub check_spec-grow :
    (e : Spec) (m m' : Memory)
    → Covers m.claims m'.claims
    → check_spec e m ≡ none
    → check_spec e m' ≡ none
unfolding check_spec get_claim Covers
check_spec-grow e m m' covers h = ground (arith, covers (default "" e.to_ref))

pub check_evidence-All :
    (es : List Spec) (m : Memory) → check_evidence es m ≡ none → All (λ e. check_spec e m ≡ none) es
unfolding check_evidence
check_evidence-All [] m h = tt
check_evidence-All (e ∷ es) m h = elim (Option-cases (check_spec e m)) [
  | inl passed ↦ (passed, check_evidence-All es m (ground arith))
  | inr (error, failed) ↦ absurd (ground arith)
]

check_evidence-cons :
    (e : Spec) (es : List Spec) (m : Memory)
    → check_spec e m ≡ none
    → check_evidence es m ≡ none
    → check_evidence (e ∷ es) m ≡ none
unfolding check_evidence
check_evidence-cons e es m h k = ground arith

pub All-check_evidence :
    (es : List Spec) (m : Memory) → All (λ e. check_spec e m ≡ none) es → check_evidence es m ≡ none
unfolding check_evidence
All-check_evidence [] m h = refl
All-check_evidence (e ∷ es) m h = check_evidence-cons e es m h.0 (All-check_evidence es m h.1)

pub supersedes_spec-passes :
    (id : Option String) (m : Memory)
    → has_claim id m ≡ true
    → All (λ e. check_spec e m ≡ none) (supersedes_spec id)
unfolding has_claim check_spec check_ref_type_valid check_relation_valid check_ref_type_consistent
supersedes_spec-passes none m h = tt
supersedes_spec-passes (some id) m h =
    (ground (arith, ref_type_of_claim, relation_of_supersedes), tt)

-- The steps of `write_claim`
pub write_claim-steps :
    (a : Assertion) (c : Claim) (m : Memory) {ids : List String} {m' : Memory}
    → write_claim a c m ≡ (ok ids, m')
    → (u : Unit {0}) × (m₁ : Memory) × (create_claim c m ≡ (ok u, m₁))
      × (mint_edges c.id a.source_id a.edge_ids a.now 0
            (a.evidence ++ supersedes_spec a.supersedes_id)
            m₁
          ≡ (ok ids, m'))
unfolding write_claim transaction
write_claim-steps a c m {ids} {m'} h = elim (outcome-cases (create_claim c m)) [
  | inr (e, m₁, failed) ↦ absurd (ground arith)
  | inl (u, m₁, created) ↦ (u, m₁, created, ground arith)
]

ground_confidence-basis :
    (outside : Outside) (computation : Option Fields) (has_evidence : Bool) (m : Memory)
    (es : List ClaimEdge) (c : Claim) {g : Option ℕ × Basis × Option Fields} {m' : Memory}
    → ground_confidence outside computation has_evidence m ≡ (ok g, m')
    → c.confidence ≡ g.0
    → c.confidence_basis ≡ some g.1
    → c.confidence_computation ≡ g.2
    → in_bounds outside.one g.0 ≡ true
    → (has_evidence ≡ true → supported c.id es ≡ true)
    → basis_ok outside.one es c ≡ true
unfolding ground_confidence basis_ok
ground_confidence-basis outside none true m es c h e₀ e₁ e₂ bounds holds =
    ground (arith, holds refl)
ground_confidence-basis outside none false m es c h e₀ e₁ e₂ bounds holds = ground arith
ground_confidence-basis outside (some x) true m es c h e₀ e₁ e₂ bounds holds =
    ground (arith, holds refl)
ground_confidence-basis outside (some x) false m es c h e₀ e₁ e₂ bounds holds = ground arith

pub placed-succession_ok :
    (s : Option String) (cs : List Claim) (es : List ClaimEdge) (c : Claim)
    → c.supersedes_id ≡ s
    → has_claim s (record { claims = cs; edges = es }) ≡ true
    → All (λ e. present c.id es e ≡ true) (supersedes_spec s)
    → succession_ok cs es c ≡ true
unfolding has_claim get_claim succession_ok
placed-succession_ok none cs es c eq there placed = ground arith
placed-succession_ok (some id) cs es c eq there placed = ground (arith, placed.0)

-- What `mint` has gone through when it answers.
module _ (outside : Outside) (a : Assertion) (from until : Option String) (m : Memory) where
  unfoldable pub evidenced : Bool
  evidenced = any brings_evidence a.evidence

  unfoldable pub Steps : Asserted → Memory → Type 0
  Steps out m' =
      (g : Option ℕ × Basis × Option Fields) × (c : Claim) × (ids : List String)
      × (ground_confidence outside a.confidence_computation evidenced m ≡ (ok g, m))
      × (new_claim outside a g from until m ≡ (ok c, m))
      × (write_claim a c m ≡ (ok ids, m'))
      × (out.claim_id ≡ c.id)
      × (out.edges_added ≡ none)

  ground_same :
      {g : Option ℕ × Basis × Option Fields} {m' : Memory}
      → ground_confidence outside a.confidence_computation evidenced m ≡ (ok g, m')
      → m' ≡ m
  unfolding ground_confidence
  ground_same h = ground arith

  new_same :
      (g : Option ℕ × Basis × Option Fields) {c : Claim} {m₁ : Memory}
      → new_claim outside a g from until m ≡ (ok c, m₁)
      → m₁ ≡ m
  unfolding new_claim
  new_same g h = ground arith

  pub mint-Steps :
      {out : Asserted} {m' : Memory} → mint outside a from until m ≡ (ok out, m') → Steps out m'
  unfolding mint Steps evidenced
  mint-Steps {out} {m'} h =
      elim (outcome-cases (ground_confidence outside a.confidence_computation evidenced m)) [
        | inr (e, m₀, failed) ↦ absurd (ground arith)
        | inl (g, m₀, grounded) ↦ elim (outcome-cases (new_claim outside a g from until m)) [
          | inr (e, m₁, failed) ↦ absurd (ground (arith, ground_same grounded))
          | inl (c, m₁, made) ↦ elim (outcome-cases (write_claim a c m)) [
            | inr (e, m₂, failed) ↦ absurd (ground (arith, ground_same grounded, new_same g made))
            | inl (ids, m₂, written) ↦ (
              g,
              c,
              ids,
              ground (arith, ground_same grounded),
              ground (arith, new_same g made),
              ground (arith, ground_same grounded, new_same g made),
              ground (arith, ground_same grounded, new_same g made),
              ground (arith, ground_same grounded, new_same g made),
            )
          ]
        ]
      ]

  -- The fields of the new claim.
  module _ (g : Option ℕ × Basis × Option Fields) (c : Claim)
      (made : new_claim outside a g from until m ≡ (ok c, m)) where
    pub new_superseded : c.supersedes_id ≡ a.supersedes_id
    unfolding new_claim
    new_superseded = ground arith

    pub new_hash : c.content_hash ≡ content_hash outside a.content
    unfolding new_claim
    new_hash = ground arith

    pub new_basis_ok :
        (es : List ClaimEdge)
        → ground_confidence outside a.confidence_computation evidenced m ≡ (ok g, m)
        → (evidenced ≡ true → supported c.id es ≡ true)
        → basis_ok outside.one es c ≡ true
    unfolding new_claim
    new_basis_ok es grounded holds =
        ground_confidence-basis outside a.confidence_computation evidenced m es c grounded
          (ground arith) (ground arith) (ground arith) (ground arith) holds
