-- ===== src/Candidates/Lineage.antt =====
-- `get_candidate_lineage`, on the table that the registrations grow.
pub mod Registered
use mathlib.Core.Path.{subst}
use labloop.Prelude.{
  ℕ, zero, suc, ◌≤◌, String, ◌≡◌, ◌⊎◌, inl, inr, refl, sym, ap, ◌∙◌, Bool, false, Option, none,
  some, List, [], ◌∷◌, ◌++◌, arith, length, length-append, ◌==◌, string_eq, Option-cases,
}
use labloop.Json.{Json}
use labloop.Table.{fetch, insert}
use labloop.Table.Laws.{fetch-key, fetch-append_one}
use labloop.Tools.Schemas.{coerce_dict}
use labloop.Candidates.{
  Candidate, candidate_key, get_candidate_version, check_candidate_parent_exists,
  check_digest_claim, create_candidate_version, register_candidate, stored_digest, parent_row, walk,
  get_candidate_lineage,
}

-- The chain of candidates from one of them, along the parents in the table, to a genesis.
pub data Chain (cs : List Candidate) : Candidate → List Candidate → Type 0 where
  genesis : (c : Candidate) → c.parent_id ≡ none → Chain cs c (c ∷ [])
  child :
      (c : Candidate) (parent : String) (p : Candidate) {ps : List Candidate}
      → c.parent_id ≡ some parent
      → (parent == "") ≡ false
      → get_candidate_version parent cs ≡ some p
      → Chain cs p ps
      → Chain cs c (c ∷ ps)

-- Candidates one after the other, each with a new id, not empty, and with a parent, if any, that
-- stands before it.
pub data Grown : List Candidate → Type 0 where
  start : Grown []
  grow :
      {cs : List Candidate} (c : Candidate)
      → Grown cs
      → (c.id == "") ≡ false
      → get_candidate_version c.id cs ≡ none
      → check_candidate_parent_exists c.parent_id cs ≡ none
      → Grown (cs ++ c ∷ [])

version-append_old :
    (k : String) (cs : List Candidate) (c : Candidate) {x : Candidate}
    → get_candidate_version k cs ≡ some x
    → get_candidate_version k (cs ++ c ∷ []) ≡ some x
unfolding get_candidate_version
version-append_old k cs c h = fetch-append_one candidate_key k cs c ∙ rw h refl

Chain-append :
    (cs : List Candidate) (new : Candidate) {c : Candidate} {ps : List Candidate}
    → Chain cs c ps
    → Chain (cs ++ new ∷ []) c ps
Chain-append cs new (genesis c e) = genesis c e
Chain-append cs new (child c parent p e given found rest) =
    child c parent p e given (version-append_old parent cs new found) (Chain-append cs new rest)

-- The parent that a registration asks for.
parent-cases :
    (cs : List Candidate) (c : Candidate)
    → check_candidate_parent_exists c.parent_id cs ≡ none
    → (c.parent_id ≡ none)
      ⊎ ((parent : String) × (p : Candidate) × (c.parent_id ≡ some parent)
          × (get_candidate_version parent cs ≡ some p))
unfolding check_candidate_parent_exists
parent-cases cs c h = elim (Option-cases c.parent_id) [
  | inl genesis_row ↦ inl genesis_row
  | inr (parent, e) ↦ elim (Option-cases (get_candidate_version parent cs)) [
    | inl missing ↦ absurd (ground arith)
    | inr (p, found) ↦ inr (parent, p, e, found)
  ]
]

version-append_cases :
    (k : String) (cs : List Candidate) (new : Candidate) {c : Candidate}
    → get_candidate_version k (cs ++ new ∷ []) ≡ some c
    → (get_candidate_version k cs ≡ some c) ⊎ (new ≡ c)
unfolding get_candidate_version
version-append_cases k cs new {c} h = ground (arith, fetch-append_one candidate_key k cs new)

version-id :
    (k : String) (cs : List Candidate) {c : Candidate}
    → get_candidate_version k cs ≡ some c
    → c.id ≡ k
unfolding get_candidate_version
version-id k cs h = fetch-key candidate_key k cs h

Grown-given :
    {cs : List Candidate}
    → Grown cs
    → (k : String) (c : Candidate) → get_candidate_version k cs ≡ some c
    → (k == "") ≡ false
Grown-given start k c h = absurd (unfold get_candidate_version fetch in ground arith)
Grown-given (grow {cs} new before given fresh parented) k c h =
    elim (version-append_cases k cs new h) [
      | inl old ↦ Grown-given before k c old
      | inr e ↦
          subst (λ j. (j == "") ≡ false) (ap candidate_key e ∙ version-id k (cs ++ new ∷ []) h)
            given
    ]

-- Every candidate has a chain, no longer than the table.
Grown-Chain :
    {cs : List Candidate}
    → Grown cs
    → (k : String) (c : Candidate) → get_candidate_version k cs ≡ some c
    → (ps : List Candidate) × Chain cs c ps × (length ps ≤ length cs)
Grown-Chain start k c h = absurd (unfold get_candidate_version fetch in ground arith)
Grown-Chain (grow {cs} new before given fresh parented) k c h =
    elim (version-append_cases k cs new h) [
      | inl old ↦
          let (ps, chain, short) = Grown-Chain before k c old in
          (ps, Chain-append cs new chain, omega (arith, length-append cs (new ∷ []), short))
      | inr e ↦
          subst
            (λ x.
              (ps : List Candidate) × Chain (cs ++ new ∷ []) x ps
              × (length ps ≤ length (cs ++ new ∷ [])))
            e
            (elim (parent-cases cs new parented) [
              | inl none_given ↦
                  (new ∷ [], genesis new none_given, omega (arith, length-append cs (new ∷ [])))
              | inr (parent, p, named, found) ↦
                  let (ps, chain, short) = Grown-Chain before parent p found in
                  (
                    new ∷ ps,
                    child new parent p named (Grown-given before parent p found)
                        (version-append_old parent cs new found) (Chain-append cs new chain),
                    omega (arith, length-append cs (new ∷ []), short),
                  )
            ])
    ]

walk-none : (fuel : ℕ) (cs : List Candidate) → walk fuel cs none ≡ []
unfolding walk
walk-none zero cs = refl
walk-none (suc fuel) cs = refl

-- The walk follows the chain, if the fuel is enough for its length.
walk-Chain :
    (fuel : ℕ) (cs : List Candidate) {c : Candidate} {ps : List Candidate}
    → Chain cs c ps
    → length ps ≤ fuel
    → walk fuel cs (some c) ≡ ps
unfolding walk
walk-Chain zero cs (genesis c e) enough = absurd (omega (arith, enough))
walk-Chain zero cs (child c parent p e given found rest) enough = absurd (omega (arith, enough))
walk-Chain (suc fuel) cs (genesis c e) enough =
    ap (λ l. c ∷ l) (ap (λ o. walk fuel cs (parent_row cs o)) e ∙ walk-none fuel cs)
walk-Chain (suc fuel) cs (child c parent p e given found rest) enough =
    ap (λ l. c ∷ l) (rw e (rw given (rw found (walk-Chain fuel cs rest (omega (arith, enough))))))

-- In a table that grew by registrations, the walk of `get_candidate_lineage` from a candidate ends:
-- with any fuel from the number of candidates on, it answers with one and the same chain along the parents, from the
-- candidate to one without a parent, which is no longer than the table.
pub get_candidate_lineage-ends :
    (cs : List Candidate) (k : String) (c : Candidate)
    → Grown cs
    → get_candidate_version k cs ≡ some c
    → (ps : List Candidate) × Chain cs c ps
      × (length ps ≤ length cs)
      × ((fuel : ℕ) → length cs ≤ fuel → get_candidate_lineage fuel k cs ≡ ps)
unfolding get_candidate_lineage
get_candidate_lineage-ends cs k c grown found =
    let (ps, chain, short) = Grown-Chain grown k c found in
    (
      ps,
      chain,
      short,
      λ fuel enough. rw found (walk-Chain fuel cs chain (omega (arith, short, enough))),
    )
