-- ===== src/Memory/Assert/Entered.antt =====
-- What an assertion leaves behind.
use labloop.Prelude.{
  ℕ, String, ◌≡◌, ◌∙◌, refl, sym, ap, true, none, some, List, [], ◌∷◌, ◌++◌, is_some, All, arith,
  string_eq, inl, inr, ◌⊎◌, All-left,
}
use mathlib.Core.Path.{subst}
use labloop.Exec.{Result, ok, err, outcome-cases}
use labloop.Table.{fetch, IsKeyed}
use labloop.Table.Laws.{fetch_by_other, fetch-append_new}
use labloop.Memory.Models.{Claim}
use labloop.Memory.Store.{
  Memory, Error, claim_id, claim_hash, get_claim, get_claim_by_hash, transaction,
}
use labloop.Memory.Claims.{Outside, Assertion, Asserted, content_hash, reassert, assert_claim}
use labloop.Memory.Evidence.{check_evidence, attach_edges, supersedes_spec}
use labloop.Memory.Sound.{WellFormed}
use labloop.Memory.Steps.{present}
use labloop.Memory.Loops.{Grown}
use labloop.Memory.Loops.Attach.{attach_edges-Grown}
use labloop.Memory.Keeps.{Grown-WellFormed, Covers, Covers-append}
use labloop.Memory.Minting.{check_evidence-All, created_list, created_found}
use labloop.Memory.Mint.{Minted, mint-Minted, Minted-WellFormed}
use labloop.Memory.Assert.{Branch, timed_checked, timed-Branch, assert-timed, assert_claim-same}

-- What an answered assertion has done.
pub record Entered (outside : Outside) (a : Assertion) (out : Asserted) (m m' : Memory)
    : Type 0 where
  pub c : Claim
  pub by_hash : get_claim_by_hash (content_hash outside a.content) m' ≡ some c
  pub named : out.claim_id ≡ c.id
  pub by_id : get_claim out.claim_id m' ≡ some c
  pub placed : All (λ e. present out.claim_id m'.edges e ≡ true) a.evidence
  pub covers : Covers m.claims m'.claims
  pub how :
      ((m'.claims ≡ m.claims) × (is_some out.edges_added ≡ true))
      ⊎ ((m'.claims ≡ m.claims ++ c ∷ []) × (out.edges_added ≡ none))

module _ (outside : Outside) (a : Assertion) (m : Memory) {out : Asserted} {m' : Memory} where
  reassert-attached :
      (c : Claim)
      → reassert a c m ≡ (ok out, m')
      → (k : List String × ℕ) × (attach_edges c.id a.source_id a.edge_ids a.now 0 a.evidence m
          ≡ (ok k, m'))
        × (out.claim_id ≡ c.id)
        × (is_some out.edges_added ≡ true)
  unfolding reassert transaction
  reassert-attached c h =
      elim (outcome-cases (attach_edges c.id a.source_id a.edge_ids a.now 0 a.evidence m)) [
        | inr (e, m₁, failed) ↦ absurd (ground arith)
        | inl (k, m₁, run) ↦ (k, ground arith, ground arith, ground arith)
      ]

  reassert-Grown :
      (ids : IsKeyed claim_id m.claims) (c : Claim)
      → check_evidence a.evidence m ≡ none
      → get_claim_by_hash (content_hash outside a.content) m ≡ some c
      → reassert a c m ≡ (ok out, m')
      → Grown c.id a.evidence m m'
  unfolding get_claim_by_hash
  reassert-Grown ids c passed existing h =
      let (k, run, named, counted) = reassert-attached c h in
      attach_edges-Grown c.id a.source_id a.edge_ids a.now 0 a.evidence m
        (rw
          (fetch_by_other claim_hash claim_id (content_hash outside a.content) m.claims ids
            existing)
          refl)
        (check_evidence-All a.evidence m passed) run

  reassert-Entered :
      (ids : IsKeyed claim_id m.claims) (c : Claim)
      → check_evidence a.evidence m ≡ none
      → get_claim_by_hash (content_hash outside a.content) m ≡ some c
      → reassert a c m ≡ (ok out, m')
      → Entered outside a out m m'
  unfolding get_claim_by_hash get_claim Covers
  reassert-Entered ids c passed existing h =
      let (k, run, named, counted) = reassert-attached c h in
      let g = reassert-Grown ids c passed existing h in
      record {
        c = c;
        by_hash =
            subst (λ cs. fetch claim_hash (content_hash outside a.content) cs ≡ some c)
              (sym g.claims_same) existing;
        named = named;
        by_id =
            subst (λ id. fetch claim_id id m'.claims ≡ some c) (sym named)
              (subst (λ cs. fetch claim_id c.id cs ≡ some c) (sym g.claims_same)
                (fetch_by_other claim_hash claim_id (content_hash outside a.content) m.claims ids
                  existing));
        placed =
            subst (λ id. All (λ e. present id m'.edges e ≡ true) a.evidence) (sym named) g.placed;
        covers = subst (Covers m.claims) (sym g.claims_same) (λ id found. found);
        how = inl (g.claims_same, counted);
      }

  Minted-Entered : Minted outside a out m m' → Entered outside a out m m'
  unfolding get_claim_by_hash get_claim
  Minted-Entered d =
      let rows = d.grown.claims_same ∙ created_list d.c m d.created in
      record {
        c = d.c;
        by_hash =
            subst (λ cs. fetch claim_hash (content_hash outside a.content) cs ≡ some d.c) (sym rows)
              (fetch-append_new claim_hash (content_hash outside a.content) m.claims d.c d.hashed
                d.fresh_hash);
        named = d.named;
        by_id =
            subst (λ id. fetch claim_id id m'.claims ≡ some d.c) (sym d.named)
              (subst (λ cs. fetch claim_id d.c.id cs ≡ some d.c) (sym d.grown.claims_same)
                (created_found d.c m d.created));
        placed =
            subst (λ id. All (λ e. present id m'.edges e ≡ true) a.evidence) (sym d.named)
              (All-left (λ e. present d.c.id m'.edges e ≡ true) a.evidence
                (supersedes_spec a.supersedes_id) d.grown.placed);
        covers = subst (Covers m.claims) (sym rows) (Covers-append m.claims d.c);
        how = inr (rows, d.counted);
      }

module _ (outside : Outside) (a : Assertion) (m : Memory) (ids : IsKeyed claim_id m.claims) where
  pub assert_Entered :
      {out : Asserted} {m' : Memory}
      → assert_claim outside a m ≡ (ok out, m')
      → Entered outside a out m m'
  unfolding Branch
  assert_Entered {out} {m'} h =
      let (from, until, timed) = assert-timed outside a m h in
      let passed = timed_checked outside a m from until timed in
      elim (timed-Branch outside a m from until timed) [
        | inl (c, existing, run) ↦ reassert-Entered outside a m ids c passed existing run
        | inr (fresh, run) ↦
            Minted-Entered outside a m (mint-Minted outside a from until m passed run)
      ]

module _ (outside : Outside) (a : Assertion) (m : Memory) (w : WellFormed outside.one m) where
  done-WellFormed :
      {out : Asserted} {m' : Memory}
      → assert_claim outside a m ≡ (ok out, m')
      → WellFormed outside.one m'
  unfolding Branch
  done-WellFormed {out} {m'} h =
      let (from, until, timed) = assert-timed outside a m h in
      let passed = timed_checked outside a m from until timed in
      elim (timed-Branch outside a m from until timed) [
        | inl (c, existing, run) ↦
            Grown-WellFormed outside.one c.id a.evidence m m'
              (reassert-Grown outside a m w.claim_ids c passed existing run) w
        | inr (fresh, run) ↦
            Minted-WellFormed outside a out m m' (mint-Minted outside a from until m passed run) w
      ]

  -- Whatever `assert_claim` answers, the graph is well formed after it if it was before: the ids
  -- and the content hashes are unique, every edge starts from a claim and ends, where it is
  -- claim-typed, in one, no edge to an internal id is filed as external, the basis of each claim
  -- fits its confidence, its computation and its edges, and each claim that supersedes another has
  -- the edge that says so.
  pub assert_claim-WellFormed :
      {r : Result Error Asserted} {m' : Memory}
      → assert_claim outside a m ≡ (r, m')
      → WellFormed outside.one m'
  assert_claim-WellFormed {r} {m'} h = elim (outcome-cases (assert_claim outside a m)) [
    | inr (e, m₁, failed) ↦
        subst (WellFormed outside.one)
          (sym
            (ap (λ p. p.1) (sym h) ∙ ap (λ p. p.1) failed ∙ assert_claim-same outside a m failed))
          w
    | inl (out, m₁, done) ↦
        subst (WellFormed outside.one) (ap (λ p. p.1) (sym done) ∙ ap (λ p. p.1) h)
          (done-WellFormed done)
  ]

module _ (outside : Outside) (a : Assertion) (m : Memory) (ids : IsKeyed claim_id m.claims) where
  -- In a graph whose claims have ids of their own, `assert_claim` either reports an error and leaves
  -- the graph as it was, or names a claim that
  -- has the hash of the content, with an edge for every dict of the evidence; the claim is then a
  -- new last row, or it was there and no claim has changed.
  pub assert_claim-outcome :
      ((out : Asserted) × (m' : Memory) × (assert_claim outside a m ≡ (ok out, m'))
        × Entered outside a out m m')
      ⊎ ((e : Error) × (assert_claim outside a m ≡ (err e, m)))
  assert_claim-outcome = elim (outcome-cases (assert_claim outside a m)) [
    | inr (e, m', refused) ↦
        inr (e, ground (arith, assert_claim-same outside a m {e = e} {m' = m'} refused))
    | inl (out, m', done) ↦ inl (out, m', done, assert_Entered outside a m ids done)
  ]
