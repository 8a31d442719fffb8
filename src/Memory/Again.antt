-- ===== src/Memory/Again.antt =====
-- A second assertion of the same content.
use labloop.Prelude.{
  ℕ, String, ◌≡◌, refl, sym, true, false, Option, none, some, List, All, arith, inl, inr, All-map,
}
use mathlib.Core.Path.{subst}
use labloop.Exec.{ok, outcome-cases}
use labloop.Memory.Models.{Claim}
use labloop.Memory.Store.{claim_id, Memory, get_claim_by_hash, transaction}
use labloop.Memory.Claims.{
  Outside, Assertion, Asserted, content_hash, normalize_time, reassert, assert_timed, assert_claim,
  interval_empty,
}
use labloop.Memory.Evidence.{check_spec, check_evidence, attach_edges}
use labloop.Table.{IsKeyed}
use labloop.Memory.Steps.{present}
use labloop.Memory.Loops.Attach.{attach_edges-present}
use labloop.Memory.Minting.{check_evidence-All, All-check_evidence, check_spec-grow}
use labloop.Memory.Assert.{normalize_time-same, timed_checked}
use labloop.Memory.Assert.Entered.{assert_Entered}

-- The same call at another time, with other ids to mint from.
abbrev pub again : Assertion → String → (ℕ → String) → String → Assertion
again a id ids now = record a { id = id; edge_ids = ids; now = now }

normalize_time-any :
    (outside : Outside) (t : Option String) (m m' : Memory) {x : Option String} {m₁ : Memory}
    → normalize_time outside t m ≡ (ok x, m₁)
    → normalize_time outside t m' ≡ (ok x, m')
unfolding normalize_time
normalize_time-any outside none m m' h = ground arith
normalize_time-any outside (some t) m m' h = ground arith

module _ (outside : Outside) (a : Assertion) (m : Memory) where
  Read : Option String → Option String → Memory → Type 0
  Read from until m' =
      (normalize_time outside a.valid_from m' ≡ (ok from, m'))
      × (normalize_time outside a.valid_until m' ≡ (ok until, m'))
      × (interval_empty from until ≡ false)
      × (check_evidence a.evidence m ≡ none)

  timed_interval :
      (from until : Option String) {out : Asserted} {m' : Memory}
      → assert_timed outside a from until m ≡ (ok out, m')
      → interval_empty from until ≡ false
  unfolding assert_timed
  timed_interval from until h = ground arith

  timed_run :
      (from until : Option String) {m₁ m₂ m' : Memory} {out : Asserted}
      → assert_claim outside a m ≡ (ok out, m')
      → normalize_time outside a.valid_from m ≡ (ok from, m₁)
      → normalize_time outside a.valid_until m ≡ (ok until, m₂)
      → assert_timed outside a from until m ≡ (ok out, m')
  unfolding assert_claim
  timed_run from until h read read' = ground (
    arith,
    normalize_time-same outside a.valid_from m read,
    normalize_time-same outside a.valid_until m read',
  )

  assert_Read :
      {out : Asserted} {m' : Memory}
      → assert_claim outside a m ≡ (ok out, m')
      → (from : Option String) × (until : Option String) × Read from until m'
  unfolding assert_claim Read
  assert_Read {out} {m'} h = elim (outcome-cases (normalize_time outside a.valid_from m)) [
    | inr (e, m₁, failed) ↦ absurd (ground arith)
    | inl (from, m₁, read) ↦ elim (outcome-cases (normalize_time outside a.valid_until m)) [
      | inr (e, m₂, failed) ↦
          absurd (ground (arith, normalize_time-same outside a.valid_from m read))
      | inl (until, m₂, read') ↦
          let timed = timed_run from until h read read' in
          (
            from,
            until,
            (
              normalize_time-any outside a.valid_from m m' read,
              normalize_time-any outside a.valid_until m m' read',
              timed_interval from until timed,
              timed_checked outside a m from until timed,
            ),
          )
    ]
  ]

-- The answer of a re-assertion that adds nothing.
abbrev pub nothing_added : Claim → List String → Asserted
nothing_added c ids = record {
  claim_id = c.id;
  edge_ids = ids;
  edges_added = some 0;
  confidence = c.confidence;
  confidence_basis = c.confidence_basis;
  confidence_computation = c.confidence_computation;
  valid_until = c.valid_until;
}

reassert_over :
    (a : Assertion) (c : Claim) (m : Memory) (ids : List String)
    → attach_edges c.id a.source_id a.edge_ids a.now 0 a.evidence m ≡ (ok (ids, 0), m)
    → reassert a c m ≡ (ok (nothing_added c ids), m)
unfolding reassert transaction
reassert_over a c m ids h = ground arith

reassert-present :
    (a : Assertion) (c : Claim) (m : Memory)
    → All (λ e. present c.id m.edges e ≡ true) a.evidence
    → (ids : List String) × (reassert a c m ≡ (ok (nothing_added c ids), m))
reassert-present a c m there =
    let (ids, run) = attach_edges-present c.id a.source_id a.edge_ids a.now 0 a.evidence m there in
    (ids, reassert_over a c m ids run)

assert_known :
    (outside : Outside) (b : Assertion) (m : Memory) (from until : Option String) (c : Claim)
    {out : Asserted}
    → normalize_time outside b.valid_from m ≡ (ok from, m)
    → normalize_time outside b.valid_until m ≡ (ok until, m)
    → interval_empty from until ≡ false
    → check_evidence b.evidence m ≡ none
    → get_claim_by_hash (content_hash outside b.content) m ≡ some c
    → reassert b c m ≡ (ok out, m)
    → assert_claim outside b m ≡ (ok out, m)
unfolding assert_claim assert_timed
assert_known outside b m from until c r₀ r₁ filled passed existing run = ground arith

module _ (outside : Outside) (a : Assertion) (m : Memory) (ids : IsKeyed claim_id m.claims) where
  -- In a graph whose claims have ids of their own, a call of `assert_claim` that was answered can be
  -- repeated in the graph that it left, at any later time: the repetition names the same claim, adds no edge and changes nothing, whatever the ids and the time it has.
  pub assert_claim-again :
      {out : Asserted} {m' : Memory}
      → assert_claim outside a m ≡ (ok out, m')
      → (id : String) (edge_ids : ℕ → String) (now : String)
      → (out' : Asserted) × (assert_claim outside (again a id edge_ids now) m' ≡ (ok out', m'))
        × (out'.claim_id ≡ out.claim_id)
        × (out'.edges_added ≡ some 0)
  unfolding Read
  assert_claim-again {out} {m'} h id edge_ids now =
      let d = assert_Entered outside a m ids h in
      let (from, until, (r₀, r₁, filled, passed)) = assert_Read outside a m h in
      let (answer, run) =
        reassert-present (again a id edge_ids now) d.c m'
          (subst (λ x. All (λ e. present x m'.edges e ≡ true) a.evidence) d.named d.placed) in
      (
        nothing_added d.c answer,
        assert_known outside (again a id edge_ids now) m' from until d.c r₀ r₁ filled
            (All-check_evidence a.evidence m' (
              All-map (λ e. check_spec e m ≡ none) (λ e. check_spec e m' ≡ none) a.evidence
                (λ e. check_spec-grow e m m' d.covers) (check_evidence-All a.evidence m passed)))
            d.by_hash run,
        sym d.named,
        refl,
      )
