-- ===== src/Memory/Assert.antt =====
-- The outcomes of `assert_claim`.
pub mod Entered
use labloop.Prelude.{
  ℕ, String, ◌≡◌, ◌∙◌, refl, sym, ap, true, Option, none, some, List, [], ◌∷◌, ◌++◌, is_some, All,
  arith, string_eq, Option-cases, inl, inr, ◌⊎◌, All-left,
}
use mathlib.Core.Path.{subst}
use labloop.Exec.{Result, ok, err, outcome-cases}
use labloop.Table.{fetch}
use labloop.Table.Laws.{fetch_by_other, fetch-append_new}
use labloop.Memory.Models.{Claim}
use labloop.Memory.Store.{
  Memory, Error, claim_id, claim_hash, get_claim, get_claim_by_hash, transaction,
}
use labloop.Memory.Claims.{
  Outside, Assertion, Asserted, write_claim, new_claim, ground_confidence, content_hash,
  normalize_time, assert_timed, reassert, mint, assert_claim,
}
use labloop.Memory.Evidence.{check_evidence, attach_edges, supersedes_spec}
use labloop.Memory.Sound.{WellFormed}
use labloop.Memory.Steps.{present}
use labloop.Memory.Loops.{Grown}
use labloop.Memory.Loops.Attach.{attach_edges-Grown}
use labloop.Memory.Keeps.{Grown-WellFormed, Covers, Covers-append}
use labloop.Memory.Minting.{check_evidence-All, created_list, created_found}
use labloop.Memory.Mint.{Minted, mint-Minted, Minted-WellFormed}

-- The errors

mint-same :
    (outside : Outside) (a : Assertion) (from until : Option String) (m : Memory) {e : Error}
    {m' : Memory}
    → mint outside a from until m ≡ (err e, m')
    → m' ≡ m
unfolding mint ground_confidence new_claim write_claim transaction
mint-same outside a from until m h = ground arith

reassert-same :
    (a : Assertion) (c : Claim) (m : Memory) {e : Error} {m' : Memory}
    → reassert a c m ≡ (err e, m')
    → m' ≡ m
unfolding reassert transaction
reassert-same a c m h = ground arith

pub normalize_time-same :
    (outside : Outside) (t : Option String) (m : Memory) {r : Result Error (Option String)}
    {m' : Memory}
    → normalize_time outside t m ≡ (r, m')
    → m' ≡ m
unfolding normalize_time
normalize_time-same outside none m h = ground arith
normalize_time-same outside (some t) m h = ground arith

module _ (outside : Outside) (a : Assertion) (m : Memory) where
  Branch : Option String → Option String → Asserted → Memory → Type 0
  Branch from until out m' =
      ((c : Claim) × (get_claim_by_hash (content_hash outside a.content) m ≡ some c)
        × (reassert a c m ≡ (ok out, m')))
      ⊎ ((get_claim_by_hash (content_hash outside a.content) m ≡ none)
          × (mint outside a from until m ≡ (ok out, m')))

  pub timed_checked :
      (from until : Option String) {out : Asserted} {m' : Memory}
      → assert_timed outside a from until m ≡ (ok out, m')
      → check_evidence a.evidence m ≡ none
  unfolding assert_timed
  timed_checked from until h = ground arith

  timed-Branch :
      (from until : Option String) {out : Asserted} {m' : Memory}
      → assert_timed outside a from until m ≡ (ok out, m')
      → Branch from until out m'
  unfolding Branch assert_timed
  timed-Branch from until h =
      elim (Option-cases (get_claim_by_hash (content_hash outside a.content) m)) [
        | inl fresh ↦ inr (fresh, ground arith)
        | inr (c, existing) ↦ inl (c, existing, ground arith)
      ]

  timed-same :
      (from until : Option String) {e : Error} {m' : Memory}
      → assert_timed outside a from until m ≡ (err e, m')
      → m' ≡ m
  unfolding assert_timed
  timed-same from until {e} {m'} h =
      elim (Option-cases (get_claim_by_hash (content_hash outside a.content) m)) [
        | inl fresh ↦ ground (arith, mint-same outside a from until m {e = e} {m' = m'})
        | inr (c, existing) ↦ ground (arith, reassert-same a c m {e = e} {m' = m'})
      ]

  assert-timed :
      {out : Asserted} {m' : Memory}
      → assert_claim outside a m ≡ (ok out, m')
      → (from : Option String) × (until : Option String) × (assert_timed outside a from until m
          ≡ (ok out, m'))
  unfolding assert_claim
  assert-timed {out} {m'} h = elim (outcome-cases (normalize_time outside a.valid_from m)) [
    | inr (e, m₁, failed) ↦ absurd (ground arith)
    | inl (from, m₁, read) ↦ elim (outcome-cases (normalize_time outside a.valid_until m)) [
      | inr (e, m₂, failed) ↦
          absurd (ground (arith, normalize_time-same outside a.valid_from m read))
      | inl (until, m₂, read') ↦ (
        from,
        until,
        ground (
          arith,
          normalize_time-same outside a.valid_from m read,
          normalize_time-same outside a.valid_until m read',
        ),
      )
    ]
  ]

  assert_claim-same : {e : Error} {m' : Memory} → assert_claim outside a m ≡ (err e, m') → m' ≡ m
  unfolding assert_claim
  assert_claim-same {e} {m'} h = elim (outcome-cases (normalize_time outside a.valid_from m)) [
    | inr (x, m₁, failed) ↦ ground (arith, normalize_time-same outside a.valid_from m failed)
    | inl (from, m₁, read) ↦ elim (outcome-cases (normalize_time outside a.valid_until m)) [
      | inr (x, m₂, failed) ↦ ground (
        arith,
        normalize_time-same outside a.valid_from m read,
        normalize_time-same outside a.valid_until m failed,
      )
      | inl (until, m₂, read') ↦ ground (
        arith,
        timed-same from until {e = e} {m' = m'},
        normalize_time-same outside a.valid_from m read,
        normalize_time-same outside a.valid_until m read',
      )
    ]
  ]
