-- ===== src/Rungs/Reach.antt =====
-- `rung_for_2lnbf` against `min_evidence_rung`.
use labloop.Prelude.{
  ℕ, String, ◌≡◌, ◌⊎◌, ◌∙◌, ap, some, arith, leb, string_eq, refl, Bool-cases, inl, inr,
}
use labloop.Rungs.{min_evidence_rung, rung_at_least, rung_for_2lnbf}

-- The four values of the ladder.
threshold-cases :
    (name : String) (t : ℕ)
    → min_evidence_rung name ≡ some t
    → (t ≡ 0) ⊎ ((t ≡ 2000) ⊎ ((t ≡ 6000) ⊎ (t ≡ 10000)))
unfolding min_evidence_rung
threshold-cases name t h = ground arith

-- The threshold of the rung that a value is given.
record Reached (x : ℕ) : Type 0 where
  v : ℕ
  value : min_evidence_rung (rung_for_2lnbf x) ≡ some v
  zero_rung : leb 0 v ≡ leb 0 x
  positive : leb 2000 v ≡ leb 2000 x
  strong : leb 6000 v ≡ leb 6000 x
  very_strong : leb 10000 v ≡ leb 10000 x

min_of :
    (x : ℕ) (name : String) {t : ℕ}
    → rung_for_2lnbf x ≡ name
    → min_evidence_rung name ≡ some t
    → min_evidence_rung (rung_for_2lnbf x) ≡ some t
min_of x name e h = ap min_evidence_rung e ∙ h

reached : (x : ℕ) → Reached x
unfolding rung_for_2lnbf min_evidence_rung
reached x = elim (Bool-cases (leb 10000 x)) [
  | inl at_top ↦ record {
    v = 10000;
    value = min_of x "very_strong" (ground arith) refl;
    zero_rung = ground arith;
    positive = ground arith;
    strong = ground arith;
    very_strong = ground arith;
  }
  | inr below_top ↦ elim (Bool-cases (leb 6000 x)) [
    | inl at_strong ↦ record {
      v = 6000;
      value = min_of x "strong" (ground arith) refl;
      zero_rung = ground arith;
      positive = ground arith;
      strong = ground arith;
      very_strong = ground arith;
    }
    | inr below_strong ↦ elim (Bool-cases (leb 2000 x)) [
      | inl at_positive ↦ record {
        v = 2000;
        value = min_of x "positive" (ground arith) refl;
        zero_rung = ground arith;
        positive = ground arith;
        strong = ground arith;
        very_strong = ground arith;
      }
      | inr below_positive ↦ record {
        v = 0;
        value = min_of x "not_worth" (ground arith) refl;
        zero_rung = ground arith;
        positive = ground arith;
        strong = ground arith;
        very_strong = ground arith;
      }
    ]
  ]
]

Reached-leb :
    (x t : ℕ) (r : Reached x)
    → (t ≡ 0) ⊎ ((t ≡ 2000) ⊎ ((t ≡ 6000) ⊎ (t ≡ 10000)))
    → leb t r.v ≡ leb t x
Reached-leb x t r (inl e) = rw e r.zero_rung
Reached-leb x t r (inr (inl e)) = rw e r.positive
Reached-leb x t r (inr (inr (inl e))) = rw e r.strong
Reached-leb x t r (inr (inr (inr e))) = rw e r.very_strong

-- The rung that `rung_for_2lnbf` gives to a measured value is at least the one that is required,
-- by `rung_at_least`, exactly if the value reaches the threshold of the required rung.
pub rung_for_2lnbf-reaches :
    (x : ℕ) (required : String) (t : ℕ)
    → min_evidence_rung required ≡ some t
    → rung_at_least (rung_for_2lnbf x) required ≡ some (leb t x)
unfolding rung_at_least
rung_for_2lnbf-reaches x required t h =
    let r : Reached x = reached x in
    rw r.value (rw h (ap some (Reached-leb x t r (threshold-cases required t h))))
