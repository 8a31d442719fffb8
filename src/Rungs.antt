-- ===== src/Rungs.antt =====
-- The Kass-Raftery ladder of evidence: `EVIDENCE_RUNGS` and its functions,
-- ml-scientist/src/ml_episteme_mcp/_grounded_constants.py. A value of 2 ln BF, which the server
-- computes as a square, is a natural number of thousandths.
pub mod Reach
use labloop.Prelude.{
  ℕ, String, Bool, Option, none, some, List, [], ◌∷◌, leb, ◌==◌, string_eq, if◌then◌else◌,
}

abbrev pub evidence_rungs : List (String × ℕ)
evidence_rungs =
    ("not_worth", 0) ∷ ("positive", 2000) ∷ ("strong", 6000) ∷ ("very_strong", 10000) ∷ []

-- `EVIDENCE_RUNGS[name]`
threshold : String → List (String × ℕ) → Option ℕ
threshold name [] = none
threshold name ((rung, t) ∷ rungs) = if rung == name then some t else threshold name rungs

-- `none` for the `UngroundedDecisionBasis`
unfoldable pub min_evidence_rung : String → Option ℕ
unfolding threshold
min_evidence_rung name = threshold name evidence_rungs

abbrev at_least : Option ℕ → Option ℕ → Option Bool
at_least none b = none
at_least (some a) none = none
at_least (some a) (some b) = some (leb b a)

unfoldable pub rung_at_least : String → String → Option Bool
unfolding min_evidence_rung
rung_at_least claimed required = at_least (min_evidence_rung claimed) (min_evidence_rung required)

-- The loop of `rung_for_2lnbf`
climb : ℕ → String → List (String × ℕ) → String
climb x reached [] = reached
climb x reached ((rung, t) ∷ rungs) =
    let on = climb x rung rungs in let stay = climb x reached rungs in if leb t x then on else stay

unfoldable pub rung_for_2lnbf : ℕ → String
unfolding climb
rung_for_2lnbf x = climb x "not_worth" evidence_rungs
