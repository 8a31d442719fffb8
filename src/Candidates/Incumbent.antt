-- ===== src/Candidates/Incumbent.antt =====
-- `get_incumbent` against the stack of the promotions that stand.
use labloop.Prelude.{
  String, ◌≡◌, refl, ◌∙◌, not, Option, none, some, List, [], ◌∷◌, any, filter, arith, ◌==◌,
  string_eq, eq_iff, if◌then◌else◌,
}
use labloop.Candidates.{promote, rollback, reject, hold, Decision, scan, get_incumbent}

-- The promotions that stand after the decisions, the latest first, where the newest decision is
-- the head: a promotion goes on top, a rollback takes away all promotions of its candidate.
unfoldable pub standing : List Decision → List String
standing [] = []
standing (d ∷ ds) =
    let before = standing ds in
    elim d.verdict [
      | promote ↦ d.candidate_id ∷ before
      | rollback ↦ filter (λ c. not (c == d.candidate_id)) before
      | reject ↦ before
      | hold ↦ before
    ]

abbrev pub top : List String → Option String
top [] = none
top (c ∷ cs) = some c

-- The top one that is not among the names.
top_outside : List String → List String → Option String
top_outside names [] = none
top_outside names (c ∷ cs) =
    let rest = top_outside names cs in if any (λ n. n == c) names then rest else some c

top_outside-filter :
    (names : List String) (x : String) (cs : List String)
    → top_outside names (filter (λ c. not (c == x)) cs) ≡ top_outside (x ∷ names) cs
unfolding top_outside
top_outside-filter names x [] = refl
top_outside-filter names x (c ∷ cs) =
    ground (arith, top_outside-filter names x cs, eq_iff c x, eq_iff x c)

scan-standing :
    (names : List String) (ds : List Decision) → scan names ds ≡ top_outside names (standing ds)
unfolding scan standing top_outside
scan-standing names [] = refl
scan-standing names (d ∷ ds) = ground (
  arith,
  scan-standing names ds,
  scan-standing (d.candidate_id ∷ names) ds,
  top_outside-filter names d.candidate_id (standing ds),
)

top_outside-none : (cs : List String) → top_outside [] cs ≡ top cs
unfolding top_outside
top_outside-none [] = refl
top_outside-none (c ∷ cs) = refl

-- The scan of `get_incumbent`, newest decision first with the set of the candidates rolled back so
-- far, finds the top of the promotions that stand: what it answers is the latest promotion left
-- when each rollback takes away the promotions of its candidate before it.
pub get_incumbent-standing : (ds : List Decision) → get_incumbent ds ≡ top (standing ds)
unfolding get_incumbent
get_incumbent-standing ds = scan-standing [] ds ∙ top_outside-none (standing ds)
