-- ===== src/Strings/Words.antt =====
-- `" ".join(s.split())`.
use Prim.Native.Char.{code}
use labloop.Prelude.{
  String, ◌≡◌, refl, ap, true, false, List, [], ◌∷◌, arith, filter, All, Bool-cases, inl, inr,
  if◌then◌else◌, Bool, ◌&&◌,
}
use labloop.Strings.{is_space, pieces, is_word, split, spaced, join_words, join_split}

solid : String → Bool
solid String.[] = true
solid (String.◌∷◌ c s) = if is_space (code c) then false else solid s

pieces-solid : (s : String) → All (λ w. solid w ≡ true) ((pieces s).0 ∷ (pieces s).1)
unfolding pieces solid
pieces-solid String.[] = (refl, tt)
pieces-solid (String.◌∷◌ c s) = elim (Bool-cases (is_space (code c))) [
  | inl space ↦ rw space (refl, pieces-solid s)
  | inr other ↦ rw other (rw other (pieces-solid s).0, (pieces-solid s).1)
]

-- A word without white space, and not empty
is_token : String → Bool
unfolding solid
is_token w = solid w && is_word w

token_mk : (w : String) → solid w ≡ true → is_word w ≡ true → is_token w ≡ true
unfolding is_token
token_mk w h k = ground arith

filter-tokens :
    (ws : List String)
    → All (λ w. solid w ≡ true) ws
    → All (λ w. is_token w ≡ true) (filter is_word ws)
filter-tokens [] h = tt
filter-tokens (w ∷ ws) h = elim (Bool-cases (is_word w)) [
  | inl word ↦ rw word (token_mk w h.0 word, filter-tokens ws h.1)
  | inr empty ↦ rw empty (filter-tokens ws h.1)
]

split-tokens : (s : String) → All (λ w. is_token w ≡ true) (split s)
unfolding split
split-tokens s = filter-tokens ((pieces s).0 ∷ (pieces s).1) (pieces-solid s)

pieces-word : (w : String) → solid w ≡ true → pieces w ≡ (w, [])
unfolding pieces solid
pieces-word String.[] h = refl
pieces-word (String.◌∷◌ c w) h = elim (Bool-cases (is_space (code c))) [
  | inl space ↦ absurd (ground arith)
  | inr other ↦ rw other (rw (pieces-word w (ground arith)) refl)
]

pieces-spaced :
    (w t : String) → solid w ≡ true → pieces (spaced w t) ≡ (w, (pieces t).0 ∷ (pieces t).1)
unfolding pieces solid spaced is_space
pieces-spaced String.[] t h = refl
pieces-spaced (String.◌∷◌ c w) t h = elim (Bool-cases (is_space (code c))) [
  | inl space ↦ absurd (ground arith)
  | inr other ↦ rw other (rw (pieces-spaced w t (ground arith)) refl)
]

token_solid : (w : String) → is_token w ≡ true → solid w ≡ true
unfolding is_token
token_solid w h = ground arith

token_word : (w : String) → is_token w ≡ true → is_word w ≡ true
unfolding is_token
token_word w h = ground arith

-- Splitting undoes joining.
split-join_words : (ws : List String) → All (λ w. is_token w ≡ true) ws → split (join_words ws) ≡ ws
unfolding split join_words
split-join_words [] h = refl
split-join_words (w ∷ []) h = rw (pieces-word w (token_solid w h.0)) (rw (token_word w h.0) refl)
split-join_words (w ∷ v ∷ ws) h =
    rw (pieces-spaced w (join_words (v ∷ ws)) (token_solid w h.0))
      (rw (token_word w h.0) (ap (λ xs. w ∷ xs) (split-join_words (v ∷ ws) h.1)))

pub join_split_idem : (s : String) → join_split (join_split s) ≡ join_split s
unfolding join_split
join_split_idem s = ap join_words (split-join_words (split s) (split-tokens s))
