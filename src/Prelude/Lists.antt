-- ===== src/Prelude/Lists.antt =====
-- Lists measured by native numbers and filtered by Boolean tests.
use Prim.Native.Nat.{ℕ, suc, ◌+◌}
use mathlib.Core.Path.{◌≡◌, refl, ap}
use mathlib.Core.Logic.{inl, inr}
use mathlib.Core.Bool.{Bool, true, false, ◌&&◌, ◌||◌}
use mathlib.Core.List.{List, [], ◌∷◌, ◌++◌}
use native.Mathlib.Omega.{arith}
use labloop.Prelude.Tests.{if◌then◌else◌, Bool-cases}

module _ {ℓ} {A : Type ℓ} where
  abbrev pub length : List A → ℕ
  length [] = 0
  length (x ∷ xs) = suc (length xs)

  pub length-append : (xs ys : List A) → length (xs ++ ys) ≡ length xs + length ys
  length-append [] ys = omega arith
  length-append (x ∷ xs) ys = omega (arith, length-append xs ys)

  -- `[x for x in xs if p(x)]`
  abbrev pub filter : (A → Bool) → List A → List A
  filter p [] = []
  filter p (x ∷ xs) = let rest = filter p xs in if p x then x ∷ rest else rest

  -- `any(p(x) for x in xs)` and `all(p(x) for x in xs)`
  abbrev pub any : (A → Bool) → List A → Bool
  any p [] = false
  any p (x ∷ xs) = p x || any p xs

  abbrev pub all : (A → Bool) → List A → Bool
  all p [] = true
  all p (x ∷ xs) = p x && all p xs

  -- `not xs`
  abbrev pub is_empty : List A → Bool
  is_empty [] = true
  is_empty (x ∷ xs) = false

  pub filter-append :
      (p : A → Bool) (xs ys : List A) → filter p (xs ++ ys) ≡ filter p xs ++ filter p ys
  filter-append p [] ys = refl
  filter-append p (x ∷ xs) ys = ground (arith, filter-append p xs ys)

  pub any-append : (p : A → Bool) (xs ys : List A) → any p (xs ++ ys) ≡ (any p xs || any p ys)
  any-append p [] ys = refl
  any-append p (x ∷ xs) ys = ground (arith, any-append p xs ys)

  pub append_nil : (xs : List A) → xs ++ [] ≡ xs
  append_nil [] = refl
  append_nil (x ∷ xs) = ap (λ ys. x ∷ ys) (append_nil xs)

  pub append_assoc : (xs ys zs : List A) → (xs ++ ys) ++ zs ≡ xs ++ (ys ++ zs)
  append_assoc [] ys zs = refl
  append_assoc (x ∷ xs) ys zs = ap (λ ws. x ∷ ws) (append_assoc xs ys zs)

  -- Every element has the property.
  abbrev pub All {κ} : (A → Type κ) → List A → Type κ
  All P [] = Unit
  All P (x ∷ xs) = P x × All P xs

  pub All-append {κ} : (P : A → Type κ) (xs ys : List A) → All P xs → All P ys → All P (xs ++ ys)
  All-append P [] ys h k = k
  All-append P (x ∷ xs) ys h k = (h.0, All-append P xs ys h.1 k)

  pub All-left {κ} : (P : A → Type κ) (xs ys : List A) → All P (xs ++ ys) → All P xs
  All-left P [] ys h = tt
  All-left P (x ∷ xs) ys h = (h.0, All-left P xs ys h.1)

  pub All-right {κ} : (P : A → Type κ) (xs ys : List A) → All P (xs ++ ys) → All P ys
  All-right P [] ys h = h
  All-right P (x ∷ xs) ys h = All-right P xs ys h.1

  pub All-map {κ μ} :
      (P : A → Type κ) (Q : A → Type μ) (xs : List A) → ((x : A) → P x → Q x) → All P xs → All Q xs
  All-map P Q [] f h = tt
  All-map P Q (x ∷ xs) f h = (f x h.0, All-map P Q xs f h.1)

  -- Membership, with the place.
  pub data In (x : A) : List A → Type ℓ where
    here : {xs : List A} → In x (x ∷ xs)
    there : {y : A} {xs : List A} → In x xs → In x (y ∷ xs)

  pub filter-some :
      (p : A → Bool) (xs : List A)
      → is_empty (filter p xs) ≡ false
      → (x : A) × In x xs × (p x ≡ true)
  filter-some p [] h = cc
  filter-some p (x ∷ xs) h = elim (Bool-cases (p x)) [
    | inl holds ↦ (x, here, holds)
    | inr fails ↦ let (y, at, q) = filter-some p xs (ground arith) in (y, there at, q)
  ]

  pub filter-none :
      (p : A → Bool) (xs : List A) → is_empty (filter p xs) ≡ true → All (λ x. p x ≡ false) xs
  filter-none p [] h = tt
  filter-none p (x ∷ xs) h = elim (Bool-cases (p x)) [
    | inl holds ↦ absurd (ground arith)
    | inr fails ↦ (fails, filter-none p xs (ground arith))
  ]

  pub any-none : (p : A → Bool) (xs : List A) → any p xs ≡ false → All (λ x. p x ≡ false) xs
  any-none p [] h = tt
  any-none p (x ∷ xs) h = elim (Bool-cases (p x)) [
    | inl holds ↦ absurd (ground arith)
    | inr fails ↦ (fails, any-none p xs (ground arith))
  ]
