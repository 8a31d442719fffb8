-- ===== src/Table/Laws.antt =====
-- Reading a table after a write, and what a write keeps.
use mathlib.Core.Option
use mathlib.Core.Path.{subst}
use labloop.Prelude.{
  String, ◌≡◌, refl, sym, true, false, none, some, List, [], ◌∷◌, ◌++◌, arith, eq_iff, length, All,
  ◌==◌, string_eq, if◌then◌else◌, Bool-cases, inl, inr,
}
use labloop.Table.{fetch, insert, update, IsKeyed}

module _ {A : Type 0} (key : A → String) where
  pub fetch-key : (k : String) (xs : List A) {x : A} → fetch key k xs ≡ some x → key x ≡ k
  unfolding fetch
  fetch-key k [] h = cc
  fetch-key k (y ∷ xs) {x} h = ground (arith, fetch-key k xs {x = x}, eq_iff (key y) k)

  pub fetch-append_one :
      (k : String) (xs : List A) (x : A)
      → fetch key k (xs ++ x ∷ [])
        ≡ elim (fetch key k xs) [ none ↦ if key x == k then some x else none | some y ↦ some y ]
  unfolding fetch
  fetch-append_one k [] x = refl
  fetch-append_one k (y ∷ xs) x = ground (arith, fetch-append_one k xs x)

  pub insert-eq :
      (x : A) (xs : List A) {ys : List A} → insert key x xs ≡ some ys → ys ≡ xs ++ x ∷ []
  unfolding insert
  insert-eq x xs h = ground arith

  pub fetch-insert :
      (k : String) (x : A) (xs : List A) {ys : List A}
      → insert key x xs ≡ some ys
      → fetch key k ys ≡ (if key x == k then some x else fetch key k xs)
  unfolding insert
  fetch-insert k x xs h = ground (arith, fetch-append_one k xs x, eq_iff (key x) k)

  module _ (k : String) (f : A → A) (keeps : (x : A) → key (f x) ≡ key x) where
    pub fetch-update :
        (j : String) (xs : List A)
        → fetch key j (update key k f xs)
          ≡ (if k == j then Option.map f (fetch key j xs) else fetch key j xs)
    unfolding fetch update
    fetch-update j [] = ground arith
    fetch-update j (x ∷ xs) =
        ground (arith, fetch-update j xs, keeps x, eq_iff (key x) k, eq_iff (key x) j, eq_iff k j)

    pub update-IsKeyed : (xs : List A) → IsKeyed key xs → IsKeyed key (update key k f xs)
    unfolding update
    update-IsKeyed [] h = tt
    update-IsKeyed (x ∷ xs) h =
        ground (arith, update-IsKeyed xs h.1, fetch-update (key x) xs, keeps x, eq_iff (key x) k)

    pub length-update : (xs : List A) → length (update key k f xs) ≡ length xs
    unfolding update
    length-update [] = refl
    length-update (x ∷ xs) = omega (arith, length-update xs)

module _ {A : Type 0} (key : A → String) where
  fetch_here :
      (k : String) (y : A) (xs : List A) {x : A}
      → (key y == k) ≡ true
      → fetch key k (y ∷ xs) ≡ some x
      → y ≡ x
  unfolding fetch
  fetch_here k y xs {x} h e = ground arith

  fetch_later :
      (k : String) (y : A) (xs : List A) {x : A}
      → (key y == k) ≡ false
      → fetch key k (y ∷ xs) ≡ some x
      → fetch key k xs ≡ some x
  unfolding fetch
  fetch_later k y xs {x} h e = ground arith

  -- A statement whose key names no row changes nothing.
  pub update_absent :
      (k : String) (f : A → A) (xs : List A) → fetch key k xs ≡ none → update key k f xs ≡ xs
  unfolding fetch update
  update_absent k f [] h = refl
  update_absent k f (x ∷ xs) h = ground (arith, update_absent k f xs)

module _ {ℓ} {A : Type 0} (key : A → String) (P : A → Type ℓ) where
  pub All-fetch : (k : String) (xs : List A) {x : A} → All P xs → fetch key k xs ≡ some x → P x
  unfolding fetch
  All-fetch k [] h e = cc
  All-fetch k (y ∷ xs) {x} h e = elim (Bool-cases (key y == k)) [
    | inl same ↦ subst P (fetch_here key k y xs same e) h.0
    | inr other ↦ All-fetch k xs h.1 (fetch_later key k y xs other e)
  ]

  -- An update keeps the property of the rows if it keeps that of the row that a read finds.
  pub All-update :
      (k : String) (f : A → A) (xs : List A) {x : A}
      → IsKeyed key xs
      → All P xs
      → fetch key k xs ≡ some x
      → P (f x)
      → All P (update key k f xs)
  unfolding fetch update
  All-update k f [] keyed h e p = h
  All-update k f (y ∷ xs) {x} keyed h e p = elim (Bool-cases (key y == k)) [
    | inl same ↦ (
      rw same (subst (λ z. P (f z)) (sym (fetch_here key k y xs same e)) p),
      subst (All P)
          (sym (
            update_absent key k f xs
              (subst (λ j. fetch key j xs ≡ none) ((eq_iff (key y) k).0 same) keyed.0)))
          h.1,
    )
    | inr other ↦ (rw other h.0, All-update k f xs keyed.1 h.1 (fetch_later key k y xs other e) p)
  ]

module _ {A : Type 0} (key : A → String) where
  pub insert_fresh :
      (x : A) (xs : List A) {ys : List A} → insert key x xs ≡ some ys → fetch key (key x) xs ≡ none
  unfolding insert
  insert_fresh x xs h = ground arith

  pub append-IsKeyed :
      (x : A) (xs : List A)
      → IsKeyed key xs
      → fetch key (key x) xs ≡ none
      → IsKeyed key (xs ++ x ∷ [])
  unfolding fetch
  append-IsKeyed x [] keyed h = (refl, tt)
  append-IsKeyed x (y ∷ xs) keyed h = ground (
    arith,
    append-IsKeyed x xs keyed.1,
    fetch-append_one key (key y) xs x,
    eq_iff (key y) (key x),
    eq_iff (key x) (key y),
  )

  pub insert-IsKeyed :
      (x : A) (xs : List A) {ys : List A}
      → IsKeyed key xs
      → insert key x xs ≡ some ys
      → IsKeyed key ys
  insert-IsKeyed x xs keyed h =
      subst (IsKeyed key) (sym (insert-eq key x xs h))
        (append-IsKeyed x xs keyed (insert_fresh x xs h))

  pub fetch-insert_old :
      (k : String) (x : A) (xs : List A) {y : A} {ys : List A}
      → insert key x xs ≡ some ys
      → fetch key k xs ≡ some y
      → fetch key k ys ≡ some y
  fetch-insert_old k x xs h e =
      rw (insert-eq key x xs h) (rw (fetch-append_one key k xs x) (rw e refl))

module _ {A : Type 0} (key : A → String) (f : A → A) (keeps : (x : A) → key (f x) ≡ key x) where
  pub fetch-update_self :
      (k : String) (xs : List A) {x : A}
      → fetch key k xs ≡ some x
      → fetch key k (update key k f xs) ≡ some (f x)
  fetch-update_self k xs h = ground (arith, fetch-update key k f keeps k xs, eq_iff k k)

  pub fetch-update_ne :
      (j k : String) (xs : List A)
      → (k == j) ≡ false
      → fetch key j (update key k f xs) ≡ fetch key j xs
  fetch-update_ne j k xs h = ground (arith, fetch-update key k f keeps j xs)

-- A row that a read by one key finds is the row of its other key.
pub fetch_by_other :
    {A : Type 0} (key other : A → String) (k : String) (xs : List A) {x : A}
    → IsKeyed other xs
    → fetch key k xs ≡ some x
    → fetch other (other x) xs ≡ some x
unfolding fetch
fetch_by_other key other k [] keyed h = cc
fetch_by_other key other k (y ∷ xs) {x} keyed h = elim (Bool-cases (key y == k)) [
  | inl same ↦ ground (arith, fetch_here key k y xs {x = x} same h, eq_iff (other y) (other y))
  | inr apart ↦ ground (
    arith,
    fetch_by_other key other k xs {x = x} keyed.1 (fetch_later key k y xs apart h),
    keyed.0,
    eq_iff (other y) (other x),
  )
]

pub fetch-append_new :
    {A : Type 0} (key : A → String) (k : String) (xs : List A) (x : A)
    → key x ≡ k
    → fetch key k xs ≡ none
    → fetch key k (xs ++ x ∷ []) ≡ some x
fetch-append_new key k xs x same fresh =
    ground (arith, fetch-append_one key k xs x, eq_iff (key x) k)
