-- ===== src/Table/Sweep.antt =====
-- A loop over the rows that a query returned, with one update by key to each row that a test
-- selects, against the single pass over the table that it amounts to.
use mathlib.Core.Option
use labloop.Prelude.{
  String, ◌≡◌, ◌∙◌, refl, Bool, false, ◌&&◌, none, some, List, [], ◌∷◌, arith, eq_iff, All, ◌==◌,
  string_eq, if◌then◌else◌, Bool-cases, Option-cases, inl, inr, filter, is_some,
}
use labloop.Table.{fetch, update, IsKeyed}
use labloop.Table.Laws.{fetch-update, fetch-update_ne}

module _ {A : Type 0} (key : A → String) where
  absent-All :
      (k : String) (xs : List A) → fetch key k xs ≡ none → All (λ x. (key x == k) ≡ false) xs
  unfolding fetch
  absent-All k [] h = tt
  absent-All k (x ∷ xs) h = elim (Bool-cases (key x == k)) [
    | inl same ↦ absurd (ground arith)
    | inr other ↦ (other, absent-All k xs (ground arith))
  ]

  -- A read of the rows that a query keeps.
  pub fetch-filter :
      (q : A → Bool) (k : String) (xs : List A)
      → IsKeyed key xs
      → fetch key k (filter q xs)
        ≡ elim (fetch key k xs) [ none ↦ none | some x ↦ if q x then some x else none ]
  unfolding fetch
  fetch-filter q k [] keyed = refl
  fetch-filter q k (x ∷ xs) keyed =
      ground (arith, fetch-filter q k xs keyed.1, keyed.0, eq_iff (key x) k)

  pub filter-IsKeyed : (q : A → Bool) (xs : List A) → IsKeyed key xs → IsKeyed key (filter q xs)
  filter-IsKeyed q [] keyed = tt
  filter-IsKeyed q (x ∷ xs) keyed = elim (Bool-cases (q x)) [
    | inl kept ↦
        rw kept
          (rw (fetch-filter q (key x) xs keyed.1) (rw keyed.0 refl), filter-IsKeyed q xs keyed.1)
    | inr dropped ↦ rw dropped (filter-IsKeyed q xs keyed.1)
  ]

  -- Every row of the query is the one that its key reads.
  abbrev pub Reads : List A → List A → Type 0
  Reads xs = All (λ x. fetch key (key x) xs ≡ some x)

  fetch-cons :
      (x : A) (xs : List A) (k : String)
      → (key x == k) ≡ false
      → fetch key k (x ∷ xs) ≡ fetch key k xs
  unfolding fetch
  fetch-cons x xs k h = rw h refl

  Reads-cons :
      (x : A) (xs ys : List A)
      → All (λ y. (key y == key x) ≡ false) ys
      → Reads xs ys
      → Reads (x ∷ xs) ys
  Reads-cons x xs [] apart h = tt
  Reads-cons x xs (y ∷ ys) apart h = (
    fetch-cons x xs (key y)
          (ground (arith, apart.0, eq_iff (key x) (key y), eq_iff (key y) (key x)))
        ∙ h.0,
    Reads-cons x xs ys apart.1 h.1,
  )

  All-filter : (P : A → Type 0) (q : A → Bool) (xs : List A) → All P xs → All P (filter q xs)
  All-filter P q [] h = tt
  All-filter P q (x ∷ xs) h = elim (Bool-cases (q x)) [
    | inl kept ↦ rw kept (h.0, All-filter P q xs h.1)
    | inr dropped ↦ rw dropped (All-filter P q xs h.1)
  ]

  fetch-head : (x : A) (xs : List A) → fetch key (key x) (x ∷ xs) ≡ some x
  unfolding fetch
  fetch-head x xs = rw ((eq_iff (key x) (key x)).1 refl) refl

  Reads-refl : (xs : List A) → IsKeyed key xs → Reads xs xs
  Reads-refl [] keyed = tt
  Reads-refl (x ∷ xs) keyed =
      (fetch-head x xs, Reads-cons x xs xs (absent-All (key x) xs keyed.0) (Reads-refl xs keyed.1))

  pub Reads-filter : (q : A → Bool) (xs : List A) → IsKeyed key xs → Reads xs (filter q xs)
  Reads-filter q xs keyed =
      All-filter (λ x. fetch key (key x) xs ≡ some x) q xs (Reads-refl xs keyed)

module _ {A : Type 0} (key : A → String) (p : A → Bool) (f : A → A) where
  -- The table after the loop over `rows`.
  unfoldable pub swept : List A → List A → List A
  swept [] xs = xs
  swept (x ∷ rows) xs = if p x then swept rows (update key (key x) f xs) else swept rows xs

  pub Reads-update :
      (keeps : (x : A) → key (f x) ≡ key x) (x : A) (xs rows : List A)
      → fetch key (key x) rows ≡ none
      → Reads key xs rows
      → Reads key (update key (key x) f xs) rows
  Reads-update keeps x xs rows apart reads =
      elsewhere rows (absent-All key (key x) rows apart) reads
    where
      elsewhere :
          (rows : List A)
          → All (λ y. (key y == key x) ≡ false) rows
          → Reads key xs rows
          → Reads key (update key (key x) f xs) rows
      elsewhere [] a r = tt
      elsewhere (y ∷ rows) a r = (
        fetch-update_ne key f keeps (key y) (key x) xs
              (ground (arith, a.0, eq_iff (key x) (key y), eq_iff (key y) (key x)))
            ∙ r.0,
        elsewhere rows a.1 r.1,
      )

  pub fetch-swept :
      (keeps : (x : A) → key (f x) ≡ key x) (k : String) (rows xs : List A)
      → IsKeyed key rows
      → Reads key xs rows
      → fetch key k (swept rows xs)
        ≡ Option.map (λ x. if p x && is_some (fetch key k rows) then f x else x) (fetch key k xs)
  unfolding swept fetch
  fetch-swept keeps k [] xs keyed reads = ground arith
  fetch-swept keeps k (x ∷ rows) xs keyed reads = elim (Bool-cases (p x)) [
    | inl selected ↦ ground (
      arith,
      fetch-swept keeps k rows (update key (key x) f xs) keyed.1
          (Reads-update keeps x xs rows keyed.0 reads.1),
      fetch-update key (key x) f keeps k xs,
      keyed.0,
      reads.0,
      eq_iff (key x) k,
    )
    | inr passed_over ↦
        ground
          (arith, fetch-swept keeps k rows xs keyed.1 reads.1, keyed.0, reads.0, eq_iff (key x) k)
  ]

  -- Over the rows of a query the loop is one pass: it changes the rows that the query and the test
  -- both select, and no other.
  pub fetch-swept_query :
      (keeps : (x : A) → key (f x) ≡ key x) (q : A → Bool) (k : String) (xs : List A)
      → IsKeyed key xs
      → fetch key k (swept (filter q xs) xs)
        ≡ Option.map (λ x. if q x && p x then f x else x) (fetch key k xs)
  fetch-swept_query keeps q k xs keyed =
      fetch-swept keeps k (filter q xs) xs (filter-IsKeyed key q xs keyed)
        (Reads-filter key q xs keyed)
      ∙ elim (Option-cases (fetch key k xs)) [
        | inl missing ↦ ground arith
        | inr (x, found) ↦ ground (arith, fetch-filter key q k xs keyed)
      ]
