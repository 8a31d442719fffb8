-- ===== src/Table.antt =====
-- An SQL table with a text primary key, as the list of its rows in the order of insertion, and
-- the statements that the stores run on it.
pub mod Laws
pub mod Sweep
use labloop.Prelude.{
  String, ◌≡◌, Bool, Option, none, some, List, [], ◌∷◌, ◌++◌, ◌==◌, string_eq, if◌then◌else◌,
}

module _ {A : Type 0} (key : A → String) where
  -- `SELECT * FROM t WHERE id = ?`, the first row or `None`
  unfoldable pub fetch : String → List A → Option A
  fetch k [] = none
  fetch k (x ∷ xs) = if key x == k then some x else fetch k xs

  -- `INSERT INTO t`, with `none` for the `IntegrityError` of a key that is taken
  unfoldable pub insert : A → List A → Option (List A)
  insert x xs = elim (fetch (key x) xs) [ none ↦ some (xs ++ x ∷ []) | some _ ↦ none ]

  -- `UPDATE t SET ... WHERE id = ?`
  unfoldable pub update : String → (A → A) → List A → List A
  update k f [] = []
  update k f (x ∷ xs) = (if key x == k then f x else x) ∷ update k f xs

  -- No two rows have one key.
  abbrev pub IsKeyed : List A → Type 0
  IsKeyed [] = Unit
  IsKeyed (x ∷ xs) = (fetch (key x) xs ≡ none) × IsKeyed xs
