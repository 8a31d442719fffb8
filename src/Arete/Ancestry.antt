-- ===== src/Arete/Ancestry.antt =====
-- The parent walk of `lineage`, on any table: with dangling parents and with cycles.
use labloop.Prelude.{
  ℕ, zero, suc, ◌+◌, ◌≤◌, String, ◌≡◌, ◌∙◌, refl, sym, ap, true, false, not, none, some, List, [],
  ◌∷◌, ◌++◌, arith, eq_iff, Bool-cases, inl, inr, Option-cases, filter, length, ◌==◌, string_eq,
}
use mathlib.Core.Path.{subst}
use labloop.Table.{fetch}
use labloop.Table.Laws.{fetch-key}
use labloop.Arete.Models.{ImproverVersion}
use labloop.Arete.Store.{Lab, improver_id, elem, walk, lineage}

-- How many rows the walk has not seen.
abbrev unseen : List String → List ImproverVersion → ℕ
unseen seen rows = length (filter (λ i. not (elem i.id seen)) rows)

unseen-cons :
    (k : String) (seen : List String) (rows : List ImproverVersion)
    → unseen (k ∷ seen) rows ≤ unseen seen rows
unseen-cons k seen [] = ground arith
unseen-cons k seen (i ∷ rows) = ground (arith, unseen-cons k seen rows)

-- A row that is reached for the first time is one less to see.
unseen-reached :
    (k : String) (seen : List String) (rows : List ImproverVersion) {i : ImproverVersion}
    → fetch improver_id k rows ≡ some i
    → elem k seen ≡ false
    → suc (unseen (k ∷ seen) rows) ≤ unseen seen rows
unfolding fetch
unseen-reached k seen [] found new = cc
unseen-reached k seen (x ∷ rows) {i} found new = elim (Bool-cases (x.id == k)) [
  | inl same ↦ ground (arith, unseen-cons k seen rows, eq_iff x.id k, eq_iff k x.id)
  | inr other ↦
      ground
        (arith, unseen-reached k seen rows {i = i} (ground arith) new, eq_iff x.id k, eq_iff k x.id)
]

unseen_all : (rows : List ImproverVersion) → unseen [] rows ≡ length rows
unseen_all [] = refl
unseen_all (i ∷ rows) = ground (arith, unseen_all rows)

walk_missing :
    (n : ℕ) (id : String) (seen : List String) (rows : List ImproverVersion)
    → fetch improver_id id rows ≡ none
    → walk n id seen rows ≡ []
unfolding walk
walk_missing zero id seen rows h = refl
walk_missing (suc n) id seen rows h = ground arith

walk_seen :
    (n : ℕ) (id : String) (seen : List String) (rows : List ImproverVersion) {i : ImproverVersion}
    → fetch improver_id id rows ≡ some i
    → elem i.id seen ≡ true
    → walk n id seen rows ≡ []
unfolding walk
walk_seen zero id seen rows found h = refl
walk_seen (suc n) id seen rows found h = ground arith

walk_root :
    (n : ℕ) (id : String) (seen : List String) (rows : List ImproverVersion) {i : ImproverVersion}
    → fetch improver_id id rows ≡ some i
    → elem i.id seen ≡ false
    → i.parent_id ≡ none
    → walk (suc n) id seen rows ≡ i ∷ []
unfolding walk
walk_root n id seen rows found new root = ground arith

walk_up :
    (n : ℕ) (id : String) (seen : List String) (rows : List ImproverVersion) {i : ImproverVersion}
    {parent : String}
    → fetch improver_id id rows ≡ some i
    → elem i.id seen ≡ false
    → i.parent_id ≡ some parent
    → walk (suc n) id seen rows ≡ walk n parent (i.id ∷ seen) rows ++ i ∷ []
unfolding walk
walk_up n id seen rows found new up = ground arith

fewer :
    (id : String) (seen : List String) (rows : List ImproverVersion) {i : ImproverVersion}
    → fetch improver_id id rows ≡ some i
    → elem i.id seen ≡ false
    → suc (unseen (i.id ∷ seen) rows) ≤ unseen seen rows
fewer id seen rows {i} found new =
    subst (λ k. suc (unseen (k ∷ seen) rows) ≤ unseen seen rows)
      (sym (fetch-key improver_id id rows found))
      (unseen-reached id seen rows found
        (subst (λ k. elem k seen ≡ false) (fetch-key improver_id id rows found) new))

-- One more unit of fuel makes no difference once there is enough for the rows still to see.
walk-suc :
    (n : ℕ) (id : String) (seen : List String) (rows : List ImproverVersion)
    → unseen seen rows ≤ n
    → walk (suc n) id seen rows ≡ walk n id seen rows
walk-suc zero id seen rows enough = elim (Option-cases (fetch improver_id id rows)) [
  | inl missing ↦ walk_missing 1 id seen rows missing ∙ sym (walk_missing zero id seen rows missing)
  | inr (i, found) ↦ elim (Bool-cases (elem i.id seen)) [
    | inl old ↦ walk_seen 1 id seen rows found old ∙ sym (walk_seen zero id seen rows found old)
    | inr new ↦ absurd (ground (arith, fewer id seen rows found new))
  ]
]
walk-suc (suc n) id seen rows enough = elim (Option-cases (fetch improver_id id rows)) [
  | inl missing ↦
      walk_missing (suc (suc n)) id seen rows missing
      ∙ sym (walk_missing (suc n) id seen rows missing)
  | inr (i, found) ↦ elim (Bool-cases (elem i.id seen)) [
    | inl old ↦
        walk_seen (suc (suc n)) id seen rows found old
        ∙ sym (walk_seen (suc n) id seen rows found old)
    | inr new ↦ elim (Option-cases i.parent_id) [
      | inl root ↦
          walk_root (suc n) id seen rows found new root
          ∙ sym (walk_root n id seen rows found new root)
      | inr (parent, up) ↦
          walk_up (suc n) id seen rows found new up
          ∙ ap (λ xs. xs ++ i ∷ [])
              (walk-suc n parent (i.id ∷ seen) rows (ground (arith, fewer id seen rows found new)))
          ∙ sym (walk_up n id seen rows found new up)
    ]
  ]
]

-- The walk of `lineage` ends within as many steps as there are improvers, whatever the parent links
-- are: any more fuel gives the same chain.
pub walk-lineage :
    (extra : ℕ) (id : String) (l : Lab)
    → walk (extra + length l.improvers) id [] l.improvers ≡ lineage id l
unfolding lineage
walk-lineage zero id l = ap (λ n. walk n id [] l.improvers) (omega arith)
walk-lineage (suc extra) id l =
    ap (λ n. walk n id [] l.improvers) (omega arith)
    ∙ walk-suc (extra + length l.improvers) id [] l.improvers
        (ground (arith, unseen_all l.improvers))
    ∙ walk-lineage extra id l
