-- ===== src/Arete/Champion/Enter.antt =====
-- A new improver and the pointer.
use labloop.Prelude.{
  String, ◌≡◌, refl, sym, true, Option, none, some, List, [], ◌∷◌, filter, length, is_some,
  All-append, arith, eq_iff, ◌==◌, string_eq, Bool-cases, inl, inr, is_empty, filter-none, nat_beq,
}
use mathlib.Core.Path.{subst}
use labloop.Table.{fetch, insert}
use labloop.Table.Laws.{insert-eq, insert-IsKeyed, insert_fresh, fetch-append_one}
use labloop.Arete.Models.{ImproverVersion}
use labloop.Arete.Store.{improver_id}
use labloop.Arete.Champion.{Pointed, Flags, at, unflagged-none}

Flags-fresh :
    (c : String) (rows : List ImproverVersion)
    → fetch improver_id c rows ≡ none
    → Flags rows none
    → Flags rows (some c)
unfolding fetch
Flags-fresh c [] absent h = tt
Flags-fresh c (i ∷ rows) absent h =
    (ground (arith, h.0, eq_iff c i.id, eq_iff i.id c), Flags-fresh c rows (ground arith) h.1)

counted_none :
    (rows : List ImproverVersion) (p : Option String)
    → Pointed rows p
    → length (filter (λ i. i.is_champion) rows) ≡ 0
    → p ≡ none
counted_none rows p h e =
    unflagged-none rows p h
      (filter-none (λ i. i.is_champion) rows (empty (filter (λ i. i.is_champion) rows) e))
  where
    empty : (xs : List ImproverVersion) → length xs ≡ 0 → is_empty xs ≡ true
    empty [] e = refl
    empty (x ∷ xs) e = absurd (ground arith)

counted_some :
    (rows : List ImproverVersion) → Flags rows none → length (filter (λ i. i.is_champion) rows) ≡ 0
counted_some [] h = refl
counted_some (i ∷ rows) h = ground (arith, h.0, counted_some rows h.1)

-- The pointer after a registration
abbrev pub entered : Option String → String → Option String
entered none id = some id
entered (some c) id = some c

new_flag :
    (rows : List ImproverVersion) (c : String) (i : ImproverVersion)
    → Pointed rows (some c)
    → i.is_champion ≡ nat_beq (length (filter (λ x. x.is_champion) rows)) 0
    → fetch improver_id i.id rows ≡ none
    → i.is_champion ≡ (c == i.id)
new_flag rows c i h flag fresh =
    elim (Bool-cases (nat_beq (length (filter (λ x. x.is_champion) rows)) 0)) [
      | inl zero_count ↦ absurd (ground (arith, counted_none rows (some c) h (ground arith)))
      | inr counted ↦ elim (Bool-cases (c == i.id)) [
        | inl same ↦ absurd (ground (arith, h.stands, eq_iff c i.id))
        | inr other ↦ ground arith
      ]
    ]

pub Pointed-enter :
    (rows : List ImproverVersion) (p : Option String) (i : ImproverVersion)
    {rows' : List ImproverVersion}
    → Pointed rows p
    → i.is_champion ≡ nat_beq (length (filter (λ x. x.is_champion) rows)) 0
    → insert improver_id i rows ≡ some rows'
    → Pointed rows' (entered p i.id)
Pointed-enter rows none i {rows'} h flag done =
    let eq = insert-eq improver_id i rows done in
    record {
      ids = insert-IsKeyed improver_id i rows h.ids done;
      flags =
          subst (λ xs. Flags xs (some i.id)) (sym eq)
            (All-append (λ x. x.is_champion ≡ at (some i.id) x.id) rows (i ∷ [])
              (Flags-fresh i.id rows (insert_fresh improver_id i rows done) h.flags)
              (ground (arith, counted_some rows h.flags, eq_iff i.id i.id), tt));
      stands =
          subst (λ xs. is_some (fetch improver_id i.id xs) ≡ true) (sym eq)
            (ground (arith, fetch-append_one improver_id i.id rows i, eq_iff i.id i.id));
    }
Pointed-enter rows (some c) i {rows'} h flag done =
    let eq = insert-eq improver_id i rows done in
    record {
      ids = insert-IsKeyed improver_id i rows h.ids done;
      flags =
          subst (λ xs. Flags xs (some c)) (sym eq)
            (All-append (λ x. x.is_champion ≡ at (some c) x.id) rows (i ∷ []) h.flags
              (new_flag rows c i h flag (insert_fresh improver_id i rows done), tt));
      stands =
          subst (λ xs. is_some (fetch improver_id c xs) ≡ true) (sym eq)
            (ground (arith, h.stands, fetch-append_one improver_id c rows i));
    }
