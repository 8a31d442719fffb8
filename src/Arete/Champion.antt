-- ===== src/Arete/Champion.antt =====
-- The champion flags as one pointer.
pub mod Enter
use labloop.Prelude.{
  ℕ, suc, ◌≤◌, String, ◌≡◌, ◌≢◌, ◌∙◌, refl, sym, ap, Bool, true, false, not, ◌&&◌, ◌||◌, Option,
  none, some, List, [], ◌∷◌, ◌++◌, any, filter, length, is_some, All, All-append, arith, eq_iff,
  ◌==◌, string_eq, Option-cases, Bool-cases, inl, inr, ◌⊎◌, if◌then◌else◌, is_empty, filter-none,
  nat_beq,
}
use mathlib.Core.Path.{subst}
use mathlib.Core.Option
use labloop.Table.{fetch, insert, update, IsKeyed}
use labloop.Table.Laws.{
  All-fetch, fetch-key, fetch-update, update-IsKeyed, insert-eq, insert-IsKeyed, insert_fresh,
  fetch-append_one,
}
use labloop.Arete.Models.{ImproverVersion}
use labloop.Arete.Store.{
  Lab, improver_id, get_improver, get_champion, count_champions, set_champion_flag, earliest,
}
use labloop.Arete.Pointer.{id_of}

-- Whether the pointer stands at an id
abbrev pub at : Option String → String → Bool
at none id = false
at (some c) id = c == id

abbrev pub Flags : List ImproverVersion → Option String → Type 0
Flags rows p = All (λ i. i.is_champion ≡ at p i.id) rows

abbrev pub standing : List ImproverVersion → Option String → Bool
standing rows none = true
standing rows (some c) = is_some (fetch improver_id c rows)

-- The rows say that the pointer stands at `p`: the ids are unique, the champion flag is that of
-- this id alone, and the id has a row.
pub record Pointed (rows : List ImproverVersion) (p : Option String) : Type 0 where
  pub ids : IsKeyed improver_id rows
  pub flags : Flags rows p
  pub stands : standing rows p ≡ true

abbrev pub flagged : Bool → ImproverVersion → ImproverVersion
flagged flag i = record i { is_champion = flag }

Flags-clear :
    (c : String) (rows : List ImproverVersion)
    → Flags rows (some c)
    → Flags (update improver_id c (flagged false) rows) none
unfolding update
Flags-clear c [] h = tt
Flags-clear c (i ∷ rows) h =
    (ground (arith, h.0, eq_iff i.id c, eq_iff c i.id), Flags-clear c rows h.1)

Flags-set :
    (c : String) (rows : List ImproverVersion)
    → Flags rows none
    → Flags (update improver_id c (flagged true) rows) (some c)
unfolding update
Flags-set c [] h = tt
Flags-set c (i ∷ rows) h = (ground (arith, h.0, eq_iff i.id c, eq_iff c i.id), Flags-set c rows h.1)

standing-update :
    (c k : String) (flag : Bool) (rows : List ImproverVersion)
    → is_some (fetch improver_id c rows) ≡ true
    → is_some (fetch improver_id c (update improver_id k (flagged flag) rows)) ≡ true
standing-update c k flag rows h =
    ground (arith, fetch-update improver_id k (flagged flag) (λ x. refl) c rows)

pub Pointed-clear :
    (c : String) (rows : List ImproverVersion)
    → Pointed rows (some c)
    → Pointed (update improver_id c (flagged false) rows) none
Pointed-clear c rows h = record {
  ids = update-IsKeyed improver_id c (flagged false) (λ x. refl) rows h.ids;
  flags = Flags-clear c rows h.flags;
  stands = refl;
}

pub Pointed-set :
    (c : String) (rows : List ImproverVersion)
    → is_some (fetch improver_id c rows) ≡ true
    → Pointed rows none
    → Pointed (update improver_id c (flagged true) rows) (some c)
Pointed-set c rows there h = record {
  ids = update-IsKeyed improver_id c (flagged true) (λ x. refl) rows h.ids;
  flags = Flags-set c rows h.flags;
  stands = standing-update c c true rows there;
}

-- Reading the pointer

either : {A : Type 0} (P : A → Type 0) (x y z : A) → P y → P z → (x ≡ y) ⊎ (x ≡ z) → P x
either P x y z py pz (inl e) = subst P (sym e) py
either P x y z py pz (inr e) = subst P (sym e) pz

earliest-cons :
    {A : Type 0} (created : A → String) (y z : A) (xs : List A) {x : A}
    → earliest created xs ≡ some z
    → earliest created (y ∷ xs) ≡ some x
    → (x ≡ y) ⊎ (x ≡ z)
unfolding earliest
earliest-cons created y z xs {x} found e = ground arith

earliest_one :
    {A : Type 0} (created : A → String) (y : A) (xs : List A) {x : A}
    → earliest created xs ≡ none
    → earliest created (y ∷ xs) ≡ some x
    → y ≡ x
unfolding earliest
earliest_one created y xs last e = ground arith

earliest-All :
    {A : Type 0} (created : A → String) (P : A → Type 0) (xs : List A) {x : A}
    → All P xs
    → earliest created xs ≡ some x
    → P x
unfolding earliest
earliest-All created P [] h e = cc
earliest-All created P (y ∷ xs) {x} h e = elim (Option-cases (earliest created xs)) [
  | inl last ↦ subst P (earliest_one created y xs last e) h.0
  | inr (z, found) ↦
      either P x y z h.0 (earliest-All created P xs h.1 found)
        (earliest-cons created y z xs found e)
]

earliest-none :
    {A : Type 0} (created : A → String) (xs : List A)
    → earliest created xs ≡ none
    → is_empty xs ≡ true
unfolding earliest
earliest-none created [] e = refl
earliest-none created (y ∷ xs) e = absurd (ground arith)

All-filter :
    {A : Type 0} (q : A → Bool) (P : A → Type 0) (xs : List A)
    → All P xs
    → All (λ x. (q x ≡ true) × P x) (filter q xs)
All-filter q P [] h = tt
All-filter q P (x ∷ xs) h = elim (Bool-cases (q x)) [
  | inl kept ↦ rw kept ((kept, h.0), All-filter q P xs h.1)
  | inr dropped ↦ rw dropped (All-filter q P xs h.1)
]

at-some : (p : Option String) (id : String) → at p id ≡ true → p ≡ some id
at-some none id h = cc
at-some (some c) id h = ap some ((eq_iff c id).0 h)

unflagged-none :
    (rows : List ImproverVersion) (p : Option String)
    → Pointed rows p
    → All (λ i. i.is_champion ≡ false) rows
    → p ≡ none
unflagged-none rows none h f = refl
unflagged-none rows (some c) h f = elim (Option-cases (fetch improver_id c rows)) [
  | inl missing ↦ absurd (ground (arith, h.stands))
  | inr (i, found) ↦ absurd (
      ground (
        arith,
        All-fetch improver_id (λ i. i.is_champion ≡ false) c rows f found,
        All-fetch improver_id (λ i. i.is_champion ≡ at (some c) i.id) c rows h.flags found,
        fetch-key improver_id c rows found,
        eq_iff c i.id,
      ))
]

-- The champion that a query finds is the one that the pointer stands at.
pub champion-Pointed :
    (l : Lab) (p : Option String) → Pointed l.improvers p → id_of (get_champion l) ≡ p
unfolding get_champion
champion-Pointed l p h = elim (Option-cases (get_champion l)) [
  | inl absent ↦ rw absent (
      sym (
        unflagged-none l.improvers p h (
          filter-none (λ i. i.is_champion) l.improvers
            (earliest-none (λ i. i.created_at) (filter (λ i. i.is_champion) l.improvers) absent))))
  | inr (i, found) ↦
      let (on, flag) =
        earliest-All (λ i. i.created_at) (λ i. (i.is_champion ≡ true) × (i.is_champion ≡ at p i.id))
          (filter (λ i. i.is_champion) l.improvers)
          (All-filter (λ i. i.is_champion) (λ i. i.is_champion ≡ at p i.id) l.improvers h.flags)
          found in
      rw found (sym (at-some p i.id (sym flag ∙ on)))
]

count_none :
    (c : String) (rows : List ImproverVersion)
    → fetch improver_id c rows ≡ none
    → Flags rows (some c)
    → length (filter (λ i. i.is_champion) rows) ≡ 0
unfolding fetch
count_none c [] absent h = refl
count_none c (i ∷ rows) absent h =
    ground (arith, count_none c rows, h.0, h.1, eq_iff c i.id, eq_iff i.id c)

count_rows :
    (rows : List ImproverVersion) (p : Option String)
    → IsKeyed improver_id rows
    → Flags rows p
    → length (filter (λ i. i.is_champion) rows) ≤ 1
count_rows [] p keyed h = ground arith
count_rows (i ∷ rows) p keyed h = elim (Bool-cases i.is_champion) [
  | inl on ↦ ground (
    arith,
    on,
    count_none i.id rows keyed.0 (subst (Flags rows) (at-some p i.id (sym h.0 ∙ on)) h.1),
  )
  | inr off ↦ ground (arith, count_rows rows p keyed.1 h.1)
]

pub count-Pointed : (l : Lab) (p : Option String) → Pointed l.improvers p → count_champions l ≤ 1
unfolding count_champions
count-Pointed l p h = count_rows l.improvers p h.ids h.flags
