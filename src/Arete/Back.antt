-- ===== src/Arete/Back.antt =====
-- Where a rollback of the champion sends the pointer, against `restore_champion` of the handler.
use labloop.Prelude.{
  String, ◌≡◌, ◌∙◌, refl, ap, false, ◌&&◌, Option, none, some, is_some, arith, ◌==◌, string_eq,
  Bool-cases, inl, inr, if◌then◌else◌, filter,
}
use labloop.Exec.{ok}
use labloop.Table.{fetch, update}
use labloop.Table.Laws.{fetch-update}
use labloop.Arete.Models.{ImproverVersion, PolicyVersion}
use labloop.Arete.Store.{Lab, improver_id, get_improver, get_active_policy, latest, is_active}
use labloop.Arete.Pointer.{restore_champion, restorable, restore_id, or_else}
use labloop.Arete.Champion.{flagged}
use labloop.Arete.Moves.Back.{stripped, stripped_rows, restored_is}

abbrev previous_of : Option PolicyVersion → Option String
previous_of none = none
previous_of (some p) = p.previous_champion_id

-- An empty id names no improver.
abbrev named : Option String → Option String
named none = none
named (some x) = if x == "" then none else some x

abbrev first_of : Option String → Option String → Option String
first_of none y = y
first_of (some x) y = some x

abbrev registered : Option String → Lab → Option String
registered none l = none
registered (some x) l = if is_some (get_improver x l) then some x else none

-- The champion that the active policy of the improver displaced, or else its parent, if registered
abbrev pub sent_back : ImproverVersion → Lab → Option String
sent_back c l =
    registered (named (first_of (named (previous_of (get_active_policy c.id l))) c.parent_id)) l

module _ (m l : Lab)
    (same : (k : String) → is_some (get_improver k m) ≡ is_some (get_improver k l)) where
  restorable-registered : (o : Option String) → restorable o m ≡ registered (named o) l
  unfolding restorable
  restorable-registered none = refl
  restorable-registered (some x) = ground (arith, same x)

or_else-first_of : (x y : Option String) → named (or_else x y) ≡ named (first_of (named x) y)
or_else-first_of none y = refl
or_else-first_of (some x) y = elim (Bool-cases (x == "")) [
  | inl empty ↦ rw empty refl
  | inr given ↦ rw given refl
]

restore_id-named :
    (a : Option PolicyVersion) (c : ImproverVersion)
    → named (restore_id a c) ≡ named (first_of (named (previous_of a)) c.parent_id)
unfolding restore_id
restore_id-named none c = refl
restore_id-named (some p) c = or_else-first_of p.previous_champion_id c.parent_id

stripped_there :
    (c : ImproverVersion) (l₁ l : Lab)
    → l₁.improvers ≡ l.improvers
    → (k : String) → is_some (get_improver k (stripped c l₁)) ≡ is_some (get_improver k l)
unfolding get_improver
stripped_there c l₁ l same k =
    ap (λ rows. is_some (fetch improver_id k rows))
      (stripped_rows c l₁ ∙ ap (update improver_id c.id (flagged false)) same)
    ∙ ground (arith, fetch-update improver_id c.id (flagged false) (λ x. refl) k l.improvers)

active_same :
    (k : String) (l₁ l : Lab)
    → l₁.policies ≡ l.policies
    → get_active_policy k l₁ ≡ get_active_policy k l
unfolding get_active_policy
active_same k l₁ l kept =
    ap
      (λ ps.
        latest (λ p. p.created_at)
          (filter (λ p. (p.improver_version_id == k) && is_active p.status) ps))
      kept

pub restored-sent_back :
    (c : ImproverVersion) (l₁ l : Lab) {restored : Option String} {l' : Lab}
    → l₁.improvers ≡ l.improvers
    → l₁.policies ≡ l.policies
    → restore_champion c l₁ ≡ (ok restored, l')
    → restored ≡ sent_back c l
restored-sent_back c l₁ l same kept done =
    restored_is c l₁ done
    ∙ restorable-registered (stripped c l₁) l (stripped_there c l₁ l same)
        (restore_id (get_active_policy c.id l₁) c)
    ∙ ap (λ o. registered o l)
        (restore_id-named (get_active_policy c.id l₁) c
          ∙ ap (λ a. named (first_of (named (previous_of a)) c.parent_id))
              (active_same c.id l₁ l kept))
