-- ===== src/Arete/Refine.antt =====
-- The handlers against one pointer that moves.
use labloop.Prelude.{
  ◌≤◌, String, ◌≡◌, ◌∙◌, refl, sym, ap, Bool, true, Option, none, some, List, [], ◌∷◌, Bool-cases,
  inl, inr,
}
use mathlib.Core.Path.{subst}
use labloop.Exec.{ok, outcome-cases}
use labloop.Json.{Fields}
use labloop.Table.Laws.{fetch-key}
use labloop.Arete.Models.{ImproverVersion}
use labloop.Arete.Store.{Lab, improver_id, get_improver, count_champions}
use labloop.Arete.Pointer.{register_improver, promote_policy, rollback, settle, Claimed}
use labloop.Arete.Champion.{Pointed, count-Pointed}
use labloop.Arete.Champion.Enter.{entered}
use labloop.Arete.Moves.{
  register-same, register-Pointed, promote-same, promote-Pointed, promote-apart,
}
use labloop.Arete.Moves.Back.{rollback-same, rollback-settled, restore_champion-Pointed}
use labloop.Arete.Back.{restored-sent_back}
use labloop.Arete.Steps.{
  Op, register, promote, roll_back, perform, run, is_ok, answers, Step, refused, enters, joins,
  displaces, returns, rests, champion_at, off_apart, settle_off, settle_on,
}

Follows : Op → Lab → Option String → Bool → Lab → Type 0
Follows op l p b l' = (p' : Option String) × Step l op b p p' × Pointed l'.improvers p'

entered-Step :
    (l : Lab) (p : Option String) (i : ImproverVersion)
    → Step l (register i) true p (entered p i.id)
entered-Step l none i = enters
entered-Step l (some c) i = joins

register-Follows :
    (i : ImproverVersion) (p : Option String) (l : Lab)
    → Pointed l.improvers p
    → Follows (register i) l p (answers (register i) l) (perform (register i) l)
unfolding Follows perform answers
register-Follows i p l h = elim (outcome-cases (register_improver i l)) [
  | inr (e, l', failed) ↦ (
    p,
    subst (λ b. Step l (register i) b p p) (sym (ap (λ r. is_ok r.0) failed)) refused,
    subst (λ m. Pointed m.improvers p) (sym (ap (λ r. r.1) failed ∙ register-same i l failed)) h,
  )
  | inl (b, l', done) ↦ (
    entered p i.id,
    subst (λ b. Step l (register i) b p (entered p i.id)) (sym (ap (λ r. is_ok r.0) done))
        (entered-Step l p i),
    subst (λ m. Pointed m.improvers (entered p i.id)) (sym (ap (λ r. r.1) done))
        (register-Pointed i l p h done),
  )
]

promote-Follows :
    (candidate : String) (policy : Fields) (id now : String) (p : Option String) (l : Lab)
    → Pointed l.improvers p
    → Follows
        (promote candidate policy id now)
        l
        p
        (answers (promote candidate policy id now) l)
        (perform (promote candidate policy id now) l)
unfolding Follows perform answers
promote-Follows candidate policy id now p l h =
    elim (outcome-cases (promote_policy candidate policy id now l)) [
      | inr (e, l', failed) ↦ (
        p,
        subst (λ b. Step l (promote candidate policy id now) b p p)
            (sym (ap (λ r. is_ok r.0) failed)) refused,
        subst (λ m. Pointed m.improvers p)
            (sym (ap (λ r. r.1) failed ∙ promote-same candidate policy id now l failed)) h,
      )
      | inl (prev, l', done) ↦ (
        some candidate,
        subst (λ b. Step l (promote candidate policy id now) b p (some candidate))
            (sym (ap (λ r. is_ok r.0) done))
            (displaces (promote-apart candidate policy id now l p h done)),
        subst (λ m. Pointed m.improvers (some candidate)) (sym (ap (λ r. r.1) done))
            (promote-Pointed candidate policy id now l p h done),
      )
    ]

module _ (candidate rationale decided_by : String) (refs : List String) (claimed : Claimed)
    (id now : String) (p : Option String) (l : Lab) (h : Pointed l.improvers p) where
  abbrev op : Op
  op = roll_back candidate rationale decided_by refs claimed id now

  settled-Follows :
      (c : ImproverVersion) (l₁ : Lab) {restored : Option String} {l' : Lab}
      → get_improver candidate l ≡ some c
      → l₁.improvers ≡ l.improvers
      → l₁.policies ≡ l.policies
      → settle c l₁ ≡ (ok restored, l')
      → Follows op l p true l'
  unfolding Follows
  settled-Follows c l₁ {restored} {l'} found same kept done = elim (Bool-cases c.is_champion) [
    | inl on ↦
        let here = champion_at candidate l p c h found on in
        let key : c.id ≡ candidate =
          unfold get_improver in fetch-key improver_id candidate l.improvers found in
        let answer = restored-sent_back c l₁ l same kept (settle_on c l₁ on done) in
        (
          restored,
          subst (λ q. Step l op true q restored) (sym here)
              (subst (Step l op true (some candidate)) (sym answer) (returns c found)),
          restore_champion-Pointed c l₁
              (subst (λ rows. Pointed rows (some c.id)) (sym same)
                (subst (λ q. Pointed l.improvers q) (here ∙ ap some (sym key)) h))
              (settle_on c l₁ on done),
        )
    | inr off ↦ (
      p,
      rests (off_apart candidate l p c h found off),
      subst (λ m. Pointed m.improvers p) (sym (settle_off c l₁ off done))
          (subst (λ rows. Pointed rows p) (sym same) h),
    )
  ]

  roll_back-Follows : Follows op l p (answers op l) (perform op l)
  unfolding Follows perform answers
  roll_back-Follows =
      elim (outcome-cases (rollback candidate rationale decided_by refs claimed id now l)) [
        | inr (e, l', failed) ↦ (
          p,
          subst (λ b. Step l op b p p) (sym (ap (λ r. is_ok r.0) failed)) refused,
          subst (λ m. Pointed m.improvers p)
              (sym (
                ap (λ r. r.1) failed
                ∙ rollback-same candidate rationale decided_by refs claimed id now l failed))
              h,
        )
        | inl (restored, l', done) ↦
            let (c, l₁, found, same, kept, settled) =
              rollback-settled candidate rationale decided_by refs claimed id now l done in
            subst (λ b. Follows op l p b (perform op l)) (sym (ap (λ r. is_ok r.0) done))
              (subst (Follows op l p true) (sym (ap (λ r. r.1) done))
                (settled-Follows c l₁ found same kept settled))
      ]

-- Every call of `register_improver`, `promote_policy` and `rollback` moves one pointer: where the
-- champion flags are those of a pointer to a registered improver, or of none, they are so
-- afterwards. A call that is refused leaves the pointer. An answered registration sets it to the new
-- improver if it stood nowhere, and leaves it otherwise; an answered promotion moves it to the
-- candidate, where it did not stand. An answered rollback of the champion moves it to the champion
-- that the candidate's active policy displaced, or else to the candidate's parent, or, if that one is
-- not registered, takes it away; a rollback of another improver leaves it.
pub perform-Step :
    (op : Op) (p : Option String) (l : Lab)
    → Pointed l.improvers p
    → (p' : Option String) × Step l op (answers op l) p p' × Pointed (perform op l).improvers p'
unfolding Follows
perform-Step (register i) p l h = register-Follows i p l h
perform-Step (promote candidate policy id now) p l h = promote-Follows candidate policy id now p l h
perform-Step (roll_back candidate rationale decided_by refs claimed id now) p l h =
    roll_back-Follows candidate rationale decided_by refs claimed id now p l h

run-Pointed :
    (ops : List Op) (p : Option String) (l : Lab)
    → Pointed l.improvers p
    → (p' : Option String) × Pointed (run ops l).improvers p'
unfolding run
run-Pointed [] p l h = (p, h)
run-Pointed (op ∷ ops) p l h =
    let (q, step, k) = perform-Step op p l h in run-Pointed ops q (perform op l) k

-- From a store without improvers, no sequence of calls of `register_improver`, `promote_policy` and
-- `rollback` leads to two champions.
pub run-count_champions :
    (ops : List Op) (l : Lab) → l.improvers ≡ [] → count_champions (run ops l) ≤ 1
run-count_champions ops l empty =
    let (p, h) = run-Pointed ops none l (
      subst (λ rows. Pointed rows none) (sym empty)
        (record { ids = tt; flags = tt; stands = refl })) in
    count-Pointed (run ops l) p h
