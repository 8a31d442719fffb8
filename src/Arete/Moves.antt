-- ===== src/Arete/Moves.antt =====
-- What a registration and a promotion do to the pointer.
pub mod Back
use labloop.Prelude.{
  ℕ, suc, ◌≤◌, String, ◌≡◌, ◌≢◌, ◌∙◌, refl, sym, ap, Bool, true, false, not, ◌&&◌, ◌||◌, Option,
  none, some, List, [], ◌∷◌, ◌++◌, any, filter, length, is_some, All, arith, eq_iff, ◌==◌,
  string_eq, Option-cases, Bool-cases, inl, inr, ◌⊎◌, if◌then◌else◌, is_empty, nat_beq,
}
use mathlib.Core.Path.{subst}
use labloop.Exec.{Exec, Result, ok, err, outcome-cases}
use labloop.Json.{Fields}
use labloop.Table.{fetch, insert, update, IsKeyed}
use labloop.Table.Laws.{fetch-update, All-fetch, fetch-key}
use labloop.Arete.Models.{ImproverVersion, MetaDecision, PolicyVersion}
use labloop.Arete.Store.{
  Lab, Error, improver_id, get_improver, get_champion, count_champions, set_champion_flag,
  create_improver, create_policy_version, create_meta_decision, transaction, get_active_policy,
  set_policy_status,
}
use labloop.Arete.Checks.{check_promote_allowed}
use labloop.Arete.Pointer.{
  id_of, register_improver, promote_policy, rollback, rollback_gates, restore_champion, settle,
  Claimed, flag_previous, retire, restore, restorable, restore_id, rollback_decision,
}
use labloop.Arete.Champion.{
  at, Flags, Pointed, flagged, Pointed-clear, Pointed-set, champion-Pointed,
}
use labloop.Arete.Champion.Enter.{entered, Pointed-enter}

module _ (i : ImproverVersion) (l : Lab) where
  abbrev counted : ImproverVersion
  counted = record i { is_champion = nat_beq (count_champions l) 0 }

  pub register-same : {e : Error} {l' : Lab} → register_improver i l ≡ (err e, l') → l' ≡ l
  unfolding register_improver create_improver
  register-same h = ground arith

  register-inserted :
      {b : Bool} {l' : Lab}
      → register_improver i l ≡ (ok b, l')
      → insert improver_id counted l.improvers ≡ some l'.improvers
  unfolding register_improver create_improver
  register-inserted h = ground arith

  pub register-Pointed :
      (p : Option String) {b : Bool} {l' : Lab}
      → Pointed l.improvers p
      → register_improver i l ≡ (ok b, l')
      → Pointed l'.improvers (entered p i.id)
  unfolding count_champions
  register-Pointed p h done = Pointed-enter l.improvers p counted h refl (register-inserted done)

module _ (candidate : String) (policy : Fields) (id now : String) (l : Lab) where
  pub promote-same :
      {e : Error} {l' : Lab} → promote_policy candidate policy id now l ≡ (err e, l') → l' ≡ l
  unfolding promote_policy transaction check_promote_allowed
  promote-same h = ground arith

  pub promote-displaced :
      {prev : Option String} {l' : Lab}
      → promote_policy candidate policy id now l ≡ (ok prev, l')
      → prev ≡ id_of (get_champion l)
  unfolding promote_policy check_promote_allowed transaction create_policy_version
  promote-displaced h = ground arith

  pub promote_candidate :
      {prev : Option String} {l' : Lab}
      → promote_policy candidate policy id now l ≡ (ok prev, l')
      → (c : ImproverVersion) × (get_improver candidate l ≡ some c) × (c.is_champion ≡ false)
  unfolding promote_policy check_promote_allowed
  promote_candidate h = elim (Option-cases (get_improver candidate l)) [
    | inl missing ↦ absurd (ground arith)
    | inr (c, found) ↦ (c, found, ground arith)
  ]

  unfoldable pub cleared : Option ImproverVersion → List ImproverVersion → List ImproverVersion
  cleared none rows = rows
  cleared (some p) rows = update improver_id p.id (flagged false) rows

  pub promote_rows :
      {prev : Option String} {l' : Lab}
      → promote_policy candidate policy id now l ≡ (ok prev, l')
      → l'.improvers
        ≡ update improver_id candidate (flagged true) (cleared (get_champion l) l.improvers)
  unfolding promote_policy check_promote_allowed transaction create_policy_version set_champion_flag
      cleared
  promote_rows h = elim (Option-cases (get_champion l)) [
    | inl absent ↦ ground arith
    | inr (c, found) ↦ ground arith
  ]

  cleared-Pointed :
      (p : Option String)
      → Pointed l.improvers p
      → Pointed (cleared (get_champion l) l.improvers) none
  unfolding cleared
  cleared-Pointed p h = elim (Option-cases (get_champion l)) [
    | inl absent ↦
        rw absent (subst (Pointed l.improvers) (sym (champion-Pointed l p h) ∙ ap id_of absent) h)
    | inr (c, found) ↦ rw found (
        Pointed-clear c.id l.improvers
          (subst (Pointed l.improvers) (sym (champion-Pointed l p h) ∙ ap id_of found) h))
  ]

  cleared_there :
      (p : Option ImproverVersion)
      → is_some (get_improver candidate l) ≡ true
      → is_some (fetch improver_id candidate (cleared p l.improvers)) ≡ true
  unfolding cleared get_improver
  cleared_there none h = h
  cleared_there (some c) h =
      ground
        (arith, fetch-update improver_id c.id (flagged false) (λ x. refl) candidate l.improvers)

  pub promote-Pointed :
      (p : Option String) {prev : Option String} {l' : Lab}
      → Pointed l.improvers p
      → promote_policy candidate policy id now l ≡ (ok prev, l')
      → Pointed l'.improvers (some candidate)
  promote-Pointed p h done =
      let (c, found, off) = promote_candidate done in
      subst (λ rows. Pointed rows (some candidate)) (sym (promote_rows done))
        (Pointed-set candidate (cleared (get_champion l) l.improvers)
          (cleared_there (get_champion l) (rw found refl)) (cleared-Pointed p h))

  -- The candidate was not the champion.
  pub promote-apart :
      (p : Option String) {prev : Option String} {l' : Lab}
      → Pointed l.improvers p
      → promote_policy candidate policy id now l ≡ (ok prev, l')
      → p ≢ some candidate
  unfolding get_improver
  promote-apart p h done same =
      let (c, found, off) = promote_candidate done in
      let flag =
        All-fetch improver_id (λ i. i.is_champion ≡ at p i.id) candidate l.improvers h.flags
          found in
      ground (
        arith,
        same,
        off,
        flag,
        fetch-key improver_id candidate l.improvers found,
        eq_iff candidate c.id,
      )
