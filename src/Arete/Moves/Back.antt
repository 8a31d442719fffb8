-- ===== src/Arete/Moves/Back.antt =====
-- What a rollback does to the pointer.
use labloop.Prelude.{
  String, ◌≡◌, refl, sym, true, false, not, ◌&&◌, Option, none, some, List, is_some, arith, ◌==◌,
  string_eq, Bool-cases, inl, inr,
}
use mathlib.Core.Path.{subst}
use labloop.Exec.{Result, ok, err, outcome-cases}
use labloop.Table.{update}
use labloop.Arete.Models.{ImproverVersion, MetaDecision, PolicyVersion}
use labloop.Arete.Store.{
  Lab, Error, improver_id, get_improver, set_champion_flag, create_meta_decision, get_active_policy,
  set_policy_status,
}
use labloop.Arete.Pointer.{
  rollback, rollback_gates, restore_champion, settle, Claimed, retire, restore, restorable,
  restore_id, rollback_decision,
}
use labloop.Arete.Champion.{standing, Pointed, flagged, Pointed-clear, Pointed-set}

-- The store once the flag is taken away and the policy retired.
unfoldable pub stripped : ImproverVersion → Lab → Lab
stripped c l = retire (get_active_policy c.id l) (set_champion_flag c.id false l)

module _ (c : ImproverVersion) (l : Lab) where
  pub stripped_rows : (stripped c l).improvers ≡ update improver_id c.id (flagged false) l.improvers
  unfolding stripped set_champion_flag set_policy_status
  stripped_rows = go (get_active_policy c.id l)
    where
      go :
          (p : Option PolicyVersion)
          → (retire p (set_champion_flag c.id false l)).improvers
            ≡ update improver_id c.id (flagged false) l.improvers
      go none = refl
      go (some p) = refl

  pub restored_is :
      {restored : Option String} {l' : Lab}
      → restore_champion c l ≡ (ok restored, l')
      → restored ≡ restorable (restore_id (get_active_policy c.id l) c) (stripped c l)
  unfolding restore_champion stripped
  restored_is h = ground arith

  pub restored_store :
      {restored : Option String} {l' : Lab}
      → restore_champion c l ≡ (ok restored, l')
      → l' ≡ restore restored (stripped c l)
  unfolding restore_champion stripped
  restored_store h = ground arith

  restorable_there :
      (o : Option String) (m : Lab) {r : String}
      → restorable o m ≡ some r
      → is_some (get_improver r m) ≡ true
  unfolding restorable
  restorable_there none m h = cc
  restorable_there (some id) m h = ground arith

  stripped-Pointed : Pointed l.improvers (some c.id) → Pointed (stripped c l).improvers none
  stripped-Pointed h =
      subst (λ rows. Pointed rows none) (sym stripped_rows) (Pointed-clear c.id l.improvers h)

  restore-Pointed :
      (restored : Option String) (m : Lab)
      → Pointed m.improvers none
      → standing m.improvers restored ≡ true
      → Pointed (restore restored m).improvers restored
  unfolding set_champion_flag
  restore-Pointed none m h there = h
  restore-Pointed (some r) m h there = Pointed-set r m.improvers there h

  restorable-standing : (o : Option String) (m : Lab) → standing m.improvers (restorable o m) ≡ true
  unfolding restorable get_improver
  restorable-standing none m = refl
  restorable-standing (some id) m =
      elim (Bool-cases (not (id == "") && is_some (get_improver id m))) [
        | inl there ↦ rw there (ground arith)
        | inr absent ↦ rw absent refl
      ]

  pub restore_champion-Pointed :
      {restored : Option String} {l' : Lab}
      → Pointed l.improvers (some c.id)
      → restore_champion c l ≡ (ok restored, l')
      → Pointed l'.improvers restored
  restore_champion-Pointed {restored} {l'} h done =
      subst (λ m. Pointed m.improvers restored) (sym (restored_store done))
        (restore-Pointed restored (stripped c l) (stripped-Pointed h) (
          subst (λ r. standing (stripped c l).improvers r ≡ true) (sym (restored_is done))
            (restorable-standing (restore_id (get_active_policy c.id l) c) (stripped c l))))

module _ (candidate rationale decided_by : String) (refs : List String) (claimed : Claimed)
    (id now : String) (l : Lab) where
  abbrev pub rolled : Result Error (Option String) × Lab
  rolled = rollback candidate rationale decided_by refs claimed id now l

  pub rollback-same : {e : Error} {l' : Lab} → rolled ≡ (err e, l') → l' ≡ l
  unfolding rollback rollback_gates create_meta_decision settle restore_champion
  rollback-same h = ground arith

  gates-same :
      {c : ImproverVersion} {l₀ : Lab}
      → rollback_gates candidate rationale decided_by refs l ≡ (ok c, l₀)
      → (l₀ ≡ l) × (get_improver candidate l ≡ some c)
  unfolding rollback_gates
  gates-same h = (ground arith, ground arith)

  decision-kept :
      (d : MetaDecision) {u : Unit {0}} {l₁ : Lab}
      → create_meta_decision d l ≡ (ok u, l₁)
      → (l₁.improvers ≡ l.improvers) × (l₁.policies ≡ l.policies)
  unfolding create_meta_decision
  decision-kept d h = (ground arith, ground arith)

  pub rollback-settled :
      {restored : Option String} {l' : Lab}
      → rolled ≡ (ok restored, l')
      → (c : ImproverVersion) × (l₁ : Lab) × (get_improver candidate l ≡ some c)
        × (l₁.improvers ≡ l.improvers)
        × (l₁.policies ≡ l.policies)
        × (settle c l₁ ≡ (ok restored, l'))
  unfolding rollback
  rollback-settled {restored} {l'} h =
      elim (outcome-cases (rollback_gates candidate rationale decided_by refs l)) [
        | inr (e, l₀, failed) ↦ absurd (ground arith)
        | inl (c, l₀, passed) ↦
            let d = rollback_decision candidate rationale decided_by refs claimed id now in
            elim (outcome-cases (create_meta_decision d l)) [
              | inr (e, l₁, failed) ↦ absurd (ground (arith, gates-same passed))
              | inl (u, l₁, written) ↦ (
                c,
                l₁,
                (gates-same passed).1,
                (decision-kept d written).0,
                (decision-kept d written).1,
                ground (arith, gates-same passed),
              )
            ]
      ]
