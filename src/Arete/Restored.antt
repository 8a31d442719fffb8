-- ===== src/Arete/Restored.antt =====
-- A promotion that is rolled back.
use labloop.Prelude.{
  String, ◌≡◌, ◌≢◌, ◌∙◌, refl, sym, ap, Bool, true, false, ◌&&◌, Option, none, some, List, [], ◌∷◌,
  ◌++◌, arith, eq_iff, inl, inr, Option-cases, is_some, filter, filter-append, ◌==◌, string_eq,
}
use mathlib.Core.Path.{subst}
use labloop.Exec.{ok, outcome-cases}
use labloop.Json.{Fields}
use labloop.Table.{fetch, insert, update}
use labloop.Table.Laws.{All-fetch, fetch-key, fetch-update}
use labloop.Arete.Models.{ImproverVersion, PolicyVersion, MetaDecision, PolicyStatus}
use labloop.Arete.Store.{
  Lab, improver_id, get_improver, get_active_policy, latest, is_active, create_policy_version,
  transaction, set_champion_flag, get_champion,
}
use labloop.Arete.Checks.{check_promote_allowed}
use labloop.Arete.Pointer.{promote_policy, rollback, Claimed, id_of, restorable, restore_id}
use labloop.Arete.Champion.{at, flagged, Pointed, champion-Pointed}
use labloop.Arete.Moves.{promote-Pointed, promote_rows, cleared}
use labloop.Arete.Moves.Back.{
  rollback-settled, restored_is, restore_champion-Pointed, stripped, stripped_rows,
}
use labloop.Arete.Steps.{settle_on}

latest-none : {A : Type 0} (created : A → String) (xs : List A) → latest created xs ≡ none → xs ≡ []
unfolding latest
latest-none created [] e = refl
latest-none created (y ∷ xs) e = absurd (ground arith)

latest_one : {A : Type 0} (created : A → String) (x : A) → latest created (x ∷ []) ≡ some x
unfolding latest
latest_one created x = refl

module _ (candidate : String) (policy : Fields) (id now : String) (l : Lab) where
  minted : String → PolicyVersion
  minted decision = record {
    id = id;
    improver_version_id = candidate;
    decision_id = decision;
    policy = policy;
    previous_champion_id = id_of (get_champion l);
    status = PolicyStatus.active;
    created_at = now;
  }

  allowed-same :
      {d : MetaDecision} {l₀ : Lab} → check_promote_allowed candidate l ≡ (ok d, l₀) → l₀ ≡ l
  unfolding check_promote_allowed
  allowed-same h = ground arith

  promote_policies :
      {prev : Option String} {l' : Lab}
      → promote_policy candidate policy id now l ≡ (ok prev, l')
      → (d : String) × (l'.policies ≡ l.policies ++ minted d ∷ [])
  unfolding promote_policy transaction create_policy_version set_champion_flag minted insert
  promote_policies h = elim (outcome-cases (check_promote_allowed candidate l)) [
    | inr (e, l₀, failed) ↦ absurd (ground arith)
    | inl (d, l₀, allowed) ↦ elim (Option-cases (get_champion l)) [
      | inl absent ↦ (d.id, ground (arith, allowed-same allowed))
      | inr (c, found) ↦ (d.id, ground (arith, allowed-same allowed))
    ]
  ]

  minted_active :
      (l' : Lab) (d : String)
      → get_active_policy candidate l ≡ none
      → l'.policies ≡ l.policies ++ minted d ∷ []
      → get_active_policy candidate l' ≡ some (minted d)
  unfolding get_active_policy minted
  minted_active l' d idle rows =
      ap
        (λ ps.
          latest (λ p. p.created_at)
            (filter (λ p. (p.improver_version_id == candidate) && is_active p.status) ps))
        rows
      ∙ ap (latest (λ p. p.created_at)) (
          filter-append (λ p. (p.improver_version_id == candidate) && is_active p.status) l.policies
            (minted d ∷ []))
      ∙ last_active d (
          latest-none (λ p. p.created_at)
            (filter (λ p. (p.improver_version_id == candidate) && is_active p.status) l.policies)
            idle)
    where
      last_active :
          (d : String)
          → filter (λ p. (p.improver_version_id == candidate) && is_active p.status) l.policies ≡ []
          → latest
              (λ p. p.created_at)
              (filter (λ p. (p.improver_version_id == candidate) && is_active p.status) l.policies
                ++ filter
                    (λ p. (p.improver_version_id == candidate) && is_active p.status)
                    (minted d ∷ []))
            ≡ some (minted d)
      last_active d none_active =
          rw none_active
            (rw ((eq_iff candidate candidate).1 refl) (latest_one (λ p. p.created_at) (minted d)))

restorable-some :
    (p : PolicyVersion) (c : ImproverVersion) (x : String) (m : Lab)
    → p.previous_champion_id ≡ some x
    → x ≢ ""
    → is_some (get_improver x m) ≡ true
    → restorable (restore_id (some p) c) m ≡ some x
unfolding restorable restore_id
restorable-some p c x m prev named there = ground (arith, eq_iff x "")

there-update :
    (k c : String) (flag : Bool) (rows : List ImproverVersion)
    → is_some (fetch improver_id k rows) ≡ true
    → is_some (fetch improver_id k (update improver_id c (flagged flag) rows)) ≡ true
there-update k c flag rows h =
    ground (arith, fetch-update improver_id c (flagged flag) (λ x. refl) k rows)

module _ (candidate : String) (policy : Fields) (id now : String) (l : Lab) {prev : Option String}
    {l₁ : Lab} (promoted : promote_policy candidate policy id now l ≡ (ok prev, l₁)) where
  cleared_there :
      (k : String) (p : Option ImproverVersion)
      → is_some (fetch improver_id k l.improvers) ≡ true
      → is_some (fetch improver_id k (cleared candidate policy id now l p l.improvers)) ≡ true
  unfolding cleared
  cleared_there k none h = h
  cleared_there k (some c) h = there-update k c.id false l.improvers h

  promoted_there :
      (k : String)
      → is_some (fetch improver_id k l.improvers) ≡ true
      → is_some (fetch improver_id k l₁.improvers) ≡ true
  promoted_there k h =
      subst (λ rows. is_some (fetch improver_id k rows) ≡ true)
        (sym (promote_rows candidate policy id now l promoted))
        (there-update k candidate true
          (cleared candidate policy id now l (get_champion l) l.improvers)
          (cleared_there k (get_champion l) h))

  module _ (x : String) (h : Pointed l.improvers (some x)) (named : x ≢ "")
      (idle : get_active_policy candidate l ≡ none) where
    champion_now : Pointed l₁.improvers (some candidate)
    champion_now = promote-Pointed candidate policy id now l (some x) h promoted

    champion_on : (c : ImproverVersion) → get_improver candidate l₁ ≡ some c → c.is_champion ≡ true
    unfolding get_improver
    champion_on c found = ground (
      arith,
      All-fetch improver_id (λ i. i.is_champion ≡ at (some candidate) i.id) candidate l₁.improvers
          champion_now.flags found,
      fetch-key improver_id candidate l₁.improvers found,
      eq_iff candidate c.id,
    )

    back :
        (c : ImproverVersion) (m : Lab)
        → c.id ≡ candidate
        → m.improvers ≡ l₁.improvers
        → m.policies ≡ l₁.policies
        → restorable (restore_id (get_active_policy c.id m) c) (stripped c m) ≡ some x
    unfolding get_active_policy get_improver minted
    back c m same rows kept =
        let (d, policies) = promote_policies candidate policy id now l promoted in
        ap (λ a. restorable (restore_id a c) (stripped c m))
          (ap (λ k. get_active_policy k m) same
            ∙ ap
                (λ ps.
                  latest (λ p. p.created_at)
                    (filter (λ p. (p.improver_version_id == candidate) && is_active p.status) ps))
                kept
            ∙ minted_active candidate policy id now l l₁ d idle policies)
        ∙ restorable-some (minted candidate policy id now l d) c x (stripped c m)
            (champion-Pointed l (some x) h) named
            (subst (λ rs. is_some (fetch improver_id x rs) ≡ true) (sym (stripped_rows c m))
              (there-update x c.id false m.improvers (
                subst (λ rs. is_some (fetch improver_id x rs) ≡ true) (sym rows)
                  (promoted_there x h.stands))))

    -- A promotion that displaced the champion `x`, of a candidate without an active policy, is undone
    -- by a rollback of the candidate that is answered: `x` is named as restored, and the champion
    -- flags are again those of a pointer to `x`.
    pub rollback-promote :
        (rationale decided_by : String) (refs : List String) (claimed : Claimed) (id' now' : String)
        {restored : Option String} {l₂ : Lab}
        → rollback candidate rationale decided_by refs claimed id' now' l₁ ≡ (ok restored, l₂)
        → (restored ≡ some x) × Pointed l₂.improvers (some x)
    unfolding get_improver
    rollback-promote rationale decided_by refs claimed id' now' {restored} {l₂} done =
        let (c, m, found, same, kept, settled) =
          rollback-settled candidate rationale decided_by refs claimed id' now' l₁ done in
        let key = fetch-key improver_id candidate l₁.improvers found in
        let run = settle_on c m (champion_on c found) settled in
        let answer = restored_is c m run ∙ back c m key same kept in
        (
          answer,
          subst (Pointed l₂.improvers) answer (
              restore_champion-Pointed c m
                (subst (λ rows. Pointed rows (some c.id)) (sym same)
                  (subst (λ k. Pointed l₁.improvers (some k)) (sym key) champion_now))
                run),
        )
