-- ===== src/Tools/Trial/Design.antt =====
-- `design_experiment`: its gates, its writes and its outcomes.
use labloop.Prelude.{
  ◌+◌, ◌≤◌, ◌<◌, String, ◌≡◌, ◌⊎◌, inl, inr, refl, ap, ◌∙◌, some, [], ◌∷◌, ◌++◌, arith, ◌==◌,
  string_eq, eq_iff, Option-cases, length, filter, length-append, filter-append,
}
use labloop.Json.{Json, Fields}
use labloop.Exec.{ok, err, outcome-cases}
use labloop.Table.{insert, update}
use labloop.Table.Laws.{fetch-update_self}
use labloop.Models.{
  Programme, ProgrammeStatus, Hypothesis, HypothesisStatus, Trial, programme_status_eq,
  hypothesis_status_eq,
}
use labloop.Models.New.{new_trial}
use labloop.Tools.Schemas.{coerce_dict}
use labloop.Store.State.{State, Error, not_json, hypothesis_id}
use labloop.Store.Rows.{get_programme, get_hypothesis, list_trials, create_trial}
use labloop.Store.Hypotheses.{promote_hypothesis_if_proposed}
use labloop.Commitments.{
  check_hypothesis_exists, check_hypothesis_testable, check_programme_active,
  check_hypothesis_in_programme, check_budget_exhausted,
}
use labloop.Tools.Trial.{design_gates, design_experiment}

-- The state in which `design_experiment` goes through its gates.
pub record Designable (programme hypothesis : String) (s : State) : Type 0 where
  pub p : Programme
  pub h : Hypothesis
  pub programme_found : get_programme programme s ≡ some p
  pub hypothesis_found : get_hypothesis hypothesis s ≡ some h
  pub active : p.status ≡ ProgrammeStatus.active
  pub owned : h.programme_id ≡ programme
  pub testable : (h.status ≡ HypothesisStatus.proposed) ⊎ (h.status ≡ HypothesisStatus.under_test)
  pub room : length (list_trials programme s) < p.budget_max_trials

design_gates-same :
    (programme hypothesis : String) (s : State) → (design_gates programme hypothesis s).1 ≡ s
unfolding design_gates
design_gates-same programme hypothesis s = ground arith

design_gates-Designable :
    (programme hypothesis : String) (s : State) {s' : State}
    → design_gates programme hypothesis s ≡ (ok tt, s')
    → Designable programme hypothesis s
unfolding design_gates
design_gates-Designable programme hypothesis s e = elim (Option-cases (get_programme programme s)) [
  | inl no_programme ↦ absurd (unfold check_programme_active in ground arith)
  | inr (p, programme_found) ↦ elim (Option-cases (get_hypothesis hypothesis s)) [
    | inl no_hypothesis ↦ absurd (unfold check_hypothesis_exists in ground arith)
    | inr (h, hypothesis_found) ↦ record {
      p = p;
      h = h;
      programme_found = programme_found;
      hypothesis_found = hypothesis_found;
      active = unfold check_programme_active in ground arith;
      owned =
          unfold check_hypothesis_in_programme in ground (arith, eq_iff h.programme_id programme);
      testable = unfold check_hypothesis_testable in ground arith;
      room = unfold check_budget_exhausted in ground arith;
    }
  ]
]

-- The write of the new row, once its references are known.
create_trial-ok :
    (t : Trial) (s : State) {s' : State}
    → create_trial t s ≡ (ok tt, s')
    → s' ≡ record s { trials = s.trials ++ t ∷ [] }
unfolding create_trial insert
create_trial-ok t s e = ground arith

create_trial-err :
    (t : Trial) (s : State) {x : Error} {s' : State} → create_trial t s ≡ (err x, s') → s' ≡ s
unfolding create_trial
create_trial-err t s e = ground arith

-- After the gates the promotion goes through, and touches the hypotheses alone.
promote-ok :
    (hypothesis : String) (s : State) (h : Hypothesis)
    → get_hypothesis hypothesis s ≡ some h
    → (h.status ≡ HypothesisStatus.proposed) ⊎ (h.status ≡ HypothesisStatus.under_test)
    → (s' : State) × (promote_hypothesis_if_proposed hypothesis s ≡ (ok tt, s'))
      × (s'.trials ≡ s.trials)
      × (h' : Hypothesis) × (get_hypothesis hypothesis s' ≡ some h')
      × (h'.status ≡ HypothesisStatus.under_test)
unfolding promote_hypothesis_if_proposed get_hypothesis
promote-ok hypothesis s h found (inl proposed) = (
  record s {
    hypotheses =
        update hypothesis_id hypothesis (λ h'. record h' { status = HypothesisStatus.under_test })
          s.hypotheses;
  },
  ground arith,
  refl,
  (record h { status = HypothesisStatus.under_test }),
  fetch-update_self hypothesis_id (λ h'. record h' { status = HypothesisStatus.under_test })
      (λ x. refl) hypothesis s.hypotheses found,
  refl,
)
promote-ok hypothesis s h found (inr under_test) = (s, ground arith, refl, h, found, under_test)

gates-cases :
    (programme hypothesis : String) (s : State)
    → (design_gates programme hypothesis s ≡ (ok tt, s))
      ⊎ ((e : Error) × (design_gates programme hypothesis s ≡ (err e, s)))
gates-cases programme hypothesis s = elim (outcome-cases (design_gates programme hypothesis s)) [
  | inl (a, s', passed) ↦ inl (ground (arith, design_gates-same programme hypothesis s))
  | inr (e, s', refused) ↦ inr (e, ground (arith, design_gates-same programme hypothesis s))
]

list_trials-append_one :
    (programme : String) (s : State) (t : Trial)
    → t.programme_id ≡ programme
    → length (list_trials programme (record s { trials = s.trials ++ t ∷ [] }))
      ≡ length (list_trials programme s) + 1
unfolding list_trials
list_trials-append_one programme s t owned =
    rw (filter-append (λ x. x.programme_id == programme) s.trials (t ∷ []))
      (rw length-append (ground (arith, eq_iff t.programme_id programme)))

list_trials-same :
    (programme : String) (s s' : State)
    → s.trials ≡ s'.trials
    → length (list_trials programme s) ≡ length (list_trials programme s')
unfolding list_trials
list_trials-same programme s s' e =
    ap (λ ts. length (filter (λ t. t.programme_id == programme) ts)) e

-- What `design_experiment` has done when it answers with a trial id.
pub record Designed (programme hypothesis id now : String) (config : Fields) (s s' : State)
    : Type 0 where
  pub before : Designable programme hypothesis s
  pub trials : s'.trials ≡ s.trials ++ new_trial programme hypothesis config id now ∷ []
  pub one_more : length (list_trials programme s') ≡ length (list_trials programme s) + 1
  pub within_budget : length (list_trials programme s') ≤ before.p.budget_max_trials
  pub after : Hypothesis
  pub after_found : get_hypothesis hypothesis s' ≡ some after
  pub under_test : after.status ≡ HypothesisStatus.under_test

module _ (programme hypothesis id now : String) (config : Json) (s : State) where
  -- The rest of the handler once the gates have passed and the row is written.
  written :
      (d : Fields)
      → Designable programme hypothesis s
      → create_trial (new_trial programme hypothesis d id now) s
        ≡ (ok tt, record s { trials = s.trials ++ new_trial programme hypothesis d id now ∷ [] })
      → design_gates programme hypothesis s ≡ (ok tt, s)
      → coerce_dict config ≡ some d
      → (s' : State) × (design_experiment programme hypothesis config id now s ≡ (ok id, s'))
        × Designed programme hypothesis id now d s s'
  unfolding design_experiment
  written d able created passed decoded =
      let t : Trial = new_trial programme hypothesis d id now in
      let mid : State = record s { trials = s.trials ++ t ∷ [] } in
      let (s', promoted, same, h', found', now_under_test) =
        promote-ok hypothesis mid able.h (unfold get_hypothesis in able.hypothesis_found)
          able.testable in
      let counted : length (list_trials programme s') ≡ length (list_trials programme s) + 1 =
        list_trials-same programme s' mid same ∙ list_trials-append_one programme s t refl in
      (
        s',
        ground arith,
        record {
          before = able;
          trials = same;
          one_more = counted;
          within_budget = rw counted (omega (arith, able.room));
          after = h';
          after_found = found';
          under_test = now_under_test;
        },
      )

  -- `design_experiment` either answers with the id of the one trial that it added, or reports an
  -- error and leaves the store as it was. In the first case the programme was active and the
  -- hypothesis its own and not concluded, the number of its trials grew by one and is within the
  -- budget, and the hypothesis is now under test.
  pub design-outcome :
      ((d : Fields) × (s' : State) × (coerce_dict config ≡ some d)
        × (design_experiment programme hypothesis config id now s ≡ (ok id, s'))
        × Designed programme hypothesis id now d s s')
      ⊎ ((e : Error) × (design_experiment programme hypothesis config id now s ≡ (err e, s)))
  unfolding design_experiment
  design-outcome = elim (Option-cases (coerce_dict config)) [
    | inl undecoded ↦ inr (not_json, ground arith)
    | inr (d, decoded) ↦ elim (gates-cases programme hypothesis s) [
      | inr (e, refused) ↦ inr (e, ground arith)
      | inl passed ↦
          elim (outcome-cases (create_trial (new_trial programme hypothesis d id now) s)) [
            | inr (e, s', clash) ↦ inr (
              e,
              ground (
                arith,
                create_trial-err (new_trial programme hypothesis d id now) s {x = e} {s' = s'}
                    clash,
              ),
            )
            | inl (a, s', created) ↦
                let (after, answered, designed) =
                  written d (design_gates-Designable programme hypothesis s passed)
                    (rw (create_trial-ok (new_trial programme hypothesis d id now) s created) at
                      created)
                    passed decoded in
                inl (d, after, decoded, answered, designed)
          ]
    ]
  ]
