-- ===== src/Tools/Programme/Conclude.antt =====
-- `conclude_hypothesis`: its writes and its outcomes.
use labloop.Prelude.{
  String, ◌≡◌, ◌≢◌, ◌⊎◌, inl, inr, refl, some, [], ◌∷◌, ◌++◌, arith, ◌==◌, string_eq, Bool-cases,
}
use labloop.Exec.{ok, err, outcome-cases}
use labloop.Table.{insert, update}
use labloop.Table.Laws.{fetch-update_self}
use labloop.Models.{
  Hypothesis, HypothesisStatus, Conclusion, Verdict, programme_status_eq, hypothesis_status_eq,
  trial_status_eq,
}
use labloop.Models.New.{new_conclusion}
use labloop.Store.State.{State, Error, illegal_transition, hypothesis_id}
use labloop.Store.Rows.{get_hypothesis, create_conclusion}
use labloop.Store.Hypotheses.{update_hypothesis_status}
use labloop.Tools.Programme.Grounds.{Concludable, gates-Concludable, gates-cases}
use labloop.Tools.Programme.{conclude_gates, conclude_hypothesis, status_of}

create_conclusion-ok :
    (c : Conclusion) (s : State) {s' : State}
    → create_conclusion c s ≡ (ok tt, s')
    → s' ≡ record s { conclusions = s.conclusions ++ c ∷ [] }
unfolding create_conclusion insert
create_conclusion-ok c s e = ground arith

create_conclusion-err :
    (c : Conclusion) (s : State) {x : Error} {s' : State}
    → create_conclusion c s ≡ (err x, s')
    → s' ≡ s
unfolding create_conclusion
create_conclusion-err c s e = ground arith

-- The store with the conclusion, and then the one with the verdict on the hypothesis too.
abbrev pub with_conclusion : Conclusion → State → State
with_conclusion c s = record s { conclusions = s.conclusions ++ c ∷ [] }

abbrev pub with_verdict : String → Verdict → State → State
with_verdict hypothesis verdict s = record s {
  hypotheses =
      update hypothesis_id hypothesis (λ h. record h { status = status_of verdict }) s.hypotheses;
}

-- The verdict moves a hypothesis under test, and is refused to any other.
verdict-written :
    (hypothesis : String) (verdict : Verdict) (s : State) (h : Hypothesis)
    → get_hypothesis hypothesis s ≡ some h
    → h.status ≡ HypothesisStatus.under_test
    → update_hypothesis_status hypothesis (status_of verdict) s
      ≡ (ok tt, with_verdict hypothesis verdict s)
unfolding update_hypothesis_status
verdict-written hypothesis verdict s h found e = ground arith

pub verdict-refused :
    (hypothesis : String) (verdict : Verdict) (s : State) (h : Hypothesis)
    → get_hypothesis hypothesis s ≡ some h
    → h.status ≢ HypothesisStatus.under_test
    → update_hypothesis_status hypothesis (status_of verdict) s ≡ (err illegal_transition, s)
unfolding update_hypothesis_status
verdict-refused hypothesis verdict s h found e = ground arith

-- What `conclude_hypothesis` has done when it answers.
pub record Concluded (programme hypothesis : String) (verdict : Verdict) (c : Conclusion)
    (s s' : State) : Type 0 where
  pub before : Concludable programme hypothesis s
  pub was_under_test : before.h.status ≡ HypothesisStatus.under_test
  pub written : s' ≡ with_verdict hypothesis verdict (with_conclusion c s)
  pub after : Hypothesis
  pub after_found : get_hypothesis hypothesis s' ≡ some after
  pub carries_verdict : after.status ≡ status_of verdict

module _ (programme hypothesis : String) (verdict : Verdict) (summary id now : String)
    (s : State) where
  abbrev row : Conclusion
  row = new_conclusion programme hypothesis verdict summary id now

  answered :
      Concludable programme hypothesis s
      → conclude_gates programme hypothesis s ≡ (ok tt, s)
      → create_conclusion row s ≡ (ok tt, with_conclusion row s)
      → ((s' : State) × (conclude_hypothesis programme hypothesis verdict summary id now s
            ≡ (ok id, s'))
          × Concluded programme hypothesis verdict row s s')
        ⊎ ((b : Concludable programme hypothesis s) × (b.h.status ≢ HypothesisStatus.under_test)
            × (conclude_hypothesis programme hypothesis verdict summary id now s
                ≡ (err illegal_transition, with_conclusion row s)))
  unfolding conclude_hypothesis
  answered able passed created = elim (Bool-cases (able.h.status == HypothesisStatus.under_test)) [
    | inl under ↦ inl (
      with_verdict hypothesis verdict (with_conclusion row s),
      ground (
        arith,
        verdict-written hypothesis verdict (with_conclusion row s) able.h
            (unfold get_hypothesis in able.hypothesis_found) (ground arith),
      ),
      record {
        before = able;
        was_under_test = ground arith;
        written = refl;
        after = record able.h { status = status_of verdict };
        after_found =
            unfold get_hypothesis in
            fetch-update_self hypothesis_id (λ h. record h { status = status_of verdict })
              (λ x. refl) hypothesis s.hypotheses (unfold get_hypothesis in able.hypothesis_found);
        carries_verdict = refl;
      },
    )
    | inr apart ↦
        let other : able.h.status ≢ HypothesisStatus.under_test = (ground arith) in
        inr (
          able,
          other,
          ground (
            arith,
            verdict-refused hypothesis verdict (with_conclusion row s) able.h
                (unfold get_hypothesis in able.hypothesis_found) other,
          ),
        )
  ]

  -- `conclude_hypothesis` ends in one of three ways. It answers with the id of the conclusion: the
  -- programme was active, the hypothesis its own, under test and not concluded, a completed trial
  -- tests it, all its completed trials are observed, none of its trials runs and a belief is
  -- recorded; the store is then the old one with the conclusion appended and the status of the
  -- verdict on the hypothesis. Or it reports an error and leaves the store as it was. Or the gates
  -- passed for a hypothesis that is not under test: it reports an illegal transition, and the
  -- conclusion stays in the store.
  pub conclude-outcome :
      ((s' : State) × (conclude_hypothesis programme hypothesis verdict summary id now s
          ≡ (ok id, s'))
        × Concluded programme hypothesis verdict row s s')
      ⊎ (((b : Concludable programme hypothesis s) × (b.h.status ≢ HypothesisStatus.under_test)
            × (conclude_hypothesis programme hypothesis verdict summary id now s
                ≡ (err illegal_transition, with_conclusion row s)))
          ⊎ ((e : Error) × (conclude_hypothesis programme hypothesis verdict summary id now s
                ≡ (err e, s))))
  unfolding conclude_hypothesis
  conclude-outcome = elim (gates-cases programme hypothesis s) [
    | inr (e, refused) ↦ inr (inr (e, ground arith))
    | inl passed ↦ elim (outcome-cases (create_conclusion row s)) [
      | inr (e, s', clash) ↦
          inr (inr (e, ground (arith, create_conclusion-err row s {x = e} {s' = s'} clash)))
      | inl (a, s', created) ↦
          elim (answered (gates-Concludable programme hypothesis s passed) passed
            (rw (create_conclusion-ok row s created) at created)) [
              | inl done ↦ inl done
              | inr left ↦ inr (inl left)
            ]
    ]
  ]
