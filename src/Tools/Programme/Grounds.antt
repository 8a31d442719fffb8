-- ===== src/Tools/Programme/Grounds.antt =====
-- The gates of `conclude_hypothesis`, and the state in which they pass.
use labloop.Prelude.{
  any-none, String, ◌≡◌, ◌≢◌, ◌⊎◌, inl, inr, false, none, some, [], arith, ◌==◌, string_eq, eq_iff,
  Option-cases, is_empty, In, All, filter-some, filter-none,
}
use labloop.Exec.{ok, err, outcome-cases}
use labloop.Models.{
  Programme, ProgrammeStatus, Hypothesis, Trial, TrialStatus, programme_status_eq,
  hypothesis_status_eq, trial_status_eq,
}
use labloop.Store.State.{State, Error}
use labloop.Store.Rows.{
  get_programme, get_hypothesis, list_trials, list_observations, list_beliefs, list_conclusions,
}
use labloop.Commitments.{
  check_programme_active, check_hypothesis_in_programme, check_duplicate_conclusion,
  check_evidence_exists, check_all_results_recorded, check_no_running_trials, check_belief_recorded,
  trials_testing, tests,
}
use labloop.Tools.Programme.{conclude_gates}

-- The state in which a verdict goes through the gates of `conclude_hypothesis`.
pub record Concludable (programme hypothesis : String) (s : State) : Type 0 where
  pub p : Programme
  pub h : Hypothesis
  pub programme_found : get_programme programme s ≡ some p
  pub hypothesis_found : get_hypothesis hypothesis s ≡ some h
  pub active : p.status ≡ ProgrammeStatus.active
  pub owned : h.programme_id ≡ programme
  -- no conclusion of the programme is about the hypothesis
  pub first : All (λ c. (c.hypothesis_id == hypothesis) ≡ false) (list_conclusions programme s)
  -- a completed trial of the programme tests it
  pub evidence :
      (t : Trial) × In t (list_trials programme s)
      × (t.hypothesis_id ≡ hypothesis)
      × (t.status ≡ TrialStatus.completed)
  -- every completed trial that tests it has an observation
  pub recorded :
      All
        (λ t. is_empty (list_observations t.id s) ≡ false)
        (trials_testing programme hypothesis TrialStatus.completed s)
  -- no trial that tests it is running
  pub settled : All (λ t. tests hypothesis TrialStatus.running t ≡ false) (list_trials programme s)
  pub believed : list_beliefs programme s ≢ []

conclude_gates-same :
    (programme hypothesis : String) (s : State) → (conclude_gates programme hypothesis s).1 ≡ s
unfolding conclude_gates
conclude_gates-same programme hypothesis s = ground arith

module _ (programme hypothesis : String) (s : State) where
  evidence-of :
      check_evidence_exists programme hypothesis s ≡ none
      → (t : Trial) × In t (list_trials programme s)
        × (t.hypothesis_id ≡ hypothesis)
        × (t.status ≡ TrialStatus.completed)
  unfolding check_evidence_exists trials_testing
  evidence-of e =
      let (t, at, q) =
        filter-some (tests hypothesis TrialStatus.completed) (list_trials programme s)
          (ground arith) in
      (t, at, ground (arith, eq_iff t.hypothesis_id hypothesis), ground arith)

  settled-of :
      check_no_running_trials programme hypothesis s ≡ none
      → All (λ t. tests hypothesis TrialStatus.running t ≡ false) (list_trials programme s)
  unfolding check_no_running_trials trials_testing
  settled-of e =
      filter-none (tests hypothesis TrialStatus.running) (list_trials programme s) (ground arith)

  recorded-of :
      check_all_results_recorded programme hypothesis s ≡ none
      → All
          (λ t. is_empty (list_observations t.id s) ≡ false)
          (trials_testing programme hypothesis TrialStatus.completed s)
  unfolding check_all_results_recorded
  recorded-of e =
      filter-none (λ t. is_empty (list_observations t.id s))
        (trials_testing programme hypothesis TrialStatus.completed s) (ground arith)

  first-of :
      check_duplicate_conclusion programme hypothesis s ≡ none
      → All (λ c. (c.hypothesis_id == hypothesis) ≡ false) (list_conclusions programme s)
  unfolding check_duplicate_conclusion
  first-of e =
      any-none (λ c. c.hypothesis_id == hypothesis) (list_conclusions programme s) (ground arith)

  believed-of : check_belief_recorded programme s ≡ none → list_beliefs programme s ≢ []
  unfolding check_belief_recorded
  believed-of e = ground arith

  pub gates-Concludable :
      conclude_gates programme hypothesis s ≡ (ok tt, s) → Concludable programme hypothesis s
  unfolding conclude_gates
  gates-Concludable e = elim (Option-cases (get_programme programme s)) [
    | inl no_programme ↦ absurd (unfold check_programme_active in ground arith)
    | inr (p, programme_found) ↦ elim (Option-cases (get_hypothesis hypothesis s)) [
      | inl no_hypothesis ↦ absurd (unfold check_hypothesis_in_programme in ground arith)
      | inr (h, hypothesis_found) ↦ record {
        p = p;
        h = h;
        programme_found = programme_found;
        hypothesis_found = hypothesis_found;
        active = unfold check_programme_active in ground arith;
        owned =
            unfold check_hypothesis_in_programme in ground (arith, eq_iff h.programme_id programme);
        first = first-of (ground arith);
        evidence = evidence-of (ground arith);
        recorded = recorded-of (ground arith);
        settled = settled-of (ground arith);
        believed = believed-of (ground arith);
      }
    ]
  ]

  pub gates-cases :
      (conclude_gates programme hypothesis s ≡ (ok tt, s))
      ⊎ ((e : Error) × (conclude_gates programme hypothesis s ≡ (err e, s)))
  gates-cases = elim (outcome-cases (conclude_gates programme hypothesis s)) [
    | inl (a, s', passed) ↦ inl (ground (arith, conclude_gates-same programme hypothesis s))
    | inr (e, s', refused) ↦ inr (e, ground (arith, conclude_gates-same programme hypothesis s))
  ]
