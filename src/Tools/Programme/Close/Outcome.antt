-- ===== src/Tools/Programme/Close/Outcome.antt =====
-- `close_programme`, ml-scientist/src/ml_episteme_mcp/tools/programme.py: its outcomes.
use mathlib.Core.Option
use mathlib.Core.Path.{subst}
use labloop.Prelude.{
  String, ◌≡◌, ◌≢◌, ◌⊎◌, inl, inr, refl, sym, ◌∙◌, false, some, List, arith, ◌==◌, string_eq,
  eq_iff, Option-cases, filter, map,
}
use labloop.Exec.{ok, err, outcome-cases}
use labloop.Table.{IsKeyed}
use labloop.Table.Laws.{fetch-update}
use labloop.Table.Sweep.{swept, Reads-filter, filter-IsKeyed, fetch-swept_query}
use labloop.Models.{
  Programme, ProgrammeStatus, Hypothesis, HypothesisStatus, Trial, TrialStatus, programme_status_eq,
  hypothesis_status_eq, trial_status_eq,
}
use labloop.Store.State.{State, Error, programme_id, hypothesis_id, trial_id}
use labloop.Store.Rows.{get_programme, get_hypothesis, get_trial, list_trials, list_hypotheses}
use labloop.Store.Hypotheses.{update_programme_status, set_programme}
use labloop.Tools.Programme.{
  close_gates, close_programme, sweep_hypotheses, sweep_trials, Marks, is_under_test, is_running,
}
use labloop.Tools.Programme.Gates.{Closable, gates-Closable}
use labloop.Tools.Programme.Sweeps.{
  abandoned_hypothesis, abandoned_trial, swept_hypothesis, is_designed, close_gates-same,
  sweep_hypotheses-ok, stamp_status-id, sweep_trials-ok,
}
use labloop.Tools.Programme.Close.{
  closed_hypothesis, given_status, closed_trial, Closed, All-query, closed_hypothesis-not_open,
  closed_trial-not_open, some-injective,
}

module _ (programme : String) (status : ProgrammeStatus) (now : String) (s : State) where
  abbrev hypotheses_after : List Hypothesis
  hypotheses_after =
      swept hypothesis_id (swept_hypothesis status) abandoned_hypothesis
        (list_hypotheses programme s) s.hypotheses

  abbrev trials_after : List Trial
  trials_after = swept trial_id is_designed (abandoned_trial now) (list_trials programme s) s.trials

  abbrev pub closed_state : State
  closed_state =
      set_programme programme (given_status status)
        (record s { hypotheses = hypotheses_after; trials = trials_after })

  abbrev pub marks : Marks HypothesisStatus × Marks TrialStatus
  marks = (
    map (λ h. (h.id, h.status)) (filter (swept_hypothesis status) (list_hypotheses programme s)),
    map (λ t. (t.id, t.status)) (filter is_designed (list_trials programme s)),
  )

  module _ (keyed_hypotheses : IsKeyed hypothesis_id s.hypotheses)
      (keyed_trials : IsKeyed trial_id s.trials) where
    hypotheses_swept :
        sweep_hypotheses status (list_hypotheses programme s) s
        ≡ (ok marks.0, record s { hypotheses = hypotheses_after })
    hypotheses_swept =
        sweep_hypotheses-ok status (list_hypotheses programme s) s
          (unfold list_hypotheses in
            filter-IsKeyed hypothesis_id (λ h. h.programme_id == programme) s.hypotheses
              keyed_hypotheses)
          (unfold list_hypotheses in
            Reads-filter hypothesis_id (λ h. h.programme_id == programme) s.hypotheses
              keyed_hypotheses)

    trials_swept :
        sweep_trials now (list_trials programme s) (record s { hypotheses = hypotheses_after })
        ≡ (ok marks.1, record s { hypotheses = hypotheses_after; trials = trials_after })
    trials_swept =
        sweep_trials-ok now (list_trials programme s) (record s { hypotheses = hypotheses_after })
          (unfold list_trials in
            filter-IsKeyed trial_id (λ t. t.programme_id == programme) s.trials keyed_trials)
          (unfold list_trials in
            Reads-filter trial_id (λ t. t.programme_id == programme) s.trials keyed_trials)

    status_written :
        (p : Programme)
        → get_programme programme s ≡ some p
        → p.status ≡ ProgrammeStatus.active
        → (status ≡ ProgrammeStatus.completed) ⊎ (status ≡ ProgrammeStatus.abandoned)
        → update_programme_status programme status
            (record s { hypotheses = hypotheses_after; trials = trials_after })
          ≡ (ok tt, closed_state)
    unfolding update_programme_status get_programme
    status_written p found active (inl completed) = ground arith
    status_written p found active (inr abandoned) = ground arith

    hypotheses_closed :
        (k : String)
        → get_hypothesis k closed_state
          ≡ Option.map (closed_hypothesis programme status) (get_hypothesis k s)
    unfolding get_hypothesis list_hypotheses
    hypotheses_closed k =
        fetch-swept_query hypothesis_id (swept_hypothesis status) abandoned_hypothesis (λ h. refl)
          (λ h. h.programme_id == programme) k s.hypotheses keyed_hypotheses

    trials_closed :
        (k : String)
        → get_trial k closed_state ≡ Option.map (closed_trial programme now) (get_trial k s)
    unfolding get_trial list_trials
    trials_closed k =
        fetch-swept_query trial_id is_designed (abandoned_trial now) (stamp_status-id now)
          (λ t. t.programme_id == programme) k s.trials keyed_trials

    hypothesis_not_open :
        Closable programme status s
        → (k : String) (h : Hypothesis) → get_hypothesis k closed_state ≡ some h
        → h.programme_id ≡ programme
        → (h.status ≢ HypothesisStatus.proposed) × (h.status ≢ HypothesisStatus.under_test)
    hypothesis_not_open able k h found owned = elim (Option-cases (get_hypothesis k s)) [
      | inl missing ↦ absurd (ground (arith, hypotheses_closed k))
      | inr (g, was) ↦
          let e : closed_hypothesis programme status g ≡ h =
            some-injective (sym (hypotheses_closed k ∙ rw was refl) ∙ found) in
          subst
            (λ x.
              x.programme_id ≡ programme
              → (x.status ≢ HypothesisStatus.proposed) × (x.status ≢ HypothesisStatus.under_test))
            e
            (closed_hypothesis-not_open programme status g able.closes (λ completing mine.
              All-query hypothesis_id (λ x. is_under_test x ≡ false)
                (λ x. x.programme_id == programme) k s.hypotheses {x = g} keyed_hypotheses
                (unfold list_hypotheses in able.concluded completing) (unfold get_hypothesis in was)
                ((eq_iff g.programme_id programme).1 mine)))
            owned
    ]

    trial_not_open :
        Closable programme status s
        → (k : String) (t : Trial) → get_trial k closed_state ≡ some t
        → t.programme_id ≡ programme
        → (t.status ≢ TrialStatus.designed) × (t.status ≢ TrialStatus.running)
    trial_not_open able k t found owned = elim (Option-cases (get_trial k s)) [
      | inl missing ↦ absurd (ground (arith, trials_closed k))
      | inr (g, was) ↦
          let e : closed_trial programme now g ≡ t =
            some-injective (sym (trials_closed k ∙ rw was refl) ∙ found) in
          subst
            (λ x.
              x.programme_id ≡ programme
              → (x.status ≢ TrialStatus.designed) × (x.status ≢ TrialStatus.running))
            e
            (closed_trial-not_open programme now g (λ mine.
              All-query trial_id (λ x. is_running x ≡ false) (λ x. x.programme_id == programme) k
                s.trials {x = g} keyed_trials (unfold list_trials in able.settled)
                (unfold get_trial in was) ((eq_iff g.programme_id programme).1 mine)))
            owned
    ]

    closed : Closable programme status s → Closed programme status now s closed_state
    closed able = record {
      before = able;
      hypotheses = hypotheses_closed;
      trials = trials_closed;
      programmes =
          unfold get_programme in
          λ k. fetch-update programme_id programme (given_status status) (λ p. refl) k s.programmes;
      bundles = refl;
      observations = refl;
      beliefs = refl;
      conclusions = refl;
      no_open_hypothesis = hypothesis_not_open able;
      no_open_trial = trial_not_open able;
    }

    -- In a store whose hypotheses and trials have keys of their own, `close_programme` either
    -- reports an error and leaves the store as it was, or answers with the rows that it abandoned
    -- and their statuses before. In that case the programme was active with no trial running, and a
    -- completed one has trials and no hypothesis under test; its open hypotheses and its designed
    -- trials are now abandoned, it carries the new status, and every other hypothesis, trial and
    -- programme reads as before; the bundles, observations, beliefs and conclusions are the same.
    pub close-outcome :
        ((s' : State) × (close_programme programme status now s ≡ (ok marks, s'))
          × Closed programme status now s s')
        ⊎ ((e : Error) × (close_programme programme status now s ≡ (err e, s)))
    unfolding close_programme
    close-outcome = elim (outcome-cases (close_gates programme status s)) [
      | inr (e, s', refused) ↦ inr (e, ground (arith, close_gates-same programme status s))
      | inl (a, s', passed) ↦
          let through : close_gates programme status s ≡ (ok tt, s) =
            (ground (arith, close_gates-same programme status s)) in
          let able : Closable programme status s = gates-Closable programme status s through in
          inl (
            closed_state,
            ground (
              arith,
              hypotheses_swept,
              trials_swept,
              status_written able.p able.found able.active able.closes,
            ),
            closed able,
          )
    ]
