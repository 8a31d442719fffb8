-- ===== src/Tools/Programme/Close.antt =====
-- `close_programme`: its writes and its outcomes.
pub mod Outcome
use mathlib.Core.Option
use mathlib.Core.Path.{subst}
use labloop.Prelude.{
  String, ◌≡◌, ◌≢◌, ◌⊎◌, inl, inr, refl, sym, ◌∙◌, Bool, true, false, ◌&&◌, none, some, List, arith,
  ◌==◌, string_eq, eq_iff, if◌then◌else◌, Option-cases, filter, All, map,
}
use labloop.Exec.{ok, err, outcome-cases}
use labloop.Table.{fetch, IsKeyed}
use labloop.Table.Laws.{fetch-update, All-fetch}
use labloop.Table.Sweep.{swept, Reads-filter, filter-IsKeyed, fetch-filter, fetch-swept_query}
use labloop.Models.{
  Programme, ProgrammeStatus, Hypothesis, HypothesisStatus, Trial, TrialStatus, programme_status_eq,
  hypothesis_status_eq, trial_status_eq,
}
use labloop.Store.State.{State, Error, programme_id, hypothesis_id, trial_id}
use labloop.Store.Rows.{get_programme, get_hypothesis, get_trial, list_trials, list_hypotheses}
use labloop.Store.Hypotheses.{update_programme_status, set_programme}
use labloop.Store.Trials.{stamp_status}
use labloop.Tools.Programme.{
  close_gates, close_programme, sweep_hypotheses, sweep_trials, sweeps_hypothesis, Marks,
  is_under_test, is_running,
}
use labloop.Tools.Programme.Gates.{Closable, gates-Closable}
use labloop.Tools.Programme.Sweeps.{
  abandoned_hypothesis, abandoned_trial, swept_hypothesis, is_designed, close_gates-same,
  sweep_hypotheses-ok, stamp_status-id, sweep_trials-ok,
}

-- What the close makes of a row.
abbrev pub closed_hypothesis : String → ProgrammeStatus → Hypothesis → Hypothesis
closed_hypothesis programme status h =
    if (h.programme_id == programme) && sweeps_hypothesis status h.status
    then record h { status = HypothesisStatus.abandoned }
    else h

abbrev pub given_status : ProgrammeStatus → Programme → Programme
given_status status p = record p { status = status }

abbrev pub closed_trial : String → String → Trial → Trial
closed_trial programme now t =
    if (t.programme_id == programme) && (t.status == TrialStatus.designed)
    then stamp_status TrialStatus.abandoned now none t
    else t

-- What `close_programme` has done when it answers: every row as it was, but for the open
-- hypotheses and trials of the programme, which are abandoned, and the programme's status.
pub record Closed (programme : String) (status : ProgrammeStatus) (now : String) (s s' : State)
    : Type 0 where
  pub before : Closable programme status s
  pub hypotheses :
      (k : String)
      → get_hypothesis k s' ≡ Option.map (closed_hypothesis programme status) (get_hypothesis k s)
  pub trials :
      (k : String) → get_trial k s' ≡ Option.map (closed_trial programme now) (get_trial k s)
  pub programmes :
      (k : String)
      → get_programme k s' ≡ (
          if programme == k
          then Option.map (given_status status) (get_programme k s)
          else get_programme k s)
  pub bundles : s'.bundles ≡ s.bundles
  pub observations : s'.observations ≡ s.observations
  pub beliefs : s'.beliefs ≡ s.beliefs
  pub conclusions : s'.conclusions ≡ s.conclusions
  -- no hypothesis and no trial of the programme is left open
  pub no_open_hypothesis :
      (k : String) (h : Hypothesis)
      → get_hypothesis k s' ≡ some h
      → h.programme_id ≡ programme
      → (h.status ≢ HypothesisStatus.proposed) × (h.status ≢ HypothesisStatus.under_test)
  pub no_open_trial :
      (k : String) (t : Trial)
      → get_trial k s' ≡ some t
      → t.programme_id ≡ programme
      → (t.status ≢ TrialStatus.designed) × (t.status ≢ TrialStatus.running)

-- A property of the rows of a query holds of the row that a key reads, if the query keeps it.
All-query :
    {A : Type 0} (key : A → String) (P : A → Type 0) (q : A → Bool) (k : String) (xs : List A)
    {x : A}
    → IsKeyed key xs
    → All P (filter q xs)
    → fetch key k xs ≡ some x
    → q x ≡ true
    → P x
All-query key P q k xs {x} keyed h found kept =
    All-fetch key P k (filter q xs) h (fetch-filter key q k xs keyed ∙ rw found (rw kept refl))

closed_hypothesis-not_open :
    (programme : String) (status : ProgrammeStatus) (g : Hypothesis)
    → (status ≡ ProgrammeStatus.completed) ⊎ (status ≡ ProgrammeStatus.abandoned)
    → (status ≡ ProgrammeStatus.completed → g.programme_id ≡ programme → is_under_test g ≡ false)
    → (closed_hypothesis programme status g).programme_id ≡ programme
    → ((closed_hypothesis programme status g).status ≢ HypothesisStatus.proposed)
      × ((closed_hypothesis programme status g).status ≢ HypothesisStatus.under_test)
closed_hypothesis-not_open programme status g closes concluded owned =
    ground (arith, eq_iff g.programme_id programme)

closed_trial-not_open :
    (programme now : String) (g : Trial)
    → (g.programme_id ≡ programme → is_running g ≡ false)
    → (closed_trial programme now g).programme_id ≡ programme
    → ((closed_trial programme now g).status ≢ TrialStatus.designed)
      × ((closed_trial programme now g).status ≢ TrialStatus.running)
unfolding stamp_status
closed_trial-not_open programme now g settled owned =
    ground (arith, eq_iff g.programme_id programme)

some-injective : {A : Type 0} {x y : A} → some x ≡ some y → x ≡ y
some-injective e = ground arith
