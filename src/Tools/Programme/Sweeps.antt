-- ===== src/Tools/Programme/Sweeps.antt =====
-- The gates of `close_programme` and its two sweeps, over the rows that were read before them.
use labloop.Prelude.{
  String, ◌≡◌, inl, inr, refl, Bool, true, none, some, List, [], ◌∷◌, arith, ◌==◌, string_eq,
  Bool-cases, filter, map,
}
use labloop.Exec.{ok}
use labloop.Table.{fetch, IsKeyed}
use labloop.Table.Sweep.{swept, Reads, Reads-update}
use labloop.Models.{
  ProgrammeStatus, Hypothesis, HypothesisStatus, Trial, TrialStatus, programme_status_eq,
  hypothesis_status_eq, trial_status_eq,
}
use labloop.Store.State.{State, hypothesis_id, trial_id}
use labloop.Store.Rows.{get_hypothesis, get_trial}
use labloop.Store.Hypotheses.{update_hypothesis_status, set_hypothesis}
use labloop.Store.Trials.{update_trial_status, stamp_status, check_status_update, set_trial}
use labloop.Tools.Programme.{close_gates, sweep_hypotheses, sweep_trials, sweeps_hypothesis}

-- The row writes of the two sweeps.
abbrev pub abandoned_hypothesis : Hypothesis → Hypothesis
abandoned_hypothesis h = record h { status = HypothesisStatus.abandoned }

abbrev pub abandoned_trial : String → Trial → Trial
abandoned_trial now = stamp_status TrialStatus.abandoned now none

abbrev pub swept_hypothesis : ProgrammeStatus → Hypothesis → Bool
swept_hypothesis status h = sweeps_hypothesis status h.status

abbrev pub is_designed : Trial → Bool
is_designed t = t.status == TrialStatus.designed

pub close_gates-same :
    (programme : String) (status : ProgrammeStatus) (s : State)
    → (close_gates programme status s).1 ≡ s
unfolding close_gates
close_gates-same programme status s = ground arith

abandon-written :
    (status : ProgrammeStatus) (h : Hypothesis) (s : State)
    → fetch hypothesis_id h.id s.hypotheses ≡ some h
    → swept_hypothesis status h ≡ true
    → update_hypothesis_status h.id HypothesisStatus.abandoned s
      ≡ (ok tt, set_hypothesis h.id abandoned_hypothesis s)
unfolding update_hypothesis_status get_hypothesis
abandon-written status h s found e = ground arith

-- The sweep over the hypotheses that were read goes through.
pub sweep_hypotheses-ok :
    (status : ProgrammeStatus) (hs : List Hypothesis) (s : State)
    → IsKeyed hypothesis_id hs
    → Reads hypothesis_id s.hypotheses hs
    → sweep_hypotheses status hs s ≡ (
      ok (map (λ h. (h.id, h.status)) (filter (swept_hypothesis status) hs)),
      record s {
        hypotheses =
            swept hypothesis_id (swept_hypothesis status) abandoned_hypothesis hs s.hypotheses;
      },
    )
unfolding sweep_hypotheses swept
sweep_hypotheses-ok status [] s keyed reads = refl
sweep_hypotheses-ok status (h ∷ hs) s keyed reads = elim (Bool-cases (swept_hypothesis status h)) [
  | inl chosen ↦ ground (
    arith,
    abandon-written status h s reads.0 chosen,
    sweep_hypotheses-ok status hs (set_hypothesis h.id abandoned_hypothesis s) keyed.1 (
        Reads-update hypothesis_id (swept_hypothesis status) abandoned_hypothesis (λ x. refl) h
          s.hypotheses hs keyed.0 reads.1),
  )
  | inr left ↦ ground (arith, sweep_hypotheses-ok status hs s keyed.1 reads.1)
]

abandon_trial-written :
    (now : String) (t : Trial) (s : State)
    → fetch trial_id t.id s.trials ≡ some t
    → is_designed t ≡ true
    → update_trial_status t.id TrialStatus.abandoned none now s
      ≡ (ok tt, set_trial t.id (abandoned_trial now) s)
unfolding update_trial_status get_trial check_status_update
abandon_trial-written now t s found e = ground arith

pub stamp_status-id : (now : String) (t : Trial) → trial_id (abandoned_trial now t) ≡ trial_id t
unfolding stamp_status
stamp_status-id now t = refl

pub sweep_trials-ok :
    (now : String) (ts : List Trial) (s : State)
    → IsKeyed trial_id ts
    → Reads trial_id s.trials ts
    → sweep_trials now ts s ≡ (
      ok (map (λ t. (t.id, t.status)) (filter is_designed ts)),
      record s { trials = swept trial_id is_designed (abandoned_trial now) ts s.trials },
    )
unfolding sweep_trials swept
sweep_trials-ok now [] s keyed reads = refl
sweep_trials-ok now (t ∷ ts) s keyed reads = elim (Bool-cases (is_designed t)) [
  | inl chosen ↦ ground (
    arith,
    abandon_trial-written now t s reads.0 chosen,
    sweep_trials-ok now ts (set_trial t.id (abandoned_trial now) s) keyed.1 (
        Reads-update trial_id is_designed (abandoned_trial now) (stamp_status-id now) t s.trials ts
          keyed.0 reads.1),
  )
  | inr left ↦ ground (arith, sweep_trials-ok now ts s keyed.1 reads.1)
]
