-- ===== src/Tools/Programme.antt =====
-- `conclude_hypothesis`, `close_programme` and `update_metric_direction` of
-- ml-scientist/src/ml_episteme_mcp/tools/programme.py: the part on this server's store. The claim
-- that `conclude_hypothesis` mints on the memory server, and the archiver that `close_programme`
-- calls if one is configured, come after the writes that are modelled here.
pub mod Grounds
pub mod Conclude
pub mod Stranded
pub mod Sweeps
pub mod Gates
pub mod Close
use labloop.Prelude.{
  String, Bool, not, ◌&&◌, ◌||◌, none, List, [], ◌∷◌, any, ◌==◌, string_eq, if◌then◌else◌,
}
use labloop.Exec.{pure, gets, refuse, raise_if, or_raise, ◌>>=◌, ◌>>◌, ok}
use labloop.Models.New.{new_conclusion}
use labloop.Models.{
  ProgrammeStatus, programme_status_eq, Hypothesis, HypothesisStatus, hypothesis_status_eq, Trial,
  TrialStatus, trial_status_eq, Verdict,
}
use labloop.Store.State.{
  programme_not_found, bad_direction, bad_programme_status, hypothesis_under_test, trial_running,
}
use labloop.Store.Rows.{Act, get_programme, list_trials, list_hypotheses, create_conclusion}
use labloop.Store.Trials.{update_trial_status}
use labloop.Store.Hypotheses.{
  update_hypothesis_status, update_programme_direction, update_programme_status,
}
use labloop.Commitments.{
  check_programme_active, check_programme_has_trials, check_hypothesis_in_programme,
  check_duplicate_conclusion, check_evidence_exists, check_all_results_recorded,
  check_no_running_trials, check_belief_recorded,
}

-- `update_metric_direction`
unfoldable pub update_metric_direction : String → String → Act (Unit {0})
update_metric_direction programme direction = do
  raise_if (not ((direction == "minimize") || (direction == "maximize"))) bad_direction
  p ← gets (get_programme programme)
  refuse (check_programme_active p)
  update_programme_direction programme direction

-- The status that a verdict gives its hypothesis.
abbrev pub status_of : Verdict → HypothesisStatus
status_of Verdict.accepted = HypothesisStatus.accepted
status_of Verdict.rejected = HypothesisStatus.rejected
status_of Verdict.inconclusive = HypothesisStatus.inconclusive

-- The gates of `conclude_hypothesis`, in their order.
unfoldable pub conclude_gates : String → String → Act (Unit {0})
conclude_gates programme hypothesis = do
  refuse (← gets (check_hypothesis_in_programme programme hypothesis))
  refuse (check_programme_active (← gets (get_programme programme)))
  refuse (← gets (check_duplicate_conclusion programme hypothesis))
  refuse (← gets (check_evidence_exists programme hypothesis))
  refuse (← gets (check_all_results_recorded programme hypothesis))
  refuse (← gets (check_no_running_trials programme hypothesis))
  refuse (← gets (check_belief_recorded programme))

unfoldable pub conclude_hypothesis :
    String → String → Verdict → String → String → String → Act String
conclude_hypothesis programme hypothesis verdict summary id now = do
  conclude_gates programme hypothesis
  create_conclusion (new_conclusion programme hypothesis verdict summary id now)
  update_hypothesis_status hypothesis (status_of verdict)
  pure id

-- What `auto_marked` and `trials_auto_marked` list: the id and the status before.
abbrev pub Marks : Type 0 → Type 0
Marks S = List (String × S)

abbrev pub sweeps_hypothesis : ProgrammeStatus → HypothesisStatus → Bool
sweeps_hypothesis status h =
    (h == HypothesisStatus.proposed)
    || ((h == HypothesisStatus.under_test) && (status == ProgrammeStatus.abandoned))

-- The two loops of the mutation pass, over the rows that were read before it.
unfoldable pub sweep_hypotheses : ProgrammeStatus → List Hypothesis → Act (Marks HypothesisStatus)
sweep_hypotheses status [] s = (ok [], s)
sweep_hypotheses status (h ∷ hs) s =
    if sweeps_hypothesis status h.status
    then (do
      update_hypothesis_status h.id HypothesisStatus.abandoned
      rest ← sweep_hypotheses status hs
      pure ((h.id, h.status) ∷ rest))
        s
    else sweep_hypotheses status hs s

unfoldable pub sweep_trials : String → List Trial → Act (Marks TrialStatus)
sweep_trials now [] s = (ok [], s)
sweep_trials now (t ∷ ts) s =
    if t.status == TrialStatus.designed
    then (do
      update_trial_status t.id TrialStatus.abandoned none now
      rest ← sweep_trials now ts
      pure ((t.id, t.status) ∷ rest))
        s
    else sweep_trials now ts s

-- `status not in ("completed", "abandoned")`
abbrev closing : ProgrammeStatus → Bool
closing status = (status == ProgrammeStatus.completed) || (status == ProgrammeStatus.abandoned)

abbrev pub is_under_test : Hypothesis → Bool
is_under_test h = h.status == HypothesisStatus.under_test

abbrev pub is_running : Trial → Bool
is_running t = t.status == TrialStatus.running

-- `close_programme`: the gates, all of them before the first write, and then the mutation pass.
unfoldable pub close_gates : String → ProgrammeStatus → Act (Unit {0})
close_gates programme status = do
  p ← gets (get_programme programme)
  or_raise p programme_not_found
  raise_if (not (closing status)) bad_programme_status
  refuse (check_programme_active p)
  trials ← gets (list_trials programme)
  refuse (if status == ProgrammeStatus.completed then check_programme_has_trials trials else none)
  hypotheses ← gets (list_hypotheses programme)
  raise_if ((status == ProgrammeStatus.completed) && any is_under_test hypotheses)
      hypothesis_under_test
  raise_if (any is_running trials) trial_running

unfoldable pub close_programme :
    String → ProgrammeStatus → String → Act (Marks HypothesisStatus × Marks TrialStatus)
close_programme programme status now = do
  trials ← gets (list_trials programme)
  hypotheses ← gets (list_hypotheses programme)
  close_gates programme status
  auto_marked ← sweep_hypotheses status hypotheses
  trials_auto_marked ← sweep_trials now trials
  update_programme_status programme status
  pure (auto_marked, trials_auto_marked)
