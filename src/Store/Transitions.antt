-- ===== src/Store/Transitions.antt =====
-- `_TRIAL_TRANSITIONS`, `_HYPOTHESIS_TRANSITIONS`, `_PROGRAMME_TRANSITIONS` and
-- `_validate_transition` of ml-scientist/src/ml_episteme_mcp/state/store.py.
use labloop.Prelude.{Bool, List, [], ◌∷◌, Eq, ◌==◌, any}
use labloop.Models.{
  ProgrammeStatus, HypothesisStatus, TrialStatus, programme_status_eq, hypothesis_status_eq,
  trial_status_eq,
}

unfoldable pub trial_transitions : TrialStatus → List TrialStatus
trial_transitions TrialStatus.designed = TrialStatus.running ∷ TrialStatus.abandoned ∷ []
trial_transitions TrialStatus.running =
    TrialStatus.completed ∷ TrialStatus.failed ∷ TrialStatus.retryable ∷ []
trial_transitions _ = []

unfoldable pub hypothesis_transitions : HypothesisStatus → List HypothesisStatus
hypothesis_transitions HypothesisStatus.proposed =
    HypothesisStatus.under_test ∷ HypothesisStatus.abandoned ∷ []
hypothesis_transitions HypothesisStatus.under_test =
    HypothesisStatus.accepted ∷ HypothesisStatus.rejected ∷ HypothesisStatus.inconclusive
    ∷ HypothesisStatus.abandoned ∷ []
hypothesis_transitions _ = []

unfoldable pub programme_transitions : ProgrammeStatus → List ProgrammeStatus
programme_transitions ProgrammeStatus.active =
    ProgrammeStatus.completed ∷ ProgrammeStatus.abandoned ∷ []
programme_transitions ProgrammeStatus.completed = ProgrammeStatus.archived ∷ []
programme_transitions ProgrammeStatus.abandoned = ProgrammeStatus.archived ∷ []
programme_transitions ProgrammeStatus.archived = []

-- `_validate_transition`, true where it does not raise. Every status has an entry in its map, so
-- the branch for an unknown source status is not reached.
unfoldable pub validate_transition : {A : Type 0} ⦃e : Eq A⦄ → (A → List A) → A → A → Bool
validate_transition allowed from to = any (λ legal. legal == to) (allowed from)
