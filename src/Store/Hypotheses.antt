-- ===== src/Store/Hypotheses.antt =====
-- The status writes of hypotheses and programmes. ml-scientist/src/ml_episteme_mcp/state/store.py.
use labloop.Prelude.{not, String, none, some, ◌==◌, if◌then◌else◌}
use labloop.Exec.{ok, err}
use labloop.Table.{update}
use labloop.Models.{
  Hypothesis, HypothesisStatus, hypothesis_status_eq, Programme, ProgrammeStatus,
  programme_status_eq,
}
use labloop.Store.State.{
  State, hypothesis_not_found, programme_not_found, illegal_transition, hypothesis_id, programme_id,
}
use labloop.Store.Transitions.{hypothesis_transitions, programme_transitions, validate_transition}
use labloop.Store.Rows.{Act, get_hypothesis, get_programme}

abbrev pub set_hypothesis : String → (Hypothesis → Hypothesis) → State → State
set_hypothesis id f s = record s { hypotheses = update hypothesis_id id f s.hypotheses }

abbrev pub set_programme : String → (Programme → Programme) → State → State
set_programme id f s = record s { programmes = update programme_id id f s.programmes }

-- The re-read, the transition check and the write that the status methods share.
abbrev move_hypothesis : String → HypothesisStatus → (Hypothesis → Hypothesis) → Act (Unit {0})
move_hypothesis id status f s = elim (get_hypothesis id s) [
  | none ↦ (err hypothesis_not_found, s)
  | some h ↦
      if validate_transition hypothesis_transitions h.status status
      then (ok tt, set_hypothesis id f s)
      else (err illegal_transition, s)
]

unfoldable pub update_hypothesis_status : String → HypothesisStatus → Act (Unit {0})
unfolding hypothesis_transitions validate_transition
update_hypothesis_status id status = move_hypothesis id status (λ h. record h { status = status })

-- `StateStore.abandon_hypothesis`
unfoldable pub abandon_hypothesis_row : String → String → String → String → Act (Unit {0})
unfolding hypothesis_transitions validate_transition
abandon_hypothesis_row id rationale decided_by now =
    move_hypothesis id HypothesisStatus.abandoned (λ h. record h {
      status = HypothesisStatus.abandoned;
      abandon_rationale = some rationale;
      abandoned_by = some decided_by;
      abandoned_at = some now;
    })

unfoldable pub promote_hypothesis_if_proposed : String → Act (Unit {0})
unfolding hypothesis_transitions validate_transition
promote_hypothesis_if_proposed id s = elim (get_hypothesis id s) [
  | none ↦ (err hypothesis_not_found, s)
  | some h ↦
      if h.status == HypothesisStatus.under_test
      then (ok tt, s)
      else if not (h.status == HypothesisStatus.proposed)
      then (err illegal_transition, s)
      else if validate_transition hypothesis_transitions h.status HypothesisStatus.under_test
      then (ok tt, set_hypothesis id (λ h'. record h' { status = HypothesisStatus.under_test }) s)
      else (err illegal_transition, s)
]

unfoldable pub update_programme_direction : String → String → Act (Unit {0})
update_programme_direction id direction s =
    (ok tt, set_programme id (λ p. record p { metric_direction = direction }) s)

unfoldable pub update_programme_status : String → ProgrammeStatus → Act (Unit {0})
unfolding programme_transitions validate_transition
update_programme_status id status s = elim (get_programme id s) [
  | none ↦ (err programme_not_found, s)
  | some p ↦
      if validate_transition programme_transitions p.status status
      then (ok tt, set_programme id (λ p'. record p' { status = status }) s)
      else (err illegal_transition, s)
]
