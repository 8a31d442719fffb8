-- ===== src/Tools/Hypothesis/Abandon.antt =====
-- `abandon_hypothesis`: its outcomes.
use labloop.Prelude.{
  String, ◌≡◌, ◌⊎◌, inl, inr, refl, sym, false, none, some, arith, string_eq, eq_iff, Option-cases,
}
use mathlib.Core.Path.{subst}
use labloop.Strings.{is_blank, strip}
use labloop.Exec.{ok, err, outcome-cases}
use labloop.Table.Laws.{fetch-update_self}
use labloop.Models.{
  Programme, ProgrammeStatus, Hypothesis, HypothesisStatus, programme_status_eq,
  hypothesis_status_eq,
}
use labloop.Store.State.{State, Error, hypothesis_id}
use labloop.Store.Rows.{get_programme, get_hypothesis}
use labloop.Store.Hypotheses.{abandon_hypothesis_row, set_hypothesis}
use labloop.Commitments.{check_hypothesis_in_programme, check_programme_active}
use labloop.Commitments.Active.{active-programme}
use labloop.Tools.Hypothesis.{abandon_hypothesis}

abbrev pub withdrawn : String → String → String → Hypothesis → Hypothesis
withdrawn rationale decided_by now h = record h {
  status = HypothesisStatus.abandoned;
  abandon_rationale = some (strip rationale);
  abandoned_by = some (strip decided_by);
  abandoned_at = some now;
}

-- What `abandon_hypothesis` has done when it answers with the status before.
pub record Withdrawn (programme hypothesis rationale decided_by now : String)
    (status : HypothesisStatus) (s s' : State) : Type 0 where
  pub reasoned : is_blank rationale ≡ false
  pub attributed : is_blank decided_by ≡ false
  pub p : Programme
  pub programme_found : get_programme programme s ≡ some p
  pub active : p.status ≡ ProgrammeStatus.active
  pub h : Hypothesis
  pub hypothesis_found : get_hypothesis hypothesis s ≡ some h
  pub owned : h.programme_id ≡ programme
  pub before : status ≡ h.status
  pub open_before :
      (h.status ≡ HypothesisStatus.proposed) ⊎ (h.status ≡ HypothesisStatus.under_test)
  pub written : s' ≡ set_hypothesis hypothesis (withdrawn rationale decided_by now) s
  pub row : get_hypothesis hypothesis s' ≡ some (withdrawn rationale decided_by now h)

module _ (programme hypothesis rationale decided_by now : String) (s : State) where
  abandon-same :
      {e : Error} {s' : State}
      → abandon_hypothesis programme hypothesis rationale decided_by now s ≡ (err e, s')
      → s' ≡ s
  unfolding abandon_hypothesis abandon_hypothesis_row
  abandon-same h = ground arith

  withdrawn_row :
      (h : Hypothesis)
      → get_hypothesis hypothesis s ≡ some h
      → get_hypothesis hypothesis (set_hypothesis hypothesis (withdrawn rationale decided_by now) s)
        ≡ some (withdrawn rationale decided_by now h)
  unfolding get_hypothesis
  withdrawn_row h found =
      fetch-update_self hypothesis_id (withdrawn rationale decided_by now) (λ x. refl) hypothesis
        s.hypotheses found

  module _ {status : HypothesisStatus} {s' : State}
      (done : abandon_hypothesis programme hypothesis rationale decided_by now s
        ≡ (ok status, s')) where
    done_reasoned : is_blank rationale ≡ false
    unfolding abandon_hypothesis
    done_reasoned = ground arith

    done_attributed : is_blank decided_by ≡ false
    unfolding abandon_hypothesis
    done_attributed = ground arith

    done_active : check_programme_active (get_programme programme s) ≡ none
    unfolding abandon_hypothesis
    done_active = ground arith

    done_hypothesis : (h : Hypothesis) × (get_hypothesis hypothesis s ≡ some h)
    unfolding abandon_hypothesis
    done_hypothesis = elim (Option-cases (get_hypothesis hypothesis s)) [
      | inl missing ↦ absurd (ground arith)
      | inr (h, found) ↦ (h, found)
    ]

    done_in_programme : check_hypothesis_in_programme programme hypothesis s ≡ none
    unfolding abandon_hypothesis
    done_in_programme = ground arith

    done_owned :
        (h : Hypothesis) → get_hypothesis hypothesis s ≡ some h → h.programme_id ≡ programme
    unfolding check_hypothesis_in_programme
    done_owned h found = ground (arith, done_in_programme, eq_iff h.programme_id programme)

    done_before : (h : Hypothesis) → get_hypothesis hypothesis s ≡ some h → status ≡ h.status
    unfolding abandon_hypothesis
    done_before h found = ground arith

    done_open :
        (h : Hypothesis)
        → get_hypothesis hypothesis s ≡ some h
        → (h.status ≡ HypothesisStatus.proposed) ⊎ (h.status ≡ HypothesisStatus.under_test)
    unfolding abandon_hypothesis abandon_hypothesis_row
    done_open h found = ground arith

    done_written : s' ≡ set_hypothesis hypothesis (withdrawn rationale decided_by now) s
    unfolding abandon_hypothesis abandon_hypothesis_row
    done_written = ground arith

    done_Withdrawn : Withdrawn programme hypothesis rationale decided_by now status s s'
    done_Withdrawn =
        let (p, programme_found, active) =
          active-programme (get_programme programme s) done_active in
        let (h, found) = done_hypothesis in
        record {
          reasoned = done_reasoned;
          attributed = done_attributed;
          p = p;
          programme_found = programme_found;
          active = active;
          h = h;
          hypothesis_found = found;
          owned = done_owned h found;
          before = done_before h found;
          open_before = done_open h found;
          written = done_written;
          row =
              subst (λ z. get_hypothesis hypothesis z ≡ some (withdrawn rationale decided_by now h))
                (sym done_written) (withdrawn_row h found);
        }

  -- `abandon_hypothesis` either reports an error and leaves the store as it was, or withdraws a
  -- proposed or tested hypothesis of the active programme, for a rationale and by a decider that
  -- are not blank; the row then is abandoned, with both stripped of white space and the time, and
  -- the answer is the status before.
  pub abandon_hypothesis-outcome :
      ((status : HypothesisStatus) × (s' : State) × (abandon_hypothesis programme hypothesis
            rationale decided_by now s
          ≡ (ok status, s'))
        × Withdrawn programme hypothesis rationale decided_by now status s s')
      ⊎ ((e : Error) × (abandon_hypothesis programme hypothesis rationale decided_by now s
            ≡ (err e, s)))
  abandon_hypothesis-outcome =
      elim (outcome-cases (abandon_hypothesis programme hypothesis rationale decided_by now s)) [
        | inr (e, s', refused) ↦ inr (e, ground (arith, abandon-same {e = e} {s' = s'} refused))
        | inl (status, s', done) ↦ inl (status, s', done, done_Withdrawn done)
      ]
