-- ===== src/Store/Final.antt =====
-- The hypotheses over any sequence of store calls.
use mathlib.Core.Path.{subst}
use labloop.Prelude.{
  String, ◌≡◌, inl, inr, refl, sym, Bool, true, false, some, List, [], ◌∷◌, arith, ◌==◌, string_eq,
  eq_iff, Option-cases, Bool-cases,
}
use labloop.Table.{fetch, insert}
use labloop.Table.Laws.{fetch-insert_old, fetch-update_ne}
use labloop.Models.{Hypothesis, HypothesisStatus, hypothesis_status_eq, programme_status_eq}
use labloop.Models.New.{new_hypothesis}
use labloop.Store.State.{State, hypothesis_id}
use labloop.Store.Rows.{get_hypothesis, create_hypothesis}
use labloop.Store.Hypotheses.{
  update_hypothesis_status, abandon_hypothesis_row, promote_hypothesis_if_proposed,
}
use labloop.Store.Frames.{hypotheses-after}
use labloop.Store.Calls.{
  Call, add_hypothesis, set_hypothesis_status, abandon, promote, call, after, run,
}

abbrev pub is_terminal : HypothesisStatus → Bool
is_terminal HypothesisStatus.proposed = false
is_terminal HypothesisStatus.under_test = false
is_terminal _ = true

module _ (id : String) (h : Hypothesis) (terminal : is_terminal h.status ≡ true) where
  abbrev At : State → Type 0
  At s = fetch hypothesis_id id s.hypotheses ≡ some h

  -- Each status method leaves the row: it refuses its own id, and writes no other.
  status_write_self :
      (status : HypothesisStatus) (s : State) → At s → (update_hypothesis_status id status s).1 ≡ s
  unfolding update_hypothesis_status get_hypothesis
  status_write_self status s at = ground arith

  status_write-ne :
      (j : String) (status : HypothesisStatus) (s : State)
      → (j == id) ≡ false
      → At s
      → At (update_hypothesis_status j status s).1
  unfolding update_hypothesis_status get_hypothesis
  status_write-ne j status s other at = ground (
    arith,
    fetch-update_ne hypothesis_id (λ h'. record h' { status = status }) (λ x. refl) id j
        s.hypotheses other,
  )

  abandon_self :
      (rationale decided_by now : String) (s : State)
      → At s
      → (abandon_hypothesis_row id rationale decided_by now s).1 ≡ s
  unfolding abandon_hypothesis_row get_hypothesis
  abandon_self rationale decided_by now s at = ground arith

  abandon-ne :
      (j rationale decided_by now : String) (s : State)
      → (j == id) ≡ false
      → At s
      → At (abandon_hypothesis_row j rationale decided_by now s).1
  unfolding abandon_hypothesis_row get_hypothesis
  abandon-ne j rationale decided_by now s other at = ground (
    arith,
    fetch-update_ne hypothesis_id
        (λ h'. record h' {
          status = HypothesisStatus.abandoned;
          abandon_rationale = some rationale;
          abandoned_by = some decided_by;
          abandoned_at = some now;
        })
        (λ x. refl) id j s.hypotheses other,
  )

  promote_self : (s : State) → At s → (promote_hypothesis_if_proposed id s).1 ≡ s
  unfolding promote_hypothesis_if_proposed get_hypothesis
  promote_self s at = ground arith

  promote-ne :
      (j : String) (s : State)
      → (j == id) ≡ false
      → At s
      → At (promote_hypothesis_if_proposed j s).1
  unfolding promote_hypothesis_if_proposed get_hypothesis
  promote-ne j s other at = ground (
    arith,
    fetch-update_ne hypothesis_id (λ h'. record h' { status = HypothesisStatus.under_test })
        (λ x. refl) id j s.hypotheses other,
  )

  insert-At : (x : Hypothesis) (s : State) → At s → At (create_hypothesis x s).1
  unfolding create_hypothesis
  insert-At x s at = elim (Option-cases (insert hypothesis_id x s.hypotheses)) [
    | inl taken ↦ ground arith
    | inr (rows, fresh) ↦ ground (arith, fetch-insert_old hypothesis_id id x s.hypotheses fresh at)
  ]

  -- By the id of the call: the row's own, or another.
  by_id :
      (m : String → State → State) (s : State) (j : String)
      → At s
      → (m id s ≡ s)
      → ((j == id) ≡ false → At (m j s))
      → At (m j s)
  by_id m s j at own other = elim (Bool-cases (j == id)) [
    | inl same ↦ subst (λ k. At (m k s)) (sym ((eq_iff j id).0 same)) (subst At (sym own) at)
    | inr differs ↦ other differs
  ]

  call-At : (c : Call) (s : State) → At s → At (after c s)
  unfolding call
  call-At (add_hypothesis programme statement criterion variables j now) s at =
      insert-At (new_hypothesis programme statement criterion variables j now) s at
  call-At (set_hypothesis_status j status) s at =
      by_id (λ k s'. (update_hypothesis_status k status s').1) s j at
        (status_write_self status s at) (λ other. status_write-ne j status s other at)
  call-At (abandon j rationale decided_by now) s at =
      by_id (λ k s'. (abandon_hypothesis_row k rationale decided_by now s').1) s j at
        (abandon_self rationale decided_by now s at)
        (λ other. abandon-ne j rationale decided_by now s other at)
  call-At (promote j) s at =
      by_id (λ k s'. (promote_hypothesis_if_proposed k s').1) s j at (promote_self s at)
        (λ other. promote-ne j s other at)
  call-At c s at =
      subst (λ rows. fetch hypothesis_id id rows ≡ some h) (sym (hypotheses-after c s refl)) at

-- No sequence of calls changes any column of a hypothesis that is accepted, rejected,
-- inconclusive or abandoned.
pub run-terminal :
    (cs : List Call) (s : State) (id : String) (h : Hypothesis)
    → is_terminal h.status ≡ true
    → get_hypothesis id s ≡ some h
    → get_hypothesis id (run cs s) ≡ some h
unfolding run get_hypothesis
run-terminal [] s id h terminal at = at
run-terminal (c ∷ cs) s id h terminal at =
    run-terminal cs (after c s) id h terminal (call-At id h terminal c s at)
