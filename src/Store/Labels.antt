-- ===== src/Store/Labels.antt =====
-- The label 'completed' over any sequence of store calls.
use mathlib.Core.Path.{subst}
use labloop.Prelude.{
  String, ◌≡◌, ◌≢◌, ◌⊎◌, inl, inr, refl, sym, ap, true, Option, none, some, List, [], ◌∷◌, ◌++◌,
  arith, ◌==◌, string_eq, Bool-cases,
}
use labloop.Table.{fetch}
use labloop.Table.Laws.{fetch-insert, fetch-update}
use labloop.Models.{Trial, TrialStatus, trial_status_eq}
use labloop.Record.{record_evidences_completion}
use labloop.Store.State.{State, trial_id}
use labloop.Store.Rows.{get_trial}
use labloop.Store.Calls.{Call, after, run}
use labloop.Store.History.{Change, unchanged, added, edited}
use labloop.Store.Changes.{call-Change}
use labloop.Store.Lives.{Change-fetch, Evidenced}

-- No row, or one that is not labelled 'completed'.
abbrev pub NotCompleted : Option Trial → Type 0
NotCompleted none = Unit
NotCompleted (some t) = t.status ≢ TrialStatus.completed

-- A row that is labelled 'completed', whose record evidences a completed run.
abbrev pub EvidencedRow : String → State → Type 0
EvidencedRow id s =
    (u : Trial) × (get_trial id s ≡ some u)
    × (u.status ≡ TrialStatus.completed)
    × (record_evidences_completion u.executor_output_json ≡ true)

abbrev Labelled : Option Trial → Type 0
Labelled o =
    (u : Trial) × (o ≡ some u)
    × (u.status ≡ TrialStatus.completed)
    × (record_evidences_completion u.executor_output_json ≡ true)

Change-absent :
    (id : String) {ts ts' : List Trial}
    → Change ts ts'
    → fetch trial_id id ts ≡ none
    → NotCompleted (fetch trial_id id ts')
Change-absent id (unchanged e) h =
    subst (λ rows. NotCompleted (fetch trial_id id rows)) (sym e) (rw h tt)
Change-absent id {ts} (added x d st i) h =
    rw (fetch-insert trial_id id x ts i) (rw h (ground arith))
Change-absent id {ts} (edited j f x found e m keeps u) h =
    subst (λ rows. NotCompleted (fetch trial_id id rows)) (sym u)
      (rw (fetch-update trial_id j f keeps id ts) (rw h (ground arith)))

fresh_label :
    (t t' : Trial)
    → t.status ≢ TrialStatus.completed
    → Evidenced t t'
    → NotCompleted (some t') ⊎ Labelled (some t')
fresh_label t t' n e = elim (Bool-cases (t'.status == TrialStatus.completed)) [
  | inl yes_ ↦
      let c : t'.status ≡ TrialStatus.completed = ground arith in
      elim (e c) [ inl before ↦ absurd (n before) | inr evidence ↦ inr (t', refl, c, evidence) ]
  | inr no_ ↦ inl (ground arith)
]

Change-label :
    (id : String) {ts ts' : List Trial} (o : Option Trial)
    → Change ts ts'
    → fetch trial_id id ts ≡ o
    → NotCompleted o
    → NotCompleted (fetch trial_id id ts') ⊎ Labelled (fetch trial_id id ts')
Change-label id none c h n = inl (Change-absent id c h)
Change-label id {ts} {ts'} (some t) c h n =
    let (t', found, _, e) = Change-fetch id t c h in
    subst (λ o. NotCompleted o ⊎ Labelled o) (sym found) (fresh_label t t' n e)

-- If no trial with an id was labelled 'completed' and after a sequence of calls one is, then after
-- some part of the sequence the trial had that label and a record that evidences a completed run.
pub completed-evidenced :
    (cs : List Call) (s : State) (id : String) (t : Trial)
    → NotCompleted (get_trial id s)
    → get_trial id (run cs s) ≡ some t
    → t.status ≡ TrialStatus.completed
    → (before : List Call) × (later : List Call) × (cs ≡ before ++ later)
      × EvidencedRow id (run before s)
unfolding run get_trial
completed-evidenced [] s id t n h c = absurd (subst NotCompleted h n c)
completed-evidenced (call ∷ cs) s id t n h c =
    elim (Change-label id (fetch trial_id id s.trials) (call-Change call s) refl n) [
      | inl still ↦
          let (before, later, e, row) = completed-evidenced cs (after call s) id t still h c in
          (call ∷ before, later, ap (λ rest. call ∷ rest) e, row)
      | inr row ↦ (call ∷ [], cs, refl, row)
    ]
