-- ===== src/Store/Lives.antt =====
-- The life of a trial over any sequence of store calls, of one handler or of many interleaved.
use labloop.Prelude.{
  String, ◌≡◌, ◌⊎◌, inl, inr, refl, sym, ◌∙◌, true, Option, none, some, List, [], ◌∷◌, ◌==◌,
  string_eq, eq_iff, Bool-cases, All, All-append,
}
use mathlib.Core.Path.{subst}
use labloop.Table.{fetch, update, IsKeyed}
use labloop.Table.Laws.{
  insert-eq, insert-IsKeyed, update-IsKeyed, All-update, All-fetch, fetch-insert_old,
  fetch-update_self, fetch-update_ne,
}
use labloop.Models.{Trial, TrialStatus, trial_status_eq}
use labloop.Record.{record_evidences_completion}
use labloop.Store.State.{State, trial_id}
use labloop.Store.Calls.{Call, after, run}
use labloop.Store.History.{Moves, Kept, IsStamped, Edits, Change, unchanged, added, edited}
use labloop.Store.Changes.{call-Change}

-- A row that another becomes, by moves of its status one after the other.
pub data Life : Trial → Trial → Type 0 where
  rests : {t : Trial} → Life t t
  lives : {t u v : Trial} → Moves t u → Life u v → Life t v

-- What an earlier row and a later row of one trial have in common.
pub record Later (t t' : Trial) : Type 0 where
  pub programme_id : t'.programme_id ≡ t.programme_id
  pub hypothesis_id : t'.hypothesis_id ≡ t.hypothesis_id
  pub config_json : t'.config_json ≡ t.config_json
  pub created_at : t'.created_at ≡ t.created_at
  pub life : Life t t'
  pub started_at : Kept t.started_at t'.started_at
  pub finished_at : Kept t.finished_at t'.finished_at

Kept-refl : (a : Option String) → Kept a a
Kept-refl none = tt
Kept-refl (some x) = refl

Later-refl : (t : Trial) → Later t t
Later-refl t = record {
  programme_id = refl;
  hypothesis_id = refl;
  config_json = refl;
  created_at = refl;
  life = rests;
  started_at = Kept-refl t.started_at;
  finished_at = Kept-refl t.finished_at;
}

Edits-Later : {t t' : Trial} → Edits t t' → Moves t t' → Later t t'
Edits-Later e m = record {
  programme_id = e.programme_id;
  hypothesis_id = e.hypothesis_id;
  config_json = e.config_json;
  created_at = e.created_at;
  life = lives m rests;
  started_at = e.started_at;
  finished_at = e.finished_at;
}

-- A row that a change leaves where it was read, or the row that it edits.
abbrev pub Evidenced : Trial → Trial → Type 0
Evidenced t t' =
    t'.status ≡ TrialStatus.completed
    → (t.status ≡ TrialStatus.completed)
      ⊎ (record_evidences_completion t'.executor_output_json ≡ true)

pub Change-fetch :
    (id : String) {ts ts' : List Trial} (t : Trial)
    → Change ts ts'
    → fetch trial_id id ts ≡ some t
    → (t' : Trial) × (fetch trial_id id ts' ≡ some t') × Later t t' × Evidenced t t'
Change-fetch id {ts} t (unchanged e) h =
    (t, subst (λ rows. fetch trial_id id rows ≡ some t) (sym e) h, Later-refl t, λ c. inl c)
Change-fetch id {ts} t (added x d st i) h =
    (t, fetch-insert_old trial_id id x ts i h, Later-refl t, λ c. inl c)
Change-fetch id {ts} t (edited j f x found e m keeps u) h = elim (Bool-cases (j == id)) [
  | inl same ↦
      let j-eq : j ≡ id = (eq_iff j id).0 same in
      let found' : fetch trial_id id ts ≡ some x =
        subst (λ k. fetch trial_id k ts ≡ some x) j-eq found in
      let x-eq : x ≡ t = cc in
      let e' : Edits t (f t) = subst (λ y. Edits y (f y)) x-eq e in
      (
        f t,
        subst (λ rows. fetch trial_id id rows ≡ some (f t)) (sym u)
            (subst (λ k. fetch trial_id id (update trial_id k f ts) ≡ some (f t)) (sym j-eq)
              (fetch-update_self trial_id f keeps id ts h)),
        Edits-Later e' (subst (λ y. Moves y (f y)) x-eq m),
        e'.labelled,
      )
  | inr other ↦ (
    t,
    subst (λ rows. fetch trial_id id rows ≡ some t) (sym u)
        (fetch-update_ne trial_id f keeps id j ts other ∙ h),
    Later-refl t,
    λ c. inl c,
  )
]

-- Every trial has its own id, and the stamps that belong to its status.
pub record TrialsValid (ts : List Trial) : Type 0 where
  pub keyed : IsKeyed trial_id ts
  pub stamped : All IsStamped ts

Change-TrialsValid : {ts ts' : List Trial} → Change ts ts' → TrialsValid ts → TrialsValid ts'
Change-TrialsValid (unchanged e) v = subst TrialsValid (sym e) v
Change-TrialsValid {ts} (added x d st i) v = record {
  keyed = insert-IsKeyed trial_id x ts v.keyed i;
  stamped =
      subst (All IsStamped) (sym (insert-eq trial_id x ts i))
        (All-append IsStamped ts (x ∷ []) v.stamped (st, tt));
}
Change-TrialsValid {ts} (edited j f x found e m keeps u) v = subst TrialsValid (sym u) (record {
  keyed = update-IsKeyed trial_id j f keeps ts v.keyed;
  stamped =
      All-update trial_id IsStamped j f ts v.keyed v.stamped found
        (e.stamped (All-fetch trial_id IsStamped j ts v.stamped found));
})

-- From a valid table, any sequence of calls leads to a valid table: no id is used twice, a
-- designed trial has no times, a running one a start and no end, a completed, failed or retryable
-- one both, and an abandoned one only an end.
pub run-TrialsValid :
    (cs : List Call) (s : State) → TrialsValid s.trials → TrialsValid (run cs s).trials
unfolding run
run-TrialsValid [] s v = v
run-TrialsValid (c ∷ cs) s v =
    run-TrialsValid cs (after c s) (Change-TrialsValid (call-Change c s) v)
