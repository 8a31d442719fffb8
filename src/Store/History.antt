-- ===== src/Store/History.antt =====
-- What one store call may do to the table of trials.
use labloop.Prelude.{
  String, ◌≡◌, ◌≢◌, ◌⊎◌, inl, inr, refl, ◌∙◌, Bool, true, false, ◌||◌, Option, none, some, List,
  arith, ◌==◌, string_eq, Option-cases,
}
use labloop.Record.Evidence.{evidences-put_corrections}
use labloop.Json.{get, Text, Json, Fields, document, obj}
use labloop.Table.{fetch, insert, update}
use labloop.Models.{Trial, TrialStatus, trial_status_eq}
use labloop.Record.{record_evidences_completion}
use labloop.Store.State.{trial_id}
use labloop.Store.Transitions.{trial_transitions, validate_transition}
use labloop.Store.Trials.{
  stamp_status, check_status_update, stamp_correction, check_correction, append_correction,
  corrected_list, correction_base, correction, is_correctable,
}

-- The arrows of a trial's life without corrections
abbrev pub arrow : TrialStatus → TrialStatus → Bool
arrow TrialStatus.designed b = (b == TrialStatus.running) || (b == TrialStatus.abandoned)
arrow TrialStatus.running b = is_correctable b
arrow a b = false

-- A correction of a finished trial, with the entry that it has left in the row's record.
pub record Corrects (t t' : Trial) : Type 0 where
  pub ended : is_correctable t.status ≡ true
  pub target : is_correctable t'.status ≡ true
  pub reason : String
  pub when : String
  pub out : Fields
  pub appended :
      append_correction
        (correction t.status t'.status reason when)
        (correction_base t.executor_output_json)
      ≡ some out
  pub stored : t'.executor_output_json ≡ some (document (obj out))

-- What one edit does to the status.
pub data Moves (t t' : Trial) : Type 0 where
  stays : t'.status ≡ t.status → Moves t t'
  follows : arrow t.status t'.status ≡ true → Moves t t'
  corrects : Corrects t t' → Moves t t'

-- A stamp, once written, stays.
abbrev pub Kept : Option String → Option String → Type 0
Kept none b = Unit
Kept (some a) b = b ≡ some a

-- The stamps that belong to a status.
abbrev pub Stamped : TrialStatus → Option String → Option String → Type 0
Stamped TrialStatus.designed started finished = (started ≡ none) × (finished ≡ none)
Stamped TrialStatus.running started finished = (started ≢ none) × (finished ≡ none)
Stamped TrialStatus.abandoned started finished = (started ≡ none) × (finished ≢ none)
Stamped status started finished = (started ≢ none) × (finished ≢ none)

abbrev pub IsStamped : Trial → Type 0
IsStamped t = Stamped t.status t.started_at t.finished_at

pub record Edits (t t' : Trial) : Type 0 where
  pub id : t'.id ≡ t.id
  pub programme_id : t'.programme_id ≡ t.programme_id
  pub hypothesis_id : t'.hypothesis_id ≡ t.hypothesis_id
  pub config_json : t'.config_json ≡ t.config_json
  pub created_at : t'.created_at ≡ t.created_at
  pub started_at : Kept t.started_at t'.started_at
  pub finished_at : Kept t.finished_at t'.finished_at
  pub stamped : IsStamped t → IsStamped t'
  pub labelled :
      t'.status ≡ TrialStatus.completed
      → (t.status ≡ TrialStatus.completed)
        ⊎ (record_evidences_completion t'.executor_output_json ≡ true)

pub stamp-Edits :
    (status : TrialStatus) (now : String) (reason : Option String) (t : Trial)
    → check_status_update status t ≡ none
    → Edits t (stamp_status status now reason t)
unfolding stamp_status check_status_update
stamp-Edits TrialStatus.retryable now none t h = ground arith
stamp-Edits TrialStatus.retryable now (some r) t h = ground arith
stamp-Edits _ now reason t h = ground arith

append_correction-evidences_object :
    (entry : Json) (base out : Fields)
    → append_correction entry base ≡ some out
    → record_evidences_completion (some (document (obj out)))
      ≡ record_evidences_completion (some (document (obj base)))
unfolding append_correction
append_correction-evidences_object entry base out h =
    elim (Option-cases (corrected_list entry (get "corrections" base))) [
      | inl absent ↦ absurd (ground arith)
      | inr (v, e) ↦ ground (arith, evidences-put_corrections base v)
    ]

pub stamp-Moves :
    (status : TrialStatus) (now : String) (reason : Option String) (t : Trial)
    → check_status_update status t ≡ none
    → Moves t (stamp_status status now reason t)
unfolding stamp_status check_status_update validate_transition trial_transitions
stamp-Moves TrialStatus.retryable now none t h = follows (ground arith)
stamp-Moves TrialStatus.retryable now (some r) t h = follows (ground arith)
stamp-Moves _ now reason t h = follows (ground arith)

-- A record that evidences completion still does with a correction appended to it.
append_correction-evidences :
    (entry : Json) (raw : Option Text) {out : Fields}
    → append_correction entry (correction_base raw) ≡ some out
    → record_evidences_completion raw ≡ true
    → record_evidences_completion (some (document (obj out))) ≡ true
unfolding correction_base record_evidences_completion
append_correction-evidences entry (some (document (obj base))) {out} h e =
    append_correction-evidences_object entry base out h ∙ e
append_correction-evidences entry raw {out} h e = ground arith

pub correction-Edits :
    (status : TrialStatus) (entry : Json) (reason : String) (t : Trial) (out : Fields)
    → check_correction status t ≡ none
    → append_correction entry (correction_base t.executor_output_json) ≡ some out
    → Edits t (stamp_correction status out reason t)
unfolding stamp_correction check_correction
correction-Edits TrialStatus.retryable entry reason t out h a = ground arith
correction-Edits _ entry reason t out h a =
    ground (arith, append_correction-evidences entry t.executor_output_json {out = out} a)

pub correction-Moves :
    (status : TrialStatus) (reason when : String) (t : Trial) (out : Fields)
    → check_correction status t ≡ none
    → append_correction
        (correction t.status status reason when)
        (correction_base t.executor_output_json)
      ≡ some out
    → Moves t (stamp_correction status out reason t)
unfolding stamp_correction check_correction
correction-Moves TrialStatus.retryable reason when t out h a = corrects (record {
  ended = ground arith;
  target = ground arith;
  reason = reason;
  when = when;
  out = out;
  appended = a;
  stored = refl;
})
correction-Moves _ reason when t out h a = corrects (record {
  ended = ground arith;
  target = ground arith;
  reason = reason;
  when = when;
  out = out;
  appended = a;
  stored = refl;
})

-- What one call does to the table of trials.
pub data Change (ts : List Trial) : List Trial → Type 0 where
  unchanged : {ts' : List Trial} → ts' ≡ ts → Change ts ts'
  added :
      {ts' : List Trial} (t : Trial)
      → t.status ≡ TrialStatus.designed
      → IsStamped t
      → insert trial_id t ts ≡ some ts'
      → Change ts ts'
  edited :
      {ts' : List Trial} (id : String) (f : Trial → Trial) (t : Trial)
      → fetch trial_id id ts ≡ some t
      → Edits t (f t)
      → Moves t (f t)
      → ((x : Trial) → (f x).id ≡ x.id)
      → ts' ≡ update trial_id id f ts
      → Change ts ts'
