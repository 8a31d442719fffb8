-- ===== src/Store/Corrections.antt =====
-- `correct_trial_status`: the row that a correction leaves.
use mathlib.Core.Path.{subst}
use labloop.Prelude.{
  String, ◌≡◌, ◌⊎◌, inl, inr, refl, ◌∙◌, true, false, Option, none, some, arith, ◌==◌, string_eq,
  Option-cases,
}
use labloop.Json.{Json, Items, Fields, nil, arr, obj, dumps, get, put, append_item}
use labloop.Json.Laws.{get-put}
use labloop.Exec.{ok, err, outcome-cases}
use labloop.Table.Laws.{fetch-update_self}
use labloop.Models.{Trial, TrialStatus, trial_status_eq}
use labloop.Record.{record_evidences_completion}
use labloop.Store.State.{State, Error, trial_id}
use labloop.Store.Rows.{get_trial}
use labloop.Store.Trials.{
  correct_trial_status, check_correction, is_correctable, correction, correction_base,
  append_correction, corrected_list, stamp_correction, set_trial,
}

-- The list that stands under 'corrections', none of it at first.
abbrev pub listed : Option Json → Items
listed (some (arr entries)) = entries
listed _ = nil

-- The row of a corrected trial.
pub record Corrected (id : String) (status : TrialStatus) (reason now : String) (s s' : State)
    : Type 0 where
  pub before : Trial
  pub before_found : get_trial id s ≡ some before
  pub from_final : is_correctable before.status ≡ true
  pub to_final : is_correctable status ≡ true
  pub evidenced :
      status ≡ TrialStatus.completed
      → record_evidences_completion before.executor_output_json ≡ true
  pub after : Trial
  pub after_found : get_trial id s' ≡ some after
  pub label : after.status ≡ status
  pub out : Fields
  pub stored : after.executor_output_json ≡ some (dumps (obj out))
  pub appended :
      get "corrections" out
      ≡ some (
          arr (
            append_item
              (listed (get "corrections" (correction_base before.executor_output_json)))
              (correction before.status status reason now)))
  pub kept :
      (k : String)
      → ("corrections" == k) ≡ false
      → get k out ≡ get k (correction_base before.executor_output_json)

correct-same :
    (id : String) (status : TrialStatus) (reason now : String) (s : State) {e : Error} {s' : State}
    → correct_trial_status id status reason now s ≡ (err e, s')
    → s' ≡ s
unfolding correct_trial_status
correct-same id status reason now s h = ground arith

stamped-status :
    (status : TrialStatus) (out : Fields) (reason : String) (t : Trial)
    → (stamp_correction status out reason t).status ≡ status
unfolding stamp_correction
stamped-status status out reason t = ground arith

stamped-output :
    (status : TrialStatus) (out : Fields) (reason : String) (t : Trial)
    → (stamp_correction status out reason t).executor_output_json ≡ some (dumps (obj out))
unfolding stamp_correction
stamped-output status out reason t = ground arith

stamped-id :
    (status : TrialStatus) (out : Fields) (reason : String) (t : Trial)
    → trial_id (stamp_correction status out reason t) ≡ trial_id t
unfolding stamp_correction
stamped-id status out reason t = ground arith

appended-eq :
    (entry : Json) (base out : Fields)
    → append_correction entry base ≡ some out
    → out ≡ put "corrections" (arr (append_item (listed (get "corrections" base)) entry)) base
unfolding append_correction corrected_list append_item
appended-eq entry base out h = ground arith

module _ (id : String) (status : TrialStatus) (reason now : String) (s : State) where
  accepted :
      (t : Trial) (out : Fields)
      → get_trial id s ≡ some t
      → check_correction status t ≡ none
      → append_correction
          (correction t.status status reason now)
          (correction_base t.executor_output_json)
        ≡ some out
      → Corrected id status reason now s (set_trial id (stamp_correction status out reason) s)
  accepted t out found passed extended = record {
    before = t;
    before_found = found;
    from_final = unfold check_correction in ground arith;
    to_final = unfold check_correction in ground arith;
    evidenced = λ completing. unfold check_correction in ground arith;
    after = stamp_correction status out reason t;
    after_found =
        unfold get_trial in
        fetch-update_self trial_id (stamp_correction status out reason)
          (stamped-id status out reason) id s.trials (unfold get_trial in found);
    label = stamped-status status out reason t;
    out = out;
    stored = stamped-output status out reason t;
    appended =
        rw
          (appended-eq (correction t.status status reason now)
            (correction_base t.executor_output_json) out extended)
          (get-put "corrections" "corrections"
            (arr (
              append_item (listed (get "corrections" (correction_base t.executor_output_json)))
                (correction t.status status reason now)))
            (correction_base t.executor_output_json));
    kept = λ k other.
        rw
          (appended-eq (correction t.status status reason now)
            (correction_base t.executor_output_json) out extended)
          (get-put "corrections" k
              (arr (
                append_item (listed (get "corrections" (correction_base t.executor_output_json)))
                  (correction t.status status reason now)))
              (correction_base t.executor_output_json)
            ∙ rw other refl);
  }

  pub correct-Corrected :
      {s' : State}
      → correct_trial_status id status reason now s ≡ (ok tt, s')
      → Corrected id status reason now s s'
  unfolding correct_trial_status
  correct-Corrected {s'} done = elim (Option-cases (get_trial id s)) [
    | inl missing ↦ absurd (ground arith)
    | inr (t, found) ↦ elim (Option-cases (check_correction status t)) [
      | inr (e, refused) ↦ absurd (ground arith)
      | inl passed ↦
          elim (Option-cases (
            append_correction (correction t.status status reason now)
              (correction_base t.executor_output_json))) [
                | inl no_list ↦ absurd (ground arith)
                | inr (out, extended) ↦
                    let e : set_trial id (stamp_correction status out reason) s ≡ s' =
                      ground arith in
                    subst (Corrected id status reason now s) e
                      (accepted t out found passed extended)
              ]
    ]
  ]

  -- `correct_trial_status` either reports an error and leaves the store as it was, or moves a
  -- finished trial to a final status: to completed only where the record evidences a completion.
  -- The record in the row then agrees at every other key with the object that was there (a text
  -- that reads as no object stands under 'unparsed_output'), and its list under 'corrections' is
  -- longer by the entry of this correction.
  pub correct-outcome :
      ((s' : State) × (correct_trial_status id status reason now s ≡ (ok tt, s'))
        × Corrected id status reason now s s')
      ⊎ ((e : Error) × (correct_trial_status id status reason now s ≡ (err e, s)))
  correct-outcome = elim (outcome-cases (correct_trial_status id status reason now s)) [
    | inr (e, s', refused) ↦
        inr (e, ground (arith, correct-same id status reason now s {e = e} {s' = s'} refused))
    | inl (a, s', done) ↦ inl (s', done, correct-Corrected done)
  ]
