-- ===== src/Store/Changes.antt =====
-- Each store call against the changes of the table of trials.
use labloop.Prelude.{
  String, ◌≡◌, inl, inr, refl, Option, none, some, arith, Option-cases, Bool-cases, is_some, ◌&&◌,
}
use labloop.Json.{Fields}
use labloop.Table.{fetch, insert, update}
use labloop.Table.Laws.{update_absent}
use labloop.Models.{
  Programme, ProgrammeStatus, Hypothesis, HypothesisStatus, Bundle, Observation, Belief, Conclusion,
  Trial, TrialStatus,
}
use labloop.Models.New.{new_trial, new_hypothesis}
use labloop.Store.State.{State, trial_id}
use labloop.Store.Rows.{
  get_trial, get_programme, get_hypothesis, create_programme, create_hypothesis, create_trial,
  create_bundle, create_observation, create_belief, create_conclusion,
}
use labloop.Store.Trials.{
  update_trial_status, correct_trial_status, stamp_status, check_status_update, stamp_correction,
  check_correction, append_correction, correction_base, correction, link_bundle,
  update_trial_duration, update_trial_artifact_path, update_trial_executor_output,
}
use labloop.Store.Hypotheses.{
  update_hypothesis_status, abandon_hypothesis_row, promote_hypothesis_if_proposed,
  update_programme_direction, update_programme_status,
}
use labloop.Store.Calls.{
  Call, add_programme, add_hypothesis, add_trial, add_bundle, add_observation, add_belief,
  add_conclusion, set_trial_status, correct_trial, set_bundle, set_duration, set_artifact_path,
  set_output, set_hypothesis_status, abandon, promote, set_direction, set_programme_status, call,
  after,
}
use labloop.Store.History.{
  Edits, Change, stays, unchanged, added, edited, stamp-Edits, stamp-Moves, correction-Edits,
  correction-Moves,
}

-- The methods that leave the table alone.

trials-create_programme : (p : Programme) (s : State) → (create_programme p s).1.trials ≡ s.trials
unfolding create_programme
trials-create_programme p s = ground arith

trials-create_hypothesis :
    (h : Hypothesis) (s : State) → (create_hypothesis h s).1.trials ≡ s.trials
unfolding create_hypothesis
trials-create_hypothesis h s = ground arith

trials-create_bundle : (b : Bundle) (s : State) → (create_bundle b s).1.trials ≡ s.trials
unfolding create_bundle
trials-create_bundle b s = ground arith

trials-create_observation :
    (o : Observation) (s : State) → (create_observation o s).1.trials ≡ s.trials
unfolding create_observation
trials-create_observation o s = ground arith

trials-create_belief : (b : Belief) (s : State) → (create_belief b s).1.trials ≡ s.trials
unfolding create_belief
trials-create_belief b s = ground arith

trials-create_conclusion :
    (c : Conclusion) (s : State) → (create_conclusion c s).1.trials ≡ s.trials
unfolding create_conclusion
trials-create_conclusion c s = ground arith

trials-update_hypothesis_status :
    (id : String) (status : HypothesisStatus) (s : State)
    → (update_hypothesis_status id status s).1.trials ≡ s.trials
unfolding update_hypothesis_status
trials-update_hypothesis_status id status s = ground arith

trials-abandon_hypothesis_row :
    (id rationale decided_by now : String) (s : State)
    → (abandon_hypothesis_row id rationale decided_by now s).1.trials ≡ s.trials
unfolding abandon_hypothesis_row
trials-abandon_hypothesis_row id rationale decided_by now s = ground arith

trials-promote_hypothesis_if_proposed :
    (id : String) (s : State) → (promote_hypothesis_if_proposed id s).1.trials ≡ s.trials
unfolding promote_hypothesis_if_proposed
trials-promote_hypothesis_if_proposed id s = ground arith

trials-update_programme_direction :
    (id direction : String) (s : State)
    → (update_programme_direction id direction s).1.trials ≡ s.trials
unfolding update_programme_direction
trials-update_programme_direction id direction s = ground arith

trials-update_programme_status :
    (id : String) (status : ProgrammeStatus) (s : State)
    → (update_programme_status id status s).1.trials ≡ s.trials
unfolding update_programme_status
trials-update_programme_status id status s = ground arith

-- A plain update of columns that no rule speaks of.
plain_update-Change :
    (id : String) (f : Trial → Trial) (s : State)
    → ((t : Trial) → Edits t (f t))
    → ((t : Trial) → (f t).status ≡ t.status)
    → Change s.trials (update trial_id id f s.trials)
plain_update-Change id f s e same = elim (Option-cases (fetch trial_id id s.trials)) [
  | inl missing ↦ unchanged (update_absent trial_id id f s.trials missing)
  | inr (t, found) ↦ edited id f t found (e t) (stays (same t)) (λ x. (e x).id) refl
]

stamp_status-id :
    (status : TrialStatus) (now : String) (reason : Option String) (x : Trial)
    → (stamp_status status now reason x).id ≡ x.id
unfolding stamp_status
stamp_status-id TrialStatus.retryable now none x = refl
stamp_status-id TrialStatus.retryable now (some r) x = refl
stamp_status-id _ now reason x = refl

stamp_correction-id :
    (status : TrialStatus) (out : Fields) (reason : String) (x : Trial)
    → (stamp_correction status out reason x).id ≡ x.id
unfolding stamp_correction
stamp_correction-id TrialStatus.retryable out reason x = refl
stamp_correction-id _ out reason x = refl

update_trial_status-Change :
    (id : String) (status : TrialStatus) (reason : Option String) (now : String) (s : State)
    → Change s.trials (update_trial_status id status reason now s).1.trials
unfolding update_trial_status get_trial
update_trial_status-Change id status reason now s =
    elim (Option-cases (fetch trial_id id s.trials)) [
      | inl missing ↦ unchanged (ground arith)
      | inr (t, found) ↦ elim (Option-cases (check_status_update status t)) [
        | inl passed ↦
            edited id (stamp_status status now reason) t found
              (stamp-Edits status now reason t passed) (stamp-Moves status now reason t passed)
              (stamp_status-id status now reason) (ground arith)
        | inr (e, refused) ↦ unchanged (ground arith)
      ]
    ]

correct_trial_status-Change :
    (id : String) (status : TrialStatus) (reason now : String) (s : State)
    → Change s.trials (correct_trial_status id status reason now s).1.trials
unfolding correct_trial_status get_trial
correct_trial_status-Change id status reason now s =
    elim (Option-cases (fetch trial_id id s.trials)) [
      | inl missing ↦ unchanged (ground arith)
      | inr (t, found) ↦ elim (Option-cases (check_correction status t)) [
        | inr (e, refused) ↦ unchanged (ground arith)
        | inl passed ↦
            elim (Option-cases (
              append_correction (correction t.status status reason now)
                (correction_base t.executor_output_json))) [
                  | inl no_list ↦ unchanged (ground arith)
                  | inr (out, appended) ↦
                      edited id (stamp_correction status out reason) t found
                        (correction-Edits status (correction t.status status reason now) reason t
                          out passed appended)
                        (correction-Moves status reason now t out passed appended)
                        (stamp_correction-id status out reason) (ground arith)
                ]
      ]
    ]

add_trial-Change :
    (programme hypothesis : String) (config : Fields) (id now : String) (s : State)
    → Change s.trials (create_trial (new_trial programme hypothesis config id now) s).1.trials
unfolding create_trial
add_trial-Change programme hypothesis config id now s =
    elim (Option-cases (insert trial_id (new_trial programme hypothesis config id now) s.trials)) [
      | inl taken ↦ unchanged (ground arith)
      | inr (rows, fresh) ↦
          elim (Bool-cases
            (is_some (get_programme programme s) && is_some (get_hypothesis hypothesis s))) [
              | inl known ↦
                  added (new_trial programme hypothesis config id now) refl (refl, refl)
                    (ground arith)
              | inr unknown ↦ unchanged (ground arith)
            ]
    ]

pub call-Change : (c : Call) (s : State) → Change s.trials (after c s).trials
unfolding call
call-Change (add_programme p) s = unchanged (trials-create_programme p s)
call-Change (add_hypothesis a b c d e f) s =
    unchanged (trials-create_hypothesis (new_hypothesis a b c d e f) s)
call-Change (add_trial programme hypothesis config id now) s =
    add_trial-Change programme hypothesis config id now s
call-Change (add_bundle b) s = unchanged (trials-create_bundle b s)
call-Change (add_observation o) s = unchanged (trials-create_observation o s)
call-Change (add_belief b) s = unchanged (trials-create_belief b s)
call-Change (add_conclusion c) s = unchanged (trials-create_conclusion c s)
call-Change (set_trial_status id status reason now) s =
    update_trial_status-Change id status reason now s
call-Change (correct_trial id status reason now) s =
    correct_trial_status-Change id status reason now s
call-Change (set_bundle id bundle) s =
    unfold link_bundle in
    plain_update-Change id (λ t. record t { bundle_id = some bundle }) s (λ t. ground arith)
      (λ t. refl)
call-Change (set_duration id seconds) s =
    unfold update_trial_duration in
    plain_update-Change id (λ t. record t { duration_seconds = some seconds }) s (λ t. ground arith)
      (λ t. refl)
call-Change (set_artifact_path id path) s =
    unfold update_trial_artifact_path in
    plain_update-Change id (λ t. record t { artifact_path = some path }) s (λ t. ground arith)
      (λ t. refl)
call-Change (set_output id output) s =
    unfold update_trial_executor_output in
    plain_update-Change id (λ t. record t { executor_output_json = some output }) s
      (λ t. ground arith) (λ t. refl)
call-Change (set_hypothesis_status id status) s =
    unchanged (trials-update_hypothesis_status id status s)
call-Change (abandon id rationale decided_by now) s =
    unchanged (trials-abandon_hypothesis_row id rationale decided_by now s)
call-Change (promote id) s = unchanged (trials-promote_hypothesis_if_proposed id s)
call-Change (set_direction id direction) s =
    unchanged (trials-update_programme_direction id direction s)
call-Change (set_programme_status id status) s =
    unchanged (trials-update_programme_status id status s)
