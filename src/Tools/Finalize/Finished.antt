-- ===== src/Tools/Finalize/Finished.antt =====
-- `_finalize_trial` on a trial that has ended.
use labloop.Prelude.{String, ◌≡◌, refl, true, some, arith, string_eq}
use labloop.Json.{Fields, has, Text, text_truthy, dumps, obj}
use labloop.Exec.{ok}
use labloop.Models.{Trial, TrialStatus}
use labloop.Store.State.{State}
use labloop.Store.Rows.{get_trial}
use labloop.Store.Trials.{set_trial, is_correctable, correct_trial_status}
use labloop.Store.Corrections.{Corrected, correct-Corrected}
use labloop.Tools.Finalize.{finalize_trial}
use labloop.Tools.Finalize.Outcome.{with_output, persisted, read_back}

-- `_finalize_trial` answers for a trial that has ended with the status it has, for any output that
-- is no empty text; the row then holds this output, and is otherwise as it was.
finalize-finished :
    (trial : String) (output : Text) (now : String) (s : State) (t : Trial)
    → get_trial trial s ≡ some t
    → is_correctable t.status ≡ true
    → text_truthy output ≡ true
    → (finalize_trial trial output now s ≡ (ok t.status, set_trial trial (with_output output) s))
      × (get_trial trial (set_trial trial (with_output output) s)
          ≡ some (record t { executor_output_json = some output }))
unfolding finalize_trial
finalize-finished trial output now s t found final given = (
  ground (arith, persisted trial output s t found given),
  read_back trial (with_output output) s t (λ x. refl) found,
)

-- After a correction that went through, `_finalize_trial` with an output that is no empty text
-- keeps the corrected status, but the row then holds that output alone: the record with the list of
-- corrections that `correct_trial_status` had written is no longer there.
pub finalize-erases_corrections :
    (trial : String) (status : TrialStatus) (reason when now : String) (output : Text)
    (s s' : State)
    → correct_trial_status trial status reason when s ≡ (ok tt, s')
    → text_truthy output ≡ true
    → (row : Trial) × (get_trial trial s' ≡ some row)
      × (out : Fields) × (row.executor_output_json ≡ some (dumps (obj out)))
      × (has "corrections" out ≡ true)
      × (finalize_trial trial output now s' ≡ (ok status, set_trial trial (with_output output) s'))
      × (get_trial trial (set_trial trial (with_output output) s')
          ≡ some (record row { executor_output_json = some output }))
unfolding has
finalize-erases_corrections trial status reason when now output s s' corrected given =
    let c : Corrected trial status reason when s s' =
      correct-Corrected trial status reason when s corrected in
    let (answered, left) =
      finalize-finished trial output now s' c.after c.after_found (rw c.label c.to_final) given in
    (
      c.after,
      c.after_found,
      c.out,
      c.stored,
      rw (has, c.appended) refl,
      (rw c.label at answered),
      left,
    )
