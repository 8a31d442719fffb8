-- ===== src/Store/Rows.antt =====
-- The inserts of `StateStore`, with the primary and foreign keys of its tables
-- (`PRAGMA foreign_keys=ON`), and the reads. ml-scientist/src/ml_episteme_mcp/state/store.py.
use labloop.Prelude.{
  String, Bool, true, ◌&&◌, Option, none, some, List, is_some, filter, ◌==◌, string_eq,
  if◌then◌else◌,
}
use labloop.Exec.{Exec, ok, err}
use labloop.Table.{fetch, insert}
use labloop.Models.{Programme, Hypothesis, Bundle, Trial, Observation, Belief, Conclusion}
use labloop.Store.State.{
  State, Error, integrity_error, programme_id, hypothesis_id, trial_id, bundle_id, observation_id,
  belief_id, conclusion_id,
}

abbrev pub Act : Type 0 → Type 0
Act A = Exec State Error A

unfoldable pub get_programme : String → State → Option Programme
get_programme id s = fetch programme_id id s.programmes

unfoldable pub get_hypothesis : String → State → Option Hypothesis
get_hypothesis id s = fetch hypothesis_id id s.hypotheses

unfoldable pub get_trial : String → State → Option Trial
get_trial id s = fetch trial_id id s.trials

unfoldable pub get_bundle : String → State → Option Bundle
get_bundle id s = fetch bundle_id id s.bundles

unfoldable pub get_observation : String → State → Option Observation
get_observation id s = fetch observation_id id s.observations

unfoldable pub list_hypotheses : String → State → List Hypothesis
list_hypotheses id s = filter (λ h. h.programme_id == id) s.hypotheses

unfoldable pub list_trials : String → State → List Trial
list_trials id s = filter (λ t. t.programme_id == id) s.trials

unfoldable pub list_observations : String → State → List Observation
list_observations id s = filter (λ o. o.trial_id == id) s.observations

unfoldable pub list_beliefs : String → State → List Belief
list_beliefs id s = filter (λ b. b.programme_id == id) s.beliefs

unfoldable pub list_conclusions : String → State → List Conclusion
list_conclusions id s = filter (λ c. c.programme_id == id) s.conclusions

-- The outcome of an insert: the new table, or an `IntegrityError` where a foreign key names no row
-- or the primary key is taken.
abbrev pub write : {A : Type 0} → Bool → Option (List A) → (List A → State) → Act (Unit {0})
write references none to s = (err integrity_error, s)
write references (some rows) to s =
    if references then (ok tt, to rows) else (err integrity_error, s)

unfoldable pub create_programme : Programme → Act (Unit {0})
create_programme p s =
    write true (insert programme_id p s.programmes) (λ rows. record s { programmes = rows }) s

unfoldable pub create_hypothesis : Hypothesis → Act (Unit {0})
unfolding get_programme
create_hypothesis h s =
    write (is_some (get_programme h.programme_id s)) (insert hypothesis_id h s.hypotheses)
      (λ rows. record s { hypotheses = rows }) s

unfoldable pub create_trial : Trial → Act (Unit {0})
unfolding get_programme get_hypothesis
create_trial t s =
    write (is_some (get_programme t.programme_id s) && is_some (get_hypothesis t.hypothesis_id s))
      (insert trial_id t s.trials) (λ rows. record s { trials = rows }) s

unfoldable pub create_bundle : Bundle → Act (Unit {0})
unfolding get_trial
create_bundle b s =
    write (is_some (get_trial b.trial_id s)) (insert bundle_id b s.bundles)
      (λ rows. record s { bundles = rows }) s

unfoldable pub create_observation : Observation → Act (Unit {0})
unfolding get_trial
create_observation o s =
    write (is_some (get_trial o.trial_id s)) (insert observation_id o s.observations)
      (λ rows. record s { observations = rows }) s

unfoldable pub create_belief : Belief → Act (Unit {0})
unfolding get_programme
create_belief b s =
    write (is_some (get_programme b.programme_id s)) (insert belief_id b s.beliefs)
      (λ rows. record s { beliefs = rows }) s

unfoldable pub create_conclusion : Conclusion → Act (Unit {0})
unfolding get_programme get_hypothesis
create_conclusion c s =
    write (is_some (get_hypothesis c.hypothesis_id s) && is_some (get_programme c.programme_id s))
      (insert conclusion_id c s.conclusions) (λ rows. record s { conclusions = rows }) s
