-- ===== src/Tools/Evidence/Outcome.antt =====
-- `record_observation`: its outcomes.
pub mod Believed
use labloop.Prelude.{
  String, ◌≡◌, ◌≢◌, ◌⊎◌, inl, inr, ap, ◌∙◌, false, Option, none, some, [], ◌∷◌, ◌++◌, arith,
  string_eq, eq_iff, Option-cases,
}
use labloop.Json.{Json, Text, Fields, obj, dumps, loads, no_fields, all_zero}
use labloop.Exec.{ok, err, outcome-cases}
use labloop.Table.{insert}
use labloop.Models.{
  Programme, ProgrammeStatus, Trial, TrialStatus, Observation, Belief, programme_status_eq,
  trial_status_eq,
}
use labloop.Store.State.{State, Error}
use labloop.Store.Rows.{
  get_programme, get_trial, get_observation, create_observation, create_belief,
}
use labloop.Commitments.{
  check_programme_active, check_observation_prerequisites, check_reproducibility,
  check_memory_precedes_optimization, check_belief_has_metrics,
}
use labloop.Commitments.Active.{active-programme}
use labloop.Tools.Schemas.{coerce_dict}
use labloop.Tools.Evidence.{record_observation, update_belief, stored_metrics}

abbrev pub observation_of : String → Fields → Fields → String → String → String → Observation
observation_of trial metrics variance region id now = record {
  id = id;
  trial_id = trial;
  metrics_json = dumps (obj metrics);
  variance_json = dumps (obj variance);
  spatiotemporal_region = region;
  created_at = now;
}

abbrev pub with_observation : Observation → State → State
with_observation o s = record s { observations = s.observations ++ o ∷ [] }

-- What `record_observation` has done when it answers.
pub record Observed (trial : String) (metrics variance : Json) (region id now : String)
    (s s' : State) : Type 0 where
  pub t : Trial
  pub p : Programme
  pub trial_found : get_trial trial s ≡ some t
  pub programme_found : get_programme t.programme_id s ≡ some p
  pub active : p.status ≡ ProgrammeStatus.active
  pub bundled : t.bundle_id ≢ none
  pub completed : t.status ≡ TrialStatus.completed
  pub m : Fields
  pub v : Fields
  pub metrics_decoded : coerce_dict metrics ≡ some m
  pub variance_decoded : coerce_dict variance ≡ some v
  pub some_variance : all_zero v ≡ false
  pub written : s' ≡ with_observation (observation_of trial m v region id now) s

prerequisites-hold :
    (t : Trial)
    → check_observation_prerequisites (some t) ≡ none
    → (t.bundle_id ≢ none) × (t.status ≡ TrialStatus.completed)
unfolding check_observation_prerequisites
prerequisites-hold t e = (ground arith, ground arith)

reproducible-variance : (v : Fields) → check_reproducibility v ≡ none → all_zero v ≡ false
unfolding check_reproducibility all_zero
reproducible-variance v e = ground arith

module _ (trial : String) (metrics variance : Json) (region id now : String) (s : State) where
  record_observation-same :
      {e : Error} {s' : State}
      → record_observation trial metrics variance region id now s ≡ (err e, s')
      → s' ≡ s
  unfolding record_observation create_observation
  record_observation-same h = ground arith

  answer-id :
      {x : String} {s' : State}
      → record_observation trial metrics variance region id now s ≡ (ok x, s')
      → x ≡ id
  unfolding record_observation create_observation
  answer-id h = ground arith

  module _ {x : String} {s' : State}
      (h : record_observation trial metrics variance region id now s ≡ (ok x, s')) where
    observed_trial : (t : Trial) × (get_trial trial s ≡ some t)
    unfolding record_observation check_observation_prerequisites
    observed_trial = elim (Option-cases (get_trial trial s)) [
      | inl missing ↦ absurd (ground arith)
      | inr (t, found) ↦ (t, found)
    ]

    observed_programme :
        (t : Trial)
        → get_trial trial s ≡ some t
        → check_programme_active (get_programme t.programme_id s) ≡ none
    unfolding record_observation
    observed_programme t found = ground arith

    observed_prerequisites :
        (t : Trial) → get_trial trial s ≡ some t → check_observation_prerequisites (some t) ≡ none
    unfolding record_observation
    observed_prerequisites t found = ground arith

    observed_metrics : (m : Fields) × (coerce_dict metrics ≡ some m)
    unfolding record_observation
    observed_metrics = elim (Option-cases (coerce_dict metrics)) [
      | inl undecoded ↦ absurd (ground arith)
      | inr (m, decoded) ↦ (m, decoded)
    ]

    observed_variance : (v : Fields) × (coerce_dict variance ≡ some v)
    unfolding record_observation
    observed_variance = elim (Option-cases (coerce_dict variance)) [
      | inl undecoded ↦ absurd (ground arith)
      | inr (v, decoded) ↦ (v, decoded)
    ]

    observed_reproducible :
        (v : Fields) → coerce_dict variance ≡ some v → check_reproducibility v ≡ none
    unfolding record_observation
    observed_reproducible v decoded = ground arith

    observed_written :
        (m v : Fields)
        → coerce_dict metrics ≡ some m
        → coerce_dict variance ≡ some v
        → s' ≡ with_observation (observation_of trial m v region id now) s
    unfolding record_observation create_observation insert
    observed_written m v decoded_metrics decoded_variance = ground arith

    record_observation-Observed : Observed trial metrics variance region id now s s'
    record_observation-Observed =
        let (t, trial_found) = observed_trial in
        let (p, programme_found, active) =
          active-programme (get_programme t.programme_id s) (observed_programme t trial_found) in
        let (bundled, completed) = prerequisites-hold t (observed_prerequisites t trial_found) in
        let (m, metrics_decoded) = observed_metrics in
        let (v, variance_decoded) = observed_variance in
        record {
          t = t;
          p = p;
          trial_found = trial_found;
          programme_found = programme_found;
          active = active;
          bundled = bundled;
          completed = completed;
          m = m;
          v = v;
          metrics_decoded = metrics_decoded;
          variance_decoded = variance_decoded;
          some_variance = reproducible-variance v (observed_reproducible v variance_decoded);
          written = observed_written m v metrics_decoded variance_decoded;
        }

  -- `record_observation` either reports an error and leaves the store as it was, or appends an
  -- observation of a completed trial that has a bundle and whose programme is active, with the
  -- decoded metrics and a decoded variance that is not zero in every entry.
  pub record_observation-outcome :
      ((s' : State) × (record_observation trial metrics variance region id now s ≡ (ok id, s'))
        × Observed trial metrics variance region id now s s')
      ⊎ ((e : Error) × (record_observation trial metrics variance region id now s ≡ (err e, s)))
  record_observation-outcome =
      elim (outcome-cases (record_observation trial metrics variance region id now s)) [
        | inr (e, s', refused) ↦
            inr (e, ground (arith, record_observation-same {e = e} {s' = s'} refused))
        | inl (x, s', done) ↦
            inl (s', done ∙ ap (λ y. (ok y, s')) (answer-id done), record_observation-Observed done)
      ]
