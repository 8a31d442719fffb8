-- ===== src/Tools/Evidence/Outcome/Believed.antt =====
-- `update_belief`, ml-scientist/src/ml_episteme_mcp/tools/belief.py: its outcomes.
use labloop.Prelude.{
  String, ◌≡◌, ◌⊎◌, inl, inr, ap, ◌∙◌, false, Option, some, [], ◌∷◌, ◌++◌, arith, string_eq, eq_iff,
  Option-cases,
}
use labloop.Json.{Fields, field, end, str, literal, obj, dumps, loads, no_fields}
use labloop.Exec.{ok, err, outcome-cases}
use labloop.Table.{insert}
use labloop.Models.{
  Programme, ProgrammeStatus, Trial, Observation, Belief, programme_status_eq, trial_status_eq,
}
use labloop.Store.State.{State, Error}
use labloop.Store.Rows.{get_programme, get_trial, get_observation, create_belief}
use labloop.Commitments.{
  check_programme_active, check_memory_precedes_optimization, check_belief_has_metrics,
}
use labloop.Tools.Evidence.{Posterior, update_belief, stored_metrics}

abbrev pub with_belief : Belief → State → State
with_belief b s = record s { beliefs = s.beliefs ++ b ∷ [] }

-- What `update_belief` has done when it answers.
pub record Updated (optimizer : String → String → Fields → String → Option Posterior)
    (programme trial observation id now : String) (s s' : State) : Type 0 where
  pub p : Programme
  pub programme_found : get_programme programme s ≡ some p
  pub active : p.status ≡ ProgrammeStatus.active
  pub o : Observation
  pub observation_found : get_observation observation s ≡ some o
  pub of_trial : o.trial_id ≡ trial
  pub t : Trial
  pub trial_found : get_trial trial s ≡ some t
  pub of_programme : t.programme_id ≡ programme
  pub metrics : Fields
  pub stored : stored_metrics (loads o.metrics_json) ≡ some metrics
  pub some_metrics : no_fields metrics ≡ false
  pub posterior : Posterior
  pub told : optimizer programme trial metrics p.metric_direction ≡ some posterior
  pub written :
      s'
      ≡ with_belief
          (record {
            id = id;
            programme_id = programme;
            state_json = dumps (
                obj (
                  field "updated_from_observation" (str (literal observation)) (
                    field "metrics" (obj metrics) (
                      field "best_trials" posterior.best_trials
                        (field "param_importance" posterior.param_importance end)))));
            updated_at = now;
          })
          s

module _ (optimizer : String → String → Fields → String → Option Posterior)
    (programme trial observation id now : String) (s : State) where
  update_belief-same :
      {e : Error} {s' : State}
      → update_belief optimizer programme trial observation id now s ≡ (err e, s')
      → s' ≡ s
  unfolding update_belief create_belief
  update_belief-same h = ground arith

  update_belief-id :
      {x : String} {s' : State}
      → update_belief optimizer programme trial observation id now s ≡ (ok x, s')
      → x ≡ id
  unfolding update_belief create_belief
  update_belief-id h = ground arith

  module _ {x : String} {s' : State}
      (h : update_belief optimizer programme trial observation id now s ≡ (ok x, s')) where
    updated_programme :
        (p : Programme) × (get_programme programme s ≡ some p) × (p.status ≡ ProgrammeStatus.active)
    unfolding update_belief check_programme_active
    updated_programme = elim (Option-cases (get_programme programme s)) [
      | inl missing ↦ absurd (ground arith)
      | inr (p, found) ↦ (p, found, ground arith)
    ]

    updated_observation : (o : Observation) × (get_observation observation s ≡ some o)
    unfolding update_belief
    updated_observation = elim (Option-cases (get_observation observation s)) [
      | inl missing ↦ absurd (ground arith)
      | inr (o, found) ↦ (o, found)
    ]

    updated_trial :
        (o : Observation)
        → get_observation observation s ≡ some o
        → (o.trial_id ≡ trial)
          × (t : Trial) × (get_trial trial s ≡ some t)
          × (t.programme_id ≡ programme)
    unfolding update_belief check_memory_precedes_optimization
    updated_trial o found = elim (Option-cases (get_trial trial s)) [
      | inl missing ↦ absurd (ground arith)
      | inr (t, trial_found) ↦ (
        ground (arith, eq_iff o.trial_id trial),
        t,
        trial_found,
        ground (arith, eq_iff t.programme_id programme),
      )
    ]

    updated_metrics :
        (o : Observation)
        → get_observation observation s ≡ some o
        → (m : Fields) × (stored_metrics (loads o.metrics_json) ≡ some m) × (no_fields m ≡ false)
    unfolding update_belief check_belief_has_metrics
    updated_metrics o found = elim (Option-cases (stored_metrics (loads o.metrics_json))) [
      | inl unread ↦ absurd (ground arith)
      | inr (m, read) ↦ (m, read, ground arith)
    ]

    updated_belief :
        (p : Programme) (o : Observation) (m : Fields)
        → get_programme programme s ≡ some p
        → get_observation observation s ≡ some o
        → stored_metrics (loads o.metrics_json) ≡ some m
        → (posterior : Posterior) × (optimizer programme trial m p.metric_direction
            ≡ some posterior)
          × (s'
              ≡ with_belief
                  (record {
                    id = id;
                    programme_id = programme;
                    state_json = dumps (
                        obj (
                          field "updated_from_observation" (str (literal observation)) (
                            field "metrics" (obj m) (
                              field "best_trials" posterior.best_trials
                                (field "param_importance" posterior.param_importance end)))));
                    updated_at = now;
                  })
                  s)
    unfolding update_belief create_belief insert
    updated_belief p o m known found read =
        elim (Option-cases (optimizer programme trial m p.metric_direction)) [
          | inl failed ↦ absurd (ground arith)
          | inr (posterior, told) ↦ (posterior, told, ground arith)
        ]

    update_belief-Updated : Updated optimizer programme trial observation id now s s'
    update_belief-Updated =
        let (p, programme_found, active) = updated_programme in
        let (o, observation_found) = updated_observation in
        let (of_trial, t, trial_found, of_programme) = updated_trial o observation_found in
        let (m, read, some_metrics) = updated_metrics o observation_found in
        let (posterior, told, written) =
          updated_belief p o m programme_found observation_found read in
        record {
          p = p;
          programme_found = programme_found;
          active = active;
          o = o;
          observation_found = observation_found;
          of_trial = of_trial;
          t = t;
          trial_found = trial_found;
          of_programme = of_programme;
          metrics = m;
          stored = read;
          some_metrics = some_metrics;
          posterior = posterior;
          told = told;
          written = written;
        }

  -- `update_belief` either reports an error and leaves the store as it was, or appends a belief of
  -- the active programme. Its state names the observation, which belongs to the trial, which belongs
  -- to the programme; it holds the metrics of the observation, at least one, and the best trials and
  -- the importance of the parameters that the optimizer answers with when it has been told these
  -- metrics, under the programme's direction.
  pub update_belief-outcome :
      ((s' : State) × (update_belief optimizer programme trial observation id now s ≡ (ok id, s'))
        × Updated optimizer programme trial observation id now s s')
      ⊎ ((e : Error) × (update_belief optimizer programme trial observation id now s ≡ (err e, s)))
  update_belief-outcome =
      elim (outcome-cases (update_belief optimizer programme trial observation id now s)) [
        | inr (e, s', refused) ↦
            inr (e, ground (arith, update_belief-same {e = e} {s' = s'} refused))
        | inl (x, s', done) ↦
            inl
              (s', done ∙ ap (λ y. (ok y, s')) (update_belief-id done), update_belief-Updated done)
      ]
