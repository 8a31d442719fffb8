-- ===== src/Examples.antt =====
-- A small store for the tests: one active programme whose only hypothesis has a completed trial
-- with an observation, a running trial and a designed one.
mod Store
mod Tools
mod Evidence
mod Candidates
mod Memory
mod Arete
use labloop.Prelude.{String, none, some, List, [], ◌∷◌}
use labloop.Json.{Text, Fields, null, num, pos, str, end, field, obj, document, literal, dumps}
use labloop.Models.{
  Programme, ProgrammeStatus, Hypothesis, HypothesisStatus, Trial, TrialStatus, Observation, Belief,
  Bundle,
}
use labloop.Models.New.{new_hypothesis, new_trial}
use labloop.Store.State.{State}

abbrev pub programme : Programme
programme = record {
  id = "prog-1";
  goal = "a lower loss";
  constraints = null;
  allowed_variables = "depth" ∷ [];
  budget_max_trials = 5;
  budget_max_wall_time_hours = 10;
  metric_direction = "minimize";
  candidate_version_id = none;
  status = ProgrammeStatus.active;
  created_at = "t0";
}

abbrev pub config : Fields
config = field "depth" (num (pos 3) 0) end

-- What the executor returns for a run that succeeded.
abbrev pub run_output : Text
run_output = dumps (
    obj (
      field "status" (str (literal "completed"))
        (field "exit_code" (num (pos 0) 0) (field "duration_seconds" (num (pos 25) 1) end))))

-- A status word without a trace of a run.
abbrev pub bare_output : Text
bare_output = dumps (obj (field "status" (str (literal "completed")) end))

abbrev pub proposed : Hypothesis
proposed = new_hypothesis "prog-1" "deeper is better" "the loss does not drop" [] "hyp-1" "t1"

abbrev pub under_test : Hypothesis
under_test = record proposed { status = HypothesisStatus.under_test }

abbrev pub designed : Trial
designed = new_trial "prog-1" "hyp-1" config "trial-2" "t2"

abbrev pub running : Trial
running = record (new_trial "prog-1" "hyp-1" config "trial-3" "t2") {
  bundle_id = some "bundle-3";
  status = TrialStatus.running;
  started_at = some "t3";
}

abbrev pub completed : Trial
completed = record (new_trial "prog-1" "hyp-1" config "trial-1" "t2") {
  bundle_id = some "bundle-1";
  status = TrialStatus.completed;
  executor_output_json = some run_output;
  started_at = some "t3";
  finished_at = some "t4";
}

abbrev pub observation : Observation
observation = record {
  id = "obs-1";
  trial_id = "trial-1";
  metrics_json = dumps (obj (field "loss" (num (pos 5) 1) end));
  variance_json = dumps (obj (field "loss" (num (pos 1) 2) end));
  spatiotemporal_region = "lab";
  created_at = "t5";
}

abbrev pub belief : Belief
belief = record {
  id = "belief-1";
  programme_id = "prog-1";
  state_json = literal "posterior";
  updated_at = "t6";
}

-- A store with these hypotheses and trials.
abbrev pub store : List Hypothesis → List Trial → State
store hypotheses trials = record {
  programmes = programme ∷ [];
  hypotheses = hypotheses;
  trials = trials;
  bundles = [];
  observations = observation ∷ [];
  beliefs = belief ∷ [];
  conclusions = [];
}

-- All is ready for a verdict, a second trial is designed, or one still runs.
abbrev pub concludable : State
concludable = store (under_test ∷ []) (completed ∷ designed ∷ [])

abbrev pub busy : State
busy = store (under_test ∷ []) (completed ∷ running ∷ [])

abbrev pub abandoned_early : State
abandoned_early =
    store (record under_test { status = HypothesisStatus.abandoned } ∷ []) (completed ∷ [])

abbrev pub bundle : Bundle
bundle = record {
  id = "bundle-2";
  trial_id = "trial-2";
  code_ref = "train.py";
  code_hash = none;
  code_hash_extra_json = none;
  env_ref = "env";
  seeds_json = dumps (obj (field "seed" (num (pos 7) 0) end));
  splits_json = dumps (obj (field "train" (num (pos 8) 1) end));
  data_refs_json = none;
  baseline_ref = none;
  created_at = "t2";
}

-- The designed trial has its bundle.
abbrev pub startable : State
startable =
    record (store (under_test ∷ []) (record designed { bundle_id = some "bundle-2" } ∷ [])) {
      bundles = bundle ∷ [];
    }
