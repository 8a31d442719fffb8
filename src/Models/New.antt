-- ===== src/Models/New.antt =====
-- The rows that the handlers construct, with the defaults of the pydantic classes.
use labloop.Prelude.{String, none, List}
use labloop.Json.{Fields, obj, dumps}
use labloop.Models.{Hypothesis, HypothesisStatus, Trial, TrialStatus, Conclusion, Verdict}

abbrev pub new_hypothesis : String → String → String → List String → String → String → Hypothesis
new_hypothesis programme statement criterion variables id now = record {
  id = id;
  programme_id = programme;
  statement = statement;
  failure_criterion = criterion;
  variables_involved = variables;
  status = HypothesisStatus.proposed;
  created_at = now;
  abandon_rationale = none;
  abandoned_by = none;
  abandoned_at = none;
}

abbrev pub new_trial : String → String → Fields → String → String → Trial
new_trial programme hypothesis config id now = record {
  id = id;
  programme_id = programme;
  hypothesis_id = hypothesis;
  config_json = dumps (obj config);
  bundle_id = none;
  status = TrialStatus.designed;
  duration_seconds = none;
  artifact_path = none;
  executor_output_json = none;
  started_at = none;
  finished_at = none;
  retry_reason = none;
  created_at = now;
}

abbrev pub new_conclusion : String → String → Verdict → String → String → String → Conclusion
new_conclusion programme hypothesis verdict summary id now = record {
  id = id;
  hypothesis_id = hypothesis;
  programme_id = programme;
  verdict = verdict;
  evidence_ref = summary;
  evidence_summary = summary;
  created_at = now;
}
