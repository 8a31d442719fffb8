-- ===== src/Models.antt =====
-- The rows of the experiment loop, ml-scientist/src/ml_episteme_mcp/state/models.py: one record to
-- a pydantic class, its status enums, and the Boolean equality of each enum. A timestamp is the
-- string that the column holds. Hours and seconds are numbers of one fixed unit, so that a float
-- that both columns share the resolution of is exact. The ontological constants of the classes
-- are left out.
pub mod New
use labloop.Prelude.{
  ℕ, String, ◌≡◌, ◌↔◌, Bool, true, ◌&&◌, Option, List, arith, Eq, nat_beq, ◌==◌, string_eq, not,
}
use labloop.Json.{Text, Json, text_truthy}

pub data ProgrammeStatus : Type 0 where
  active completed abandoned archived : ProgrammeStatus

pub data HypothesisStatus : Type 0 where
  proposed under_test accepted rejected inconclusive abandoned : HypothesisStatus

pub data TrialStatus : Type 0 where
  designed running completed failed retryable abandoned : TrialStatus

pub data Verdict : Type 0 where
  accepted rejected inconclusive : Verdict

abbrev programme_status_code : ProgrammeStatus → ℕ
programme_status_code ProgrammeStatus.active = 0
programme_status_code ProgrammeStatus.completed = 1
programme_status_code ProgrammeStatus.abandoned = 2
programme_status_code ProgrammeStatus.archived = 3

abbrev hypothesis_status_code : HypothesisStatus → ℕ
hypothesis_status_code HypothesisStatus.proposed = 0
hypothesis_status_code HypothesisStatus.under_test = 1
hypothesis_status_code HypothesisStatus.accepted = 2
hypothesis_status_code HypothesisStatus.rejected = 3
hypothesis_status_code HypothesisStatus.inconclusive = 4
hypothesis_status_code HypothesisStatus.abandoned = 5

abbrev trial_status_code : TrialStatus → ℕ
trial_status_code TrialStatus.designed = 0
trial_status_code TrialStatus.running = 1
trial_status_code TrialStatus.completed = 2
trial_status_code TrialStatus.failed = 3
trial_status_code TrialStatus.retryable = 4
trial_status_code TrialStatus.abandoned = 5

pub programme_status_beq_iff :
    (a b : ProgrammeStatus)
    → (nat_beq (programme_status_code a) (programme_status_code b) ≡ true) ↔ (a ≡ b)
programme_status_beq_iff a b = ground arith

pub hypothesis_status_beq_iff :
    (a b : HypothesisStatus)
    → (nat_beq (hypothesis_status_code a) (hypothesis_status_code b) ≡ true) ↔ (a ≡ b)
hypothesis_status_beq_iff a b = ground arith

pub trial_status_beq_iff :
    (a b : TrialStatus) → (nat_beq (trial_status_code a) (trial_status_code b) ≡ true) ↔ (a ≡ b)
trial_status_beq_iff a b = ground arith

instance abbrev pub programme_status_eq : Eq ProgrammeStatus
programme_status_eq = record {
  test = λ a b. nat_beq (programme_status_code a) (programme_status_code b);
  test_iff = programme_status_beq_iff;
}

instance abbrev pub hypothesis_status_eq : Eq HypothesisStatus
hypothesis_status_eq = record {
  test = λ a b. nat_beq (hypothesis_status_code a) (hypothesis_status_code b);
  test_iff = hypothesis_status_beq_iff;
}

instance abbrev pub trial_status_eq : Eq TrialStatus
trial_status_eq = record {
  test = λ a b. nat_beq (trial_status_code a) (trial_status_code b);
  test_iff = trial_status_beq_iff;
}

pub record Programme : Type 0 where
  pub id : String
  pub goal : String
  pub constraints : Json
  pub allowed_variables : List String
  pub budget_max_trials : ℕ
  pub budget_max_wall_time_hours : ℕ
  pub metric_direction : String
  pub candidate_version_id : Option String
  pub status : ProgrammeStatus
  pub created_at : String

pub record Hypothesis : Type 0 where
  pub id : String
  pub programme_id : String
  pub statement : String
  pub failure_criterion : String
  pub variables_involved : List String
  pub status : HypothesisStatus
  pub created_at : String
  pub abandon_rationale : Option String
  pub abandoned_by : Option String
  pub abandoned_at : Option String

pub record Bundle : Type 0 where
  pub id : String
  pub trial_id : String
  pub code_ref : String
  pub code_hash : Option String
  pub code_hash_extra_json : Option Text
  pub env_ref : String
  pub seeds_json : Text
  pub splits_json : Text
  pub data_refs_json : Option Text
  pub baseline_ref : Option String
  pub created_at : String

-- `Bundle.is_complete`
unfoldable pub is_complete : Bundle → Bool
is_complete b =
    not (b.code_ref == "")
    && (not (b.env_ref == "") && (text_truthy b.seeds_json && text_truthy b.splits_json))

pub record Trial : Type 0 where
  pub id : String
  pub programme_id : String
  pub hypothesis_id : String
  pub config_json : Text
  pub bundle_id : Option String
  pub status : TrialStatus
  pub duration_seconds : Option ℕ
  pub artifact_path : Option String
  pub executor_output_json : Option Text
  pub started_at : Option String
  pub finished_at : Option String
  pub retry_reason : Option String
  pub created_at : String

pub record Observation : Type 0 where
  pub id : String
  pub trial_id : String
  pub metrics_json : Text
  pub variance_json : Text
  pub spatiotemporal_region : String
  pub created_at : String

pub record Belief : Type 0 where
  pub id : String
  pub programme_id : String
  pub state_json : Text
  pub updated_at : String

pub record Conclusion : Type 0 where
  pub id : String
  pub hypothesis_id : String
  pub programme_id : String
  pub verdict : Verdict
  pub evidence_ref : String
  pub evidence_summary : String
  pub created_at : String
