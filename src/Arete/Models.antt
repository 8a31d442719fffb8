-- ===== src/Arete/Models.antt =====
-- The rows of the recursive loop, ml-scientist/src/ml_arete_mcp/state/models.py. A contract and a
-- tournament are taken by the columns that a decision reads; 2 ln BF is in thousandths.
use labloop.Prelude.{ℕ, String, Bool, Option, List}
use labloop.Json.{Fields}

pub data ProposalStatus : Type 0 where
  admitted conditional rejected superseded : ProposalStatus

pub data TournamentStatus : Type 0 where
  opened closed voided : TournamentStatus

pub data DecisionVerdict : Type 0 where
  promote reject hold rollback : DecisionVerdict

pub data PolicyStatus : Type 0 where
  minted canary active rolled_back : PolicyStatus

pub data CanaryStatus : Type 0 where
  opened passed regressed : CanaryStatus

pub data EvidenceContext : Type 0 where
  proposal tournament : EvidenceContext

pub record ImproverVersion : Type 0 where
  pub id : String
  pub parent_id : Option String
  pub proposal_id : Option String
  pub code_artifact_digest : String
  pub harness_artifact_digest : Option String
  pub model_ref : String
  pub search_policy_ref : Option String
  pub capability_profile : Fields
  pub is_champion : Bool
  pub created_at : String

-- `min_evidence_rung` is that key of the promotion policy.
pub record MetaContract : Type 0 where
  pub id : String
  pub min_evidence_rung : Option String

-- The reason of a rejection, with the components that it names
pub data Reason : Type 0 where
  immutable_touched : List String → Reason

pub record MetaChangeProposal : Type 0 where
  pub id : String
  pub proposer_improver_id : String
  pub spec_delta : Fields
  pub class_map : Fields
  pub expected_benefit : String
  pub falsification : String
  pub budget : Option Fields
  pub rollback_plan : String
  pub status : ProposalStatus
  pub rejection_reason : Option Reason
  pub created_at : String

pub record Tournament : Type 0 where
  pub id : String
  pub contract_id : String
  pub parent_improver_id : String
  pub candidate_improver_id : String
  pub status : TournamentStatus
  pub bf_2ln : Option ℕ

pub record MetaDecision : Type 0 where
  pub id : String
  pub candidate_improver_id : String
  pub contract_id : Option String
  pub tournament_id : Option String
  pub verdict : DecisionVerdict
  pub evidence_refs : List String
  pub rationale : String
  pub decided_by : String
  pub claim_id : Option String
  pub claim_error : Option String
  pub declared_rung : Option String
  pub claimed_rung : Option String
  pub computed_rung : Option String
  pub confidence_basis : Option String
  pub created_at : String

pub record PolicyVersion : Type 0 where
  pub id : String
  pub improver_version_id : String
  pub decision_id : String
  pub policy : Fields
  pub previous_champion_id : Option String
  pub status : PolicyStatus
  pub created_at : String

pub record CanaryDeployment : Type 0 where
  pub id : String
  pub policy_version_id : String
  pub scope : Fields
  pub status : CanaryStatus
  pub created_at : String
  pub closed_at : Option String

pub record EvidenceRef : Type 0 where
  pub id : String
  pub context_type : EvidenceContext
  pub context_id : String
