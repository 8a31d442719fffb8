-- ===== src/Arete/Proposals.antt =====
-- `propose_meta_change`, ml-scientist/src/ml_arete_mcp/tools/proposals.py, and its check of the
-- fields in enforcement/checks.py. The parameters are decoded.
use labloop.Prelude.{String, Option, some, if◌then◌else◌}
use labloop.Exec.{pure, gets, refuse, or_raise, ◌>>=◌, ◌>>◌}
use labloop.Strings.{is_blank}
use labloop.Json.{Fields, no_fields}
use labloop.Arete.Models.{MetaChangeProposal, ProposalStatus}
use labloop.Arete.Store.{
  Error, Act, get_improver, create_proposal, proposer_not_found, class_map_required,
  expected_benefit_required, falsification_required, rollback_plan_required,
}
use labloop.Arete.Checks.{refuse_if}
use labloop.Arete.Boundary.{classify_class_map, admission_verdict}

unfoldable pub check_proposal_fields : Fields → String → String → String → Option Error
check_proposal_fields class_map expected_benefit falsification rollback_plan =
    if no_fields class_map
    then some class_map_required
    else if is_blank expected_benefit
    then some expected_benefit_required
    else if is_blank falsification
    then some falsification_required
    else refuse_if (is_blank rollback_plan) rollback_plan_required

-- The parameters, the minted id and the time
pub record Change : Type 0 where
  pub proposer : String
  pub spec_delta : Fields
  pub class_map : Fields
  pub expected_benefit : String
  pub falsification : String
  pub rollback_plan : String
  pub budget : Option Fields
  pub id : String
  pub now : String

abbrev pub proposal_of : Change → MetaChangeProposal
proposal_of c =
    let verdict = admission_verdict (classify_class_map c.class_map) in
    record {
      id = c.id;
      proposer_improver_id = c.proposer;
      spec_delta = c.spec_delta;
      class_map = c.class_map;
      expected_benefit = c.expected_benefit;
      falsification = c.falsification;
      budget = c.budget;
      rollback_plan = c.rollback_plan;
      status = verdict.0;
      rejection_reason = verdict.1;
      created_at = c.now;
    }

unfoldable pub propose_meta_change : Change → Act ProposalStatus
propose_meta_change c = do
  found ← gets (get_improver c.proposer)
  or_raise found proposer_not_found
  refuse (check_proposal_fields c.class_map c.expected_benefit c.falsification c.rollback_plan)
  create_proposal (proposal_of c)
  pure (proposal_of c).status
