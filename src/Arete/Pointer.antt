-- ===== src/Arete/Pointer.antt =====
-- The handlers that move the champion pointer: `register_improver` of
-- ml-scientist/src/ml_arete_mcp/tools/improvers.py, `promote_policy` and `rollback` of
-- tools/decisions.py. What the memory server answers to the claim of a decision is an argument.
use labloop.Prelude.{
  String, Bool, true, false, not, ◌&&◌, Option, none, some, List, is_some, nat_beq, ◌==◌, string_eq,
  if◌then◌else◌,
}
use labloop.Exec.{pure, gets, refuse, raise_if, or_raise, modify, ◌>>=◌, ◌>>◌}
use labloop.Strings.{is_blank}
use labloop.Json.{Fields, no_fields}
use labloop.Arete.Models.{
  ImproverVersion, MetaDecision, PolicyVersion, ProposalStatus, DecisionVerdict, PolicyStatus,
}
use labloop.Arete.Store.{
  Lab, Error, Act, get_improver, get_proposal, create_improver, create_meta_decision,
  create_policy_version, set_champion_flag, set_policy_status, get_champion, count_champions,
  get_active_policy, transaction, improver_not_found, parent_not_found, proposal_not_found,
  model_ref_required, proposal_without_parent, proposal_not_implementable, proposal_elsewhere,
  policy_required,
}
use labloop.Arete.Checks.{
  refuse_if, check_decision_inputs, check_decision_evidence, check_promote_allowed,
}

abbrev is_implementable : ProposalStatus → Bool
is_implementable ProposalStatus.admitted = true
is_implementable ProposalStatus.conditional = true
is_implementable _ = false

-- The lines of `register_improver` on the parent and the proposal
unfoldable pub check_proposal : Option String → Option String → Lab → Option Error
check_proposal parent none l = none
check_proposal none (some proposal) l = some proposal_without_parent
check_proposal (some parent) (some proposal) l = elim (get_proposal proposal l) [
  | none ↦ some proposal_not_found
  | some p ↦
      if not (is_implementable p.status)
      then some proposal_not_implementable
      else refuse_if (not (p.proposer_improver_id == parent)) proposal_elsewhere
]

unfoldable pub check_parent : Option String → Lab → Option Error
check_parent none l = none
check_parent (some parent) l = refuse_if (not (is_some (get_improver parent l))) parent_not_found

-- From the check of the digests on. The row is that of the parameters, with the flag still to set.
unfoldable pub register_improver : ImproverVersion → Act Bool
register_improver i = do
  raise_if (is_blank i.model_ref) model_ref_required
  orphan ← gets (check_parent i.parent_id)
  refuse orphan
  unimplementable ← gets (check_proposal i.parent_id i.proposal_id)
  refuse unimplementable
  n ← gets count_champions
  create_improver (record i { is_champion = nat_beq n 0 })
  pure (nat_beq n 0)

abbrev pub flag_previous : Option ImproverVersion → Lab → Lab
flag_previous none l = l
flag_previous (some p) l = set_champion_flag p.id false l

abbrev pub id_of : Option ImproverVersion → Option String
id_of none = none
id_of (some i) = some i.id

-- The id of the displaced champion is answered.
unfoldable pub promote_policy : String → Fields → String → String → Act (Option String)
promote_policy candidate_id policy id now = do
  decision ← check_promote_allowed candidate_id
  raise_if (no_fields policy) policy_required
  previous ← gets get_champion
  transaction (do
    create_policy_version (record {
      id = id;
      improver_version_id = candidate_id;
      decision_id = decision.id;
      policy = policy;
      previous_champion_id = id_of previous;
      status = PolicyStatus.active;
      created_at = now;
    })
    modify (flag_previous previous)
    modify (set_champion_flag candidate_id true))
  pure (id_of previous)

-- What the mint of the decision's claim came to
pub record Claimed : Type 0 where
  pub claim_id : Option String
  pub claim_error : Option String
  pub confidence_basis : Option String

-- `x or y`, where the empty text is false
abbrev pub or_else : Option String → Option String → Option String
or_else none y = y
or_else (some x) y = if x == "" then y else some x

unfoldable pub restore_id : Option PolicyVersion → ImproverVersion → Option String
restore_id none candidate = candidate.parent_id
restore_id (some p) candidate = or_else p.previous_champion_id candidate.parent_id

abbrev pub retire : Option PolicyVersion → Lab → Lab
retire none l = l
retire (some p) l = set_policy_status p.id PolicyStatus.rolled_back l

-- `if restore_id and store.get_improver(restore_id)`
unfoldable pub restorable : Option String → Lab → Option String
restorable none l = none
restorable (some id) l = if not (id == "") && is_some (get_improver id l) then some id else none

abbrev pub restore : Option String → Lab → Lab
restore none l = l
restore (some id) l = set_champion_flag id true l

-- The gates of `rollback`, with the candidate as it is read before the claim is minted.
unfoldable pub rollback_gates : String → String → String → List String → Act ImproverVersion
rollback_gates candidate_id rationale decided_by evidence_refs = do
  found ← gets (get_improver candidate_id)
  candidate ← or_raise found improver_not_found
  refuse (check_decision_inputs rationale decided_by evidence_refs)
  elsewhere ← gets (check_decision_evidence candidate_id evidence_refs)
  refuse elsewhere
  pure candidate

-- The pointer restore, after the decision row
unfoldable pub restore_champion : ImproverVersion → Act (Option String)
restore_champion candidate = do
  active ← gets (get_active_policy candidate.id)
  modify (set_champion_flag candidate.id false)
  modify (retire active)
  restored ← gets (restorable (restore_id active candidate))
  modify (restore restored)
  pure restored

abbrev pub rollback_decision :
    String → String → String → List String → Claimed → String → String → MetaDecision
rollback_decision candidate_id rationale decided_by evidence_refs claimed id now = record {
  id = id;
  candidate_improver_id = candidate_id;
  contract_id = none;
  tournament_id = none;
  verdict = DecisionVerdict.rollback;
  evidence_refs = evidence_refs;
  rationale = rationale;
  decided_by = decided_by;
  claim_id = claimed.claim_id;
  claim_error = claimed.claim_error;
  declared_rung = none;
  claimed_rung = none;
  computed_rung = none;
  confidence_basis = claimed.confidence_basis;
  created_at = now;
}

unfoldable pub settle : ImproverVersion → Act (Option String)
settle candidate = if candidate.is_champion then restore_champion candidate else pure none

-- The id of the restored champion is answered. The insert of the decision commits by itself.
unfoldable pub rollback :
    String → String → String → List String → Claimed → String → String → Act (Option String)
rollback candidate_id rationale decided_by evidence_refs claimed id now = do
  candidate ← rollback_gates candidate_id rationale decided_by evidence_refs
  create_meta_decision
      (rollback_decision candidate_id rationale decided_by evidence_refs claimed id now)
  settle candidate
