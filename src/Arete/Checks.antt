-- ===== src/Arete/Checks.antt =====
-- The checks on decisions and promotions, ml-scientist/src/ml_arete_mcp/enforcement/checks.py. The
-- parameters of the handlers are decoded.
use labloop.Prelude.{
  String, Bool, true, false, not, ◌||◌, Option, none, some, List, [], ◌∷◌, any, is_empty, ◌==◌,
  string_eq, if◌then◌else◌,
}
use labloop.Exec.{pure, gets, refuse, raise_if, or_raise, ◌>>=◌, ◌>>◌}
use labloop.Strings.{is_blank, starts_with}
use labloop.Arete.Models.{
  ImproverVersion, Tournament, MetaDecision, EvidenceRef, ProposalStatus, DecisionVerdict,
  EvidenceContext,
}
use labloop.Arete.Store.{
  Lab, Error, Act, get_improver, get_proposal, get_tournament, get_evidence_ref, latest_decision,
  lineage, improver_not_found, evidence_not_found, rationale_required, decided_by_required,
  evidence_required, evidence_elsewhere, human_required, already_champion, no_decision,
  not_promoted,
}

abbrev pub refuse_if : Bool → Error → Option Error
refuse_if b e = if b then some e else none

unfoldable pub check_decision_inputs : String → String → List String → Option Error
check_decision_inputs rationale decided_by evidence_refs =
    if is_blank rationale
    then some rationale_required
    else if is_blank decided_by
    then some decided_by_required
    else refuse_if (is_empty evidence_refs) evidence_required

-- A tournament that involves the candidate
abbrev pub involves : String → Tournament → Bool
involves candidate t = (t.parent_improver_id == candidate) || (t.candidate_improver_id == candidate)

unfoldable pub check_context : String → EvidenceRef → Lab → Option Error
check_context candidate r l = elim r.context_type [
  | EvidenceContext.tournament ↦ elim (get_tournament r.context_id l) [
    | none ↦ some evidence_elsewhere
    | some t ↦ refuse_if (not (involves candidate t)) evidence_elsewhere
  ]
  | EvidenceContext.proposal ↦ elim (get_proposal r.context_id l) [
    | none ↦ some evidence_elsewhere
    | some p ↦
        refuse_if (not (any (λ i. i.id == p.proposer_improver_id) (lineage candidate l)))
          evidence_elsewhere
  ]
]

unfoldable pub check_decision_evidence : String → List String → Lab → Option Error
unfolding check_context
check_decision_evidence candidate [] l = none
check_decision_evidence candidate (ref ∷ refs) l =
    let rest = check_decision_evidence candidate refs l in
    elim (get_evidence_ref ref l) [
      | none ↦ some evidence_not_found
      | some r ↦ elim (check_context candidate r l) [ some e ↦ some e | none ↦ rest ]
    ]

abbrev is_conditional : ProposalStatus → Bool
is_conditional ProposalStatus.conditional = true
is_conditional _ = false

unfoldable pub check_promote_authority : ImproverVersion → String → Lab → Option Error
check_promote_authority candidate decided_by l =
    if starts_with "human:" decided_by then none else elim candidate.proposal_id [
      | none ↦ none
      | some id ↦ if id == "" then none else elim (get_proposal id l) [
        | none ↦ none
        | some p ↦ refuse_if (is_conditional p.status) human_required
      ]
    ]

abbrev pub is_promote : DecisionVerdict → Bool
is_promote DecisionVerdict.promote = true
is_promote _ = false

-- The gate of `promote_policy`, with the decision that it rests on.
unfoldable pub check_promote_allowed : String → Act MetaDecision
check_promote_allowed candidate_id = do
  found ← gets (get_improver candidate_id)
  candidate ← or_raise found improver_not_found
  raise_if candidate.is_champion already_champion
  decided ← gets (latest_decision candidate_id)
  decision ← or_raise decided no_decision
  raise_if (not (is_promote decision.verdict)) not_promoted
  unauthorized ← gets (check_promote_authority candidate decision.decided_by)
  refuse unauthorized
  pure decision
