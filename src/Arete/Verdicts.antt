-- ===== src/Arete/Verdicts.antt =====
-- `record_meta_decision`, ml-scientist/src/ml_arete_mcp/tools/decisions.py. What the memory server
-- answers to the claim of the decision is an argument.
use labloop.Prelude.{
  String, Bool, true, false, not, Option, none, some, List, is_some, string_eq, if◌then◌else◌,
}
use labloop.Exec.{pure, gets, refuse, raise_if, or_raise, ◌>>=◌, ◌>>◌}
use labloop.Rungs.{min_evidence_rung, rung_at_least, rung_for_2lnbf}
use labloop.Arete.Models.{
  ImproverVersion, Tournament, MetaDecision, TournamentStatus, DecisionVerdict,
}
use labloop.Arete.Store.{
  Lab, Error, Act, get_improver, get_meta_contract, get_tournament, create_meta_decision,
  candidate_not_found, contract_not_found, tournament_not_found, unknown_rung, rung_required,
  rung_below_declared, rung_above_ceiling, ungrounded_basis, tournament_elsewhere,
  tournament_voided,
}
use labloop.Arete.Checks.{
  refuse_if, check_decision_inputs, check_decision_evidence, check_promote_authority, is_promote,
  involves,
}
use labloop.Arete.Pointer.{Claimed}

-- The parameters, the minted id and the time
pub record Verdict : Type 0 where
  pub candidate : String
  pub verdict : DecisionVerdict
  pub evidence_refs : List String
  pub rationale : String
  pub decided_by : String
  pub contract_id : Option String
  pub tournament_id : Option String
  pub claimed_rung : Option String
  pub claimed : Claimed
  pub id : String
  pub now : String

unfoldable pub promote_authority : Verdict → ImproverVersion → Lab → Option Error
promote_authority v candidate l =
    if is_promote v.verdict then check_promote_authority candidate v.decided_by l else none

unfoldable pub declared_rung : Option String → Act (Option String)
declared_rung none = pure none
declared_rung (some id) = do
  found ← gets (get_meta_contract id)
  contract ← or_raise found contract_not_found
  pure contract.min_evidence_rung

unfoldable pub check_rung_known : Option String → Option Error
check_rung_known none = none
check_rung_known (some rung) = refuse_if (not (is_some (min_evidence_rung rung))) unknown_rung

-- `not rung_at_least(rung, required)`, which raises on a name that is no rung
unfoldable pub check_at_least : String → String → Error → Option Error
check_at_least rung required e = elim (rung_at_least rung required) [
  | none ↦ some ungrounded_basis
  | some reached ↦ refuse_if (not reached) e
]

-- Declared and claimed
unfoldable pub check_claimed : Bool → Option String → Option String → Option Error
check_claimed false declared claimed = none
check_claimed true none claimed = none
check_claimed true (some declared) none = some rung_required
check_claimed true (some declared) (some claimed) =
    check_at_least claimed declared rung_below_declared

abbrev is_voided : TournamentStatus → Bool
is_voided TournamentStatus.voided = true
is_voided _ = false

unfoldable pub cited_tournament : String → Option String → Act (Option Tournament)
cited_tournament candidate none = pure none
cited_tournament candidate (some id) = do
  found ← gets (get_tournament id)
  t ← or_raise found tournament_not_found
  raise_if (not (involves candidate t)) tournament_elsewhere
  raise_if (is_voided t.status) tournament_voided
  pure (some t)

unfoldable pub computed_rung : Option Tournament → Option String
computed_rung none = none
computed_rung (some t) = elim t.bf_2ln [ none ↦ none | some b ↦ some (rung_for_2lnbf b) ]

-- What has been measured, or else what the contract declares
unfoldable pub ceiling_rung : Option String → Option String → Option String
ceiling_rung none declared = declared
ceiling_rung (some computed) declared = some computed

unfoldable pub check_ceiling : Bool → Option String → Option String → Option Error
check_ceiling true (some claimed) (some ceiling) = check_at_least ceiling claimed rung_above_ceiling
check_ceiling _ _ _ = none

abbrev pub decision_of : Verdict → Option String → Option String → MetaDecision
decision_of v declared computed = record {
  id = v.id;
  candidate_improver_id = v.candidate;
  contract_id = v.contract_id;
  tournament_id = v.tournament_id;
  verdict = v.verdict;
  evidence_refs = v.evidence_refs;
  rationale = v.rationale;
  decided_by = v.decided_by;
  claim_id = v.claimed.claim_id;
  claim_error = v.claimed.claim_error;
  declared_rung = declared;
  claimed_rung = v.claimed_rung;
  computed_rung = computed;
  confidence_basis = v.claimed.confidence_basis;
  created_at = v.now;
}

-- Who decides, on what
unfoldable pub decision_gates : Verdict → Act ImproverVersion
decision_gates v = do
  found ← gets (get_improver v.candidate)
  candidate ← or_raise found candidate_not_found
  refuse (check_decision_inputs v.rationale v.decided_by v.evidence_refs)
  unauthorized ← gets (promote_authority v candidate)
  refuse unauthorized
  elsewhere ← gets (check_decision_evidence v.candidate v.evidence_refs)
  refuse elsewhere
  pure candidate

-- The contract's rung, against the claimed one
unfoldable pub contract_rung : Verdict → Act (Option String)
contract_rung v = do
  declared ← declared_rung v.contract_id
  refuse (check_rung_known v.claimed_rung)
  refuse (check_claimed (is_promote v.verdict) declared v.claimed_rung)
  pure declared

-- The tournament's rung, against the claimed one
unfoldable pub tournament_rung : Verdict → Option String → Act (Option String)
tournament_rung v declared = do
  t ← cited_tournament v.candidate v.tournament_id
  refuse (
      check_ceiling (is_promote v.verdict) v.claimed_rung (ceiling_rung (computed_rung t) declared))
  pure (computed_rung t)

unfoldable pub record_meta_decision : Verdict → Act MetaDecision
record_meta_decision v = do
  decision_gates v
  declared ← contract_rung v
  computed ← tournament_rung v declared
  create_meta_decision (decision_of v declared computed)
  pure (decision_of v declared computed)
