-- ===== src/Memory/Models.antt =====
-- The vocabularies and the rows of the claim graph,
-- ml-scientist/src/ml_anamnesis_mcp/state/models.py. A confidence, which the server keeps between
-- 0.0 and 1.0, is a natural number of parts; how many of them make 1.0 is an argument (`one`).
pub mod Values
use labloop.Prelude.{
  ℕ, String, Bool, true, false, Option, none, some, List, [], ◌∷◌, ◌==◌, string_eq, if◌then◌else◌,
}
use labloop.Json.{Fields}

pub data ClaimType : Type 0 where
  empirical methodological : ClaimType

pub data RefType : Type 0 where
  claim trial observation conclusion programme investigation finding archive improver tournament
        tournament_result proposal meta_contract meta_decision policy_version canary_deployment
        candidate contract decision bundle dataref reference hypothesis evidence_ref campaign
        campaign_spawn external :
      RefType

pub data Relation : Type 0 where
  supports contradicts derived_from tested_by valid_under supersedes generalizes specializes
        similar_to failed_because cites :
      Relation

-- `t.value`
unfoldable pub ref_type_value : RefType → String
ref_type_value RefType.claim = "claim"
ref_type_value RefType.trial = "trial"
ref_type_value RefType.observation = "observation"
ref_type_value RefType.conclusion = "conclusion"
ref_type_value RefType.programme = "programme"
ref_type_value RefType.investigation = "investigation"
ref_type_value RefType.finding = "finding"
ref_type_value RefType.archive = "archive"
ref_type_value RefType.improver = "improver"
ref_type_value RefType.tournament = "tournament"
ref_type_value RefType.tournament_result = "tournament_result"
ref_type_value RefType.proposal = "proposal"
ref_type_value RefType.meta_contract = "meta_contract"
ref_type_value RefType.meta_decision = "meta_decision"
ref_type_value RefType.policy_version = "policy_version"
ref_type_value RefType.canary_deployment = "canary_deployment"
ref_type_value RefType.candidate = "candidate"
ref_type_value RefType.contract = "contract"
ref_type_value RefType.decision = "decision"
ref_type_value RefType.bundle = "bundle"
ref_type_value RefType.dataref = "dataref"
ref_type_value RefType.reference = "reference"
ref_type_value RefType.hypothesis = "hypothesis"
ref_type_value RefType.evidence_ref = "evidence_ref"
ref_type_value RefType.campaign = "campaign"
ref_type_value RefType.campaign_spawn = "campaign_spawn"
ref_type_value RefType.external = "external"

unfoldable pub relation_value : Relation → String
relation_value Relation.supports = "supports"
relation_value Relation.contradicts = "contradicts"
relation_value Relation.derived_from = "derived_from"
relation_value Relation.tested_by = "tested_by"
relation_value Relation.valid_under = "valid_under"
relation_value Relation.supersedes = "supersedes"
relation_value Relation.generalizes = "generalizes"
relation_value Relation.specializes = "specializes"
relation_value Relation.similar_to = "similar_to"
relation_value Relation.failed_because = "failed_because"
relation_value Relation.cites = "cites"

abbrev pub ref_types : List RefType
ref_types =
    RefType.claim ∷ RefType.trial ∷ RefType.observation ∷ RefType.conclusion ∷ RefType.programme
    ∷ RefType.investigation ∷ RefType.finding ∷ RefType.archive ∷ RefType.improver
    ∷ RefType.tournament ∷ RefType.tournament_result ∷ RefType.proposal ∷ RefType.meta_contract
    ∷ RefType.meta_decision ∷ RefType.policy_version ∷ RefType.canary_deployment ∷ RefType.candidate
    ∷ RefType.contract ∷ RefType.decision ∷ RefType.bundle ∷ RefType.dataref ∷ RefType.reference
    ∷ RefType.hypothesis ∷ RefType.evidence_ref ∷ RefType.campaign ∷ RefType.campaign_spawn
    ∷ RefType.external ∷ []

abbrev pub relations : List Relation
relations =
    Relation.supports ∷ Relation.contradicts ∷ Relation.derived_from ∷ Relation.tested_by
    ∷ Relation.valid_under ∷ Relation.supersedes ∷ Relation.generalizes ∷ Relation.specializes
    ∷ Relation.similar_to ∷ Relation.failed_because ∷ Relation.cites ∷ []

unfoldable pub find_ref_type : String → List RefType → Option RefType
unfolding ref_type_value
find_ref_type v [] = none
find_ref_type v (t ∷ ts) = if ref_type_value t == v then some t else find_ref_type v ts

unfoldable pub find_relation : String → List Relation → Option Relation
unfolding relation_value
find_relation v [] = none
find_relation v (r ∷ rs) = if relation_value r == v then some r else find_relation v rs

-- `RefType(v)`, with `none` for the `ValueError`
unfoldable pub ref_type_of : String → Option RefType
unfolding find_ref_type
ref_type_of v = find_ref_type v ref_types

-- `Relation(v)`
unfoldable pub relation_of : String → Option Relation
unfolding find_relation
relation_of v = find_relation v relations

-- `ClaimType(v)`
unfoldable pub claim_type_of : String → Option ClaimType
claim_type_of v =
    if v == "empirical"
    then some ClaimType.empirical
    else if v == "methodological"
    then some ClaimType.methodological
    else none

-- `r.value in EVIDENCE_RELATIONS`
unfoldable pub is_evidence : Relation → Bool
is_evidence Relation.supports = true
is_evidence Relation.derived_from = true
is_evidence Relation.tested_by = true
is_evidence Relation.valid_under = true
is_evidence _ = false

-- `INTERNAL_REF_PREFIXES`: a prefix, the first of its types, and the others.
abbrev pub internal_ref_prefixes : List (String × RefType × List RefType)
internal_ref_prefixes =
    ("claim-", RefType.claim, [])
    ∷ ("trial-", RefType.trial, [])
    ∷ ("obs-", RefType.observation, [])
    ∷ ("conc-", RefType.conclusion, [])
    ∷ ("prog-", RefType.programme, [])
    ∷ ("hyp-", RefType.hypothesis, [])
    ∷ ("inv-", RefType.investigation, [])
    ∷ ("find-", RefType.finding, [])
    ∷ ("archive-", RefType.archive, [])
    ∷ ("imp-", RefType.improver, [])
    ∷ ("tourn-", RefType.tournament, [])
    ∷ ("tres-", RefType.tournament_result, [])
    ∷ ("mcp-", RefType.proposal, [])
    ∷ ("mcontract-", RefType.meta_contract, [])
    ∷ ("mdec-", RefType.meta_decision, [])
    ∷ ("pol-", RefType.policy_version, [])
    ∷ ("canary-", RefType.canary_deployment, [])
    ∷ ("cand-", RefType.candidate, [])
    ∷ ("contract-", RefType.contract, [])
    ∷ ("decision-", RefType.decision, [])
    ∷ ("bundle-", RefType.bundle, [])
    ∷ ("data-ref-", RefType.dataref, RefType.reference ∷ [])
    ∷ ("eref-", RefType.evidence_ref, [])
    ∷ ("camp-", RefType.campaign, [])
    ∷ ("spawn-", RefType.campaign_spawn, [])
    ∷ []

pub data Basis : Type 0 where
  grounded weakly_grounded ungrounded : Basis

pub record Claim : Type 0 where
  pub id : String
  pub content : String
  pub claim_type : ClaimType
  pub confidence : Option ℕ
  pub valid_from : String
  pub valid_until : Option String
  pub supersedes_id : Option String
  pub content_hash : String
  pub source_id : Option String
  pub confidence_basis : Option Basis
  pub confidence_computation : Option Fields
  pub created_at : String

pub record ClaimEdge : Type 0 where
  pub id : String
  pub from_claim : String
  pub to_ref : String
  pub ref_type : RefType
  pub relation : Relation
  pub source_id : Option String
  pub created_at : String
