-- ===== src/Arete/Store.antt =====
-- `ImproverStore`, ml-scientist/src/ml_arete_mcp/state/store.py: the tables that decisions read
-- and write, with their keys (`PRAGMA foreign_keys = ON`).
use labloop.Prelude.{
  ℕ, zero, suc, String, Bool, true, false, not, ◌&&◌, Option, none, some, List, [], ◌∷◌, ◌++◌, any,
  filter, length, is_some, ◌==◌, string_eq, if◌then◌else◌,
}
use labloop.Exec.{Exec, ok, err}
use labloop.Strings.{comes_before}
use labloop.Table.{fetch, insert, update}
use labloop.Arete.Models.{
  ImproverVersion, MetaContract, MetaChangeProposal, Tournament, MetaDecision, PolicyVersion,
  CanaryDeployment, EvidenceRef, PolicyStatus, CanaryStatus,
}

pub record Lab : Type 0 where
  pub improvers : List ImproverVersion
  pub contracts : List MetaContract
  pub proposals : List MetaChangeProposal
  pub tournaments : List Tournament
  pub evidence : List EvidenceRef
  pub decisions : List MetaDecision
  pub policies : List PolicyVersion
  pub canaries : List CanaryDeployment

pub data Error : Type 0 where
  integrity_error : Error
  candidate_not_found improver_not_found parent_not_found proposal_not_found contract_not_found :
      Error
  tournament_not_found evidence_not_found policy_not_found canary_not_found : Error
  model_ref_required proposal_without_parent proposal_not_implementable proposal_elsewhere : Error
  rationale_required decided_by_required evidence_required evidence_elsewhere : Error
  human_required already_champion no_decision not_promoted policy_required : Error
  unknown_rung rung_required rung_below_declared rung_above_ceiling ungrounded_basis : Error
  tournament_elsewhere tournament_voided canary_closed canary_status_unknown : Error
  proposer_not_found class_map_required expected_benefit_required falsification_required
        rollback_plan_required :
      Error

abbrev pub Act : Type 0 → Type 0
Act A = Exec Lab Error A

abbrev pub improver_id : ImproverVersion → String
improver_id i = i.id

abbrev pub decision_id : MetaDecision → String
decision_id d = d.id

abbrev pub proposal_id : MetaChangeProposal → String
proposal_id p = p.id

abbrev pub policy_id : PolicyVersion → String
policy_id p = p.id

abbrev pub canary_id : CanaryDeployment → String
canary_id c = c.id

unfoldable pub get_improver : String → Lab → Option ImproverVersion
get_improver id l = fetch improver_id id l.improvers

unfoldable pub get_proposal : String → Lab → Option MetaChangeProposal
get_proposal id l = fetch proposal_id id l.proposals

unfoldable pub get_meta_contract : String → Lab → Option MetaContract
get_meta_contract id l = fetch (λ c. c.id) id l.contracts

unfoldable pub get_tournament : String → Lab → Option Tournament
get_tournament id l = fetch (λ t. t.id) id l.tournaments

unfoldable pub get_evidence_ref : String → Lab → Option EvidenceRef
get_evidence_ref id l = fetch (λ r. r.id) id l.evidence

unfoldable pub get_policy_version : String → Lab → Option PolicyVersion
get_policy_version id l = fetch policy_id id l.policies

unfoldable pub get_canary : String → Lab → Option CanaryDeployment
get_canary id l = fetch canary_id id l.canaries

-- The foreign key of a column that may be `NULL`
abbrev pub refers : {A : Type 0} → (String → Option A) → Option String → Bool
refers find none = true
refers find (some id) = is_some (find id)

-- The outcome of an insert.
abbrev pub write : {A : Type 0} → Bool → Option (List A) → (List A → Lab) → Act (Unit {0})
write references none to l = (err integrity_error, l)
write references (some rows) to l =
    if references then (ok tt, to rows) else (err integrity_error, l)

unfoldable pub create_improver : ImproverVersion → Act (Unit {0})
create_improver i l =
    write
      (refers (λ id. get_improver id l) i.parent_id
        && refers (λ id. get_proposal id l) i.proposal_id)
      (insert improver_id i l.improvers) (λ rows. record l { improvers = rows }) l

unfoldable pub create_proposal : MetaChangeProposal → Act (Unit {0})
create_proposal p l =
    write (is_some (get_improver p.proposer_improver_id l)) (insert proposal_id p l.proposals)
      (λ rows. record l { proposals = rows }) l

unfoldable pub create_meta_decision : MetaDecision → Act (Unit {0})
create_meta_decision d l =
    write
      (is_some (get_improver d.candidate_improver_id l)
        && (refers (λ id. get_meta_contract id l) d.contract_id
            && refers (λ id. get_tournament id l) d.tournament_id))
      (insert decision_id d l.decisions) (λ rows. record l { decisions = rows }) l

unfoldable pub create_policy_version : PolicyVersion → Act (Unit {0})
create_policy_version p l =
    write
      (is_some (get_improver p.improver_version_id l)
        && (is_some (fetch decision_id p.decision_id l.decisions)
            && refers (λ id. get_improver id l) p.previous_champion_id))
      (insert policy_id p l.policies) (λ rows. record l { policies = rows }) l

unfoldable pub create_canary : CanaryDeployment → Act (Unit {0})
create_canary c l =
    write (is_some (get_policy_version c.policy_version_id l)) (insert canary_id c l.canaries)
      (λ rows. record l { canaries = rows }) l

unfoldable pub set_champion_flag : String → Bool → Lab → Lab
set_champion_flag id flag l = record l {
  improvers = update improver_id id (λ i. record i { is_champion = flag }) l.improvers;
}

unfoldable pub set_policy_status : String → PolicyStatus → Lab → Lab
set_policy_status id status l = record l {
  policies = update policy_id id (λ p. record p { status = status }) l.policies;
}

unfoldable pub close_canary_row : String → CanaryStatus → String → Lab → Lab
close_canary_row id status now l = record l {
  canaries =
      update canary_id id (λ c. record c { status = status; closed_at = some now }) l.canaries;
}

-- `ORDER BY created_at LIMIT 1`
unfoldable pub earliest : {A : Type 0} → (A → String) → List A → Option A
earliest created [] = none
earliest created (x ∷ xs) =
    let rest = earliest created xs in
    elim rest [
      | none ↦ some x
      | some y ↦ if comes_before (created y) (created x) then some y else some x
    ]

-- `ORDER BY created_at DESC, rowid DESC LIMIT 1`
unfoldable pub latest : {A : Type 0} → (A → String) → List A → Option A
latest created [] = none
latest created (x ∷ xs) =
    let rest = latest created xs in
    elim rest [
      | none ↦ some x
      | some y ↦ if comes_before (created y) (created x) then some x else some y
    ]

unfoldable pub get_champion : Lab → Option ImproverVersion
get_champion l = earliest (λ i. i.created_at) (filter (λ i. i.is_champion) l.improvers)

unfoldable pub count_champions : Lab → ℕ
count_champions l = length (filter (λ i. i.is_champion) l.improvers)

unfoldable pub latest_decision : String → Lab → Option MetaDecision
latest_decision id l =
    latest (λ d. d.created_at) (filter (λ d. d.candidate_improver_id == id) l.decisions)

abbrev pub is_active : PolicyStatus → Bool
is_active PolicyStatus.active = true
is_active _ = false

-- Of policies with one time of creation the query may return any; this is the last.
unfoldable pub get_active_policy : String → Lab → Option PolicyVersion
get_active_policy id l =
    latest (λ p. p.created_at)
      (filter (λ p. (p.improver_version_id == id) && is_active p.status) l.policies)

abbrev pub elem : String → List String → Bool
elem x xs = any (λ y. y == x) xs

-- The walk of `lineage`, on fuel: the ids that are reached, the first one last.
unfoldable pub walk : ℕ → String → List String → List ImproverVersion → List ImproverVersion
walk zero id seen rows = []
walk (suc n) id seen rows = elim (fetch improver_id id rows) [
  | none ↦ []
  | some i ↦ if elem i.id seen then [] else elim i.parent_id [
    | none ↦ i ∷ []
    | some parent ↦ walk n parent (i.id ∷ seen) rows ++ i ∷ []
  ]
]

unfoldable pub lineage : String → Lab → List ImproverVersion
lineage id l = walk (length l.improvers) id [] l.improvers

unfoldable pub is_descendant : String → String → Lab → Bool
is_descendant candidate ancestor l =
    any (λ i. (i.id == ancestor) && not (i.id == candidate)) (lineage candidate l)

unfoldable pub transaction : {A : Type 0} → Act A → Act A
transaction act l = let (r, l') = act l in elim r [ ok a ↦ (ok a, l') | err e ↦ (err e, l) ]
