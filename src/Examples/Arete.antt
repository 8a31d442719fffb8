-- ===== src/Examples/Arete.antt =====
-- A small recursive loop, and the theorems on it applied to it.
pub mod Proposals
use labloop.Prelude.{
  eq_iff, arith, ◌+◌, ◌≤◌, String, ◌≡◌, ◌⊎◌, refl, Bool, true, false, not, Option, none, some, List,
  [], ◌∷◌, length, arith,
}
use labloop.Exec.{ok, err}
use labloop.Strings.{
  lower_code, strip, lstrip, rstrip, codes_eq, is_blank, is_space, starts_with, is_prefix,
  comes_before, codes_before,
}
use labloop.Json.{Fields, null, end, field}
use labloop.Table.{fetch, insert, update}
use labloop.Arete.Models.{
  Reason, ImproverVersion, Tournament, TournamentStatus, MetaDecision, DecisionVerdict, EvidenceRef,
  EvidenceContext, CanaryDeployment, CanaryStatus, ProposalStatus,
}
use labloop.Arete.Store.{
  create_proposal, human_required, Lab, Error, get_improver, get_champion, get_active_policy,
  latest_decision, latest, earliest, create_policy_version, create_meta_decision, transaction,
  set_champion_flag, set_policy_status, get_canary, close_canary_row, canary_closed,
  count_champions, walk, lineage, get_evidence_ref, get_tournament,
}
use labloop.Arete.Boundary.{
  normalize_component, underscore, classify_component, classify_class_map, admission_verdict,
  is_immutable, needs_review,
}
use labloop.Arete.Boundary.Admission.{named, later, Names, Each, is_modifiable, admission-outcome}
use labloop.Arete.Checks.{
  check_promote_allowed, check_promote_authority, check_decision_inputs, check_decision_evidence,
  check_context,
}
use labloop.Arete.Pointer.{
  register_improver, Claimed, promote_policy, rollback, rollback_gates, restore_champion, settle,
  restorable, restore_id,
}
use labloop.Arete.Verdicts.{Verdict, record_meta_decision}
use labloop.Arete.Proposals.{Change, proposal_of, propose_meta_change, check_proposal_fields}
use labloop.Arete.Governed.{propose-immutable, propose-conditional}
use labloop.Arete.Canaries.{close_canary}
use labloop.Arete.Champion.{Pointed}
use labloop.Arete.Steps.{answers, Op, register, promote, roll_back, Step, perform, run}
use labloop.Arete.Refine.{perform-Step, run-count_champions}
use labloop.Arete.Restored.{rollback-promote}
use labloop.Arete.Ladder.{Recorded}
use labloop.Arete.Ladder.Outcome.{record_meta_decision-outcome}
use labloop.Arete.Ancestry.{walk-lineage}
use labloop.Arete.Closing.{closed_as, close_canary-final}

abbrev improver : String → Option String → Bool → ImproverVersion
improver id parent champion = record {
  id = id;
  parent_id = parent;
  proposal_id = none;
  code_artifact_digest = "none";
  harness_artifact_digest = none;
  model_ref = "model";
  search_policy_ref = none;
  capability_profile = end;
  is_champion = champion;
  created_at = "t0";
}

abbrev genesis : ImproverVersion
genesis = improver "imp-0" none true

abbrev child : ImproverVersion
child = improver "imp-1" (some "imp-0") false

abbrev tournament : Tournament
tournament = record {
  id = "tourn-1";
  contract_id = "mcontract-1";
  parent_improver_id = "imp-0";
  candidate_improver_id = "imp-1";
  status = TournamentStatus.closed;
  bf_2ln = some 7000;
}

abbrev consulted : EvidenceRef
consulted = record {
  id = "eref-1";
  context_type = EvidenceContext.tournament;
  context_id = "tourn-1";
}

abbrev promotion : MetaDecision
promotion = record {
  id = "mdec-1";
  candidate_improver_id = "imp-1";
  contract_id = none;
  tournament_id = none;
  verdict = DecisionVerdict.promote;
  evidence_refs = "eref-1" ∷ [];
  rationale = "better";
  decided_by = "human:alice";
  claim_id = none;
  claim_error = none;
  declared_rung = none;
  claimed_rung = none;
  computed_rung = none;
  confidence_basis = none;
  created_at = "t1";
}

abbrev canary : CanaryDeployment
canary = record {
  id = "canary-1";
  policy_version_id = "pol-0";
  scope = end;
  status = CanaryStatus.opened;
  created_at = "t1";
  closed_at = none;
}

abbrev lab : Lab
lab = record {
  improvers = genesis ∷ child ∷ [];
  contracts = record { id = "mcontract-1"; min_evidence_rung = some "positive" } ∷ [];
  proposals = [];
  tournaments = tournament ∷ [];
  evidence = consulted ∷ [];
  decisions = promotion ∷ [];
  policies = [];
  canaries = canary ∷ [];
}

lab-Pointed : Pointed lab.improvers (some "imp-0")
unfolding fetch
lab-Pointed = record { ids = (refl, (refl, tt)); flags = (refl, (refl, tt)); stands = refl }

abbrev policy : Fields
policy = field "explore" null end

abbrev unclaimed : Claimed
unclaimed = record { claim_id = none; claim_error = none; confidence_basis = none }

abbrev promoted : Lab
promoted = (promote_policy "imp-1" policy "pol-1" "t2" lab).1

child_promoted : promote_policy "imp-1" policy "pol-1" "t2" lab ≡ (ok (some "imp-0"), promoted)
unfolding promote_policy check_promote_allowed get_improver fetch latest_decision latest
    check_promote_authority starts_with is_prefix get_champion earliest transaction
    create_policy_version insert set_champion_flag update comes_before codes_before
child_promoted = refl

abbrev rolled : Lab
rolled =
    (rollback "imp-1" "regressed" "human:alice" ("eref-1" ∷ []) unclaimed "mdec-2" "t3" promoted).1

child_rolled :
    rollback "imp-1" "regressed" "human:alice" ("eref-1" ∷ []) unclaimed "mdec-2" "t3" promoted
    ≡ (ok (some "imp-0"), rolled)
unfolding rollback rollback_gates check_decision_inputs is_blank is_space check_decision_evidence
    check_context get_evidence_ref get_tournament create_meta_decision settle restore_champion
    get_active_policy restorable restore_id set_policy_status promote_policy check_promote_allowed
    get_improver fetch latest_decision latest check_promote_authority starts_with is_prefix
    get_champion earliest transaction create_policy_version insert set_champion_flag update
    comes_before codes_before
child_rolled = refl

idle : get_active_policy "imp-1" lab ≡ none
unfolding get_active_policy latest
idle = refl

rollback-promote_example :
    (◌≡◌ {A = Option String} (some "imp-0") (some "imp-0"))
    × Pointed rolled.improvers (some "imp-0")
rollback-promote_example =
    rollback-promote "imp-1" policy "pol-1" "t2" lab child_promoted "imp-0" lab-Pointed
      (λ h. ground (arith, (eq_iff "imp-0" "").1 h)) idle "regressed" "human:alice" ("eref-1" ∷ [])
      unclaimed "mdec-2" "t3" child_rolled

perform-Step_example :
    (p' : Option String) × Step lab
      (promote "imp-1" policy "pol-1" "t2")
      (answers (promote "imp-1" policy "pol-1" "t2") lab)
      (some "imp-0")
      p'
    × Pointed (perform (promote "imp-1" policy "pol-1" "t2") lab).improvers p'
perform-Step_example =
    perform-Step (promote "imp-1" policy "pol-1" "t2") (some "imp-0") lab lab-Pointed

abbrev empty_lab : Lab
empty_lab = record lab { improvers = []; decisions = [] }

abbrev calls : List Op
calls =
    register genesis
    ∷ register child
    ∷ promote "imp-1" policy "pol-1" "t2"
    ∷ roll_back "imp-1" "regressed" "human:alice" ("eref-1" ∷ []) unclaimed "mdec-2" "t3"
    ∷ []

run-count_champions_example : count_champions (run calls empty_lab) ≤ 1
run-count_champions_example = run-count_champions calls empty_lab refl

abbrev verdict : Verdict
verdict = record {
  candidate = "imp-1";
  verdict = DecisionVerdict.promote;
  evidence_refs = "eref-1" ∷ [];
  rationale = "better";
  decided_by = "human:alice";
  contract_id = some "mcontract-1";
  tournament_id = some "tourn-1";
  claimed_rung = some "positive";
  claimed = unclaimed;
  id = "mdec-3";
  now = "t4";
}

record_meta_decision-outcome_example :
    ((d : MetaDecision) × (l' : Lab) × (record_meta_decision verdict lab ≡ (ok d, l'))
      × Recorded verdict d lab l')
    ⊎ ((e : Error) × (record_meta_decision verdict lab ≡ (err e, lab)))
record_meta_decision-outcome_example = record_meta_decision-outcome verdict lab

-- A table with a cycle of parents
abbrev cyclic : Lab
cyclic = record lab {
  improvers = improver "imp-2" (some "imp-3") false ∷ improver "imp-3" (some "imp-2") false ∷ [];
}

walk-lineage_example :
    walk (5 + length cyclic.improvers) "imp-2" [] cyclic.improvers ≡ lineage "imp-2" cyclic
walk-lineage_example = walk-lineage 5 "imp-2" cyclic

abbrev closed : Lab
closed = (close_canary "canary-1" CanaryStatus.regressed "t5" lab).1

canary_shut : close_canary "canary-1" CanaryStatus.regressed "t5" lab ≡ (ok tt, closed)
unfolding close_canary get_canary fetch close_canary_row update
canary_shut = refl

close_canary-final_example :
    ((c : CanaryDeployment) × (get_canary "canary-1" lab ≡ some c)
      × (c.status ≡ CanaryStatus.opened)
      × (get_canary "canary-1" closed ≡ some (closed_as CanaryStatus.regressed "t5" c)))
    × ((again : CanaryStatus) (later : String)
        → close_canary "canary-1" again later closed ≡ (err canary_closed, closed))
close_canary-final_example =
    close_canary-final "canary-1" CanaryStatus.regressed "t5" lab canary_shut
