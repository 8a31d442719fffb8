-- ===== src/Examples/Arete/Proposals.antt =====
-- The theorems on the admission gate and the proposals, at a small recursive loop.
use labloop.Prelude.{[], ◌∷◌, eq_iff, arith, String, ◌≡◌, ◌⊎◌, refl, true, not, none, some, arith}
use labloop.Exec.{ok, err}
use labloop.Strings.{
  lower_code, strip, lstrip, rstrip, codes_eq, is_blank, is_space, starts_with, is_prefix,
}
use labloop.Json.{Fields, null, end, field}
use labloop.Table.{update, fetch, insert}
use labloop.Arete.Models.{Reason, ImproverVersion, ProposalStatus}
use labloop.Arete.Store.{
  get_proposal, latest_decision, latest, get_champion, earliest, transaction, create_policy_version,
  set_champion_flag, create_proposal, Lab, Error, get_improver,
}
use labloop.Arete.Boundary.{
  normalize_component, underscore, classify_component, classify_class_map, admission_verdict,
  is_immutable, needs_review,
}
use labloop.Arete.Boundary.Admission.{named, later, Names, Each, is_modifiable, admission-outcome}
use labloop.Arete.Checks.{check_promote_allowed, check_promote_authority}
use labloop.Arete.Pointer.{promote_policy, register_improver}
use labloop.Arete.Proposals.{Change, proposal_of, propose_meta_change, check_proposal_fields}
use labloop.Arete.Governed.{propose-immutable, propose-conditional, Promotes, moves}
use labloop.Examples.Arete.{child, lab, genesis, promotion, policy}

abbrev class_map : Fields
class_map = field "Prompts" null (field "audit-log" null end)

admission-outcome_example :
    (((name : String) × Names name class_map × (is_immutable (classify_component name) ≡ true))
      × ((r : Reason) × (admission_verdict (classify_class_map class_map)
            ≡ (ProposalStatus.rejected, some r))))
    ⊎ (Each (λ k. not (is_immutable k)) class_map
        × ((name : String) × Names name class_map × (needs_review (classify_component name) ≡ true))
        × (admission_verdict (classify_class_map class_map) ≡ (ProposalStatus.conditional, none)))
    ⊎ (Each is_modifiable class_map
        × (admission_verdict (classify_class_map class_map) ≡ (ProposalStatus.admitted, none)))
admission-outcome_example = admission-outcome class_map

abbrev change : Change
change = record {
  proposer = "imp-0";
  spec_delta = end;
  class_map = class_map;
  expected_benefit = "faster";
  falsification = "slower";
  rollback_plan = "revert";
  budget = none;
  id = "mcp-1";
  now = "t6";
}

abbrev proposed : Lab
proposed = (propose_meta_change change lab).1

change_taken : propose_meta_change change lab ≡ (ok (proposal_of change).status, proposed)
unfolding propose_meta_change get_improver check_proposal_fields is_blank is_space create_proposal
    insert fetch
change_taken = refl

audit_log_immutable : is_immutable (classify_component "audit-log") ≡ true
unfolding classify_component normalize_component underscore lower_code strip lstrip rstrip is_blank
    is_space codes_eq
audit_log_immutable = refl

abbrev implementer : ImproverVersion
implementer = record child { id = "imp-4"; proposal_id = some "mcp-1" }

propose-immutable_example :
    (e : Error) × (register_improver implementer proposed ≡ (err e, proposed))
propose-immutable_example =
    propose-immutable change lab change_taken ("audit-log", later named, audit_log_immutable)
      proposed implementer refl refl

abbrev reviewed_map : Fields
reviewed_map = field "prompts" null (field "Scheduler" null end)

abbrev reviewed_change : Change
reviewed_change = record change { class_map = reviewed_map }

abbrev reviewed : Lab
reviewed = (propose_meta_change reviewed_change lab).1

reviewed_change_taken :
    propose_meta_change reviewed_change lab ≡ (ok (proposal_of reviewed_change).status, reviewed)
unfolding propose_meta_change get_improver check_proposal_fields is_blank is_space create_proposal
    insert fetch
reviewed_change_taken = refl

reviewed_writable : Each (λ k. not (is_immutable k)) reviewed_map
unfolding classify_component normalize_component underscore lower_code strip lstrip rstrip is_blank
    is_space codes_eq
reviewed_writable = (refl, (refl, tt))

scheduler_flagged : needs_review (classify_component "Scheduler") ≡ true
unfolding classify_component normalize_component underscore lower_code strip lstrip rstrip is_blank
    is_space codes_eq
scheduler_flagged = refl

-- The implementer, with a promote decision of a human
abbrev approved : Lab
approved = record reviewed {
  improvers = genesis ∷ record implementer { parent_id = some "imp-0" } ∷ [];
  decisions = record promotion { id = "mdec-9"; candidate_improver_id = "imp-4" } ∷ [];
}

abbrev approved_promotion : Promotes "imp-4" approved "human:alice"
unfolding promote_policy check_promote_allowed get_improver fetch latest_decision latest
    check_promote_authority starts_with is_prefix get_champion earliest transaction
    create_policy_version insert set_champion_flag update get_proposal propose_meta_change
    check_proposal_fields is_blank is_space create_proposal
approved_promotion =
    moves policy "pol-9" "t9" (record promotion { id = "mdec-9"; candidate_improver_id = "imp-4" })
      refl refl

implementer_there :
    get_improver "imp-4" approved ≡ some (record implementer { parent_id = some "imp-0" })
unfolding get_improver fetch
implementer_there = refl

proposal_kept : get_proposal "mcp-1" approved ≡ get_proposal "mcp-1" reviewed
unfolding get_proposal
proposal_kept = refl

propose-conditional_example : starts_with "human:" "human:alice" ≡ true
propose-conditional_example =
    propose-conditional reviewed_change lab reviewed_change_taken reviewed_writable
      ("Scheduler", later named, scheduler_flagged) (λ h. ground (arith, (eq_iff "mcp-1" "").1 h))
      approved "imp-4" (record implementer { parent_id = some "imp-0" }) proposal_kept
      implementer_there refl approved_promotion
