-- ===== src/Examples/Memory.antt =====
-- A small graph of claims, and the theorems on the memory server applied to it.
use labloop.Prelude.{
  String, ◌≡◌, ◌⊎◌, refl, Bool, true, false, none, some, [], ◌∷◌, map, any, nat_beq,
}
use labloop.Exec.{ok, err}
use labloop.Json.{end}
use labloop.Strings.{join_split, split, pieces, is_word, spaced, join_words, is_space}
use labloop.Table.{fetch, insert}
use labloop.Memory.Models.{
  Basis, ClaimEdge, RefType, Relation, ref_type_of, relation_of, find_ref_type, find_relation,
  ref_type_value, relation_value, is_evidence, claim_type_of,
}
use labloop.Memory.Store.{
  Memory, Error, get_claim, get_claim_by_hash, transaction, create_claim, create_edge, has_claim,
  find_edge,
}
use labloop.Memory.Checks.{
  check_ref_type_valid, check_relation_valid, check_ref_type_consistent, check_claim_type_valid,
  check_supersedes_exists, check_edge_valid,
}
use labloop.Memory.Claims.{
  Outside, utc, Assertion, Asserted, assert_claim, assert_timed, normalize_time, content_hash,
  normalize_content, mint, ground_confidence, new_claim, write_claim, relate,
}
use labloop.Memory.Evidence.{Spec, check_evidence, check_spec, brings_evidence, mint_edges, edge_of}
use labloop.Memory.Sound.{WellFormed}
use labloop.Memory.Assert.Entered.{Entered, assert_claim-WellFormed, assert_claim-outcome}
use labloop.Memory.Again.{again, assert_claim-again}
use labloop.Memory.Relate.{Related}
use labloop.Memory.Relate.Outcome.{relate-WellFormed, relate-outcome, relate-again}
use labloop.Memory.Retype.{
  retype_misfiled_external_edges, retyped, is_misfiled, retype-map, retype-settles,
}
use labloop.Memory.Content.{content_hash-normalize_content}

abbrev outside : Outside
outside = record {
  sha256 = λ s. s;
  read_time = λ s. utc s;
  compute_confidence = λ computation. some 800;
  one = 1000;
}

abbrev tested : Spec
tested = record {
  to_ref = some "trial-1";
  ref_type = some "trial";
  relation = some "tested_by";
  source_id = none;
}

abbrev first_claim : Assertion
first_claim = record {
  content = "warmup  helps";
  claim_type = "empirical";
  confidence_computation = some end;
  evidence = tested ∷ [];
  supersedes_id = none;
  source_id = none;
  valid_from = none;
  valid_until = none;
  id = "claim-1";
  edge_ids = λ i. "edge-1";
  now = "2026-01-01";
}

abbrev no_claims : Memory
no_claims = record { claims = []; edges = [] }

no_claims-WellFormed : WellFormed 1000 no_claims
no_claims-WellFormed = record {
  claim_ids = tt;
  hashes = tt;
  edge_ids = tt;
  edges_ok = tt;
  claims_ok = tt;
}

-- The graph with the first claim
abbrev graph : Memory
graph = (assert_claim outside first_claim no_claims).1

graph-WellFormed : WellFormed 1000 graph
graph-WellFormed = assert_claim-WellFormed outside first_claim no_claims no_claims-WellFormed refl

abbrev answer : Asserted
answer = record {
  claim_id = "claim-1";
  edge_ids = "edge-1" ∷ [];
  edges_added = none;
  confidence = some 800;
  confidence_basis = some Basis.grounded;
  confidence_computation = some end;
  valid_until = none;
}

first_claim_asserted : assert_claim outside first_claim no_claims ≡ (ok answer, graph)
unfolding assert_claim assert_timed normalize_time check_evidence check_spec check_ref_type_valid
    check_relation_valid check_ref_type_consistent ref_type_of find_ref_type ref_type_value
    relation_of find_relation relation_value get_claim get_claim_by_hash fetch insert content_hash
    normalize_content join_split split pieces is_word spaced join_words is_space mint
    ground_confidence brings_evidence is_evidence check_claim_type_valid claim_type_of
    check_supersedes_exists new_claim write_claim transaction create_claim create_edge mint_edges
    edge_of has_claim
first_claim_asserted = refl

-- Another claim, in the place of the first
abbrev second_claim : Assertion
second_claim = record first_claim {
  content = "warmup hurts";
  confidence_computation = none;
  supersedes_id = some "claim-1";
  id = "claim-2";
  edge_ids = λ i. elim (nat_beq i 0) [ true ↦ "edge-2" | false ↦ "edge-3" ];
}

assert_claim-WellFormed_example : WellFormed 1000 (assert_claim outside second_claim graph).1
assert_claim-WellFormed_example =
    assert_claim-WellFormed outside second_claim graph graph-WellFormed refl

assert_claim-outcome_example :
    ((out : Asserted) × (m' : Memory) × (assert_claim outside second_claim graph ≡ (ok out, m'))
      × Entered outside second_claim out graph m')
    ⊎ ((e : Error) × (assert_claim outside second_claim graph ≡ (err e, graph)))
assert_claim-outcome_example =
    assert_claim-outcome outside second_claim graph graph-WellFormed.claim_ids

assert_claim-again_example :
    (out' : Asserted) × (assert_claim outside
        (again first_claim "claim-9" (λ i. "edge-9") "2026-02-02")
        graph
      ≡ (ok out', graph))
    × (out'.claim_id ≡ "claim-1")
    × (out'.edges_added ≡ some 0)
assert_claim-again_example =
    assert_claim-again outside first_claim no_claims no_claims-WellFormed.claim_ids
      first_claim_asserted "claim-9" (λ i. "edge-9") "2026-02-02"

relate-WellFormed_example :
    WellFormed 1000
      (relate "claim-1" "hyp-1" "hypothesis" "cites" none "edge-5" "2026-01-02" graph).1
relate-WellFormed_example =
    relate-WellFormed "claim-1" "hyp-1" "hypothesis" "cites" none "edge-5" "2026-01-02" graph 1000
      refl graph-WellFormed

relate-outcome_example :
    ((k : String × Bool) × (m' : Memory) × (relate "claim-1" "hyp-1" "hypothesis" "cites" none
          "edge-5" "2026-01-02" graph
        ≡ (ok k, m'))
      × Related "claim-1" "hyp-1" "hypothesis" "cites" "edge-5" k graph m')
    ⊎ ((e : Error) × (relate "claim-1" "hyp-1" "hypothesis" "cites" none "edge-5" "2026-01-02" graph
          ≡ (err e, graph)))
relate-outcome_example =
    relate-outcome "claim-1" "hyp-1" "hypothesis" "cites" none "edge-5" "2026-01-02" graph

abbrev related : Memory
related = (relate "claim-1" "hyp-1" "hypothesis" "cites" none "edge-5" "2026-01-02" graph).1

edge_related :
    relate "claim-1" "hyp-1" "hypothesis" "cites" none "edge-5" "2026-01-02" graph
    ≡ (ok ("edge-5", false), related)
unfolding relate check_edge_valid find_edge assert_claim assert_timed normalize_time check_evidence
    check_spec check_ref_type_valid check_relation_valid check_ref_type_consistent ref_type_of
    find_ref_type ref_type_value relation_of find_relation relation_value get_claim
    get_claim_by_hash fetch insert content_hash normalize_content join_split split pieces is_word
    spaced join_words is_space mint ground_confidence brings_evidence is_evidence
    check_claim_type_valid claim_type_of check_supersedes_exists new_claim write_claim transaction
    create_claim create_edge mint_edges edge_of has_claim
edge_related = refl

relate-again_example :
    relate "claim-1" "hyp-1" "hypothesis" "cites" (some "prog-1") "edge-6" "2026-01-03" related
    ≡ (ok ("edge-5", true), related)
relate-again_example =
    relate-again "claim-1" "hyp-1" "hypothesis" "cites" none "edge-5" "2026-01-02" graph
      edge_related (some "prog-1") "edge-6" "2026-01-03"

-- An edge that was filed before its type was there
abbrev old_edge : ClaimEdge
old_edge = record {
  id = "edge-0";
  from_claim = "claim-1";
  to_ref = "bundle-7";
  ref_type = RefType.external;
  relation = Relation.cites;
  source_id = none;
  created_at = "2025-01-01";
}

abbrev old_graph : Memory
old_graph = record { claims = []; edges = old_edge ∷ [] }

retype-map_example :
    retype_misfiled_external_edges old_graph
    ≡ record old_graph { edges = map retyped old_graph.edges }
retype-map_example = retype-map old_graph

retype-settles_example :
    (any is_misfiled (retype_misfiled_external_edges old_graph).edges ≡ false)
    × (retype_misfiled_external_edges (retype_misfiled_external_edges old_graph)
        ≡ retype_misfiled_external_edges old_graph)
retype-settles_example = retype-settles old_graph

content_hash-normalize_content_example :
    (normalize_content (normalize_content " a  claim ") ≡ normalize_content " a  claim ")
    × (content_hash outside (normalize_content " a  claim ") ≡ content_hash outside " a  claim ")
content_hash-normalize_content_example = content_hash-normalize_content outside " a  claim "
