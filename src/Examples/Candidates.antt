-- ===== src/Examples/Candidates.antt =====
-- The theorems on candidates and on the evidence rungs, at concrete values.
use labloop.Prelude.{
  true, ℕ, ◌≤◌, String, Bool, ◌≡◌, refl, false, Option, none, some, List, [], ◌∷◌, length,
  string_eq,
}
use labloop.Json.{obj, end}
use labloop.Table.{fetch}
use labloop.Candidates.{
  Candidate, Decision, promote, rollback, get_candidate_version, get_candidate_lineage,
  check_candidate_parent_exists, register_candidate, get_incumbent,
}
use labloop.Candidates.Lineage.{Chain, Grown, start, grow, get_candidate_lineage-ends}
use labloop.Candidates.Lineage.Registered.{register_candidate-Grown}
use labloop.Rungs.{min_evidence_rung, rung_at_least, rung_for_2lnbf}
use labloop.Rungs.Reach.{rung_for_2lnbf-reaches}
use labloop.Candidates.Incumbent.{standing, top, get_incumbent-standing}

abbrev candidate : String → Option String → Candidate
candidate id parent = record {
  id = id;
  parent_id = parent;
  code_artifact_digest = "none";
  harness_artifact_digest = none;
  model_ref = "model";
  search_policy_ref = none;
  capability_profile = end;
  created_at = "t0";
}

abbrev first : Candidate
first = candidate "cand-1" none

abbrev second : Candidate
second = candidate "cand-2" (some "cand-1")

abbrev table : List Candidate
table = first ∷ second ∷ []

table-Grown : Grown table
unfolding get_candidate_version fetch check_candidate_parent_exists
table-Grown = grow second (grow first start refl refl refl) refl refl refl

second-read : get_candidate_version "cand-2" table ≡ some second
unfolding get_candidate_version fetch
second-read = refl

get_candidate_lineage-ends_example :
    (ps : List Candidate) × Chain table second ps
    × (length ps ≤ 2)
    × ((fuel : ℕ) → 2 ≤ fuel → get_candidate_lineage fuel "cand-2" table ≡ ps)
get_candidate_lineage-ends_example =
    get_candidate_lineage-ends table "cand-2" second table-Grown second-read

abbrev no_blob : String → Bool
no_blob digest = false

register_candidate-Grown_example :
    Grown
      (register_candidate no_blob "none" none "model" none
        (obj end)
        (some "cand-2")
        "cand-3"
        "t1"
        table).1
register_candidate-Grown_example =
    register_candidate-Grown no_blob "none" none "model" none (obj end) (some "cand-2") "cand-3"
      "t1" table table-Grown refl

-- The newest decision first.
abbrev decisions : List Decision
decisions =
    (record { candidate_id = "cand-2"; verdict = rollback })
    ∷ (record { candidate_id = "cand-2"; verdict = promote })
    ∷ (record { candidate_id = "cand-1"; verdict = promote })
    ∷ []

get_incumbent-standing_example : get_incumbent decisions ≡ top (standing decisions)
get_incumbent-standing_example = get_incumbent-standing decisions

-- The rollback brings the earlier one back.
incumbent_after_rollback : get_incumbent decisions ≡ some "cand-1"
unfolding standing
incumbent_after_rollback = get_incumbent-standing decisions

strong_minimum : min_evidence_rung "strong" ≡ some 6000
unfolding min_evidence_rung
strong_minimum = refl

rung_for_2lnbf-reaches_example : rung_at_least (rung_for_2lnbf 7000) "strong" ≡ some true
rung_for_2lnbf-reaches_example = rung_for_2lnbf-reaches 7000 "strong" 6000 strong_minimum
