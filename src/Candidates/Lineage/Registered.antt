-- ===== src/Candidates/Lineage/Registered.antt =====
-- `register_candidate`, ml-scientist/src/ml_episteme_mcp/tools/candidate.py: what it adds to the table.
use mathlib.Core.Path.{subst}
use labloop.Prelude.{
  String, ◌≡◌, ◌⊎◌, inl, inr, refl, sym, Bool, false, Option, none, some, List, [], ◌∷◌, ◌++◌,
  arith, ◌==◌, string_eq, Option-cases,
}
use labloop.Json.{Json}
use labloop.Table.{insert}
use labloop.Tools.Schemas.{coerce_dict}
use labloop.Candidates.{
  Candidate, get_candidate_version, check_candidate_parent_exists, check_digest_claim,
  create_candidate_version, register_candidate, stored_digest,
}
use labloop.Candidates.Lineage.{Grown, grow}

created-cases :
    (c : Candidate) (cs : List Candidate)
    → ((create_candidate_version c cs).1 ≡ cs)
      ⊎ (((create_candidate_version c cs).1 ≡ cs ++ c ∷ [])
          × (get_candidate_version c.id cs ≡ none))
unfolding create_candidate_version get_candidate_version insert
created-cases c cs = ground arith

registered-cases :
    (has_blob : String → Bool) (code : String) (harness : Option String) (model_ref : String)
    (search_policy_ref : Option String) (profile : Json) (parent : Option String) (id now : String)
    (cs : List Candidate)
    → ((register_candidate has_blob code harness model_ref search_policy_ref profile parent id now
          cs).1
        ≡ cs)
      ⊎ ((c : Candidate) × (c.id ≡ id)
          × (check_candidate_parent_exists c.parent_id cs ≡ none)
          × ((register_candidate has_blob code harness model_ref search_policy_ref profile parent id
                now cs).1
              ≡ (create_candidate_version c cs).1))
unfolding register_candidate
registered-cases has_blob code harness model_ref search_policy_ref profile parent id now cs =
    elim (Option-cases (coerce_dict profile)) [
      | inl undecoded ↦ inl (ground arith)
      | inr (decoded, e) ↦ elim (Option-cases (check_digest_claim has_blob (some code))) [
        | inr (x, refused) ↦ inl (ground arith)
        | inl code_holds ↦ elim (Option-cases (check_digest_claim has_blob harness)) [
          | inr (x, refused) ↦ inl (ground arith)
          | inl harness_holds ↦ elim (Option-cases (check_candidate_parent_exists parent cs)) [
            | inr (x, refused) ↦ inl (ground arith)
            | inl parent_holds ↦ inr (
              record {
                id = id;
                parent_id = parent;
                code_artifact_digest = code;
                harness_artifact_digest = stored_digest harness;
                model_ref = model_ref;
                search_policy_ref = search_policy_ref;
                capability_profile = decoded;
                created_at = now;
              },
              refl,
              parent_holds,
              ground arith,
            )
          ]
        ]
      ]
    ]

-- `register_candidate` with an id that is not empty keeps the table a sequence of candidates, each
-- with a new id and with a parent, if any, that stood there before it.
pub register_candidate-Grown :
    (has_blob : String → Bool) (code : String) (harness : Option String) (model_ref : String)
    (search_policy_ref : Option String) (profile : Json) (parent : Option String) (id now : String)
    (cs : List Candidate)
    → Grown cs
    → (id == "") ≡ false
    → Grown
        (register_candidate has_blob code harness model_ref search_policy_ref profile parent id now
          cs).1
register_candidate-Grown has_blob code harness model_ref search_policy_ref profile parent id now cs
      grown given =
    elim (registered-cases has_blob code harness model_ref search_policy_ref profile parent id now
      cs) [
        | inl same ↦ subst Grown (sym same) grown
        | inr (c, named, parented, added) ↦ subst Grown (sym added) (elim (created-cases c cs) [
          | inl same ↦ subst Grown (sym same) grown
          | inr (appended, fresh) ↦
              subst Grown (sym appended)
                (grow c grown (subst (λ j. (j == "") ≡ false) (sym named) given) fresh parented)
        ])
      ]
