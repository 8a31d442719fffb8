-- ===== src/Candidates.antt =====
-- The candidates of the research loop and the decisions on them: `register_candidate` of
-- ml-scientist/src/ml_episteme_mcp/tools/candidate.py, and the rows, the lineage and the incumbent
-- of state/store.py. The two tables stand apart from the experiment loop's. The blob store, which
-- says whether a digest is that of an ingested file, is an argument.
pub mod Lineage
pub mod Incumbent
use labloop.Prelude.{
  ℕ, zero, suc, String, Bool, true, false, not, ◌&&◌, ◌||◌, Option, none, some, is_some, List, [],
  ◌∷◌, any, leb, nat_beq, ◌==◌, string_eq, if◌then◌else◌,
}
use labloop.Strings.{codes}
use labloop.Json.{Json, Fields}
use labloop.Exec.{Exec, pure, gets, refuse, or_raise, ◌>>=◌, ◌>>◌, ok, err}
use labloop.Table.{fetch, insert}
use labloop.Tools.Schemas.{coerce_dict}

-- `CandidateVersion`
pub record Candidate : Type 0 where
  pub id : String
  pub parent_id : Option String
  pub code_artifact_digest : String
  pub harness_artifact_digest : Option String
  pub model_ref : String
  pub search_policy_ref : Option String
  pub capability_profile : Fields
  pub created_at : String

pub data PromotionVerdict : Type 0 where
  promote reject hold rollback : PromotionVerdict

-- The columns of a promotion decision that the incumbent is derived from.
pub record Decision : Type 0 where
  pub candidate_id : String
  pub verdict : PromotionVerdict

pub data Refusal : Type 0 where
  not_a_dict not_a_digest unresolved_digest parent_not_found integrity_error : Refusal

abbrev pub candidate_key : Candidate → String
candidate_key c = c.id

-- `DIGEST_RE`: "sha256:" and 64 hexadecimal digits, `$` allowing for one line feed after them.
abbrev is_hex : ℕ → Bool
is_hex c = (leb 48 c && leb c 57) || (leb 97 c && leb c 102)

hex_run : ℕ → List ℕ → Bool
hex_run zero [] = true
hex_run zero (c ∷ []) = nat_beq c 10
hex_run zero (c ∷ d ∷ cs) = false
hex_run (suc n) [] = false
hex_run (suc n) (c ∷ cs) = is_hex c && hex_run n cs

after_prefix : List ℕ → List ℕ → Option (List ℕ)
after_prefix [] cs = some cs
after_prefix (p ∷ ps) [] = none
after_prefix (p ∷ ps) (c ∷ cs) = if nat_beq p c then after_prefix ps cs else none

unfoldable pub is_digest : String → Bool
unfolding hex_run after_prefix
is_digest value = elim (after_prefix (codes "sha256:") (codes value)) [
  | none ↦ false
  | some rest ↦ hex_run 64 rest
]

unfoldable pub check_digest_claim : (String → Bool) → Option String → Option Refusal
check_digest_claim has_blob none = none
check_digest_claim has_blob (some value) =
    if value == "none"
    then none
    else if not (is_digest value)
    then some not_a_digest
    else if not (has_blob value)
    then some unresolved_digest
    else none

unfoldable pub get_candidate_version : String → List Candidate → Option Candidate
get_candidate_version id cs = fetch candidate_key id cs

unfoldable pub check_candidate_parent_exists : Option String → List Candidate → Option Refusal
check_candidate_parent_exists none cs = none
check_candidate_parent_exists (some parent) cs =
    if is_some (get_candidate_version parent cs) then none else some parent_not_found

-- The insert, with the primary key and the foreign key on the parent, which may be the row itself.
abbrev parent_holds : Option String → String → List Candidate → Bool
parent_holds none id cs = true
parent_holds (some parent) id cs = (parent == id) || is_some (get_candidate_version parent cs)

unfoldable pub create_candidate_version : Candidate → Exec (List Candidate) Refusal (Unit {0})
create_candidate_version c cs = elim (insert candidate_key c cs) [
  | none ↦ (err integrity_error, cs)
  | some rows ↦
      if parent_holds c.parent_id c.id cs then (ok tt, rows) else (err integrity_error, cs)
]

-- 'none' is stored as NULL in the optional column.
abbrev pub stored_digest : Option String → Option String
stored_digest none = none
stored_digest (some value) = if value == "none" then none else some value

unfoldable pub register_candidate :
    (String → Bool)
    → String
    → Option String
    → String
    → Option String
    → Json
    → Option String
    → String
    → String
    → Exec (List Candidate) Refusal String
register_candidate has_blob code harness model_ref search_policy_ref profile parent id now = do
  capability_profile ← or_raise (coerce_dict profile) not_a_dict
  refuse (check_digest_claim has_blob (some code))
  refuse (check_digest_claim has_blob harness)
  refuse (← gets (check_candidate_parent_exists parent))
  create_candidate_version (record {
    id = id;
    parent_id = parent;
    code_artifact_digest = code;
    harness_artifact_digest = stored_digest harness;
    model_ref = model_ref;
    search_policy_ref = search_policy_ref;
    capability_profile = capability_profile;
    created_at = now;
  })
  pure id

-- `self.get_candidate_version(current.parent_id) if current.parent_id else None`
abbrev pub parent_row : List Candidate → Option String → Option Candidate
parent_row cs none = none
parent_row cs (some parent) = if parent == "" then none else get_candidate_version parent cs

-- The loop of `get_candidate_lineage`, on fuel.
unfoldable pub walk : ℕ → List Candidate → Option Candidate → List Candidate
walk zero cs current = []
walk (suc n) cs none = []
walk (suc n) cs (some c) = c ∷ walk n cs (parent_row cs c.parent_id)

unfoldable pub get_candidate_lineage : ℕ → String → List Candidate → List Candidate
get_candidate_lineage fuel id cs = walk fuel cs (get_candidate_version id cs)

-- The loop of `get_incumbent` over the decisions that the query returns, the newest first.
unfoldable pub scan : List String → List Decision → Option String
scan rolled_back [] = none
scan rolled_back (d ∷ ds) =
    let skipping = scan rolled_back ds in
    let rolling = scan (d.candidate_id ∷ rolled_back) ds in
    elim d.verdict [
      | rollback ↦ rolling
      | promote ↦
          if any (λ c. c == d.candidate_id) rolled_back then skipping else some d.candidate_id
      | reject ↦ skipping
      | hold ↦ skipping
    ]

unfoldable pub get_incumbent : List Decision → Option String
get_incumbent ds = scan [] ds
