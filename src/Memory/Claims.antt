-- ===== src/Memory/Claims.antt =====
-- `assert_claim` and `relate`, ml-scientist/src/ml_anamnesis_mcp/tools/claims.py.
--
-- The parameters are decoded; the ids that `uuid4` mints and the time are arguments. What the
-- handler takes from
-- elsewhere is one record: SHA-256, `datetime.fromisoformat` with the conversion to UTC, and the
-- floating-point procedures of `compute_confidence`.
use labloop.Prelude.{
  ℕ, String, Bool, true, false, not, Option, none, some, List, ◌++◌, any, leb, string_eq,
  if◌then◌else◌,
}
use labloop.Exec.{pure, raise, gets, refuse, raise_if, or_raise, ◌>>=◌, ◌>>◌}
use labloop.Strings.{comes_before, join_split}
use labloop.Json.{Fields}
use labloop.Memory.Models.{Claim, Basis, ref_type_of, relation_of, claim_type_of}
use labloop.Memory.Store.{
  Act, get_claim_by_hash, create_claim, create_edge, find_edge, transaction, not_iso_8601,
  not_timezone_aware, empty_validity_interval, computation_failed, computation_without_evidence,
  value_error, validation_error,
}
use labloop.Memory.Checks.{
  check_relation_valid, check_ref_type_valid, check_ref_type_consistent, check_claim_type_valid,
  check_supersedes_exists, check_edge_valid,
}
use labloop.Memory.Evidence.{
  Spec, default, check_evidence, mint_edges, attach_edges, brings_evidence, supersedes_spec,
}

pub data Reading : Type 0 where
  not_iso naive : Reading
  utc : String → Reading

-- What the handlers take from elsewhere. `one` is the number of parts of the confidence 1.0.
pub record Outside : Type 0 where
  pub sha256 : String → String
  pub read_time : String → Reading
  pub compute_confidence : Fields → Option ℕ
  pub one : ℕ

-- The parameters of `assert_claim`, the id of a new claim, those of new edges by position, and
-- the time.
pub record Assertion : Type 0 where
  pub content : String
  pub claim_type : String
  pub confidence_computation : Option Fields
  pub evidence : List Spec
  pub supersedes_id : Option String
  pub source_id : Option String
  pub valid_from : Option String
  pub valid_until : Option String
  pub id : String
  pub edge_ids : ℕ → String
  pub now : String

-- The answer; `edges_added` is there on a deduplicated assertion alone.
pub record Asserted : Type 0 where
  pub claim_id : String
  pub edge_ids : List String
  pub edges_added : Option ℕ
  pub confidence : Option ℕ
  pub confidence_basis : Option Basis
  pub confidence_computation : Option Fields
  pub valid_until : Option String

unfoldable pub normalize_content : String → String
normalize_content content = join_split content

unfoldable pub content_hash : Outside → String → String
content_hash outside content = outside.sha256 (normalize_content content)

-- One of `valid_from` and `valid_until`, in UTC.
unfoldable pub normalize_time : Outside → Option String → Act (Option String)
normalize_time outside none = pure none
normalize_time outside (some raw) = elim (outside.read_time raw) [
  | not_iso ↦ raise not_iso_8601
  | naive ↦ raise not_timezone_aware
  | utc t ↦ pure (some t)
]

abbrev pub interval_empty : Option String → Option String → Bool
interval_empty (some from) (some until) = comes_before until from
interval_empty _ _ = false

-- The confidence, its basis and the computation that is stored.
unfoldable pub ground_confidence :
    Outside → Option Fields → Bool → Act (Option ℕ × Basis × Option Fields)
ground_confidence outside none has_evidence =
    pure (none, if has_evidence then Basis.weakly_grounded else Basis.ungrounded, none)
ground_confidence outside (some computation) has_evidence = do
  confidence ← or_raise (outside.compute_confidence computation) computation_failed
  raise_if (not has_evidence) computation_without_evidence
  pure (some confidence, Basis.grounded, some computation)

-- `Field(default=None, ge=0.0, le=1.0)`
abbrev pub in_bounds : ℕ → Option ℕ → Bool
in_bounds one none = true
in_bounds one (some c) = leb c one

-- The branch of a content that is there already.
unfoldable pub reassert : Assertion → Claim → Act Asserted
reassert a existing = do
  added ← transaction (attach_edges existing.id a.source_id a.edge_ids a.now 0 a.evidence)
  pure (record {
    claim_id = existing.id;
    edge_ids = added.0;
    edges_added = some added.1;
    confidence = existing.confidence;
    confidence_basis = existing.confidence_basis;
    confidence_computation = existing.confidence_computation;
    valid_until = existing.valid_until;
  })

-- `Claim(...)`
unfoldable pub new_claim :
    Outside
    → Assertion
    → Option ℕ × Basis × Option Fields
    → Option String
    → Option String
    → Act Claim
new_claim outside a g valid_from valid_until = do
  t ← or_raise (claim_type_of a.claim_type) value_error
  raise_if (not (in_bounds outside.one g.0)) validation_error
  pure (record {
    id = a.id;
    content = a.content;
    claim_type = t;
    confidence = g.0;
    valid_from = default a.now valid_from;
    valid_until = valid_until;
    supersedes_id = a.supersedes_id;
    content_hash = content_hash outside a.content;
    source_id = a.source_id;
    confidence_basis = some g.1;
    confidence_computation = g.2;
    created_at = a.now;
  })

-- The claim and its edges, in one transaction.
unfoldable pub write_claim : Assertion → Claim → Act (List String)
write_claim a claim = transaction (do
  create_claim claim
  mint_edges claim.id a.source_id a.edge_ids a.now 0
      (a.evidence ++ supersedes_spec a.supersedes_id))

-- The branch of a new content.
unfoldable pub mint : Outside → Assertion → Option String → Option String → Act Asserted
mint outside a valid_from valid_until = do
  g ← ground_confidence outside a.confidence_computation (any brings_evidence a.evidence)
  refuse (check_claim_type_valid a.claim_type)
  superseded ← gets (check_supersedes_exists a.supersedes_id)
  refuse superseded
  claim ← new_claim outside a g valid_from valid_until
  ids ← write_claim a claim
  pure (record {
    claim_id = claim.id;
    edge_ids = ids;
    edges_added = none;
    confidence = claim.confidence;
    confidence_basis = claim.confidence_basis;
    confidence_computation = claim.confidence_computation;
    valid_until = claim.valid_until;
  })

-- The handler once its times are read.
unfoldable pub assert_timed : Outside → Assertion → Option String → Option String → Act Asserted
assert_timed outside a valid_from valid_until = do
  raise_if (interval_empty valid_from valid_until) empty_validity_interval
  malformed ← gets (check_evidence a.evidence)
  refuse malformed
  existing ← gets (get_claim_by_hash (content_hash outside a.content))
  elim existing [ some c ↦ reassert a c | none ↦ mint outside a valid_from valid_until ]

unfoldable pub assert_claim : Outside → Assertion → Act Asserted
assert_claim outside a = do
  valid_from ← normalize_time outside a.valid_from
  valid_until ← normalize_time outside a.valid_until
  assert_timed outside a valid_from valid_until

-- The id of the edge, and whether it was there already.
unfoldable pub relate :
    String → String → String → String → Option String → String → String → Act (String × Bool)
relate from to_ref ref_type relation source_id id now = do
  refuse (check_relation_valid relation)
  refuse (check_ref_type_valid ref_type)
  refuse (check_ref_type_consistent to_ref ref_type)
  invalid ← gets (check_edge_valid from to_ref ref_type)
  refuse invalid
  existing ← gets (find_edge from to_ref ref_type relation)
  elim existing [
    | some e ↦ pure (e.id, true)
    | none ↦ (do
      t ← or_raise (ref_type_of ref_type) value_error
      r ← or_raise (relation_of relation) value_error
      create_edge (record {
        id = id;
        from_claim = from;
        to_ref = to_ref;
        ref_type = t;
        relation = r;
        source_id = source_id;
        created_at = now;
      })
      pure (id, false))
  ]
