-- ===== src/Memory/Steps.antt =====
-- What `create_edge` and the building of an edge do to a graph.
use labloop.Prelude.{
  ◌&&◌, String, ◌≡◌, Bool, true, Option, none, some, List, any, is_some, arith, eq_iff, string_eq,
}
use labloop.Exec.{ok}
use labloop.Table.{fetch, insert}
use labloop.Memory.Models.{ClaimEdge, ref_type_value, relation_value, ref_type_of, relation_of}
use labloop.Memory.Models.Values.{value-ref_type_of, value-relation_of}
use labloop.Memory.Store.{Memory, claim_id, edge_id, get_claim, create_edge, same_edge}
use labloop.Memory.Checks.{check_ref_type_consistent}
use labloop.Memory.Evidence.{Spec, check_spec, edge_of, default}
use labloop.Memory.Sound.{edge_ok}

-- `create_edge`, when it succeeds

module _ (e : ClaimEdge) (m : Memory) {u : Unit {0}} {m' : Memory}
    (done : create_edge e m ≡ (ok u, m')) where
  pub created_claims : m'.claims ≡ m.claims
  unfolding create_edge
  created_claims = ground arith

  pub created_rows : insert edge_id e m.edges ≡ some m'.edges
  unfolding create_edge
  created_rows = ground arith

  pub created_from : is_some (fetch claim_id e.from_claim m.claims) ≡ true
  unfolding create_edge get_claim
  created_from = ground arith

-- The dict has its three required keys.
abbrev pub complete : Spec → Bool
complete e = is_some e.to_ref && (is_some e.ref_type && is_some e.relation)

-- The edge that a checked dict makes

module _ (from : String) (source : Option String) (id now : String) (e : Spec) (m : Memory)
    {edge : ClaimEdge} {m' : Memory} (made : edge_of from source id now e m ≡ (ok edge, m')) where
  pub made_same : m' ≡ m
  unfolding edge_of
  made_same = ground arith

  pub made_from : edge.from_claim ≡ from
  unfolding edge_of
  made_from = ground arith

  pub made_to : edge.to_ref ≡ default "" e.to_ref
  unfolding edge_of
  made_to = ground arith

  made_ref_type : ref_type_of (default "" e.ref_type) ≡ some edge.ref_type
  unfolding edge_of
  made_ref_type = ground arith

  made_relation : relation_of (default "" e.relation) ≡ some edge.relation
  unfolding edge_of
  made_relation = ground arith

  pub made_ok :
      check_spec e m ≡ none
      → is_some (fetch claim_id from m.claims) ≡ true
      → edge_ok m.claims edge ≡ true
  unfolding edge_ok check_spec check_ref_type_consistent get_claim
  made_ok passed there =
      ground (arith, made_from, made_to, value-ref_type_of (default "" e.ref_type) made_ref_type)

  pub made_complete : complete e ≡ true
  unfolding edge_of
  made_complete = ground arith

-- The edge of a dict is in the table.
abbrev pub present : String → List ClaimEdge → Spec → Bool
present from es e =
    complete e
    && any (same_edge from (default "" e.to_ref) (default "" e.ref_type) (default "" e.relation)) es

pub made_same_edge :
    (from : String) (source : Option String) (id now : String) (e : Spec) (m : Memory)
    {edge : ClaimEdge} {m' : Memory} (made : edge_of from source id now e m ≡ (ok edge, m'))
    → same_edge from (default "" e.to_ref) (default "" e.ref_type) (default "" e.relation) edge
      ≡ true
made_same_edge from source id now e m {edge} {m'} made = ground (
  arith,
  made_from from source id now e m made,
  made_to from source id now e m made,
  value-ref_type_of (default "" e.ref_type) (made_ref_type from source id now e m made),
  value-relation_of (default "" e.relation) (made_relation from source id now e m made),
  eq_iff edge.from_claim from,
  eq_iff edge.to_ref (default "" e.to_ref),
  eq_iff (ref_type_value edge.ref_type) (default "" e.ref_type),
  eq_iff (relation_value edge.relation) (default "" e.relation),
)

-- What a check reads are the claims alone.
pub check_spec-claims :
    (e : Spec) (m m' : Memory) → m'.claims ≡ m.claims → check_spec e m' ≡ check_spec e m
unfolding check_spec get_claim
check_spec-claims e m m' h = ground arith
