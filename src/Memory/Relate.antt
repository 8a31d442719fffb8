-- ===== src/Memory/Relate.antt =====
-- The outcomes of `relate`.
pub mod Outcome
use labloop.Prelude.{
  ℕ, String, ◌≡◌, ◌∙◌, refl, sym, ap, Bool, true, false, Option, none, some, List, [], ◌∷◌, ◌++◌,
  arith, Option-cases, inl, inr, is_some, ◌⊎◌, ◌==◌, string_eq, ◌&&◌,
}
use mathlib.Core.Path.{subst}
use labloop.Exec.{Result, ok, err, outcome-cases}
use labloop.Table.{fetch}
use labloop.Table.Laws.{insert-eq}
use labloop.Memory.Models.{ClaimEdge, ref_type_of, relation_of}
use labloop.Memory.Store.{
  Memory, Error, get_claim, claim_id, create_edge, find_edge, same_edge, first, edge_id,
}
use labloop.Memory.Checks.{check_edge_valid}
use labloop.Memory.Claims.{relate}
use labloop.Memory.Evidence.{Spec, check_spec, edge_of}
use labloop.Memory.Sound.{WellFormed}
use labloop.Memory.Steps.{created_rows, made_same_edge}
use labloop.Memory.Loops.{Grown-written}
use labloop.Memory.Keeps.{Grown-WellFormed}

module _ (from to_ref ref_type relation : String) (source_id : Option String) (id now : String)
    (m : Memory) where
  -- The same edge as a dict.
  abbrev dict : Spec
  dict = record {
    to_ref = some to_ref;
    ref_type = some ref_type;
    relation = some relation;
    source_id = none;
  }

  abbrev run : Memory → Result Error (String × Bool) × Memory
  run = relate from to_ref ref_type relation source_id id now

  relate-same : {e : Error} {m' : Memory} → run m ≡ (err e, m') → m' ≡ m
  unfolding relate create_edge
  relate-same h = ground arith

  relate_passed : {k : String × Bool} {m' : Memory} → run m ≡ (ok k, m') → check_spec dict m ≡ none
  unfolding relate check_spec check_edge_valid
  relate_passed h = ground arith

  relate_from :
      {k : String × Bool} {m' : Memory}
      → run m ≡ (ok k, m')
      → is_some (fetch claim_id from m.claims) ≡ true
  unfolding relate check_edge_valid get_claim
  relate_from h = ground arith

  relate_apart :
      {k : String × Bool} {m' : Memory}
      → run m ≡ (ok k, m')
      → ((ref_type == "claim") && (to_ref == from)) ≡ false
  unfolding relate check_edge_valid
  relate_apart h = ground arith

  relate-found :
      {k : String × Bool} {m' : Memory} (e : ClaimEdge)
      → run m ≡ (ok k, m')
      → find_edge from to_ref ref_type relation m ≡ some e
      → (k ≡ (e.id, true)) × (m' ≡ m)
  unfolding relate
  relate-found e h found = (ground arith, ground arith)

  relate-written :
      {k : String × Bool} {m' : Memory}
      → run m ≡ (ok k, m')
      → find_edge from to_ref ref_type relation m ≡ none
      → (edge : ClaimEdge) × (u : Unit {0}) × (edge_of from source_id id now dict m ≡ (ok edge, m))
        × (create_edge edge m ≡ (ok u, m'))
        × (k ≡ (id, false))
  unfolding relate edge_of
  relate-written {k} {m'} h missing = elim (Option-cases (ref_type_of ref_type)) [
    | inl unknown ↦ absurd (ground arith)
    | inr (t, known) ↦ elim (Option-cases (relation_of relation)) [
      | inl unknown ↦ absurd (ground arith)
      | inr (r, known') ↦ (
        record {
          id = id;
          from_claim = from;
          to_ref = to_ref;
          ref_type = t;
          relation = r;
          source_id = source_id;
          created_at = now;
        },
        tt,
        ground arith,
        ground arith,
        ground arith,
      )
    ]
  ]

-- What an answered `relate` has done.
pub record Related (from to_ref ref_type relation : String) (id : String) (k : String × Bool)
    (m m' : Memory) : Type 0 where
  pub edge : ClaimEdge
  pub named : k.0 ≡ edge.id
  pub stands : find_edge from to_ref ref_type relation m' ≡ some edge
  pub claims_same : m'.claims ≡ m.claims
  pub apart : ((ref_type == "claim") && (to_ref == from)) ≡ false
  pub how :
      ((k.1 ≡ true) × (m' ≡ m))
      ⊎ ((k.1 ≡ false)
          × (k.0 ≡ id)
          × (find_edge from to_ref ref_type relation m ≡ none)
          × (m'.edges ≡ m.edges ++ edge ∷ []))

first-append_new :
    {A : Type 0} (p : A → Bool) (xs : List A) (x : A)
    → first p xs ≡ none
    → p x ≡ true
    → first p (xs ++ x ∷ []) ≡ some x
first-append_new p [] x h k = rw k refl
first-append_new p (y ∷ xs) x h k = ground (arith, first-append_new p xs x)

edge_of_id :
    (from : String) (source : Option String) (id now : String) (e : Spec) (m : Memory)
    {edge : ClaimEdge} {m' : Memory}
    → edge_of from source id now e m ≡ (ok edge, m')
    → edge.id ≡ id
unfolding edge_of
edge_of_id from source id now e m h = ground arith

module _ (from to_ref ref_type relation : String) (source_id : Option String) (id now : String)
    (m : Memory) where
  written-Related :
      {k : String × Bool} {m' : Memory}
      → run from to_ref ref_type relation source_id id now m m ≡ (ok k, m')
      → find_edge from to_ref ref_type relation m ≡ none
      → Related from to_ref ref_type relation id k m m'
  unfolding find_edge
  written-Related {k} {m'} h missing =
      let (edge, u, made, written, named) =
        relate-written from to_ref ref_type relation source_id id now m h missing in
      let g =
        Grown-written from source_id (λ _. id) now 0
          (dict from to_ref ref_type relation source_id id now m) m
          (relate_from from to_ref ref_type relation source_id id now m h)
          (relate_passed from to_ref ref_type relation source_id id now m h) made written in
      let rows = insert-eq edge_id edge m.edges (created_rows edge m written) in
      record {
        edge = edge;
        named =
            ap (λ p. p.0) named
            ∙ sym (
                edge_of_id from source_id id now
                  (dict from to_ref ref_type relation source_id id now m) m made);
        stands =
            subst (λ es. first (same_edge from to_ref ref_type relation) es ≡ some edge) (sym rows)
              (first-append_new (same_edge from to_ref ref_type relation) m.edges edge missing (
                made_same_edge from source_id id now
                  (dict from to_ref ref_type relation source_id id now m) m made));
        claims_same = g.claims_same;
        apart = relate_apart from to_ref ref_type relation source_id id now m h;
        how = inr (ap (λ p. p.1) named, ap (λ p. p.0) named, missing, rows);
      }

  relate_Related :
      {k : String × Bool} {m' : Memory}
      → run from to_ref ref_type relation source_id id now m m ≡ (ok k, m')
      → Related from to_ref ref_type relation id k m m'
  relate_Related {k} {m'} h = elim (Option-cases (find_edge from to_ref ref_type relation m)) [
    | inl missing ↦ written-Related h missing
    | inr (e, found) ↦
        let (answer, same) =
          relate-found from to_ref ref_type relation source_id id now m e h found in
        record {
          edge = e;
          named = ap (λ p. p.0) answer;
          stands = subst (λ z. find_edge from to_ref ref_type relation z ≡ some e) (sym same) found;
          claims_same = ap (λ z. z.claims) same;
          apart = relate_apart from to_ref ref_type relation source_id id now m h;
          how = inl (ap (λ p. p.1) answer, same);
        }
  ]
