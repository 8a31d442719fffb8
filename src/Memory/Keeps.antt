-- ===== src/Memory/Keeps.antt =====
-- A well-formed graph that grows stays well formed.
use labloop.Prelude.{
  ℕ, String, ◌≡◌, sym, Bool, true, List, [], ◌∷◌, ◌++◌, any, is_some, All, arith, eq_iff, ◌==◌,
  string_eq, Option-cases, Bool-cases, inl, inr, any-append, All-map, ◌&&◌,
}
use mathlib.Core.Path.{subst}
use labloop.Table.{fetch, IsKeyed}
use labloop.Table.Laws.{fetch-append_one}
use labloop.Memory.Models.{Claim, ClaimEdge, is_evidence, relation_value}
use labloop.Memory.Models.Values.{relation_of-value}
use labloop.Memory.Store.{Memory, claim_id, claim_hash, same_edge}
use labloop.Memory.Evidence.{Spec, brings_evidence, default}
use labloop.Memory.Sound.{edge_ok, supported, basis_ok, succession_ok, claim_ok, WellFormed}
use labloop.Memory.Steps.{present}
use labloop.Memory.Loops.{Grown}

supported-append :
    (id : String) (es new : List ClaimEdge)
    → supported id es ≡ true
    → supported id (es ++ new) ≡ true
unfolding supported
supported-append id es new h =
    ground (arith, any-append (λ e. (e.from_claim == id) && is_evidence e.relation) es new)

basis_ok-append :
    (one : ℕ) (es new : List ClaimEdge) (c : Claim)
    → basis_ok one es c ≡ true
    → basis_ok one (es ++ new) c ≡ true
unfolding basis_ok
basis_ok-append one es new c h = ground (arith, supported-append c.id es new)

-- More claims, and more edges.
unfoldable pub Covers : List Claim → List Claim → Type 0
Covers cs cs' =
    (id : String) → is_some (fetch claim_id id cs) ≡ true → is_some (fetch claim_id id cs') ≡ true

succession_ok-grow :
    (cs cs' : List Claim) (es new : List ClaimEdge) (c : Claim)
    → Covers cs cs'
    → succession_ok cs es c ≡ true
    → succession_ok cs' (es ++ new) c ≡ true
unfolding succession_ok Covers
succession_ok-grow cs cs' es new c covers h = elim (Option-cases c.supersedes_id) [
  | inl alone ↦ ground arith
  | inr (id, old) ↦
      ground (arith, covers id, any-append (same_edge c.id id "claim" "supersedes") es new)
]

pub edge_ok-grow :
    (cs cs' : List Claim) (e : ClaimEdge)
    → Covers cs cs'
    → edge_ok cs e ≡ true
    → edge_ok cs' e ≡ true
unfolding edge_ok Covers
edge_ok-grow cs cs' e covers h = ground (arith, covers e.from_claim, covers e.to_ref)

pub claim_ok-grow :
    (one : ℕ) (cs cs' : List Claim) (es new : List ClaimEdge) (c : Claim)
    → Covers cs cs'
    → claim_ok one cs es c ≡ true
    → claim_ok one cs' (es ++ new) c ≡ true
claim_ok-grow one cs cs' es new c covers h =
    ground (arith, basis_ok-append one es new c, succession_ok-grow cs cs' es new c covers)

Covers-refl : (cs : List Claim) → Covers cs cs
unfolding Covers
Covers-refl cs id h = h

pub Covers-append : (cs : List Claim) (c : Claim) → Covers cs (cs ++ c ∷ [])
unfolding Covers
Covers-append cs c id h = ground (arith, fetch-append_one claim_id id cs c)

pub Grown-WellFormed :
    (one : ℕ) (from : String) (specs : List Spec) (m m' : Memory)
    → Grown from specs m m'
    → WellFormed one m
    → WellFormed one m'
Grown-WellFormed one from specs m m' g w = record {
  claim_ids = subst (IsKeyed claim_id) (sym g.claims_same) w.claim_ids;
  hashes = subst (IsKeyed claim_hash) (sym g.claims_same) w.hashes;
  edge_ids = g.ids w.edge_ids;
  edges_ok =
      subst (λ cs. All (λ e. edge_ok cs e ≡ true) m'.edges) (sym g.claims_same)
        (g.sound w.edges_ok);
  claims_ok =
      subst (λ cs. All (λ c. claim_ok one cs m'.edges c ≡ true) cs) (sym g.claims_same)
        (subst (λ es. All (λ c. claim_ok one m.claims es c ≡ true) m.claims) (sym g.edges_eq)
          (All-map (λ c. claim_ok one m.claims m.edges c ≡ true)
            (λ c. claim_ok one m.claims (m.edges ++ g.added) c ≡ true) m.claims
            (λ c. claim_ok-grow one m.claims m.claims m.edges g.added c (Covers-refl m.claims))
            w.claims_ok));
}

-- The evidence of a claim is there once the edges of its dicts are.

same-supports :
    (from : String) (e : Spec) (x : ClaimEdge)
    → brings_evidence e ≡ true
    → same_edge from (default "" e.to_ref) (default "" e.ref_type) (default "" e.relation) x ≡ true
    → ((x.from_claim == from) && is_evidence x.relation) ≡ true
unfolding brings_evidence
same-supports from e x brings same = ground (
  arith,
  relation_of-value x.relation,
  eq_iff (relation_value x.relation) (default "" e.relation),
)

any-map :
    {A : Type 0} (p q : A → Bool) (xs : List A)
    → ((x : A) → p x ≡ true → q x ≡ true)
    → any p xs ≡ true
    → any q xs ≡ true
any-map p q [] f h = cc
any-map p q (x ∷ xs) f h = ground (arith, f x, any-map p q xs f)

present-supported :
    (from : String) (es : List ClaimEdge) (e : Spec)
    → brings_evidence e ≡ true
    → present from es e ≡ true
    → supported from es ≡ true
unfolding supported
present-supported from es e brings there =
    any-map (same_edge from (default "" e.to_ref) (default "" e.ref_type) (default "" e.relation))
      (λ x. (x.from_claim == from) && is_evidence x.relation) es
      (λ x. same-supports from e x brings) (ground arith)

pub placed-supported :
    (from : String) (es : List ClaimEdge) (specs : List Spec)
    → any brings_evidence specs ≡ true
    → All (λ e. present from es e ≡ true) specs
    → supported from es ≡ true
placed-supported from es [] brings h = cc
placed-supported from es (e ∷ specs) brings h = elim (Bool-cases (brings_evidence e)) [
  | inl bears ↦ present-supported from es e bears h.0
  | inr bare ↦ placed-supported from es specs (ground arith) h.1
]
