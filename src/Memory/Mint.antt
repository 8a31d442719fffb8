-- ===== src/Memory/Mint.antt =====
-- What a mint leaves behind.
use labloop.Prelude.{
  ℕ, String, ◌≡◌, ◌∙◌, refl, sym, ap, Bool, true, Option, none, some, List, [], ◌∷◌, ◌++◌, is_some,
  All, All-append, arith, string_eq, All-left, All-right, All-map, ◌&&◌,
}
use mathlib.Core.Path.{subst}
use labloop.Exec.{ok}
use labloop.Json.{Fields}
use labloop.Table.{fetch, IsKeyed}
use labloop.Table.Laws.{insert-IsKeyed, append-IsKeyed}
use labloop.Memory.Models.{Claim, Basis}
use labloop.Memory.Store.{Memory, claim_id, claim_hash, edge_id, create_claim, get_claim, has_claim}
use labloop.Memory.Claims.{
  Outside, Assertion, Asserted, ground_confidence, new_claim, mint, content_hash,
}
use labloop.Memory.Evidence.{Spec, check_spec, check_evidence, supersedes_spec, mint_edges}
use labloop.Memory.Sound.{edge_ok, claim_ok, WellFormed}
use labloop.Memory.Steps.{present}
use labloop.Memory.Loops.{Grown, mint_edges-Grown}
use labloop.Memory.Keeps.{Covers, Covers-append, edge_ok-grow, claim_ok-grow, placed-supported}
use labloop.Memory.Minting.{
  created_row, created_edges, created_new_hash, created_superseded, created_list, created_found,
  check_spec-grow, check_evidence-All, supersedes_spec-passes, write_claim-steps,
  placed-succession_ok, evidenced, Steps, mint-Steps, new_superseded, new_hash, new_basis_ok,
}

-- The graph with the new claim, before its edges.

module _ (one : ℕ) (c : Claim) (m : Memory) {u : Unit {0}} {m₁ : Memory}
    (created : create_claim c m ≡ (ok u, m₁)) (w : WellFormed one m) where
  created_Covers : Covers m.claims m₁.claims
  created_Covers =
      subst (Covers m.claims) (sym (created_list c m created)) (Covers-append m.claims c)

  created_ids : IsKeyed claim_id m₁.claims
  created_ids = insert-IsKeyed claim_id c m.claims w.claim_ids (created_row c m created)

  created_hashes : IsKeyed claim_hash m₁.claims
  created_hashes =
      subst (IsKeyed claim_hash) (sym (created_list c m created))
        (append-IsKeyed claim_hash c m.claims w.hashes (created_new_hash c m created))

  created_edge_ids : IsKeyed edge_id m₁.edges
  created_edge_ids = subst (IsKeyed edge_id) (sym (created_edges c m created)) w.edge_ids

  created_edges_ok : All (λ e. edge_ok m₁.claims e ≡ true) m₁.edges
  created_edges_ok =
      subst (All (λ e. edge_ok m₁.claims e ≡ true)) (sym (created_edges c m created)) (
        All-map (λ e. edge_ok m.claims e ≡ true) (λ e. edge_ok m₁.claims e ≡ true) m.edges
          (λ e. edge_ok-grow m.claims m₁.claims e created_Covers) w.edges_ok)

  module _ (specs : List Spec) {m' : Memory} (g : Grown c.id specs m₁ m')
      (new_ok : claim_ok one m'.claims m'.edges c ≡ true) where
    minted_claims_ok : All (λ x. claim_ok one m'.claims m'.edges x ≡ true) m'.claims
    minted_claims_ok =
        subst (All (λ x. claim_ok one m'.claims m'.edges x ≡ true))
          (sym (g.claims_same ∙ created_list c m created))
          (All-append (λ x. claim_ok one m'.claims m'.edges x ≡ true) m.claims (c ∷ [])
            (subst (λ es. All (λ x. claim_ok one m'.claims es x ≡ true) m.claims)
              (sym (g.edges_eq ∙ ap (λ es. es ++ g.added) (created_edges c m created)))
              (subst (λ cs. All (λ x. claim_ok one cs (m.edges ++ g.added) x ≡ true) m.claims)
                (sym g.claims_same)
                (All-map (λ x. claim_ok one m.claims m.edges x ≡ true)
                  (λ x. claim_ok one m₁.claims (m.edges ++ g.added) x ≡ true) m.claims
                  (λ x. claim_ok-grow one m.claims m₁.claims m.edges g.added x created_Covers)
                  w.claims_ok)))
            (new_ok, tt))

    minted_WellFormed : WellFormed one m'
    minted_WellFormed = record {
      claim_ids = subst (IsKeyed claim_id) (sym g.claims_same) created_ids;
      hashes = subst (IsKeyed claim_hash) (sym g.claims_same) created_hashes;
      edge_ids = g.ids created_edge_ids;
      edges_ok =
          subst (λ cs. All (λ e. edge_ok cs e ≡ true) m'.edges) (sym g.claims_same)
            (g.sound created_edges_ok);
      claims_ok = minted_claims_ok;
    }

-- What a mint has done: one claim more, and the edges of its dicts.
pub record Minted (outside : Outside) (a : Assertion) (out : Asserted) (m m' : Memory)
    : Type 0 where
  pub c : Claim
  pub u : Unit {0}
  pub m₁ : Memory
  pub created : create_claim c m ≡ (ok u, m₁)
  pub named : out.claim_id ≡ c.id
  pub hashed : c.content_hash ≡ content_hash outside a.content
  pub fresh_hash : fetch claim_hash (content_hash outside a.content) m.claims ≡ none
  pub counted : out.edges_added ≡ none
  pub grown : Grown c.id (a.evidence ++ supersedes_spec a.supersedes_id) m₁ m'
  pub new_ok : claim_ok outside.one m'.claims m'.edges c ≡ true

both : {p q : Bool} → p ≡ true → q ≡ true → (p && q) ≡ true
both h k = ground arith

has_claim-record :
    (s : Option String) (m m' : Memory)
    → Covers m.claims m'.claims
    → has_claim s m ≡ true
    → has_claim s m' ≡ true
unfolding has_claim get_claim Covers
has_claim-record none m m' covers h = refl
has_claim-record (some id) m m' covers h = covers id h

created_there :
    (c : Claim) (m : Memory) {u : Unit {0}} {m₁ : Memory}
    → create_claim c m ≡ (ok u, m₁)
    → is_some (fetch claim_id c.id m₁.claims) ≡ true
created_there c m created = rw (created_found c m created) refl

module _ (outside : Outside) (a : Assertion) (from until : Option String) (m : Memory)
    (passed : check_evidence a.evidence m ≡ none) {m' : Memory} where
  written_Grown :
      (c : Claim) {u : Unit {0}} {m₁ : Memory} {ids : List String}
      → c.supersedes_id ≡ a.supersedes_id
      → create_claim c m ≡ (ok u, m₁)
      → mint_edges c.id a.source_id a.edge_ids a.now 0
          (a.evidence ++ supersedes_spec a.supersedes_id)
          m₁
        ≡ (ok ids, m')
      → Grown c.id (a.evidence ++ supersedes_spec a.supersedes_id) m₁ m'
  written_Grown c {u} {m₁} same created run =
      let covers =
        subst (Covers m.claims) (sym (created_list c m created)) (Covers-append m.claims c) in
      mint_edges-Grown c.id a.source_id a.edge_ids a.now 0
        (a.evidence ++ supersedes_spec a.supersedes_id) m₁ (created_there c m created)
        (All-append (λ e. check_spec e m₁ ≡ none) a.evidence (supersedes_spec a.supersedes_id)
          (All-map (λ e. check_spec e m ≡ none) (λ e. check_spec e m₁ ≡ none) a.evidence
            (λ e. check_spec-grow e m m₁ covers) (check_evidence-All a.evidence m passed))
          (supersedes_spec-passes a.supersedes_id m₁ (
            has_claim-record a.supersedes_id m m₁ covers
              (subst (λ s. has_claim s m ≡ true) same (created_superseded c m created)))))
        run

  written_ok :
      (g : Option ℕ × Basis × Option Fields) (c : Claim) {u : Unit {0}} {m₁ : Memory}
      → ground_confidence outside a.confidence_computation (evidenced outside a from until m) m
        ≡ (ok g, m)
      → new_claim outside a g from until m ≡ (ok c, m)
      → create_claim c m ≡ (ok u, m₁)
      → Grown c.id (a.evidence ++ supersedes_spec a.supersedes_id) m₁ m'
      → claim_ok outside.one m'.claims m'.edges c ≡ true
  unfolding evidenced
  written_ok g c {u} {m₁} grounded made created grown =
      let present_in = λ (e : Spec). present c.id m'.edges e ≡ true in
      let covers =
        subst (Covers m.claims) (sym (grown.claims_same ∙ created_list c m created))
          (Covers-append m.claims c) in
      both
        (new_basis_ok outside a from until m g c made m'.edges grounded (λ h.
          placed-supported c.id m'.edges a.evidence h
            (All-left present_in a.evidence (supersedes_spec a.supersedes_id) grown.placed)))
        (placed-succession_ok a.supersedes_id m'.claims m'.edges c
          (new_superseded outside a from until m g c made)
          (has_claim-record a.supersedes_id m (record { claims = m'.claims; edges = m'.edges })
            covers
            (subst (λ s. has_claim s m ≡ true) (new_superseded outside a from until m g c made)
              (created_superseded c m created)))
          (All-right present_in a.evidence (supersedes_spec a.supersedes_id) grown.placed))

  pub mint-Minted :
      {out : Asserted} → mint outside a from until m ≡ (ok out, m') → Minted outside a out m m'
  unfolding Steps
  mint-Minted {out} h =
      let (g, c, ids, grounded, made, written, named, counted) =
        mint-Steps outside a from until m h in
      let (u, m₁, created, run) = write_claim-steps a c m written in
      let grown = written_Grown c (new_superseded outside a from until m g c made) created run in
      record {
        c = c;
        u = u;
        m₁ = m₁;
        created = created;
        named = named;
        hashed = new_hash outside a from until m g c made;
        fresh_hash =
            subst (λ k. fetch claim_hash k m.claims ≡ none)
              (new_hash outside a from until m g c made) (created_new_hash c m created);
        counted = counted;
        grown = grown;
        new_ok = written_ok g c grounded made created grown;
      }

pub Minted-WellFormed :
    (outside : Outside) (a : Assertion) (out : Asserted) (m m' : Memory)
    → Minted outside a out m m'
    → WellFormed outside.one m
    → WellFormed outside.one m'
Minted-WellFormed outside a out m m' d w =
    minted_WellFormed outside.one d.c m d.created w (a.evidence ++ supersedes_spec a.supersedes_id)
      d.grown d.new_ok
