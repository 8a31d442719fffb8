-- ===== src/Memory/Loops.antt =====
-- The loops that write the edges of an assertion.
pub mod Attach
use labloop.Prelude.{
  ℕ, suc, String, ◌≡◌, ◌∙◌, refl, sym, ap, Bool, true, Option, none, some, List, [], ◌∷◌, ◌++◌, any,
  is_some, All, All-append, arith, string_eq, Option-cases, Bool-cases, inl, inr, ◌⊎◌, any-append,
  append_nil, append_assoc,
}
use mathlib.Core.Path.{subst}
use labloop.Exec.{ok, outcome-cases}
use labloop.Table.{fetch, IsKeyed}
use labloop.Table.Laws.{insert-eq, insert-IsKeyed}
use labloop.Memory.Models.{ClaimEdge}
use labloop.Memory.Store.{Memory, claim_id, edge_id, create_edge, find_edge, same_edge, first}
use labloop.Memory.Evidence.{Spec, check_spec, edge_of, mint_edges, attach_edges, default}
use labloop.Memory.Sound.{edge_ok}
use labloop.Memory.Steps.{
  created_claims, created_rows, made_same, made_ok, made_same_edge, made_complete, complete,
  present, check_spec-claims,
}

-- A graph that has grown by edges alone, among them those of the dicts.
pub record Grown (from : String) (specs : List Spec) (m m' : Memory) : Type 0 where
  pub claims_same : m'.claims ≡ m.claims
  pub added : List ClaimEdge
  pub edges_eq : m'.edges ≡ m.edges ++ added
  pub ids : IsKeyed edge_id m.edges → IsKeyed edge_id m'.edges
  pub sound :
      All (λ e. edge_ok m.claims e ≡ true) m.edges → All (λ e. edge_ok m.claims e ≡ true) m'.edges
  pub placed : All (λ e. present from m'.edges e ≡ true) specs

Grown-none : (from : String) (m : Memory) → Grown from [] m m
Grown-none from m = record {
  claims_same = refl;
  added = [];
  edges_eq = sym (append_nil m.edges);
  ids = λ h. h;
  sound = λ h. h;
  placed = tt;
}

present-append :
    (from : String) (es new : List ClaimEdge) (e : Spec)
    → present from es e ≡ true
    → present from (es ++ new) e ≡ true
present-append from es new e h = ground (
  arith,
  any-append (same_edge from (default "" e.to_ref) (default "" e.ref_type) (default "" e.relation))
      es new,
)

-- One more dict, whose edge is written or there already, before the others.
Grown-cons :
    (from : String) (e : Spec) (es : List Spec) (m m₁ m' : Memory)
    → Grown from (e ∷ []) m m₁
    → Grown from es m₁ m'
    → Grown from (e ∷ es) m m'
Grown-cons from e es m m₁ m' g h = record {
  claims_same = h.claims_same ∙ g.claims_same;
  added = g.added ++ h.added;
  edges_eq =
      h.edges_eq ∙ ap (λ xs. xs ++ h.added) g.edges_eq ∙ append_assoc m.edges g.added h.added;
  ids = λ k. h.ids (g.ids k);
  sound = λ k.
      subst (λ cs. All (λ x. edge_ok cs x ≡ true) m'.edges) g.claims_same
        (h.sound
          (subst (λ cs. All (λ x. edge_ok cs x ≡ true) m₁.edges) (sym g.claims_same) (g.sound k)));
  placed = (
    subst (λ xs. present from xs e ≡ true) (sym h.edges_eq)
        (present-append from m₁.edges h.added e g.placed.0),
    h.placed,
  );
}

first-any :
    {A : Type 0} (p : A → Bool) (xs : List A) {x : A} → first p xs ≡ some x → any p xs ≡ true
first-any p [] h = cc
first-any p (y ∷ xs) {x} h = ground (arith, first-any p xs {x = x})

any-first :
    {A : Type 0} (p : A → Bool) (xs : List A) → any p xs ≡ true → (x : A) × (first p xs ≡ some x)
any-first p [] h = cc
any-first p (y ∷ xs) h = elim (Bool-cases (p y)) [
  | inl holds ↦ (y, rw holds refl)
  | inr fails ↦ let (x, found) = any-first p xs (ground arith) in (x, rw fails found)
]

placed_last :
    (from : String) (source : Option String) (id now : String) (e : Spec) (m : Memory)
    {edge : ClaimEdge} {m₀ : Memory}
    → edge_of from source id now e m ≡ (ok edge, m₀)
    → (es : List ClaimEdge) → present from (es ++ edge ∷ []) e ≡ true
placed_last from source id now e m {edge} {m₀} made es = ground (
  arith,
  any-append (same_edge from (default "" e.to_ref) (default "" e.ref_type) (default "" e.relation))
      es (edge ∷ []),
  made_same_edge from source id now e m made,
  made_complete from source id now e m made,
)

module _ (from : String) (source : Option String) (ids : ℕ → String) (now : String) where
  -- An edge that is written.
  pub Grown-written :
      (i : ℕ) (e : Spec) (m : Memory) {edge : ClaimEdge} {m₀ m₁ : Memory} {u : Unit {0}}
      → is_some (fetch claim_id from m.claims) ≡ true
      → check_spec e m ≡ none
      → edge_of from source (ids i) now e m ≡ (ok edge, m₀)
      → create_edge edge m ≡ (ok u, m₁)
      → Grown from (e ∷ []) m m₁
  Grown-written i e m {edge} {m₀} {m₁} {u} there passed made written =
      let rows = created_rows edge m written in
      let eq = insert-eq edge_id edge m.edges rows in
      record {
        claims_same = created_claims edge m written;
        added = edge ∷ [];
        edges_eq = eq;
        ids = λ k. insert-IsKeyed edge_id edge m.edges k rows;
        sound = λ k. subst (All (λ x. edge_ok m.claims x ≡ true)) (sym eq) (
            All-append (λ x. edge_ok m.claims x ≡ true) m.edges (edge ∷ []) k
              (made_ok from source (ids i) now e m made passed there, tt));
        placed = (
          subst (λ xs. present from xs e ≡ true) (sym eq)
              (placed_last from source (ids i) now e m made m.edges),
          tt,
        );
      }

  -- The steps of `mint_edges`

  Minted : ℕ → Spec → List Spec → Memory → Memory → Type 0
  Minted i e es m m' =
      (edge : ClaimEdge) × (m₁ : Memory) × (u : Unit {0}) × (rest : List String) × (edge_of from
          source (ids i) now e m
        ≡ (ok edge, m))
      × (create_edge edge m ≡ (ok u, m₁))
      × (mint_edges from source ids now (suc i) es m₁ ≡ (ok rest, m'))

  mint-Minted :
      (i : ℕ) (e : Spec) (es : List Spec) (m : Memory) {out : List String} {m' : Memory}
      → mint_edges from source ids now i (e ∷ es) m ≡ (ok out, m')
      → Minted i e es m m'
  unfolding Minted mint_edges
  mint-Minted i e es m {out} {m'} h = elim (outcome-cases (edge_of from source (ids i) now e m)) [
    | inr (x, m₀, failed) ↦ absurd (ground arith)
    | inl (edge, m₀, made) ↦ elim (outcome-cases (create_edge edge m)) [
      | inr (x, m₁, failed) ↦ absurd (ground (arith, made_same from source (ids i) now e m made))
      | inl (u, m₁, written) ↦ elim (outcome-cases (mint_edges from source ids now (suc i) es m₁)) [
        | inr (x, m₂, failed) ↦ absurd (ground (arith, made_same from source (ids i) now e m made))
        | inl (rest, m₂, run) ↦ (
          edge,
          m₁,
          u,
          rest,
          ground (arith, made_same from source (ids i) now e m made),
          written,
          ground (arith, made_same from source (ids i) now e m made),
        )
      ]
    ]
  ]

  All_check-claims :
      (es : List Spec) (m m' : Memory)
      → m'.claims ≡ m.claims
      → All (λ e. check_spec e m ≡ none) es
      → All (λ e. check_spec e m' ≡ none) es
  All_check-claims [] m m' same h = tt
  All_check-claims (e ∷ es) m m' same h =
      (check_spec-claims e m m' same ∙ h.0, All_check-claims es m m' same h.1)

  pub mint_edges-Grown :
      (i : ℕ) (es : List Spec) (m : Memory) {out : List String} {m' : Memory}
      → is_some (fetch claim_id from m.claims) ≡ true
      → All (λ e. check_spec e m ≡ none) es
      → mint_edges from source ids now i es m ≡ (ok out, m')
      → Grown from es m m'
  unfolding Minted mint_edges
  mint_edges-Grown i [] m {out} {m'} there passed h =
      subst (Grown from [] m) (ground arith) (Grown-none from m)
  mint_edges-Grown i (e ∷ es) m {out} {m'} there passed h =
      let (edge, m₁, u, rest, made, written, run) = mint-Minted i e es m h in
      let g = Grown-written i e m there passed.0 made written in
      Grown-cons from e es m m₁ m' g (
        mint_edges-Grown (suc i) es m₁
          (subst (λ cs. is_some (fetch claim_id from cs) ≡ true) (sym g.claims_same) there)
          (All_check-claims es m m₁ g.claims_same passed.1) run)
