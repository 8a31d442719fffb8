-- ===== src/Memory/Loops/Attach.antt =====
-- The loop of a deduplicated assertion.
use labloop.Prelude.{
  ℕ, suc, String, ◌≡◌, refl, sym, true, Option, none, some, List, [], ◌∷◌, is_some, All, arith,
  string_eq, Option-cases, inl, inr, ◌⊎◌, append_nil,
}
use mathlib.Core.Path.{subst}
use labloop.Exec.{ok, outcome-cases}
use labloop.Table.{fetch}
use labloop.Memory.Models.{ClaimEdge}
use labloop.Memory.Store.{Memory, claim_id, create_edge, find_edge, same_edge}
use labloop.Memory.Evidence.{Spec, check_spec, edge_of, attach_edges, default}
use labloop.Memory.Steps.{made_same, complete, present}
use labloop.Memory.Loops.{
  Grown, Grown-none, Grown-cons, first-any, any-first, Grown-written, All_check-claims,
}

module _ (from : String) (source : Option String) (ids : ℕ → String) (now : String) where
  -- The steps of `attach_edges`

  Attached : ℕ → Spec → List Spec → Memory → Memory → Type 0
  Attached i e es m m' =
      ((k : List String × ℕ) × (present from m.edges e ≡ true)
        × (attach_edges from source ids now (suc i) es m ≡ (ok k, m')))
      ⊎ ((edge : ClaimEdge) × (m₁ : Memory) × (u : Unit {0}) × (k : List String × ℕ) × (edge_of from
              source (ids i) now e m
            ≡ (ok edge, m))
          × (create_edge edge m ≡ (ok u, m₁))
          × (attach_edges from source ids now (suc i) es m₁ ≡ (ok k, m')))

  attach_complete :
      (i : ℕ) (e : Spec) (es : List Spec) (m : Memory) {out : List String × ℕ} {m' : Memory}
      → attach_edges from source ids now i (e ∷ es) m ≡ (ok out, m')
      → complete e ≡ true
  unfolding attach_edges
  attach_complete i e es m h = ground arith

  found_edge : Spec → Memory → Option ClaimEdge
  found_edge e m =
      find_edge from (default "" e.to_ref) (default "" e.ref_type) (default "" e.relation) m

  attach-found :
      (i : ℕ) (e : Spec) (es : List Spec) (m : Memory) {d : ClaimEdge} {out : List String × ℕ}
      {m' : Memory}
      → found_edge e m ≡ some d
      → attach_edges from source ids now i (e ∷ es) m ≡ (ok out, m')
      → (k : List String × ℕ) × (attach_edges from source ids now (suc i) es m ≡ (ok k, m'))
  unfolding attach_edges found_edge
  attach-found i e es m found h =
      elim (outcome-cases (attach_edges from source ids now (suc i) es m)) [
        | inr (x, m₀, failed) ↦ absurd (ground arith)
        | inl (k, m₀, run) ↦ (k, ground arith)
      ]

  attach-new :
      (i : ℕ) (e : Spec) (es : List Spec) (m : Memory) {out : List String × ℕ} {m' : Memory}
      → found_edge e m ≡ none
      → attach_edges from source ids now i (e ∷ es) m ≡ (ok out, m')
      → (edge : ClaimEdge) × (m₁ : Memory) × (u : Unit {0}) × (k : List String × ℕ) × (edge_of from
            source
            (ids i)
            now
            e
            m
          ≡ (ok edge, m))
        × (create_edge edge m ≡ (ok u, m₁))
        × (attach_edges from source ids now (suc i) es m₁ ≡ (ok k, m'))
  unfolding attach_edges found_edge
  attach-new i e es m {out} {m'} missing h =
      elim (outcome-cases (edge_of from source (ids i) now e m)) [
        | inr (x, m₀, failed) ↦ absurd (ground arith)
        | inl (edge, m₀, made) ↦ elim (outcome-cases (create_edge edge m)) [
          | inr (x, m₁, failed) ↦
              absurd (ground (arith, made_same from source (ids i) now e m made))
          | inl (u, m₁, written) ↦
              elim (outcome-cases (attach_edges from source ids now (suc i) es m₁)) [
                | inr (x, m₂, failed) ↦
                    absurd (ground (arith, made_same from source (ids i) now e m made))
                | inl (k, m₂, run) ↦ (
                  edge,
                  m₁,
                  u,
                  k,
                  ground (arith, made_same from source (ids i) now e m made),
                  written,
                  ground (arith, made_same from source (ids i) now e m made),
                )
              ]
        ]
      ]

  found-present :
      (e : Spec) (m : Memory) {d : ClaimEdge}
      → complete e ≡ true
      → found_edge e m ≡ some d
      → present from m.edges e ≡ true
  unfolding found_edge find_edge
  found-present e m whole found = ground (
    arith,
    first-any (same_edge from (default "" e.to_ref) (default "" e.ref_type) (default "" e.relation))
        m.edges found,
  )

  present-found :
      (e : Spec) (m : Memory)
      → present from m.edges e ≡ true
      → (d : ClaimEdge) × (found_edge e m ≡ some d)
  unfolding found_edge find_edge
  present-found e m there =
      any-first
        (same_edge from (default "" e.to_ref) (default "" e.ref_type) (default "" e.relation))
        m.edges (ground arith)

  attach-Attached :
      (i : ℕ) (e : Spec) (es : List Spec) (m : Memory) {out : List String × ℕ} {m' : Memory}
      → attach_edges from source ids now i (e ∷ es) m ≡ (ok out, m')
      → Attached i e es m m'
  unfolding Attached
  attach-Attached i e es m h = elim (Option-cases (found_edge e m)) [
    | inl missing ↦ inr (attach-new i e es m missing h)
    | inr (d, found) ↦
        let (k, run) = attach-found i e es m found h in
        inl (k, found-present e m (attach_complete i e es m h) found, run)
  ]

  Grown-present : (e : Spec) (m : Memory) → present from m.edges e ≡ true → Grown from (e ∷ []) m m
  Grown-present e m there = record {
    claims_same = refl;
    added = [];
    edges_eq = sym (append_nil m.edges);
    ids = λ h. h;
    sound = λ h. h;
    placed = (there, tt);
  }

  pub attach_edges-Grown :
      (i : ℕ) (es : List Spec) (m : Memory) {out : List String × ℕ} {m' : Memory}
      → is_some (fetch claim_id from m.claims) ≡ true
      → All (λ e. check_spec e m ≡ none) es
      → attach_edges from source ids now i es m ≡ (ok out, m')
      → Grown from es m m'
  unfolding Attached attach_edges
  attach_edges-Grown i [] m {out} {m'} there passed h =
      subst (Grown from [] m) (ground arith) (Grown-none from m)
  attach_edges-Grown i (e ∷ es) m {out} {m'} there passed h = elim (attach-Attached i e es m h) [
    | inl (k, held, run) ↦
        Grown-cons from e es m m m' (Grown-present e m held)
          (attach_edges-Grown (suc i) es m there passed.1 run)
    | inr (edge, m₁, u, k, made, written, run) ↦
        let g = Grown-written from source ids now i e m there passed.0 made written in
        Grown-cons from e es m m₁ m' g (
          attach_edges-Grown (suc i) es m₁
            (subst (λ cs. is_some (fetch claim_id from cs) ≡ true) (sym g.claims_same) there)
            (All_check-claims from source ids now es m m₁ g.claims_same passed.1) run)
  ]

  attach_over :
      (i : ℕ) (e : Spec) (es : List Spec) (m : Memory) {d : ClaimEdge} {out : List String}
      → complete e ≡ true
      → found_edge e m ≡ some d
      → attach_edges from source ids now (suc i) es m ≡ (ok (out, 0), m)
      → attach_edges from source ids now i (e ∷ es) m ≡ (ok (d.id ∷ out, 0), m)
  unfolding attach_edges found_edge
  attach_over i e es m whole found run = ground arith

  present_complete : (xs : List ClaimEdge) (e : Spec) → present from xs e ≡ true → complete e ≡ true
  present_complete xs e h = ground arith

  -- Where the edges of all dicts are there, nothing is written.
  pub attach_edges-present :
      (i : ℕ) (es : List Spec) (m : Memory)
      → All (λ e. present from m.edges e ≡ true) es
      → (out : List String) × (attach_edges from source ids now i es m ≡ (ok (out, 0), m))
  unfolding attach_edges
  attach_edges-present i [] m h = ([], refl)
  attach_edges-present i (e ∷ es) m h =
      let (out, run) = attach_edges-present (suc i) es m h.1 in
      let (d, found) = present-found e m h.0 in
      (d.id ∷ out, attach_over i e es m (present_complete m.edges e h.0) found run)
