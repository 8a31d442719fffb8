-- ===== src/Memory/Relate/Outcome.antt =====
-- The outcomes of `relate`.
use labloop.Prelude.{
  ℕ, String, ◌≡◌, ◌∙◌, sym, ap, Bool, true, Option, some, [], ◌∷◌, arith, Option-cases, inl, inr,
  ◌⊎◌, string_eq,
}
use mathlib.Core.Path.{subst}
use labloop.Exec.{Result, ok, err, outcome-cases}
use labloop.Memory.Models.{ClaimEdge}
use labloop.Memory.Store.{Memory, Error, get_claim, find_edge}
use labloop.Memory.Checks.{check_edge_valid}
use labloop.Memory.Claims.{relate}
use labloop.Memory.Sound.{WellFormed}
use labloop.Memory.Loops.{Grown-written}
use labloop.Memory.Keeps.{Grown-WellFormed}
use labloop.Memory.Relate.{
  dict, relate-same, relate_passed, relate_from, relate-found, relate-written, Related,
  relate_Related,
}

module _ (from to_ref ref_type relation : String) (source_id : Option String) (id now : String)
    (m : Memory) where
  done-WellFormed :
      (one : ℕ) {k : String × Bool} {m' : Memory}
      → relate from to_ref ref_type relation source_id id now m ≡ (ok k, m')
      → WellFormed one m
      → WellFormed one m'
  done-WellFormed one {k} {m'} h w =
      elim (Option-cases (find_edge from to_ref ref_type relation m)) [
        | inl missing ↦
            let (edge, u, made, written, named) =
              relate-written from to_ref ref_type relation source_id id now m h missing in
            Grown-WellFormed one from (dict from to_ref ref_type relation source_id id now m ∷ []) m
              m'
              (Grown-written from source_id (λ _. id) now 0
                (dict from to_ref ref_type relation source_id id now m) m
                (relate_from from to_ref ref_type relation source_id id now m h)
                (relate_passed from to_ref ref_type relation source_id id now m h) made written)
              w
        | inr (e, found) ↦
            subst (WellFormed one)
              (sym (relate-found from to_ref ref_type relation source_id id now m e h found).1) w
      ]

  -- Whatever `relate` answers, the graph is well formed after it if it was before.
  pub relate-WellFormed :
      (one : ℕ) {r : Result Error (String × Bool)} {m' : Memory}
      → relate from to_ref ref_type relation source_id id now m ≡ (r, m')
      → WellFormed one m
      → WellFormed one m'
  relate-WellFormed one {r} {m'} h w =
      elim (outcome-cases (relate from to_ref ref_type relation source_id id now m)) [
        | inr (e, m₁, failed) ↦
            subst (WellFormed one)
              (sym (
                ap (λ p. p.1) (sym h)
                ∙ ap (λ p. p.1) failed
                ∙ relate-same from to_ref ref_type relation source_id id now m failed))
              w
        | inl (k, m₁, done) ↦
            subst (WellFormed one) (ap (λ p. p.1) (sym done) ∙ ap (λ p. p.1) h)
              (done-WellFormed one done w)
      ]

  -- `relate` either reports an error and leaves the graph as it was, or names the edge that a
  -- search for these ends and this relation finds in the graph after it: one that was there, and
  -- then nothing has changed, or a new last row with the minted id. The claims stay as they are,
  -- and a claim-typed edge does not lead from a claim to itself.
  pub relate-outcome :
      ((k : String × Bool) × (m' : Memory) × (relate from to_ref ref_type relation source_id id now
            m
          ≡ (ok k, m'))
        × Related from to_ref ref_type relation id k m m')
      ⊎ ((e : Error) × (relate from to_ref ref_type relation source_id id now m ≡ (err e, m)))
  relate-outcome = elim (outcome-cases (relate from to_ref ref_type relation source_id id now m)) [
    | inr (e, m', refused) ↦ inr (
      e,
      refused
          ∙ ap (λ z. (err e, z))
              (relate-same from to_ref ref_type relation source_id id now m refused),
    )
    | inl (k, m', done) ↦
        inl (k, m', done, relate_Related from to_ref ref_type relation source_id id now m done)
  ]

  relate_known :
      (source : Option String) (i n : String) {k : String × Bool} {m' : Memory} (e : ClaimEdge)
      → relate from to_ref ref_type relation source_id id now m ≡ (ok k, m')
      → m'.claims ≡ m.claims
      → find_edge from to_ref ref_type relation m' ≡ some e
      → relate from to_ref ref_type relation source i n m' ≡ (ok (e.id, true), m')
  unfolding relate check_edge_valid get_claim
  relate_known source i n e h same found = ground arith

  -- A call of `relate` that was answered can be repeated: the repetition, from any source, names
  -- the same edge and changes nothing.
  pub relate-again :
      {k : String × Bool} {m' : Memory}
      → relate from to_ref ref_type relation source_id id now m ≡ (ok k, m')
      → (source : Option String) (i n : String)
      → relate from to_ref ref_type relation source i n m' ≡ (ok (k.0, true), m')
  relate-again {k} {m'} h source i n =
      let d = relate_Related from to_ref ref_type relation source_id id now m h in
      relate_known source i n d.edge h d.claims_same d.stands
      ∙ ap (λ j. (ok (j, true), m')) (sym d.named)
