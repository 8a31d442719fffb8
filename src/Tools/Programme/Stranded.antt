-- ===== src/Tools/Programme/Stranded.antt =====
-- `conclude_hypothesis` on a hypothesis that is not under test, where every gate passes.
use labloop.Prelude.{
  String, ◌≡◌, ◌≢◌, refl, Bool, true, none, some, List, [], ◌∷◌, ◌++◌, arith, ◌==◌, string_eq,
  eq_iff, filter, filter-append, any,
}
use labloop.Exec.{ok, err}
use labloop.Table.{insert, fetch}
use labloop.Models.{Hypothesis, HypothesisStatus, Verdict, Conclusion, programme_status_eq}
use labloop.Models.New.{new_conclusion}
use labloop.Store.State.{State, illegal_transition, duplicate_conclusion, conclusion_id}
use labloop.Store.Rows.{get_programme, get_hypothesis, list_conclusions, create_conclusion}
use labloop.Commitments.{
  check_programme_active, check_hypothesis_in_programme, check_duplicate_conclusion,
}
use labloop.Tools.Programme.{conclude_gates, conclude_hypothesis}
use labloop.Tools.Programme.Grounds.{Concludable, gates-Concludable}
use labloop.Tools.Programme.Conclude.{with_conclusion, verdict-refused}

any-append_one :
    {A : Type 0} (p : A → Bool) (xs : List A) (x : A) → p x ≡ true → any p (xs ++ x ∷ []) ≡ true
any-append_one p [] x h = ground arith
any-append_one p (y ∷ xs) x h = ground (arith, any-append_one p xs x h)

module _ (programme hypothesis : String) (s : State) where
  -- The conclusion of the programme about the hypothesis is then found.
  duplicate-found :
      (c : Conclusion)
      → c.programme_id ≡ programme
      → c.hypothesis_id ≡ hypothesis
      → check_duplicate_conclusion programme hypothesis (with_conclusion c s)
        ≡ some duplicate_conclusion
  unfolding check_duplicate_conclusion list_conclusions
  duplicate-found c mine about =
      rw (filter-append (λ x. x.programme_id == programme) s.conclusions (c ∷ [])) (
        rw ((eq_iff c.programme_id programme).1 mine) (
          rw
            (any-append_one (λ x. x.hypothesis_id == hypothesis)
              (filter (λ x. x.programme_id == programme) s.conclusions) c
              ((eq_iff c.hypothesis_id hypothesis).1 about))
            refl))

  -- The gates before that of the duplicates do not read the conclusions.
  gates-duplicate :
      Concludable programme hypothesis s
      → (c : Conclusion) → c.programme_id ≡ programme
      → c.hypothesis_id ≡ hypothesis
      → conclude_gates programme hypothesis (with_conclusion c s)
        ≡ (err duplicate_conclusion, with_conclusion c s)
  unfolding conclude_gates check_programme_active check_hypothesis_in_programme get_programme
      get_hypothesis
  gates-duplicate able c mine about = ground (
    arith,
    able.hypothesis_found,
    able.programme_found,
    duplicate-found c mine about,
    eq_iff able.h.programme_id programme,
  )

  module _ (verdict : Verdict) (summary id now : String) where
    abbrev row : Conclusion
    row = new_conclusion programme hypothesis verdict summary id now

    created :
        Concludable programme hypothesis s
        → fetch conclusion_id id s.conclusions ≡ none
        → create_conclusion row s ≡ (ok tt, with_conclusion row s)
    unfolding create_conclusion insert
    created able fresh = ground (arith, able.hypothesis_found, able.programme_found)

    -- Where all gates of `conclude_hypothesis` pass for a hypothesis that is not under test and the
    -- id is new, the call reports an illegal transition but leaves its conclusion in the store, and
    -- every later call about the hypothesis is refused as a duplicate.
    pub conclude-strands :
        (h : Hypothesis)
        → conclude_gates programme hypothesis s ≡ (ok tt, s)
        → get_hypothesis hypothesis s ≡ some h
        → h.status ≢ HypothesisStatus.under_test
        → fetch conclusion_id id s.conclusions ≡ none
        → (conclude_hypothesis programme hypothesis verdict summary id now s
            ≡ (err illegal_transition, with_conclusion row s))
          × ((verdict' : Verdict) (summary' id' now' : String)
              → conclude_hypothesis programme hypothesis verdict' summary' id' now'
                  (with_conclusion row s)
                ≡ (err duplicate_conclusion, with_conclusion row s))
    unfolding conclude_hypothesis
    conclude-strands h passed found apart fresh =
        let able : Concludable programme hypothesis s =
          gates-Concludable programme hypothesis s passed in
        (
          ground (
            arith,
            created able fresh,
            verdict-refused hypothesis verdict (with_conclusion row s) h
                (unfold get_hypothesis in found) apart,
          ),
          λ verdict' summary' id' now'. ground (arith, gates-duplicate able row refl refl),
        )
