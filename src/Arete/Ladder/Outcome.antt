-- ===== src/Arete/Ladder/Outcome.antt =====
-- The outcomes of `record_meta_decision`.
use labloop.Prelude.{
  Bool-cases, String, ◌≡◌, ◌∙◌, refl, sym, ap, true, false, Option, none, some, arith, inl, inr,
  ◌⊎◌,
}
use mathlib.Core.Path.{subst}
use labloop.Exec.{ok, err, outcome-cases}
use labloop.Arete.Models.{ImproverVersion, MetaDecision}
use labloop.Arete.Store.{Lab, Error, get_improver}
use labloop.Arete.Checks.{
  check_decision_inputs, check_decision_evidence, check_promote_authority, is_promote,
}
use labloop.Arete.Verdicts.{
  Verdict, promote_authority, declared_rung, check_claimed, cited_tournament, ceiling_rung,
  check_ceiling, decision_of, record_meta_decision, decision_gates, contract_rung, tournament_rung,
}
use labloop.Arete.Ladder.{
  Recorded, DeclaredBy, MeasuredBy, declared_rung-DeclaredBy, cited_tournament-MeasuredBy, ok_inj,
  check_claimed-Reaches, check_ceiling-Within, Promoted, created_row, Passed, record-cases,
}

module _ (v : Verdict) (l : Lab) where
  gated_candidate :
      {c : ImproverVersion} → decision_gates v l ≡ (ok c, l) → get_improver v.candidate l ≡ some c
  unfolding decision_gates
  gated_candidate h = ground arith

  gated_inputs :
      {c : ImproverVersion}
      → decision_gates v l ≡ (ok c, l)
      → check_decision_inputs v.rationale v.decided_by v.evidence_refs ≡ none
  unfolding decision_gates
  gated_inputs h = ground arith

  gated_evidence :
      {c : ImproverVersion}
      → decision_gates v l ≡ (ok c, l)
      → check_decision_evidence v.candidate v.evidence_refs l ≡ none
  unfolding decision_gates
  gated_evidence h = ground arith

  pub gated_authority :
      {c : ImproverVersion}
      → decision_gates v l ≡ (ok c, l)
      → is_promote v.verdict ≡ true
      → check_promote_authority c v.decided_by l ≡ none
  unfolding decision_gates promote_authority
  gated_authority h promoted = ground arith

  contract_claimed :
      {declared : Option String}
      → contract_rung v l ≡ (ok declared, l)
      → check_claimed (is_promote v.verdict) declared v.claimed_rung ≡ none
  unfolding contract_rung
  contract_claimed {declared} h = elim (outcome-cases (declared_rung v.contract_id l)) [
    | inr (e, l₀, failed) ↦ absurd (ground arith)
    | inl (r, l₀, read) ↦ ground arith
  ]

  contract_declared :
      {declared : Option String}
      → contract_rung v l ≡ (ok declared, l)
      → DeclaredBy v.contract_id declared l
  unfolding contract_rung
  contract_declared {declared} h = elim (outcome-cases (declared_rung v.contract_id l)) [
    | inr (e, l₀, failed) ↦ absurd (ground arith)
    | inl (r, l₀, read) ↦
        subst (λ x. DeclaredBy v.contract_id x l) (ground arith)
          (declared_rung-DeclaredBy v.contract_id l read)
  ]

  tournament_measured :
      (declared : Option String) {computed : Option String}
      → tournament_rung v declared l ≡ (ok computed, l)
      → MeasuredBy v.candidate v.tournament_id computed l
  unfolding tournament_rung
  tournament_measured declared {computed} h =
      elim (outcome-cases (cited_tournament v.candidate v.tournament_id l)) [
        | inr (e, l₀, failed) ↦ absurd (ground arith)
        | inl (t, l₀, cited) ↦
            subst (λ x. MeasuredBy v.candidate v.tournament_id x l) (ground arith)
              (cited_tournament-MeasuredBy v.candidate v.tournament_id l cited)
      ]

  tournament_ceiling :
      (declared : Option String) {computed : Option String}
      → tournament_rung v declared l ≡ (ok computed, l)
      → check_ceiling (is_promote v.verdict) v.claimed_rung (ceiling_rung computed declared) ≡ none
  unfolding tournament_rung
  tournament_ceiling declared {computed} h =
      elim (outcome-cases (cited_tournament v.candidate v.tournament_id l)) [
        | inr (e, l₀, failed) ↦ absurd (ground arith)
        | inl (t, l₀, cited) ↦ ground arith
      ]

  promotes :
      {c : ImproverVersion} {declared computed : Option String}
      → decision_gates v l ≡ (ok c, l)
      → contract_rung v l ≡ (ok declared, l)
      → tournament_rung v declared l ≡ (ok computed, l)
      → (is_promote v.verdict ≡ false) ⊎ Promoted c v (decision_of v declared computed) l
  promotes {c} {declared} {computed} gated read cited = elim (Bool-cases (is_promote v.verdict)) [
    | inr other ↦ inl other
    | inl promoted ↦ inr (record {
      authority = gated_authority gated promoted;
      reaches = check_claimed-Reaches declared v.claimed_rung (
          subst (λ p. check_claimed p declared v.claimed_rung ≡ none) promoted
            (contract_claimed read));
      within = check_ceiling-Within v.claimed_rung (ceiling_rung computed declared) (
          subst (λ p. check_ceiling p v.claimed_rung (ceiling_rung computed declared) ≡ none)
            promoted (tournament_ceiling declared cited));
    })
  ]

  Passed-Recorded : {d : MetaDecision} {l' : Lab} → Passed v l d l' → Recorded v d l l'
  unfolding Passed ceiling_rung
  Passed-Recorded {d} {l'} (c, declared, computed, u, gated, read, cited, written, eq) =
      subst (λ x. Recorded v x l l') (sym eq)
        (record {
          candidate = c;
          candidate_found = gated_candidate gated;
          inputs = gated_inputs gated;
          evidence = gated_evidence gated;
          made = refl;
          declared = contract_declared read;
          computed = tournament_measured declared cited;
          promotes = promotes gated read cited;
          row = created_row v l (decision_of v declared computed) written;
        })

  -- `record_meta_decision` either reports an error and leaves the store as it was, or adds one
  -- decision, made of the parameters, and changes nothing else. The decision then has a rationale, a
  -- decider and evidence of the candidate's own line; its declared rung is the one of the contract
  -- that it names, or none, and its computed rung that of the value measured in the tournament that
  -- it names, which involves the candidate and is not voided, or none; and for a promotion the decider has the authority, the claimed
  -- rung reaches the rung that the contract declares, and it does not exceed the rung that the
  -- tournament measured, or the declared one where nothing was measured.
  pub record_meta_decision-outcome :
      ((d : MetaDecision) × (l' : Lab) × (record_meta_decision v l ≡ (ok d, l'))
        × Recorded v d l l')
      ⊎ ((e : Error) × (record_meta_decision v l ≡ (err e, l)))
  record_meta_decision-outcome = elim (outcome-cases (record_meta_decision v l)) [
    | inr (e, l', refused) ↦ elim (record-cases v l refused) [
      | inl (x, same, kept) ↦ inr (e, refused ∙ ap (λ z. (err e, z)) kept)
      | inr (d, impossible, passed) ↦ absurd (ground arith)
    ]
    | inl (d, l', done) ↦ elim (record-cases v l done) [
      | inl (x, impossible, kept) ↦ absurd (ground arith)
      | inr (d', same, passed) ↦
          inl
            (d, l', done, Passed-Recorded (subst (λ z. Passed v l z l') (ok_inj (sym same)) passed))
    ]
  ]
