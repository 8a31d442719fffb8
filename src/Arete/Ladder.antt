-- ===== src/Arete/Ladder.antt =====
-- The outcomes of `record_meta_decision`.
pub mod Outcome
use labloop.Prelude.{
  ℕ, ◌≢◌, String, ◌≡◌, ◌∙◌, refl, sym, ap, Bool, true, false, Option, none, some, [], ◌∷◌, ◌++◌,
  arith, Bool-cases, inl, inr, ◌⊎◌, Option-cases,
}
use mathlib.Core.Path.{subst}
use labloop.Exec.{Result, ok, err, outcome-cases}
use labloop.Rungs.{rung_at_least, rung_for_2lnbf}
use labloop.Table.{insert}
use labloop.Arete.Models.{ImproverVersion, MetaContract, Tournament, TournamentStatus, MetaDecision}
use labloop.Arete.Store.{
  Lab, Error, get_improver, get_meta_contract, get_tournament, create_meta_decision,
  rung_below_declared, rung_above_ceiling,
}
use labloop.Arete.Checks.{
  check_decision_inputs, check_decision_evidence, check_promote_authority, is_promote, involves,
}
use labloop.Arete.Verdicts.{
  Verdict, promote_authority, declared_rung, check_at_least, check_claimed, cited_tournament,
  computed_rung, ceiling_rung, check_ceiling, decision_of, record_meta_decision, decision_gates,
  contract_rung, tournament_rung,
}

-- The claimed rung reaches the declared one.
abbrev pub Reaches : Option String → Option String → Type 0
Reaches none claimed = Unit
Reaches (some declared) none = ⊥
Reaches (some declared) (some claimed) = rung_at_least claimed declared ≡ some true

-- The claimed rung does not exceed the ceiling.
abbrev pub Within : Option String → Option String → Type 0
Within none ceiling = Unit
Within (some claimed) none = Unit
Within (some claimed) (some ceiling) = rung_at_least ceiling claimed ≡ some true

-- The declared rung is the one of the contract that the decision names.
abbrev pub DeclaredBy : Option String → Option String → Lab → Type 0
DeclaredBy none declared l = declared ≡ none
DeclaredBy (some id) declared l =
    (c : MetaContract) × (get_meta_contract id l ≡ some c) × (declared ≡ c.min_evidence_rung)

abbrev pub MeasuredAs : Option ℕ → Option String → Type 0
MeasuredAs none computed = computed ≡ none
MeasuredAs (some value) computed = computed ≡ some (rung_for_2lnbf value)

-- The computed rung is that of the value measured in the tournament that the decision names, which
-- involves the candidate and is not voided.
abbrev pub MeasuredBy : String → Option String → Option String → Lab → Type 0
MeasuredBy candidate none computed l = computed ≡ none
MeasuredBy candidate (some id) computed l =
    (t : Tournament) × (get_tournament id l ≡ some t)
    × (involves candidate t ≡ true)
    × (t.status ≢ TournamentStatus.voided)
    × MeasuredAs t.bf_2ln computed

-- What a promotion has passed besides
pub record Promoted (candidate : ImproverVersion) (v : Verdict) (d : MetaDecision) (l : Lab)
    : Type 0 where
  pub authority : check_promote_authority candidate v.decided_by l ≡ none
  pub reaches : Reaches d.declared_rung d.claimed_rung
  pub within : Within d.claimed_rung (ceiling_rung d.computed_rung d.declared_rung)

-- What a recorded decision has passed, and the row that it left.
pub record Recorded (v : Verdict) (d : MetaDecision) (l l' : Lab) : Type 0 where
  pub candidate : ImproverVersion
  pub candidate_found : get_improver v.candidate l ≡ some candidate
  pub inputs : check_decision_inputs v.rationale v.decided_by v.evidence_refs ≡ none
  pub evidence : check_decision_evidence v.candidate v.evidence_refs l ≡ none
  pub made : d ≡ decision_of v d.declared_rung d.computed_rung
  pub declared : DeclaredBy v.contract_id d.declared_rung l
  pub computed : MeasuredBy v.candidate v.tournament_id d.computed_rung l
  pub promotes : (is_promote v.verdict ≡ false) ⊎ Promoted candidate v d l
  pub row : l' ≡ record l { decisions = l.decisions ++ d ∷ [] }

ok_inj : {d d' : MetaDecision} → ◌≡◌ {A = Result Error MetaDecision} (ok d) (ok d') → d ≡ d'
ok_inj h = ground arith

at_least : (a b : String) (e : Error) → check_at_least a b e ≡ none → rung_at_least a b ≡ some true
unfolding check_at_least
at_least a b e h = elim (Option-cases (rung_at_least a b)) [
  | inl unknown ↦ absurd (ground arith)
  | inr (r, reached) ↦ elim (Bool-cases r) [
    | inl yes' ↦ ground arith
    | inr no' ↦ absurd (ground arith)
  ]
]

check_claimed-Reaches :
    (declared claimed : Option String)
    → check_claimed true declared claimed ≡ none
    → Reaches declared claimed
unfolding check_claimed
check_claimed-Reaches none claimed h = tt
check_claimed-Reaches (some s) none h = absurd (ground arith)
check_claimed-Reaches (some s) (some c) h = at_least c s rung_below_declared h

check_ceiling-Within :
    (claimed ceiling : Option String)
    → check_ceiling true claimed ceiling ≡ none
    → Within claimed ceiling
unfolding check_ceiling
check_ceiling-Within none ceiling h = tt
check_ceiling-Within (some x) none h = tt
check_ceiling-Within (some x) (some y) h = at_least y x rung_above_ceiling h

declared_rung-DeclaredBy :
    (contract : Option String) (l : Lab) {declared : Option String} {l' : Lab}
    → declared_rung contract l ≡ (ok declared, l')
    → DeclaredBy contract declared l
unfolding declared_rung
declared_rung-DeclaredBy none l h = ground arith
declared_rung-DeclaredBy (some id) l h = elim (Option-cases (get_meta_contract id l)) [
  | inl missing ↦ absurd (ground arith)
  | inr (c, found) ↦ (c, found, ground arith)
]

computed_rung-MeasuredAs : (t : Tournament) → MeasuredAs t.bf_2ln (computed_rung (some t))
unfolding computed_rung
computed_rung-MeasuredAs t = elim (Option-cases t.bf_2ln) [
  | inl absent ↦ rw absent refl
  | inr (value, measured) ↦ rw measured refl
]

cited_tournament-MeasuredBy :
    (candidate : String) (tournament : Option String) (l : Lab) {t : Option Tournament} {l' : Lab}
    → cited_tournament candidate tournament l ≡ (ok t, l')
    → MeasuredBy candidate tournament (computed_rung t) l
unfolding cited_tournament
cited_tournament-MeasuredBy candidate none l h =
    subst (λ t. computed_rung t ≡ none) (cited_none h) (unfold computed_rung in refl)
  where
    cited_none :
        {t : Option Tournament} {l' : Lab}
        → ◌≡◌ {A = Result Error (Option Tournament) × Lab} (ok none, l) (ok t, l')
        → none ≡ t
    cited_none e = ground arith
cited_tournament-MeasuredBy candidate (some id) l h = elim (Option-cases (get_tournament id l)) [
  | inl missing ↦ absurd (ground arith)
  | inr (t, found) ↦ (
    t,
    found,
    ground arith,
    ground arith,
    subst (λ x. MeasuredAs t.bf_2ln (computed_rung x)) (ground arith) (computed_rung-MeasuredAs t),
  )
]

module _ (v : Verdict) (l : Lab) where
  gates-same : {r : Result Error ImproverVersion} {l' : Lab} → decision_gates v l ≡ (r, l') → l' ≡ l
  unfolding decision_gates
  gates-same h = ground arith

  contract-same :
      {r : Result Error (Option String)} {l' : Lab} → contract_rung v l ≡ (r, l') → l' ≡ l
  unfolding contract_rung declared_rung
  contract-same h = elim (Option-cases v.contract_id) [
    | inl absent ↦ ground arith
    | inr (c, given) ↦ ground arith
  ]

  tournament-same :
      (declared : Option String) {r : Result Error (Option String)} {l' : Lab}
      → tournament_rung v declared l ≡ (r, l')
      → l' ≡ l
  unfolding tournament_rung cited_tournament
  tournament-same declared h = elim (Option-cases v.tournament_id) [
    | inl absent ↦ ground arith
    | inr (c, given) ↦ ground arith
  ]

  create-same :
      (d : MetaDecision) {e : Error} {l' : Lab} → create_meta_decision d l ≡ (err e, l') → l' ≡ l
  unfolding create_meta_decision
  create-same d h = ground arith

  created_row :
      (d : MetaDecision) {u : Unit {0}} {l' : Lab}
      → create_meta_decision d l ≡ (ok u, l')
      → l' ≡ record l { decisions = l.decisions ++ d ∷ [] }
  unfolding create_meta_decision insert
  created_row d h = ground arith

  -- The parts that a recorded decision has passed.
  Passed : MetaDecision → Lab → Type 0
  Passed d l' =
      (c : ImproverVersion) × (declared : Option String) × (computed : Option String) × (u : Unit
        {0})
      × (decision_gates v l ≡ (ok c, l))
      × (contract_rung v l ≡ (ok declared, l))
      × (tournament_rung v declared l ≡ (ok computed, l))
      × (create_meta_decision (decision_of v declared computed) l ≡ (ok u, l'))
      × (d ≡ decision_of v declared computed)

  record-cases :
      {r : Result Error MetaDecision} {l' : Lab}
      → record_meta_decision v l ≡ (r, l')
      → ((e : Error) × (r ≡ err e) × (l' ≡ l)) ⊎ ((d : MetaDecision) × (r ≡ ok d) × Passed d l')
  unfolding record_meta_decision Passed
  record-cases {r} {l'} h = elim (outcome-cases (decision_gates v l)) [
    | inr (e, l₀, failed) ↦ inl (e, ground arith, ground (arith, gates-same failed))
    | inl (c, l₀, gated) ↦ elim (outcome-cases (contract_rung v l)) [
      | inr (e, l₁, failed) ↦ inl (
        e,
        ground (arith, gates-same gated),
        ground (arith, gates-same gated, contract-same failed),
      )
      | inl (declared, l₁, read) ↦ elim (outcome-cases (tournament_rung v declared l)) [
        | inr (e, l₂, failed) ↦ inl (
          e,
          ground (arith, gates-same gated, contract-same read),
          ground (arith, gates-same gated, contract-same read, tournament-same declared failed),
        )
        | inl (computed, l₂, cited) ↦
            let d = decision_of v declared computed in
            elim (outcome-cases (create_meta_decision d l)) [
              | inr (e, l₃, failed) ↦ inl (
                e,
                ground
                    (arith, gates-same gated, contract-same read, tournament-same declared cited),
                ground (
                  arith,
                  gates-same gated,
                  contract-same read,
                  tournament-same declared cited,
                  create-same d failed,
                ),
              )
              | inl (u, l₃, written) ↦ inr (
                d,
                ground
                    (arith, gates-same gated, contract-same read, tournament-same declared cited),
                (
                  c,
                  declared,
                  computed,
                  u,
                  ground (arith, gates-same gated),
                  ground (arith, contract-same read),
                  ground (arith, tournament-same declared cited),
                  ground
                      (arith, gates-same gated, contract-same read, tournament-same declared cited),
                  refl,
                ),
              )
            ]
      ]
    ]
  ]
