-- ===== src/Arete/Governed.antt =====
-- propose_meta_change of ml_arete_mcp/tools/proposals.py together with register_improver and the
-- authority check of the decisions.
use labloop.Prelude.{
  Bool, String, ◌≡◌, ◌≢◌, ◌∙◌, refl, sym, Bool-cases, ap, true, false, not, Option, none, some,
  arith, eq_iff, string_eq, inl, inr,
}
use labloop.Exec.{ok, err, outcome-cases}
use labloop.Strings.{starts_with}
use labloop.Json.{Fields, field}
use labloop.Table.{insert}
use labloop.Table.Laws.{fetch-insert}
use labloop.Arete.Models.{ImproverVersion, MetaDecision, MetaChangeProposal, ProposalStatus}
use labloop.Arete.Store.{
  latest_decision, get_improver, Lab, Error, proposal_id, get_proposal, create_proposal,
  human_required, proposal_without_parent, proposal_not_implementable,
}
use mathlib.Core.Path.{subst}
use labloop.Arete.Checks.{check_promote_authority, is_promote, check_promote_allowed}
use labloop.Arete.Verdicts.{Verdict, record_meta_decision, decision_gates, promote_authority}
use labloop.Arete.Boundary.{
  Class, classify_component, is_immutable, needs_review, classify_class_map, admission_verdict,
}
use labloop.Arete.Boundary.Admission.{
  Names, named, later, Each, Found, search, verdict_rejected, verdict_conditional,
}
use labloop.Arete.Pointer.{register_improver, check_proposal, promote_policy}
use labloop.Arete.Moves.{register-same}
use labloop.Arete.Proposals.{Change, proposal_of, propose_meta_change}

module _ (c : Change) (l : Lab) {status : ProposalStatus} {l' : Lab}
    (proposed : propose_meta_change c l ≡ (ok status, l')) where
  proposed_row : insert proposal_id (proposal_of c) l.proposals ≡ some l'.proposals
  unfolding propose_meta_change create_proposal
  proposed_row = ground arith

  proposed_found : get_proposal c.id l' ≡ some (proposal_of c)
  unfolding get_proposal
  proposed_found = ground (
    arith,
    fetch-insert proposal_id c.id (proposal_of c) l.proposals proposed_row,
    eq_iff c.id c.id,
  )

-- The verdict of the gate, from what the map names

Found-Each : (q : Class → Bool) (m : Fields) → Found q m → Each (λ k. not (q k)) m → ⊥
Found-Each q m (name, at, holds) h = go name m at holds h
  where
    go :
        (name : String) (m : Fields)
        → Names name m
        → q (classify_component name) ≡ true
        → Each (λ k. not (q k)) m
        → ⊥
    go name _ named holds h = ground (arith, holds, h.0)
    go name (field _ _ rest) (later at) holds h = go name rest at holds h.1

touched_rejected :
    (m : Fields)
    → Found is_immutable m
    → (admission_verdict (classify_class_map m)).0 ≡ ProposalStatus.rejected
touched_rejected m found = elim (search is_immutable m) [
  | inl (touched, some_touched) ↦
      let (r, verdict) = verdict_rejected m some_touched in ap (λ v. v.0) verdict
  | inr (writable, none_touched) ↦ absurd (Found-Each is_immutable m found writable)
]

flagged_conditional :
    (m : Fields)
    → Each (λ k. not (is_immutable k)) m
    → Found needs_review m
    → (admission_verdict (classify_class_map m)).0 ≡ ProposalStatus.conditional
flagged_conditional m writable found = elim (search is_immutable m) [
  | inl (touched, some_touched) ↦ absurd (Found-Each is_immutable m touched writable)
  | inr (also, none_touched) ↦ elim (search needs_review m) [
    | inl (flagged, some_flagged) ↦ ap (λ v. v.0) (verdict_conditional m none_touched some_flagged)
    | inr (reviewed, none_flagged) ↦ absurd (Found-Each needs_review m found reviewed)
  ]
]

-- From the status of the stored proposal to the refusals

rejected_refused :
    (parent : Option String) (id : String) (p : MetaChangeProposal) (l : Lab)
    → get_proposal id l ≡ some p
    → p.status ≡ ProposalStatus.rejected
    → (e : Error) × (check_proposal parent (some id) l ≡ some e)
unfolding check_proposal
rejected_refused none id p l found h = (proposal_without_parent, refl)
rejected_refused (some parent) id p l found h = (proposal_not_implementable, ground arith)

register_refused :
    (i : ImproverVersion) (id : String) (l : Lab)
    → i.proposal_id ≡ some id
    → ((e : Error) × (check_proposal i.parent_id (some id) l ≡ some e))
    → (e : Error) × (register_improver i l ≡ (err e, l))
unfolding register_improver
register_refused i id l implements (e, refused) = elim (outcome-cases (register_improver i l)) [
  | inr (x, l', failed) ↦ (x, failed ∙ ap (λ z. (err x, z)) (register-same i l failed))
  | inl (b, l', done) ↦ absurd (ground arith)
]

human_asked :
    (candidate : ImproverVersion) (decided_by id : String) (p : MetaChangeProposal) (l : Lab)
    → candidate.proposal_id ≡ some id
    → id ≢ ""
    → get_proposal id l ≡ some p
    → p.status ≡ ProposalStatus.conditional
    → starts_with "human:" decided_by ≡ false
    → check_promote_authority candidate decided_by l ≡ some human_required
unfolding check_promote_authority
human_asked candidate decided_by id p l implements given found h agent =
    ground (arith, eq_iff id "")

module _ (c : Change) (l : Lab) {status : ProposalStatus} {l' : Lab}
    (proposed : propose_meta_change c l ≡ (ok status, l')) where
  -- After `propose_meta_change` has taken a proposal that names an immutable component,
  -- `register_improver` refuses every improver that claims to implement it, and writes nothing, in any
  -- store that holds the proposal as it is now.
  pub propose-immutable :
      Found is_immutable c.class_map
      → (store : Lab) (i : ImproverVersion) → get_proposal c.id store ≡ get_proposal c.id l'
      → i.proposal_id ≡ some c.id
      → (e : Error) × (register_improver i store ≡ (err e, store))
  propose-immutable found store i kept implements = register_refused i c.id store implements (
      rejected_refused i.parent_id c.id (proposal_of c) store (kept ∙ proposed_found c l proposed)
        (touched_rejected c.class_map found))

refused_silent : ◌≡◌ {A = Option Error} (some human_required) none → ⊥
refused_silent h = ground arith

-- Who stands behind a promotion: the decider of a promote decision that `record_meta_decision` has
-- recorded, or the decider of the latest decision on which `promote_policy` has moved the pointer.
pub data Promotes (candidate : String) (l : Lab) : String → Type 0 where
  decides :
      (v : Verdict) {d : MetaDecision} {l' : Lab}
      → v.candidate ≡ candidate
      → is_promote v.verdict ≡ true
      → record_meta_decision v l ≡ (ok d, l')
      → Promotes candidate l v.decided_by
  moves :
      (policy : Fields) (id now : String) {previous : Option String} {l' : Lab} (d : MetaDecision)
      → latest_decision candidate l ≡ some d
      → promote_policy candidate policy id now l ≡ (ok previous, l')
      → Promotes candidate l d.decided_by

promoted_authority :
    (candidate : String) (policy : Fields) (id now : String) (l : Lab) (c : ImproverVersion)
    (d : MetaDecision) {previous : Option String} {l' : Lab}
    → get_improver candidate l ≡ some c
    → latest_decision candidate l ≡ some d
    → promote_policy candidate policy id now l ≡ (ok previous, l')
    → check_promote_authority c d.decided_by l ≡ none
unfolding promote_policy check_promote_allowed
promoted_authority candidate policy id now l c d found latest done = ground arith

decided_authority :
    (v : Verdict) (l : Lab) (c : ImproverVersion) {d : MetaDecision} {l' : Lab}
    → get_improver v.candidate l ≡ some c
    → is_promote v.verdict ≡ true
    → record_meta_decision v l ≡ (ok d, l')
    → check_promote_authority c v.decided_by l ≡ none
unfolding record_meta_decision decision_gates promote_authority
decided_authority v l c found promotes done = ground arith

Promotes-authority :
    (candidate : String) (l : Lab) (c : ImproverVersion) {who : String}
    → get_improver candidate l ≡ some c
    → Promotes candidate l who
    → check_promote_authority c who l ≡ none
Promotes-authority candidate l c found (decides v same promotes done) =
    decided_authority v l c (subst (λ k. get_improver k l ≡ some c) (sym same) found) promotes done
Promotes-authority candidate l c found (moves policy id now d latest done) =
    promoted_authority candidate policy id now l c d found latest done

module _ (c : Change) (l : Lab) {status : ProposalStatus} {l' : Lab}
    (proposed : propose_meta_change c l ≡ (ok status, l')) where
  -- After `propose_meta_change` has taken a proposal that names no immutable component, but a
  -- conditional or an unknown one, and has an id that is not empty, only a decider with the prefix
  -- 'human:' stands behind the promotion of an improver that implements it, in any store that holds
  -- the proposal as it is now: whenever `record_meta_decision` records a promote decision on it, and
  -- whenever `promote_policy` promotes it on its latest decision.
  pub propose-conditional :
      Each (λ k. not (is_immutable k)) c.class_map
      → Found needs_review c.class_map
      → c.id ≢ ""
      → (store : Lab) (candidate : String) (i : ImproverVersion) {who : String}
      → get_proposal c.id store ≡ get_proposal c.id l'
      → get_improver candidate store ≡ some i
      → i.proposal_id ≡ some c.id
      → Promotes candidate store who
      → starts_with "human:" who ≡ true
  propose-conditional writable found given store candidate i {who} kept known implements promoted =
      elim (Bool-cases (starts_with "human:" who)) [
        | inl human ↦ human
        | inr agent ↦ absurd (
            refused_silent (
              sym (
                human_asked i who c.id (proposal_of c) store implements given
                  (kept ∙ proposed_found c l proposed)
                  (flagged_conditional c.class_map writable found) agent)
              ∙ Promotes-authority candidate store i known promoted))
      ]
