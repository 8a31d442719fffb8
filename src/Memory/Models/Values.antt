-- ===== src/Memory/Models/Values.antt =====
-- The values of the enums RefType and Relation.
use labloop.Prelude.{String, ◌≡◌, refl, some, List, [], ◌∷◌, arith, eq_iff, string_eq}
use labloop.Memory.Models.{
  RefType, Relation, ref_type_value, relation_value, ref_type_of, relation_of, find_ref_type,
  find_relation, ref_types, relations,
}

pub ref_type_of-value : (t : RefType) → ref_type_of (ref_type_value t) ≡ some t
unfolding ref_type_of ref_type_value find_ref_type
ref_type_of-value RefType.claim = refl
ref_type_of-value RefType.trial = refl
ref_type_of-value RefType.observation = refl
ref_type_of-value RefType.conclusion = refl
ref_type_of-value RefType.programme = refl
ref_type_of-value RefType.investigation = refl
ref_type_of-value RefType.finding = refl
ref_type_of-value RefType.archive = refl
ref_type_of-value RefType.improver = refl
ref_type_of-value RefType.tournament = refl
ref_type_of-value RefType.tournament_result = refl
ref_type_of-value RefType.proposal = refl
ref_type_of-value RefType.meta_contract = refl
ref_type_of-value RefType.meta_decision = refl
ref_type_of-value RefType.policy_version = refl
ref_type_of-value RefType.canary_deployment = refl
ref_type_of-value RefType.candidate = refl
ref_type_of-value RefType.contract = refl
ref_type_of-value RefType.decision = refl
ref_type_of-value RefType.bundle = refl
ref_type_of-value RefType.dataref = refl
ref_type_of-value RefType.reference = refl
ref_type_of-value RefType.hypothesis = refl
ref_type_of-value RefType.evidence_ref = refl
ref_type_of-value RefType.campaign = refl
ref_type_of-value RefType.campaign_spawn = refl
ref_type_of-value RefType.external = refl

pub relation_of-value : (r : Relation) → relation_of (relation_value r) ≡ some r
unfolding relation_of relation_value find_relation
relation_of-value Relation.supports = refl
relation_of-value Relation.contradicts = refl
relation_of-value Relation.derived_from = refl
relation_of-value Relation.tested_by = refl
relation_of-value Relation.valid_under = refl
relation_of-value Relation.supersedes = refl
relation_of-value Relation.generalizes = refl
relation_of-value Relation.specializes = refl
relation_of-value Relation.similar_to = refl
relation_of-value Relation.failed_because = refl
relation_of-value Relation.cites = refl

find_ref_type-value :
    (v : String) (ts : List RefType) {t : RefType}
    → find_ref_type v ts ≡ some t
    → ref_type_value t ≡ v
unfolding find_ref_type
find_ref_type-value v [] h = cc
find_ref_type-value v (s ∷ ts) {t} h =
    ground (arith, find_ref_type-value v ts {t = t}, eq_iff (ref_type_value s) v)

find_relation-value :
    (v : String) (rs : List Relation) {r : Relation}
    → find_relation v rs ≡ some r
    → relation_value r ≡ v
unfolding find_relation
find_relation-value v [] h = cc
find_relation-value v (s ∷ rs) {r} h =
    ground (arith, find_relation-value v rs {r = r}, eq_iff (relation_value s) v)

pub value-ref_type_of : (v : String) {t : RefType} → ref_type_of v ≡ some t → ref_type_value t ≡ v
unfolding ref_type_of
value-ref_type_of v h = find_ref_type-value v ref_types h

pub value-relation_of : (v : String) {r : Relation} → relation_of v ≡ some r → relation_value r ≡ v
unfolding relation_of
value-relation_of v h = find_relation-value v relations h

pub ref_type_of_claim : ref_type_of "claim" ≡ some RefType.claim
unfolding ref_type_value
ref_type_of_claim = ref_type_of-value RefType.claim

pub relation_of_supersedes : relation_of "supersedes" ≡ some Relation.supersedes
unfolding relation_value
relation_of_supersedes = relation_of-value Relation.supersedes
