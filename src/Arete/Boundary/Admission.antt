-- ===== src/Arete/Boundary/Admission.antt =====
-- The admission of a proposal, by the components that it names.
use labloop.Prelude.{
  String, ◌≡◌, refl, Bool, true, false, not, none, some, List, filter, is_empty, arith, Bool-cases,
  inl, inr, ◌⊎◌,
}
use labloop.Json.{Json, Fields, end, field}
use labloop.Arete.Models.{ProposalStatus, Reason, immutable_touched}
use labloop.Arete.Boundary.{
  sorted, Class, is_immutable, needs_review, classify_component, classify_class_map,
  admission_verdict, names,
}

-- The component is a key of the map.
pub data Names (name : String) : Fields → Type 0 where
  named : {declared : Json} {rest : Fields} → Names name (field name declared rest)
  later :
      {other : String} {declared : Json} {rest : Fields}
      → Names name rest
      → Names name (field other declared rest)

-- Every key of the map has a class with the property.
abbrev pub Each : (Class → Bool) → Fields → Type 0
Each q end = Unit
Each q (field name declared rest) = (q (classify_component name) ≡ true) × Each q rest

abbrev pub Found : (Class → Bool) → Fields → Type 0
Found q m = (name : String) × Names name m × (q (classify_component name) ≡ true)

abbrev pub selected : (Class → Bool) → Fields → List (String × Class)
selected q m = filter (λ entry. q entry.1) (classify_class_map m)

pub search :
    (q : Class → Bool) (m : Fields)
    → (Found q m × (is_empty (selected q m) ≡ false))
      ⊎ (Each (λ k. not (q k)) m × (is_empty (selected q m) ≡ true))
unfolding classify_class_map
search q end = inr (tt, refl)
search q (field name declared rest) = elim (Bool-cases (q (classify_component name))) [
  | inl holds ↦ inl ((name, named, holds), ground arith)
  | inr fails ↦ elim (search q rest) [
    | inl ((other, at, holds), some_selected) ↦ inl ((other, later at, holds), ground arith)
    | inr (others, none_selected) ↦ inr ((ground arith, others), ground arith)
  ]
]

abbrev pub is_modifiable : Class → Bool
is_modifiable Class.modifiable = true
is_modifiable _ = false

Each-modifiable :
    (m : Fields)
    → Each (λ k. not (is_immutable k)) m
    → Each (λ k. not (needs_review k)) m
    → Each is_modifiable m
Each-modifiable end h k = tt
Each-modifiable (field name declared rest) h k =
    (rest_class (classify_component name) h.0 k.0, Each-modifiable rest h.1 k.1)
  where
    rest_class :
        (c : Class)
        → not (is_immutable c) ≡ true
        → not (needs_review c) ≡ true
        → is_modifiable c ≡ true
    rest_class Class.immutable a b = a
    rest_class Class.conditional a b = b
    rest_class Class.modifiable a b = refl
    rest_class Class.unknown a b = b

pub verdict_rejected :
    (m : Fields)
    → is_empty (selected is_immutable m) ≡ false
    → (r : Reason) × (admission_verdict (classify_class_map m) ≡ (ProposalStatus.rejected, some r))
unfolding admission_verdict
verdict_rejected m h = (immutable_touched (sorted (names (selected is_immutable m))), ground arith)

pub verdict_conditional :
    (m : Fields)
    → is_empty (selected is_immutable m) ≡ true
    → is_empty (selected needs_review m) ≡ false
    → admission_verdict (classify_class_map m) ≡ (ProposalStatus.conditional, none)
unfolding admission_verdict
verdict_conditional m h k = ground arith

verdict_admitted :
    (m : Fields)
    → is_empty (selected is_immutable m) ≡ true
    → is_empty (selected needs_review m) ≡ true
    → admission_verdict (classify_class_map m) ≡ (ProposalStatus.admitted, none)
unfolding admission_verdict
verdict_admitted m h k = ground arith

-- The admission gate, on the components that a class map names: a proposal that names an immutable
-- component is rejected, with a reason; one that names none, but a conditional or unknown one, is
-- conditional; and one that is admitted names modifiable components alone. What the map declares
-- for a component makes no difference.
pub admission-outcome :
    (m : Fields)
    → (((name : String) × Names name m × (is_immutable (classify_component name) ≡ true))
        × ((r : Reason) × (admission_verdict (classify_class_map m)
              ≡ (ProposalStatus.rejected, some r))))
      ⊎ (Each (λ k. not (is_immutable k)) m
          × ((name : String) × Names name m × (needs_review (classify_component name) ≡ true))
          × (admission_verdict (classify_class_map m) ≡ (ProposalStatus.conditional, none)))
      ⊎ (Each is_modifiable m
          × (admission_verdict (classify_class_map m) ≡ (ProposalStatus.admitted, none)))
admission-outcome m = elim (search is_immutable m) [
  | inl (touched, some_touched) ↦ inl (touched, verdict_rejected m some_touched)
  | inr (writable, none_touched) ↦ elim (search needs_review m) [
    | inl (flagged, some_flagged) ↦
        inr (inl (writable, flagged, verdict_conditional m none_touched some_flagged))
    | inr (reviewed, none_flagged) ↦
        inr
          (inr (Each-modifiable m writable reviewed, verdict_admitted m none_touched none_flagged))
  ]
]
