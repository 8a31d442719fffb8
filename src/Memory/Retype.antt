-- ===== src/Memory/Retype.antt =====
-- `_retype_misfiled_external_edges`, which runs on every open:
-- ml-scientist/src/ml_anamnesis_mcp/state/store.py.
use labloop.Prelude.{
  String, ◌≡◌, ◌∙◌, refl, sym, ap, Bool, true, false, not, ◌&&◌, Option, none, some, List, [], ◌∷◌,
  map, All, all, any, arith, ◌==◌, string_eq, if◌then◌else◌, Option-cases, Bool-cases, inl, inr,
  is_some,
}
use labloop.Strings.{like_prefix}
use labloop.Memory.Models.{ClaimEdge, RefType, ref_type_value, internal_ref_prefixes}
use labloop.Memory.Store.{Memory}

abbrev Prefixes : Type 0
Prefixes = List (String × RefType × List RefType)

-- `ref_type = 'external'`
unfoldable pub is_external : RefType → Bool
is_external t = ref_type_value t == "external"

-- `UPDATE claim_edges SET ref_type = ? WHERE ref_type = 'external' AND to_ref LIKE ?`, on a row
unfoldable pub refile : String → RefType → ClaimEdge → ClaimEdge
refile prefix t e =
    if is_external e.ref_type && like_prefix prefix e.to_ref then record e { ref_type = t } else e

refile_all : Prefixes → List ClaimEdge → List ClaimEdge
unfolding refile
refile_all [] es = es
refile_all ((prefix, t, ts) ∷ ps) es = refile_all ps (map (refile prefix t) es)

unfoldable pub retype_misfiled_external_edges : Memory → Memory
unfolding refile_all
retype_misfiled_external_edges m = record m { edges = refile_all internal_ref_prefixes m.edges }

-- The first of the types of the first prefix that the id carries, in any case of its letters
unfoldable pub honest_type : Prefixes → String → Option RefType
honest_type [] to_ref = none
honest_type ((prefix, t, ts) ∷ ps) to_ref =
    if like_prefix prefix to_ref then some t else honest_type ps to_ref

unfoldable pub retyped : ClaimEdge → ClaimEdge
retyped e =
    if is_external e.ref_type
    then elim (honest_type internal_ref_prefixes e.to_ref) [
      | none ↦ e
      | some t ↦ record e { ref_type = t }
    ]
    else e

retyped_by : Prefixes → ClaimEdge → ClaimEdge
retyped_by ps e =
    if is_external e.ref_type
    then elim (honest_type ps e.to_ref) [ none ↦ e | some t ↦ record e { ref_type = t } ]
    else e

Internal : Prefixes → Type 0
Internal ps = All (λ entry. is_external entry.1 ≡ false) ps

all-Internal : (ps : Prefixes) → all (λ entry. not (is_external entry.1)) ps ≡ true → Internal ps
unfolding Internal
all-Internal [] h = tt
all-Internal (entry ∷ ps) h = (ground arith, all-Internal ps (ground arith))

internal_ref_prefixes-Internal : Internal internal_ref_prefixes
unfolding is_external ref_type_value
internal_ref_prefixes-Internal = all-Internal internal_ref_prefixes refl

retyped_by-refile :
    (prefix : String) (t : RefType) (ts : List RefType) (ps : Prefixes) (e : ClaimEdge)
    → is_external t ≡ false
    → retyped_by ps (refile prefix t e) ≡ retyped_by ((prefix, t, ts) ∷ ps) e
unfolding retyped_by refile honest_type
retyped_by-refile prefix t ts ps e h =
    elim (Bool-cases (is_external e.ref_type && like_prefix prefix e.to_ref)) [
      | inl moved ↦ ground arith
      | inr kept ↦ ground arith
    ]

map-map :
    {A : Type 0} (f g h : A → A) (xs : List A)
    → ((x : A) → f (g x) ≡ h x)
    → map f (map g xs) ≡ map h xs
map-map f g h [] e = refl
map-map f g h (x ∷ xs) e = ground (arith, e x, map-map f g h xs e)

map_id : {A : Type 0} (f : A → A) (xs : List A) → ((x : A) → f x ≡ x) → map f xs ≡ xs
map_id f [] e = refl
map_id f (x ∷ xs) e = ground (arith, e x, map_id f xs e)

retyped_by_none : (e : ClaimEdge) → retyped_by [] e ≡ e
unfolding retyped_by honest_type
retyped_by_none e = ground arith

refile_all-retyped_by :
    (ps : Prefixes) (es : List ClaimEdge) → Internal ps → refile_all ps es ≡ map (retyped_by ps) es
unfolding refile_all Internal
refile_all-retyped_by [] es h = sym (map_id (retyped_by []) es retyped_by_none)
refile_all-retyped_by ((prefix, t, ts) ∷ ps) es h =
    refile_all-retyped_by ps (map (refile prefix t) es) h.1
    ∙ map-map (retyped_by ps) (refile prefix t) (retyped_by ((prefix, t, ts) ∷ ps)) es
        (λ e. retyped_by-refile prefix t ts ps e h.0)

-- The updates, one for each prefix over the whole table, amount to one pass that gives each external
-- edge the first type of the first prefix that its target carries, and leaves every other edge
-- and the claims as they are.
pub retype-map :
    (m : Memory) → retype_misfiled_external_edges m ≡ record m { edges = map retyped m.edges }
unfolding retype_misfiled_external_edges retyped retyped_by
retype-map m =
    ap (λ es. record m { edges = es })
      (refile_all-retyped_by internal_ref_prefixes m.edges internal_ref_prefixes-Internal)

honest_type-Internal :
    (ps : Prefixes) (to_ref : String) {t : RefType}
    → Internal ps
    → honest_type ps to_ref ≡ some t
    → is_external t ≡ false
unfolding honest_type Internal
honest_type-Internal [] to_ref h e = cc
honest_type-Internal ((prefix, u, ts) ∷ ps) to_ref {t} h e =
    elim (Bool-cases (like_prefix prefix to_ref)) [
      | inl carried ↦ ground arith
      | inr other ↦ honest_type-Internal ps to_ref h.1 (ground arith)
    ]

-- The edge is external and carries an internal prefix in some case of its letters.
unfoldable pub is_misfiled : ClaimEdge → Bool
is_misfiled e = is_external e.ref_type && is_some (honest_type internal_ref_prefixes e.to_ref)

retyped-filed : (e : ClaimEdge) → is_misfiled (retyped e) ≡ false
unfolding is_misfiled retyped
retyped-filed e = elim (Option-cases (honest_type internal_ref_prefixes e.to_ref)) [
  | inl none_carried ↦ ground arith
  | inr (t, carried) ↦ ground (
    arith,
    honest_type-Internal internal_ref_prefixes e.to_ref internal_ref_prefixes-Internal carried,
  )
]

retyped_filed : (e : ClaimEdge) → is_misfiled e ≡ false → retyped e ≡ e
unfolding is_misfiled retyped
retyped_filed e h = elim (Option-cases (honest_type internal_ref_prefixes e.to_ref)) [
  | inl none_carried ↦ ground arith
  | inr (t, carried) ↦ ground arith
]

any-map-retyped : (es : List ClaimEdge) → any is_misfiled (map retyped es) ≡ false
any-map-retyped [] = refl
any-map-retyped (e ∷ es) = ground (arith, retyped-filed e, any-map-retyped es)

-- After `_retype_misfiled_external_edges` no edge of the table is misfiled, and a second run, as
-- on the next open, changes nothing.
pub retype-settles :
    (m : Memory)
    → (any is_misfiled (retype_misfiled_external_edges m).edges ≡ false)
      × (retype_misfiled_external_edges (retype_misfiled_external_edges m)
          ≡ retype_misfiled_external_edges m)
retype-settles m = (
  ap (λ z. any is_misfiled z.edges) (retype-map m) ∙ any-map-retyped m.edges,
  retype-map (retype_misfiled_external_edges m)
      ∙ ap {A = Memory} (λ z. record z { edges = map retyped z.edges }) (retype-map m)
      ∙ ap {A = List ClaimEdge} (λ es. record m { edges = es })
          (map-map retyped retyped retyped m.edges
            (λ e. retyped_filed (retyped e) (retyped-filed e)))
      ∙ sym (retype-map m),
)
