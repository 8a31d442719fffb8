-- ===== src/Memory/Checks.antt =====
-- The checks of ml-scientist/src/ml_anamnesis_mcp/enforcement/checks.py.
use labloop.Prelude.{String, Bool, Option, none, some, is_some, any, ◌==◌, string_eq, if◌then◌else◌}
use labloop.Strings.{starts_with}
use labloop.Memory.Models.{internal_ref_prefixes, relation_of, ref_type_of, claim_type_of}
use labloop.Memory.Store.{
  Memory, Error, get_claim, relation_invalid, ref_type_invalid, internal_filed_as_external,
  claim_type_invalid, superseded_not_found, claim_not_found, self_edge, to_ref_not_found,
}

unfoldable pub check_relation_valid : String → Option Error
check_relation_valid relation =
    if is_some (relation_of relation) then none else some relation_invalid

unfoldable pub check_ref_type_valid : String → Option Error
check_ref_type_valid ref_type =
    if is_some (ref_type_of ref_type) then none else some ref_type_invalid

-- `to_ref.startswith(prefix)` for some prefix of the table
unfoldable pub is_internal : String → Bool
is_internal to_ref = any (λ entry. starts_with entry.0 to_ref) internal_ref_prefixes

unfoldable pub check_ref_type_consistent : String → String → Option Error
check_ref_type_consistent to_ref ref_type =
    if ref_type == "external"
    then if is_internal to_ref then some internal_filed_as_external else none
    else none

unfoldable pub check_claim_type_valid : String → Option Error
check_claim_type_valid claim_type =
    if is_some (claim_type_of claim_type) then none else some claim_type_invalid

unfoldable pub check_supersedes_exists : Option String → Memory → Option Error
check_supersedes_exists none m = none
check_supersedes_exists (some id) m =
    if is_some (get_claim id m) then none else some superseded_not_found

unfoldable pub check_edge_valid : String → String → String → Memory → Option Error
check_edge_valid from to_ref ref_type m =
    if is_some (get_claim from m)
    then if ref_type == "claim"
      then if to_ref == from
        then some self_edge
        else if is_some (get_claim to_ref m)
        then none
        else some to_ref_not_found
      else none
    else some claim_not_found
