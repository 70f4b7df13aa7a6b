-- ===== src/Json/Tests.antt =====
-- The canonical form of a concrete value.
use ai_native_content_agency.Prelude.{◌≡◌}
use ai_native_content_agency.Prelude.Int.{pos}
use ai_native_content_agency.Json.{Value, enum, number, dict, field, end, to_primitive}
use ai_native_content_agency.Json.Canonical.{IsCanonical, to_primitive-IsCanonical}

-- Keys out of order, and an enum member.
abbrev unsorted : Value
unsorted = dict (field "status" (enum "running") (field "cost" (number (pos 3)) end))

to_primitive-IsCanonical_example :
    IsCanonical (to_primitive unsorted)
    × (to_primitive (to_primitive unsorted) ≡ to_primitive unsorted)
to_primitive-IsCanonical_example = to_primitive-IsCanonical unsorted
