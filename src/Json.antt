-- ===== src/Json.antt =====
-- backend/agency_runtime/utils.py: runtime values, their canonical form, identifiers. A dict or
-- dataclass is its fields in order, a list or tuple its items. Sets and floats are not modelled.
pub mod Canonical
mod Tests
use ai_native_content_agency.Prelude.{ℕ, zero, suc, String, Bool, Option, none, some, ◌==◌, ◌||◌}
use ai_native_content_agency.Prelude.Tests.{if◌then◌else◌}
use ai_native_content_agency.Prelude.Int.{ℤ}
use ai_native_content_agency.Prelude.Text.{leb_str, is_empty, strip}
use Prim.Native.String.{◌++◌}

mutual
  pub data Value : Type 0 where
    null : Value
    boolean : Bool → Value
    number : ℤ → Value
    text : String → Value
    -- a member of a string-valued Enum
    enum : String → Value
    list : Items → Value
    dict : Fields → Value

  pub data Items : Type 0 where
    nil : Items
    cons : Value → Items → Items

  pub data Fields : Type 0 where
    end : Fields
    field : String → Value → Fields → Fields

-- `mapping.get(key)`
unfoldable pub get : String → Fields → Option Value
get k end = none
get k (field j v fs) = if j == k then some v else get k fs

-- `mapping[key] = value`; a new key goes last.
unfoldable pub put : String → Value → Fields → Fields
put k v end = field k v end
put k v (field j w fs) = if j == k then field j v fs else field j w (put k v fs)

-- The stable order of `sorted(value.items(), key=...)`, built from the right.
unfoldable pub insert_sorted : String → Value → Fields → Fields
insert_sorted k v end = field k v end
insert_sorted k v (field j w fs) =
    if leb_str k j then field k v (field j w fs) else field j w (insert_sorted k v fs)

unfoldable mutual
  unfolding insert_sorted

  pub to_primitive : Value → Value
  to_primitive null = null
  to_primitive (boolean b) = boolean b
  to_primitive (number n) = number n
  to_primitive (text s) = text s
  to_primitive (enum s) = text s
  to_primitive (list xs) = list (primitive_items xs)
  to_primitive (dict fs) = dict (primitive_fields fs)

  pub primitive_items : Items → Items
  primitive_items nil = nil
  primitive_items (cons x xs) = cons (to_primitive x) (primitive_items xs)

  pub primitive_fields : Fields → Fields
  primitive_fields end = end
  primitive_fields (field k v fs) = insert_sorted k (to_primitive v) (primitive_fields fs)

-- What the program takes from Python's libraries: `json.dumps` on sorted primitives, `json.loads`
-- (`none` where it raises) and the hexadecimal SHA-256 digest of a text's UTF-8 bytes.
pub record Platform : Type 0 where
  pub dumps : Value → String
  pub loads : String → Option Value
  pub sha256 : String → String

module _ (lib : Platform) where
  unfoldable pub canonical_json : Value → String
  unfolding to_primitive primitive_items primitive_fields
  canonical_json v = lib.dumps (to_primitive v)

-- `text[:n]`
unfoldable pub take_text : ℕ → String → String
take_text zero s = ""
take_text (suc n) String.[] = ""
take_text (suc n) (String.◌∷◌ c s) = String.◌∷◌ c (take_text n s)

module _ (lib : Platform) where
  unfoldable pub stable_id : String → Items → ℕ → String
  unfolding take_text canonical_json
  stable_id prefix values length =
      prefix ++ "-" ++ take_text length (lib.sha256 (canonical_json lib (list values)))

-- The test of `require_non_empty`, which raises where it holds.
unfoldable pub is_blank : String → Bool
unfolding strip
is_blank value = is_empty value || is_empty (strip value)
