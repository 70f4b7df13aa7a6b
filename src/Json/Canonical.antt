-- ===== src/Json/Canonical.antt =====
-- The canonical form of backend/agency_runtime/utils.py: what it is, and taking it twice.
use ai_native_content_agency.Prelude.{
  ℕ, String, true, false, ◌≡◌, refl, List, [], ◌∷◌, arith, ap, ap₂, inl, inr,
}
use ai_native_content_agency.Prelude.Tests.{Bool-cases}
use ai_native_content_agency.Prelude.Text.{codes, leb_codes, leb_str}
use ai_native_content_agency.Json.{
  Value, Items, Fields, null, boolean, number, text, enum, list, dict, nil, cons, end, field,
  insert_sorted, to_primitive, primitive_items, primitive_fields,
}

leb_codes_total : (cs ds : List ℕ) → leb_codes cs ds ≡ false → leb_codes ds cs ≡ true
unfolding leb_codes
leb_codes_total [] ds h = ground arith
leb_codes_total (c ∷ cs) [] h = refl
leb_codes_total (c ∷ cs) (d ∷ ds) h = ground (arith, leb_codes_total cs ds)

leb_str_total : (s t : String) → leb_str s t ≡ false → leb_str t s ≡ true
unfolding leb_str
leb_str_total s t h = leb_codes_total (codes s) (codes t) h

-- The key may stand before the fields, and their keys are in order.
abbrev pub Precedes : String → Fields → Type 0
Precedes k end = Unit
Precedes k (field j v fs) = leb_str k j ≡ true

abbrev pub IsSorted : Fields → Type 0
IsSorted end = Unit
IsSorted (field k v fs) = Precedes k fs × IsSorted fs

insert_sorted-Precedes :
    (j k : String) (v : Value) (fs : Fields)
    → leb_str j k ≡ true
    → Precedes j fs
    → Precedes j (insert_sorted k v fs)
unfolding insert_sorted
insert_sorted-Precedes j k v end h p = h
insert_sorted-Precedes j k v (field i w fs) h p = elim (Bool-cases (leb_str k i)) [
  | inl before ↦ rw before h
  | inr after ↦ rw after p
]

insert_sorted-IsSorted :
    (k : String) (v : Value) (fs : Fields) → IsSorted fs → IsSorted (insert_sorted k v fs)
unfolding insert_sorted
insert_sorted-IsSorted k v end s = (tt, tt)
insert_sorted-IsSorted k v (field j w fs) s = elim (Bool-cases (leb_str k j)) [
  | inl before ↦ rw before (before, s)
  | inr after ↦ rw after (
    insert_sorted-Precedes j k v fs (leb_str_total k j after) s.0,
    insert_sorted-IsSorted k v fs s.1,
  )
]

insert_sorted_front :
    (k : String) (v : Value) (fs : Fields) → Precedes k fs → insert_sorted k v fs ≡ field k v fs
unfolding insert_sorted
insert_sorted_front k v end p = refl
insert_sorted_front k v (field j w fs) p = rw p

-- In canonical form: no enum member, and every dict in order.
mutual
  pub IsCanonical : Value → Type 0
  IsCanonical null = Unit
  IsCanonical (boolean b) = Unit
  IsCanonical (number n) = Unit
  IsCanonical (text s) = Unit
  IsCanonical (enum s) = ⊥
  IsCanonical (list xs) = ItemsCanonical xs
  IsCanonical (dict fs) = IsSorted fs × FieldsCanonical fs

  pub ItemsCanonical : Items → Type 0
  ItemsCanonical nil = Unit
  ItemsCanonical (cons x xs) = IsCanonical x × ItemsCanonical xs

  pub FieldsCanonical : Fields → Type 0
  FieldsCanonical end = Unit
  FieldsCanonical (field k v fs) = IsCanonical v × FieldsCanonical fs

insert_sorted-FieldsCanonical :
    (k : String) (v : Value) (fs : Fields)
    → IsCanonical v
    → FieldsCanonical fs
    → FieldsCanonical (insert_sorted k v fs)
unfolding insert_sorted FieldsCanonical
insert_sorted-FieldsCanonical k v end c cs = (c, tt)
insert_sorted-FieldsCanonical k v (field j w fs) c cs = elim (Bool-cases (leb_str k j)) [
  | inl before ↦ rw before (c, cs)
  | inr after ↦ rw after (cs.0, insert_sorted-FieldsCanonical k v fs c cs.1)
]

primitive_fields-IsSorted : (fs : Fields) → IsSorted (primitive_fields fs)
unfolding primitive_fields
primitive_fields-IsSorted end = tt
primitive_fields-IsSorted (field k v fs) =
    insert_sorted-IsSorted k (to_primitive v) (primitive_fields fs) (primitive_fields-IsSorted fs)

mutual
  unfolding to_primitive primitive_items primitive_fields IsCanonical ItemsCanonical FieldsCanonical

  value-IsCanonical : (v : Value) → IsCanonical (to_primitive v)
  value-IsCanonical null = tt
  value-IsCanonical (boolean b) = tt
  value-IsCanonical (number n) = tt
  value-IsCanonical (text s) = tt
  value-IsCanonical (enum s) = tt
  value-IsCanonical (list xs) = canonical_items xs
  value-IsCanonical (dict fs) = (primitive_fields-IsSorted fs, canonical_fields fs)

  canonical_items : (xs : Items) → ItemsCanonical (primitive_items xs)
  canonical_items nil = tt
  canonical_items (cons x xs) = (value-IsCanonical x, canonical_items xs)

  canonical_fields : (fs : Fields) → FieldsCanonical (primitive_fields fs)
  canonical_fields end = tt
  canonical_fields (field k v fs) =
      insert_sorted-FieldsCanonical k (to_primitive v) (primitive_fields fs) (value-IsCanonical v)
        (canonical_fields fs)

mutual
  unfolding to_primitive primitive_items primitive_fields IsCanonical ItemsCanonical FieldsCanonical

  fixed_value : (v : Value) → IsCanonical v → to_primitive v ≡ v
  fixed_value null c = refl
  fixed_value (boolean b) c = refl
  fixed_value (number n) c = refl
  fixed_value (text s) c = refl
  fixed_value (enum s) c = absurd c
  fixed_value (list xs) c = ap list (fixed_items xs c)
  fixed_value (dict fs) c = ap dict (fixed_fields fs c.0 c.1)

  fixed_items : (xs : Items) → ItemsCanonical xs → primitive_items xs ≡ xs
  fixed_items nil c = refl
  fixed_items (cons x xs) c = ap₂ cons (fixed_value x c.0) (fixed_items xs c.1)

  fixed_fields : (fs : Fields) → IsSorted fs → FieldsCanonical fs → primitive_fields fs ≡ fs
  fixed_fields end s c = refl
  fixed_fields (field k v fs) s c =
      rw (fixed_value v c.0, fixed_fields fs s.1 c.1) (insert_sorted_front k v fs s.0)

-- The canonical form of every value has no enum members and its dicts in key order, and taking it
-- again changes nothing.
pub to_primitive-IsCanonical :
    (v : Value) → IsCanonical (to_primitive v) × (to_primitive (to_primitive v) ≡ to_primitive v)
to_primitive-IsCanonical v =
    (value-IsCanonical v, fixed_value (to_primitive v) (value-IsCanonical v))
