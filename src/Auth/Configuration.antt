-- ===== src/Auth/Configuration.antt =====
-- backend/agency_runtime/auth.py: the entries that a TenantAuthenticator is made with. The sets and
-- the dict of its constructor are read off the entries that it has added.
use ai_native_content_agency.Prelude.{
  String, Bool, true, false, not, ◌&&◌, ◌||◌, Option, none, some, List, [], ◌∷◌, ◌++◌, map, ◌==◌,
}
use ai_native_content_agency.Prelude.Tests.{ltb, if◌then◌else◌}
use ai_native_content_agency.Prelude.Tables.{count_where, find_where}
use ai_native_content_agency.Prelude.Text.{strip, leb_str, join_text}
use ai_native_content_agency.Prelude.Results.{Result, ok, err, ◌>>=◌, ◌>>◌, raise_if}
use ai_native_content_agency.Json.{Platform, Value, Fields, boolean, text, list, nil, get}
use ai_native_content_agency.Auth.{
  Error, repeated_key, repeated_key_id, mixed_authority, bad_credential, Role, viewer, operator,
  approver, admin, Entry, normal_tenant, normal_subject, normal_role, normal_key_id,
  normal_entitlements, check_entitlements, check_api_key,
}

-- What `add_entry` is given.
pub record Credential : Type 0 where
  pub tenant_id : String
  pub subject_id : String
  pub role : String
  pub key_id : String
  pub api_key : String
  pub entitlements : List String
  pub legacy : Bool

-- The administrator of a tenant that has a legacy key.
unfoldable pub legacy_credential : String → String → Credential
legacy_credential tenant_id api_key = record {
  tenant_id = tenant_id;
  subject_id = join_text "tenant:" tenant_id;
  role = "admin";
  key_id = join_text "legacy:" tenant_id;
  api_key = api_key;
  entitlements = [];
  legacy = true;
}

abbrev pub has_digest : String → Entry → Bool
has_digest digest entry = entry.digest == digest

abbrev pub has_key : String → String → Entry → Bool
has_key tenant_id key_id entry = entry.tenant_id == tenant_id && entry.key_id == key_id

abbrev pub has_subject : String → String → Entry → Bool
has_subject tenant_id subject_id entry =
    entry.tenant_id == tenant_id && entry.subject_id == subject_id

abbrev role_text : Role → String
role_text viewer = "viewer"
role_text operator = "operator"
role_text approver = "approver"
role_text admin = "admin"

unfoldable pub eqb_list : List String → List String → Bool
eqb_list [] [] = true
eqb_list (s ∷ ss) (t ∷ ts) = s == t && eqb_list ss ts
eqb_list _ _ = false

-- The same role and entitlements.
unfoldable pub same_authority : Entry → Entry → Bool
unfolding eqb_list
same_authority a b = role_text a.role == role_text b.role && eqb_list a.entitlements b.entitlements

-- The checks of `add_entry` against the entries before.
unfoldable pub check_new : Entry → List Entry → Result Error (Unit {0})
unfolding same_authority
check_new entry entries = do
  raise_if (ltb 0 (count_where (has_digest entry.digest) entries)) repeated_key
  raise_if (ltb 0 (count_where (has_key entry.tenant_id entry.key_id) entries)) repeated_key_id
  elim (find_where (has_subject entry.tenant_id entry.subject_id) entries) [
    | none ↦ ok tt
    | some existing ↦ raise_if (not (same_authority existing entry)) mixed_authority
  ]

-- `_entries` is sorted by the tenant, the subject and the key.
unfoldable pub entry_le : Entry → Entry → Bool
entry_le a b =
    not (leb_str b.tenant_id a.tenant_id)
    || (a.tenant_id == b.tenant_id
        && (not (leb_str b.subject_id a.subject_id)
            || (a.subject_id == b.subject_id && leb_str a.key_id b.key_id)))

unfoldable pub insert_entry : Entry → List Entry → List Entry
unfolding entry_le
insert_entry entry [] = entry ∷ []
insert_entry entry (next ∷ rest) =
    if entry_le entry next then entry ∷ next ∷ rest else next ∷ insert_entry entry rest

unfoldable pub sort_entries : List Entry → List Entry
unfolding insert_entry
sort_entries [] = []
sort_entries (entry ∷ rest) = insert_entry entry (sort_entries rest)

insert_item : String × String → List (String × String) → List (String × String)
insert_item item [] = item ∷ []
insert_item item (next ∷ rest) =
    if leb_str item.0 next.0 then item ∷ next ∷ rest else next ∷ insert_item item rest

-- `sorted(tenant_api_keys.items())`; its keys are different.
unfoldable pub sort_items : List (String × String) → List (String × String)
unfolding insert_item
sort_items [] = []
sort_items (item ∷ rest) = insert_item item (sort_items rest)

module _ (lib : Platform) (lower : String → String) where
  -- The entry that `add_entry` makes; `fingerprint` is the digest of the key.
  unfoldable pub new_entry : Credential → Result Error Entry
  unfolding normal_tenant normal_subject normal_role normal_key_id check_entitlements check_api_key
      strip
  new_entry c = do
    tenant_id ← normal_tenant lower c.tenant_id
    subject_id ← normal_subject c.subject_id
    role ← normal_role lower c.role
    key_id ← normal_key_id c.key_id
    entitlements ← check_entitlements (map (λ (s : String). lower (strip s)) c.entitlements)
    check_api_key c.api_key
    ok record {
      digest = lib.sha256 c.api_key;
      tenant_id = tenant_id;
      subject_id = subject_id;
      role = role;
      key_id = key_id;
      entitlements = entitlements;
      legacy = c.legacy;
    }

  -- `add_entry`
  unfoldable pub add_entry : Credential → List Entry → Result Error (List Entry)
  unfolding new_entry check_new
  add_entry c entries = do entry ← new_entry c; check_new entry entries; ok (entries ++ entry ∷ [])

  -- The legacy mapping, its items sorted by tenant before.
  unfoldable pub add_legacy : List (String × String) → List Entry → Result Error (List Entry)
  unfolding add_entry normal_tenant
  add_legacy [] entries = ok entries
  add_legacy (item ∷ items) entries = do
    tenant_id ← normal_tenant lower item.0
    added ← add_entry (legacy_credential tenant_id item.1) entries
    add_legacy items added

  -- `isinstance(raw.get(key), str)`
  abbrev pub text_of : Option Value → Result Error String
  text_of (some (text s)) = ok s
  text_of _ = err bad_credential

  abbrev pub entitlements_of : Option Value → Value
  entitlements_of none = list nil
  entitlements_of (some v) = v

  -- A credential of the configuration that is active.
  unfoldable pub credential_of : Fields → Result Error Credential
  unfolding get normal_entitlements
  credential_of raw = do
    tenant_id ← text_of (get "tenant_id" raw)
    subject_id ← text_of (get "subject_id" raw)
    role ← text_of (get "role" raw)
    key_id ← text_of (get "key_id" raw)
    api_key ← text_of (get "api_key" raw)
    entitlements ← normal_entitlements lower (entitlements_of (get "entitlements" raw))
    ok record {
      tenant_id = tenant_id;
      subject_id = subject_id;
      role = role;
      key_id = key_id;
      api_key = api_key;
      entitlements = entitlements;
      legacy = false;
    }

  abbrev pub active_of : Option Value → Result Error Bool
  active_of none = ok true
  active_of (some (boolean b)) = ok b
  active_of (some _) = err bad_credential

  -- One round of the loop over `identity_credentials`.
  unfoldable pub add_raw : Fields → List Entry → Result Error (List Entry)
  unfolding credential_of add_entry get
  add_raw raw entries = do
    active ← active_of (get "active" raw)
    if active then (credential_of raw >>= λ c. add_entry c entries) else ok entries

  unfoldable pub add_credentials : List Fields → List Entry → Result Error (List Entry)
  unfolding add_raw
  add_credentials [] entries = ok entries
  add_credentials (raw ∷ raws) entries = add_raw raw entries >>= add_credentials raws

  -- The constructor.
  unfoldable pub configure : List (String × String) → List Fields → Result Error (List Entry)
  unfolding add_legacy add_credentials sort_entries
  configure legacy credentials = do
    first ← add_legacy legacy []
    entries ← add_credentials credentials first
    ok (sort_entries entries)
