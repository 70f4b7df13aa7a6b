-- ===== src/Auth/Tests.antt =====
-- A configuration with a legacy key and a rotated key of one operator.
use ai_native_content_agency.Prelude.{String, true, false, ◌≡◌, refl, none, List, [], ◌∷◌}
use ai_native_content_agency.Prelude.Tables.{count_where, find_where}
use ai_native_content_agency.Prelude.Text.{
  strip, lstrip, rstrip, full_match, all_codes, leb_str, leb_codes,
}
use ai_native_content_agency.Prelude.Results.{ok}
use ai_native_content_agency.Json.{Platform, Fields, text, end, field, get}
use ai_native_content_agency.Auth.{
  Principal, admin, operator, Entry, principal_of, normal_tenant, normal_subject, normal_role,
  normal_key_id, normal_entitlements, check_entitlements, check_api_key, texts_of, is_distinct,
  is_listed,
}
use ai_native_content_agency.Auth.Configuration.{
  legacy_credential, same_authority, eqb_list, check_new, entry_le, insert_entry, sort_entries,
  new_entry, add_entry, add_legacy, credential_of, add_raw, add_credentials, configure,
}
use ai_native_content_agency.Auth.Access.{last_where, authenticate, resolve_active_session}
use ai_native_content_agency.Auth.Consistency.{IsConsistent, configure-IsConsistent}
use ai_native_content_agency.Auth.Resolution.{resolve-authenticate}

abbrev library : Platform
library = record { dumps = λ _. ""; loads = λ _. none; sha256 = λ s. s }

abbrev lower : String → String
lower s = s

abbrev legacy_keys : List (String × String)
legacy_keys = ("acme", "legacy-key-of-acme-0123456789") ∷ []

abbrev credential : String → String → Fields
credential key_id api_key = field "tenant_id" (text " acme ") (
    field "subject_id" (text "ana") (
      field "role" (text "operator")
        (field "key_id" (text key_id) (field "api_key" (text api_key) end))))

abbrev credentials : List Fields
credentials =
    credential "key-2" "second-key-of-ana-0123456789"
    ∷ credential "key-1" "first-key-of-ana-0123456789"
    ∷ []

abbrev entry : String → String → Entry
entry key_id api_key = record {
  digest = api_key;
  tenant_id = "acme";
  subject_id = "ana";
  role = operator;
  key_id = key_id;
  entitlements = [];
  legacy = false;
}

abbrev entries : List Entry
entries =
    entry "key-1" "first-key-of-ana-0123456789"
    ∷ entry "key-2" "second-key-of-ana-0123456789"
    ∷ record {
      digest = "legacy-key-of-acme-0123456789";
      tenant_id = "acme";
      subject_id = "tenant:acme";
      role = admin;
      key_id = "legacy:acme";
      entitlements = [];
      legacy = true;
    }
    ∷ []

configure-entries : configure library lower legacy_keys credentials ≡ ok entries
unfolding configure add_legacy add_credentials add_raw credential_of add_entry new_entry
    legacy_credential normal_tenant normal_subject normal_role normal_key_id normal_entitlements
    check_entitlements check_api_key check_new same_authority eqb_list sort_entries insert_entry
    entry_le leb_str leb_codes count_where find_where get strip lstrip rstrip full_match all_codes
    texts_of is_distinct is_listed
configure-entries = refl

abbrev principal : Principal
principal = principal_of "bearer" "" (entry "key-2" "second-key-of-ana-0123456789")

authenticate-principal : authenticate library "second-key-of-ana-0123456789" entries ≡ ok principal
unfolding authenticate last_where principal_of
authenticate-principal = refl

configure-IsConsistent_example : IsConsistent entries
configure-IsConsistent_example =
    configure-IsConsistent library lower legacy_keys credentials configure-entries

resolve-authenticate_example :
    resolve_active_session principal.tenant_id principal.subject_id principal.key_id
      principal.credential_fingerprint "session-1" entries
    ≡ ok (record principal { auth_method = "session"; session_id = "session-1" })
resolve-authenticate_example =
    resolve-authenticate library lower legacy_keys credentials "second-key-of-ana-0123456789"
      "session-1" entries principal configure-entries authenticate-principal
