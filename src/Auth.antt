-- ===== src/Auth.antt =====
-- backend/agency_runtime/auth.py: roles, principals and the credential entries of a tenant.
-- `str.lower` is the parameter `lower`; `hmac.compare_digest` is equality.
pub mod Configuration
pub mod Access
pub mod Environment
pub mod Consistency
pub mod Resolution
mod Tests
use ai_native_content_agency.Prelude.{
  ℕ, String, Bool, true, false, not, ◌&&◌, ◌||◌, Option, none, some, List, [], ◌∷◌, ◌++◌, map, ◌==◌,
}
use ai_native_content_agency.Prelude.Tests.{ltb, leb, eqb, if◌then◌else◌}
use ai_native_content_agency.Prelude.Tables.{length, count_where}
use ai_native_content_agency.Prelude.Text.{
  codes, is_empty, strip, full_match, is_lower, is_alnum, is_digit, leb_str,
}
use ai_native_content_agency.Prelude.Results.{Result, ok, err, ◌>>=◌, ◌>>◌, raise_if}
use ai_native_content_agency.Json.{Value, Items, null, text, list, nil, cons}

-- AuthConfigurationError by its cause, AuthenticationError and AuthorizationError.
pub data Error : Type 0 where
  bad_tenant bad_subject bad_key_id bad_role bad_entitlements short_key : Error
  repeated_key repeated_key_id mixed_authority bad_credential bad_json : Error
  invalid_credential session_inactive not_granted : Error

-- `_VALID_ROLES`
pub data Role : Type 0 where
  viewer operator approver admin : Role

-- `_ROLE_PERMISSIONS`
unfoldable pub permissions : Role → List String
permissions viewer = "identity:read" ∷ "runs:read" ∷ "audit:read" ∷ []
permissions operator = "identity:read" ∷ "runs:read" ∷ "runs:create" ∷ "audit:read" ∷ []
permissions approver =
    "identity:read" ∷ "runs:read" ∷ "greenlight:decide" ∷ "greenlight:revoke" ∷ "audit:read" ∷ []
permissions admin =
    "identity:read" ∷ "runs:read" ∷ "runs:create" ∷ "greenlight:decide" ∷ "greenlight:revoke"
    ∷ "audit:read" ∷ "social:manage" ∷ "social:publish" ∷ "model:execute" ∷ []

-- `TenantPrincipal`
pub record Principal : Type 0 where
  pub tenant_id : String
  pub subject_id : String
  pub role : Role
  pub key_id : String
  pub credential_fingerprint : String
  pub entitlements : List String
  pub auth_method : String
  pub session_id : String

-- `value in list`
unfoldable pub is_listed : String → List String → Bool
is_listed s [] = false
is_listed s (t ∷ ts) = s == t || is_listed s ts

unfoldable pub permits : String → Principal → Bool
unfolding is_listed permissions
permits permission principal = is_listed permission (permissions principal.role)

-- `require`
unfoldable pub require : String → Principal → Result Error (Unit {0})
unfolding permits
require permission principal = raise_if (not (permits permission principal)) not_granted

-- `_CredentialEntry`
pub record Entry : Type 0 where
  pub digest : String
  pub tenant_id : String
  pub subject_id : String
  pub role : Role
  pub key_id : String
  pub entitlements : List String
  pub legacy : Bool

-- `principal`
unfoldable pub principal_of : String → String → Entry → Principal
principal_of auth_method session_id entry = record {
  tenant_id = entry.tenant_id;
  subject_id = entry.subject_id;
  role = entry.role;
  key_id = entry.key_id;
  credential_fingerprint = entry.digest;
  entitlements = entry.entitlements;
  auth_method = auth_method;
  session_id = session_id;
}

-- The classes of `_TENANT_PATTERN`, `_SUBJECT_PATTERN` and `_KEY_ID_PATTERN`.
is_tenant_head : ℕ → Bool
is_tenant_head c = is_lower c || is_digit c

is_tenant_tail : ℕ → Bool
is_tenant_tail c = is_lower c || is_digit c || eqb c b'_' || eqb c b'-'

is_key_tail : ℕ → Bool
is_key_tail c = is_alnum c || eqb c b'.' || eqb c b'_' || eqb c b':' || eqb c b'-'

is_subject_tail : ℕ → Bool
is_subject_tail c = is_key_tail c || eqb c b'@'

module _ (lower : String → String) where
  -- `_tenant_id`
  unfoldable pub normal_tenant : String → Result Error String
  unfolding strip full_match is_tenant_head is_tenant_tail
  normal_tenant value =
      let normalized = lower (strip value) in
      if full_match is_tenant_head is_tenant_tail 0 62 normalized
      then ok normalized
      else err bad_tenant

  -- `_role`
  unfoldable pub normal_role : String → Result Error Role
  unfolding strip
  normal_role value =
      let normalized = lower (strip value) in
      if normalized == "viewer"
      then ok viewer
      else if normalized == "operator"
      then ok operator
      else if normalized == "approver"
      then ok approver
      else if normalized == "admin"
      then ok admin
      else err bad_role

-- `_subject_id`
unfoldable pub normal_subject : String → Result Error String
unfolding strip full_match is_subject_tail is_key_tail
normal_subject value =
    let normalized = strip value in
    if full_match is_alnum is_subject_tail 0 127 normalized then ok normalized else err bad_subject

-- `_key_id`
unfoldable pub normal_key_id : String → Result Error String
unfolding strip full_match is_key_tail
normal_key_id value =
    let normalized = strip value in
    if full_match is_alnum is_key_tail 0 127 normalized then ok normalized else err bad_key_id

-- `_validate_api_key`
unfoldable pub check_api_key : String → Result Error (Unit {0})
check_api_key api_key = raise_if (ltb (length (codes api_key)) 24) short_key

-- The texts of an array.
unfoldable pub texts_of : Items → Result Error (List String)
texts_of nil = ok []
texts_of (cons (text s) vs) = texts_of vs >>= λ ss. ok (s ∷ ss)
texts_of (cons _ vs) = err bad_entitlements

-- No text stands twice.
unfoldable pub is_distinct : List String → Bool
unfolding is_listed
is_distinct [] = true
is_distinct (s ∷ ss) = not (is_listed s ss) && is_distinct ss

-- The checks of `_entitlements` on the normalized texts; the one entitlement that passes needs no
-- sorting.
unfoldable pub check_entitlements : List String → Result Error (List String)
unfolding is_distinct
check_entitlements normalized = do
  raise_if (ltb 0 (count_where is_empty normalized)) bad_entitlements
  raise_if (not (is_distinct normalized)) bad_entitlements
  raise_if (ltb 0 (count_where (λ (s : String). not (s == "theme:premium")) normalized))
      bad_entitlements
  ok normalized

-- `_entitlements`
unfoldable pub normal_entitlements : (String → String) → Value → Result Error (List String)
unfolding texts_of check_entitlements strip
normal_entitlements lower null = ok []
normal_entitlements lower (list vs) = do
  ss ← texts_of vs
  check_entitlements (map (λ (s : String). lower (strip s)) ss)
normal_entitlements lower _ = err bad_entitlements
