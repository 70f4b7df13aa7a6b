-- ===== src/Auth/Environment.antt =====
-- backend/agency_runtime/auth.py: the configuration in two variables of the environment.
use ai_native_content_agency.Prelude.{String, Option, none, some, List, [], ◌∷◌}
use ai_native_content_agency.Prelude.Tests.{if◌then◌else◌}
use ai_native_content_agency.Prelude.Text.{is_empty, strip}
use ai_native_content_agency.Prelude.Results.{Result, ok, err, ◌>>=◌}
use ai_native_content_agency.Json.{
  Platform, Value, Items, Fields, text, list, dict, nil, cons, end, field,
}
use ai_native_content_agency.Auth.{Error, bad_json, Entry}
use ai_native_content_agency.Auth.Configuration.{sort_items, configure}

-- The items of an object of texts.
unfoldable pub keys_of : Fields → Result Error (List (String × String))
keys_of end = ok []
keys_of (field tenant (text api_key) rest) = keys_of rest >>= λ keys. ok ((tenant, api_key) ∷ keys)
keys_of (field _ _ rest) = err bad_json

unfoldable pub objects_of : Items → Result Error (List Fields)
objects_of nil = ok []
objects_of (cons (dict fs) rest) = objects_of rest >>= λ objects. ok (fs ∷ objects)
objects_of (cons _ rest) = err bad_json

abbrev as_keys : Option Value → Result Error (List (String × String))
as_keys (some (dict fs)) = keys_of fs
as_keys _ = err bad_json

abbrev as_objects : Option Value → Result Error (List Fields)
as_objects (some (list vs)) = objects_of vs
as_objects _ = err bad_json

module _ (lib : Platform) where
  -- `_legacy_json`
  unfoldable pub legacy_json : Option String → Result Error (List (String × String))
  unfolding keys_of strip
  legacy_json none = ok []
  legacy_json (some raw) = if is_empty (strip raw) then ok [] else as_keys (lib.loads raw)

  -- `_identity_json`
  unfoldable pub identity_json : Option String → Result Error (List Fields)
  unfolding objects_of strip
  identity_json none = ok []
  identity_json (some raw) = if is_empty (strip raw) then ok [] else as_objects (lib.loads raw)

  -- `from_environment`
  unfoldable pub from_environment :
      (String → String) → Option String → Option String → Result Error (List Entry)
  unfolding legacy_json identity_json configure sort_items
  from_environment lower tenant_api_keys_json identity_credentials_json = do
    legacy ← legacy_json tenant_api_keys_json
    identities ← identity_json identity_credentials_json
    configure lib lower (sort_items legacy) identities
