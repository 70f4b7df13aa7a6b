-- ===== src/Publication/Intent.antt =====
-- backend/agency_runtime/social_publication_store.py: the intent, the row it is stored as, and the
-- validation of its fields. A record holds its receipt as a mapping, a row as JSON text.
use Prim.Native.String.{len}
use ai_native_content_agency.Prelude.{
  ℕ, String, Bool, true, false, not, ◌&&◌, ◌||◌, Option, none, some, List, [], ◌∷◌, ◌==◌,
}
use ai_native_content_agency.Prelude.Tests.{ltb, eqb}
use ai_native_content_agency.Prelude.Int.{ℤ, pos, ltb_ℤ}
use ai_native_content_agency.Prelude.Text.{codes, is_empty, is_alnum, full_match, is_sha256}
use ai_native_content_agency.Prelude.Tables.{length}
use ai_native_content_agency.Prelude.Results.{Result, ok, err, ◌>>=◌, ◌>>◌, raise_if}
use ai_native_content_agency.Json.{
  Value, Fields, Platform, text, dict, get as get_key, canonical_json,
}

-- The members of `_STATUSES`.
pub data Status : Type 0 where
  pending succeeded unknown failed revoked : Status

abbrev pub is_pending : Status → Bool
is_pending pending = true
is_pending _ = false

abbrev pub is_unknown : Status → Bool
is_unknown unknown = true
is_unknown _ = false

abbrev pub is_succeeded : Status → Bool
is_succeeded succeeded = true
is_succeeded _ = false

-- ValueErrors, the store's exceptions, KeyError, JSON errors and IntegrityError.
pub data Error : Type 0 where
  invalid_identity invalid_channel invalid_digest invalid_optional_digest : Error
  invalid_authority invalid_status fence_not_positive invalid_provider_id : Error
  receipt_too_large invalid_reason key_conflict binding_conflict not_pending : Error
  not_unknown not_found json_error invalid_receipt integrity : Error

pub record Record (R : Type 0) : Type 0 where
  pub intent_id : String
  pub tenant_id : String
  pub channel_id : String
  pub account_id : String
  pub run_id : String
  pub artifact_id : String
  pub artifact_hash : String
  pub content_hash : String
  pub media_url_hash : Option String
  pub media_hash : Option String
  pub confirmation_hash : Option String
  pub greenlight_id : String
  pub greenlight_fencing_token : ℤ
  pub budget_cents : ℤ
  pub idempotency_digest : String
  pub binding_digest : String
  pub status : Status
  pub execution_fencing_token : ℤ
  pub provider_container_id : Option String
  pub provider_post_id : Option String
  pub receipt : R
  pub failure_reason : String
  pub created_at : String
  pub updated_at : String
  pub completed_at : Option String
  pub revoked_at : Option String

-- `SocialPublicationIntent`
abbrev pub Intent : Type 0
Intent = Record Fields

-- A row of the table `social_publication_intents`: `receipt` is the column `receipt_json`.
abbrev pub Row : Type 0
Row = Record String

-- `_CHANNEL`
abbrev pub is_channel : String → Bool
is_channel s = s == "x" || s == "instagram"

-- `_IDENTIFIER`
unfoldable pub is_identifier : String → Bool
unfolding full_match
is_identifier =
    full_match is_alnum
      (λ c. is_alnum c || eqb c b'.' || eqb c b'_' || eqb c b':' || eqb c b'@' || eqb c b'-') 0 255

abbrev pub Check : Type 0
Check = Result Error (Unit {0})

unfoldable pub validate_identity : String → String → Check
validate_identity tenant_id identifier =
    raise_if (not (is_identifier tenant_id) || not (is_identifier identifier)) invalid_identity

unfoldable pub validate_provider_id : String → Check
validate_provider_id value = raise_if (not (is_identifier value)) invalid_provider_id

-- Some character is a control character.
abbrev has_control : List ℕ → Bool
has_control [] = false
has_control (c ∷ cs) = ltb c 32 || eqb c 127 || has_control cs

unfoldable pub validate_reason : String → Check
validate_reason reason =
    raise_if (is_empty reason || ltb 128 (length (codes reason)) || has_control (codes reason))
      invalid_reason

unfoldable pub validate_receipt : Platform → Fields → Check
unfolding canonical_json
validate_receipt lib receipt =
    raise_if (ltb 8192 (len (canonical_json lib (dict receipt)))) receipt_too_large

abbrev bad_digest : Option String → Bool
bad_digest none = false
bad_digest (some digest) = not (is_sha256 digest)

-- The status of an intent is a member of `_STATUSES` by its type.
unfoldable pub validate_intent : Platform → Intent → Bool → Check
validate_intent lib intent require_pending = do
  raise_if
      (not (
        is_identifier intent.intent_id
        && is_identifier intent.tenant_id
        && is_identifier intent.account_id
        && is_identifier intent.run_id
        && is_identifier intent.artifact_id
        && is_identifier intent.greenlight_id))
      invalid_identity
  raise_if (not (is_channel intent.channel_id)) invalid_channel
  raise_if
      (not (
        is_sha256 intent.artifact_hash
        && is_sha256 intent.content_hash
        && is_sha256 intent.idempotency_digest
        && is_sha256 intent.binding_digest))
      invalid_digest
  raise_if
      (bad_digest intent.media_url_hash
        || bad_digest intent.media_hash
        || bad_digest intent.confirmation_hash)
      invalid_optional_digest
  raise_if (ltb_ℤ intent.greenlight_fencing_token (pos 0) || ltb_ℤ intent.budget_cents (pos 0))
      invalid_authority
  raise_if
      (require_pending
        && (not (is_pending intent.status) || ltb_ℤ intent.execution_fencing_token (pos 1)))
      invalid_status
  validate_receipt lib intent.receipt

-- The values of an INSERT.
unfoldable pub intent_values : Platform → Intent → Row
unfolding canonical_json
intent_values lib intent = record {
  intent_id = intent.intent_id;
  tenant_id = intent.tenant_id;
  channel_id = intent.channel_id;
  account_id = intent.account_id;
  run_id = intent.run_id;
  artifact_id = intent.artifact_id;
  artifact_hash = intent.artifact_hash;
  content_hash = intent.content_hash;
  media_url_hash = intent.media_url_hash;
  media_hash = intent.media_hash;
  confirmation_hash = intent.confirmation_hash;
  greenlight_id = intent.greenlight_id;
  greenlight_fencing_token = intent.greenlight_fencing_token;
  budget_cents = intent.budget_cents;
  idempotency_digest = intent.idempotency_digest;
  binding_digest = intent.binding_digest;
  status = intent.status;
  execution_fencing_token = intent.execution_fencing_token;
  provider_container_id = intent.provider_container_id;
  provider_post_id = intent.provider_post_id;
  receipt = canonical_json lib (dict intent.receipt);
  failure_reason = intent.failure_reason;
  created_at = intent.created_at;
  updated_at = intent.updated_at;
  completed_at = intent.completed_at;
  revoked_at = intent.revoked_at;
}

-- `json.loads` of the column, which must hold a mapping.
unfoldable pub decode_receipt : Option Value → Result Error Fields
decode_receipt none = err json_error
decode_receipt (some (dict fields)) = ok fields
decode_receipt (some _) = err invalid_receipt

unfoldable pub with_receipt : Row → Fields → Intent
with_receipt row receipt = record {
  intent_id = row.intent_id;
  tenant_id = row.tenant_id;
  channel_id = row.channel_id;
  account_id = row.account_id;
  run_id = row.run_id;
  artifact_id = row.artifact_id;
  artifact_hash = row.artifact_hash;
  content_hash = row.content_hash;
  media_url_hash = row.media_url_hash;
  media_hash = row.media_hash;
  confirmation_hash = row.confirmation_hash;
  greenlight_id = row.greenlight_id;
  greenlight_fencing_token = row.greenlight_fencing_token;
  budget_cents = row.budget_cents;
  idempotency_digest = row.idempotency_digest;
  binding_digest = row.binding_digest;
  status = row.status;
  execution_fencing_token = row.execution_fencing_token;
  provider_container_id = row.provider_container_id;
  provider_post_id = row.provider_post_id;
  receipt = receipt;
  failure_reason = row.failure_reason;
  created_at = row.created_at;
  updated_at = row.updated_at;
  completed_at = row.completed_at;
  revoked_at = row.revoked_at;
}

unfoldable pub intent_from_mapping : Platform → Row → Result Error Intent
unfolding decode_receipt with_receipt
intent_from_mapping lib row = do
  receipt ← decode_receipt (lib.loads row.receipt)
  ok (with_receipt row receipt)

-- `expected` is a text that is a SHA-256 digest, and `observed` is the same text.
same_digest : Option Value → Option Value → Bool
same_digest (some (text expected)) (some (text observed)) =
    is_sha256 expected && observed == expected
same_digest _ _ = false

abbrev is_text : Option String → String → Bool
is_text none _ = false
is_text (some found) value = found == value

unfoldable pub reconciliation_matches : Intent → String → Fields → Bool
unfolding same_digest
reconciliation_matches intent provider_post_id receipt =
    is_succeeded intent.status
    && is_text intent.provider_post_id provider_post_id
    && same_digest (get_key "reconciliation_binding_digest" receipt)
        (get_key "reconciliation_binding_digest" intent.receipt)
