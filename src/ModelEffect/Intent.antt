-- ===== src/ModelEffect/Intent.antt =====
-- backend/agency_runtime/model_effect_store.py: the intent, the row it is stored as, and the
-- validation of its fields. A record holds its receipt as a mapping, a row as JSON text.
use Prim.Native.String.{len}
use ai_native_content_agency.Prelude.{
  String, Bool, true, false, not, ◌&&◌, ◌||◌, Option, none, some,
}
use ai_native_content_agency.Prelude.Tests.{ltb, eqb, if◌then◌else◌}
use ai_native_content_agency.Prelude.Int.{ℤ, pos, ltb_ℤ}
use ai_native_content_agency.Prelude.Text.{
  is_empty, is_lower, is_digit, is_alnum, full_match, is_sha256,
}
use ai_native_content_agency.Prelude.Results.{Result, ok, err, ◌>>=◌, ◌>>◌, raise_if}
use ai_native_content_agency.Json.{Value, Fields, Platform, dict, canonical_json}

-- The members of `_STATUSES`.
pub data Status : Type 0 where
  pending succeeded unknown failed revoked : Status

abbrev pub is_pending : Status → Bool
is_pending pending = true
is_pending _ = false

abbrev pub is_unknown : Status → Bool
is_unknown unknown = true
is_unknown _ = false

abbrev pub is_succeeded : Status → Bool
is_succeeded succeeded = true
is_succeeded _ = false

-- What the store raises: the ValueErrors of the validation, its own exceptions, KeyError, and
-- sqlite3.IntegrityError where an INSERT breaks a UNIQUE constraint.
pub data Error : Type 0 where
  invalid_identity invalid_digest invalid_provider invalid_model invalid_host : Error
  invalid_token_cap invalid_cost_cap invalid_status invalid_fence fence_not_positive : Error
  invalid_output invalid_output_digest receipt_too_large invalid_reason : Error
  key_conflict binding_conflict not_pending not_unknown json_error invalid_receipt not_found
        integrity :
      Error

pub record Record (R : Type 0) : Type 0 where
  pub effect_id : String
  pub tenant_id : String
  pub run_id : String
  pub station : String
  pub source_artifact_id : String
  pub source_artifact_hash : String
  pub instruction_hash : String
  pub provider_id : String
  pub model : String
  pub endpoint_host : String
  pub request_sha256 : String
  pub max_output_tokens : ℤ
  pub max_cost_micros : ℤ
  pub idempotency_digest : String
  pub binding_digest : String
  pub status : Status
  pub execution_fencing_token : ℤ
  pub output_text : String
  pub output_sha256 : String
  pub receipt : R
  pub failure_reason : String
  pub created_at : String
  pub updated_at : String
  pub completed_at : Option String
  pub revoked_at : Option String

-- `ModelEffectIntent`
abbrev pub Intent : Type 0
Intent = Record Fields

-- A row of the table `model_effect_intents`: `receipt` is the column `receipt_json`.
abbrev pub Row : Type 0
Row = Record String

-- `_IDENTIFIER`, `_PROVIDER`, `_MODEL`, `_HOST`
unfoldable pub is_identifier : String → Bool
unfolding full_match
is_identifier =
    full_match is_alnum
      (λ c.
        is_alnum c
        || eqb c b'.'
        || eqb c b'_'
        || eqb c b':'
        || eqb c b'@'
        || eqb c b'/'
        || eqb c b'-')
      0 255

unfoldable pub is_provider : String → Bool
unfolding full_match
is_provider = full_match is_lower (λ c. is_lower c || is_digit c || eqb c b'_' || eqb c b'-') 1 31

unfoldable pub is_model : String → Bool
unfolding full_match
is_model =
    full_match is_alnum
      (λ c. is_alnum c || eqb c b'.' || eqb c b'_' || eqb c b':' || eqb c b'/' || eqb c b'-') 0 127

unfoldable pub is_host : String → Bool
unfolding full_match
is_host =
    full_match (λ c. is_lower c || is_digit c)
      (λ c. is_lower c || is_digit c || eqb c b'.' || eqb c b'-') 0 252

abbrev pub Check : Type 0
Check = Result Error (Unit {0})

unfoldable pub validate_identity : String → String → Check
validate_identity tenant_id effect_id =
    raise_if (not (is_identifier tenant_id) || not (is_identifier effect_id)) invalid_identity

unfoldable pub validate_output : String → Check
validate_output output_text =
    raise_if (is_empty output_text || ltb 1048576 (len output_text)) invalid_output

unfoldable pub validate_receipt : Platform → Fields → Check
unfolding canonical_json
validate_receipt lib receipt =
    raise_if (ltb 16384 (len (canonical_json lib (dict receipt)))) receipt_too_large

unfoldable pub validate_reason : String → Check
unfolding full_match
validate_reason reason =
    raise_if
      (is_empty reason
        || ltb 256 (len reason)
        || not (
            full_match (λ c. is_lower c || is_digit c)
              (λ c.
                is_lower c || is_digit c || eqb c b'_' || eqb c b'.' || eqb c b':' || eqb c b'-')
              0 255 reason))
      invalid_reason

-- `if value: check(value)`
abbrev pub when : Bool → Check → Check
when b check = if b then check else ok tt

-- The status of an intent is a member of `_STATUSES` by its type.
unfoldable pub validate_intent : Platform → Intent → Bool → Check
validate_intent lib intent require_pending = do
  raise_if
      (not (
        is_identifier intent.effect_id
        && is_identifier intent.tenant_id
        && is_identifier intent.run_id
        && is_identifier intent.station
        && is_identifier intent.source_artifact_id))
      invalid_identity
  raise_if
      (not (
        is_sha256 intent.source_artifact_hash
        && is_sha256 intent.instruction_hash
        && is_sha256 intent.request_sha256
        && is_sha256 intent.idempotency_digest
        && is_sha256 intent.binding_digest))
      invalid_digest
  raise_if (not (is_provider intent.provider_id)) invalid_provider
  raise_if (not (is_model intent.model)) invalid_model
  raise_if (not (is_host intent.endpoint_host)) invalid_host
  raise_if (ltb_ℤ intent.max_output_tokens (pos 1) || ltb_ℤ (pos 8192) intent.max_output_tokens)
      invalid_token_cap
  raise_if (ltb_ℤ intent.max_cost_micros (pos 0) || ltb_ℤ (pos 10000000000) intent.max_cost_micros)
      invalid_cost_cap
  raise_if (require_pending && not (is_pending intent.status)) invalid_status
  raise_if (ltb_ℤ intent.execution_fencing_token (pos 1)) invalid_fence
  when (not (is_empty intent.output_text)) (validate_output intent.output_text)
  raise_if (not (is_empty intent.output_sha256) && not (is_sha256 intent.output_sha256))
      invalid_output_digest
  validate_receipt lib intent.receipt
  when (not (is_empty intent.failure_reason)) (validate_reason intent.failure_reason)

-- The values of an INSERT.
unfoldable pub intent_values : Platform → Intent → Row
unfolding canonical_json
intent_values lib intent = record {
  effect_id = intent.effect_id;
  tenant_id = intent.tenant_id;
  run_id = intent.run_id;
  station = intent.station;
  source_artifact_id = intent.source_artifact_id;
  source_artifact_hash = intent.source_artifact_hash;
  instruction_hash = intent.instruction_hash;
  provider_id = intent.provider_id;
  model = intent.model;
  endpoint_host = intent.endpoint_host;
  request_sha256 = intent.request_sha256;
  max_output_tokens = intent.max_output_tokens;
  max_cost_micros = intent.max_cost_micros;
  idempotency_digest = intent.idempotency_digest;
  binding_digest = intent.binding_digest;
  status = intent.status;
  execution_fencing_token = intent.execution_fencing_token;
  output_text = intent.output_text;
  output_sha256 = intent.output_sha256;
  receipt = canonical_json lib (dict intent.receipt);
  failure_reason = intent.failure_reason;
  created_at = intent.created_at;
  updated_at = intent.updated_at;
  completed_at = intent.completed_at;
  revoked_at = intent.revoked_at;
}

-- `json.loads` of the column, which must hold a mapping.
unfoldable pub decode_receipt : Option Value → Result Error Fields
decode_receipt none = err json_error
decode_receipt (some (dict fields)) = ok fields
decode_receipt (some _) = err invalid_receipt

-- The columns that are not null are read back as they were written.
unfoldable pub with_receipt : Row → Fields → Intent
with_receipt row receipt = record {
  effect_id = row.effect_id;
  tenant_id = row.tenant_id;
  run_id = row.run_id;
  station = row.station;
  source_artifact_id = row.source_artifact_id;
  source_artifact_hash = row.source_artifact_hash;
  instruction_hash = row.instruction_hash;
  provider_id = row.provider_id;
  model = row.model;
  endpoint_host = row.endpoint_host;
  request_sha256 = row.request_sha256;
  max_output_tokens = row.max_output_tokens;
  max_cost_micros = row.max_cost_micros;
  idempotency_digest = row.idempotency_digest;
  binding_digest = row.binding_digest;
  status = row.status;
  execution_fencing_token = row.execution_fencing_token;
  output_text = row.output_text;
  output_sha256 = row.output_sha256;
  receipt = receipt;
  failure_reason = row.failure_reason;
  created_at = row.created_at;
  updated_at = row.updated_at;
  completed_at = row.completed_at;
  revoked_at = row.revoked_at;
}

unfoldable pub intent_from_mapping : Platform → Row → Result Error Intent
unfolding decode_receipt with_receipt
intent_from_mapping lib row = do
  receipt ← decode_receipt (lib.loads row.receipt)
  ok (with_receipt row receipt)
