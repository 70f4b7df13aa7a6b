-- ===== src/ModelEffect/Authority/Requests.antt =====
-- backend/agency_runtime/model_effect.py: commands, their validation, the intent of one, and results;
-- and the records of backend/agency_runtime/model_gateway.py that they hold.
use Prim.Native.String.{len}
use ai_native_content_agency.Prelude.{String, Bool, not, ◌||◌, none}
use ai_native_content_agency.Prelude.Tests.{ltb}
use ai_native_content_agency.Prelude.Int.{ℤ, pos, ltb_ℤ}
use ai_native_content_agency.Prelude.Tables.{length}
use ai_native_content_agency.Prelude.Text.{codes, is_empty, is_sha256, strip}
use ai_native_content_agency.Prelude.Results.{Result, ok, ◌>>◌, raise_if}
use ai_native_content_agency.Json.{
  Fields, Platform, text, number, dict, nil, cons, end, field, canonical_json, stable_id,
}
use ai_native_content_agency.ModelEffect.Intent.{Status, pending, Error, Intent}

-- `ModelRequest`; its texts are read by the gateway alone.
pub record Request : Type 0 where
  pub request_id : String
  pub user : String
  pub system : String

-- `ModelRequestDescriptor`
pub record Descriptor : Type 0 where
  pub provider_id : String
  pub model : String
  pub endpoint_host : String
  pub request_sha256 : String
  pub max_output_tokens : ℤ

-- `ModelReceipt`
pub record Receipt : Type 0 where
  pub provider_id : String
  pub model : String
  pub provider_request_id : String
  pub input_tokens : ℤ
  pub output_tokens : ℤ
  pub total_tokens : ℤ
  pub request_sha256 : String
  pub output_sha256 : String

-- `ModelResult`
pub record Answer : Type 0 where
  pub output : String
  pub receipt : Receipt

-- What a method of the gateway does: it returns, raises an exception that its caller names in an
-- `except`, or raises another one.
pub data Outcome (A : Type 0) : Type 0 where
  returned : A → Outcome A
  caught uncaught : Outcome A

-- `describe` and `complete`. The caught exceptions of `describe` are ModelGatewayDisabledError and
-- ModelGatewayConfigurationError, that of `complete` is ModelGatewayProviderError. Others leave
-- `complete` too: a UnicodeEncodeError for an answer with a lone surrogate, a ValueError or a
-- RecursionError of the JSON parser.
pub record Gateway : Type 0 where
  pub describe : Request → Outcome Descriptor
  pub complete : Request → Outcome Answer

-- `ModelEffectCommand`
pub record Command : Type 0 where
  pub tenant_id : String
  pub run_id : String
  pub station : String
  pub source_artifact_id : String
  pub source_artifact_hash : String
  pub instruction : String
  pub max_cost_micros : ℤ
  pub idempotency_key : String
  pub request : Request

-- The exceptions of `execute`: its own, the ValueErrors of `_validate_command`, the store's, and
-- those of the gateway that it does not catch.
pub data Failure : Type 0 where
  disabled unavailable : Failure
  identity_invalid artifact_hash_invalid instruction_invalid cost_invalid key_invalid : Failure
  store_error : Error → Failure
  gateway_error : Failure
  blocked : Status → Failure
  outcome_unknown receipt_invalid persistence_uncertain : Failure

-- `not value or len(value) > 256`
abbrev is_bad_name : String → Bool
is_bad_name value = is_empty value || ltb 256 (length (codes value))

unfoldable pub validate_command : Command → Result Failure Command
validate_command command = do
  raise_if
      (is_bad_name command.tenant_id
        || is_bad_name command.run_id
        || is_bad_name command.station
        || is_bad_name command.source_artifact_id)
      identity_invalid
  raise_if (not (is_sha256 command.source_artifact_hash)) artifact_hash_invalid
  raise_if (is_empty (strip command.instruction) || ltb 4096 (len (strip command.instruction)))
      instruction_invalid
  raise_if
      (ltb_ℤ command.max_cost_micros (pos 0) || ltb_ℤ (pos 10000000000) command.max_cost_micros)
      cost_invalid
  raise_if
      (ltb (length (codes command.idempotency_key)) 8
        || ltb 200 (length (codes command.idempotency_key)))
      key_invalid
  ok (record command { instruction = strip command.instruction })

-- The dict `binding` of `_build_intent`.
binding : Platform → Command → Descriptor → Fields
binding lib command descriptor = field "tenant_id" (text command.tenant_id) (
    field "run_id" (text command.run_id) (
      field "station" (text command.station) (
        field "source_artifact_id" (text command.source_artifact_id) (
          field "source_artifact_hash" (text command.source_artifact_hash) (
            field "instruction_hash" (text (lib.sha256 command.instruction)) (
              field "provider_id" (text descriptor.provider_id) (
                field "model" (text descriptor.model) (
                  field "endpoint_host" (text descriptor.endpoint_host) (
                    field "request_sha256" (text descriptor.request_sha256) (
                      field "max_output_tokens" (number descriptor.max_output_tokens)
                        (field "max_cost_micros" (number command.max_cost_micros) end)))))))))))

unfoldable pub build_intent : Platform → String → Command → Descriptor → Intent
unfolding binding
build_intent lib now command descriptor =
    let key_digest = lib.sha256 command.idempotency_key in
    record {
      effect_id =
          stable_id lib "model-effect-intent"
            (cons (text command.tenant_id) (cons (text key_digest) nil)) 48;
      tenant_id = command.tenant_id;
      run_id = command.run_id;
      station = command.station;
      source_artifact_id = command.source_artifact_id;
      source_artifact_hash = command.source_artifact_hash;
      instruction_hash = lib.sha256 command.instruction;
      provider_id = descriptor.provider_id;
      model = descriptor.model;
      endpoint_host = descriptor.endpoint_host;
      request_sha256 = descriptor.request_sha256;
      max_output_tokens = descriptor.max_output_tokens;
      max_cost_micros = command.max_cost_micros;
      idempotency_digest = key_digest;
      binding_digest = lib.sha256 (canonical_json lib (dict (binding lib command descriptor)));
      status = pending;
      execution_fencing_token = pos 1;
      output_text = "";
      output_sha256 = "";
      receipt = end;
      failure_reason = "";
      created_at = now;
      updated_at = now;
      completed_at = none;
      revoked_at = none;
    }

-- `ModelEffectResult.from_intent`: the intent's columns that the result shows, with `replayed`.
pub record EffectResult : Type 0 where
  pub effect_id : String
  pub tenant_id : String
  pub run_id : String
  pub station : String
  pub source_artifact_id : String
  pub source_artifact_hash : String
  pub provider_id : String
  pub model : String
  pub status : Status
  pub execution_fencing_token : ℤ
  pub output_text : String
  pub output_sha256 : String
  pub receipt : Fields
  pub replayed : Bool

unfoldable pub from_intent : Intent → Bool → EffectResult
from_intent intent replayed = record {
  effect_id = intent.effect_id;
  tenant_id = intent.tenant_id;
  run_id = intent.run_id;
  station = intent.station;
  source_artifact_id = intent.source_artifact_id;
  source_artifact_hash = intent.source_artifact_hash;
  provider_id = intent.provider_id;
  model = intent.model;
  status = intent.status;
  execution_fencing_token = intent.execution_fencing_token;
  output_text = intent.output_text;
  output_sha256 = intent.output_sha256;
  receipt = intent.receipt;
  replayed = replayed;
}
