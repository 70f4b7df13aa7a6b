-- ===== src/ModelEffect/Authority.antt =====
-- backend/agency_runtime/model_effect.py: `ModelEffectAuthority.execute`. The gateway, which reaches a
-- provider over HTTP, is a parameter. The other methods that any thread calls on the store while the
-- provider works are an argument, `meanwhile`.
pub mod Requests
pub mod Once
pub mod Settled
pub mod Uncaught
mod Tests
pub use ai_native_content_agency.ModelEffect.Authority.Requests.{
  Request, Descriptor, Receipt, Answer, Outcome, returned, caught, uncaught, Gateway, Command,
  Failure, EffectResult, disabled, unavailable, identity_invalid, artifact_hash_invalid,
  instruction_invalid, cost_invalid, key_invalid, store_error, gateway_error, blocked,
  outcome_unknown, receipt_invalid, persistence_uncertain,
}
unfoldable pub use ai_native_content_agency.ModelEffect.Authority.Requests.{
  validate_command, build_intent, from_intent,
}
use Prim.Native.String.{len}
use ai_native_content_agency.Prelude.{
  ℕ, String, Bool, true, false, not, ◌&&◌, ◌||◌, Option, none, some, List, [], ◌∷◌, ◌==◌,
}
use ai_native_content_agency.Prelude.Tests.{ltb, eqb, if◌then◌else◌}
use ai_native_content_agency.Prelude.Int.{ℤ, pos, ltb_ℤ}
use ai_native_content_agency.Prelude.Tables.{length}
use ai_native_content_agency.Prelude.Text.{codes, is_empty, is_sha256, strip}
use ai_native_content_agency.Prelude.Results.{Result, ok, err, ◌>>=◌, ◌>>◌, raise_if}
use ai_native_content_agency.Json.{
  Value, Items, Fields, Platform, text, number, dict, nil, cons, end, field, canonical_json,
  stable_id,
}
use ai_native_content_agency.ModelEffect.Intent.{
  Status, pending, unknown, Error, not_pending, Intent,
}
use ai_native_content_agency.ModelEffect.Store.{Table, Reservation, reserve, complete, mark_unknown}
use ai_native_content_agency.ModelEffect.Store.Recovery.{Operation, history}

-- What a call leaves: its result, the table, and whether it called the gateway's `complete`.
pub record Run : Type 0 where
  pub result : Result Failure EffectResult
  pub table : Table
  pub asked : Bool

-- The receipt names the described request and the digest of the output.
unfoldable pub is_receipt_valid : Platform → Descriptor → Answer → Bool
is_receipt_valid lib descriptor answer =
    answer.receipt.provider_id == descriptor.provider_id
    && answer.receipt.model == descriptor.model
    && answer.receipt.request_sha256 == descriptor.request_sha256
    && answer.receipt.output_sha256 == lib.sha256 answer.output

-- `public_dict` of the receipt, with the three keys that `execute` adds.
unfoldable pub receipt_fields : Intent → Receipt → Fields
receipt_fields intent receipt = field "provider_id" (text receipt.provider_id) (
    field "model" (text receipt.model) (
      field "provider_request_id" (text receipt.provider_request_id) (
        field "input_tokens" (number receipt.input_tokens) (
          field "output_tokens" (number receipt.output_tokens) (
            field "total_tokens" (number receipt.total_tokens) (
              field "request_sha256" (text receipt.request_sha256) (
                field "output_sha256" (text receipt.output_sha256) (
                  field "effect_binding_digest" (text intent.binding_digest) (
                    field "execution_fencing_token" (number intent.execution_fencing_token)
                      (field "max_cost_micros" (number intent.max_cost_micros) end))))))))))

-- `_mark_unknown` swallows the ModelEffectStateError; any other exception replaces `failure`.
mark_failure : Failure → Result Error Intent → Failure
mark_failure failure (ok _) = failure
mark_failure failure (err not_pending) = failure
mark_failure failure (err e) = store_error e

lose : Platform → String → Intent → String → Failure → Table → Run
unfolding mark_failure
lose lib now intent reason failure table =
    let (marked, table') =
      mark_unknown lib now intent.tenant_id intent.effect_id intent.execution_fencing_token reason
        table in
    record { result = err (mark_failure failure marked); table = table'; asked = true }

settle_answer : Platform → String → Intent → Result Error Intent × Table → Run
unfolding lose
settle_answer lib now intent (ok completed, table) = record {
  result = ok (from_intent completed false);
  table = table;
  asked = true;
}
settle_answer lib now intent (err _, table) =
    lose lib now intent "result_persistence_uncertain" persistence_uncertain table

-- From the provider's answer on; `now` is the clock at the write. An exception that `execute` does
-- not catch leaves the table as it is.
after_answer : Platform → String → Intent → Descriptor → Outcome Answer → Table → Run
unfolding lose settle_answer
after_answer lib now intent descriptor uncaught table = record {
  result = err gateway_error;
  table = table;
  asked = true;
}
after_answer lib now intent descriptor caught table =
    lose lib now intent "provider_outcome_unknown" outcome_unknown table
after_answer lib now intent descriptor (returned answer) table =
    if is_receipt_valid lib descriptor answer
    then settle_answer lib now intent (
        complete lib now intent.tenant_id intent.effect_id intent.execution_fencing_token
          answer.output (receipt_fields intent answer.receipt) table)
    else lose lib now intent "provider_receipt_invalid" receipt_invalid table

-- A reservation that may not be executed is replayed or blocked.
refuse : Reservation → Result Failure EffectResult
refuse reservation =
    if reservation.replayed
    then ok (from_intent reservation.intent true)
    else err (blocked reservation.intent.status)

after_reserve :
    Platform
    → Gateway
    → String
    → List Operation
    → Command
    → Descriptor
    → Intent
    → Result Error Reservation × Table
    → Run
unfolding after_answer refuse
after_reserve lib gateway later meanwhile command descriptor intent (err e, table) = record {
  result = err (store_error e);
  table = table;
  asked = false;
}
after_reserve lib gateway later meanwhile command descriptor intent (ok reservation, table) =
    if reservation.executable
    then after_answer lib later intent descriptor (gateway.complete command.request)
        (history lib meanwhile table)
    else record { result = refuse reservation; table = table; asked = false }

after_describe :
    Platform
    → Gateway
    → String
    → String
    → List Operation
    → Command
    → Outcome Descriptor
    → Table
    → Run
unfolding after_reserve
after_describe lib gateway now later meanwhile command uncaught table = record {
  result = err gateway_error;
  table = table;
  asked = false;
}
after_describe lib gateway now later meanwhile command caught table = record {
  result = err unavailable;
  table = table;
  asked = false;
}
after_describe lib gateway now later meanwhile command (returned descriptor) table =
    after_reserve lib gateway later meanwhile command descriptor
      (build_intent lib now command descriptor)
      (reserve lib (build_intent lib now command descriptor) table)

after_validation :
    Platform → Gateway → String → String → List Operation → Result Failure Command → Table → Run
unfolding after_describe
after_validation lib gateway now later meanwhile (err e) table = record {
  result = err e;
  table = table;
  asked = false;
}
after_validation lib gateway now later meanwhile (ok command) table =
    after_describe lib gateway now later meanwhile command (gateway.describe command.request) table

pub execute : Platform → Gateway → Bool → String → String → List Operation → Command → Table → Run
unfolding after_validation
execute lib gateway enabled now later meanwhile command table =
    if enabled
    then after_validation lib gateway now later meanwhile (validate_command command) table
    else record { result = err disabled; table = table; asked = false }
