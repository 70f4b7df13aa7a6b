-- ===== src/ModelEffect/Store/Tests.antt =====
-- Runs of the model effect store, and its theorems at concrete tables.
use ai_native_content_agency.Prelude.{
  String, ◌+◌, ◌≤◌, ◌≡◌, refl, true, false, none, some, List, [], ◌∷◌, arith, ◌==◌, eq_iff,
}
use ai_native_content_agency.Prelude.Tests.{if◌then◌else◌}
use ai_native_content_agency.Prelude.Int.{pos, eqb_ℤ}
use ai_native_content_agency.Prelude.Tables.{find_where, count_where, select_where}
use ai_native_content_agency.Prelude.Text.{is_sha256, leb_str}
use ai_native_content_agency.Prelude.Results.{ok, err}
use ai_native_content_agency.Json.{
  Platform, Fields, text, dict, end, field, get as get_key, canonical_json, to_primitive,
  primitive_fields, insert_sorted,
}
use ai_native_content_agency.ModelEffect.Intent.{
  Intent, Row, pending, succeeded, unknown, key_conflict, not_pending, is_identifier, is_provider,
  is_model, is_host, validate_identity, validate_output, validate_receipt, validate_reason,
  validate_intent, intent_values, intent_from_mapping, with_receipt,
}
use ai_native_content_agency.ModelEffect.Store.{
  Table, has_binding, has_id, reserve, get, check_transition, transition, completion, complete,
}
use ai_native_content_agency.ModelEffect.Store.Recovery.{
  digest_field, revoke, revoke_unused, Operation, reserving, losing, perform, history,
}
use ai_native_content_agency.ModelEffect.Store.Invariants.{
  HasUniqueKeys, history-HasUniqueKeys, history-final, of_tenant, perform-of_tenant,
}
use ai_native_content_agency.ModelEffect.Store.Reservations.{
  grants, grants-le-one, reserve_again, reserve_conflict,
}
use ai_native_content_agency.ModelEffect.Store.Settlement.{complete_lem, revoke_unused-fences}

abbrev digest_a : String
digest_a = "aaaaaaaaaaaaaaaaaaaaaaaaaaaaaaaaaaaaaaaaaaaaaaaaaaaaaaaaaaaaaaaa"

abbrev digest_b : String
digest_b = "bbbbbbbbbbbbbbbbbbbbbbbbbbbbbbbbbbbbbbbbbbbbbbbbbbbbbbbbbbbbbbbb"

abbrev evidence : Fields
evidence = field digest_field (text digest_b) end

-- Two documents and two digests stand in for the libraries.
abbrev toy : Platform
toy = record {
  dumps = λ v. elim v [ dict fs ↦ elim fs [ end ↦ "{}" | _ ↦ "evidence" ] | _ ↦ "?" ];
  loads = λ s. if s == "{}" then some (dict end) else some (dict evidence);
  sha256 = λ s. if s == "" then digest_a else digest_b;
}

abbrev sample : Intent
sample = record {
  effect_id = "effect-1";
  tenant_id = "acme";
  run_id = "run-1";
  station = "writer";
  source_artifact_id = "art-1";
  source_artifact_hash = digest_a;
  instruction_hash = digest_a;
  provider_id = "openai";
  model = "gpt-x";
  endpoint_host = "api.example.com";
  request_sha256 = digest_a;
  max_output_tokens = pos 512;
  max_cost_micros = pos 1000;
  idempotency_digest = digest_a;
  binding_digest = digest_a;
  status = pending;
  execution_fencing_token = pos 1;
  output_text = "";
  output_sha256 = "";
  receipt = end;
  failure_reason = "";
  created_at = "2026-01-01T00:00:00+00:00";
  updated_at = "2026-01-01T00:00:00+00:00";
  completed_at = none;
  revoked_at = none;
}

-- The same key with another binding.
abbrev rival : Intent
rival = record sample { effect_id = "effect-2"; binding_digest = digest_b }

sample_valid : validate_intent toy sample true ≡ ok tt
unfolding validate_intent validate_receipt is_identifier is_provider is_model is_host is_sha256
sample_valid = refl

rival_valid : validate_intent toy rival true ≡ ok tt
unfolding validate_intent validate_receipt is_identifier is_provider is_model is_host is_sha256
rival_valid = refl

-- The row that the reservation of `sample` inserts, the table of it alone, and that row once its
-- outcome is unknown.
abbrev stored : Row
stored = record {
  effect_id = "effect-1";
  tenant_id = "acme";
  run_id = "run-1";
  station = "writer";
  source_artifact_id = "art-1";
  source_artifact_hash = digest_a;
  instruction_hash = digest_a;
  provider_id = "openai";
  model = "gpt-x";
  endpoint_host = "api.example.com";
  request_sha256 = digest_a;
  max_output_tokens = pos 512;
  max_cost_micros = pos 1000;
  idempotency_digest = digest_a;
  binding_digest = digest_a;
  status = pending;
  execution_fencing_token = pos 1;
  output_text = "";
  output_sha256 = "";
  receipt = "{}";
  failure_reason = "";
  created_at = "2026-01-01T00:00:00+00:00";
  updated_at = "2026-01-01T00:00:00+00:00";
  completed_at = none;
  revoked_at = none;
}

abbrev one_row : Table
one_row = stored ∷ []

abbrev lost_row : Row
lost_row = record stored { status = unknown }

abbrev done_row : Row
done_row = record stored { status = succeeded; output_text = "copy"; output_sha256 = digest_b }

empty-HasUniqueKeys : HasUniqueKeys []
unfolding count_where
empty-HasUniqueKeys = record {
  ids = λ e. omega arith;
  keys = λ tn d. omega arith;
  bindings = λ tn d. omega arith;
}

one-HasUniqueKeys : (row : Row) → HasUniqueKeys (row ∷ [])
unfolding count_where
one-HasUniqueKeys row = record {
  ids = λ e. ground arith;
  keys = λ tn d. ground arith;
  bindings = λ tn d. ground arith;
}

reserve-sample :
    reserve toy sample []
    ≡ (ok (record { intent = sample; executable = true; replayed = false }), one_row)
unfolding reserve count_where find_where validate_intent validate_receipt is_identifier is_provider
    is_model is_host is_sha256 intent_values
reserve-sample = refl

-- Reserved, lost, reserved again: the second reservation is not granted.
abbrev script : List Operation
script = reserving sample ∷ losing "t1" "acme" "effect-1" (pos 1) "timeout" ∷ reserving sample ∷ []

grants-le-one_example :
    grants toy "acme" digest_a script [] + count_where (has_binding "acme" digest_a) [] ≤ 1
grants-le-one_example = grants-le-one toy "acme" digest_a script [] empty-HasUniqueKeys

history-HasUniqueKeys_example : HasUniqueKeys (history toy script [])
history-HasUniqueKeys_example = history-HasUniqueKeys toy script [] empty-HasUniqueKeys

history-final_example :
    find_where (has_id "acme" "effect-1") (history toy script (done_row ∷ [])) ≡ some done_row
unfolding find_where
history-final_example =
    history-final toy script (done_row ∷ []) "acme" "effect-1" done_row refl refl

perform-of_tenant_example :
    select_where (of_tenant "other") (perform toy (reserving sample) [])
    ≡ select_where (of_tenant "other") []
perform-of_tenant_example =
    perform-of_tenant toy (reserving sample) [] "other" (λ e. cc ((eq_iff "acme" "other").1 e))

reserve_again_example : reserve toy sample (done_row ∷ []) ≡ (
  ok (record { intent = with_receipt done_row end; executable = false; replayed = true }),
  done_row ∷ [],
)
unfolding find_where intent_from_mapping with_receipt
reserve_again_example =
    reserve_again toy sample (with_receipt done_row end) done_row (done_row ∷ []) sample_valid refl
      refl refl

reserve_conflict_example : reserve toy rival one_row ≡ (err key_conflict, one_row)
unfolding find_where intent_from_mapping with_receipt
reserve_conflict_example =
    reserve_conflict toy rival (with_receipt stored end) stored one_row rival_valid refl
      (λ e. cc ((eq_iff digest_a digest_b).1 e)) refl

valid_completion :
    check_transition toy "acme" "effect-1" (pos 1) (completion toy "copy" end) ≡ ok tt
unfolding check_transition validate_receipt is_identifier validate_identity is_sha256
    validate_output
valid_completion = refl

-- The first keys of a receipt of `execute`, in its order, and as the store reads them back.
abbrev paid : Fields
paid = field "provider_id" (text "openai") (field "model" (text "gpt-x") end)

abbrev paid_sorted : Fields
paid_sorted = field "model" (text "gpt-x") (field "provider_id" (text "openai") end)

-- A platform that writes and reads one document.
abbrev paying : Platform
paying = record {
  dumps = λ v. "paid";
  loads = λ s. some (dict paid_sorted);
  sha256 = λ s. digest_b;
}

valid_payment :
    check_transition paying "acme" "effect-1" (pos 1) (completion paying "copy" paid) ≡ ok tt
unfolding check_transition validate_receipt is_identifier validate_identity is_sha256
    validate_output
valid_payment = refl

complete_lem_example :
    let (result, t') = complete paying "t2" "acme" "effect-1" (pos 1) "copy" paid one_row in
    (intent : Intent) × (result ≡ ok intent)
    × (get paying "acme" "effect-1" t' ≡ ok intent)
    × (intent.status ≡ succeeded)
    × (intent.output_text ≡ "copy")
    × (intent.output_sha256 ≡ digest_b)
    × (intent.receipt ≡ paid_sorted)
    × (intent.completed_at ≡ some "t2")
    × (intent.binding_digest ≡ digest_a)
unfolding find_where validate_output validate_receipt canonical_json to_primitive primitive_fields
    insert_sorted leb_str
complete_lem_example =
    complete_lem paying "acme" "effect-1" (pos 1) stored one_row (one-HasUniqueKeys stored) refl
      "t2" "copy" paid refl refl valid_payment refl refl refl

revoke_unused-fences_example :
    let t' = (revoke_unused "t3" "acme" "run-1" "revoked" one_row).1 in
    (transition toy "t4" "acme" "effect-1" (pos 1) (completion toy "copy" end) t'
      ≡ (err not_pending, t'))
    × (find_where (has_id "acme" "effect-1") t' ≡ some (revoke "t3" "revoked" stored))
    × (eqb_ℤ (revoke "t3" "revoked" stored).execution_fencing_token (pos 1) ≡ false)
unfolding find_where validate_identity validate_reason is_identifier
revoke_unused-fences_example =
    revoke_unused-fences toy "t3" "t4" "acme" "run-1" "revoked" "effect-1"
      (completion toy "copy" end) stored one_row (one-HasUniqueKeys stored) refl refl refl refl
      valid_completion
