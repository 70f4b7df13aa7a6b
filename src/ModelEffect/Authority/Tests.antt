-- ===== src/ModelEffect/Authority/Tests.antt =====
-- Runs of `execute`, and its theorems at a concrete gateway.
use ai_native_content_agency.Prelude.{String, ◌+◌, ◌≤◌, ◌≡◌, ◌≢◌, refl, true, some, [], ◌∷◌, arith}
use ai_native_content_agency.Prelude.Int.{pos}
use ai_native_content_agency.Prelude.Tables.{find_where, count_where}
use ai_native_content_agency.Prelude.Text.{is_sha256, strip}
use ai_native_content_agency.Prelude.Results.{ok, err}
use ai_native_content_agency.Json.{Platform, dict, end, stable_id}
use ai_native_content_agency.ModelEffect.Intent.{
  pending, validate_intent, validate_receipt, is_identifier, is_provider, is_model, is_host,
  intent_values,
}
use ai_native_content_agency.ModelEffect.Store.{has_binding, has_id, reserve}
use ai_native_content_agency.ModelEffect.Store.Recovery.{revoking}
use ai_native_content_agency.ModelEffect.Store.Invariants.{HasUniqueKeys}
use ai_native_content_agency.ModelEffect.Authority.{
  Outcome, returned, caught, uncaught, Gateway, Command, Descriptor, Answer, gateway_error,
  validate_command, build_intent, execute,
}
use ai_native_content_agency.ModelEffect.Authority.Once.{Call, asks, asks-le-one}
use ai_native_content_agency.ModelEffect.Authority.Settled.{IsSettled, execute-IsSettled}
use ai_native_content_agency.ModelEffect.Authority.Uncaught.{execute-uncaught}

abbrev digest_a : String
digest_a = "aaaaaaaaaaaaaaaaaaaaaaaaaaaaaaaaaaaaaaaaaaaaaaaaaaaaaaaaaaaaaaaa"

abbrev toy : Platform
toy = record { dumps = λ v. "{}"; loads = λ s. some (dict end); sha256 = λ s. digest_a }

abbrev shown : Descriptor
shown = record {
  provider_id = "openai";
  model = "gpt-x";
  endpoint_host = "api.example.com";
  request_sha256 = digest_a;
  max_output_tokens = pos 512;
}

abbrev answer : Answer
answer = record {
  output = "copy";
  receipt = record {
    provider_id = "openai";
    model = "gpt-x";
    provider_request_id = "r1";
    input_tokens = pos 3;
    output_tokens = pos 4;
    total_tokens = pos 7;
    request_sha256 = digest_a;
    output_sha256 = digest_a;
  };
}

-- A provider that answers, and one that fails.
abbrev answering : Gateway
answering = record { describe = λ r. returned shown; complete = λ r. returned answer }

abbrev failing : Gateway
failing = record { describe = λ r. returned shown; complete = λ r. caught }

-- A provider whose answer breaks the gateway.
abbrev breaking : Gateway
breaking = record { describe = λ r. returned shown; complete = λ r. uncaught }

abbrev command : Command
command = record {
  tenant_id = "acme";
  run_id = "run-1";
  station = "writer";
  source_artifact_id = "art-1";
  source_artifact_hash = digest_a;
  instruction = "Tighten";
  max_cost_micros = pos 1000;
  idempotency_key = "key-00001";
  request = record { request_id = "q1"; user = "text"; system = "" };
}

empty-HasUniqueKeys : HasUniqueKeys []
unfolding count_where
empty-HasUniqueKeys = record {
  ids = λ e. omega arith;
  keys = λ tn d. omega arith;
  bindings = λ tn d. omega arith;
}

abbrev call : Call
call = record {
  enabled = true;
  now = "t1";
  later = "t2";
  meanwhile = revoking "t1" "acme" "run-1" "revoked" ∷ [];
  command = command;
}

asks-le-one_example :
    asks toy answering "acme" digest_a (call ∷ call ∷ []) []
      + count_where (has_binding "acme" digest_a) []
    ≤ 1
asks-le-one_example =
    asks-le-one toy answering "acme" digest_a (call ∷ call ∷ []) [] empty-HasUniqueKeys

valid_command : validate_command command ≡ ok command
unfolding validate_command is_sha256 strip
valid_command = refl

failing-asked : (execute toy failing true "t1" "t2" [] command []).asked ≡ true
unfolding execute validate_command is_sha256 strip build_intent stable_id reserve validate_intent
    validate_receipt is_identifier is_provider is_model is_host count_where find_where intent_values
failing-asked = refl

caught-known : ◌≢◌ {A = Outcome Answer} caught uncaught
caught-known h = cc

execute-IsSettled_example :
    IsSettled "acme"
      (build_intent toy "t1" command shown).effect_id
      (execute toy failing true "t1" "t2" [] command []).table
unfolding build_intent
execute-IsSettled_example =
    execute-IsSettled toy failing "t1" "t2" [] command command shown [] empty-HasUniqueKeys
      valid_command refl caught-known failing-asked

breaking-asked : (execute toy breaking true "t1" "t2" [] command []).asked ≡ true
unfolding execute validate_command is_sha256 strip build_intent stable_id reserve validate_intent
    validate_receipt is_identifier is_provider is_model is_host count_where find_where intent_values
breaking-asked = refl

execute-uncaught_example :
    let run = execute toy breaking true "t1" "t2" [] command [] in
    let intent = build_intent toy "t1" command shown in
    (run.result ≡ err gateway_error)
    × (find_where (has_id intent.tenant_id intent.effect_id) run.table
        ≡ some (intent_values toy intent))
    × ((intent_values toy intent).status ≡ pending)
execute-uncaught_example =
    execute-uncaught toy breaking "t1" "t2" command command shown [] valid_command refl refl
      breaking-asked
