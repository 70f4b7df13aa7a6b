-- ===== src/Publication/Store/Tests.antt =====
-- Runs of the publication store, and its theorems at concrete tables.
use ai_native_content_agency.Prelude.{String, ◌+◌, ◌≤◌, ◌≡◌, refl, none, some, List, [], ◌∷◌, arith}
use ai_native_content_agency.Prelude.Int.{pos}
use ai_native_content_agency.Prelude.Tables.{find_where, count_where, update_where}
use ai_native_content_agency.Prelude.Text.{is_sha256, leb_str}
use ai_native_content_agency.Prelude.Results.{ok}
use ai_native_content_agency.Json.{
  Platform, Fields, text, field, dict, end, canonical_json, to_primitive, primitive_fields,
  insert_sorted,
}
use ai_native_content_agency.Publication.Intent.{
  Intent, Row, pending, succeeded, with_receipt, is_identifier, validate_identity,
  validate_provider_id, validate_receipt, validate_intent, intent_values, intent_from_mapping,
}
use ai_native_content_agency.Publication.Store.{
  Table, has_binding, has_id, reserve, check_transition, transition, assign, completion, complete,
}
use ai_native_content_agency.Publication.Store.Recovery.{
  Operation, reserving, completing, revoking, Filter, perform, history,
}
use ai_native_content_agency.Publication.Store.Once.{grants, publications-le-one}
use ai_native_content_agency.Publication.Store.Final.{
  is_open, publication-final, publication-complete_lem,
}

abbrev digest_a : String
digest_a = "aaaaaaaaaaaaaaaaaaaaaaaaaaaaaaaaaaaaaaaaaaaaaaaaaaaaaaaaaaaaaaaa"

-- A platform with one document and one digest.
abbrev toy : Platform
toy = record { dumps = λ v. "{}"; loads = λ s. some (dict end); sha256 = λ s. digest_a }

abbrev sample : Intent
sample = record {
  intent_id = "intent-1";
  tenant_id = "acme";
  channel_id = "x";
  account_id = "account-1";
  run_id = "run-1";
  artifact_id = "art-1";
  artifact_hash = digest_a;
  content_hash = digest_a;
  media_url_hash = none;
  media_hash = none;
  confirmation_hash = none;
  greenlight_id = "green-1";
  greenlight_fencing_token = pos 1;
  budget_cents = pos 0;
  idempotency_digest = digest_a;
  binding_digest = digest_a;
  status = pending;
  execution_fencing_token = pos 1;
  provider_container_id = none;
  provider_post_id = none;
  receipt = end;
  failure_reason = "";
  created_at = "t0";
  updated_at = "t0";
  completed_at = none;
  revoked_at = none;
}

abbrev one_row : Table
one_row = intent_values toy sample ∷ []

abbrev finished : Row
finished = assign toy "t1" (completion "post-1" end) (intent_values toy sample)

abbrev anything : Filter
anything = record { channel_id = none; account_id = none; run_id = none }

abbrev script : List Operation
script =
    reserving sample
    ∷ reserving (record sample { intent_id = "intent-2" })
    ∷ completing "t1" "acme" "intent-1" (pos 1) "post-1" end
    ∷ reserving sample
    ∷ revoking "t2" "acme" anything "budget"
    ∷ []

-- The script grants its binding once.
script-grants : grants toy "acme" digest_a script [] ≡ 1
unfolding grants perform reserve transition is_identifier is_sha256 intent_values
    intent_from_mapping validate_intent validate_receipt find_where count_where complete
    validate_identity validate_provider_id update_where
script-grants = refl

publications-le-one_example :
    grants toy "acme" digest_a script [] + count_where (has_binding "acme" digest_a) [] ≤ 1
unfolding count_where
publications-le-one_example = publications-le-one toy "acme" digest_a script [] (omega arith)

publication-final_example :
    find_where (has_id "acme" "intent-1") (history toy script (finished ∷ [])) ≡ some finished
unfolding is_open assign intent_values find_where
publication-final_example =
    publication-final "acme" "intent-1" finished refl toy script (finished ∷ []) refl

-- A receipt with its keys in no order, as the store reads it back, and a platform that does so.
abbrev posted : Fields
posted = field "provider" (text "x") (field "media" (text "none") end)

abbrev posted_sorted : Fields
posted_sorted = field "media" (text "none") (field "provider" (text "x") end)

abbrev posting : Platform
posting = record {
  dumps = λ v. "posted";
  loads = λ s. some (dict posted_sorted);
  sha256 = λ s. digest_a;
}

abbrev posted_row : Row
posted_row = record (intent_values toy sample) {
  status = succeeded;
  updated_at = "t1";
  provider_post_id = some "post-1";
  receipt = "posted";
  failure_reason = "";
  completed_at = some "t1";
}

publication-complete_lem_example :
    let out = complete posting "t1" "acme" "intent-1" (pos 1) "post-1" posted one_row in
    (find_where (has_id "acme" "intent-1") out.1 ≡ some posted_row)
    × (out.0 ≡ ok (with_receipt posted_row posted_sorted))
unfolding check_transition is_identifier intent_values find_where count_where validate_identity
    validate_provider_id validate_receipt canonical_json to_primitive primitive_fields insert_sorted
    leb_str
publication-complete_lem_example =
    publication-complete_lem posting "acme" "intent-1" (intent_values toy sample) one_row
      (omega arith) refl "t1" "post-1" posted (pos 1) refl refl
