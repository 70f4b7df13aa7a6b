-- ===== src/Audit/Tests.antt =====
-- Runs of the audit ledger, and its theorems at concrete ledgers.
use ai_native_content_agency.Prelude.{String, ◌≡◌, refl, some, [], arith, eq_iff}
use ai_native_content_agency.Prelude.Tables.{length, find_where, count_where, select_where}
use ai_native_content_agency.Prelude.Text.{is_sha256}
use ai_native_content_agency.Prelude.Results.{ok, err}
use ai_native_content_agency.Json.{Platform, dict, end, canonical_json, to_primitive, is_blank}
use ai_native_content_agency.Audit.{
  Write, Head, Ledger, Checkpoint, genesis, event_of, head_of, audit_event_hash,
  append_audit_locked, verify_events, check_head, verify_audit_chain, head_mismatch, previous_of,
  count_of,
}
use ai_native_content_agency.Audit.Chain.{IsChained}
use ai_native_content_agency.Audit.Soundness.{Links, HeadAgrees, verify-Links}
use ai_native_content_agency.Audit.Verification.{
  append-IsChained, append-other-IsChained, verify-IsChained, verify-late_append,
}

abbrev digest_a : String
digest_a = "aaaaaaaaaaaaaaaaaaaaaaaaaaaaaaaaaaaaaaaaaaaaaaaaaaaaaaaaaaaaaaaa"

-- A platform with one document for payloads and one digest.
abbrev toy : Platform
toy = record { dumps = λ v. "{}"; loads = λ s. some (dict end); sha256 = λ s. digest_a }

abbrev write : Write
write = record {
  request_id = "request-1";
  action = "run.created";
  resource_type = "run";
  resource_id = "run-1";
  actor = "subject-1";
  payload = end;
  event_id = "";
}

abbrev empty_ledger : Ledger
empty_ledger = record { events = []; heads = [] }

abbrev first_ledger : Ledger
first_ledger = (append_audit_locked toy "t1" "audit-1" "acme" write empty_ledger).1

abbrev second_ledger : Ledger
second_ledger = (append_audit_locked toy "t2" "audit-2" "acme" write first_ledger).1

empty-IsChained : IsChained toy "acme" empty_ledger
unfolding verify_events check_head previous_of count_of select_where find_where
empty-IsChained = record { last = ""; verified = refl; headed = refl; counted = refl }

first-IsChained : IsChained toy "acme" first_ledger
unfolding append_audit_locked audit_event_hash is_sha256 canonical_json to_primitive find_where
    count_where
first-IsChained =
    append-IsChained toy "t1" "audit-1" "acme" write empty_ledger first_ledger refl refl
      empty-IsChained

append-IsChained_example : IsChained toy "acme" second_ledger
unfolding append_audit_locked audit_event_hash is_sha256 canonical_json to_primitive find_where
    count_where
append-IsChained_example =
    append-IsChained toy "t2" "audit-2" "acme" write first_ledger second_ledger refl refl
      first-IsChained

append-other-IsChained_example :
    IsChained toy "acme" (append_audit_locked toy "t2" "audit-2" "globex" write first_ledger).1
append-other-IsChained_example =
    append-other-IsChained toy "t2" "audit-2" "globex" "acme" write first_ledger
      (ground (arith, eq_iff "globex" "acme")) first-IsChained

abbrev first_head : Head
first_head = record {
  tenant_id = "acme";
  event_count = 1;
  head_event_id = "audit-1";
  head_hash = digest_a;
}

abbrev first_checkpoint : Checkpoint
first_checkpoint = record {
  tenant_id = "acme";
  event_count = 1;
  head_event_id = "audit-1";
  head_hash = digest_a;
  verified_at = "t3";
}

first_verified : verify_audit_chain toy "t3" "acme" first_ledger first_ledger ≡ ok first_checkpoint
unfolding append_audit_locked audit_event_hash is_sha256 canonical_json to_primitive find_where
    count_where is_blank
first_verified =
    verify-IsChained toy "t3" "acme" first_ledger first_head refl refl refl refl refl refl
      first-IsChained

verify-Links_example :
    let own = select_where (event_of "acme") first_ledger.events in
    (first_checkpoint.tenant_id ≡ "acme")
    × (first_checkpoint.event_count ≡ length own)
    × Links toy genesis "" own digest_a "audit-1"
    × HeadAgrees own (find_where (head_of "acme") first_ledger.heads) first_checkpoint
verify-Links_example =
    verify-Links toy "t3" "acme" first_ledger first_ledger first_checkpoint first_verified

verify-late_append_example :
    verify_audit_chain toy "t3" "acme" first_ledger second_ledger ≡ err head_mismatch
unfolding append_audit_locked audit_event_hash is_sha256 canonical_json to_primitive find_where
    count_where is_blank
verify-late_append_example =
    verify-late_append toy "t3" "t2" "audit-2" "acme" write first_ledger second_ledger first_head
      refl refl refl first-IsChained
