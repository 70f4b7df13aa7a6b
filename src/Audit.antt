-- ===== src/Audit.antt =====
-- `verify_audit_chain` of backend/agency_runtime/persistence.py and the checkpoint of
-- backend/agency_runtime/audit_integrity.py, on the ledger of the module Append. Both tables are one
-- state, under one lock.
pub mod Append
pub mod Chain
pub mod Soundness
pub mod Verification
mod Tests
pub use ai_native_content_agency.Audit.Append.{
  Write, Event, Head, Ledger, Error, genesis, head_of, event_of, has_event_id, id_of, blank_field,
  invalid_previous, linkage, event_hash_invalid, head_without_events, head_mismatch,
  checkpoint_invalid, json_error, integrity,
}
unfoldable pub use ai_native_content_agency.Audit.Append.{
  document, audit_event_hash, check_write, previous_of, count_of, upsert_head, new_event,
  store_event, append_hashed, append_audit_locked, append_audit,
}
use ai_native_content_agency.Prelude.{
  ℕ, suc, String, Bool, true, false, not, ◌+◌, ◌&&◌, ◌||◌, Option, none, some, List, [], ◌∷◌, ◌++◌,
  ◌==◌,
}
use ai_native_content_agency.Prelude.Tests.{eqb, if◌then◌else◌}
use ai_native_content_agency.Prelude.Tables.{
  length, find_where, count_where, update_where, select_where,
}
use ai_native_content_agency.Prelude.Text.{is_empty, is_sha256}
use ai_native_content_agency.Prelude.Results.{Result, ok, err, ◌>>=◌, ◌>>◌, raise_if}
use ai_native_content_agency.Json.{
  Value, Items, Fields, Platform, text, dict, list, nil, cons, canonical_json, is_blank,
}

-- The payload is parsed again for the hash.
unfoldable pub event_doc : Event → Value → String → Value
unfolding document
event_doc event payload previous =
    document event.event_id event.tenant_id event.request_id event.occurred_at event.action
      event.resource_type event.resource_id event.actor payload previous

unfoldable pub parse_payload : Option Value → Result Error Value
parse_payload none = err json_error
parse_payload (some v) = ok v

-- One round of the loop of `verify_audit_chain`.
unfoldable pub check_event : Platform → Event → String → Result Error (Unit {0})
unfolding audit_event_hash event_doc parse_payload
check_event lib event previous = do
  payload ← parse_payload (lib.loads event.payload_json)
  raise_if (not (event.previous_hash == previous)) linkage
  expected ← audit_event_hash lib (event_doc event payload previous) previous
  raise_if (not (event.event_hash == expected)) event_hash_invalid

-- The loop: the last hash and event id.
unfoldable pub verify_events :
    Platform → List Event → String → String → Result Error (String × String)
verify_events lib [] previous last = ok (previous, last)
verify_events lib (event ∷ events) previous last =
    let rest = verify_events lib events event.event_hash event.event_id in
    check_event lib event previous >> rest

-- The head that the loop must have reached.
unfoldable pub check_head : List Event → Option Head → String × String → Result Error (Unit {0})
check_head [] none found = ok tt
check_head [] (some head) found = err head_without_events
check_head (event ∷ events) none found = err head_mismatch
check_head (event ∷ events) (some head) found =
    raise_if
      (not (eqb head.event_count (length (event ∷ events)))
        || not (head.head_event_id == found.1)
        || not (head.head_hash == found.0))
      head_mismatch

-- `AuditChainCheckpoint`
pub record Checkpoint : Type 0 where
  pub tenant_id : String
  pub event_count : ℕ
  pub head_event_id : String
  pub head_hash : String
  pub verified_at : String

-- `AuditChainCheckpoint.__post_init__`
unfoldable pub make_checkpoint : Checkpoint → Result Error Checkpoint
make_checkpoint c =
    raise_if
      (is_empty c.tenant_id
        || (if eqb c.event_count 0
            then not (is_empty c.head_event_id) || not (c.head_hash == genesis)
            else is_empty c.head_event_id || not (is_sha256 c.head_hash))
        || is_empty c.verified_at)
      checkpoint_invalid
    >> ok c

-- The events are read from `ledger` and the head from `later`: the lock is released in between, so
-- `later` is the ledger after whatever other threads have appended by then.
unfoldable pub verify_audit_chain :
    Platform → String → String → Ledger → Ledger → Result Error Checkpoint
unfolding verify_events check_event check_head make_checkpoint is_blank
verify_audit_chain lib now tenant_id ledger later = do
  raise_if (is_blank tenant_id) blank_field
  found ← verify_events lib (select_where (event_of tenant_id) ledger.events) genesis ""
  check_head (select_where (event_of tenant_id) ledger.events)
      (find_where (head_of tenant_id) later.heads) found
  make_checkpoint (record {
    tenant_id = tenant_id;
    event_count = length (select_where (event_of tenant_id) ledger.events);
    head_event_id = found.1;
    head_hash = found.0;
    verified_at = now;
  })
