-- ===== src/Runs/Tests.antt =====
-- The theorems on saving runs at a concrete store.
use ai_native_content_agency.Prelude.{String, ◌≡◌, refl, some, [], ◌∷◌, arith, eq_iff}
use ai_native_content_agency.Prelude.Tables.{find_where, count_where}
use ai_native_content_agency.Prelude.Text.{is_sha256, strip}
use ai_native_content_agency.Prelude.Results.{err}
use ai_native_content_agency.Json.{Platform, dict, end, is_blank, canonical_json}
use ai_native_content_agency.Audit.{
  Write, Event, Ledger, genesis, append_audit_locked, audit_event_hash,
}
use ai_native_content_agency.Runs.{Run, Store, receipt_exists, state_conflict, new_row, save}
use ai_native_content_agency.Runs.Receipts.{save-stale, save-once}

abbrev digest_a : String
digest_a = "aaaaaaaaaaaaaaaaaaaaaaaaaaaaaaaaaaaaaaaaaaaaaaaaaaaaaaaaaaaaaaaa"

-- A platform with one document and one digest.
abbrev toy : Platform
toy = record { dumps = λ v. "{}"; loads = λ s. some (dict end); sha256 = λ s. digest_a }

abbrev receipt : Write
receipt = record {
  request_id = "request-1";
  action = "run.advanced";
  resource_type = "run";
  resource_id = "run-1";
  actor = "subject-1";
  payload = end;
  event_id = "receipt-1";
}

abbrev queued : Run
queued = record { run_id = "run-1"; status = "queued"; document = end }

abbrev running : Run
running = record queued { status = "running" }

abbrev empty_ledger : Ledger
empty_ledger = record { events = []; heads = [] }

abbrev written : Ledger
written = (append_audit_locked toy "t1" "audit-1" "acme" receipt empty_ledger).1

abbrev store : Store
store = record { runs = new_row toy "t0" "acme" queued ∷ []; ledger = written }

save-stale_example :
    save toy "t2" "t3" "audit-2" "acme" running (some receipt) (some "paused") written store
    ≡ (err state_conflict, store)
unfolding new_row find_where count_where
save-stale_example =
    save-stale toy "t2" "t3" "audit-2" "acme" running (some receipt) "paused" written store
      (new_row toy "t0" "acme" queued) (omega arith) refl (ground (arith, eq_iff "queued" "paused"))

-- The event that the first append of the receipt writes.
abbrev first_event : Event
first_event = record {
  event_id = "receipt-1";
  tenant_id = "acme";
  request_id = "request-1";
  occurred_at = "t1";
  action = "run.advanced";
  resource_type = "run";
  resource_id = "run-1";
  actor = "subject-1";
  payload_json = "{}";
  previous_hash = genesis;
  event_hash = digest_a;
}

save-once_example :
    save toy "t2" "t3" "audit-2" "acme" running (some receipt) (some "queued") written store
    ≡ (err receipt_exists, store)
unfolding append_audit_locked audit_event_hash is_sha256 new_row find_where count_where is_blank
    strip canonical_json
save-once_example =
    save-once toy "t2" "t3" "audit-2" "acme" running receipt (some "queued") written store
      first_event (dict end) refl refl refl (omega arith) refl refl refl
