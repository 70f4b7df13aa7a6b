-- ===== src/Runs/Receipts.antt =====
-- Saving a run in backend/agency_runtime/persistence.py: against a stale status, and with a receipt
-- that exists.
use ai_native_content_agency.Prelude.{
  ℕ, String, ◌≤◌, ◌≡◌, ◌≢◌, refl, true, false, Option, some, arith, eq_iff, ◌∙◌,
}
use ai_native_content_agency.Prelude.Tables.{find_where, count_where, count_narrow, count_mono}
use ai_native_content_agency.Prelude.Text.{is_empty, is_sha256}
use ai_native_content_agency.Prelude.Results.{ok, err}
use ai_native_content_agency.Json.{Platform, Value, is_blank}
use ai_native_content_agency.Audit.{
  integrity, Event, Write, Ledger, has_event_id, append_audit_locked, store_event, new_event,
  head_of, previous_of,
}
use ai_native_content_agency.Runs.{
  Run, Row, Store, Error, receipt_exists, state_conflict, audit_failed, has_run, is_expected,
  has_event, audit_event, append_optional, integrity_error, raised, commit, missed, save,
}

-- When the stored run, alone with its key, has another status than the caller expects, a save raises
-- the conflict and changes nothing.
pub save-stale :
    (lib : Platform) (now later fresh tenant_id : String) (run : Run) (audit : Option Write)
    (status : String) (seen : Ledger) (store : Store) (row : Row)
    → count_where (has_run tenant_id run.run_id) store.runs ≤ 1
    → find_where (has_run tenant_id run.run_id) store.runs ≡ some row
    → row.status ≢ status
    → save lib now later fresh tenant_id run audit (some status) seen store
      ≡ (err state_conflict, store)
unfolding save missed
save-stale lib now later fresh tenant_id run audit status seen store row alone found differs =
    let none_expected : count_where (is_expected tenant_id run.run_id (some status)) store.runs
        ≡ 0 =
      count_narrow (is_expected tenant_id run.run_id (some status)) (has_run tenant_id run.run_id)
        store.runs {x = row} (λ y h. ground arith) alone found
      ∙ ground (arith, eq_iff row.status status) in
    rw (none_expected, found) refl

store_event-taken :
    (event : Event) (n : ℕ) (ledger : Ledger)
    → 1 ≤ count_where (has_event_id event.event_id) ledger.events
    → store_event event n ledger ≡ (err integrity, ledger)
unfolding store_event
store_event-taken event n ledger h = ground arith

append-taken :
    (lib : Platform) (now fresh tenant_id : String) (audit : Write) (ledger : Ledger)
    → is_sha256 (previous_of (find_where (head_of tenant_id) ledger.heads)) ≡ true
    → is_empty audit.event_id ≡ false
    → 1 ≤ count_where (has_event_id audit.event_id) ledger.events
    → append_audit_locked lib now fresh tenant_id audit ledger ≡ (err integrity, ledger)
unfolding append_audit_locked new_event
append-taken lib now fresh tenant_id audit ledger chained given taken =
    rw (chained, given) (store_event-taken _ _ ledger taken)

is_blank-full : (value : String) → is_blank value ≡ false → is_empty value ≡ false
unfolding is_blank
is_blank-full value h = ground arith

audit_event-found :
    (lib : Platform) (tenant_id event_id : String) (seen : Ledger) (event : Event) (payload : Value)
    → is_blank tenant_id ≡ false
    → is_blank event_id ≡ false
    → find_where (has_event tenant_id event_id) seen.events ≡ some event
    → lib.loads event.payload_json ≡ some payload
    → audit_event lib tenant_id event_id seen ≡ ok (some event)
unfolding audit_event
audit_event-found lib tenant_id event_id seen event payload named given there reads =
    rw (named, given, there, reads) refl

integrity_error-receipt :
    (lib : Platform) (tenant_id : String) (audit : Write) (seen : Ledger) (otherwise : Error)
    (event : Event) (payload : Value)
    → is_blank tenant_id ≡ false
    → is_blank audit.event_id ≡ false
    → find_where (has_event tenant_id audit.event_id) seen.events ≡ some event
    → lib.loads event.payload_json ≡ some payload
    → integrity_error lib tenant_id (some audit) seen otherwise ≡ receipt_exists
unfolding integrity_error
integrity_error-receipt lib tenant_id audit seen otherwise event payload named given there reads =
    rw
      (
        is_blank-full audit.event_id given,
        audit_event-found lib tenant_id audit.event_id seen event payload named given there reads,
      )
      refl

-- A tenant's ledger holds the event that is a command's receipt, and the handler still finds it
-- there, with a payload that the JSON parser reads. The tenant's last hash is a digest, and neither
-- the tenant nor the event id is blank. Then a save with that receipt that would update a run raises
-- that the receipt exists, and changes neither the runs nor the ledger.
pub save-once :
    (lib : Platform) (now later fresh tenant_id : String) (run : Run) (audit : Write)
    (expected : Option String) (seen : Ledger) (store : Store) (event : Event) (payload : Value)
    → is_blank tenant_id ≡ false
    → is_blank audit.event_id ≡ false
    → is_sha256 (previous_of (find_where (head_of tenant_id) store.ledger.heads)) ≡ true
    → 1 ≤ count_where (has_event tenant_id audit.event_id) store.ledger.events
    → find_where (has_event tenant_id audit.event_id) seen.events ≡ some event
    → lib.loads event.payload_json ≡ some payload
    → count_where (is_expected tenant_id run.run_id expected) store.runs ≡ 1
    → save lib now later fresh tenant_id run (some audit) expected seen store
      ≡ (err receipt_exists, store)
unfolding save append_optional commit raised
save-once lib now later fresh tenant_id run audit expected seen store event payload named given
      chained held there reads live =
    let taken : 1 ≤ count_where (has_event_id audit.event_id) store.ledger.events = omega (
      arith,
      held,
      count_mono (has_event tenant_id audit.event_id) (has_event_id audit.event_id)
          store.ledger.events
          (λ (x : Event) (p : has_event tenant_id audit.event_id x ≡ true). ground arith),
    ) in
    rw
      (
        live,
        append-taken lib later fresh tenant_id audit store.ledger chained
            (is_blank-full audit.event_id given) taken,
        integrity_error-receipt lib tenant_id audit seen (audit_failed integrity) event payload
            named given there reads,
      )
      refl
