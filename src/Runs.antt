-- ===== src/Runs.antt =====
-- The run store (backend/agency_runtime/persistence.py: `create`, `save` and `get` of the table
-- `runtime_runs`). A run is its identifier, the value of its status and the document that
-- `execution_run_to_document` makes of it; an `AuditWrite` has passed its own check before the call.
pub mod Receipts
mod Tests
use ai_native_content_agency.Prelude.{
  String, Bool, true, false, not, ◌&&◌, ◌||◌, Option, none, some, List, [], ◌∷◌, ◌++◌, ◌==◌,
}
use ai_native_content_agency.Prelude.Tests.{eqb, if◌then◌else◌}
use ai_native_content_agency.Prelude.Tables.{find_where, count_where, update_where}
use ai_native_content_agency.Prelude.Text.{is_empty}
use ai_native_content_agency.Prelude.Results.{Result, ok, err}
use ai_native_content_agency.Json.{Platform, Value, Fields, dict, canonical_json, is_blank}
use ai_native_content_agency.Audit.{
  Error as AuditError, integrity, Event, Write, Ledger, append_audit_locked,
}

pub record Run : Type 0 where
  pub run_id : String
  pub status : String
  pub document : Fields

-- A row of `runtime_runs`.
pub record Row : Type 0 where
  pub tenant_id : String
  pub run_id : String
  pub status : String
  pub document_json : String
  pub created_at : String
  pub updated_at : String

pub record Store : Type 0 where
  pub runs : List Row
  pub ledger : Ledger

-- AuditEventConflictError, the two ValueErrors, KeyError, RunStateConflictError, a JSON error and what
-- the audit append raises.
pub data Error : Type 0 where
  receipt_exists run_exists blank_key run_not_found state_conflict bad_document : Error
  audit_failed : AuditError → Error

abbrev pub has_run : String → String → Row → Bool
has_run tenant_id run_id row = row.tenant_id == tenant_id && row.run_id == run_id

abbrev pub has_status : Option String → Row → Bool
has_status none row = true
has_status (some status) row = row.status == status

-- The WHERE clause of `save`.
abbrev pub is_expected : String → String → Option String → Row → Bool
is_expected tenant_id run_id expected row = has_run tenant_id run_id row && has_status expected row

abbrev pub has_event : String → String → Event → Bool
has_event tenant_id event_id event = event.tenant_id == tenant_id && event.event_id == event_id

-- `_row_to_audit_event`, by what the parser makes of the payload.
parsed : Event → Option Value → Result Error (Option Event)
parsed event none = err bad_document
parsed event (some _) = ok (some event)

read_event : Platform → Option Event → Result Error (Option Event)
unfolding parsed
read_event lib none = ok none
read_event lib (some event) = parsed event (lib.loads event.payload_json)

-- Both arguments pass `require_non_empty`.
unfoldable pub audit_event : Platform → String → String → Ledger → Result Error (Option Event)
unfolding is_blank read_event
audit_event lib tenant_id event_id ledger =
    if is_blank tenant_id || is_blank event_id
    then err blank_key
    else read_event lib (find_where (has_event tenant_id event_id) ledger.events)

-- `if audit is not None: self._append_audit_locked(tenant_id, audit)`
unfoldable pub append_optional :
    Platform
    → String
    → String
    → String
    → Option Write
    → Ledger
    → Result AuditError (Unit {0}) × Ledger
unfolding append_audit_locked
append_optional lib now fresh tenant_id none ledger = (ok tt, ledger)
append_optional lib now fresh tenant_id (some audit) ledger =
    append_audit_locked lib now fresh tenant_id audit ledger

-- What the handler raises, by what `audit_event` returns or raises in it.
handled : Result Error (Option Event) → Error → Error
handled (err e) otherwise = e
handled (ok none) otherwise = otherwise
handled (ok (some _)) otherwise = receipt_exists

-- The handler of an IntegrityError, which is `otherwise` if it is not about the receipt; `seen` is
-- the ledger when the handler reads it, after the rollback.
unfoldable pub integrity_error : Platform → String → Option Write → Ledger → Error → Error
unfolding handled
integrity_error lib tenant_id none seen otherwise = otherwise
integrity_error lib tenant_id (some audit) seen otherwise =
    if is_empty audit.event_id
    then otherwise
    else handled (audit_event lib tenant_id audit.event_id seen) otherwise

-- What an append raises leaves the transaction through the handler, or passes it by.
unfoldable pub raised : Platform → String → Option Write → Ledger → Error → AuditError → Error
unfolding integrity_error
raised lib tenant_id audit seen otherwise integrity =
    integrity_error lib tenant_id audit seen otherwise
raised lib tenant_id audit seen otherwise e = audit_failed e

-- The end of the transaction: the runs and the event, or neither.
unfoldable pub commit :
    Platform
    → String
    → Run
    → Option Write
    → Ledger
    → Error
    → List Row
    → Result AuditError (Unit {0}) × Ledger
    → Store
    → Result Error Run × Store
unfolding raised
commit lib tenant_id run audit seen otherwise runs (ok _, ledger) store =
    (ok run, record { runs = runs; ledger = ledger })
commit lib tenant_id run audit seen otherwise runs (err e, ledger) store =
    (err (raised lib tenant_id audit seen otherwise e), store)

unfoldable pub new_row : Platform → String → String → Run → Row
unfolding canonical_json
new_row lib now tenant_id run = record {
  tenant_id = tenant_id;
  run_id = run.run_id;
  status = run.status;
  document_json = canonical_json lib (dict run.document);
  created_at = now;
  updated_at = now;
}

-- PRIMARY KEY (tenant_id, run_id)
unfoldable pub create :
    Platform
    → String
    → String
    → String
    → String
    → Run
    → Option Write
    → Ledger
    → Store
    → Result Error Run × Store
unfolding commit append_optional new_row integrity_error
create lib now later fresh tenant_id run audit seen store =
    if eqb (count_where (has_run tenant_id run.run_id) store.runs) 0
    then commit lib tenant_id run audit seen run_exists
        (store.runs ++ new_row lib now tenant_id run ∷ [])
        (append_optional lib later fresh tenant_id audit store.ledger) store
    else (err (integrity_error lib tenant_id audit seen run_exists), store)

unfoldable pub assign : Platform → String → Run → Row → Row
unfolding canonical_json
assign lib now run row = record row {
  status = run.status;
  document_json = canonical_json lib (dict run.document);
  updated_at = now;
}

-- No row was updated: there is none, or its status is another.
unfoldable pub missed : Option Row → Error
missed none = run_not_found
missed (some _) = state_conflict

unfoldable pub save :
    Platform
    → String
    → String
    → String
    → String
    → Run
    → Option Write
    → Option String
    → Ledger
    → Store
    → Result Error Run × Store
unfolding commit append_optional assign missed
save lib now later fresh tenant_id run audit expected seen store =
    if eqb (count_where (is_expected tenant_id run.run_id expected) store.runs) 1
    then commit lib tenant_id run audit seen (audit_failed integrity)
        (update_where (is_expected tenant_id run.run_id expected) (assign lib now run) store.runs)
        (append_optional lib later fresh tenant_id audit store.ledger) store
    else (err (missed (find_where (has_run tenant_id run.run_id) store.runs)), store)

unfoldable pub parse_document : Option Value → Result Error Value
parse_document none = err bad_document
parse_document (some v) = ok v

unfoldable pub read_row : Platform → Option Row → Result Error Value
unfolding parse_document
read_row lib none = err run_not_found
read_row lib (some row) = parse_document (lib.loads row.document_json)

-- The document that `execution_run_from_document` reads.
unfoldable pub get : Platform → String → String → Store → Result Error Value
unfolding read_row
get lib tenant_id run_id store = read_row lib (find_where (has_run tenant_id run_id) store.runs)
