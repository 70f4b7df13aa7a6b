-- ===== src/Audit/Append.antt =====
-- The audit ledger and what `append_audit` of backend/agency_runtime/persistence.py writes to it, with
-- the hash of backend/agency_runtime/audit_integrity.py.
use ai_native_content_agency.Prelude.{
  ℕ, String, Bool, not, ◌+◌, ◌&&◌, ◌||◌, Option, none, some, List, [], ◌∷◌, ◌++◌, ◌==◌,
}
use ai_native_content_agency.Prelude.Tests.{eqb, if◌then◌else◌}
use ai_native_content_agency.Prelude.Tables.{find_where, count_where}
use ai_native_content_agency.Prelude.Text.{is_empty, is_sha256}
use ai_native_content_agency.Prelude.Results.{Result, ok, err, ◌>>◌, raise_if}
use ai_native_content_agency.Json.{
  Value, Fields, Platform, text, dict, list, nil, cons, canonical_json, is_blank,
}

-- `AuditWrite`
pub record Write : Type 0 where
  pub request_id : String
  pub action : String
  pub resource_type : String
  pub resource_id : String
  pub actor : String
  pub payload : Fields
  pub event_id : String

-- A row of `audit_events`; the sequence number is the row's place.
pub record Event : Type 0 where
  pub event_id : String
  pub tenant_id : String
  pub request_id : String
  pub occurred_at : String
  pub action : String
  pub resource_type : String
  pub resource_id : String
  pub actor : String
  pub payload_json : String
  pub previous_hash : String
  pub event_hash : String

-- A row of `audit_chain_heads`.
pub record Head : Type 0 where
  pub tenant_id : String
  pub event_count : ℕ
  pub head_event_id : String
  pub head_hash : String

pub record Ledger : Type 0 where
  pub events : List Event
  pub heads : List Head

-- ValueErrors, AuditIntegrityErrors, IntegrityError and JSON errors.
pub data Error : Type 0 where
  blank_field invalid_previous linkage event_hash_invalid head_without_events : Error
  head_mismatch checkpoint_invalid json_error integrity : Error

abbrev pub genesis : String
genesis = "0000000000000000000000000000000000000000000000000000000000000000"

-- The tuple that is hashed.
unfoldable pub document :
    String → String → String → String → String → String → String → String → Value → String → Value
document event_id tenant_id request_id occurred_at action resource_type resource_id actor payload
      previous_hash =
    list (
      cons (text "audit-chain.v1") (
        cons (text event_id) (
          cons (text tenant_id) (
            cons (text request_id) (
              cons (text occurred_at) (
                cons (text action) (
                  cons (text resource_type) (
                    cons (text resource_id)
                      (cons (text actor) (cons payload (cons (text previous_hash) nil)))))))))))

unfoldable pub audit_event_hash : Platform → Value → String → Result Error String
audit_event_hash lib doc previous_hash =
    raise_if (not (is_sha256 previous_hash)) invalid_previous
    >> ok (lib.sha256 (canonical_json lib doc))

-- `AuditWrite.__post_init__`
unfoldable pub check_write : Write → Result Error (Unit {0})
unfolding is_blank
check_write audit =
    raise_if
      (is_blank audit.request_id
        || is_blank audit.action
        || is_blank audit.resource_type
        || is_blank audit.resource_id
        || is_blank audit.actor
        || not (is_empty audit.event_id) && is_blank audit.event_id)
      blank_field

abbrev pub head_of : String → Head → Bool
head_of tenant_id head = head.tenant_id == tenant_id

abbrev pub event_of : String → Event → Bool
event_of tenant_id event = event.tenant_id == tenant_id

abbrev pub has_event_id : String → Event → Bool
has_event_id event_id event = event.event_id == event_id

unfoldable pub previous_of : Option Head → String
previous_of none = genesis
previous_of (some head) = head.head_hash

unfoldable pub count_of : Option Head → ℕ
count_of none = 0
count_of (some head) = head.event_count

-- INSERT ... ON CONFLICT(tenant_id) DO UPDATE
unfoldable pub upsert_head : Head → List Head → List Head
upsert_head head [] = head ∷ []
upsert_head head (old ∷ heads) =
    let rest = upsert_head head heads in
    if old.tenant_id == head.tenant_id then head ∷ heads else old ∷ rest

-- The row that `_append_audit_locked` writes, once its hash is known.
unfoldable pub new_event : Platform → String → String → String → Write → String → String → Event
new_event lib now tenant_id event_id audit previous hash = record {
  event_id = event_id;
  tenant_id = tenant_id;
  request_id = audit.request_id;
  occurred_at = now;
  action = audit.action;
  resource_type = audit.resource_type;
  resource_id = audit.resource_id;
  actor = audit.actor;
  payload_json = canonical_json lib (dict audit.payload);
  previous_hash = previous;
  event_hash = hash;
}

-- The INSERT and the UPSERT; `event_id` is UNIQUE, and an IntegrityError rolls both back.
unfoldable pub store_event : Event → ℕ → Ledger → Result Error (Unit {0}) × Ledger
unfolding upsert_head
store_event event count ledger =
    if eqb (count_where (has_event_id event.event_id) ledger.events) 0
    then (
      ok tt,
      record {
        events = ledger.events ++ event ∷ [];
        heads =
            upsert_head
              (record {
                tenant_id = event.tenant_id;
                event_count = count;
                head_event_id = event.event_id;
                head_hash = event.event_hash;
              })
              ledger.heads;
      },
    )
    else (err integrity, ledger)

-- `fresh` is the identifier made from a UUID, for a write that has none.
abbrev pub id_of : String → Write → String
id_of fresh audit = if is_empty audit.event_id then fresh else audit.event_id

abbrev write_doc : String → String → String → Write → String → Value
write_doc now tenant_id event_id audit previous =
    document event_id tenant_id audit.request_id now audit.action audit.resource_type
      audit.resource_id audit.actor (dict audit.payload) previous

unfoldable pub append_hashed :
    Platform
    → String
    → String
    → String
    → Write
    → Option Head
    → Result Error String
    → Ledger
    → Result Error (Unit {0}) × Ledger
unfolding new_event store_event previous_of count_of
append_hashed lib now tenant_id event_id audit head (err e) ledger = (err e, ledger)
append_hashed lib now tenant_id event_id audit head (ok hash) ledger =
    store_event (new_event lib now tenant_id event_id audit (previous_of head) hash)
      (count_of head + 1) ledger

unfoldable pub append_audit_locked :
    Platform → String → String → String → Write → Ledger → Result Error (Unit {0}) × Ledger
unfolding append_hashed audit_event_hash previous_of document
append_audit_locked lib now fresh tenant_id audit ledger =
    let head = find_where (head_of tenant_id) ledger.heads in
    let event_id = id_of fresh audit in
    append_hashed lib now tenant_id event_id audit head
      (audit_event_hash lib (write_doc now tenant_id event_id audit (previous_of head))
        (previous_of head))
      ledger

-- `append_audit`, on a write that is constructed for it.
unfoldable pub append_audit :
    Platform → String → String → String → Write → Ledger → Result Error (Unit {0}) × Ledger
unfolding append_audit_locked check_write is_blank
append_audit lib now fresh tenant_id audit ledger =
    elim (check_write audit >> raise_if (is_blank tenant_id) blank_field) [
      | ok _ ↦ append_audit_locked lib now fresh tenant_id audit ledger
      | err e ↦ (err e, ledger)
    ]
