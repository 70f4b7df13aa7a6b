-- ===== src/Audit/Chain.antt =====
-- backend/agency_runtime/persistence.py: what an append writes to the ledger, and what the loop of
-- `verify_audit_chain` makes of it.
use ai_native_content_agency.Prelude.{
  String, true, ◌+◌, ◌≡◌, ◌≢◌, refl, some, List, [], ◌∷◌, ◌++◌, ◌==◌, eq_iff, eq_refl, arith, inl,
  inr, ap,
}
use ai_native_content_agency.Prelude.Tests.{if◌then◌else◌}
use ai_native_content_agency.Prelude.Tables.{
  length, find_where, select_where, select-append, length-append_one,
}
use ai_native_content_agency.Prelude.Text.{is_sha256}
use ai_native_content_agency.Prelude.Results.{ok, Result-cases}
use ai_native_content_agency.Json.{
  Platform, Value, dict, list, text, cons, nil, canonical_json, to_primitive,
}
use ai_native_content_agency.Json.Canonical.{to_primitive-IsCanonical}
use ai_native_content_agency.Audit.{
  Write, Event, Head, Ledger, genesis, document, head_of, event_of, previous_of, count_of,
  upsert_head, new_event, id_of, append_audit_locked, event_doc, verify_events, check_event,
  check_head,
}

pub verify_events-append :
    (lib : Platform) (events more : List Event) (previous last : String) {found : String × String}
    → verify_events lib events previous last ≡ ok found
    → verify_events lib (events ++ more) previous last ≡ verify_events lib more found.0 found.1
unfolding verify_events
verify_events-append lib [] more previous last {found} h = ground arith
verify_events-append lib (event ∷ events) more previous last {found} h =
    elim (Result-cases (check_event lib event previous)) [
      | inl (u, good) ↦ rw good (
          verify_events-append lib events more event.event_hash event.event_id {found = found}
            (rw good at h))
      | inr (e, bad) ↦ absurd (cc (rw bad at h))
    ]

-- What the two tables say of a tenant agrees: the loop ends at the head, which counts the events.
pub record IsChained (lib : Platform) (tenant_id : String) (ledger : Ledger) : Type 0 where
  pub last : String
  pub verified :
      verify_events lib (select_where (event_of tenant_id) ledger.events) genesis ""
      ≡ ok (previous_of (find_where (head_of tenant_id) ledger.heads), last)
  pub headed :
      check_head
        (select_where (event_of tenant_id) ledger.events)
        (find_where (head_of tenant_id) ledger.heads)
        (previous_of (find_where (head_of tenant_id) ledger.heads), last)
      ≡ ok tt
  pub counted :
      count_of (find_where (head_of tenant_id) ledger.heads)
      ≡ length (select_where (event_of tenant_id) ledger.events)

pub find-upsert :
    (head : Head) (tenant_id : String) (heads : List Head)
    → find_where (head_of tenant_id) (upsert_head head heads)
      ≡ (if head.tenant_id == tenant_id then some head else find_where (head_of tenant_id) heads)
unfolding find_where upsert_head
find-upsert head tenant_id [] = ground arith
find-upsert head tenant_id (old ∷ heads) = ground (
  arith,
  eq_iff old.tenant_id head.tenant_id,
  eq_iff old.tenant_id tenant_id,
  eq_iff head.tenant_id tenant_id,
  find-upsert head tenant_id heads,
)

check_event_lem :
    (lib : Platform) (event : Event) (payload : Value)
    → lib.loads event.payload_json ≡ some payload
    → is_sha256 event.previous_hash ≡ true
    → lib.sha256 (canonical_json lib (event_doc event payload event.previous_hash))
      ≡ event.event_hash
    → check_event lib event event.previous_hash ≡ ok tt
unfolding check_event
check_event_lem lib event payload reads good same =
    rw reads (rw (eq_refl event.previous_hash, good) (rw same (rw (eq_refl event.event_hash) refl)))

-- The event that an append would write for its own tenant.
abbrev pub appended : Platform → String → String → String → Write → Ledger → Event
appended lib now fresh tenant_id audit ledger =
    let previous = previous_of (find_where (head_of tenant_id) ledger.heads) in
    let event_id = id_of fresh audit in
    new_event lib now tenant_id event_id audit previous (
      lib.sha256 (
        canonical_json lib (
          document event_id tenant_id audit.request_id now audit.action audit.resource_type
            audit.resource_id audit.actor (dict audit.payload) previous)))

-- A successful append is one event after the others and a head that names it.
pub append-ok :
    (lib : Platform) (now fresh tenant_id : String) (audit : Write) (ledger later : Ledger)
    → append_audit_locked lib now fresh tenant_id audit ledger ≡ (ok tt, later)
    → let event = appended lib now fresh tenant_id audit ledger in
      (is_sha256 (previous_of (find_where (head_of tenant_id) ledger.heads)) ≡ true)
      × (later ≡ record {
        events = ledger.events ++ event ∷ [];
        heads =
            upsert_head
              (record {
                tenant_id = tenant_id;
                event_count = count_of (find_where (head_of tenant_id) ledger.heads) + 1;
                head_event_id = event.event_id;
                head_hash = event.event_hash;
              })
              ledger.heads;
      })
unfolding append_audit_locked
append-ok lib now fresh tenant_id audit ledger later h = ground arith

canonical-document :
    (lib : Platform) (a b c d e f g i p : String) (payload : Value)
    → canonical_json lib (document a b c d e f g i (to_primitive payload) p)
      ≡ canonical_json lib (document a b c d e f g i payload p)
unfolding canonical_json document
canonical-document lib a b c d e f g i p payload =
    ap
      (λ (v : Value). lib.dumps (
        list (
          cons (text "audit-chain.v1") (
            cons (text a) (
              cons (text b) (
                cons (text c) (
                  cons (text d) (
                    cons (text e) (
                      cons (text f)
                        (cons (text g) (cons (text i) (cons v (cons (text p) nil)))))))))))))
      (to_primitive-IsCanonical payload).1

event_doc-appended :
    (lib : Platform) (now fresh tenant_id : String) (audit : Write) (ledger : Ledger)
    → let event = appended lib now fresh tenant_id audit ledger in
      lib.sha256 (
        canonical_json lib
          (event_doc event (to_primitive (dict audit.payload)) event.previous_hash))
      ≡ event.event_hash
unfolding event_doc new_event
event_doc-appended lib now fresh tenant_id audit ledger = ap lib.sha256 (
    canonical-document lib (id_of fresh audit) tenant_id audit.request_id now audit.action
      audit.resource_type audit.resource_id audit.actor
      (previous_of (find_where (head_of tenant_id) ledger.heads)) (dict audit.payload))

-- The loop accepts the event that an append has written.
pub check-appended :
    (lib : Platform) (now fresh tenant_id : String) (audit : Write) (ledger : Ledger)
    → lib.loads (canonical_json lib (dict audit.payload)) ≡ some (to_primitive (dict audit.payload))
    → is_sha256 (previous_of (find_where (head_of tenant_id) ledger.heads)) ≡ true
    → check_event lib
        (appended lib now fresh tenant_id audit ledger)
        (previous_of (find_where (head_of tenant_id) ledger.heads))
      ≡ ok tt
unfolding check_event new_event canonical_json
check-appended lib now fresh tenant_id audit ledger reads good =
    check_event_lem lib (appended lib now fresh tenant_id audit ledger)
      (to_primitive (dict audit.payload)) reads good
      (event_doc-appended lib now fresh tenant_id audit ledger)

pub verify_one :
    (lib : Platform) (event : Event) (previous last : String)
    → check_event lib event previous ≡ ok tt
    → verify_events lib (event ∷ []) previous last ≡ ok (event.event_hash, event.event_id)
unfolding verify_events
verify_one lib event previous last h = rw h refl

pub check_head-appended :
    (events : List Event) (event : Event) (head : Head)
    → head.event_count ≡ length events + 1
    → head.head_event_id ≡ event.event_id
    → head.head_hash ≡ event.event_hash
    → check_head (events ++ event ∷ []) (some head) (event.event_hash, event.event_id) ≡ ok tt
unfolding check_head
check_head-appended [] event head counted named hashed =
    ground (arith, eq_iff head.head_event_id event.event_id, eq_iff head.head_hash event.event_hash)
check_head-appended (e ∷ events) event head counted named hashed = ground (
  arith,
  eq_iff head.head_event_id event.event_id,
  eq_iff head.head_hash event.event_hash,
  length-append_one events event,
)

pub select_other :
    (events : List Event) (event : Event) (tenant_id : String)
    → event.tenant_id ≢ tenant_id
    → select_where (event_of tenant_id) (events ++ event ∷ [])
      ≡ select_where (event_of tenant_id) events
select_other events event tenant_id h =
    select-append (event_of tenant_id) events event
      (ground (arith, eq_iff event.tenant_id tenant_id))
