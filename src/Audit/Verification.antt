-- ===== src/Audit/Verification.antt =====
-- backend/agency_runtime/persistence.py: the chains that `verify_audit_chain` reads, after any append
-- and beside one.
use ai_native_content_agency.Prelude.{
  ℕ, String, true, false, ◌+◌, ◌≤◌, ◌≡◌, ◌≢◌, ◌⊎◌, refl, some, List, [], ◌∷◌, ◌++◌, eq_iff, eq_refl,
  arith, inl, inr, sym, ap, ◌∙◌,
}
use ai_native_content_agency.Prelude.Tables.{
  length, find_where, select_where, select-append_hit, length-append_one,
}
use ai_native_content_agency.Prelude.Text.{is_empty, is_sha256}
use ai_native_content_agency.Prelude.Results.{ok, err}
use ai_native_content_agency.Json.{is_blank, Platform, dict, canonical_json, to_primitive}
use ai_native_content_agency.Audit.{
  Write, Event, Head, Ledger, genesis, head_of, event_of, previous_of, count_of, upsert_head,
  new_event, append_audit_locked, check_event, check_head, make_checkpoint, verify_audit_chain,
  Checkpoint, head_mismatch,
}
use ai_native_content_agency.Audit.Chain.{
  IsChained, verify_events-append, verify_one, find-upsert, appended, append-ok, check-appended,
  check_head-appended, select_other,
}

-- A ledger with one more event of its tenant, which the loop accepts after the others.
grow-IsChained :
    (lib : Platform) (event : Event) (ledger : Ledger)
    → let head = find_where (head_of event.tenant_id) ledger.heads in
      check_event lib event (previous_of head) ≡ ok tt
      → IsChained lib event.tenant_id ledger
      → IsChained lib event.tenant_id (record {
        events = ledger.events ++ event ∷ [];
        heads =
            upsert_head
              (record {
                tenant_id = event.tenant_id;
                event_count = count_of head + 1;
                head_event_id = event.event_id;
                head_hash = event.event_hash;
              })
              ledger.heads;
      })
unfolding count_of previous_of
grow-IsChained lib event ledger good chained =
    let old = find_where (head_of event.tenant_id) ledger.heads in
    let head : Head = record {
      tenant_id = event.tenant_id;
      event_count = count_of old + 1;
      head_event_id = event.event_id;
      head_hash = event.event_hash;
    } in
    let own = select_where (event_of event.tenant_id) ledger.events in
    let grown =
      select-append_hit (event_of event.tenant_id) ledger.events event (eq_refl event.tenant_id) in
    let found = find-upsert head event.tenant_id ledger.heads ∙ rw (eq_refl event.tenant_id) refl in
    record {
      last = event.event_id;
      verified =
          rw (grown, found)
            (verify_events-append lib own (event ∷ []) genesis ""
                {found = (previous_of old, chained.last)} chained.verified
              ∙ verify_one lib event (previous_of old) chained.last good);
      headed =
          rw (grown, found)
            (check_head-appended own event head (ap (λ (n : ℕ). n + 1) chained.counted) refl refl);
      counted = rw (grown, found) (omega (arith, chained.counted, length-append_one own event));
    }

-- When the platform reads the payload's JSON back as the value that was written, a successful append
-- to a tenant's verified chain leaves that tenant's chain verified: the loop of the verification
-- accepts every event of it and ends at the stored head, whose counter is their number.
pub append-IsChained :
    (lib : Platform) (now fresh tenant_id : String) (audit : Write) (ledger later : Ledger)
    → lib.loads (canonical_json lib (dict audit.payload)) ≡ some (to_primitive (dict audit.payload))
    → append_audit_locked lib now fresh tenant_id audit ledger ≡ (ok tt, later)
    → IsChained lib tenant_id ledger
    → IsChained lib tenant_id later
unfolding new_event
append-IsChained lib now fresh tenant_id audit ledger later reads appends chained =
    let found = append-ok lib now fresh tenant_id audit ledger later appends in
    rw found.1 (
      grow-IsChained lib (appended lib now fresh tenant_id audit ledger) ledger
        (check-appended lib now fresh tenant_id audit ledger reads found.0) chained)

append-cases :
    (lib : Platform) (now fresh tenant_id : String) (audit : Write) (ledger : Ledger)
    → ((append_audit_locked lib now fresh tenant_id audit ledger).1 ≡ ledger)
      ⊎ (append_audit_locked lib now fresh tenant_id audit ledger
          ≡ (ok tt, (append_audit_locked lib now fresh tenant_id audit ledger).1))
unfolding append_audit_locked
append-cases lib now fresh tenant_id audit ledger = ground arith

keep-IsChained :
    (lib : Platform) (tenant_id : String) (ledger later : Ledger)
    → select_where (event_of tenant_id) later.events
      ≡ select_where (event_of tenant_id) ledger.events
    → find_where (head_of tenant_id) later.heads ≡ find_where (head_of tenant_id) ledger.heads
    → IsChained lib tenant_id ledger
    → IsChained lib tenant_id later
keep-IsChained lib tenant_id ledger later events heads chained = record {
  last = chained.last;
  verified = rw (events, heads) chained.verified;
  headed = rw (events, heads) chained.headed;
  counted = rw (events, heads) chained.counted;
}

-- An append to one tenant's chain, successful or not, leaves the verified chain of any other tenant
-- verified.
pub append-other-IsChained :
    (lib : Platform) (now fresh tenant_id other : String) (audit : Write) (ledger : Ledger)
    → tenant_id ≢ other
    → IsChained lib other ledger
    → IsChained lib other (append_audit_locked lib now fresh tenant_id audit ledger).1
unfolding new_event
append-other-IsChained lib now fresh tenant_id other audit ledger differ chained =
    elim (append-cases lib now fresh tenant_id audit ledger) [
      | inl same ↦ rw same chained
      | inr appends ↦
          let later = (append_audit_locked lib now fresh tenant_id audit ledger).1 in
          let found = append-ok lib now fresh tenant_id audit ledger later appends in
          let event = appended lib now fresh tenant_id audit ledger in
          keep-IsChained lib other ledger later
            (ap (λ (l : Ledger). select_where (event_of other) l.events) found.1
              ∙ select_other ledger.events event other differ)
            (ap (λ (l : Ledger). find_where (head_of other) l.heads) found.1
              ∙ find-upsert
                  (record {
                    tenant_id = tenant_id;
                    event_count = count_of (find_where (head_of tenant_id) ledger.heads) + 1;
                    head_event_id = event.event_id;
                    head_hash = event.event_hash;
                  })
                  other ledger.heads
              ∙ ground (arith, eq_iff tenant_id other))
            chained
    ]

headed_last :
    (events : List Event) (head : Head) (hash last : String)
    → check_head events (some head) (hash, last) ≡ ok tt
    → (head.head_event_id ≡ last) × (1 ≤ length events)
unfolding check_head
headed_last [] head hash last h = ground arith
headed_last (event ∷ events) head hash last h =
    ground (arith, eq_iff head.head_event_id last, eq_iff head.head_hash hash)

checkpoint_good :
    (c : Checkpoint)
    → is_empty c.tenant_id ≡ false
    → 1 ≤ c.event_count
    → is_empty c.head_event_id ≡ false
    → is_sha256 c.head_hash ≡ true
    → is_empty c.verified_at ≡ false
    → make_checkpoint c ≡ ok c
unfolding make_checkpoint
checkpoint_good c h1 h2 h3 h4 h5 = ground arith

headed_late :
    (events : List Event) (old new : Head) (hash last : String)
    → check_head events (some old) (hash, last) ≡ ok tt
    → new.event_count ≡ length events + 1
    → check_head events (some new) (hash, last) ≡ err head_mismatch
unfolding check_head
headed_late [] old new hash last h count = ground arith
headed_late (event ∷ events) old new hash last h count = ground arith

-- The verification of a chain that is verified and has a head with a digest and an event id reports
-- its count, event id and hash, when the same ledger is read for the events and for the head, the
-- tenant is not blank and the clock's reading is not empty.
pub verify-IsChained :
    (lib : Platform) (now tenant_id : String) (ledger : Ledger) (head : Head)
    → is_blank tenant_id ≡ false
    → is_empty tenant_id ≡ false
    → is_empty now ≡ false
    → is_empty head.head_event_id ≡ false
    → is_sha256 head.head_hash ≡ true
    → find_where (head_of tenant_id) ledger.heads ≡ some head
    → IsChained lib tenant_id ledger
    → verify_audit_chain lib now tenant_id ledger ledger
      ≡ ok (record {
        tenant_id = tenant_id;
        event_count = head.event_count;
        head_event_id = head.head_event_id;
        head_hash = head.head_hash;
        verified_at = now;
      })
unfolding verify_audit_chain previous_of count_of make_checkpoint
verify-IsChained lib now tenant_id ledger head h1 h2 h3 h4 h5 has chained =
    let verified = rw has at chained.verified in
    let headed = rw has at chained.headed in
    let counted = rw has at chained.counted in
    let tail =
      headed_last (select_where (event_of tenant_id) ledger.events) head head.head_hash chained.last
        headed in
    rw (h1, verified, has, headed, sym counted, sym tail.0)
      (checkpoint_good
        (record {
          tenant_id = tenant_id;
          event_count = head.event_count;
          head_event_id = head.head_event_id;
          head_hash = head.head_hash;
          verified_at = now;
        })
        h2 (omega (arith, tail.1, counted)) h4 h5 h3)

-- When a successful append to a verified chain that has a head, of a tenant that is not blank,
-- comes between the two reads of the verification, which releases the lock between them, the
-- verification of that sound chain raises that the head does not match.
pub verify-late_append :
    (lib : Platform) (now written fresh tenant_id : String) (audit : Write) (ledger later : Ledger)
    → (head : Head) → is_blank tenant_id ≡ false
    → find_where (head_of tenant_id) ledger.heads ≡ some head
    → append_audit_locked lib written fresh tenant_id audit ledger ≡ (ok tt, later)
    → IsChained lib tenant_id ledger
    → verify_audit_chain lib now tenant_id ledger later ≡ err head_mismatch
unfolding verify_audit_chain
verify-late_append lib now written fresh tenant_id audit ledger later head named has appends
      chained =
    let headed = rw has at chained.headed in
    let counted = rw has at chained.counted in
    let found = append-ok lib written fresh tenant_id audit ledger later appends in
    let event = appended lib written fresh tenant_id audit ledger in
    let new : Head = record {
      tenant_id = tenant_id;
      event_count = count_of (find_where (head_of tenant_id) ledger.heads) + 1;
      head_event_id = event.event_id;
      head_hash = event.event_hash;
    } in
    let moved : find_where (head_of tenant_id) later.heads ≡ some new =
      ap (λ (l : Ledger). find_where (head_of tenant_id) l.heads) found.1
      ∙ find-upsert new tenant_id ledger.heads
      ∙ rw (eq_refl tenant_id) refl in
    rw (named, chained.verified, moved)
      (rw
        (headed_late (select_where (event_of tenant_id) ledger.events) head new
          (previous_of (find_where (head_of tenant_id) ledger.heads)) chained.last (rw has headed)
          (omega (arith, chained.counted)))
        refl)
