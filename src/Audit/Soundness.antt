-- ===== src/Audit/Soundness.antt =====
-- What `verify_audit_chain` of backend/agency_runtime/persistence.py has seen to when it returns a
-- checkpoint.
use ai_native_content_agency.Prelude.{
  String, ◌≡◌, refl, Option, none, some, List, [], ◌∷◌, arith, inl, inr, ap, sym, ◌∙◌, eq_iff,
}
use ai_native_content_agency.Prelude.Tests.{Option-cases}
use ai_native_content_agency.Prelude.Tables.{length, find_where, select_where}
use ai_native_content_agency.Prelude.Results.{Result, ok, err, raise_if, ◌>>=◌}
use ai_native_content_agency.Json.{Value, Platform, text, list, nil, cons, canonical_json, is_blank}
use ai_native_content_agency.Audit.{
  Error, Event, Head, Ledger, genesis, blank_field, head_of, event_of, check_event, verify_events,
  check_head, make_checkpoint, verify_audit_chain, Checkpoint, audit_event_hash, event_doc,
  parse_payload,
}

-- The columns of an event, its payload and the hash before it, as they are hashed.
abbrev hashed : Platform → Event → Value → String → String
hashed lib event payload previous = lib.sha256 (
    canonical_json lib (
      list (
        cons (text "audit-chain.v1") (
          cons (text event.event_id) (
            cons (text event.tenant_id) (
              cons (text event.request_id) (
                cons (text event.occurred_at) (
                  cons (text event.action) (
                    cons (text event.resource_type) (
                      cons (text event.resource_id) (
                        cons (text event.actor) (cons payload (cons (text previous) nil)))))))))))))

-- The events lead from a hash and an event id to a hash and an event id: each names the hash before
-- it, and its own hash is that of its columns, its payload and the hash before it.
pub Links : Platform → String → String → List Event → String → String → Type 0
Links lib previous last [] hash event_id = (previous ≡ hash) × (last ≡ event_id)
Links lib previous last (event ∷ events) hash event_id =
    (payload : Value) × (lib.loads event.payload_json ≡ some payload)
    × (event.previous_hash ≡ previous)
    × (event.event_hash ≡ hashed lib event payload previous)
    × Links lib event.event_hash event.event_id events hash event_id

check_event-ok :
    (lib : Platform) (event : Event) (previous : String)
    → check_event lib event previous ≡ ok tt
    → (payload : Value) × (lib.loads event.payload_json ≡ some payload)
      × (event.previous_hash ≡ previous)
      × (event.event_hash ≡ hashed lib event payload previous)
unfolding check_event audit_event_hash event_doc parse_payload
check_event-ok lib event previous h = elim (Option-cases (lib.loads event.payload_json)) [
  | inl unread ↦ absurd (cc (ap (λ (r : Result Error (Unit {0})). r) (rw unread at h)))
  | inr (payload, reads) ↦
      let rest = rw reads at h in
      (
        payload,
        reads,
        ground (arith, rest, eq_iff event.previous_hash previous),
        ground (arith, rest, eq_iff event.event_hash (hashed lib event payload previous)),
      )
]

verify_events-Links :
    (lib : Platform) (events : List Event) (previous last hash event_id : String)
    → verify_events lib events previous last ≡ ok (hash, event_id)
    → Links lib previous last events hash event_id
unfolding verify_events Links
verify_events-Links lib [] previous last hash event_id h = (ground arith, ground arith)
verify_events-Links lib (event ∷ events) previous last hash event_id h =
    let rest : (check_event lib event previous ≡ ok tt)
        × (verify_events lib events event.event_hash event.event_id ≡ ok (hash, event_id)) =
      (ground arith, ground arith) in
    let (payload, reads, linked, sealed) = check_event-ok lib event previous rest.0 in
    (
      payload,
      reads,
      linked,
      sealed,
      verify_events-Links lib events event.event_hash event.event_id hash event_id rest.1,
    )

-- The head of the table is that of the checkpoint, or there are no events and no head.
pub HeadAgrees : List Event → Option Head → Checkpoint → Type 0
HeadAgrees [] found c = found ≡ none
HeadAgrees (event ∷ events) found c =
    (head : Head) × (found ≡ some head)
    × (head.event_count ≡ c.event_count)
    × (head.head_event_id ≡ c.head_event_id)
    × (head.head_hash ≡ c.head_hash)

check_head-HeadAgrees :
    (events : List Event) (found : Option Head) (c : Checkpoint)
    → c.event_count ≡ length events
    → check_head events found (c.head_hash, c.head_event_id) ≡ ok tt
    → HeadAgrees events found c
unfolding check_head HeadAgrees
check_head-HeadAgrees [] none c counted h = refl
check_head-HeadAgrees [] (some head) c counted h = absurd (cc)
check_head-HeadAgrees (event ∷ events) none c counted h = absurd (cc)
check_head-HeadAgrees (event ∷ events) (some head) c counted h = (
  head,
  refl,
  ground (arith, h, counted),
  ground (arith, h, eq_iff head.head_event_id c.head_event_id),
  ground (arith, h, eq_iff head.head_hash c.head_hash),
)

make_checkpoint-ok : (d c : Checkpoint) → make_checkpoint d ≡ ok c → d ≡ c
unfolding make_checkpoint
make_checkpoint-ok d c h = ground arith

bind-ok :
    {A B : Type 0} (m : Result Error A) (f : A → Result Error B) {b : B}
    → (m >>= f) ≡ ok b
    → (a : A) × (m ≡ ok a) × (f a ≡ ok b)
bind-ok (ok a) f h = (a, refl, h)
bind-ok (err e) f h = absurd (cc)

-- A checkpoint that the verification returns is of its tenant and counts the tenant's events. These
-- lead from the genesis hash to the checkpoint's hash and event id: each has the hash of the one
-- before it, and its own hash is that of its columns, its payload and the hash before it. The head
-- that was read has the checkpoint's count, event id and hash, or there are no events and no head.
pub verify-Links :
    (lib : Platform) (now tenant_id : String) (ledger later : Ledger) (c : Checkpoint)
    → verify_audit_chain lib now tenant_id ledger later ≡ ok c
    → let own = select_where (event_of tenant_id) ledger.events in
      (c.tenant_id ≡ tenant_id)
      × (c.event_count ≡ length own)
      × Links lib genesis "" own c.head_hash c.head_event_id
      × HeadAgrees own (find_where (head_of tenant_id) later.heads) c
unfolding verify_audit_chain make_checkpoint
verify-Links lib now tenant_id ledger later c h =
    let (_, _, h1) = bind-ok (raise_if (is_blank tenant_id) blank_field) _ h in
    let own = select_where (event_of tenant_id) ledger.events in
    let (found, walked, h2) = bind-ok (verify_events lib own genesis "") _ h1 in
    let (_, headed, h3) =
      bind-ok (check_head own (find_where (head_of tenant_id) later.heads) found) _ h2 in
    let same = make_checkpoint-ok _ c h3 in
    let reached : found ≡ (c.head_hash, c.head_event_id) =
      ap (λ (d : Checkpoint). (d.head_hash, d.head_event_id)) same in
    let counted : c.event_count ≡ length own = ap (λ (d : Checkpoint). d.event_count) (sym same) in
    (
      ap (λ (d : Checkpoint). d.tenant_id) (sym same),
      counted,
      verify_events-Links lib own genesis "" c.head_hash c.head_event_id
          (walked ∙ ap (λ (p : String × String). ok p) reached),
      check_head-HeadAgrees own (find_where (head_of tenant_id) later.heads) c counted
          (sym (ap (check_head own (find_where (head_of tenant_id) later.heads)) reached) ∙ headed),
    )
