-- ===== src/Publication/Store/Once.antt =====
-- Histories of the methods of backend/agency_runtime/social_publication_store.py, with the number of
-- reservations of a binding that they grant.
use ai_native_content_agency.Prelude.{
  ℕ, String, ◌+◌, ◌≤◌, ◌≡◌, refl, Bool, true, false, ◌&&◌, Option, none, some, List, [], ◌∷◌, arith,
  ◌==◌, eq_iff, inl, inr,
}
use ai_native_content_agency.Prelude.Tests.{eqb, if◌then◌else◌, Bool-cases}
use ai_native_content_agency.Prelude.Int.{ℤ}
use ai_native_content_agency.Prelude.Tables.{
  count_where, update_where, count-update, count-append, count_one,
}
use ai_native_content_agency.Prelude.Results.{
  Result, ok, err, ◌>>◌, guarded, guarded-kept, Result-cases,
}
use ai_native_content_agency.Json.{Platform, Fields}
use ai_native_content_agency.Publication.Intent.{
  Error, unknown, failed, Intent, Row, validate_identity, validate_provider_id, validate_receipt,
  validate_intent, intent_values,
}
use ai_native_content_agency.Publication.Store.{
  Table, Reservation, Change, has_key, has_binding, primary, find_existing, replay_existing, insert,
  reserve_checked, reserve, check_transition, update_pending, assign, is_pending_for, transition,
  containment, completion, failure, record_container, complete, mark_unknown, mark_failed,
}
use ai_native_content_agency.Publication.Store.Recovery.{
  is_unknown_for, settle, reconcile_rows, reconcile_success, is_unused, revoke, check_revocation,
  revoke_unused, Filter, Operation, reserving, containing, completing, losing, failing, reconciling,
  revoking, perform, history,
}

-- The result lets its caller publish.
abbrev pub is_granted : Result Error Reservation → Bool
is_granted (ok r) = r.executable
is_granted (err _) = false

-- The reservations of a binding that a history grants.
unfoldable pub grants_one : Platform → String → String → Operation → Table → ℕ
grants_one lib tenant_id digest (reserving intent) t =
    if is_granted (reserve lib intent t).0
      && (intent.tenant_id == tenant_id && intent.binding_digest == digest)
    then 1
    else 0
grants_one lib tenant_id digest _ t = 0

unfoldable pub grants : Platform → String → String → List Operation → Table → ℕ
unfolding grants_one
grants lib tenant_id digest [] t = 0
grants lib tenant_id digest (op ∷ ops) t =
    grants_one lib tenant_id digest op t + grants lib tenant_id digest ops (perform lib op t)

-- What an update of selected rows leaves of a count of bindings.
module _ (tn digest : String) (t : Table) where
  Same : Table → Type 0
  Same t' = count_where (has_binding tn digest) t' ≡ count_where (has_binding tn digest) t

  update_pending-count :
      (lib : Platform) (now tenant_id intent_id : String) (fence : ℤ) (change : Change)
      → Same (update_pending lib now tenant_id intent_id fence change t).1
  unfolding update_pending assign Same
  update_pending-count lib now tenant_id intent_id fence change = ground (
    arith,
    count-update (has_binding tn digest) (is_pending_for tenant_id intent_id fence)
        (assign lib now change) t (λ x h. refl),
  )

  transition-count :
      (lib : Platform) (now tenant_id intent_id : String) (fence : ℤ) (change : Change)
      → Same (transition lib now tenant_id intent_id fence change t).1
  unfolding transition Same
  transition-count lib now tenant_id intent_id fence change =
      guarded-kept (check_transition lib tenant_id intent_id fence change)
        (update_pending lib now tenant_id intent_id fence change) t
        (λ (t' : Table).
          count_where (has_binding tn digest) t' ≡ count_where (has_binding tn digest) t)
        refl (update_pending-count lib now tenant_id intent_id fence change)

  reconcile_rows-count :
      (lib : Platform) (now tenant_id intent_id post : String) (receipt : Fields)
      → Same (reconcile_rows lib now tenant_id intent_id post receipt t).1
  unfolding reconcile_rows settle Same
  reconcile_rows-count lib now tenant_id intent_id post receipt = ground (
    arith,
    count-update (has_binding tn digest) (is_unknown_for tenant_id intent_id)
        (settle lib now post receipt) t (λ x h. refl),
  )

  reconcile-count :
      (lib : Platform) (now tenant_id intent_id post : String) (receipt : Fields)
      → Same (reconcile_success lib now tenant_id intent_id post receipt t).1
  unfolding reconcile_success Same
  reconcile-count lib now tenant_id intent_id post receipt =
      guarded-kept
        (validate_identity tenant_id intent_id
          >> validate_provider_id post
          >> validate_receipt lib receipt)
        (reconcile_rows lib now tenant_id intent_id post receipt) t
        (λ (t' : Table).
          count_where (has_binding tn digest) t' ≡ count_where (has_binding tn digest) t)
        refl (reconcile_rows-count lib now tenant_id intent_id post receipt)

  revoke-count :
      (now tenant_id : String) (filter : Filter) (reason : String)
      → Same (revoke_unused now tenant_id filter reason t).1
  unfolding revoke_unused revoke Same
  revoke-count now tenant_id filter reason =
      guarded-kept {A = ℕ} (check_revocation tenant_id filter reason)
        (λ rows. (
          ok (count_where (is_unused tenant_id filter) rows),
          update_where (is_unused tenant_id filter) (revoke now reason) rows,
        ))
        t
        (λ (t' : Table).
          count_where (has_binding tn digest) t' ≡ count_where (has_binding tn digest) t)
        refl
        (count-update (has_binding tn digest) (is_unused tenant_id filter) (revoke now reason) t
          (λ x h. refl))

  -- The number that a reservation adds, which is at most one and only where there was none.
  abbrev Adds : Result Error Reservation × Table → Intent → Type 0
  Adds out intent =
      let g =
        if is_granted out.0 && (intent.tenant_id == tn && intent.binding_digest == digest)
        then 1
        else 0 in
      (count_where (has_binding tn digest) out.1 ≡ g + count_where (has_binding tn digest) t)
      × (count_where (has_binding tn digest) t ≤ 1 → count_where (has_binding tn digest) out.1 ≤ 1)

  matched-count :
      (tenant_id own : String)
      → (tenant_id == tn && own == digest) ≡ true
      → count_where (has_binding tenant_id own) t ≡ count_where (has_binding tn digest) t
  matched-count tenant_id own h =
      let same_tenant : tenant_id ≡ tn = ground (arith, eq_iff tenant_id tn) in
      let same_digest : own ≡ digest = ground (arith, eq_iff own digest) in
      rw (same_tenant, same_digest) refl

  insert-count : (lib : Platform) (intent : Intent) → Adds (insert lib intent t) intent
  unfolding insert intent_values
  insert-count lib intent =
      elim (Bool-cases (
        eqb (count_where (primary intent.intent_id) t) 0
        && eqb (count_where (has_key intent.tenant_id intent.idempotency_digest) t) 0
        && eqb (count_where (has_binding intent.tenant_id intent.binding_digest) t) 0)) [
          | inl free ↦
              rw
                (
                  free,
                  count-append (has_binding tn digest) t (intent_values lib intent ∷ []),
                  count_one (has_binding tn digest) (intent_values lib intent),
                )
                (elim (Bool-cases (intent.tenant_id == tn && intent.binding_digest == digest)) [
                  | inl hit ↦
                      let none_yet = matched-count intent.tenant_id intent.binding_digest hit in
                      rw hit (ground arith, λ h. ground arith)
                  | inr miss ↦ rw miss (ground arith, λ h. ground arith)
                ])
          | inr taken ↦ rw taken (ground arith, λ h. h)
        ]

  granted-replay :
      (lib : Platform) (intent : Intent) (row : Row)
      → is_granted (replay_existing lib intent row) ≡ false
  unfolding replay_existing
  granted-replay lib intent row = ground arith

  reserve_checked-count :
      (lib : Platform) (intent : Intent) (found : Option Row)
      → Adds (reserve_checked lib intent found t) intent
  unfolding reserve_checked
  reserve_checked-count lib intent none = insert-count lib intent
  reserve_checked-count lib intent (some row) =
      rw (granted-replay lib intent row) (ground arith, λ h. h)

  reserve-count : (lib : Platform) (intent : Intent) → Adds (reserve lib intent t) intent
  unfolding reserve guarded
  reserve-count lib intent = elim (Result-cases (validate_intent lib intent true)) [
    | inl (_, valid) ↦ rw valid (reserve_checked-count lib intent (find_existing intent t))
    | inr (_, invalid) ↦ rw invalid (ground arith, λ h. h)
  ]

  none_added :
      {n : ℕ}
      → n ≡ count_where (has_binding tn digest) t
      → (n ≡ 0 + count_where (has_binding tn digest) t)
        × (count_where (has_binding tn digest) t ≤ 1 → n ≤ 1)
  none_added same = (omega (arith, same), λ h. omega (arith, same, h))

  -- Every method adds to the rows of a binding what it grants of it, and never makes them two.
  pub perform-count :
      (lib : Platform) (op : Operation)
      → (count_where (has_binding tn digest) (perform lib op t)
          ≡ grants_one lib tn digest op t + count_where (has_binding tn digest) t)
        × (count_where (has_binding tn digest) t ≤ 1
            → count_where (has_binding tn digest) (perform lib op t) ≤ 1)
  unfolding Same perform grants_one record_container complete mark_unknown mark_failed
  perform-count lib (reserving intent) = reserve-count lib intent
  perform-count lib (containing now tenant_id intent_id fence c) =
      none_added (transition-count lib now tenant_id intent_id fence (containment c))
  perform-count lib (completing now tenant_id intent_id fence post receipt) =
      none_added (transition-count lib now tenant_id intent_id fence (completion post receipt))
  perform-count lib (losing now tenant_id intent_id fence reason) =
      none_added (transition-count lib now tenant_id intent_id fence (failure unknown reason))
  perform-count lib (failing now tenant_id intent_id fence reason) =
      none_added (transition-count lib now tenant_id intent_id fence (failure failed reason))
  perform-count lib (reconciling now tenant_id intent_id post receipt) =
      none_added (reconcile-count lib now tenant_id intent_id post receipt)
  perform-count lib (revoking now tenant_id filter reason) =
      none_added (revoke-count now tenant_id filter reason)

-- The rows of a binding after a history are those before it and one for each grant.
grants-count :
    (lib : Platform) (tn digest : String) (ops : List Operation) (t : Table)
    → count_where (has_binding tn digest) t ≤ 1
    → (grants lib tn digest ops t + count_where (has_binding tn digest) t
        ≡ count_where (has_binding tn digest) (history lib ops t))
      × (count_where (has_binding tn digest) (history lib ops t) ≤ 1)
unfolding grants history
grants-count lib tn digest [] t one = (ground arith, one)
grants-count lib tn digest (op ∷ ops) t one =
    let step = perform-count tn digest t lib op in
    let rest = grants-count lib tn digest ops (perform lib op t) (step.1 one) in
    (omega (arith, step.0, rest.0), rest.1)

-- From a table with at most one row of a tenant's binding, whatever methods are called and in
-- whatever order, the executable reservations of the binding that are granted, with the rows that
-- the table had for it, are at most one.
pub publications-le-one :
    (lib : Platform) (tn digest : String) (ops : List Operation) (t : Table)
    → count_where (has_binding tn digest) t ≤ 1
    → grants lib tn digest ops t + count_where (has_binding tn digest) t ≤ 1
publications-le-one lib tn digest ops t one =
    let counted = grants-count lib tn digest ops t one in omega (arith, counted.0, counted.1)
