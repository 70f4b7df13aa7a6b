-- ===== src/Publication/Store/Final.antt =====
-- Final rows, transitions and revocations in backend/agency_runtime/social_publication_store.py.
use ai_native_content_agency.Prelude.{
  ℕ, String, ◌≤◌, ◌≡◌, refl, Bool, true, false, ◌&&◌, ◌||◌, Option, none, some, List, [], ◌∷◌,
  arith, inl, inr, ◌∙◌,
}
use ai_native_content_agency.Prelude.Tests.{if◌then◌else◌, Bool-cases}
use ai_native_content_agency.Prelude.Int.{ℤ, eqb_ℤ}
use ai_native_content_agency.Prelude.Tables.{
  find_where, count_where, update_where, find-update, find-append, count_narrow, find_some-test,
}
use ai_native_content_agency.Prelude.Results.{ok, err, ◌>>◌, guarded-kept}
use ai_native_content_agency.Json.{
  Platform, Fields, dict, canonical_json, to_primitive, primitive_fields,
}
use ai_native_content_agency.Publication.Intent.{
  succeeded, with_receipt, intent_from_mapping, unknown, failed, not_pending, is_pending,
  is_unknown, Intent, Row, validate_identity, validate_provider_id, validate_receipt,
  validate_intent, intent_values,
}
use ai_native_content_agency.Publication.Store.{
  Table, Change, has_id, find_existing, insert, reserve_checked, reserve, check_transition,
  update_pending, assign, is_pending_for, get, read_row, transition, containment, completion,
  failure, record_container, complete, mark_unknown, mark_failed,
}
use ai_native_content_agency.Publication.Store.Recovery.{
  is_unknown_for, settle, reconcile_rows, reconcile_success, is_unused, revoke, check_revocation,
  revoke_unused, Filter, Operation, reserving, containing, completing, losing, failing, reconciling,
  revoking, perform, history,
}

-- Neither pending nor unknown: succeeded, failed or revoked.
unfoldable pub is_open : Row → Bool
is_open row = is_pending row.status || is_unknown row.status

module _ (tn id : String) (row : Row) (closed : is_open row ≡ false) where
  abbrev Holds : Table → Type 0
  Holds t = find_where (has_id tn id) t ≡ some row

  update-Holds :
      (p : Row → Bool) (f : Row → Row) (t : Table)
      → ((x : Row) → p x ≡ true → has_id tn id (f x) ≡ has_id tn id x)
      → p row ≡ false
      → Holds t
      → Holds (update_where p f t)
  update-Holds p f t keeps missed held =
      find-update (has_id tn id) p f t keeps ∙ rw (held, missed) refl

  transition-Holds :
      (lib : Platform) (now tenant_id intent_id : String) (fence : ℤ) (change : Change) (t : Table)
      → Holds t
      → Holds (transition lib now tenant_id intent_id fence change t).1
  unfolding transition update_pending assign is_open
  transition-Holds lib now tenant_id intent_id fence change t held =
      guarded-kept (check_transition lib tenant_id intent_id fence change)
        (update_pending lib now tenant_id intent_id fence change) t Holds held
        (ground (
          arith,
          held,
          update-Holds (is_pending_for tenant_id intent_id fence) (assign lib now change) t
              (λ x h. refl) (ground arith) held,
        ))

  reconcile-Holds :
      (lib : Platform) (now tenant_id intent_id post : String) (receipt : Fields) (t : Table)
      → Holds t
      → Holds (reconcile_success lib now tenant_id intent_id post receipt t).1
  unfolding reconcile_success reconcile_rows settle is_open
  reconcile-Holds lib now tenant_id intent_id post receipt t held =
      guarded-kept
        (validate_identity tenant_id intent_id
          >> validate_provider_id post
          >> validate_receipt lib receipt)
        (reconcile_rows lib now tenant_id intent_id post receipt) t Holds held
        (ground (
          arith,
          held,
          update-Holds (is_unknown_for tenant_id intent_id) (settle lib now post receipt) t
              (λ x h. refl) (ground arith) held,
        ))

  revoke-Holds :
      (now tenant_id : String) (filter : Filter) (reason : String) (t : Table)
      → Holds t
      → Holds (revoke_unused now tenant_id filter reason t).1
  unfolding revoke_unused revoke is_open
  revoke-Holds now tenant_id filter reason t held =
      guarded-kept {A = ℕ} (check_revocation tenant_id filter reason)
        (λ rows. (
          ok (count_where (is_unused tenant_id filter) rows),
          update_where (is_unused tenant_id filter) (revoke now reason) rows,
        ))
        t Holds held
        (update-Holds (is_unused tenant_id filter) (revoke now reason) t (λ x h. refl)
          (ground arith) held)

  insert-Holds :
      (lib : Platform) (intent : Intent) (t : Table) → Holds t → Holds (insert lib intent t).1
  unfolding insert
  insert-Holds lib intent t held =
      ground (arith, held, find-append (has_id tn id) t (intent_values lib intent ∷ []) held)

  reserve_checked-Holds :
      (lib : Platform) (intent : Intent) (found : Option Row) (t : Table)
      → Holds t
      → Holds (reserve_checked lib intent found t).1
  unfolding reserve_checked
  reserve_checked-Holds lib intent none t held = insert-Holds lib intent t held
  reserve_checked-Holds lib intent (some _) t held = held

  perform-Holds : (lib : Platform) (op : Operation) (t : Table) → Holds t → Holds (perform lib op t)
  unfolding perform reserve record_container complete mark_unknown mark_failed
  perform-Holds lib (reserving intent) t held =
      guarded-kept (validate_intent lib intent true)
        (λ table. reserve_checked lib intent (find_existing intent table) table) t Holds held
        (reserve_checked-Holds lib intent (find_existing intent t) t held)
  perform-Holds lib (containing now tenant_id intent_id fence c) t held =
      transition-Holds lib now tenant_id intent_id fence (containment c) t held
  perform-Holds lib (completing now tenant_id intent_id fence post receipt) t held =
      transition-Holds lib now tenant_id intent_id fence (completion post receipt) t held
  perform-Holds lib (losing now tenant_id intent_id fence reason) t held =
      transition-Holds lib now tenant_id intent_id fence (failure unknown reason) t held
  perform-Holds lib (failing now tenant_id intent_id fence reason) t held =
      transition-Holds lib now tenant_id intent_id fence (failure failed reason) t held
  perform-Holds lib (reconciling now tenant_id intent_id post receipt) t held =
      reconcile-Holds lib now tenant_id intent_id post receipt t held
  perform-Holds lib (revoking now tenant_id filter reason) t held =
      revoke-Holds now tenant_id filter reason t held

  -- A row that is found by its tenant and id and is succeeded, failed or revoked is found exactly
  -- as it was after every history of methods.
  pub publication-final :
      (lib : Platform) (ops : List Operation) (t : Table)
      → find_where (has_id tn id) t ≡ some row
      → find_where (has_id tn id) (history lib ops t) ≡ some row
  unfolding history
  publication-final lib [] t held = held
  publication-final lib (op ∷ ops) t held =
      publication-final lib ops (perform lib op t) (perform-Holds lib op t held)

-- A pending row, alone with its id.
module _ (lib : Platform) (tn id : String) (row : Row) (t : Table)
    (alone : count_where (has_id tn id) t ≤ 1)
    (found : find_where (has_id tn id) t ≡ some row) where
  count-pending_for :
      (fence : ℤ)
      → count_where (is_pending_for tn id fence) t
        ≡ (if is_pending_for tn id fence row then 1 else 0)
  count-pending_for fence =
      count_narrow (is_pending_for tn id fence) (has_id tn id) t (λ y h. ground arith) alone found

  completed_row :
      (now post : String) (receipt : Fields)
      → lib.loads (canonical_json lib (dict receipt)) ≡ some (to_primitive (dict receipt))
      → intent_from_mapping lib (assign lib now (completion post receipt) row)
        ≡ ok
            (with_receipt (assign lib now (completion post receipt) row) (primitive_fields receipt))
  unfolding intent_from_mapping assign to_primitive
  completed_row now post receipt reads = rw reads

  find-completed :
      (now post : String) (receipt : Fields) (fence : ℤ)
      → is_pending_for tn id fence row ≡ true
      → find_where
          (has_id tn id)
          (update_where (is_pending_for tn id fence) (assign lib now (completion post receipt)) t)
        ≡ some (assign lib now (completion post receipt) row)
  unfolding assign
  find-completed now post receipt fence live =
      find-update (has_id tn id) (is_pending_for tn id fence)
        (assign lib now (completion post receipt)) t (λ x h. refl)
      ∙ rw (found, live) refl

  -- A completion with valid arguments of a row that is alone with its id, on a platform that reads
  -- the receipt's JSON back as the receipt in canonical form. When the row is pending and its fence
  -- is the caller's, the row becomes a succeeded one with the post, the receipt, an empty failure
  -- reason and the time of the update and the completion, and all its other columns, and the call
  -- returns the intent of that row. Otherwise the call raises that the row is not pending, and the
  -- row is as it was.
  pub publication-complete_lem :
      (now post : String) (receipt : Fields) (fence : ℤ)
      → check_transition lib tn id fence (completion post receipt) ≡ ok tt
      → lib.loads (canonical_json lib (dict receipt)) ≡ some (to_primitive (dict receipt))
      → let out = complete lib now tn id fence post receipt t in
        let live = is_pending row.status && eqb_ℤ row.execution_fencing_token fence in
        let done = record row {
          status = succeeded;
          updated_at = now;
          provider_post_id = some post;
          receipt = canonical_json lib (dict receipt);
          failure_reason = "";
          completed_at = some now;
        } in
        (find_where (has_id tn id) out.1 ≡ some (if live then done else row))
        × (out.0
            ≡ (if live then ok (with_receipt done (primitive_fields receipt)) else err not_pending))
  unfolding complete transition update_pending assign get read_row check_transition
  publication-complete_lem now post receipt fence valid reads =
      let own = find_some-test (has_id tn id) t found in
      let identity : validate_identity tn id ≡ ok tt = ground arith in
      elim (Bool-cases (is_pending row.status && eqb_ℤ row.execution_fencing_token fence)) [
        | inl live ↦
            let selected : is_pending_for tn id fence row ≡ true = ground (arith, own, live) in
            let read : read_row lib (
                  find_where (has_id tn id) (
                    update_where (is_pending_for tn id fence)
                      (assign lib now (completion post receipt)) t))
                ≡ ok (
                    with_receipt (assign lib now (completion post receipt) row)
                      (primitive_fields receipt)) =
              rw (find-completed now post receipt fence selected)
                (completed_row now post receipt reads) in
            rw (valid, count-pending_for fence, selected, live)
              (find-completed now post receipt fence selected, rw (identity, read) refl)
        | inr stale ↦
            let missed : is_pending_for tn id fence row ≡ false = ground (arith, stale) in
            rw (valid, count-pending_for fence, missed, stale) (found, refl)
      ]
