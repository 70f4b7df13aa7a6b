-- ===== src/ModelEffect/Store/Settlement.antt =====
-- Completion and revocation in backend/agency_runtime/model_effect_store.py, and the fences that they
-- compare and move.
use ai_native_content_agency.Prelude.{
  String, ◌≤◌, ◌≡◌, refl, true, false, some, arith, ap, sym, ◌∙◌,
}
use ai_native_content_agency.Prelude.Tests.{if◌then◌else◌}
use ai_native_content_agency.Prelude.Int.{ℤ, eqb_ℤ, suc_ℤ_ne}
use ai_native_content_agency.Prelude.Tables.{
  find_where, count_where, update_where, count-update_none, count_mono, count_narrow, find-update,
  find_some-test,
}
use ai_native_content_agency.Prelude.Results.{Result, ok, err, ◌>>◌}
use ai_native_content_agency.Json.{
  Platform, Fields, dict, canonical_json, to_primitive, primitive_fields,
}
use ai_native_content_agency.ModelEffect.Intent.{
  succeeded, is_pending, Check, Row, Intent, Error, not_pending, validate_identity, validate_output,
  validate_receipt, validate_reason, intent_from_mapping, with_receipt,
}
use ai_native_content_agency.ModelEffect.Store.{
  Table, Change, has_id, primary, after_check, check_transition, update_pending, assign,
  is_pending_for, transition, completion, complete, get, read_row,
}
use ai_native_content_agency.ModelEffect.Store.Recovery.{is_unused, revoke, revoke_unused}
use ai_native_content_agency.ModelEffect.Store.Invariants.{HasUniqueKeys, Evolves-HasUniqueKeys}
use ai_native_content_agency.ModelEffect.Store.Evolution.{Evolves-revoke_unused}

-- The rows with an id, in a table with unique keys.
pub count-has_id-le :
    (t : Table) (tenant_id effect_id : String)
    → HasUniqueKeys t
    → count_where (has_id tenant_id effect_id) t ≤ 1
count-has_id-le t tenant_id effect_id h = omega (
  arith,
  h.ids effect_id,
  count_mono (has_id tenant_id effect_id) (primary effect_id) t
      (λ (x : Row) (p : has_id tenant_id effect_id x ≡ true). ground arith),
)

module _ (lib : Platform) (tenant_id effect_id : String) (fence : ℤ) (row : Row) (t : Table)
    (unique : HasUniqueKeys t) (found : find_where (has_id tenant_id effect_id) t ≡ some row) where
  count-is_pending_for :
      count_where (is_pending_for tenant_id effect_id fence) t
      ≡ (if is_pending_for tenant_id effect_id fence row then 1 else 0)
  count-is_pending_for =
      count_narrow (is_pending_for tenant_id effect_id fence) (has_id tenant_id effect_id) t
        (λ y h. ground arith) (count-has_id-le t tenant_id effect_id unique) found

  -- In a table with unique keys, a transition with valid arguments of a row that is not pending or
  -- has another fence raises that it is not pending, and changes nothing.
  pub transition_stale :
      (now : String) (change : Change)
      → check_transition lib tenant_id effect_id fence change ≡ ok tt
      → is_pending_for tenant_id effect_id fence row ≡ false
      → transition lib now tenant_id effect_id fence change t ≡ (err not_pending, t)
  unfolding transition update_pending
  transition_stale now change valid stale = ground (arith, count-is_pending_for)

  find-assign :
      (now : String) (change : Change)
      → is_pending_for tenant_id effect_id fence row ≡ true
      → find_where
          (has_id tenant_id effect_id)
          (update_where (is_pending_for tenant_id effect_id fence) (assign lib now change) t)
        ≡ some (assign lib now change row)
  unfolding assign
  find-assign now change live =
      rw
        (find-update (has_id tenant_id effect_id) (is_pending_for tenant_id effect_id fence)
          (assign lib now change) t (λ x h. refl))
        (rw (found, live))

  pub check_transition-identity :
      (change : Change)
      → check_transition lib tenant_id effect_id fence change ≡ ok tt
      → validate_identity tenant_id effect_id ≡ ok tt
  unfolding check_transition
  check_transition-identity change h = ground arith

  -- A pending row with the fence of the call is assigned, and is what the caller is given.
  transition_live :
      (now : String) (change : Change) {intent : Intent}
      → check_transition lib tenant_id effect_id fence change ≡ ok tt
      → is_pending_for tenant_id effect_id fence row ≡ true
      → intent_from_mapping lib (assign lib now change row) ≡ ok intent
      → let (result, t') = transition lib now tenant_id effect_id fence change t in
        (result ≡ ok intent) × (get lib tenant_id effect_id t' ≡ ok intent)
  unfolding transition update_pending get read_row
  transition_live now change {intent} valid live decoded =
      let identity : validate_identity tenant_id effect_id ≡ ok tt =
        check_transition-identity change valid in
      let read : read_row lib (
            find_where (has_id tenant_id effect_id)
              (update_where (is_pending_for tenant_id effect_id fence) (assign lib now change) t))
          ≡ ok intent =
        rw (find-assign now change live) decoded in
      rw (valid, count-is_pending_for, live) (rw (identity, read) (refl, refl))

  pub transition_found :
      (now : String) (change : Change)
      → check_transition lib tenant_id effect_id fence change ≡ ok tt
      → is_pending_for tenant_id effect_id fence row ≡ true
      → find_where
          (has_id tenant_id effect_id)
          (transition lib now tenant_id effect_id fence change t).1
        ≡ some (assign lib now change row)
  unfolding transition update_pending
  transition_found now change valid live =
      rw (valid, count-is_pending_for, live) (find-assign now change live)

  completed_row :
      (now output_text : String) (receipt : Fields)
      → lib.loads (canonical_json lib (dict receipt)) ≡ some (to_primitive (dict receipt))
      → intent_from_mapping lib (assign lib now (completion lib output_text receipt) row)
        ≡ ok (
            with_receipt
              (assign lib now (completion lib output_text receipt) row)
              (primitive_fields receipt))
  unfolding intent_from_mapping assign to_primitive
  completed_row now output_text receipt decodes = rw decodes

  -- In a table with unique keys, a completion with valid arguments of a row that is pending under
  -- the caller's fence, on a platform that reads the receipt's JSON back as the receipt in canonical form, succeeds.
  -- It returns the intent that `get` then reads: succeeded, with the output, its digest, the
  -- receipt in canonical form, with its keys sorted, the time of completion and the row's binding.
  pub complete_lem :
      (now output_text : String) (receipt : Fields)
      → validate_output output_text ≡ ok tt
      → validate_receipt lib receipt ≡ ok tt
      → check_transition lib tenant_id effect_id fence (completion lib output_text receipt) ≡ ok tt
      → lib.loads (canonical_json lib (dict receipt)) ≡ some (to_primitive (dict receipt))
      → is_pending row.status ≡ true
      → eqb_ℤ row.execution_fencing_token fence ≡ true
      → let (result, t') = complete lib now tenant_id effect_id fence output_text receipt t in
        (intent : Intent) × (result ≡ ok intent)
        × (get lib tenant_id effect_id t' ≡ ok intent)
        × (intent.status ≡ succeeded)
        × (intent.output_text ≡ output_text)
        × (intent.output_sha256 ≡ lib.sha256 output_text)
        × (intent.receipt ≡ primitive_fields receipt)
        × (intent.completed_at ≡ some now)
        × (intent.binding_digest ≡ row.binding_digest)
  unfolding complete assign with_receipt
  complete_lem now output_text receipt good_output good_receipt valid decodes waiting fenced =
      let own = find_some-test (has_id tenant_id effect_id) t found in
      let live : is_pending_for tenant_id effect_id fence row ≡ true = ground arith in
      let done =
        transition_live now (completion lib output_text receipt) valid live
          (completed_row now output_text receipt decodes) in
      (
        with_receipt (assign lib now (completion lib output_text receipt) row)
            (primitive_fields receipt),
        rw (good_output, good_receipt) done.0,
        rw (good_output, good_receipt) done.1,
        refl,
        refl,
        refl,
        refl,
        refl,
        refl,
      )

has_id-unused :
    (tenant_id effect_id run_id now reason : String) (row : Row)
    → has_id tenant_id effect_id (revoke now reason row) ≡ has_id tenant_id effect_id row
unfolding revoke
has_id-unused tenant_id effect_id run_id now reason row = refl

-- A revocation with a valid identity and reason returns the number of pending rows of the run, and
-- leaves none of them pending.
pub revoke_unused_lem :
    (now tenant_id run_id reason : String) (t : Table)
    → validate_identity tenant_id run_id ≡ ok tt
    → validate_reason reason ≡ ok tt
    → let (result, t') = revoke_unused now tenant_id run_id reason t in
      (result ≡ ok (count_where (is_unused tenant_id run_id) t))
      × (count_where (is_unused tenant_id run_id) t' ≡ 0)
unfolding revoke_unused revoke
revoke_unused_lem now tenant_id run_id reason t identity good_reason =
    rw (identity, good_reason)
      (
        refl,
        count-update_none (is_unused tenant_id run_id) (is_unused tenant_id run_id)
            (revoke now reason) t (λ x h. ground arith) (λ x h. h),
      )

-- In a table with unique keys, a valid revocation of the run of a pending row stores the row as
-- revoked with a fence that is not the one before. A transition with valid arguments under the
-- fence before then raises that the row is not pending, and changes nothing.
pub revoke_unused-fences :
    (lib : Platform) (now later tenant_id run_id reason effect_id : String) (change : Change)
    (row : Row) (t : Table)
    → HasUniqueKeys t
    → find_where (has_id tenant_id effect_id) t ≡ some row
    → is_unused tenant_id run_id row ≡ true
    → validate_identity tenant_id run_id ≡ ok tt
    → validate_reason reason ≡ ok tt
    → check_transition lib tenant_id effect_id row.execution_fencing_token change ≡ ok tt
    → let t' = (revoke_unused now tenant_id run_id reason t).1 in
      (transition lib later tenant_id effect_id row.execution_fencing_token change t'
        ≡ (err not_pending, t'))
      × (find_where (has_id tenant_id effect_id) t' ≡ some (revoke now reason row))
      × (eqb_ℤ (revoke now reason row).execution_fencing_token row.execution_fencing_token ≡ false)
unfolding revoke_unused revoke
revoke_unused-fences lib now later tenant_id run_id reason effect_id change row t unique found
      unused identity good_reason valid =
    let t' = (revoke_unused now tenant_id run_id reason t).1 in
    let kept : HasUniqueKeys t' =
      Evolves-HasUniqueKeys (Evolves-revoke_unused now tenant_id run_id reason t) unique in
    let found' : find_where (has_id tenant_id effect_id) t' ≡ some (revoke now reason row) =
      rw (identity, good_reason)
        (rw
          (find-update (has_id tenant_id effect_id) (is_unused tenant_id run_id) (revoke now reason)
            t (λ x h. refl))
          (rw (found, unused))) in
    (
      transition_stale lib tenant_id effect_id row.execution_fencing_token (revoke now reason row)
          t' kept found' later change valid (ground arith),
      found',
      suc_ℤ_ne row.execution_fencing_token,
    )

after_check-ok :
    {A : Type 0} (c : Check) (body : Table → Result Error A × Table) (t : Table) {a : A}
    → (after_check c body t).0 ≡ ok a
    → (c ≡ ok tt) × (after_check c body t ≡ body t)
unfolding after_check
after_check-ok (ok _) body t h = (refl, refl)
after_check-ok (err e) body t h = absurd (cc)

-- A completion that returns an intent has passed every check, and is its transition.
pub complete-ok :
    (lib : Platform) (now tenant_id effect_id : String) (fence : ℤ) (output_text : String)
    (receipt : Fields) (t : Table) {intent : Intent}
    → (complete lib now tenant_id effect_id fence output_text receipt t).0 ≡ ok intent
    → let change = completion lib output_text receipt in
      (check_transition lib tenant_id effect_id fence change ≡ ok tt)
      × (complete lib now tenant_id effect_id fence output_text receipt t
          ≡ transition lib now tenant_id effect_id fence change t)
unfolding complete transition
complete-ok lib now tenant_id effect_id fence output_text receipt t h =
    let change = completion lib output_text receipt in
    let (good, same) =
      after_check-ok (validate_output output_text >> validate_receipt lib receipt)
        (transition lib now tenant_id effect_id fence change) t h in
    let run =
      after_check-ok (check_transition lib tenant_id effect_id fence change)
        (update_pending lib now tenant_id effect_id fence change) t
        (ap (λ (p : Result Error Intent × Table). p.0) (sym same) ∙ h) in
    (run.0, same)
