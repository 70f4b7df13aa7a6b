-- ===== src/ModelEffect/Store/Evolution.antt =====
-- What one method can do to the table of backend/agency_runtime/model_effect_store.py: nothing, one
-- more row with fresh keys, or a change of rows of its tenant that are pending or unknown.
use ai_native_content_agency.Prelude.{
  String, ◌≡◌, refl, Bool, true, ◌&&◌, Option, none, some, [], ◌∷◌, ◌++◌, arith, eq_iff, inl, inr,
}
use ai_native_content_agency.Prelude.Tests.{eqb, Bool-cases}
use ai_native_content_agency.Prelude.Int.{ℤ}
use ai_native_content_agency.Prelude.Tables.{count_where, update_where}
use ai_native_content_agency.Prelude.Results.{Result, ok, err, Result-cases, ◌>>◌}
use ai_native_content_agency.Json.{Fields, Platform}
use ai_native_content_agency.ModelEffect.Intent.{
  Status, pending, succeeded, unknown, failed, revoked, is_pending, is_unknown, Error, Intent, Row,
  Check, validate_identity, validate_output, validate_receipt, validate_reason, validate_intent,
  intent_values,
}
use ai_native_content_agency.ModelEffect.Store.{
  Table, Change, has_key, has_binding, primary, find_existing, reserve_checked, reserved, insert,
  after_check, reserve, check_transition, update_pending, assign, is_pending_for, transition,
  completion, failure, complete, mark_unknown, mark_failed,
}
use ai_native_content_agency.ModelEffect.Store.Recovery.{
  is_unknown_for, settle, reconcile_rows, reconcile_success, is_unused, revoke, revoke_unused,
  Operation, reserving, completing, losing, failing, reconciling, revoking, perform,
}

-- The life of an intent: a final status has no successor.
pub data Move : Status → Status → Type 0 where
  completed : Move pending succeeded
  lost : Move pending unknown
  refused : Move pending failed
  withdrawn : Move pending revoked
  reconciled : Move unknown succeeded

-- What a row keeps when a method changes it.
pub record Changes (row new : Row) : Type 0 where
  pub same_id : new.effect_id ≡ row.effect_id
  pub same_tenant : new.tenant_id ≡ row.tenant_id
  pub same_run : new.run_id ≡ row.run_id
  pub same_key : new.idempotency_digest ≡ row.idempotency_digest
  pub same_binding : new.binding_digest ≡ row.binding_digest
  pub move : Move row.status new.status

pub data Evolves (tenant_id : String) (t : Table) : Table → Type 0 where
  unchanged : Evolves tenant_id t t
  inserted :
      (row : Row)
      → row.tenant_id ≡ tenant_id
      → row.status ≡ pending
      → count_where (primary row.effect_id) t ≡ 0
      → count_where (has_key row.tenant_id row.idempotency_digest) t ≡ 0
      → count_where (has_binding row.tenant_id row.binding_digest) t ≡ 0
      → Evolves tenant_id t (t ++ row ∷ [])
  updated :
      (p : Row → Bool) (f : Row → Row)
      → ((row : Row) → p row ≡ true → (row.tenant_id ≡ tenant_id) × Changes row (f row))
      → Evolves tenant_id t (update_where p f t)

-- Reading a status from its tests.
pending_lem : (s : Status) → is_pending s ≡ true → s ≡ pending
pending_lem s h = ground arith

unknown_lem : (s : Status) → is_unknown s ≡ true → s ≡ unknown
unknown_lem s h = ground arith

-- The branch of `after_check` that goes on, or no change.
Evolves-after_check :
    {A : Type 0} {tenant_id : String} (c : Check) (body : Table → Result Error A × Table)
    (t : Table)
    → Evolves tenant_id t (body t).1
    → Evolves tenant_id t (after_check c body t).1
unfolding after_check
Evolves-after_check (ok _) body t e = e
Evolves-after_check (err _) body t e = unchanged

Evolves-insert :
    (lib : Platform) (intent : Intent) (t : Table)
    → intent.status ≡ pending
    → Evolves intent.tenant_id t (reserved intent (insert (intent_values lib intent) t)).1
unfolding reserved insert intent_values
Evolves-insert lib intent t fresh =
    elim (Bool-cases (
      eqb (count_where (primary intent.effect_id) t) 0
      && eqb (count_where (has_key intent.tenant_id intent.idempotency_digest) t) 0
      && eqb (count_where (has_binding intent.tenant_id intent.binding_digest) t) 0)) [
        | inl free ↦ rw free (
            inserted (intent_values lib intent) refl fresh (ground arith) (ground arith)
              (ground arith))
        | inr taken ↦ rw taken unchanged
      ]

validated_pending :
    (lib : Platform) (intent : Intent)
    → validate_intent lib intent true ≡ ok tt
    → intent.status ≡ pending
unfolding validate_intent
validated_pending lib intent h = ground arith

Evolves-reserve_checked :
    (lib : Platform) (intent : Intent) (found : Option Row) (t : Table)
    → intent.status ≡ pending
    → Evolves intent.tenant_id t (reserve_checked lib intent found t).1
unfolding reserve_checked
Evolves-reserve_checked lib intent none t fresh = Evolves-insert lib intent t fresh
Evolves-reserve_checked lib intent (some row) t fresh = unchanged

Evolves-reserve :
    (lib : Platform) (intent : Intent) (t : Table)
    → Evolves intent.tenant_id t (reserve lib intent t).1
unfolding reserve
Evolves-reserve lib intent t = elim (Result-cases (validate_intent lib intent true)) [
  | inl (u, valid) ↦ rw valid (
      Evolves-reserve_checked lib intent (find_existing intent t) t
        (validated_pending lib intent valid))
  | inr (e, invalid) ↦ rw invalid unchanged
]

assign-Changes :
    (lib : Platform) (now tenant_id effect_id : String) (fence : ℤ) (change : Change)
    → Move pending change.status
    → (row : Row) → is_pending_for tenant_id effect_id fence row ≡ true
    → (row.tenant_id ≡ tenant_id) × Changes row (assign lib now change row)
unfolding assign
assign-Changes lib now tenant_id effect_id fence change move row h = (
  ground (arith, eq_iff row.tenant_id tenant_id),
  record {
    same_id = refl;
    same_tenant = refl;
    same_run = refl;
    same_key = refl;
    same_binding = refl;
    move = rw (pending_lem row.status (ground arith)) move;
  },
)

Evolves-transition :
    (lib : Platform) (now tenant_id effect_id : String) (fence : ℤ) (change : Change) (t : Table)
    → Move pending change.status
    → Evolves tenant_id t (transition lib now tenant_id effect_id fence change t).1
unfolding transition update_pending
Evolves-transition lib now tenant_id effect_id fence change t move =
    Evolves-after_check (check_transition lib tenant_id effect_id fence change)
      (update_pending lib now tenant_id effect_id fence change) t
      (elim (Bool-cases (eqb (count_where (is_pending_for tenant_id effect_id fence) t) 1)) [
        | inl one ↦ rw one (
            updated (is_pending_for tenant_id effect_id fence) (assign lib now change)
              (assign-Changes lib now tenant_id effect_id fence change move))
        | inr other ↦ rw other unchanged
      ])

settle-Changes :
    (lib : Platform) (now tenant_id effect_id output_text : String) (receipt : Fields) (row : Row)
    → is_unknown_for tenant_id effect_id row ≡ true
    → (row.tenant_id ≡ tenant_id) × Changes row (settle lib now output_text receipt row)
unfolding settle
settle-Changes lib now tenant_id effect_id output_text receipt row h = (
  ground (arith, eq_iff row.tenant_id tenant_id),
  record {
    same_id = refl;
    same_tenant = refl;
    same_run = refl;
    same_key = refl;
    same_binding = refl;
    move = rw (unknown_lem row.status (ground arith)) reconciled;
  },
)

pub Evolves-reconcile :
    (lib : Platform) (now tenant_id effect_id output_text : String) (receipt : Fields) (t : Table)
    → Evolves tenant_id t (reconcile_success lib now tenant_id effect_id output_text receipt t).1
unfolding reconcile_success reconcile_rows
Evolves-reconcile lib now tenant_id effect_id output_text receipt t =
    Evolves-after_check
      (validate_identity tenant_id effect_id
        >> validate_output output_text
        >> validate_receipt lib receipt)
      (reconcile_rows lib now tenant_id effect_id output_text receipt) t
      (elim (Bool-cases (eqb (count_where (is_unknown_for tenant_id effect_id) t) 1)) [
        | inl one ↦ rw one (
            updated (is_unknown_for tenant_id effect_id) (settle lib now output_text receipt)
              (settle-Changes lib now tenant_id effect_id output_text receipt))
        | inr other ↦ rw other unchanged
      ])

revoke-Changes :
    (now tenant_id run_id reason : String) (row : Row)
    → is_unused tenant_id run_id row ≡ true
    → (row.tenant_id ≡ tenant_id) × Changes row (revoke now reason row)
unfolding revoke
revoke-Changes now tenant_id run_id reason row h = (
  ground (arith, eq_iff row.tenant_id tenant_id),
  record {
    same_id = refl;
    same_tenant = refl;
    same_run = refl;
    same_key = refl;
    same_binding = refl;
    move = rw (pending_lem row.status (ground arith)) withdrawn;
  },
)

pub Evolves-revoke_unused :
    (now tenant_id run_id reason : String) (t : Table)
    → Evolves tenant_id t (revoke_unused now tenant_id run_id reason t).1
unfolding revoke_unused
Evolves-revoke_unused now tenant_id run_id reason t =
    Evolves-after_check (validate_identity tenant_id run_id >> validate_reason reason)
      (λ rows. (
        ok (count_where (is_unused tenant_id run_id) rows),
        update_where (is_unused tenant_id run_id) (revoke now reason) rows,
      ))
      t
      (updated (is_unused tenant_id run_id) (revoke now reason)
        (revoke-Changes now tenant_id run_id reason))

Evolves-complete :
    (lib : Platform) (now tenant_id effect_id : String) (fence : ℤ) (output_text : String)
    (receipt : Fields) (t : Table)
    → Evolves tenant_id t (complete lib now tenant_id effect_id fence output_text receipt t).1
unfolding complete
Evolves-complete lib now tenant_id effect_id fence output_text receipt t =
    Evolves-after_check (validate_output output_text >> validate_receipt lib receipt)
      (transition lib now tenant_id effect_id fence (completion lib output_text receipt)) t
      (Evolves-transition lib now tenant_id effect_id fence (completion lib output_text receipt) t
        completed)

abbrev pub tenant_of : Operation → String
tenant_of (reserving intent) = intent.tenant_id
tenant_of (completing _ tenant_id _ _ _ _) = tenant_id
tenant_of (losing _ tenant_id _ _ _) = tenant_id
tenant_of (failing _ tenant_id _ _ _) = tenant_id
tenant_of (reconciling _ tenant_id _ _ _) = tenant_id
tenant_of (revoking _ tenant_id _ _) = tenant_id

-- Every method, on every branch, changes the table in one of the ways of `Evolves`.
pub perform-Evolves :
    (lib : Platform) (op : Operation) (t : Table) → Evolves (tenant_of op) t (perform lib op t)
unfolding perform mark_unknown mark_failed
perform-Evolves lib (reserving intent) t = Evolves-reserve lib intent t
perform-Evolves lib (completing now tenant_id effect_id fence output_text receipt) t =
    Evolves-complete lib now tenant_id effect_id fence output_text receipt t
perform-Evolves lib (losing now tenant_id effect_id fence reason) t =
    Evolves-transition lib now tenant_id effect_id fence (failure unknown reason) t lost
perform-Evolves lib (failing now tenant_id effect_id fence reason) t =
    Evolves-transition lib now tenant_id effect_id fence (failure failed reason) t refused
perform-Evolves lib (reconciling now tenant_id effect_id output_text receipt) t =
    Evolves-reconcile lib now tenant_id effect_id output_text receipt t
perform-Evolves lib (revoking now tenant_id run_id reason) t =
    Evolves-revoke_unused now tenant_id run_id reason t
