-- ===== src/ModelEffect/Store.antt =====
-- backend/agency_runtime/model_effect_store.py: `SQLiteModelEffectStore`. A method is one critical
-- section on the table, under the lock and in one transaction, so it is a function from the table
-- to its result and the table it leaves; `now` is the reading of the clock that it takes.
pub mod Recovery
pub mod Evolution
pub mod Invariants
pub mod Reservations
pub mod Settlement
pub mod Reconciliation
mod Tests
use ai_native_content_agency.Prelude.{
  ℕ, String, Bool, true, false, not, ◌&&◌, ◌||◌, Option, none, some, List, [], ◌∷◌, ◌++◌, ◌==◌,
}
use ai_native_content_agency.Prelude.Tests.{ltb, eqb, if◌then◌else◌}
use ai_native_content_agency.Prelude.Int.{ℤ, pos, ltb_ℤ, eqb_ℤ, suc_ℤ}
use ai_native_content_agency.Prelude.Tables.{find_where, count_where, update_where, select_where}
use ai_native_content_agency.Prelude.Text.{is_empty, is_sha256, leb_str}
use ai_native_content_agency.Prelude.Results.{Result, ok, err, ◌>>=◌, ◌>>◌, raise_if}
use ai_native_content_agency.Json.{
  Fields, Platform, Value, dict, text, get as get_key, canonical_json,
}
use ai_native_content_agency.ModelEffect.Intent.{
  Status, pending, succeeded, unknown, failed, revoked, is_pending, is_unknown, is_succeeded, Error,
  invalid_output_digest, fence_not_positive, key_conflict, binding_conflict, not_pending,
  not_unknown, not_found, integrity, Intent, Row, Check, when, validate_identity, validate_output,
  validate_receipt, validate_reason, validate_intent, intent_values, intent_from_mapping,
}

abbrev pub Table : Type 0
Table = List Row

pub record Reservation : Type 0 where
  pub intent : Intent
  pub executable : Bool
  pub replayed : Bool

-- The columns that the statements select by.
abbrev pub has_key : String → String → Row → Bool
has_key tenant_id digest row = row.tenant_id == tenant_id && row.idempotency_digest == digest

abbrev pub has_binding : String → String → Row → Bool
has_binding tenant_id digest row = row.tenant_id == tenant_id && row.binding_digest == digest

abbrev pub has_id : String → String → Row → Bool
has_id tenant_id effect_id row = row.tenant_id == tenant_id && row.effect_id == effect_id

abbrev pub primary : String → Row → Bool
primary effect_id row = row.effect_id == effect_id

abbrev pub or_else : {A : Type 0} → Option A → Option A → Option A
or_else (some a) _ = some a
or_else none o = o

-- A row with the idempotency digest comes before one with the binding alone.
find_existing : Intent → Table → Option Row
find_existing intent table =
    or_else (find_where (has_key intent.tenant_id intent.idempotency_digest) table)
      (find_where (has_binding intent.tenant_id intent.binding_digest) table)

-- The branch `existing is not None` of `reserve`.
replay_existing : Platform → Intent → Row → Result Error Reservation
replay_existing lib intent row = do
  existing ← intent_from_mapping lib row
  raise_if
      (existing.idempotency_digest == intent.idempotency_digest
        && not (existing.binding_digest == intent.binding_digest))
      key_conflict
  raise_if (not (existing.binding_digest == intent.binding_digest)) binding_conflict
  ok (record { intent = existing; executable = false; replayed = is_succeeded existing.status })

-- INSERT, with the primary key and the two UNIQUE constraints of the table.
insert : Row → Table → Result Error (Unit {0}) × Table
insert row table =
    if eqb (count_where (primary row.effect_id) table) 0
      && eqb (count_where (has_key row.tenant_id row.idempotency_digest) table) 0
      && eqb (count_where (has_binding row.tenant_id row.binding_digest) table) 0
    then (ok tt, table ++ row ∷ [])
    else (err integrity, table)

-- An INSERT that raises is rolled back; one that does not makes the intent executable.
reserved : Intent → Result Error (Unit {0}) × Table → Result Error Reservation × Table
reserved intent (ok _, table) =
    (ok (record { intent = intent; executable = true; replayed = false }), table)
reserved intent (err e, table) = (err e, table)

reserve_checked : Platform → Intent → Option Row → Table → Result Error Reservation × Table
reserve_checked lib intent (some row) table = (replay_existing lib intent row, table)
reserve_checked lib intent none table = reserved intent (insert (intent_values lib intent) table)

after_check :
    {A : Type 0} → Check → (Table → Result Error A × Table) → Table → Result Error A × Table
after_check (ok _) body table = body table
after_check (err e) body table = (err e, table)

unfoldable pub reserve : Platform → Intent → Table → Result Error Reservation × Table
unfolding after_check reserve_checked reserved insert find_existing replay_existing
reserve lib intent table =
    after_check (validate_intent lib intent true)
      (reserve_checked lib intent (find_existing intent table)) table

read_row : Platform → Option Row → Result Error Intent
read_row lib none = err not_found
read_row lib (some row) = intent_from_mapping lib row

pub get : Platform → String → String → Table → Result Error Intent
unfolding read_row
get lib tenant_id effect_id table =
    validate_identity tenant_id effect_id
    >> read_row lib (find_where (has_id tenant_id effect_id) table)

-- The keyword arguments of `_transition`.
pub record Change : Type 0 where
  pub status : Status
  pub output_text : Option String
  pub output_sha256 : Option String
  pub receipt : Option Fields
  pub failure_reason : String
  pub completed : Bool

abbrev optional : {A : Type 0} → (A → Check) → Option A → Check
optional check none = ok tt
optional check (some a) = check a

unfoldable pub check_transition : Platform → String → String → ℤ → Change → Check
check_transition lib tenant_id effect_id fence change = do
  validate_identity tenant_id effect_id
  raise_if (ltb_ℤ fence (pos 1)) fence_not_positive
  optional validate_output change.output_text
  optional (λ digest. raise_if (not (is_sha256 digest)) invalid_output_digest) change.output_sha256
  optional (validate_receipt lib) change.receipt
  when (not (is_empty change.failure_reason)) (validate_reason change.failure_reason)

abbrev or_keep : {A : Type 0} → Option A → A → A
or_keep none old = old
or_keep (some new) _ = new

abbrev encoded : Platform → Option Fields → Option String
encoded lib none = none
encoded lib (some receipt) = some (canonical_json lib (dict receipt))

-- The assignments of the UPDATE that `_transition` builds.
unfoldable pub assign : Platform → String → Change → Row → Row
assign lib now change row = record row {
  status = change.status;
  updated_at = now;
  output_text = or_keep change.output_text row.output_text;
  output_sha256 = or_keep change.output_sha256 row.output_sha256;
  receipt = or_keep (encoded lib change.receipt) row.receipt;
  failure_reason =
      if not (is_empty change.failure_reason) || is_succeeded change.status
      then change.failure_reason
      else row.failure_reason;
  completed_at = if change.completed then some now else row.completed_at;
}

-- The WHERE clause of the UPDATE.
abbrev pub is_pending_for : String → String → ℤ → Row → Bool
is_pending_for tenant_id effect_id fence row =
    has_id tenant_id effect_id row
    && is_pending row.status
    && eqb_ℤ row.execution_fencing_token fence

-- A row count other than one raises, which rolls the UPDATE back.
update_pending :
    Platform → String → String → String → ℤ → Change → Table → Result Error Intent × Table
update_pending lib now tenant_id effect_id fence change table =
    if eqb (count_where (is_pending_for tenant_id effect_id fence) table) 1
    then (let table' =
          update_where (is_pending_for tenant_id effect_id fence) (assign lib now change) table in
        (get lib tenant_id effect_id table', table'))
    else (err not_pending, table)

pub transition :
    Platform → String → String → String → ℤ → Change → Table → Result Error Intent × Table
unfolding after_check check_transition update_pending assign
transition lib now tenant_id effect_id fence change table =
    after_check (check_transition lib tenant_id effect_id fence change)
      (update_pending lib now tenant_id effect_id fence change) table

abbrev pub completion : Platform → String → Fields → Change
completion lib output_text receipt = record {
  status = succeeded;
  output_text = some output_text;
  output_sha256 = some (lib.sha256 output_text);
  receipt = some receipt;
  failure_reason = "";
  completed = true;
}

abbrev pub failure : Status → String → Change
failure status reason = record {
  status = status;
  output_text = none;
  output_sha256 = none;
  receipt = none;
  failure_reason = reason;
  completed = false;
}

pub complete :
    Platform → String → String → String → ℤ → String → Fields → Table → Result Error Intent × Table
unfolding transition
complete lib now tenant_id effect_id fence output_text receipt table =
    after_check (validate_output output_text >> validate_receipt lib receipt)
      (transition lib now tenant_id effect_id fence (completion lib output_text receipt)) table

unfoldable pub mark_unknown :
    Platform → String → String → String → ℤ → String → Table → Result Error Intent × Table
unfolding transition
mark_unknown lib now tenant_id effect_id fence reason =
    transition lib now tenant_id effect_id fence (failure unknown reason)

pub mark_failed :
    Platform → String → String → String → ℤ → String → Table → Result Error Intent × Table
unfolding transition
mark_failed lib now tenant_id effect_id fence reason =
    transition lib now tenant_id effect_id fence (failure failed reason)
