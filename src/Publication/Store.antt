-- ===== src/Publication/Store.antt =====
-- backend/agency_runtime/social_publication_store.py: `SQLiteSocialPublicationStore`. A method is one
-- critical section on the table, under the lock and in one transaction, so it is a function from the
-- table to its result and the table it leaves; `now` is the reading of the clock that it takes.
pub mod Recovery
pub mod Once
pub mod Final
mod Tests
use ai_native_content_agency.Prelude.{
  String, Bool, true, false, not, ◌&&◌, ◌||◌, Option, none, some, List, [], ◌∷◌, ◌++◌, ◌==◌,
}
use ai_native_content_agency.Prelude.Tests.{eqb, if◌then◌else◌}
use ai_native_content_agency.Prelude.Int.{ℤ, pos, ltb_ℤ, eqb_ℤ}
use ai_native_content_agency.Prelude.Tables.{find_where, count_where, update_where}
use ai_native_content_agency.Prelude.Text.{is_empty}
use ai_native_content_agency.Prelude.Results.{Result, ok, err, ◌>>=◌, ◌>>◌, raise_if, guarded}
use ai_native_content_agency.Json.{Fields, Platform, dict, canonical_json}
use ai_native_content_agency.Publication.Intent.{
  Status, pending, succeeded, unknown, failed, is_pending, is_succeeded, Error, fence_not_positive,
  key_conflict, binding_conflict, not_pending, not_found, integrity, Intent, Row, Check,
  validate_identity, validate_provider_id, validate_receipt, validate_reason, validate_intent,
  intent_values, intent_from_mapping,
}

abbrev pub Table : Type 0
Table = List Row

-- `SocialPublicationReservation`
pub record Reservation : Type 0 where
  pub intent : Intent
  pub executable : Bool
  pub replayed : Bool

-- The columns that the statements select by.
abbrev pub has_key : String → String → Row → Bool
has_key tenant_id digest row = row.tenant_id == tenant_id && row.idempotency_digest == digest

abbrev pub has_binding : String → String → Row → Bool
has_binding tenant_id digest row = row.tenant_id == tenant_id && row.binding_digest == digest

abbrev pub has_id : String → String → Row → Bool
has_id tenant_id intent_id row = row.tenant_id == tenant_id && row.intent_id == intent_id

abbrev pub primary : String → Row → Bool
primary intent_id row = row.intent_id == intent_id

abbrev or_else : {A : Type 0} → Option A → Option A → Option A
or_else (some a) _ = some a
or_else none o = o

-- A row with the idempotency digest comes before one with the binding alone.
unfoldable pub find_existing : Intent → Table → Option Row
find_existing intent table =
    or_else (find_where (has_key intent.tenant_id intent.idempotency_digest) table)
      (find_where (has_binding intent.tenant_id intent.binding_digest) table)

-- The branch `existing is not None` of `reserve`.
unfoldable pub replay_existing : Platform → Intent → Row → Result Error Reservation
replay_existing lib intent row = do
  existing ← intent_from_mapping lib row
  raise_if
      (existing.idempotency_digest == intent.idempotency_digest
        && not (existing.binding_digest == intent.binding_digest))
      key_conflict
  raise_if (not (existing.binding_digest == intent.binding_digest)) binding_conflict
  ok (record { intent = existing; executable = false; replayed = is_succeeded existing.status })

-- INSERT, with the primary key and the two UNIQUE constraints of the table; an IntegrityError is
-- rolled back.
unfoldable pub insert : Platform → Intent → Table → Result Error Reservation × Table
insert lib intent table =
    if eqb (count_where (primary intent.intent_id) table) 0
      && eqb (count_where (has_key intent.tenant_id intent.idempotency_digest) table) 0
      && eqb (count_where (has_binding intent.tenant_id intent.binding_digest) table) 0
    then (
      ok (record { intent = intent; executable = true; replayed = false }),
      table ++ intent_values lib intent ∷ [],
    )
    else (err integrity, table)

unfoldable pub reserve_checked :
    Platform → Intent → Option Row → Table → Result Error Reservation × Table
unfolding replay_existing insert
reserve_checked lib intent (some row) table = (replay_existing lib intent row, table)
reserve_checked lib intent none table = insert lib intent table

unfoldable pub reserve : Platform → Intent → Table → Result Error Reservation × Table
unfolding reserve_checked find_existing guarded
reserve lib intent table =
    guarded (validate_intent lib intent true)
      (λ t. reserve_checked lib intent (find_existing intent t) t) table

pub read_row : Platform → Option Row → Result Error Intent
read_row lib none = err not_found
read_row lib (some row) = intent_from_mapping lib row

unfoldable pub get : Platform → String → String → Table → Result Error Intent
unfolding read_row
get lib tenant_id intent_id table =
    validate_identity tenant_id intent_id
    >> read_row lib (find_where (has_id tenant_id intent_id) table)

-- The keyword arguments of `_transition`.
pub record Change : Type 0 where
  pub status : Status
  pub provider_container_id : Option String
  pub provider_post_id : Option String
  pub receipt : Option Fields
  pub failure_reason : String
  pub completed : Bool

abbrev pub optional : {A : Type 0} → (A → Check) → Option A → Check
optional check none = ok tt
optional check (some a) = check a

unfoldable pub check_transition : Platform → String → String → ℤ → Change → Check
check_transition lib tenant_id intent_id fence change = do
  validate_identity tenant_id intent_id
  raise_if (ltb_ℤ fence (pos 1)) fence_not_positive
  optional validate_provider_id change.provider_container_id
  optional validate_provider_id change.provider_post_id
  optional (validate_receipt lib) change.receipt
  if not (is_empty change.failure_reason) then validate_reason change.failure_reason else ok tt

abbrev or_keep : Option String → Option String → Option String
or_keep none old = old
or_keep (some new) _ = some new

abbrev encoded : Platform → Option Fields → String → String
encoded lib none old = old
encoded lib (some receipt) old = canonical_json lib (dict receipt)

-- The assignments of the UPDATE that `_transition` builds.
unfoldable pub assign : Platform → String → Change → Row → Row
assign lib now change row = record row {
  status = change.status;
  updated_at = now;
  provider_container_id = or_keep change.provider_container_id row.provider_container_id;
  provider_post_id = or_keep change.provider_post_id row.provider_post_id;
  receipt = encoded lib change.receipt row.receipt;
  failure_reason =
      if not (is_empty change.failure_reason)
        || (is_succeeded change.status || is_pending change.status)
      then change.failure_reason
      else row.failure_reason;
  completed_at = if change.completed then some now else row.completed_at;
}

-- The WHERE clause of the UPDATE.
abbrev pub is_pending_for : String → String → ℤ → Row → Bool
is_pending_for tenant_id intent_id fence row =
    has_id tenant_id intent_id row
    && is_pending row.status
    && eqb_ℤ row.execution_fencing_token fence

-- A row count other than one raises, which rolls the UPDATE back.
unfoldable pub update_pending :
    Platform → String → String → String → ℤ → Change → Table → Result Error Intent × Table
update_pending lib now tenant_id intent_id fence change table =
    if eqb (count_where (is_pending_for tenant_id intent_id fence) table) 1
    then (let table' =
          update_where (is_pending_for tenant_id intent_id fence) (assign lib now change) table in
        (get lib tenant_id intent_id table', table'))
    else (err not_pending, table)

unfoldable pub transition :
    Platform → String → String → String → ℤ → Change → Table → Result Error Intent × Table
unfolding guarded check_transition update_pending assign
transition lib now tenant_id intent_id fence change table =
    guarded (check_transition lib tenant_id intent_id fence change)
      (update_pending lib now tenant_id intent_id fence change) table

abbrev pub containment : String → Change
containment container_id = record {
  status = pending;
  provider_container_id = some container_id;
  provider_post_id = none;
  receipt = none;
  failure_reason = "";
  completed = false;
}

abbrev pub completion : String → Fields → Change
completion provider_post_id receipt = record {
  status = succeeded;
  provider_container_id = none;
  provider_post_id = some provider_post_id;
  receipt = some receipt;
  failure_reason = "";
  completed = true;
}

abbrev pub failure : Status → String → Change
failure status reason = record {
  status = status;
  provider_container_id = none;
  provider_post_id = none;
  receipt = none;
  failure_reason = reason;
  completed = false;
}

unfoldable pub record_container :
    Platform → String → String → String → ℤ → String → Table → Result Error Intent × Table
unfolding transition
record_container lib now tenant_id intent_id fence container_id =
    transition lib now tenant_id intent_id fence (containment container_id)

unfoldable pub complete :
    Platform → String → String → String → ℤ → String → Fields → Table → Result Error Intent × Table
unfolding transition
complete lib now tenant_id intent_id fence provider_post_id receipt =
    transition lib now tenant_id intent_id fence (completion provider_post_id receipt)

unfoldable pub mark_unknown :
    Platform → String → String → String → ℤ → String → Table → Result Error Intent × Table
unfolding transition
mark_unknown lib now tenant_id intent_id fence reason =
    transition lib now tenant_id intent_id fence (failure unknown reason)

unfoldable pub mark_failed :
    Platform → String → String → String → ℤ → String → Table → Result Error Intent × Table
unfolding transition
mark_failed lib now tenant_id intent_id fence reason =
    transition lib now tenant_id intent_id fence (failure failed reason)
