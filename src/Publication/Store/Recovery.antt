-- ===== src/Publication/Store/Recovery.antt =====
-- backend/agency_runtime/social_publication_store.py: `reconcile_success`, `revoke_unused` and
-- `list_for_run`, and every method that changes the table as one type of operations.
use ai_native_content_agency.Prelude.{
  ℕ, String, Bool, true, not, ◌&&◌, Option, none, some, List, [], ◌∷◌, ◌==◌,
}
use ai_native_content_agency.Prelude.Tests.{eqb, if◌then◌else◌}
use ai_native_content_agency.Prelude.Int.{ℤ}
use ai_native_content_agency.Prelude.Tables.{find_where, count_where, update_where, select_where}
use ai_native_content_agency.Prelude.Text.{leb_str}
use ai_native_content_agency.Prelude.Results.{Result, ok, err, ◌>>=◌, ◌>>◌, raise_if, guarded}
use ai_native_content_agency.Json.{Fields, Platform, dict, canonical_json}
use ai_native_content_agency.Publication.Intent.{
  succeeded, revoked, is_pending, is_unknown, is_identifier, is_channel, Error, not_unknown,
  invalid_identity, invalid_channel, Intent, Row, Check, validate_identity, validate_provider_id,
  validate_receipt, validate_reason, intent_from_mapping, reconciliation_matches,
}
use ai_native_content_agency.Publication.Store.{
  Table, has_id, get, optional, reserve, record_container, complete, mark_unknown, mark_failed,
}

abbrev pub is_unknown_for : String → String → Row → Bool
is_unknown_for tenant_id intent_id row = has_id tenant_id intent_id row && is_unknown row.status

unfoldable pub settle : Platform → String → String → Fields → Row → Row
settle lib now provider_post_id receipt row = record row {
  status = succeeded;
  provider_post_id = some provider_post_id;
  receipt = canonical_json lib (dict receipt);
  failure_reason = "";
  completed_at = some now;
  updated_at = now;
}

-- No row was unknown: a repeated reconciliation is answered, and any other raises.
unfoldable pub reconcile_again : Platform → String → Fields → Option Row → Result Error Intent
reconcile_again lib provider_post_id receipt none = err not_unknown
reconcile_again lib provider_post_id receipt (some row) = do
  existing ← intent_from_mapping lib row
  if reconciliation_matches existing provider_post_id receipt then ok existing else err not_unknown

unfoldable pub reconcile_rows :
    Platform → String → String → String → String → Fields → Table → Result Error Intent × Table
unfolding settle reconcile_again
reconcile_rows lib now tenant_id intent_id provider_post_id receipt table =
    if eqb (count_where (is_unknown_for tenant_id intent_id) table) 1
    then (let table' =
          update_where (is_unknown_for tenant_id intent_id)
            (settle lib now provider_post_id receipt) table in
        (get lib tenant_id intent_id table', table'))
    else (
      reconcile_again lib provider_post_id receipt (find_where (has_id tenant_id intent_id) table),
      table,
    )

unfoldable pub reconcile_success :
    Platform → String → String → String → String → Fields → Table → Result Error Intent × Table
unfolding reconcile_rows guarded
reconcile_success lib now tenant_id intent_id provider_post_id receipt table =
    guarded
      (validate_identity tenant_id intent_id
        >> validate_provider_id provider_post_id
        >> validate_receipt lib receipt)
      (reconcile_rows lib now tenant_id intent_id provider_post_id receipt) table

-- The optional arguments of `revoke_unused`.
pub record Filter : Type 0 where
  pub channel_id : Option String
  pub account_id : Option String
  pub run_id : Option String

abbrev selects : Option String → String → Bool
selects none _ = true
selects (some value) column = column == value

-- The WHERE clause that `revoke_unused` joins.
abbrev pub is_unused : String → Filter → Row → Bool
is_unused tenant_id filter row =
    row.tenant_id == tenant_id
    && is_pending row.status
    && selects filter.channel_id row.channel_id
    && selects filter.account_id row.account_id
    && selects filter.run_id row.run_id

-- The fence stays as it is.
unfoldable pub revoke : String → String → Row → Row
revoke now reason row = record row {
  status = revoked;
  failure_reason = reason;
  revoked_at = some now;
  updated_at = now;
}

abbrev named : String → Check
named value = raise_if (not (is_identifier value)) invalid_identity

unfoldable pub check_revocation : String → Filter → String → Check
check_revocation tenant_id filter reason = do
  named tenant_id
  optional (λ channel. raise_if (not (is_channel channel)) invalid_channel) filter.channel_id
  optional named filter.account_id
  optional named filter.run_id
  validate_reason reason

-- The row count of the UPDATE, and the table it leaves.
unfoldable pub revoke_unused : String → String → Filter → String → Table → Result Error ℕ × Table
unfolding revoke check_revocation guarded
revoke_unused now tenant_id filter reason table =
    guarded (check_revocation tenant_id filter reason)
      (λ rows. (
        ok (count_where (is_unused tenant_id filter) rows),
        update_where (is_unused tenant_id filter) (revoke now reason) rows,
      ))
      table

-- ORDER BY created_at ASC, intent_id ASC
unfoldable pub row_le : Row → Row → Bool
row_le a b =
    if a.created_at == b.created_at
    then leb_str a.intent_id b.intent_id
    else leb_str a.created_at b.created_at

unfoldable pub insert_row : Row → Table → Table
insert_row r [] = r ∷ []
insert_row r (s ∷ t) = let rest = insert_row r t in if row_le r s then r ∷ s ∷ t else s ∷ rest

unfoldable pub sort_rows : Table → Table
sort_rows [] = []
sort_rows (r ∷ t) = insert_row r (sort_rows t)

unfoldable pub read_rows : Platform → Table → Result Error (List Intent)
read_rows lib [] = ok []
read_rows lib (row ∷ rows) = do
  intent ← intent_from_mapping lib row
  intents ← read_rows lib rows
  ok (intent ∷ intents)

abbrev pub of_run : String → String → Row → Bool
of_run tenant_id run_id row = row.tenant_id == tenant_id && row.run_id == run_id

unfoldable pub list_for_run : Platform → String → String → Table → Result Error (List Intent)
unfolding row_le insert_row sort_rows read_rows
list_for_run lib tenant_id run_id table =
    validate_identity tenant_id run_id
    >> read_rows lib (sort_rows (select_where (of_run tenant_id run_id) table))

-- One call of a method that may change the table.
pub data Operation : Type 0 where
  reserving : Intent → Operation
  containing : String → String → String → ℤ → String → Operation
  completing : String → String → String → ℤ → String → Fields → Operation
  losing failing : String → String → String → ℤ → String → Operation
  reconciling : String → String → String → String → Fields → Operation
  revoking : String → String → Filter → String → Operation

unfoldable pub perform : Platform → Operation → Table → Table
perform lib (reserving intent) table = (reserve lib intent table).1
perform lib (containing now tenant_id intent_id fence container_id) table =
    (record_container lib now tenant_id intent_id fence container_id table).1
perform lib (completing now tenant_id intent_id fence provider_post_id receipt) table =
    (complete lib now tenant_id intent_id fence provider_post_id receipt table).1
perform lib (losing now tenant_id intent_id fence reason) table =
    (mark_unknown lib now tenant_id intent_id fence reason table).1
perform lib (failing now tenant_id intent_id fence reason) table =
    (mark_failed lib now tenant_id intent_id fence reason table).1
perform lib (reconciling now tenant_id intent_id provider_post_id receipt) table =
    (reconcile_success lib now tenant_id intent_id provider_post_id receipt table).1
perform lib (revoking now tenant_id filter reason) table =
    (revoke_unused now tenant_id filter reason table).1

-- A history: the methods called one after the other, from any thread or process.
unfoldable pub history : Platform → List Operation → Table → Table
history lib [] table = table
history lib (op ∷ ops) table = history lib ops (perform lib op table)
