-- ===== src/ModelEffect/Store/Recovery.antt =====
-- backend/agency_runtime/model_effect_store.py: `reconcile_success`, `revoke_unused` and
-- `list_for_run`, and every method that changes the table as one type of operations.
use ai_native_content_agency.Prelude.{
  ℕ, String, Bool, false, ◌&&◌, Option, none, some, List, [], ◌∷◌, ◌++◌, ◌==◌, ◌≡◌, refl,
}
use ai_native_content_agency.Prelude.Tests.{eqb, if◌then◌else◌}
use ai_native_content_agency.Prelude.Int.{ℤ, suc_ℤ}
use ai_native_content_agency.Prelude.Tables.{find_where, count_where, update_where, select_where}
use ai_native_content_agency.Prelude.Text.{is_sha256, leb_str}
use ai_native_content_agency.Prelude.Results.{Result, ok, err, ◌>>=◌, ◌>>◌}
use ai_native_content_agency.Json.{
  Fields, Platform, Value, dict, text, get as get_key, canonical_json,
}
use ai_native_content_agency.ModelEffect.Intent.{
  succeeded, revoked, is_pending, is_unknown, is_succeeded, Error, not_unknown, Intent, Row,
  validate_identity, validate_output, validate_receipt, validate_reason, intent_from_mapping,
}
use ai_native_content_agency.ModelEffect.Store.{
  Table, has_id, after_check, get, reserve, complete, mark_unknown, mark_failed,
}

-- `expected` is a text that is a SHA-256 digest, and `observed` is the same text.
unfoldable pub same_digest : Option Value → Option Value → Bool
same_digest (some (text expected)) (some (text observed)) =
    is_sha256 expected && observed == expected
same_digest _ _ = false

abbrev pub digest_field : String
digest_field = "reconciliation_binding_digest"

unfoldable pub reconciliation_matches : Intent → String → Fields → Bool
unfolding same_digest
reconciliation_matches intent output_sha256 receipt =
    is_succeeded intent.status
    && intent.output_sha256 == output_sha256
    && same_digest (get_key digest_field receipt) (get_key digest_field intent.receipt)

abbrev pub is_unknown_for : String → String → Row → Bool
is_unknown_for tenant_id effect_id row = has_id tenant_id effect_id row && is_unknown row.status

unfoldable pub settle : Platform → String → String → Fields → Row → Row
settle lib now output_text receipt row = record row {
  status = succeeded;
  output_text = output_text;
  output_sha256 = lib.sha256 output_text;
  receipt = canonical_json lib (dict receipt);
  failure_reason = "";
  completed_at = some now;
  updated_at = now;
}

-- No row was unknown: a repeated reconciliation is answered, and any other raises.
unfoldable pub reconcile_again : Platform → String → Fields → Option Row → Result Error Intent
unfolding reconciliation_matches
reconcile_again lib output_sha256 receipt none = err not_unknown
reconcile_again lib output_sha256 receipt (some row) = do
  existing ← intent_from_mapping lib row
  if reconciliation_matches existing output_sha256 receipt then ok existing else err not_unknown

unfoldable pub reconcile_rows :
    Platform → String → String → String → String → Fields → Table → Result Error Intent × Table
unfolding settle reconcile_again
reconcile_rows lib now tenant_id effect_id output_text receipt table =
    if eqb (count_where (is_unknown_for tenant_id effect_id) table) 1
    then (let table' =
          update_where (is_unknown_for tenant_id effect_id) (settle lib now output_text receipt)
            table in
        (get lib tenant_id effect_id table', table'))
    else (
      reconcile_again lib (lib.sha256 output_text) receipt
          (find_where (has_id tenant_id effect_id) table),
      table,
    )

unfoldable pub reconcile_success :
    Platform → String → String → String → String → Fields → Table → Result Error Intent × Table
unfolding reconcile_rows after_check
reconcile_success lib now tenant_id effect_id output_text receipt table =
    after_check
      (validate_identity tenant_id effect_id
        >> validate_output output_text
        >> validate_receipt lib receipt)
      (reconcile_rows lib now tenant_id effect_id output_text receipt) table

abbrev pub is_unused : String → String → Row → Bool
is_unused tenant_id run_id row =
    row.tenant_id == tenant_id && row.run_id == run_id && is_pending row.status

unfoldable pub revoke : String → String → Row → Row
revoke now reason row = record row {
  status = revoked;
  execution_fencing_token = suc_ℤ row.execution_fencing_token;
  failure_reason = reason;
  revoked_at = some now;
  updated_at = now;
}

-- The rows that were pending, and the table with their fences moved on.
unfoldable pub revoke_unused : String → String → String → String → Table → Result Error ℕ × Table
unfolding revoke after_check
revoke_unused now tenant_id run_id reason table =
    after_check (validate_identity tenant_id run_id >> validate_reason reason)
      (λ rows. (
        ok (count_where (is_unused tenant_id run_id) rows),
        update_where (is_unused tenant_id run_id) (revoke now reason) rows,
      ))
      table

-- ORDER BY created_at ASC, effect_id ASC
unfoldable pub row_le : Row → Row → Bool
row_le a b =
    if a.created_at == b.created_at
    then leb_str a.effect_id b.effect_id
    else leb_str a.created_at b.created_at

unfoldable pub insert_row : Row → Table → Table
insert_row r [] = r ∷ []
insert_row r (s ∷ t) = let rest = insert_row r t in if row_le r s then r ∷ s ∷ t else s ∷ rest

unfoldable pub sort_rows : Table → Table
sort_rows [] = []
sort_rows (r ∷ t) = insert_row r (sort_rows t)

unfoldable pub read_rows : Platform → Table → Result Error (List Intent)
read_rows lib [] = ok []
read_rows lib (row ∷ rows) = do
  intent ← intent_from_mapping lib row
  intents ← read_rows lib rows
  ok (intent ∷ intents)

abbrev pub of_run : String → String → Row → Bool
of_run tenant_id run_id row = row.tenant_id == tenant_id && row.run_id == run_id

unfoldable pub list_for_run : Platform → String → String → Table → Result Error (List Intent)
unfolding row_le insert_row sort_rows read_rows
list_for_run lib tenant_id run_id table =
    validate_identity tenant_id run_id
    >> read_rows lib (sort_rows (select_where (of_run tenant_id run_id) table))

-- One call of a method that may change the table.
pub data Operation : Type 0 where
  reserving : Intent → Operation
  completing : String → String → String → ℤ → String → Fields → Operation
  losing failing : String → String → String → ℤ → String → Operation
  reconciling : String → String → String → String → Fields → Operation
  revoking : String → String → String → String → Operation

unfoldable pub perform : Platform → Operation → Table → Table
perform lib (reserving intent) table = (reserve lib intent table).1
perform lib (completing now tenant_id effect_id fence output_text receipt) table =
    (complete lib now tenant_id effect_id fence output_text receipt table).1
perform lib (losing now tenant_id effect_id fence reason) table =
    (mark_unknown lib now tenant_id effect_id fence reason table).1
perform lib (failing now tenant_id effect_id fence reason) table =
    (mark_failed lib now tenant_id effect_id fence reason table).1
perform lib (reconciling now tenant_id effect_id output_text receipt) table =
    (reconcile_success lib now tenant_id effect_id output_text receipt table).1
perform lib (revoking now tenant_id run_id reason) table =
    (revoke_unused now tenant_id run_id reason table).1

-- A history: the methods called one after the other, from any thread or process.
unfoldable pub history : Platform → List Operation → Table → Table
history lib [] table = table
history lib (op ∷ ops) table = history lib ops (perform lib op table)

pub history-append :
    (lib : Platform) (before after : List Operation) (table : Table)
    → history lib (before ++ after) table ≡ history lib after (history lib before table)
unfolding history
history-append lib [] after table = refl
history-append lib (op ∷ before) after table =
    history-append lib before after (perform lib op table)
