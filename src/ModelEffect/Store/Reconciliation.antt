-- ===== src/ModelEffect/Store/Reconciliation.antt =====
-- `reconcile_success` of backend/agency_runtime/model_effect_store.py, on a row whose outcome is
-- unknown and again on the row that it leaves.
use ai_native_content_agency.Prelude.{String, ◌≡◌, some}
use ai_native_content_agency.Prelude.Tables.{find_where}
use ai_native_content_agency.Prelude.Results.{ok}
use ai_native_content_agency.Json.{Platform, Fields, dict, get as get_key, canonical_json}
use ai_native_content_agency.ModelEffect.Intent.{
  Row, Intent, validate_identity, validate_output, validate_receipt, with_receipt,
}
use ai_native_content_agency.ModelEffect.Store.{Table, has_id, get}
use ai_native_content_agency.ModelEffect.Store.Recovery.{settle}
use ai_native_content_agency.ModelEffect.Store.Invariants.{HasUniqueKeys}

abbrev pub Accepted : Platform → String → String → String → Fields → Type 0
Accepted lib tenant_id effect_id output_text receipt =
    (validate_identity tenant_id effect_id ≡ ok tt)
    × (validate_output output_text ≡ ok tt)
    × (validate_receipt lib receipt ≡ ok tt)
    × (lib.loads (canonical_json lib (dict receipt)) ≡ some (dict receipt))

module _ (lib : Platform) (tenant_id effect_id output_text : String) (receipt : Fields) (row : Row)
    (t : Table) (unique : HasUniqueKeys t)
    (found : find_where (has_id tenant_id effect_id) t ≡ some row)
    (accepted : Accepted lib tenant_id effect_id output_text receipt) where
  settled : String → Intent
  settled now = with_receipt (settle lib now output_text receipt row) receipt
