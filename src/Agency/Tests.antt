-- ===== src/Agency/Tests.antt =====
-- One political run from its creation to its revocation, by services that always succeed.
use ai_native_content_agency.Prelude.{
  ℕ, zero, suc, String, true, false, none, some, ◌≡◌, ◌≢◌, refl, List, [], ◌∷◌, ◌++◌, map, ◌↔◌,
}
use ai_native_content_agency.Prelude.Int.{pos, suc_ℤ, eqb_ℤ}
use ai_native_content_agency.Prelude.Tables.{find_where, update_where, count_where}
use ai_native_content_agency.Prelude.Text.{strip, lstrip, rstrip}
use ai_native_content_agency.Prelude.Results.{ok, err}
use ai_native_content_agency.Json.{
  boolean, list, dict, nil, Fields, end, field, get, put, insert_sorted, to_primitive,
  primitive_items, primitive_fields, canonical_json, take_text, stable_id, is_blank,
}
use ai_native_content_agency.Json.{Platform as Library}
use ai_native_content_agency.Agency.Model.{
  instagram, publisher, awaiting_greenlight, approve, Brief, Evidence, Artifact, Greenlight, Run,
  not_active, check_brief, check_greenlight, check_revocation, active, update, add_artifact,
  last_of_kind, is_political,
}
use ai_native_content_agency.Agency.Values.{
  texts, platform_texts, platform_enums, claim_values, brief_to_value, artifact_to_value,
}
use ai_native_content_agency.Agency.Stations.{
  Outcome, and_then, add_event, set_state, update_state, begin, add_evidence, new_artifact,
  complete_with, holds, lets_greenlight, close_gate, await_greenlight,
}
use ai_native_content_agency.Agency.Services.{
  Services, Response, value_at, size_at, get_or, payload_of, last_sequence, compute,
  remember_artifact, complete_then,
}
use ai_native_content_agency.Agency.Handlers.{
  run_ceo, run_research, run_strategist, run_growth, run_writer, run_media, run_risk, execute_role,
}
use ai_native_content_agency.Agency.Orchestrator.{
  start_detail, at_station, visit, advance_from, dequeue, advance_run, new_run, run_loop,
}
use ai_native_content_agency.Agency.Greenlights.{
  claim_contract, claim_hashes, compliance_payload, compliance_record, artifact_hash, artifact_ids,
  new_greenlight,
}
use ai_native_content_agency.Agency.Decisions.{
  check_decision, check_reviewable, complete_run, finish_package, package_run, approve_run,
  add_compliance, give_greenlight, record_decision, decide_run, active_greenlight, fence_greenlight,
  revoke_greenlight, check_revoke, revoke_run,
}
use ai_native_content_agency.Agency.Effects.{Effect, eqb_texts, check_envelope, check_effect}
use ai_native_content_agency.Agency.Reachable.{
  Reachable, created, advanced, decided, IsNumbered, Reachable-IsNumbered,
}
use ai_native_content_agency.Agency.Governance.{IsGoverned, Reachable-IsGoverned}
use ai_native_content_agency.Agency.Termination.{Ends, start-Ends}
use ai_native_content_agency.Agency.Authorization.{Authorizes, check_effect-Authorizes}
use ai_native_content_agency.Agency.Approval.{approve_political, revoke_fences, effect_covers}
use ai_native_content_agency.Agency.Model.{bad_value, check_execution}
use ai_native_content_agency.Prelude.{◌⊎◌}
use ai_native_content_agency.Agency.Model.{failed}
use ai_native_content_agency.Agency.Worker.{Times, execute_calls}
use ai_native_content_agency.Agency.Liveness.{execute_calls-new_run}
use ai_native_content_agency.Agency.Phases.{Leads, advance, perform, perform-Leads}
use ai_native_content_agency.Agency.Reading.{Casts}
use ai_native_content_agency.Agency.Writing.{execution_run_to_document}
use ai_native_content_agency.Agency.Document.{execution_run_from_document}
use ai_native_content_agency.Agency.Roundtrip.{primitive_artifact, primitive_evidence}
use ai_native_content_agency.Agency.Restored.{sort_states, IsWritable, from_document-to_document}

abbrev library : Library
library = record { dumps = λ _. "json"; loads = λ _. none; sha256 = λ s. "0123456789abcdef" }

abbrev evidence : Evidence
evidence = record {
  evidence_id = "evidence-1";
  tool = "sandbox";
  operation = "collect";
  sandbox = true;
  summary = "synthetic";
  payload = end;
  references = [];
}

abbrev response : Response
response = record { result = end; evidence = evidence }

abbrev critique : Fields
critique =
    field "passed" (boolean true)
      (field "publication_eligible" (boolean true) (field "checks" (list nil) end))

abbrev services : Services
services = record {
  collect_trends = λ _ _ _. ok response;
  observe_page = λ _ _. ok response;
  lookup_docs = λ _ _. ok (nil, evidence);
  forecast_ads = λ _ _ _ _. ok response;
  plan_video = λ _ _ _. ok response;
  plan_motion = λ _ _ _. ok response;
  inspect_code = λ _ _ _. ok response;
  package_campaign = λ _ _ _. ok ("sandbox://manifest", response);
  claim_ledger = λ _ _. ok nil;
  strategy_payload = λ _. ok (field "pillars" (list nil) end);
  growth_payload = λ _ _. ok end;
  copy_payload = λ _ _. ok (field "variants" (dict end) end);
  media_payload = λ _ _ _. ok end;
  critique_payload = λ _ _ _. ok critique;
  remember = λ _. ok tt;
  str = λ _. "1";
}

abbrev brief : Brief
brief = record {
  title = "Plan";
  objective = "Informar";
  audience = "Vecinos";
  platforms = instagram ∷ [];
  budget_cents = pos 500;
  source_asset = "sandbox://brief/no-external-asset";
  campaign_goal = "awareness";
  campaign_type = "political";
  publication_mode = "organic";
  locale = "es-GT";
  jurisdiction = "GT";
  office = "alcalde";
  candidate_name = "Ana";
  locality = "Mixco";
  problem = "Agua";
  proposal = "Red";
  desired_action = "Leer";
  disclosure = "Pagado por Ana";
  legal_review_status = "approved";
  legal_reviewed_by = "legal";
  evidence_claims =
      record {
        statement = "Hay agua";
        source = "INE";
        locator = "p. 1";
        verification_status = "verified";
        reviewed_by = "legal";
      }
      ∷ [];
}

abbrev clock : ℕ → String
clock _ = "2026-01-01T00:00:00Z"

-- So many calls of `advance`.
advance_times : ℕ → Run → Run
unfolding advance_run
advance_times zero run = run
advance_times (suc n) run = advance_times n (advance_run library services clock run).1

advance_times-Reachable :
    (n : ℕ) (run : Run)
    → Reachable library services run
    → Reachable library services (advance_times n run)
unfolding advance_times
advance_times-Reachable zero run h = h
advance_times-Reachable (suc n) run h =
    advance_times-Reachable n (advance_run library services clock run).1 (advanced clock run h)

abbrev created_run : Run
created_run = new_run library "2026-01-01T00:00:00Z" true brief

abbrev gated_run : Run
gated_run = advance_times 14 created_run

abbrev approved_run : Run
approved_run = (decide_run library services clock approve "reviewer" "" gated_run).1

gated_run-Reachable : Reachable library services gated_run
unfolding check_brief count_where is_blank strip lstrip rstrip
gated_run-Reachable =
    advance_times-Reachable 14 created_run (created "2026-01-01T00:00:00Z" true brief refl)

approved_run-Reachable : Reachable library services approved_run
approved_run-Reachable = decided clock approve "reviewer" "" gated_run gated_run-Reachable

abbrev test_effect : Effect
test_effect = record {
  greenlight_id = "greenlight-0123456789abcdef";
  fencing_token = pos 1;
  artifact_ids =
      map (λ (a : Artifact). a.artifact_id) gated_run.artifacts
      ++ "political-compliance-record-0123456789abcdef" ∷ [];
  artifact_hashes =
      map (artifact_hash library) gated_run.artifacts ++ "sha256-0123456789abcdef" ∷ [];
  channel = "instagram";
  budget_cents = pos 500;
}

gated_run_status : gated_run.status ≡ awaiting_greenlight
unfolding advance_times new_run brief_to_value platform_enums claim_values stable_id take_text
    canonical_json to_primitive primitive_items primitive_fields insert_sorted advance_run dequeue
    advance_from visit at_station start_detail begin and_then update_state set_state update
    add_event find_where update_where count_where execute_role run_ceo run_research run_strategist
    run_growth run_writer run_media run_risk complete_then new_artifact complete_with add_artifact
    add_evidence compute remember_artifact last_sequence payload_of size_at value_at get_or get put
    texts platform_texts last_of_kind await_greenlight close_gate lets_greenlight holds
gated_run_status = refl

approved_run_passes : check_effect test_effect approved_run ≡ ok tt
unfolding advance_times new_run brief_to_value platform_enums claim_values stable_id take_text
    canonical_json to_primitive primitive_items primitive_fields insert_sorted advance_run dequeue
    advance_from visit at_station start_detail begin and_then update_state set_state update
    add_event find_where update_where count_where execute_role run_ceo run_research run_strategist
    run_growth run_writer run_media run_risk complete_then new_artifact complete_with add_artifact
    add_evidence compute remember_artifact last_sequence payload_of size_at value_at get_or get put
    texts platform_texts last_of_kind await_greenlight close_gate lets_greenlight holds decide_run
    check_reviewable check_decision is_blank strip lstrip rstrip record_decision add_compliance
    compliance_record compliance_payload claim_hashes claim_contract give_greenlight new_greenlight
    check_greenlight check_revocation artifact_hash artifact_to_value approve_run package_run
    finish_package complete_run check_effect check_envelope active_greenlight active eqb_texts
approved_run_passes = refl

approved_run_ok : (decide_run library services clock approve "reviewer" "" gated_run).0 ≡ ok tt
unfolding advance_times new_run brief_to_value platform_enums claim_values stable_id take_text
    canonical_json to_primitive primitive_items primitive_fields insert_sorted advance_run dequeue
    advance_from visit at_station start_detail begin and_then update_state set_state update
    add_event find_where update_where count_where execute_role run_ceo run_research run_strategist
    run_growth run_writer run_media run_risk complete_then new_artifact complete_with add_artifact
    add_evidence compute remember_artifact last_sequence payload_of size_at value_at get_or get put
    texts platform_texts last_of_kind await_greenlight close_gate lets_greenlight holds decide_run
    check_reviewable check_decision is_blank strip lstrip rstrip record_decision add_compliance
    compliance_record compliance_payload claim_hashes claim_contract give_greenlight new_greenlight
    check_greenlight check_revocation artifact_hash artifact_to_value approve_run package_run
    finish_package complete_run
approved_run_ok = refl

revoked_run_ok : (revoke_run clock "reviewer" "stop" approved_run).0 ≡ ok tt
unfolding advance_times new_run brief_to_value platform_enums claim_values stable_id take_text
    canonical_json to_primitive primitive_items primitive_fields insert_sorted advance_run dequeue
    advance_from visit at_station start_detail begin and_then update_state set_state update
    add_event find_where update_where count_where execute_role run_ceo run_research run_strategist
    run_growth run_writer run_media run_risk complete_then new_artifact complete_with add_artifact
    add_evidence compute remember_artifact last_sequence payload_of size_at value_at get_or get put
    texts platform_texts last_of_kind await_greenlight close_gate lets_greenlight holds decide_run
    check_reviewable check_decision is_blank strip lstrip rstrip record_decision add_compliance
    compliance_record compliance_payload claim_hashes claim_contract give_greenlight new_greenlight
    check_greenlight check_revocation artifact_hash artifact_to_value approve_run package_run
    finish_package complete_run revoke_run check_revoke active_greenlight active revoke_greenlight
    fence_greenlight
revoked_run_ok = refl

gated_run_political : is_political gated_run.brief ≡ true
unfolding advance_times new_run brief_to_value platform_enums claim_values stable_id take_text
    canonical_json to_primitive primitive_items primitive_fields insert_sorted advance_run dequeue
    advance_from visit at_station start_detail begin and_then update_state set_state update
    add_event find_where update_where count_where execute_role run_ceo run_research run_strategist
    run_growth run_writer run_media run_risk complete_then new_artifact complete_with add_artifact
    add_evidence compute remember_artifact last_sequence payload_of size_at value_at get_or get put
    texts platform_texts last_of_kind await_greenlight close_gate lets_greenlight holds
gated_run_political = refl

Reachable-IsNumbered_example : IsNumbered 1 approved_run.trace
Reachable-IsNumbered_example = Reachable-IsNumbered library services approved_run-Reachable

Reachable-IsGoverned_example : IsGoverned library approved_run
Reachable-IsGoverned_example = Reachable-IsGoverned library services approved_run-Reachable

start-Ends_example :
    (o : Outcome) × (run_loop library services (λ _. clock) 16 (new_run library "now" false brief)
      ≡ some o)
    × Ends o
start-Ends_example = start-Ends library services (λ _. clock) "now" brief

check_effect-Authorizes_example :
    (check_effect test_effect approved_run ≡ ok tt) ↔ Authorizes test_effect approved_run
check_effect-Authorizes_example = check_effect-Authorizes test_effect approved_run

approve_political_example :
    (report : Artifact) × (gated_run.status ≡ awaiting_greenlight)
    × (last_of_kind "risk_report" gated_run.artifacts ≡ some report)
    × (holds "passed" report.payload ≡ true)
    × (holds "publication_eligible" report.payload ≡ true)
    × (is_blank "reviewer" ≡ false)
    × (strip gated_run.brief.legal_reviewed_by ≢ strip "reviewer")
unfolding advance_times
approve_political_example =
    approve_political library services clock "reviewer" "" gated_run gated_run_political
      approved_run_ok

revoke_fences_example :
    let after = (revoke_run clock "reviewer" "stop" approved_run).1 in
    (greenlight fenced : Greenlight) × (approved_run.greenlight ≡ some greenlight)
    × (after.greenlight ≡ some fenced)
    × (fenced.fencing_token ≡ suc_ℤ greenlight.fencing_token)
    × (eqb_ℤ fenced.fencing_token greenlight.fencing_token ≡ false)
    × (fenced.revoked_at ≡ some (clock 0))
    × (fenced.revoked_by ≡ strip "reviewer")
    × (fenced.revocation_reason ≡ strip "stop")
    × (fenced.greenlight_id ≡ greenlight.greenlight_id)
    × (fenced.approved_artifact_ids ≡ greenlight.approved_artifact_ids)
    × (fenced.approved_artifact_hashes ≡ greenlight.approved_artifact_hashes)
    × (check_effect test_effect after ≡ err not_active)
revoke_fences_example =
    revoke_fences clock "reviewer" "stop" approved_run test_effect revoked_run_ok

effect_covers_example :
    (approved : List Artifact) × (last_artifact : Artifact) × (approved_run.artifacts
      ≡ approved ++ last_artifact ∷ [])
    × (last_artifact.created_by ≡ publisher)
    × (test_effect.artifact_ids ≡ artifact_ids library approved)
    × (test_effect.artifact_hashes ≡ map (artifact_hash library) approved)
effect_covers_example =
    effect_covers library services approved_run test_effect approved_run-Reachable
      approved_run_passes

abbrev casts : Casts
casts = record { str = λ _. ""; int = λ _. err bad_value }

approved_run-IsWritable : IsWritable approved_run
unfolding advance_times new_run brief_to_value platform_enums claim_values stable_id take_text
    canonical_json to_primitive primitive_items primitive_fields insert_sorted advance_run dequeue
    advance_from visit at_station start_detail begin and_then update_state set_state update
    add_event find_where update_where count_where execute_role run_ceo run_research run_strategist
    run_growth run_writer run_media run_risk complete_then new_artifact complete_with add_artifact
    add_evidence compute remember_artifact last_sequence payload_of size_at value_at get_or get put
    texts platform_texts last_of_kind await_greenlight close_gate lets_greenlight holds decide_run
    check_reviewable check_decision is_blank strip lstrip rstrip record_decision add_compliance
    compliance_record compliance_payload claim_hashes claim_contract give_greenlight new_greenlight
    check_greenlight check_revocation artifact_hash artifact_to_value approve_run package_run
    finish_package complete_run check_brief check_execution
approved_run-IsWritable = record {
  brief_checked = refl;
  greenlight_checked = refl;
  execution_checked = refl;
}

from_document-to_document_example :
    execution_run_from_document casts (execution_run_to_document approved_run)
    ≡ ok (record approved_run {
      agent_states = sort_states approved_run.agent_states;
      artifacts = map primitive_artifact approved_run.artifacts;
      evidence = map primitive_evidence approved_run.evidence;
    })
from_document-to_document_example =
    from_document-to_document casts approved_run approved_run-IsWritable

abbrev times : Times
times = record { instant = λ _. 0; lease_until = λ s. s; error_name = λ _. "KeyError" }

execute_calls-new_run_example :
    ((execute_calls library services times
        (λ _. clock)
        (λ _. "worker-1")
        15
        (new_run library "now" true brief)).status
      ≡ awaiting_greenlight)
    ⊎ ((execute_calls library services times
          (λ _. clock)
          (λ _. "worker-1")
          15
          (new_run library "now" true brief)).status
        ≡ failed)
execute_calls-new_run_example =
    execute_calls-new_run library services times (λ _. clock) (λ _. "worker-1") "now" brief

perform-Leads_example :
    Leads created_run.status (perform library services clock advance created_run).1.status
perform-Leads_example = perform-Leads library services clock advance created_run
