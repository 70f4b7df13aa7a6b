-- ===== src/Agency/Writing.antt =====
-- backend/agency_runtime/utils.py on a run of backend/agency_runtime/models.py: the value that
-- `to_primitive` is given, the fields of each class in order.
use ai_native_content_agency.Prelude.{String, Option, none, some, List, [], ◌∷◌}
use ai_native_content_agency.Prelude.Int.{pos}
use ai_native_content_agency.Json.{
  primitive_fields, Value, Items, Fields, null, boolean, number, text, enum, list, dict, nil, cons,
  end, field,
}
use ai_native_content_agency.Agency.Model.{Evidence, AgentState, TraceEvent, Greenlight, Execution}
use ai_native_content_agency.Agency.Model.{Run}
use ai_native_content_agency.Agency.Values.{
  role_value, agent_status_value, run_status_value, decision_value, texts, platform_enums,
  artifact_to_value, brief_to_value,
}

abbrev pub optional_value : Option String → Value
optional_value none = null
optional_value (some s) = text s

abbrev pub state_fields : AgentState → Fields
state_fields state = field "role" (enum (role_value state.role)) (
    field "status" (enum (agent_status_value state.status)) (
      field "progress" (number (pos state.progress)) (
        field "detail" (text state.detail)
          (field "artifact_ids" (list (texts state.artifact_ids)) end))))

-- The dict from roles to states.
unfoldable pub states_fields : List AgentState → Fields
states_fields [] = end
states_fields (state ∷ states) =
    field (role_value state.role) (dict (state_fields state)) (states_fields states)

abbrev pub evidence_to_value : Evidence → Value
evidence_to_value item = dict (
    field "evidence_id" (text item.evidence_id) (
      field "tool" (text item.tool) (
        field "operation" (text item.operation) (
          field "sandbox" (boolean item.sandbox) (
            field "summary" (text item.summary) (
              field "payload" (dict item.payload)
                (field "references" (list (texts item.references)) end)))))))

abbrev pub event_to_value : TraceEvent → Value
event_to_value event = dict (
    field "sequence" (number (pos event.sequence)) (
      field "timestamp" (text event.timestamp) (
        field "role" (enum (role_value event.role)) (
          field "action" (text event.action) (
            field "status" (text event.status) (
              field "detail" (text event.detail) (
                field "artifact_ids" (list (texts event.artifact_ids))
                  (field "evidence_ids" (list (texts event.evidence_ids)) end))))))))

unfoldable pub greenlight_to_value : Greenlight → Value
unfolding texts platform_enums
greenlight_to_value greenlight = dict (
    field "greenlight_id" (text greenlight.greenlight_id) (
      field "run_id" (text greenlight.run_id) (
        field "decision" (enum (decision_value greenlight.decision)) (
          field "reviewer" (text greenlight.reviewer) (
            field "note" (text greenlight.note) (
              field "decided_at" (text greenlight.decided_at) (
                field "approved_artifact_ids" (list (texts greenlight.approved_artifact_ids)) (
                  field "approved_artifact_hashes"
                    (list (texts greenlight.approved_artifact_hashes))
                    (field "authorized_channels"
                      (list (platform_enums greenlight.authorized_channels))
                      (field "authorized_budget_cents" (number greenlight.authorized_budget_cents) (
                        field "fencing_token" (number greenlight.fencing_token) (
                          field "revoked_at" (optional_value greenlight.revoked_at) (
                            field "revoked_by" (text greenlight.revoked_by) (
                              field "revocation_reason" (text greenlight.revocation_reason)
                                end))))))))))))))

unfoldable pub execution_to_value : Execution → Value
execution_to_value execution = dict (
    field "state" (text execution.state) (
      field "next_station" (text execution.next_station) (
        field "lease_owner" (text execution.lease_owner) (
          field "lease_expires_at" (optional_value execution.lease_expires_at) (
            field "fencing_token" (number execution.fencing_token) (
              field "attempts" (number execution.attempts) (
                field "checkpointed_at" (optional_value execution.checkpointed_at)
                  (field "failure_detail" (text execution.failure_detail) end))))))))

unfoldable pub each_value : {A : Type 0} → (A → Value) → List A → Items
each_value write [] = nil
each_value write (a ∷ rest) = cons (write a) (each_value write rest)

abbrev pub optional_greenlight_value : Option Greenlight → Value
optional_greenlight_value none = null
optional_greenlight_value (some greenlight) = greenlight_to_value greenlight

-- `asdict(run)`
unfoldable pub run_fields : Run → Fields
run_fields run = field "run_id" (text run.run_id) (
    field "brief" (brief_to_value run.brief) (
      field "status" (enum (run_status_value run.status)) (
        field "started_at" (text run.started_at) (
          field "agent_states" (dict (states_fields run.agent_states)) (
            field "artifacts" (list (each_value artifact_to_value run.artifacts)) (
              field "evidence" (list (each_value evidence_to_value run.evidence)) (
                field "trace" (list (each_value event_to_value run.trace)) (
                  field "greenlight" (optional_greenlight_value run.greenlight) (
                    field "completed_at" (optional_value run.completed_at)
                      (field "execution" (execution_to_value run.execution) end))))))))))

-- `execution_run_to_document`
unfoldable pub execution_run_to_document : Run → Fields
unfolding primitive_fields run_fields
execution_run_to_document run = primitive_fields (run_fields run)
