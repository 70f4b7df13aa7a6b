-- ===== src/Agency/Values.antt =====
-- The string values of the Enums of backend/agency_runtime/models.py and the JSON-compatible form
-- that backend/agency_runtime/utils.py gives an artifact.
use ai_native_content_agency.Prelude.{String, List, [], ◌∷◌}
use ai_native_content_agency.Json.{
  Value, Items, number, text, enum, list, dict, nil, cons, end, field,
}
use ai_native_content_agency.Agency.Model.{
  Platform, x, facebook, tiktok, instagram, Role, ceo, research, strategist, growth, writer, media,
  risk, publisher, AgentStatus, standby, processing, ready, waiting_greenlight, blocked, attention,
  RunStatus, queued, running, awaiting_greenlight, completed, rejected, revoked, failed, Decision,
  approve, reject, Artifact, Claim, Brief,
}

abbrev pub platform_value : Platform → String
platform_value x = "x"
platform_value facebook = "facebook"
platform_value tiktok = "tiktok"
platform_value instagram = "instagram"

abbrev pub role_value : Role → String
role_value ceo = "ceo"
role_value research = "research"
role_value strategist = "strategist"
role_value growth = "growth"
role_value writer = "writer"
role_value media = "media"
role_value risk = "risk"
role_value publisher = "publisher"

abbrev pub agent_status_value : AgentStatus → String
agent_status_value standby = "standby"
agent_status_value processing = "processing"
agent_status_value ready = "ready"
agent_status_value waiting_greenlight = "waiting_greenlight"
agent_status_value blocked = "blocked"
agent_status_value attention = "attention"

abbrev pub run_status_value : RunStatus → String
run_status_value queued = "queued"
run_status_value running = "running"
run_status_value awaiting_greenlight = "awaiting_greenlight"
run_status_value completed = "completed"
run_status_value rejected = "rejected"
run_status_value revoked = "revoked"
run_status_value failed = "failed"

abbrev pub decision_value : Decision → String
decision_value approve = "approved"
decision_value reject = "rejected"

unfoldable pub texts : List String → Items
texts [] = nil
texts (s ∷ ss) = cons (text s) (texts ss)

-- `[platform.value for platform in platforms]`
unfoldable pub platform_texts : List Platform → Items
platform_texts [] = nil
platform_texts (p ∷ ps) = cons (text (platform_value p)) (platform_texts ps)

-- An `Artifact`, its fields in the order of the class.
unfoldable pub artifact_to_value : Artifact → Value
unfolding texts
artifact_to_value a = dict (
    field "artifact_id" (text a.artifact_id) (
      field "kind" (text a.kind) (
        field "title" (text a.title) (
          field "created_by" (enum (role_value a.created_by)) (
            field "payload" (dict a.payload)
              (field "evidence_ids" (list (texts a.evidence_ids)) end))))))

unfoldable pub platform_enums : List Platform → Items
platform_enums [] = nil
platform_enums (p ∷ ps) = cons (enum (platform_value p)) (platform_enums ps)

abbrev pub claim_to_value : Claim → Value
claim_to_value claim = dict (
    field "statement" (text claim.statement) (
      field "source" (text claim.source) (
        field "locator" (text claim.locator) (
          field "verification_status" (text claim.verification_status)
            (field "reviewed_by" (text claim.reviewed_by) end)))))

unfoldable pub claim_values : List Claim → Items
claim_values [] = nil
claim_values (claim ∷ claims) = cons (claim_to_value claim) (claim_values claims)

-- A `MissionBrief`, its fields in the order of the class.
unfoldable pub brief_to_value : Brief → Value
unfolding platform_enums claim_values
brief_to_value brief = dict (
    field "title" (text brief.title) (
      field "objective" (text brief.objective) (
        field "audience" (text brief.audience) (
          field "platforms" (list (platform_enums brief.platforms)) (
            field "budget_cents" (number brief.budget_cents) (
              field "source_asset" (text brief.source_asset) (
                field "campaign_goal" (text brief.campaign_goal) (
                  field "campaign_type" (text brief.campaign_type) (
                    field "publication_mode" (text brief.publication_mode) (
                      field "locale" (text brief.locale) (
                        field "jurisdiction" (text brief.jurisdiction) (
                          field "office" (text brief.office) (
                            field "candidate_name" (text brief.candidate_name) (
                              field "locality" (text brief.locality) (
                                field "problem" (text brief.problem) (
                                  field "proposal" (text brief.proposal) (
                                    field "desired_action" (text brief.desired_action) (
                                      field "disclosure" (text brief.disclosure) (
                                        field "legal_review_status" (text brief.legal_review_status)
                                          (field "legal_reviewed_by" (text brief.legal_reviewed_by)
                                            (field "evidence_claims"
                                              (list (claim_values brief.evidence_claims))
                                              end)))))))))))))))))))))
