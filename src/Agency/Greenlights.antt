-- ===== src/Agency/Greenlights.antt =====
-- backend/agency_runtime/orchestrator.py: the greenlight that a decision makes and the compliance
-- record of an approved political run.
use ai_native_content_agency.Prelude.{String, none, List, [], ◌∷◌, map}
use ai_native_content_agency.Prelude.Int.{pos}
use ai_native_content_agency.Prelude.Text.{strip}
use ai_native_content_agency.Json.{
  Value, Items, Fields, text, enum, list, dict, nil, cons, end, field, canonical_json, stable_id,
}
use ai_native_content_agency.Json.{Platform as Library}
use ai_native_content_agency.Agency.Model.{risk, Decision, Claim, Brief, Artifact, Greenlight, Run}
use ai_native_content_agency.Agency.Values.{decision_value, texts, artifact_to_value}

-- The parts of a claim that the record hashes; `sha256` is `hashlib.sha256(...).hexdigest()`.
unfoldable pub claim_contract : Claim → Value
unfolding strip
claim_contract claim = dict (
    field "statement" (text (strip claim.statement)) (
      field "source" (text (strip claim.source)) (
        field "locator" (text (strip claim.locator)) (
          field "verification_status" (text claim.verification_status)
            (field "reviewed_by" (text (strip claim.reviewed_by)) end)))))

module _ (lib : Library) where
  unfoldable pub claim_hashes : List Claim → Items
  unfolding claim_contract canonical_json strip
  claim_hashes [] = nil
  claim_hashes (claim ∷ claims) =
      cons
        (dict (
          field "claim_sha256" (text (lib.sha256 (canonical_json lib (claim_contract claim)))) (
            field "source_sha256" (text (lib.sha256 (strip claim.source)))
              (field "locator_sha256" (text (lib.sha256 (strip claim.locator))) end))))
        (claim_hashes claims)

  -- The payload of the compliance record.
  unfoldable pub compliance_payload : Brief → String → Fields
  unfolding claim_hashes strip
  compliance_payload brief reviewer = field "jurisdiction" (text (strip brief.jurisdiction)) (
      field "publication_mode" (text brief.publication_mode) (
        field "disclosure_sha256" (text (lib.sha256 (strip brief.disclosure))) (
          field "legal_reviewer" (text (strip brief.legal_reviewed_by)) (
            field "greenlight_approver" (text reviewer) (
              field "claim_source_hashes" (list (claim_hashes brief.evidence_claims))
                (field "retention_state" (text "durable_until_governed_deletion") end))))))

  unfoldable pub compliance_record : Run → String → Artifact
  unfolding compliance_payload stable_id
  compliance_record run reviewer =
      let payload = compliance_payload run.brief reviewer in
      record {
        artifact_id =
            stable_id lib "political-compliance-record"
              (cons (text run.run_id) (cons (dict payload) nil)) 48;
        kind = "political_compliance_record";
        title = "Political compliance approval record";
        created_by = risk;
        payload = payload;
        evidence_ids = [];
      }

  -- `stable_id("sha256", canonical_json(item), length=64)`
  unfoldable pub artifact_hash : Artifact → String
  unfolding artifact_to_value canonical_json stable_id
  artifact_hash artifact =
      stable_id lib "sha256" (cons (text (canonical_json lib (artifact_to_value artifact))) nil) 64

  abbrev pub artifact_ids : List Artifact → List String
  artifact_ids = map (λ (item : Artifact). item.artifact_id)

  -- The `Greenlight` of a decision on the artifacts that the run has.
  unfoldable pub new_greenlight : Decision → String → String → String → Run → Greenlight
  unfolding artifact_hash stable_id texts strip
  new_greenlight decision reviewer note decided_at run =
      let ids = artifact_ids run.artifacts in
      let hashes = map artifact_hash run.artifacts in
      record {
        greenlight_id =
            stable_id lib "greenlight"
              (cons (text run.run_id) (
                cons (enum (decision_value decision)) (
                  cons (text (strip reviewer)) (
                    cons (text (strip note)) (
                      cons (text decided_at)
                        (cons (list (texts ids)) (cons (list (texts hashes)) nil)))))))
              16;
        run_id = run.run_id;
        decision = decision;
        reviewer = strip reviewer;
        note = strip note;
        decided_at = decided_at;
        approved_artifact_ids = ids;
        approved_artifact_hashes = hashes;
        authorized_channels = run.brief.platforms;
        authorized_budget_cents = run.brief.budget_cents;
        fencing_token = pos 1;
        revoked_at = none;
        revoked_by = "";
        revocation_reason = "";
      }
