-- ===== src/Agency/Decisions.antt =====
-- backend/agency_runtime/orchestrator.py: the human decision on a run, the package that an approval
-- makes, and the revocation.
use ai_native_content_agency.Prelude.{
  ℕ, String, ◌+◌, Bool, true, false, not, ◌&&◌, Option, none, some, List, [], ◌∷◌, ◌==◌,
}
use ai_native_content_agency.Prelude.Tests.{if◌then◌else◌}
use ai_native_content_agency.Prelude.Int.{suc_ℤ}
use ai_native_content_agency.Prelude.Text.{is_empty, strip, join_text}
use ai_native_content_agency.Prelude.Results.{Result, ok, err, ◌>>=◌, ◌>>◌, raise_if}
use ai_native_content_agency.Json.{is_blank}
use ai_native_content_agency.Json.{Platform as Library}
use ai_native_content_agency.Agency.Model.{
  risk, publisher, processing, blocked, RunStatus, completed, rejected, revoked, Decision, approve,
  reject, Artifact, Greenlight, Run, Error, artifact_missing, not_awaiting, risk_not_passed,
  critique_not_passed, reviewer_blank, same_reviewer, not_active, reason_blank, Check, is_political,
  is_approve, active, check_greenlight, add_artifact, last_of_kind,
}
use ai_native_content_agency.Agency.Values.{role_value, agent_status_value}
use ai_native_content_agency.Agency.Stations.{
  Outcome, and_then, add_event, update_state, holds, is_awaiting,
}
use ai_native_content_agency.Agency.Services.{
  Services, Response, compute, complete_then, remember_artifact,
}
use ai_native_content_agency.Agency.Greenlights.{compliance_record, new_greenlight}
use ai_native_content_agency.Agency.Orchestrator.{act_on}
use ai_native_content_agency.Agency.Model.{state_for, station_missing}

abbrev pub is_completed : RunStatus → Bool
is_completed completed = true
is_completed _ = false

-- The checks of `_decide` after the report is found.
unfoldable pub check_decision : Decision → String → Artifact → Run → Check
check_decision decision reviewer report run = do
  raise_if (not (holds "passed" report.payload)) risk_not_passed
  raise_if (is_political run.brief && not (holds "publication_eligible" report.payload))
      critique_not_passed
  raise_if (is_blank reviewer) reviewer_blank
  raise_if
      (is_approve decision
        && is_political run.brief
        && strip run.brief.legal_reviewed_by == strip reviewer)
      same_reviewer

-- All the checks of `_decide` before it reads the clock.
unfoldable pub check_reviewable : Decision → String → Run → Check
unfolding check_decision
check_reviewable decision reviewer run =
    if is_awaiting run.status
    then elim (last_of_kind "risk_report" run.artifacts) [
      | none ↦ err artifact_missing
      | some report ↦ check_decision decision reviewer report run
    ]
    else err not_awaiting

module _ (lib : Library) (services : Services) (now : ℕ → String) where
  -- The branch of a rejection.
  unfoldable pub reject_run : Run → Outcome
  unfolding and_then update_state add_event
  reject_run run =
      let run = record run {
        status = rejected;
        execution = record run.execution { state = "completed" };
        completed_at = some (now 0);
      } in
      and_then
        (update_state publisher blocked 0 "Greenlight rejected; sandbox package was not created."
          run)
        (λ run. (
          ok tt,
          add_event (now 1) publisher "greenlight_rejected" (agent_status_value blocked)
              "Reviewer rejected release. No packaging or publication occurred." [] [] run,
        ))

  -- `run.status = COMPLETED` and the statements with it.
  unfoldable pub complete_run : String → Run → Run
  complete_run completed_at run = record run {
    status = completed;
    execution = record run.execution { state = "completed"; next_station = role_value publisher };
    completed_at = some completed_at;
  }

  -- The statements of `_decide` after the package is an artifact.
  unfoldable pub finish_package : Greenlight → String × Response → Artifact → Run → Outcome
  unfolding complete_run remember_artifact
  finish_package greenlight response artifact run =
      remember_artifact lib services now publisher
        (join_text "Greenlight " (
          join_text greenlight.greenlight_id (
            join_text " produced sandbox manifest "
              (join_text response.0 " with publication_performed=false."))))
        100 ("greenlight" ∷ "publisher" ∷ "sandbox" ∷ []) artifact (some response.1.evidence) 4
        (complete_run (now 3) run)

  -- The package of an approved run; `complete_then` reads the clock at its own 0.
  unfoldable pub package_run : Greenlight → Run → Outcome
  package_run greenlight run =
      compute (services.package_campaign run.run_id run.brief.platforms run.artifacts) run
        (λ response.
          complete_then lib services (λ k. now (2 + k)) publisher "campaign_package"
            "Sandbox campaign manifest" response.1.result (response.1.evidence ∷ [])
            "Manifest packaged locally; external publication was not performed." run
            (finish_package greenlight response))

  -- The branch of an approval.
  unfoldable pub approve_run : Greenlight → Run → Outcome
  unfolding and_then update_state add_event package_run
  approve_run greenlight run =
      and_then
        (update_state publisher processing 50
          "Greenlight recorded; creating local sandbox manifest." run)
        (λ run. package_run greenlight (
          add_event (now 1) publisher "greenlight_approved" (agent_status_value processing)
            "Approval recorded locally; publication remains disabled." [] [] run))

  -- The compliance record of an approved political run; `add_artifact` raises where the risk
  -- station has no state.
  unfoldable pub add_compliance : Decision → String → Run → Outcome
  unfolding add_artifact compliance_record strip
  add_compliance decision reviewer run =
      let recorded = add_artifact (compliance_record lib run (strip reviewer)) run in
      if is_approve decision && is_political run.brief
      then elim (state_for risk run) [
        | none ↦ (err station_missing, recorded)
        | some _ ↦ (ok tt, recorded)
      ]
      else (ok tt, run)

  abbrev pub branch : Decision → Greenlight → Run → Outcome
  branch approve greenlight = approve_run greenlight
  branch reject greenlight = reject_run

  -- `_decide` from the making of the greenlight.
  unfoldable pub give_greenlight : Decision → String → String → Run → Outcome
  unfolding new_greenlight check_greenlight approve_run reject_run
  give_greenlight decision reviewer note run =
      let greenlight = new_greenlight lib decision reviewer note (now 0) run in
      elim (check_greenlight greenlight) [
        | err e ↦ (err e, run)
        | ok _ ↦ branch decision greenlight (record run { greenlight = some greenlight })
      ]

  -- `_decide` after its checks.
  unfoldable pub record_decision : Decision → String → String → Run → Outcome
  unfolding and_then add_compliance give_greenlight
  record_decision decision reviewer note run =
      and_then (add_compliance decision reviewer run) (give_greenlight decision reviewer note)

  -- `_decide` on the run that `get_run` finds
  unfoldable pub decide_run : Decision → String → String → Run → Outcome
  unfolding check_reviewable record_decision
  decide_run decision reviewer note run = elim (check_reviewable decision reviewer run) [
    | err e ↦ (err e, run)
    | ok _ ↦ record_decision decision reviewer note run
  ]

  -- `approve`, `reject`: `_decide` on a run of the orchestrator
  unfoldable pub decide :
      Decision → String → String → String → List Run → Result Error Run × List Run
  unfolding act_on decide_run
  decide decision reviewer note = act_on (decide_run decision reviewer note)

-- A completed run with an active greenlight.
unfoldable pub active_greenlight : Run → Option Greenlight
unfolding active
active_greenlight run =
    if is_completed run.status
    then elim run.greenlight [
      | none ↦ none
      | some greenlight ↦ if active greenlight then some greenlight else none
    ]
    else none

-- `replace(greenlight, ...)` of a revocation.
unfoldable pub fence_greenlight : String → String → String → Greenlight → Greenlight
fence_greenlight revoked_at reviewer reason greenlight = record greenlight {
  fencing_token = suc_ℤ greenlight.fencing_token;
  revoked_at = some revoked_at;
  revoked_by = reviewer;
  revocation_reason = reason;
}

-- `revoke` after its checks. The new greenlight is checked again, and `state_for` raises after the
-- run is revoked.
unfoldable pub revoke_greenlight : (ℕ → String) → String → String → Greenlight → Run → Outcome
unfolding fence_greenlight check_greenlight and_then update_state add_event
revoke_greenlight now reviewer reason greenlight run =
    let fenced = fence_greenlight (now 0) reviewer reason greenlight in
    elim (check_greenlight fenced) [
      | err e ↦ (err e, run)
      | ok _ ↦
          and_then
            (update_state publisher blocked 100
              "Greenlight revoked; all prior effect tokens are fenced."
              (record run {
                greenlight = some fenced;
                status = revoked;
                execution = record run.execution { state = "completed" };
              }))
            (λ run. (
              ok tt,
              add_event (now 1) publisher "greenlight_revoked" (agent_status_value blocked)
                  "Approval revoked locally; publication remains disabled." [] [] run,
            ))
    ]

unfoldable pub check_revoke : String → String → Run → Result Error Greenlight
unfolding active_greenlight strip
check_revoke reviewer reason run = do
  greenlight ← elim (active_greenlight run) [
    | none ↦ err not_active
    | some greenlight ↦ ok greenlight
  ]
  raise_if (is_empty (strip reviewer)) reviewer_blank
  raise_if (is_empty (strip reason)) reason_blank
  ok greenlight

-- `revoke` on the run that `get_run` finds
unfoldable pub revoke_run : (ℕ → String) → String → String → Run → Outcome
unfolding check_revoke revoke_greenlight strip
revoke_run now reviewer reason run = elim (check_revoke reviewer reason run) [
  | err e ↦ (err e, run)
  | ok greenlight ↦ revoke_greenlight now (strip reviewer) (strip reason) greenlight run
]

-- `revoke`
unfoldable pub revoke :
    (ℕ → String) → String → String → String → List Run → Result Error Run × List Run
unfolding act_on revoke_run
revoke now reviewer reason = act_on (revoke_run now reviewer reason)
