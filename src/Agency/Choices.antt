-- ===== src/Agency/Choices.antt =====
-- backend/agency_runtime/orchestrator.py: what every way through a decision and a revocation keeps.
use ai_native_content_agency.Prelude.{
  ℕ, String, Bool, true, some, ◌≡◌, refl, List, [], ◌∷◌, inl, inr, ◌+◌, ◌&&◌,
}
use ai_native_content_agency.Prelude.Tests.{Bool-cases, Option-cases}
use ai_native_content_agency.Prelude.Results.{Result, Result-cases, ok, err}
use ai_native_content_agency.Prelude.Text.{strip}
use ai_native_content_agency.Json.{Fields}
use ai_native_content_agency.Json.{Platform as Library}
use ai_native_content_agency.Agency.Model.{
  Role, risk, publisher, RunStatus, completed, rejected, revoked, blocked, processing, Decision,
  approve, reject, Evidence, Artifact, Greenlight, Run, Error, state_for, is_approve, is_political,
  check_greenlight,
}
use ai_native_content_agency.Agency.Values.{agent_status_value}
use ai_native_content_agency.Agency.Stations.{
  Outcome, and_then, update_state, add_event, new_artifact, complete_with,
}
use ai_native_content_agency.Agency.Services.{Services, compute, complete_then, remember_artifact}
use ai_native_content_agency.Agency.Steps.{
  IsKept, update_state-kept, and_then-keeps, complete_with-kept,
}
use ai_native_content_agency.Agency.Greenlights.{compliance_record, new_greenlight}
use ai_native_content_agency.Agency.Decisions.{
  reject_run, complete_run, finish_package, package_run, approve_run, add_compliance, branch,
  give_greenlight, record_decision, decide_run, check_reviewable, check_revoke, fence_greenlight,
  revoke_greenlight, revoke_run,
}

abbrev pub any_role : Role → Bool
any_role _ = true

abbrev pub any_status : RunStatus → Bool
any_status _ = true

module _ {roles : Role → Bool} {statuses : RunStatus → Bool} {P : Run → Type 0}
    (kept : IsKept roles statuses P) where
  -- The last statements of a rejection and of a revocation.
  pub block-kept :
      (now : ℕ → String) (progress : ℕ) (detail action last : String) (run : Run)
      → P run
      → P
          (and_then (update_state publisher blocked progress detail run) (λ run. (
            ok tt,
            add_event (now 1) publisher action (agent_status_value blocked) last [] [] run,
          ))).1
  block-kept now progress detail action last run p =
      and_then-keeps kept (update_state publisher blocked progress detail run) _
        (λ run p. kept.event_added (now 1) publisher _ _ _ [] [] run p)
        (update_state-kept kept publisher blocked progress detail run p)

  pub reject_run-kept :
      (lib : Library) (services : Services) (now : ℕ → String) (run : Run)
      → statuses rejected ≡ true
      → P run
      → P (reject_run lib services now run).1
  unfolding reject_run
  reject_run-kept lib services now run rejects p =
      block-kept now 0 _ _ _ _
        (kept.completion_set _ _ (kept.execution_set _ _ (kept.status_set rejected run rejects p)))

module _ {P : Run → Type 0} (kept : IsKept any_role any_status P) where
  compute-keeps :
      {A : Type 0} (r : Result Error A) (run : Run) (rest : A → Outcome)
      → P run
      → ((a : A) → P (rest a).1)
      → P (compute r run rest).1
  unfolding compute
  compute-keeps (ok a) run rest p h = h a
  compute-keeps (err e) run rest p h = p

  complete_then-kept :
      (lib : Library) (services : Services) (now : ℕ → String) (role : Role) (kind title : String)
      (payload : Fields) (evidence : List Evidence) (detail : String) (run : Run)
      (rest : Artifact → Run → Outcome)
      → P run
      → ((artifact : Artifact) (run : Run) → P run → P (rest artifact run).1)
      → P (complete_then lib services now role kind title payload evidence detail run rest).1
  unfolding complete_then
  complete_then-kept lib services now role kind title payload evidence detail run rest p h =
      let artifact = new_artifact lib run.run_id role kind title payload evidence in
      and_then-keeps kept (complete_with (now 0) artifact evidence detail run) (rest artifact)
        (h artifact) (complete_with-kept kept (now 0) artifact evidence detail run refl p)

  module _ (lib : Library) (services : Services) (now : ℕ → String) where
    complete_run-kept : (at : String) (run : Run) → P run → P (complete_run lib services now at run)
    unfolding complete_run
    complete_run-kept at run p =
        kept.completion_set _ _ (kept.execution_set _ _ (kept.status_set completed run refl p))

    package_run-kept :
        (greenlight : Greenlight) (run : Run)
        → P run
        → P (package_run lib services now greenlight run).1
    unfolding package_run finish_package remember_artifact
    package_run-kept greenlight run p =
        compute-keeps (services.package_campaign run.run_id run.brief.platforms run.artifacts) run _
          p
          (λ response.
            complete_then-kept lib services (λ k. now (2 + k)) publisher "campaign_package"
              "Sandbox campaign manifest" response.1.result (response.1.evidence ∷ [])
              "Manifest packaged locally; external publication was not performed." run
              (finish_package lib services now greenlight response) p
              (λ artifact run p. complete_run-kept (now 3) run p))

    approve_run-kept :
        (greenlight : Greenlight) (run : Run)
        → P run
        → P (approve_run lib services now greenlight run).1
    unfolding approve_run
    approve_run-kept greenlight run p =
        and_then-keeps kept (update_state publisher processing 50 _ run) _
          (λ run p.
            package_run-kept greenlight _ (kept.event_added (now 1) publisher _ _ _ [] [] run p))
          (update_state-kept kept publisher processing 50 _ run p)

    branch-kept :
        (decision : Decision) (greenlight : Greenlight) (run : Run)
        → P run
        → P (branch lib services now decision greenlight run).1
    branch-kept approve greenlight run p = approve_run-kept greenlight run p
    branch-kept reject greenlight run p = reject_run-kept kept lib services now run refl p

    add_compliance-kept :
        (decision : Decision) (reviewer : String) (run : Run)
        → P run
        → P (add_compliance lib services now decision reviewer run).1
    unfolding add_compliance
    add_compliance-kept decision reviewer run p =
        let q =
          kept.artifact_added (compliance_record lib run (strip reviewer)) run.evidence run refl
            p in
        elim (Bool-cases (is_approve decision && is_political run.brief)) [
          | inr other ↦ rw other p
          | inl political ↦ elim (Option-cases (state_for risk run)) [
            | inl missing ↦ rw (political, missing) q
            | inr (state, found) ↦ rw (political, found) q
          ]
        ]

    module _
        (greenlight_set : (greenlight : Greenlight) (run : Run)
          → P run
          → P (record run { greenlight = some greenlight })) where
      give_greenlight-kept :
          (decision : Decision) (reviewer note : String) (run : Run)
          → P run
          → P (give_greenlight lib services now decision reviewer note run).1
      unfolding give_greenlight
      give_greenlight-kept decision reviewer note run p =
          let greenlight = new_greenlight lib decision reviewer note (now 0) run in
          elim (Result-cases (check_greenlight greenlight)) [
            | inl (_, passed) ↦
                rw (passed, give_greenlight)
                  (branch-kept decision greenlight _ (greenlight_set greenlight run p))
            | inr (e, raised) ↦ rw (raised, give_greenlight) p
          ]

      pub decide_run-kept :
          (decision : Decision) (reviewer note : String) (run : Run)
          → P run
          → P (decide_run lib services now decision reviewer note run).1
      unfolding decide_run record_decision
      decide_run-kept decision reviewer note run p =
          elim (Result-cases (check_reviewable decision reviewer run)) [
            | inr (e, raised) ↦ rw (raised, decide_run) p
            | inl (_, passed) ↦
                rw (passed, decide_run)
                  (and_then-keeps kept (add_compliance lib services now decision reviewer run) _
                    (give_greenlight-kept decision reviewer note)
                    (add_compliance-kept decision reviewer run p))
          ]

      revoke_greenlight-kept :
          (reviewer reason : String) (greenlight : Greenlight) (run : Run)
          → P run
          → P (revoke_greenlight now reviewer reason greenlight run).1
      unfolding revoke_greenlight
      revoke_greenlight-kept reviewer reason greenlight run p =
          let fenced = fence_greenlight (now 0) reviewer reason greenlight in
          elim (Result-cases (check_greenlight fenced)) [
            | inr (e, raised) ↦ rw (raised, revoke_greenlight) p
            | inl (_, passed) ↦
                rw (passed, revoke_greenlight)
                  (block-kept kept now 100 _ _ _ _ (
                    kept.execution_set _ _
                      (kept.status_set revoked _ refl (greenlight_set fenced run p))))
          ]

      pub revoke_run-kept :
          (reviewer reason : String) (run : Run) → P run → P (revoke_run now reviewer reason run).1
      unfolding revoke_run
      revoke_run-kept reviewer reason run p =
          elim (Result-cases (check_revoke reviewer reason run)) [
            | inr (e, raised) ↦ rw (raised, revoke_run) p
            | inl (greenlight, passed) ↦
                rw (passed, revoke_run)
                  (revoke_greenlight-kept (strip reviewer) (strip reason) greenlight run p)
          ]
