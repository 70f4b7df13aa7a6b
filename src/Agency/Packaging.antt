-- ===== src/Agency/Packaging.antt =====
-- backend/agency_runtime/orchestrator.py: what the approval branch of a decision leaves behind.
use ai_native_content_agency.Prelude.{
  ℕ, String, some, ◌≡◌, refl, ap, ◌∙◌, List, [], ◌∷◌, ◌++◌, inl, inr, ◌⊎◌,
}
use mathlib.Core.Option
use ai_native_content_agency.Prelude.Tests.{Option-cases, if◌then◌else◌}
use ai_native_content_agency.Prelude.Tables.{find_where, update_where, find-update}
use ai_native_content_agency.Prelude.Results.{Result-cases, ok, err}
use ai_native_content_agency.Json.{Platform as Library}
use ai_native_content_agency.Agency.Model.{
  Role, publisher, AgentStatus, ready, processing, completed, AgentState, Evidence, Artifact,
  Greenlight, Run, Error, station_missing, eqb_role, is_role, state_for, update, add_artifact,
}
use ai_native_content_agency.Agency.Stations.{
  Outcome, and_then, set_state, update_state, add_event, complete_with, add_evidence, new_artifact,
}
use ai_native_content_agency.Agency.Services.{
  Services, Response, compute, complete_then, remember_artifact,
}
use ai_native_content_agency.Agency.Decisions.{
  complete_run, finish_package, package_run, approve_run,
}

-- The role has its state.
abbrev pub HasState : Role → Run → Type 0
HasState role run = (state : AgentState) × (state_for role run ≡ some state)

update_where-HasState :
    (role other : Role) (f : AgentState → AgentState) (states : List AgentState)
    → ((state : AgentState) → (f state).role ≡ state.role)
    → (state : AgentState) → find_where (is_role role) states ≡ some state
    → (state : AgentState) × (find_where (is_role role) (update_where (is_role other) f states)
        ≡ some state)
update_where-HasState role other f states keeps state found = (
  if is_role other state then f state else state,
  find-update (is_role role) (is_role other) f states
        (λ s _. ap (λ (r : Role). eqb_role r role) (keeps s))
      ∙ ap (Option.map (λ (s : AgentState). if is_role other s then f s else s)) found,
)

set_state-HasState :
    (role other : Role) (status : AgentStatus) (progress : ℕ) (detail : String) (run : Run)
    → HasState role run
    → HasState role (set_state other status progress detail run)
unfolding set_state update
set_state-HasState role other status progress detail run (state, found) =
    update_where-HasState role other _ run.agent_states (λ _. refl) state found

pub add_artifact-HasState :
    (role : Role) (artifact : Artifact) (run : Run)
    → HasState role run
    → HasState role (add_artifact artifact run)
unfolding add_artifact
add_artifact-HasState role artifact run (state, found) =
    update_where-HasState role artifact.created_by _ run.agent_states (λ _. refl) state found

pub update_state-found :
    (role : Role) (status : AgentStatus) (progress : ℕ) (detail : String) (run : Run)
    → HasState role run
    → update_state role status progress detail run
      ≡ (ok tt, set_state role status progress detail run)
unfolding update_state set_state
update_state-found role status progress detail run (state, found) = rw (found, update_state) refl

-- A raise that leaves the artifacts, the status and the greenlight as they were.
abbrev pub IsSame : Run → Outcome → Type 0
IsSame run o =
    (o.1.artifacts ≡ run.artifacts)
    × (o.1.status ≡ run.status)
    × (o.1.greenlight ≡ run.greenlight)
    × (e : Error) × (o.0 ≡ err e)

-- One more artifact, the publisher's, and the run completed.
abbrev pub IsPackaged : Run → Run → Type 0
IsPackaged run after =
    (artifact : Artifact) × (artifact.created_by ≡ publisher)
    × (after.artifacts ≡ run.artifacts ++ artifact ∷ [])
    × (after.status ≡ completed)
    × (after.greenlight ≡ run.greenlight)

module _ (lib : Library) (services : Services) (now : ℕ → String) where
  complete_package :
      (timestamp : String) (artifact : Artifact) (evidence : List Evidence) (detail : String)
      (greenlight : Greenlight) (response : String × Response) (run : Run)
      → artifact.created_by ≡ publisher
      → HasState publisher run
      → IsPackaged run
          (and_then
            (complete_with timestamp artifact evidence detail run)
            (finish_package lib services now greenlight response artifact)).1
  unfolding complete_with and_then finish_package remember_artifact complete_run add_event set_state
      add_artifact
  complete_package timestamp artifact evidence detail greenlight response run made has =
      let with_evidence = record run { evidence = add_evidence evidence run.evidence } in
      let present : HasState artifact.created_by run = rw made has in
      let updated =
        update_state-found artifact.created_by ready 100 detail
          (add_artifact artifact with_evidence)
          (add_artifact-HasState artifact.created_by artifact with_evidence present) in
      rw updated (artifact, made, refl, refl, refl)

  package_run-Packaged :
      (greenlight : Greenlight) (run : Run)
      → HasState publisher run
      → IsSame run (package_run lib services now greenlight run)
        ⊎ IsPackaged run (package_run lib services now greenlight run).1
  unfolding package_run complete_then new_artifact compute
  package_run-Packaged greenlight run has =
      elim (Result-cases (services.package_campaign run.run_id run.brief.platforms run.artifacts)) [
        | inr (e, raised) ↦ rw raised (inl (refl, refl, refl, e, refl))
        | inl (response, made) ↦ rw made (
            inr (
              complete_package (now 2)
                (new_artifact lib run.run_id publisher "campaign_package"
                  "Sandbox campaign manifest" response.1.result (response.1.evidence ∷ []))
                (response.1.evidence ∷ [])
                "Manifest packaged locally; external publication was not performed." greenlight
                response run refl has))
      ]

  -- An approval leaves the run as it was or packaged, whatever it raises.
  pub approve_run-Packaged :
      (greenlight : Greenlight) (run : Run)
      → IsSame run (approve_run lib services now greenlight run)
        ⊎ IsPackaged run (approve_run lib services now greenlight run).1
  unfolding approve_run update_state and_then set_state add_event
  approve_run-Packaged greenlight run = elim (Option-cases (state_for publisher run)) [
    | inl missing ↦
        rw (missing, approve_run, update_state) (inl (refl, refl, refl, station_missing, refl))
    | inr (state, found) ↦
        rw (found, approve_run, update_state)
          (package_run-Packaged greenlight _
            (set_state-HasState publisher publisher processing 50 _ run (state, found)))
  ]
