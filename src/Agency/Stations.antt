-- ===== src/Agency/Stations.antt =====
-- backend/agency_runtime/orchestrator.py: what every station does to a run. An action returns the
-- run it was given as far as it was changed, after a raise too; `now k` is the (k + 1)-th reading
-- of the clock in the call, which an action takes at its own index.
use ai_native_content_agency.Prelude.{
  ℕ, String, Bool, true, false, not, ◌+◌, ◌&&◌, Option, none, some, List, [], ◌∷◌, ◌++◌, map, ◌==◌,
}
use ai_native_content_agency.Prelude.Tests.{eqb, if◌then◌else◌}
use ai_native_content_agency.Prelude.Tables.{length, count_where, update_where}
use ai_native_content_agency.Prelude.Results.{ok, err}
use ai_native_content_agency.Json.{
  Value, Fields, boolean, text, enum, dict, nil, cons, get, stable_id,
}
use ai_native_content_agency.Json.{Platform as Library}
use ai_native_content_agency.Agency.Model.{
  Role, publisher, AgentStatus, processing, ready, waiting_greenlight, attention, RunStatus,
  awaiting_greenlight, Evidence, Artifact, Run, station_missing, artifact_missing, Check,
  is_political, update, is_role, state_for, add_artifact, last_of_kind,
}
use ai_native_content_agency.Agency.Values.{role_value, agent_status_value}

abbrev pub Outcome : Type 0
Outcome = Check × Run

-- The next statement, unless one has raised.
unfoldable pub and_then : Outcome → (Run → Outcome) → Outcome
and_then (ok _, run) rest = rest run
and_then (err e, run) rest = (err e, run)

-- `_event`
unfoldable pub add_event :
    String → Role → String → String → String → List String → List String → Run → Run
add_event timestamp role action status detail artifact_ids evidence_ids run = record run {
  trace =
      run.trace
      ++ record {
        sequence = length run.trace + 1;
        timestamp = timestamp;
        role = role;
        action = action;
        status = status;
        detail = detail;
        artifact_ids = artifact_ids;
        evidence_ids = evidence_ids;
      }
        ∷ [];
}

-- `run.state_for(role).update(status, progress, detail)` where the role has its state.
unfoldable pub set_state : Role → AgentStatus → ℕ → String → Run → Run
unfolding update
set_state role status progress detail run = record run {
  agent_states = update_where (is_role role) (update status progress detail) run.agent_states;
}

-- The same, with the KeyError of `state_for`.
unfoldable pub update_state : Role → AgentStatus → ℕ → String → Run → Outcome
update_state role status progress detail run = elim (state_for role run) [
  | none ↦ (err station_missing, run)
  | some _ ↦ (ok tt, set_state role status progress detail run)
]

-- `_begin`
unfoldable pub begin : String → Role → String → Run → Outcome
unfolding and_then add_event update_state
begin timestamp role detail run = and_then (update_state role processing 10 detail run) (λ run. (
  ok tt,
  add_event timestamp role "agent_started" (agent_status_value processing) detail [] [] run,
))

abbrev has_evidence_id : Evidence → Evidence → Bool
has_evidence_id item existing = existing.evidence_id == item.evidence_id

-- `for item in evidence`: an evidence whose identifier is not in the run yet.
unfoldable pub add_evidence : List Evidence → List Evidence → List Evidence
add_evidence [] existing = existing
add_evidence (item ∷ items) existing = add_evidence items (
    if eqb (count_where (has_evidence_id item) existing) 0 then existing ++ item ∷ [] else existing)

-- The artifact that `_complete_agent` makes.
unfoldable pub new_artifact :
    Library → String → Role → String → String → Fields → List Evidence → Artifact
unfolding stable_id
new_artifact lib run_id role kind title payload evidence = record {
  artifact_id =
      stable_id lib "art"
        (cons (text run_id)
          (cons (enum (role_value role)) (cons (text kind) (cons (dict payload) nil))))
        16;
  kind = kind;
  title = title;
  created_by = role;
  payload = payload;
  evidence_ids = map (λ (item : Evidence). item.evidence_id) evidence;
}

-- `_complete_agent` after the artifact is made. `add_artifact` and the update look the state up,
-- and the first raises before it changes anything but the evidence and the list of artifacts.
unfoldable pub complete_with : String → Artifact → List Evidence → String → Run → Outcome
unfolding and_then add_event add_artifact add_evidence update_state
complete_with timestamp artifact evidence detail run =
    and_then
      (update_state artifact.created_by ready 100 detail
        (add_artifact artifact (record run { evidence = add_evidence evidence run.evidence })))
      (λ run. (
        ok tt,
        add_event timestamp artifact.created_by "artifact_ready" (agent_status_value ready) detail
            (artifact.artifact_id ∷ []) artifact.evidence_ids run,
      ))

abbrev is_true : Option Value → Bool
is_true (some (boolean b)) = b
is_true _ = false

-- `payload.get(key) is True`
unfoldable pub holds : String → Fields → Bool
unfolding get
holds key payload = is_true (get key payload)

-- The report lets a Greenlight be given: passed, and for a political run eligible.
unfoldable pub lets_greenlight : Run → Artifact → Bool
unfolding holds
lets_greenlight run report =
    holds "passed" report.payload
    && not (is_political run.brief && not (holds "publication_eligible" report.payload))

-- `_await_greenlight` after the report is found.
unfoldable pub close_gate : String → Artifact → Run → Run
unfolding add_event set_state lets_greenlight
close_gate timestamp report run =
    let eligible = lets_greenlight run report in
    let status = if eligible then waiting_greenlight else attention in
    let updated =
      set_state publisher status 0
        (if eligible
          then "Risk passed; manual Greenlight is required before packaging."
          else "Critique requires revision; Greenlight and publication are blocked.")
        run in
    add_event timestamp publisher
      (if eligible then "approval_gate" else "critique_revision_required")
      (agent_status_value status)
      (if eligible
        then "No packaging or publication has occurred."
        else "The run is reviewable, but it cannot receive Greenlight.")
      [] []
      (record updated {
        status = awaiting_greenlight;
        execution = record updated.execution {
          state = "awaiting_greenlight";
          next_station = role_value publisher;
        };
      })

abbrev pub is_awaiting : RunStatus → Bool
is_awaiting awaiting_greenlight = true
is_awaiting _ = false

-- `_await_greenlight`
unfoldable pub await_greenlight : String → Run → Outcome
unfolding close_gate last_of_kind
await_greenlight timestamp run =
    if is_awaiting run.status then (ok tt, run) else elim (state_for publisher run) [
      | none ↦ (err station_missing, run)
      | some _ ↦ elim (last_of_kind "risk_report" run.artifacts) [
        | none ↦ (err artifact_missing, run)
        | some report ↦ (ok tt, close_gate timestamp report run)
      ]
    ]
