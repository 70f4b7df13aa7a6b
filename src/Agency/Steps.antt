-- ===== src/Agency/Steps.antt =====
-- backend/agency_runtime/orchestrator.py: what every way through `advance` keeps.
use ai_native_content_agency.Prelude.{
  ℕ, String, Bool, true, false, Option, ◌≡◌, List, [], ◌∷◌, inl, inr,
}
use ai_native_content_agency.Prelude.Tests.{if◌then◌else◌, Bool-cases, Option-cases}
use ai_native_content_agency.Prelude.Results.{ok, err}
use ai_native_content_agency.Json.{Platform as Library}
use ai_native_content_agency.Agency.Model.{
  Role, risk, publisher, executable, AgentStatus, standby, processing, ready, waiting_greenlight,
  blocked, attention, RunStatus, running, awaiting_greenlight, Evidence, Artifact, Execution, Run,
  eqb_role, state_for, add_artifact, last_of_kind,
}
use ai_native_content_agency.Agency.Stations.{
  Outcome, and_then, set_state, update_state, add_event, begin, complete_with, add_evidence,
  close_gate, await_greenlight, is_awaiting,
}
use ai_native_content_agency.Agency.Services.{Services}
use ai_native_content_agency.Agency.Handlers.{execute_role}
use ai_native_content_agency.Agency.Work.{Worked, idle, done, execute_role-Worked}
use ai_native_content_agency.Agency.Orchestrator.{
  at_station, visit, advance_from, dequeue, advance_run, next_role, is_running, is_queued,
}

-- A property of runs that the statements of the orchestrator keep: artifacts by the given roles
-- and changes to the given statuses.
pub record IsKept (roles : Role → Bool) (statuses : RunStatus → Bool) (P : Run → Type 0)
    : Type 0 where
  pub state_set :
      (role : Role) (status : AgentStatus) (progress : ℕ) (detail : String) (run : Run)
      → P run
      → P (set_state role status progress detail run)
  pub event_added :
      (timestamp : String) (role : Role) (action status detail : String)
      (artifact_ids evidence_ids : List String) (run : Run)
      → P run
      → P (add_event timestamp role action status detail artifact_ids evidence_ids run)
  pub artifact_added :
      (artifact : Artifact) (evidence : List Evidence) (run : Run)
      → roles artifact.created_by ≡ true
      → P run
      → P (add_artifact artifact (record run { evidence = evidence }))
  pub execution_set :
      (execution : Execution) (run : Run) → P run → P (record run { execution = execution })
  pub status_set :
      (status : RunStatus) (run : Run)
      → statuses status ≡ true
      → P run
      → P (record run { status = status })
  pub completion_set :
      (completed_at : Option String) (run : Run)
      → P run
      → P (record run { completed_at = completed_at })

module _ {roles : Role → Bool} {statuses : RunStatus → Bool} {P : Run → Type 0}
    (kept : IsKept roles statuses P) where
  pub update_state-kept :
      (role : Role) (status : AgentStatus) (progress : ℕ) (detail : String) (run : Run)
      → P run
      → P (update_state role status progress detail run).1
  unfolding update_state
  update_state-kept role status progress detail run p = elim (Option-cases (state_for role run)) [
    | inl missing ↦ rw (missing, update_state) p
    | inr (state, found) ↦
        rw (found, update_state) (kept.state_set role status progress detail run p)
  ]

  pub and_then-keeps :
      (o : Outcome) (rest : Run → Outcome)
      → ((run : Run) → P run → P (rest run).1)
      → P o.1
      → P (and_then o rest).1
  unfolding and_then
  and_then-keeps (ok _, run) rest h p = h run p
  and_then-keeps (err _, run) rest h p = p

  begin-kept :
      (timestamp : String) (role : Role) (detail : String) (run : Run)
      → P run
      → P (begin timestamp role detail run).1
  unfolding begin
  begin-kept timestamp role detail run p =
      and_then-keeps (update_state role processing 10 detail run) _
        (λ run p. kept.event_added timestamp role _ _ detail [] [] run p)
        (update_state-kept role processing 10 detail run p)

  pub complete_with-kept :
      (timestamp : String) (artifact : Artifact) (evidence : List Evidence) (detail : String)
      (run : Run)
      → roles artifact.created_by ≡ true
      → P run
      → P (complete_with timestamp artifact evidence detail run).1
  unfolding complete_with
  complete_with-kept timestamp artifact evidence detail run other p =
      and_then-keeps (update_state artifact.created_by ready 100 detail _) _
        (λ run p. kept.event_added timestamp artifact.created_by _ _ detail _ _ run p)
        (update_state-kept artifact.created_by ready 100 detail _
          (kept.artifact_added artifact (add_evidence evidence run.evidence) run other p))

  module _ (lib : Library) (services : Services) (now : ℕ → String)
      (workers : (role : Role) → eqb_role role publisher ≡ false → roles role ≡ true)
      (runs : statuses running ≡ true) (waits : statuses awaiting_greenlight ≡ true) where
    close_gate-kept :
        (timestamp : String) (report : Artifact) (run : Run)
        → P run
        → P (close_gate timestamp report run)
    unfolding close_gate
    close_gate-kept timestamp report run p = kept.event_added timestamp publisher _ _ _ [] [] _ (
        kept.execution_set _ _
          (kept.status_set awaiting_greenlight _ waits (kept.state_set publisher _ 0 _ run p)))

    await_greenlight-kept :
        (timestamp : String) (run : Run) → P run → P (await_greenlight timestamp run).1
    unfolding await_greenlight
    await_greenlight-kept timestamp run p = elim (Bool-cases (is_awaiting run.status)) [
      | inl awaiting ↦ rw awaiting p
      | inr other ↦ elim (Option-cases (state_for publisher run)) [
        | inl missing ↦ rw (other, missing) p
        | inr (state, found) ↦ elim (Option-cases (last_of_kind "risk_report" run.artifacts)) [
          | inl missing ↦ rw (other, found, missing) p
          | inr (report, reported) ↦
              rw (other, found, reported) (close_gate-kept timestamp report run p)
        ]
      ]
    ]

    Worked-kept : (role : Role) (run : Run) (o : Outcome) → Worked role run o → P run → P o.1
    Worked-kept role run o (idle e same) p = rw same p
    Worked-kept role run o (done timestamp artifact evidence detail made other same _) p =
        rw same (
          complete_with-kept timestamp artifact evidence detail run (rw made (workers role other))
            p)

    at_station-kept : (role : Role) (run : Run) → P run → P (at_station role run)
    unfolding at_station
    at_station-kept role run p = kept.execution_set _ run p

    finish-kept :
        (role next : Role) (run : Run)
        → P run
        → P
            (if eqb_role role risk
              then await_greenlight (now 2) (at_station next run)
              else (ok tt, at_station next run)).1
    finish-kept role next run p =
        let q = at_station-kept next run p in
        elim (Bool-cases (eqb_role role risk)) [
          | inl last ↦ rw last (await_greenlight-kept (now 2) (at_station next run) q)
          | inr other ↦ rw other q
        ]

    visit-kept :
        (status : AgentStatus) (role : Role) (later : List Role) (run : Run) (rest : Outcome)
        → P run
        → P rest.1
        → P (visit lib services now status role later run rest).1
    unfolding visit
    visit-kept ready role later run rest p q = q
    visit-kept standby role later run rest p q =
        begin-kept (now 0) role _ _ (at_station-kept role run p)
    visit-kept processing role later run rest p q =
        let station = at_station role run in
        and_then-keeps (execute_role lib services now role station) _
          (λ run p. finish-kept role (next_role later) run p)
          (Worked-kept role station _ (execute_role-Worked lib services now role station)
            (at_station-kept role run p))
    visit-kept waiting_greenlight role later run rest p q = at_station-kept role run p
    visit-kept blocked role later run rest p q = at_station-kept role run p
    visit-kept attention role later run rest p q = at_station-kept role run p

    advance_from-kept :
        (roles : List Role) (run : Run) → P run → P (advance_from lib services now roles run).1
    unfolding advance_from
    advance_from-kept [] run p = await_greenlight-kept (now 0) run p
    advance_from-kept (role ∷ later) run p = elim (Option-cases (state_for role run)) [
      | inl missing ↦ rw (missing, advance_from) p
      | inr (state, found) ↦
          rw (found, advance_from)
            (visit-kept state.status role later run _ p (advance_from-kept later run p))
    ]

    dequeue-kept : (run : Run) → P run → P (dequeue run)
    unfolding dequeue
    dequeue-kept run p = elim (Bool-cases (is_queued run.status)) [
      | inl waiting ↦ rw waiting (kept.execution_set _ _ (kept.status_set running run runs p))
      | inr other ↦ rw other p
    ]

    pub advance_run-kept : (run : Run) → P run → P (advance_run lib services now run).1
    unfolding advance_run
    advance_run-kept run p =
        let q = dequeue-kept run p in
        elim (Bool-cases (is_running (dequeue run).status)) [
          | inl going ↦ rw going (advance_from-kept executable (dequeue run) q)
          | inr other ↦ rw other q
        ]
