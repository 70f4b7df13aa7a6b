-- ===== src/Agency/Progress.antt =====
-- backend/agency_runtime/orchestrator.py: one round of the loop of `start`: it ends the loop or leaves less to do.
use ai_native_content_agency.Prelude.{
  ℕ, suc, String, true, some, ◌≡◌, refl, sym, ap, ◌∙◌, ◌≤◌, List, inl, inr, arith,
}
use ai_native_content_agency.Prelude.Tests.{Bool-cases, Option-cases, if◌then◌else◌}
use ai_native_content_agency.Prelude.Results.{Result-cases, ok, err}
use ai_native_content_agency.Json.{Platform as Library}
use ai_native_content_agency.Agency.Model.{
  Role, risk, publisher, eqb_role, AgentStatus, standby, processing, ready, RunStatus, queued,
  running, awaiting_greenlight, completed, rejected, revoked, failed, AgentState, Evidence,
  Artifact, Run, Error, Check, station_missing, artifact_missing, state_for, add_artifact,
  last_of_kind,
}
use ai_native_content_agency.Agency.Stations.{
  Outcome, and_then, set_state, add_event, begin, complete_with, add_evidence, close_gate,
  await_greenlight, is_awaiting,
}
use ai_native_content_agency.Agency.Services.{Services}
use ai_native_content_agency.Agency.Work.{Worked, idle, done}
use ai_native_content_agency.Agency.Orchestrator.{at_station}
use ai_native_content_agency.Agency.Weights.{
  weight, weight_of, weight_at, set_state-weight, set_state-weight_same, add_artifact-weight,
}
use ai_native_content_agency.Agency.Packaging.{update_state-found, add_artifact-HasState}

abbrev pub Lighter : Run → Run → Type 0
Lighter run after = (role : Role) → weight_at role after ≤ weight_at role run

abbrev pub Raises : Outcome → Type 0
Raises o = (e : Error) × (o.0 ≡ err e)

-- An outcome that ends the loop, or one after which less than this much is left.
pub data Progress (left : Run → ℕ) (run : Run) (o : Outcome) : Type 0 where
  raised : Raises o → Progress left run o
  gated : o.1.status ≡ awaiting_greenlight → Progress left run o
  lighter :
      Lighter run o.1 → suc (left o.1) ≤ left run → o.1.status ≡ run.status → Progress left run o

same_weight :
    (role : Role) (run : Run) (state other : AgentState) (status : AgentStatus)
    → state_for role run ≡ some state
    → state.status ≡ status
    → state_for role run ≡ some other
    → weight other.status ≡ weight status
same_weight role run state other status found has found_other =
    ap weight_of (sym found_other ∙ found) ∙ ap weight has

pub is_awaiting_sound :
    (status : RunStatus) → is_awaiting status ≡ true → status ≡ awaiting_greenlight
is_awaiting_sound awaiting_greenlight h = refl
is_awaiting_sound queued h = cc
is_awaiting_sound running h = cc
is_awaiting_sound completed h = cc
is_awaiting_sound rejected h = cc
is_awaiting_sound revoked h = cc
is_awaiting_sound failed h = cc

set_state-status :
    (role : Role) (status : AgentStatus) (progress : ℕ) (detail : String) (run : Run)
    → (set_state role status progress detail run).status ≡ run.status
unfolding set_state
set_state-status role status progress detail run = refl

pub begin-Progress :
    (timestamp : String) (role : Role) (detail : String) (run : Run) (state : AgentState)
    → state_for role run ≡ some state
    → state.status ≡ standby
    → Progress (weight_at role) run (begin timestamp role detail (at_station role run))
unfolding begin and_then add_event at_station
begin-Progress timestamp role detail run state found has =
    let station = at_station role run in
    let lightens = λ (r : Role).
      set_state-weight role processing 10 detail station r (λ other found_other.
        omega (arith, same_weight role run state other standby found has found_other)) in
    let strictly : suc (weight_at role (set_state role processing 10 detail station))
        ≤ weight_at role run =
      omega (
        arith,
        set_state-weight_same role processing 10 detail station state found,
        ap weight_of found ∙ ap weight has,
      ) in
    rw (update_state-found role processing 10 detail station (state, found))
      (lighter lightens strictly (set_state-status role processing 10 detail station))

pub await_greenlight-Progress :
    (left : Run → ℕ) (run : Run) (timestamp : String) (station : Run)
    → Progress left run (await_greenlight timestamp station)
unfolding await_greenlight close_gate add_event
await_greenlight-Progress left run timestamp station =
    elim (Bool-cases (is_awaiting station.status)) [
      | inl awaiting ↦ rw awaiting (gated (is_awaiting_sound station.status awaiting))
      | inr other ↦ elim (Option-cases (state_for publisher station)) [
        | inl missing ↦ rw (other, missing) (raised (station_missing, refl))
        | inr (state, found) ↦ elim (Option-cases (last_of_kind "risk_report" station.artifacts)) [
          | inl missing ↦ rw (other, found, missing) (raised (artifact_missing, refl))
          | inr (report, reported) ↦ rw (other, found, reported) (gated refl)
        ]
      ]
    ]

add_artifact-status :
    (artifact : Artifact) (run : Run) → (add_artifact artifact run).status ≡ run.status
unfolding add_artifact
add_artifact-status artifact run = refl

-- The run that a station's completed artifact leaves.
complete_with-Progress :
    (timestamp : String) (artifact : Artifact) (evidence : List Evidence) (detail : String)
    (run : Run) (state : AgentState)
    → state_for artifact.created_by run ≡ some state
    → state.status ≡ processing
    → Progress
        (weight_at artifact.created_by)
        run
        (complete_with timestamp artifact evidence detail run)
unfolding complete_with and_then add_event
complete_with-Progress timestamp artifact evidence detail run state found has =
    let role = artifact.created_by in
    let with_evidence : Run = record run { evidence = add_evidence evidence run.evidence } in
    let added = add_artifact artifact with_evidence in
    let present = add_artifact-HasState role artifact with_evidence (state, found) in
    let lightens : (r : Role)
        → weight_at r (set_state role ready 100 detail added) ≤ weight_at r run =
      λ r.
        let step : weight_at r (set_state role ready 100 detail added) ≤ weight_at r added =
          set_state-weight role ready 100 detail added r (λ _ _. omega arith) in
        let kept : weight_at r added ≤ weight_at r run =
          add_artifact-weight artifact with_evidence r in
        omega (arith, step, kept) in
    let strictly : suc (weight_at role (set_state role ready 100 detail added))
        ≤ weight_at role run =
      omega (
        arith,
        set_state-weight_same role ready 100 detail added present.0 present.1,
        ap weight_of found ∙ ap weight has,
      ) in
    rw (update_state-found role ready 100 detail added present) (
      lighter lightens strictly
        (set_state-status role ready 100 detail added ∙ add_artifact-status artifact with_evidence))

pub ok_err : (c : Check) (e : Error) → c ≡ ok tt → c ≡ err e → ⊥
ok_err c e h k = cc

Progress-same :
    (left : Run → ℕ) (run : Run) (o c : Outcome)
    → o.0 ≡ ok tt
    → c.0 ≡ ok tt
    → o.1 ≡ c.1
    → Progress left run c
    → Progress left run o
Progress-same left run o c passed also same (raised (e, h)) = absurd (ok_err c.0 e also h)
Progress-same left run o c passed also same (gated h) = gated (ap (λ (r : Run). r.status) same ∙ h)
Progress-same left run o c passed also same (lighter a b d) = rw same (lighter a b d)

pub Worked-Progress :
    (role : Role) (run : Run) (o : Outcome) (state : AgentState)
    → state_for role run ≡ some state
    → state.status ≡ processing
    → Worked role run o
    → Progress (weight_at role) run o
Worked-Progress role run o state found has (idle e same) =
    raised (e, ap (λ (o : Outcome). o.0) same)
Worked-Progress role run o state found has
      (done timestamp artifact evidence detail made other same implied) =
    elim (Result-cases o.0) [
      | inr (e, h) ↦ raised (e, h)
      | inl (tt, h) ↦
          Progress-same (weight_at role) run o
            (complete_with timestamp artifact evidence detail run) h (implied h) same
            (rw (sym made) (
              complete_with-Progress timestamp artifact evidence detail run state (rw made found)
                has))
    ]

module _ (lib : Library) (services : Services) (now : ℕ → String) where
  pub finish-Progress :
      (role r next : Role) (run : Run) (o : Outcome)
      → Progress (weight_at r) run o
      → Progress (weight_at r) run (
          and_then o (λ run.
            if eqb_role role risk
            then await_greenlight (now 2) (at_station next run)
            else (ok tt, at_station next run)))
  unfolding and_then at_station
  finish-Progress role r next run (err e, after) p = raised (e, refl)
  finish-Progress role r next run (ok tt, after) p = elim (Bool-cases (eqb_role role risk)) [
    | inl last ↦
        rw last (await_greenlight-Progress (weight_at r) run (now 2) (at_station next after))
    | inr other ↦ rw other (elim p [
      | raised (e, h) ↦ raised (e, h)
      | gated h ↦ gated h
      | lighter a b c ↦ lighter a b c
    ])
  ]
