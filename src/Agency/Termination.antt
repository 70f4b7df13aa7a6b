-- ===== src/Agency/Termination.antt =====
-- backend/agency_runtime/orchestrator.py: the loop of `start` and the fuel that it needs.
use ai_native_content_agency.Prelude.{
  ℕ, zero, suc, String, Bool, true, false, ◌||◌, Option, some, ◌≡◌, refl, ap, ap₂, ◌∙◌, ◌+◌, ◌<◌,
  List, [], ◌∷◌, inl, inr, ◌⊎◌, arith,
}
use ai_native_content_agency.Prelude.Tests.{Bool-cases, Option-cases}
use ai_native_content_agency.Prelude.Tables.{find_where}
use ai_native_content_agency.Prelude.Results.{ok, err}
use ai_native_content_agency.Json.{Platform as Library}
use ai_native_content_agency.Agency.Model.{
  Role, executable, AgentStatus, standby, processing, ready, waiting_greenlight, blocked, attention,
  RunStatus, queued, running, awaiting_greenlight, completed, rejected, revoked, failed, AgentState,
  Run, station_missing, invalid_station, state_for, is_role,
}
use ai_native_content_agency.Agency.Stations.{Outcome}
use ai_native_content_agency.Agency.Services.{Services}
use ai_native_content_agency.Agency.Handlers.{execute_role}
use ai_native_content_agency.Agency.Work.{execute_role-Worked}
use ai_native_content_agency.Agency.Orchestrator.{
  at_station, visit, advance_from, dequeue, advance_run, next_role, is_running, is_queued, is_going,
  next_round, run_loop,
}
use ai_native_content_agency.Agency.Model.{Brief}
use ai_native_content_agency.Agency.Orchestrator.{new_run}
use ai_native_content_agency.Agency.Weights.{weight_of, weight_at, work_left, work_left_mono}
use ai_native_content_agency.Agency.Progress.{
  ok_err, Raises, Progress, raised, gated, lighter, begin-Progress, await_greenlight-Progress,
  Worked-Progress, finish-Progress,
}

Progress-cons :
    (role : Role) (later : List Role) (run : Run) (o : Outcome)
    → Progress (weight_at role) run o
    → Progress (work_left (role ∷ later)) run o
Progress-cons role later run o (raised h) = raised h
Progress-cons role later run o (gated h) = gated h
Progress-cons role later run o (lighter a b c) =
    lighter a (omega (arith, b, work_left_mono run o.1 a later)) c

Progress-later :
    (role : Role) (later : List Role) (run : Run) (o : Outcome)
    → Progress (work_left later) run o
    → Progress (work_left (role ∷ later)) run o
Progress-later role later run o (raised h) = raised h
Progress-later role later run o (gated h) = gated h
Progress-later role later run o (lighter a b c) = lighter a (omega (arith, b, a role)) c

Progress-station :
    (role : Role) (run : Run) (o : Outcome)
    → Progress (weight_at role) (at_station role run) o
    → Progress (weight_at role) run o
unfolding at_station
Progress-station role run o (raised h) = raised h
Progress-station role run o (gated h) = gated h
Progress-station role run o (lighter a b c) = lighter a b c

is_running_sound : (status : RunStatus) → is_running status ≡ true → status ≡ running
is_running_sound running h = refl
is_running_sound queued h = cc
is_running_sound awaiting_greenlight h = cc
is_running_sound completed h = cc
is_running_sound rejected h = cc
is_running_sound revoked h = cc
is_running_sound failed h = cc

not_queued : (a b : Bool) → (a || b) ≡ true → a ≡ false → b ≡ true
not_queued a b h k = ground arith

pub dequeue-running : (run : Run) → is_going run.status ≡ true → (dequeue run).status ≡ running
unfolding dequeue
dequeue-running run going = elim (Bool-cases (is_queued run.status)) [
  | inl waiting ↦ rw waiting refl
  | inr other ↦ rw other (
      is_running_sound run.status
        (not_queued (is_queued run.status) (is_running run.status) going other))
]

pub dequeue-states : (run : Run) → (dequeue run).agent_states ≡ run.agent_states
unfolding dequeue
dequeue-states run = elim (Bool-cases (is_queued run.status)) [
  | inl waiting ↦ rw waiting refl
  | inr other ↦ rw other refl
]

-- The work that is left shows in the states alone.
pub work_left_states :
    (run other : Run)
    → other.agent_states ≡ run.agent_states
    → (roles : List Role) → work_left roles other ≡ work_left roles run
work_left_states run other same [] = refl
work_left_states run other same (role ∷ roles) =
    ap₂ (λ (a b : ℕ). a + b)
      (ap (λ (states : List AgentState). weight_of (find_where (is_role role) states)) same)
      (work_left_states run other same roles)

module _ (lib : Library) (services : Services) (now : ℕ → String) where
  visit-Progress :
      (status : AgentStatus) (role : Role) (later : List Role) (run : Run) (rest : Outcome)
      (state : AgentState)
      → state_for role run ≡ some state
      → state.status ≡ status
      → Progress (work_left later) run rest
      → Progress (work_left (role ∷ later)) run (visit lib services now status role later run rest)
  unfolding visit at_station
  visit-Progress ready role later run rest state found has p = Progress-later role later run rest p
  visit-Progress standby role later run rest state found has p =
      Progress-cons role later run _ (begin-Progress (now 0) role _ run state found has)
  visit-Progress processing role later run rest state found has p = Progress-cons role later run _ (
      finish-Progress lib services now role role (next_role later) run
        (execute_role lib services now role (at_station role run))
        (Progress-station role run _ (
          Worked-Progress role (at_station role run) _ state found has
            (execute_role-Worked lib services now role (at_station role run)))))
  visit-Progress waiting_greenlight role later run rest state found has p =
      raised (invalid_station, refl)
  visit-Progress blocked role later run rest state found has p = raised (invalid_station, refl)
  visit-Progress attention role later run rest state found has p = raised (invalid_station, refl)

  advance_from-Progress :
      (roles : List Role) (run : Run)
      → Progress (work_left roles) run (advance_from lib services now roles run)
  unfolding advance_from
  advance_from-Progress [] run = await_greenlight-Progress (work_left []) run (now 0) run
  advance_from-Progress (role ∷ later) run = elim (Option-cases (state_for role run)) [
    | inl missing ↦ rw (missing, advance_from) (raised (station_missing, refl))
    | inr (state, found) ↦
        rw (found, advance_from)
          (visit-Progress state.status role later run _ state found refl
            (advance_from-Progress later run))
  ]

  -- A call of `advance` on a run that is going.
  pub advance_run-Progress :
      (run : Run)
      → is_going run.status ≡ true
      → Progress (work_left executable) (dequeue run) (advance_run lib services now run)
  unfolding advance_run
  advance_run-Progress run going =
      rw (dequeue-running run going) (advance_from-Progress executable (dequeue run))

-- What a loop that has ended leaves.
abbrev pub Ends : Outcome → Type 0
Ends o = Raises o ⊎ (o.1.status ≡ awaiting_greenlight)

next_round-Ends :
    (o : Outcome) (rest : Run → Option Outcome)
    → Raises o ⊎ ((end : Outcome) × (rest o.1 ≡ some end) × Ends end)
    → (end : Outcome) × (next_round o rest ≡ some end) × Ends end
unfolding next_round
next_round-Ends (err e, run) rest h = ((err e, run), refl, inl (e, refl))
next_round-Ends (ok _, run) rest (inl (e, h)) = absurd (ok_err (ok tt) e refl h)
next_round-Ends (ok _, run) rest (inr h) = h

pub running-going : (status : RunStatus) → status ≡ running → is_going status ≡ true
running-going status h = rw h refl

module _ (lib : Library) (services : Services) (now : ℕ → ℕ → String) where
  run_loop_gated :
      (fuel : ℕ) (run : Run)
      → run.status ≡ awaiting_greenlight
      → 0 < fuel
      → run_loop lib services now fuel run ≡ some (ok tt, run)
  unfolding run_loop
  run_loop_gated zero run h enough = absurd (omega (arith, enough))
  run_loop_gated (suc fuel) run h enough = rw h refl

  -- Two rounds more than the work that is left are enough for the loop.
  pub run_loop-Ends :
      (fuel : ℕ) (run : Run)
      → is_going run.status ≡ true
      → work_left executable run + 1 < fuel
      → (o : Outcome) × (run_loop lib services now fuel run ≡ some o) × Ends o
  unfolding run_loop
  run_loop-Ends zero run going enough = absurd (omega (arith, enough))
  run_loop-Ends (suc fuel) run going enough =
      let left = work_left_states run (dequeue run) (dequeue-states run) executable in
      rw going (elim (advance_run-Progress lib services (now fuel) run going) [
        | raised h ↦ next_round-Ends _ (run_loop lib services now fuel) (inl h)
        | gated h ↦
            next_round-Ends _ (run_loop lib services now fuel)
              (inr ((ok tt, _), run_loop_gated fuel _ h (omega (arith, enough)), inr h))
        | lighter a b c ↦ next_round-Ends _ (run_loop lib services now fuel) (
            inr (
              run_loop-Ends fuel (advance_run lib services (now fuel) run).1
                (running-going _ (c ∙ dequeue-running run going)) (omega (arith, b, left, enough))))
      ])

-- A run that is created to run at once is advanced by a loop that ends within sixteen rounds: a
-- call of `advance` has raised, or the run awaits its greenlight.
pub start-Ends :
    (lib : Library) (services : Services) (now : ℕ → ℕ → String) (at : String) (brief : Brief)
    → (o : Outcome) × (run_loop lib services now 16 (new_run lib at false brief) ≡ some o) × Ends o
unfolding new_run find_where
start-Ends lib services now at brief =
    run_loop-Ends lib services now 16 (new_run lib at false brief) refl (omega arith)
