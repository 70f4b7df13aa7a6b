-- ===== src/Agency/Orchestrator.antt =====
-- backend/agency_runtime/orchestrator.py: creating a run and advancing it station by station. The
-- orchestrator's `_runs` is the list of its runs, each of which the caller holds too, so that what
-- an action did to a run before a raise stays in it.
use ai_native_content_agency.Prelude.{
  ℕ, zero, suc, String, Bool, true, false, ◌||◌, Option, none, some, List, [], ◌∷◌, ◌++◌, map, ◌==◌,
}
use ai_native_content_agency.Prelude.Tests.{if◌then◌else◌}
use ai_native_content_agency.Prelude.Int.{pos}
use ai_native_content_agency.Prelude.Tables.{find_where, update_where}
use ai_native_content_agency.Prelude.Results.{Result, ok, err}
use ai_native_content_agency.Json.{cons, nil, stable_id}
use ai_native_content_agency.Json.{Platform as Library}
use ai_native_content_agency.Agency.Model.{
  Role, ceo, research, strategist, growth, writer, media, risk, publisher, executable,
  agent_sequence, eqb_role, AgentStatus, standby, processing, ready, RunStatus, queued, running,
  Brief, AgentState, Run, Error, run_exists, run_not_found, station_missing, invalid_station,
  state_for,
}
use ai_native_content_agency.Agency.Values.{role_value, brief_to_value}
use ai_native_content_agency.Agency.Stations.{Outcome, and_then, begin, await_greenlight}
use ai_native_content_agency.Agency.Services.{Services}
use ai_native_content_agency.Agency.Handlers.{execute_role}

-- `_start_detail`; the publisher is no station of the loop.
unfoldable pub start_detail : Role → String
start_detail ceo = "Interpreting mission constraints"
start_detail research = "Collecting synthetic market evidence"
start_detail strategist = "Designing channel strategy"
start_detail growth = "Forecasting sandbox acquisition envelope"
start_detail writer = "Writing platform variants"
start_detail media = "Planning video and motion assets"
start_detail risk = "Auditing release constraints"
start_detail publisher = ""

-- `run.execution.next_station = role.value`
unfoldable pub at_station : Role → Run → Run
at_station role run = record run {
  execution = record run.execution { next_station = role_value role };
}

-- The station after this one.
abbrev pub next_role : List Role → Role
next_role [] = publisher
next_role (role ∷ _) = role

abbrev pub is_queued : RunStatus → Bool
is_queued queued = true
is_queued _ = false

abbrev pub is_running : RunStatus → Bool
is_running running = true
is_running _ = false

-- The first statement of `advance`.
unfoldable pub dequeue : Run → Run
dequeue run =
    if is_queued run.status
    then record run { status = running; execution = record run.execution { state = "running" } }
    else run

module _ (lib : Library) (services : Services) (now : ℕ → String) where
  -- One round of the loop at a station of this status; `rest` is what the later stations do.
  unfoldable pub visit : AgentStatus → Role → List Role → Run → Outcome → Outcome
  unfolding and_then at_station begin start_detail execute_role await_greenlight
  visit ready role later run rest = rest
  visit standby role later run rest = begin (now 0) role (start_detail role) (at_station role run)
  visit processing role later run rest =
      and_then (execute_role lib services now role (at_station role run)) (λ run.
        let run = at_station (next_role later) run in
        if eqb_role role risk then await_greenlight (now 2) run else (ok tt, run))
  visit _ role later run rest = (err invalid_station, at_station role run)

  -- The loop over the stations.
  unfoldable pub advance_from : List Role → Run → Outcome
  unfolding visit await_greenlight
  advance_from [] run = await_greenlight (now 0) run
  advance_from (role ∷ later) run =
      let rest = advance_from later run in
      elim (state_for role run) [
        | none ↦ (err station_missing, run)
        | some state ↦ visit state.status role later run rest
      ]

  -- `advance` on the run itself
  unfoldable pub advance_run : Run → Outcome
  unfolding dequeue advance_from
  advance_run run =
      let run = dequeue run in
      if is_running run.status then advance_from executable run else (ok tt, run)

-- `status in {QUEUED, RUNNING}`
abbrev pub is_going : RunStatus → Bool
is_going status = is_queued status || is_running status

-- The next round of a loop, unless this one has raised.
unfoldable pub next_round : Outcome → (Run → Option Outcome) → Option Outcome
next_round (ok _, run) rest = rest run
next_round (err e, run) rest = some (err e, run)

module _ (lib : Library) (services : Services) (now : ℕ → ℕ → String) where
  -- The loop of `start`; `now n` is the clock of the call that is made with `n` fuel left, and
  -- the result is `none` where the fuel runs out.
  unfoldable pub run_loop : ℕ → Run → Option Outcome
  unfolding next_round advance_run
  run_loop zero run = none
  run_loop (suc fuel) run =
      if is_going run.status
      then next_round (advance_run lib services (now fuel) run) (run_loop fuel)
      else some (ok tt, run)

abbrev pub new_state : Role → AgentState
new_state role = record {
  role = role;
  status = standby;
  progress = 0;
  detail = "Awaiting mission";
  artifact_ids = [];
}

-- The run that `create` makes.
unfoldable pub new_run : Library → String → Bool → Brief → Run
unfolding stable_id brief_to_value
new_run lib now asynchronous brief = record {
  run_id = stable_id lib "run" (cons (brief_to_value brief) nil) 16;
  brief = brief;
  status = if asynchronous then queued else running;
  started_at = now;
  agent_states = map new_state agent_sequence;
  artifacts = [];
  evidence = [];
  trace = [];
  greenlight = none;
  completed_at = none;
  execution = record {
    state = if asynchronous then "queued" else "inline";
    next_station = role_value ceo;
    lease_owner = "";
    lease_expires_at = none;
    fencing_token = pos 0;
    attempts = pos 0;
    checkpointed_at = some now;
    failure_detail = "";
  };
}

abbrev pub has_id : String → Run → Bool
has_id run_id run = run.run_id == run_id

-- `get_run`
unfoldable pub get_run : String → List Run → Result Error Run
get_run run_id runs = elim (find_where (has_id run_id) runs) [
  | none ↦ err run_not_found
  | some run ↦ ok run
]

-- `create`
unfoldable pub create : Library → String → Bool → Brief → List Run → Result Error Run × List Run
unfolding new_run
create lib now asynchronous brief runs =
    let run = new_run lib now asynchronous brief in
    elim (find_where (has_id run.run_id) runs) [
      | some _ ↦ (err run_exists, runs)
      | none ↦ (ok run, runs ++ run ∷ [])
    ]

-- `restore_run`
unfoldable pub restore_run : Run → List Run → List Run
restore_run run runs = elim (find_where (has_id run.run_id) runs) [
  | some _ ↦ update_where (has_id run.run_id) (λ _. run) runs
  | none ↦ runs ++ run ∷ []
]

abbrev result_of : Outcome → Result Error Run
result_of (ok _, run) = ok run
result_of (err e, run) = err e

-- An action on the run that `get_run` finds, which changes the run in place.
unfoldable pub act_on : (Run → Outcome) → String → List Run → Result Error Run × List Run
unfolding get_run
act_on action run_id runs = elim (find_where (has_id run_id) runs) [
  | none ↦ (err run_not_found, runs)
  | some run ↦ (result_of (action run), update_where (has_id run_id) (λ _. (action run).1) runs)
]

-- `advance`
unfoldable pub advance :
    Library → Services → (ℕ → String) → String → List Run → Result Error Run × List Run
unfolding act_on advance_run
advance lib services now = act_on (advance_run lib services now)
