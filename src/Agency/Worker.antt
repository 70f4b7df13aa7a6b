-- ===== src/Agency/Worker.antt =====
-- backend/agency_runtime/api.py: `execute_one_queued_run` on one run that it reads under the run's
-- lock, up to the run that it saves. `instant` reads an ISO time, `lease_until` adds the lease to
-- one and `error_name` is the name of an exception's class; they are parameters.
use ai_native_content_agency.Prelude.{
  ℕ, ◌+◌, zero, suc, String, Bool, false, not, ◌&&◌, Option, none, some, ◌==◌,
}
use ai_native_content_agency.Prelude.Tests.{ltb, if◌then◌else◌}
use ai_native_content_agency.Prelude.Int.{suc_ℤ}
use ai_native_content_agency.Prelude.Text.{is_empty}
use ai_native_content_agency.Prelude.Results.{ok, err}
use ai_native_content_agency.Json.{Platform as Library}
use ai_native_content_agency.Agency.Model.{failed, Execution, Run, Error}
use ai_native_content_agency.Agency.Stations.{Outcome}
use ai_native_content_agency.Agency.Services.{Services}
use ai_native_content_agency.Agency.Orchestrator.{is_going, advance_run}

pub record Times : Type 0 where
  pub instant : String → ℕ
  pub lease_until : String → String
  pub error_name : Error → String

module _ (times : Times) where
  abbrev is_later : String → Option String → Bool
  is_later now none = false
  is_later now (some expires) = ltb (times.instant now) (times.instant expires)

  -- Another worker holds the run.
  unfoldable pub is_held : String → String → Execution → Bool
  is_held worker_id now e =
      not (is_empty e.lease_owner)
      && not (e.lease_owner == worker_id)
      && is_later now e.lease_expires_at

  -- The lease that is saved first.
  unfoldable pub lease : String → String → Run → Run
  lease worker_id now run = record run {
    execution = record run.execution {
      lease_owner = worker_id;
      lease_expires_at = some (times.lease_until now);
      fencing_token = suc_ℤ run.execution.fencing_token;
      attempts = suc_ℤ run.execution.attempts;
      state = "leased";
    };
  }

  -- The run that is saved after the call of `advance`.
  unfoldable pub checkpoint : String → Outcome → Run
  checkpoint now (ok _, run) = record run {
    execution = record run.execution {
      lease_owner = "";
      lease_expires_at = none;
      checkpointed_at = some now;
      state = if is_going run.status then "running" else run.execution.state;
    };
  }
  checkpoint now (err e, run) = record run {
    status = failed;
    execution = record run.execution {
      state = "failed";
      failure_detail = times.error_name e;
      lease_owner = "";
      lease_expires_at = none;
      checkpointed_at = some now;
    };
  }

module _ (lib : Library) (services : Services) (times : Times) where
  -- One round of the loop, `none` where it goes on to the next run. The clock is read before the
  -- lease, by `advance` and at the checkpoint.
  unfoldable pub execute_run : (ℕ → String) → String → Run → Option Run
  unfolding is_held lease checkpoint advance_run
  execute_run now worker_id run =
      if is_going run.status && not (is_held times worker_id (now 0) run.execution)
      then some (
          checkpoint times (now 1)
            (advance_run lib services (λ k. now (2 + k)) (lease times worker_id (now 0) run)))
      else none

  abbrev pub or_same : Run → Option Run → Run
  or_same run none = run
  or_same run (some after) = after

  -- The run after so many calls of any workers, the `n`-th with the clock `now n`.
  unfoldable pub execute_calls : (ℕ → ℕ → String) → (ℕ → String) → ℕ → Run → Run
  unfolding execute_run
  execute_calls now workers zero run = run
  execute_calls now workers (suc n) run =
      execute_calls now workers n (or_same run (execute_run (now n) (workers n) run))
