-- ===== src/Agency/Liveness.antt =====
-- backend/agency_runtime/api.py: workers bring a run to its gate, or it fails.
use ai_native_content_agency.Prelude.{
  ℕ, zero, suc, String, true, false, ◌≡◌, ◌≤◌, ◌<◌, ◌+◌, refl, sym, ap, ◌∙◌, inl, inr, ◌⊎◌, arith,
}
use ai_native_content_agency.Prelude.Tables.{find_where}
use ai_native_content_agency.Prelude.Results.{ok, err}
use ai_native_content_agency.Json.{Platform as Library}
use ai_native_content_agency.Agency.Model.{
  executable, running, awaiting_greenlight, failed, Brief, Run,
}
use ai_native_content_agency.Agency.Stations.{Outcome}
use ai_native_content_agency.Agency.Services.{Services}
use ai_native_content_agency.Agency.Orchestrator.{is_going, dequeue, advance_run, new_run}
use ai_native_content_agency.Agency.Weights.{work_left}
use ai_native_content_agency.Agency.Progress.{Progress, raised, gated, lighter, ok_err}
use ai_native_content_agency.Agency.Termination.{
  advance_run-Progress, dequeue-running, dequeue-states, work_left_states, running-going,
}
use ai_native_content_agency.Agency.Worker.{
  Times, is_held, lease, checkpoint, execute_run, execute_calls, or_same,
}

-- The run is nobody's, and it has ended its stations or has less left than this.
record Advanced (left : ℕ) (run : Run) : Type 0 where
  released : run.execution.lease_owner ≡ ""
  ended :
      (run.status ≡ awaiting_greenlight)
      ⊎ (run.status ≡ failed)
      ⊎ ((run.status ≡ running) × (suc (work_left executable run) ≤ left))

checkpoint-Advanced :
    (times : Times) (now : String) (run : Run) (o : Outcome)
    → (dequeue run).status ≡ running
    → Progress (work_left executable) (dequeue run) o
    → Advanced (work_left executable (dequeue run)) (checkpoint times now o)
unfolding checkpoint
checkpoint-Advanced times now run (err e, after) going p = record {
  released = refl;
  ended = inr (inl refl);
}
checkpoint-Advanced times now run (ok tt, after) going (raised (e, h)) =
    absurd (ok_err (ok tt) e refl h)
checkpoint-Advanced times now run (ok tt, after) going (gated h) = record {
  released = refl;
  ended = inl h;
}
checkpoint-Advanced times now run (ok tt, after) going (lighter a b c) = record {
  released = refl;
  ended = inr (inr (c ∙ going, b));
}

module _ (lib : Library) (services : Services) (times : Times) where
  execute_run-Advanced :
      (now : ℕ → String) (worker_id : String) (run : Run)
      → run.execution.lease_owner ≡ ""
      → is_going run.status ≡ true
      → Advanced
          (work_left executable run)
          (or_same lib services times run (execute_run lib services times now worker_id run))
  unfolding execute_run is_held lease
  execute_run-Advanced now worker_id run free going =
      let leased = lease times worker_id (now 0) run in
      let step =
        checkpoint-Advanced times (now 1) leased
          (advance_run lib services (λ k. now (2 + k)) leased) (dequeue-running leased going)
          (advance_run-Progress lib services (λ k. now (2 + k)) leased going) in
      let same = work_left_states run (dequeue leased) (dequeue-states leased) executable in
      rw (going, free) (rw (sym same) step)

  execute_calls_idle :
      (now : ℕ → ℕ → String) (workers : ℕ → String) (n : ℕ) (run : Run)
      → is_going run.status ≡ false
      → execute_calls lib services times now workers n run ≡ run
  unfolding execute_calls execute_run
  execute_calls_idle now workers zero run h = refl
  execute_calls_idle now workers (suc n) run h = rw h (execute_calls_idle now workers n run h)

  execute_calls-ended :
      (now : ℕ → ℕ → String) (workers : ℕ → String) (n : ℕ) (run : Run)
      → run.execution.lease_owner ≡ ""
      → is_going run.status ≡ true
      → work_left executable run < n
      → ((execute_calls lib services times now workers n run).status ≡ awaiting_greenlight)
        ⊎ ((execute_calls lib services times now workers n run).status ≡ failed)
  unfolding execute_calls
  execute_calls-ended now workers zero run free going enough = absurd (omega (arith, enough))
  execute_calls-ended now workers (suc n) run free going enough =
      let after =
        or_same lib services times run (execute_run lib services times (now n) (workers n) run) in
      let step = execute_run-Advanced (now n) (workers n) run free going in
      elim (step.ended) [
        | inl gate ↦ inl (
            ap (λ (r : Run). r.status) (execute_calls_idle now workers n after (rw gate refl))
            ∙ gate)
        | inr (inl fail) ↦ inr (
            ap (λ (r : Run). r.status) (execute_calls_idle now workers n after (rw fail refl))
            ∙ fail)
        | inr (inr (still, less)) ↦
            execute_calls-ended now workers n after step.released (running-going after.status still)
              (omega (arith, less, enough))
      ]

-- A run that is created for the workers awaits its greenlight, or has failed, after fifteen calls of
-- any workers on it, one after the other.
pub execute_calls-new_run :
    (lib : Library) (services : Services) (times : Times) (now : ℕ → ℕ → String)
    (workers : ℕ → String) (at : String) (brief : Brief)
    → ((execute_calls lib services times now workers 15 (new_run lib at true brief)).status
        ≡ awaiting_greenlight)
      ⊎ ((execute_calls lib services times now workers 15 (new_run lib at true brief)).status
          ≡ failed)
unfolding new_run find_where
execute_calls-new_run lib services times now workers at brief =
    execute_calls-ended lib services times now workers 15 (new_run lib at true brief) refl refl
      (omega arith)
