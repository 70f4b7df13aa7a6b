-- ===== src/Agency/Reachable.antt =====
-- backend/agency_runtime/orchestrator.py: the runs that its calls lead to, also those that a call
-- left behind when it raised.
use ai_native_content_agency.Prelude.{
  ℕ, suc, String, Bool, ◌≡◌, refl, ◌+◌, List, [], ◌∷◌, ◌++◌, arith,
}
use ai_native_content_agency.Prelude.Tables.{length}
use ai_native_content_agency.Prelude.Results.{ok}
use ai_native_content_agency.Json.{Platform as Library}
use ai_native_content_agency.Agency.Model.{
  Decision, Brief, TraceEvent, Run, add_artifact, check_brief,
}
use ai_native_content_agency.Agency.Stations.{add_event, set_state}
use ai_native_content_agency.Agency.Services.{Services}
use ai_native_content_agency.Agency.Orchestrator.{new_run, advance_run}
use ai_native_content_agency.Agency.Decisions.{decide_run, revoke_run}
use ai_native_content_agency.Agency.Steps.{IsKept, advance_run-kept}
use ai_native_content_agency.Agency.Choices.{any_role, any_status, decide_run-kept, revoke_run-kept}

module _ (lib : Library) (services : Services) where
  pub data Reachable : Run → Type 0 where
    created :
        (now : String) (asynchronous : Bool) (brief : Brief)
        → check_brief brief ≡ ok tt
        → Reachable (new_run lib now asynchronous brief)
    advanced :
        (now : ℕ → String) (run : Run)
        → Reachable run
        → Reachable (advance_run lib services now run).1
    decided :
        (now : ℕ → String) (decision : Decision) (reviewer note : String) (run : Run)
        → Reachable run
        → Reachable (decide_run lib services now decision reviewer note run).1
    withdrawn :
        (now : ℕ → String) (reviewer reason : String) (run : Run)
        → Reachable run
        → Reachable (revoke_run now reviewer reason run).1

-- The events count up from a number.
abbrev pub IsNumbered : ℕ → List TraceEvent → Type 0
IsNumbered n [] = Unit
IsNumbered n (event ∷ events) = (event.sequence ≡ n) × IsNumbered (suc n) events

append-IsNumbered :
    (n : ℕ) (events : List TraceEvent) (event : TraceEvent)
    → event.sequence ≡ length events + n
    → IsNumbered n events
    → IsNumbered n (events ++ event ∷ [])
append-IsNumbered n [] event next h = (omega (arith, next), tt)
append-IsNumbered n (first ∷ events) event next h =
    (h.0, append-IsNumbered (suc n) events event (omega (arith, next)) h.1)

IsNumbered-IsKept : IsKept any_role any_status (λ run. IsNumbered 1 run.trace)
unfolding set_state add_event add_artifact
IsNumbered-IsKept = record {
  state_set = λ _ _ _ _ _ h. h;
  event_added = λ _ _ _ _ _ _ _ run h. append-IsNumbered 1 run.trace _ refl h;
  artifact_added = λ _ _ _ _ h. h;
  execution_set = λ _ _ h. h;
  status_set = λ _ _ _ h. h;
  completion_set = λ _ _ h. h;
}

-- The trace of every run that is reached counts its events from 1.
pub Reachable-IsNumbered :
    (lib : Library) (services : Services) {run : Run}
    → Reachable lib services run
    → IsNumbered 1 run.trace
unfolding new_run
Reachable-IsNumbered lib services (created now asynchronous brief _) = tt
Reachable-IsNumbered lib services (advanced now run reached) =
    advance_run-kept IsNumbered-IsKept lib services now (λ _ _. refl) refl refl run
      (Reachable-IsNumbered lib services reached)
Reachable-IsNumbered lib services (decided now decision reviewer note run reached) =
    decide_run-kept IsNumbered-IsKept lib services now (λ _ _ h. h) decision reviewer note run
      (Reachable-IsNumbered lib services reached)
Reachable-IsNumbered lib services (withdrawn now reviewer reason run reached) =
    revoke_run-kept IsNumbered-IsKept lib services now (λ _ _ h. h) reviewer reason run
      (Reachable-IsNumbered lib services reached)
