-- ===== src/Agency/Phases.antt =====
-- backend/agency_runtime/orchestrator.py: the status of a run as an abstract graph, and the calls that
-- move a run along it.
use ai_native_content_agency.Prelude.{
  ℕ, String, Bool, true, false, ◌||◌, ◌&&◌, ◌≡◌, refl, ◌∙◌, inl, inr, ◌⊎◌, arith,
}
use ai_native_content_agency.Prelude.Tests.{Bool-cases, Option-cases}
use ai_native_content_agency.Prelude.Text.{strip}
use ai_native_content_agency.Prelude.Results.{Result-cases, ok, err}
use ai_native_content_agency.Json.{Platform as Library}
use ai_native_content_agency.Agency.Model.{
  RunStatus, queued, running, awaiting_greenlight, completed, rejected, revoked, failed, risk,
  Decision, approve, reject, Greenlight, Run, state_for, is_approve, is_political, check_greenlight,
  add_artifact,
}
use ai_native_content_agency.Agency.Stations.{Outcome, and_then, set_state, add_event}
use ai_native_content_agency.Agency.Services.{Services}
use ai_native_content_agency.Agency.Orchestrator.{
  is_going, is_queued, is_running, advance_run, dequeue,
}
use ai_native_content_agency.Agency.Greenlights.{new_greenlight}
use ai_native_content_agency.Agency.Decisions.{
  add_compliance, branch, give_greenlight, record_decision, decide_run, check_reviewable,
  check_revoke, revoke_greenlight, fence_greenlight, revoke_run, is_completed,
}
use ai_native_content_agency.Agency.Steps.{IsKept, advance_run-kept}
use ai_native_content_agency.Agency.Choices.{any_role, reject_run-kept, block-kept}
use ai_native_content_agency.Agency.Packaging.{approve_run-Packaged}
use ai_native_content_agency.Agency.Governance.{check_revoke-active}
use ai_native_content_agency.Agency.Approval.{check_reviewable-found}
use ai_native_content_agency.Agency.Sealing.{no_role, no_status}

-- What a call may make of a status.
pub data Leads : RunStatus → RunStatus → Type 0 where
  stays : {s : RunStatus} → Leads s s
  runs : {s : RunStatus} → is_going s ≡ true → Leads s running
  gates : {s : RunStatus} → is_going s ≡ true → Leads s awaiting_greenlight
  completes : Leads awaiting_greenlight completed
  rejects : Leads awaiting_greenlight rejected
  revokes : Leads completed revoked

-- A call on a run of the orchestrator.
pub data Call : Type 0 where
  advance : Call
  decide : Decision → String → String → Call
  revoke : String → String → Call

module _ (lib : Library) (services : Services) (now : ℕ → String) where
  pub perform : Call → Run → Outcome
  perform advance = advance_run lib services now
  perform (decide decision reviewer note) = decide_run lib services now decision reviewer note
  perform (revoke reviewer reason) = revoke_run now reviewer reason

abbrev runs_or_gates : RunStatus → Bool
runs_or_gates running = true
runs_or_gates awaiting_greenlight = true
runs_or_gates _ = false

going-Leads :
    (s status : RunStatus) → is_going s ≡ true → runs_or_gates status ≡ true → Leads s status
going-Leads s running going h = runs going
going-Leads s awaiting_greenlight going h = gates going
going-Leads s queued going h = cc
going-Leads s completed going h = cc
going-Leads s rejected going h = cc
going-Leads s revoked going h = cc
going-Leads s failed going h = cc

Leads-IsKept :
    (s : RunStatus) → is_going s ≡ true → IsKept any_role runs_or_gates (λ run. Leads s run.status)
unfolding set_state add_event add_artifact
Leads-IsKept s going = record {
  state_set = λ _ _ _ _ _ h. h;
  event_added = λ _ _ _ _ _ _ _ _ h. h;
  artifact_added = λ _ _ _ _ h. h;
  execution_set = λ _ _ h. h;
  status_set = λ status run allowed h. going-Leads s status going allowed;
  completion_set = λ _ _ h. h;
}

or_left : (a b : Bool) → (a || b) ≡ false → a ≡ false
or_left a b h = ground arith

or_right : (a b : Bool) → (a || b) ≡ false → b ≡ false
or_right a b h = ground arith

advance_idle :
    (lib : Library) (services : Services) (now : ℕ → String) (run : Run)
    → is_going run.status ≡ false
    → advance_run lib services now run ≡ (ok tt, run)
unfolding advance_run dequeue
advance_idle lib services now run idle =
    rw (or_left (is_queued run.status) (is_running run.status) idle)
      (rw (or_right (is_queued run.status) (is_running run.status) idle) refl)

advance-Leads :
    (lib : Library) (services : Services) (now : ℕ → String) (run : Run)
    → Leads run.status (advance_run lib services now run).1.status
advance-Leads lib services now run = elim (Bool-cases (is_going run.status)) [
  | inl going ↦
      advance_run-kept (Leads-IsKept run.status going) lib services now (λ _ _. refl) refl refl run
        stays
  | inr idle ↦ rw (advance_idle lib services now run idle) stays
]

abbrev is_rejected : RunStatus → Bool
is_rejected rejected = true
is_rejected _ = false

abbrev Decides : Run → Type 0
Decides run =
    (run.status ≡ awaiting_greenlight) ⊎ (run.status ≡ completed) ⊎ (run.status ≡ rejected)

is_rejected_sound : (status : RunStatus) → is_rejected status ≡ true → status ≡ rejected
is_rejected_sound rejected h = refl
is_rejected_sound queued h = cc
is_rejected_sound running h = cc
is_rejected_sound awaiting_greenlight h = cc
is_rejected_sound completed h = cc
is_rejected_sound revoked h = cc
is_rejected_sound failed h = cc

passed_awaiting :
    (decision : Decision) (reviewer : String) (run : Run)
    → check_reviewable decision reviewer run ≡ ok tt
    → run.status ≡ awaiting_greenlight
passed_awaiting decision reviewer run h = (check_reviewable-found decision reviewer run h).1

Decides-IsKept : IsKept any_role is_rejected Decides
unfolding set_state add_event add_artifact
Decides-IsKept = record {
  state_set = λ _ _ _ _ _ h. h;
  event_added = λ _ _ _ _ _ _ _ _ h. h;
  artifact_added = λ _ _ _ _ h. h;
  execution_set = λ _ _ h. h;
  status_set = λ status run allowed h. inr (inr (is_rejected_sound status allowed));
  completion_set = λ _ _ h. h;
}

module _ (lib : Library) (services : Services) (now : ℕ → String) where
  branch-Decides :
      (decision : Decision) (greenlight : Greenlight) (run : Run)
      → run.status ≡ awaiting_greenlight
      → Decides (branch lib services now decision greenlight run).1
  branch-Decides approve greenlight run h =
      elim (approve_run-Packaged lib services now greenlight run) [
        | inl (_, status, _, _, _) ↦ inl (status ∙ h)
        | inr (_, _, _, status, _) ↦ inr (inl status)
      ]
  branch-Decides reject greenlight run h =
      reject_run-kept Decides-IsKept lib services now run refl (inl h)

  give_greenlight-Decides :
      (decision : Decision) (reviewer note : String) (run : Run)
      → run.status ≡ awaiting_greenlight
      → Decides (give_greenlight lib services now decision reviewer note run).1
  unfolding give_greenlight
  give_greenlight-Decides decision reviewer note run h =
      elim (Result-cases
        (check_greenlight (new_greenlight lib decision reviewer note (now 0) run))) [
          | inl (_, passed) ↦ rw (passed, give_greenlight) (branch-Decides decision _ _ h)
          | inr (e, raised) ↦ rw (raised, give_greenlight) (inl h)
        ]

  add_compliance-status :
      (decision : Decision) (reviewer : String) (run : Run)
      → (add_compliance lib services now decision reviewer run).1.status ≡ run.status
  unfolding add_compliance add_artifact
  add_compliance-status decision reviewer run =
      elim (Bool-cases (is_approve decision && is_political run.brief)) [
        | inr other ↦ rw other refl
        | inl political ↦ elim (Option-cases (state_for risk run)) [
          | inl missing ↦ rw (political, missing) refl
          | inr (state, found) ↦ rw (political, found) refl
        ]
      ]

  and_then-Decides :
      (o : Outcome) (rest : Run → Outcome)
      → o.1.status ≡ awaiting_greenlight
      → ((run : Run) → run.status ≡ awaiting_greenlight → Decides (rest run).1)
      → Decides (and_then o rest).1
  unfolding and_then
  and_then-Decides (ok _, run) rest h next = next run h
  and_then-Decides (err e, run) rest h next = inl h

  Decides-Leads :
      (s : RunStatus) (run : Run) → s ≡ awaiting_greenlight → Decides run → Leads s run.status
  Decides-Leads s run at (inl h) = rw (at, h) stays
  Decides-Leads s run at (inr (inl h)) = rw (at, h) completes
  Decides-Leads s run at (inr (inr h)) = rw (at, h) rejects

  decide-Leads :
      (decision : Decision) (reviewer note : String) (run : Run)
      → Leads run.status (decide_run lib services now decision reviewer note run).1.status
  unfolding decide_run record_decision
  decide-Leads decision reviewer note run =
      elim (Result-cases (check_reviewable decision reviewer run)) [
        | inr (e, raised) ↦ rw (raised, decide_run) stays
        | inl (tt, passed) ↦
            let at = passed_awaiting decision reviewer run passed in
            rw (passed, decide_run)
              (Decides-Leads run.status
                (record_decision lib services now decision reviewer note run).1 at
                (and_then-Decides (add_compliance lib services now decision reviewer run) _
                  (add_compliance-status decision reviewer run ∙ at)
                  (give_greenlight-Decides decision reviewer note)))
      ]

revoked_status-IsKept : IsKept no_role no_status (λ run. run.status ≡ revoked)
unfolding set_state add_event
revoked_status-IsKept = record {
  state_set = λ _ _ _ _ _ h. h;
  event_added = λ _ _ _ _ _ _ _ _ h. h;
  artifact_added = λ _ _ _ impossible _. cc;
  execution_set = λ _ _ h. h;
  status_set = λ _ _ impossible _. cc;
  completion_set = λ _ _ h. h;
}

completed-Leads :
    (s : RunStatus) (run : Run) → is_completed s ≡ true → run.status ≡ revoked → Leads s run.status
completed-Leads completed run h k = rw k revokes
completed-Leads queued run h k = cc
completed-Leads running run h k = cc
completed-Leads awaiting_greenlight run h k = cc
completed-Leads rejected run h k = cc
completed-Leads revoked run h k = cc
completed-Leads failed run h k = cc

revoke_greenlight-Leads :
    (now : ℕ → String) (reviewer reason : String) (greenlight : Greenlight) (run : Run)
    → is_completed run.status ≡ true
    → Leads run.status (revoke_greenlight now reviewer reason greenlight run).1.status
unfolding revoke_greenlight
revoke_greenlight-Leads now reviewer reason greenlight run done =
    elim (Result-cases (check_greenlight (fence_greenlight (now 0) reviewer reason greenlight))) [
      | inr (e, raised) ↦ rw (raised, revoke_greenlight) stays
      | inl (_, passed) ↦
          completed-Leads run.status (revoke_greenlight now reviewer reason greenlight run).1 done
            (rw (passed, revoke_greenlight) (block-kept revoked_status-IsKept now 100 _ _ _ _ refl))
    ]

revoke-Leads :
    (now : ℕ → String) (reviewer reason : String) (run : Run)
    → Leads run.status (revoke_run now reviewer reason run).1.status
unfolding revoke_run
revoke-Leads now reviewer reason run = elim (Result-cases (check_revoke reviewer reason run)) [
  | inr (e, raised) ↦ rw (raised, revoke_run) stays
  | inl (greenlight, passed) ↦
      rw (passed, revoke_run)
        (revoke_greenlight-Leads now (strip reviewer) (strip reason) greenlight run
          (check_revoke-active reviewer reason run greenlight passed).0)
]

-- Every call of `advance`, of a decision or of a revocation on a run leaves its status as it was or
-- moves it along the graph, whether the call raises or not: a queued or running run may run or
-- await its greenlight, one that awaits it may be completed or rejected, and a completed one may be
-- revoked.
pub perform-Leads :
    (lib : Library) (services : Services) (now : ℕ → String) (call : Call) (run : Run)
    → Leads run.status (perform lib services now call run).1.status
unfolding perform
perform-Leads lib services now advance run = advance-Leads lib services now run
perform-Leads lib services now (decide decision reviewer note) run =
    decide-Leads lib services now decision reviewer note run
perform-Leads lib services now (revoke reviewer reason) run = revoke-Leads now reviewer reason run
