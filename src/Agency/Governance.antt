-- ===== src/Agency/Governance.antt =====
-- backend/agency_runtime/orchestrator.py: every call leaves a run open or sealed.
use ai_native_content_agency.Prelude.{
  ℕ, String, true, false, ◌&&◌, some, ◌≡◌, refl, sym, ap, ◌∙◌, inl, inr, ◌⊎◌, arith, map,
}
use ai_native_content_agency.Prelude.Tests.{Bool-cases, Option-cases}
use ai_native_content_agency.Prelude.Tables.{count_where}
use ai_native_content_agency.Prelude.Results.{Result-cases, ok, err}
use ai_native_content_agency.Prelude.Text.{strip}
use ai_native_content_agency.Json.{Platform as Library}
use ai_native_content_agency.Agency.Model.{
  risk, not_awaiting, RunStatus, queued, running, awaiting_greenlight, completed, rejected, revoked,
  failed, Decision, approve, reject, Greenlight, Run, state_for, is_approve, is_political, active,
  check_greenlight,
}
use ai_native_content_agency.Agency.Stations.{Outcome, is_awaiting, and_then}
use ai_native_content_agency.Agency.Services.{Services}
use ai_native_content_agency.Agency.Orchestrator.{new_run, advance_run}
use ai_native_content_agency.Agency.Greenlights.{
  artifact_ids, artifact_hash, new_greenlight, compliance_record,
}
use ai_native_content_agency.Agency.Decisions.{
  is_completed, approve_run, add_compliance, branch, give_greenlight, record_decision, decide_run,
  check_reviewable, active_greenlight, check_revoke, fence_greenlight, revoke_greenlight,
  revoke_run,
}
use ai_native_content_agency.Agency.Steps.{advance_run-kept}
use ai_native_content_agency.Agency.Choices.{reject_run-kept, block-kept}
use ai_native_content_agency.Agency.Packaging.{approve_run-Packaged}
use ai_native_content_agency.Agency.Reachable.{Reachable, created, advanced, decided, withdrawn}
use ai_native_content_agency.Agency.Sealing.{
  by_publisher, is_settled, is_unsettled, IsOpen, IsSealed, IsOpen-IsKept, IsSealed-IsKept,
  settled-idle, advance_settled,
}

-- Not packaged yet, or sealed.
abbrev pub IsGoverned : Library → Run → Type 0
IsGoverned lib run = IsOpen run ⊎ IsSealed lib run

add_compliance-IsOpen :
    (lib : Library) (services : Services) (now : ℕ → String) (decision : Decision)
    (reviewer : String) (run : Run)
    → IsOpen run
    → IsOpen (add_compliance lib services now decision reviewer run).1
unfolding add_compliance compliance_record
add_compliance-IsOpen lib services now decision reviewer run h =
    let recorded =
      IsOpen-IsKept.artifact_added (compliance_record lib run (strip reviewer)) run.evidence run
        refl h in
    elim (Bool-cases (is_approve decision && is_political run.brief)) [
      | inr other ↦ rw other h
      | inl political ↦ elim (Option-cases (state_for risk run)) [
        | inl missing ↦ rw (political, missing) recorded
        | inr (state, found) ↦ rw (political, found) recorded
      ]
    ]

pub check_reviewable_closed :
    (decision : Decision) (reviewer : String) (run : Run)
    → is_awaiting run.status ≡ false
    → check_reviewable decision reviewer run ≡ err not_awaiting
unfolding check_reviewable
check_reviewable_closed decision reviewer run h = rw h refl

module _ (lib : Library) (services : Services) (now : ℕ → String) where
  approve_run-IsGoverned :
      (greenlight : Greenlight) (run : Run)
      → IsOpen run
      → run.greenlight ≡ some greenlight
      → greenlight.decision ≡ approve
      → greenlight.approved_artifact_ids ≡ artifact_ids lib run.artifacts
      → greenlight.approved_artifact_hashes ≡ map (artifact_hash lib) run.artifacts
      → IsGoverned lib (approve_run lib services now greenlight run).1
  approve_run-IsGoverned greenlight run h given approves ids hashes =
      elim (approve_run-Packaged lib services now greenlight run) [
        | inl (artifacts, status, _, _, _) ↦ inl (record {
          unpackaged = ap (count_where by_publisher) artifacts ∙ h.unpackaged;
          unsettled = ap is_unsettled status ∙ h.unsettled;
        })
        | inr (artifact, made, artifacts, status, kept) ↦ inr (record {
          approved = run.artifacts;
          last_artifact = artifact;
          greenlight = greenlight;
          settled = ap is_settled status;
          holds_both = artifacts;
          by_others = h.unpackaged;
          packaged = made;
          given = kept ∙ given;
          approves = approves;
          same_ids = ids;
          same_hashes = hashes;
        })
      ]

  branch-IsGoverned :
      (decision : Decision) (reviewer note : String) (run : Run)
      → IsOpen run
      → IsGoverned lib
          (branch lib services now decision
            (new_greenlight lib decision reviewer note (now 0) run)
            (record run {
              greenlight = some (new_greenlight lib decision reviewer note (now 0) run);
            })).1
  unfolding new_greenlight
  branch-IsGoverned approve reviewer note run h =
      approve_run-IsGoverned (new_greenlight lib approve reviewer note (now 0) run)
        (record run { greenlight = some (new_greenlight lib approve reviewer note (now 0) run) })
        (record { unpackaged = h.unpackaged; unsettled = h.unsettled }) refl refl refl refl
  branch-IsGoverned reject reviewer note run h = inl (
      reject_run-kept IsOpen-IsKept lib services now
        (record run { greenlight = some (new_greenlight lib reject reviewer note (now 0) run) })
        refl (record { unpackaged = h.unpackaged; unsettled = h.unsettled }))

  give_greenlight-IsGoverned :
      (decision : Decision) (reviewer note : String) (run : Run)
      → IsOpen run
      → IsGoverned lib (give_greenlight lib services now decision reviewer note run).1
  unfolding give_greenlight
  give_greenlight-IsGoverned decision reviewer note run h =
      elim (Result-cases
        (check_greenlight (new_greenlight lib decision reviewer note (now 0) run))) [
          | inl (_, passed) ↦
              rw (passed, give_greenlight) (branch-IsGoverned decision reviewer note run h)
          | inr (e, raised) ↦ rw (raised, give_greenlight) (inl h)
        ]

  and_then-IsGoverned :
      (o : Outcome) (rest : Run → Outcome)
      → IsOpen o.1
      → ((run : Run) → IsOpen run → IsGoverned lib (rest run).1)
      → IsGoverned lib (and_then o rest).1
  unfolding and_then
  and_then-IsGoverned (ok _, run) rest h next = next run h
  and_then-IsGoverned (err e, run) rest h next = inl h

  record_decision-IsGoverned :
      (decision : Decision) (reviewer note : String) (run : Run)
      → IsOpen run
      → IsGoverned lib (record_decision lib services now decision reviewer note run).1
  unfolding record_decision
  record_decision-IsGoverned decision reviewer note run h =
      and_then-IsGoverned (add_compliance lib services now decision reviewer run) _
        (add_compliance-IsOpen lib services now decision reviewer run h)
        (give_greenlight-IsGoverned decision reviewer note)

  decide_run-IsGoverned :
      (decision : Decision) (reviewer note : String) (run : Run)
      → IsGoverned lib run
      → IsGoverned lib (decide_run lib services now decision reviewer note run).1
  unfolding decide_run
  decide_run-IsGoverned decision reviewer note run (inr h) =
      rw
        (
          check_reviewable_closed decision reviewer run (settled-idle run.status h.settled).2,
          decide_run,
        )
        (inr h)
  decide_run-IsGoverned decision reviewer note run (inl h) =
      elim (Result-cases (check_reviewable decision reviewer run)) [
        | inr (e, raised) ↦ rw (raised, decide_run) (inl h)
        | inl (_, passed) ↦
            rw (passed, decide_run) (record_decision-IsGoverned decision reviewer note run h)
      ]

  advance_run-IsGoverned :
      (run : Run) → IsGoverned lib run → IsGoverned lib (advance_run lib services now run).1
  advance_run-IsGoverned run (inl h) = inl (
      advance_run-kept IsOpen-IsKept lib services now (λ role other. rw other refl) refl refl run h)
  advance_run-IsGoverned run (inr h) = rw (advance_settled lib services now run h.settled) (inr h)

-- A revocation finds a completed run with an active greenlight.
pub check_revoke-active :
    (reviewer reason : String) (run : Run) (greenlight : Greenlight)
    → check_revoke reviewer reason run ≡ ok greenlight
    → (is_completed run.status ≡ true)
      × (run.greenlight ≡ some greenlight)
      × (active greenlight ≡ true)
unfolding check_revoke active_greenlight active
check_revoke-active reviewer reason run greenlight h = ground arith

pub completed_settled :
    (status : RunStatus) → is_completed status ≡ true → is_unsettled status ≡ true → ⊥
completed_settled completed h k = cc
completed_settled revoked h k = cc
completed_settled queued h k = cc
completed_settled running h k = cc
completed_settled awaiting_greenlight h k = cc
completed_settled rejected h k = cc
completed_settled failed h k = cc

revoke_greenlight-IsSealed :
    (lib : Library) (now : ℕ → String) (reviewer reason : String) (greenlight : Greenlight)
    (run : Run)
    → run.greenlight ≡ some greenlight
    → IsSealed lib run
    → IsSealed lib (revoke_greenlight now reviewer reason greenlight run).1
unfolding revoke_greenlight fence_greenlight
revoke_greenlight-IsSealed lib now reviewer reason greenlight run given h =
    let fenced = fence_greenlight (now 0) reviewer reason greenlight in
    let same : h.greenlight ≡ greenlight = cc (h.given, given) in
    elim (Result-cases (check_greenlight fenced)) [
      | inr (e, raised) ↦ rw (raised, revoke_greenlight) h
      | inl (_, passed) ↦
          rw (passed, revoke_greenlight)
            (block-kept (IsSealed-IsKept lib) now 100 _ _ _ _ (record {
              approved = h.approved;
              last_artifact = h.last_artifact;
              greenlight = fenced;
              settled = refl;
              holds_both = h.holds_both;
              by_others = h.by_others;
              packaged = h.packaged;
              given = refl;
              approves = ap (λ (g : Greenlight). g.decision) (sym same) ∙ h.approves;
              same_ids = ap (λ (g : Greenlight). g.approved_artifact_ids) (sym same) ∙ h.same_ids;
              same_hashes =
                  ap (λ (g : Greenlight). g.approved_artifact_hashes) (sym same) ∙ h.same_hashes;
            }))
    ]

revoke_run-IsGoverned :
    (lib : Library) (now : ℕ → String) (reviewer reason : String) (run : Run)
    → IsGoverned lib run
    → IsGoverned lib (revoke_run now reviewer reason run).1
unfolding revoke_run
revoke_run-IsGoverned lib now reviewer reason run h =
    elim (Result-cases (check_revoke reviewer reason run)) [
      | inr (e, raised) ↦ rw (raised, revoke_run) h
      | inl (greenlight, passed) ↦
          let found = check_revoke-active reviewer reason run greenlight passed in
          rw (passed, revoke_run)
            (elim h [
              | inl open_run ↦ absurd (completed_settled run.status found.0 open_run.unsettled)
              | inr sealed ↦ inr (
                  revoke_greenlight-IsSealed lib now (strip reviewer) (strip reason) greenlight run
                    found.1 sealed)
            ])
    ]

-- Every run that is reached either holds no artifact of the publisher and is neither completed nor
-- revoked; or it is completed or revoked, its last artifact is the publisher's, no other is, and
-- its greenlight approves exactly the identifiers and the hashes of the others, in their order.
pub Reachable-IsGoverned :
    (lib : Library) (services : Services) {run : Run}
    → Reachable lib services run
    → IsGoverned lib run
unfolding new_run count_where
Reachable-IsGoverned lib services (created now true brief _) =
    inl (record { unpackaged = refl; unsettled = refl })
Reachable-IsGoverned lib services (created now false brief _) =
    inl (record { unpackaged = refl; unsettled = refl })
Reachable-IsGoverned lib services (advanced now run reached) =
    advance_run-IsGoverned lib services now run (Reachable-IsGoverned lib services reached)
Reachable-IsGoverned lib services (decided now decision reviewer note run reached) =
    decide_run-IsGoverned lib services now decision reviewer note run
      (Reachable-IsGoverned lib services reached)
Reachable-IsGoverned lib services (withdrawn now reviewer reason run reached) =
    revoke_run-IsGoverned lib now reviewer reason run (Reachable-IsGoverned lib services reached)
