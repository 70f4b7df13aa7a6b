-- ===== src/Agency/Approval.antt =====
-- What an approval has seen to, what a revocation stops and what an effect may use
-- (backend/agency_runtime/orchestrator.py and api.py).
use ai_native_content_agency.Prelude.{
  ℕ, String, Bool, true, false, not, ◌&&◌, none, some, ◌≡◌, ◌≢◌, refl, sym, ap, ◌∙◌, List, [], ◌∷◌,
  ◌++◌, inl, inr, arith, map, eq_iff, ◌==◌,
}
use ai_native_content_agency.Prelude.Tests.{Bool-cases, Option-cases}
use ai_native_content_agency.Prelude.Results.{Result-cases, ok, err}
use ai_native_content_agency.Prelude.Int.{suc_ℤ, eqb_ℤ, suc_ℤ_ne}
use ai_native_content_agency.Prelude.Text.{strip}
use ai_native_content_agency.Json.{is_blank}
use ai_native_content_agency.Json.{Platform as Library}
use ai_native_content_agency.Agency.Model.{
  publisher, awaiting_greenlight, revoked, Decision, approve, Check, Artifact, Greenlight, Run,
  Error, is_political, is_approve, last_of_kind, check_greenlight, not_active, not_awaiting,
  artifact_missing,
}
use ai_native_content_agency.Agency.Stations.{Outcome, holds, is_awaiting, set_state, add_event}
use ai_native_content_agency.Agency.Services.{Services}
use ai_native_content_agency.Agency.Greenlights.{artifact_ids, artifact_hash}
use ai_native_content_agency.Agency.Decisions.{
  check_decision, check_reviewable, decide_run, active_greenlight, check_revoke, fence_greenlight,
  revoke_greenlight, revoke_run,
}
use ai_native_content_agency.Agency.Effects.{Effect, check_effect}
use ai_native_content_agency.Agency.Authorization.{check_effect-Authorizes}
use ai_native_content_agency.Agency.Progress.{is_awaiting_sound}
use ai_native_content_agency.Agency.Steps.{IsKept}
use ai_native_content_agency.Agency.Choices.{block-kept}
use ai_native_content_agency.Agency.Reachable.{Reachable}
use ai_native_content_agency.Agency.Sealing.{no_role, no_status}
use ai_native_content_agency.Agency.Governance.{
  Reachable-IsGoverned, check_revoke-active, check_reviewable_closed, completed_settled,
}

not_ok : (e : Error) → ◌≡◌ {A = Check} (err e) (ok tt) → ⊥
not_ok e h = cc

decide_run-raised :
    (lib : Library) (services : Services) (now : ℕ → String) (decision : Decision)
    (reviewer note : String) (run : Run) (e : Error)
    → check_reviewable decision reviewer run ≡ err e
    → (decide_run lib services now decision reviewer note run).0 ≡ err e
unfolding decide_run
decide_run-raised lib services now decision reviewer note run e h = rw (h, decide_run) refl

decide_run-checked :
    (lib : Library) (services : Services) (now : ℕ → String) (decision : Decision)
    (reviewer note : String) (run : Run)
    → (decide_run lib services now decision reviewer note run).0 ≡ ok tt
    → check_reviewable decision reviewer run ≡ ok tt
unfolding decide_run
decide_run-checked lib services now decision reviewer note run h =
    elim (Result-cases (check_reviewable decision reviewer run)) [
      | inl (tt, passed) ↦ passed
      | inr (e, raised) ↦ absurd (
          not_ok e
            (sym (decide_run-raised lib services now decision reviewer note run e raised) ∙ h))
    ]

check_reviewable_missing :
    (decision : Decision) (reviewer : String) (run : Run)
    → is_awaiting run.status ≡ true
    → last_of_kind "risk_report" run.artifacts ≡ none
    → check_reviewable decision reviewer run ≡ err artifact_missing
unfolding check_reviewable
check_reviewable_missing decision reviewer run h k = rw (h, k) refl

check_reviewable_reported :
    (decision : Decision) (reviewer : String) (run : Run) (report : Artifact)
    → is_awaiting run.status ≡ true
    → last_of_kind "risk_report" run.artifacts ≡ some report
    → check_reviewable decision reviewer run ≡ check_decision decision reviewer report run
unfolding check_reviewable
check_reviewable_reported decision reviewer run report h k = rw (h, k) refl

pub check_reviewable-found :
    (decision : Decision) (reviewer : String) (run : Run)
    → check_reviewable decision reviewer run ≡ ok tt
    → (report : Artifact) × (run.status ≡ awaiting_greenlight)
      × (last_of_kind "risk_report" run.artifacts ≡ some report)
      × (check_decision decision reviewer report run ≡ ok tt)
check_reviewable-found decision reviewer run h = elim (Bool-cases (is_awaiting run.status)) [
  | inr other ↦
      absurd (not_ok not_awaiting (sym (check_reviewable_closed decision reviewer run other) ∙ h))
  | inl awaiting ↦ elim (Option-cases (last_of_kind "risk_report" run.artifacts)) [
    | inl missing ↦ absurd (
        not_ok artifact_missing
          (sym (check_reviewable_missing decision reviewer run awaiting missing) ∙ h))
    | inr (report, found) ↦ (
      report,
      is_awaiting_sound run.status awaiting,
      found,
      sym (check_reviewable_reported decision reviewer run report awaiting found) ∙ h,
    )
  ]
]

decision_checks :
    (decision : Decision) (reviewer : String) (report : Artifact) (run : Run)
    → check_decision decision reviewer report run ≡ ok tt
    → (not (holds "passed" report.payload) ≡ false)
      × ((is_political run.brief && not (holds "publication_eligible" report.payload)) ≡ false)
      × (is_blank reviewer ≡ false)
      × ((is_approve decision
            && is_political run.brief
            && strip run.brief.legal_reviewed_by == strip reviewer)
          ≡ false)
unfolding check_decision
decision_checks decision reviewer report run h = ground arith

and_true-false : (a b : Bool) → a ≡ true → (a && b) ≡ false → b ≡ false
and_true-false a b h k = ground arith

not_same : (s t : String) → (s == t) ≡ false → s ≢ t
not_same s t h same = ground (arith, eq_iff s t)

-- An approval of a political run that raises nothing found it awaiting its greenlight with a last
-- risk report that had passed and was eligible for publication, and its reviewer is neither blank
-- nor, but for outer spaces, the legal reviewer of the brief.
pub approve_political :
    (lib : Library) (services : Services) (now : ℕ → String) (reviewer note : String) (run : Run)
    → is_political run.brief ≡ true
    → (decide_run lib services now approve reviewer note run).0 ≡ ok tt
    → (report : Artifact) × (run.status ≡ awaiting_greenlight)
      × (last_of_kind "risk_report" run.artifacts ≡ some report)
      × (holds "passed" report.payload ≡ true)
      × (holds "publication_eligible" report.payload ≡ true)
      × (is_blank reviewer ≡ false)
      × (strip run.brief.legal_reviewed_by ≢ strip reviewer)
approve_political lib services now reviewer note run political h =
    let (report, status, found, checked) =
      check_reviewable-found approve reviewer run
        (decide_run-checked lib services now approve reviewer note run h) in
    let (passed, eligible, named, distinct) = decision_checks approve reviewer report run checked in
    (
      report,
      status,
      found,
      ground arith,
      ground (
        arith,
        and_true-false (is_political run.brief) (not (holds "publication_eligible" report.payload))
            political eligible,
      ),
      named,
      not_same (strip run.brief.legal_reviewed_by) (strip reviewer)
          (and_true-false _ _ political distinct),
    )

revoke_run_raised :
    (now : ℕ → String) (reviewer reason : String) (run : Run) (e : Error)
    → check_revoke reviewer reason run ≡ err e
    → (revoke_run now reviewer reason run).0 ≡ err e
unfolding revoke_run
revoke_run_raised now reviewer reason run e h = rw (h, revoke_run) refl

revoke_run_passed :
    (now : ℕ → String) (reviewer reason : String) (run : Run) (greenlight : Greenlight)
    → check_revoke reviewer reason run ≡ ok greenlight
    → revoke_run now reviewer reason run
      ≡ revoke_greenlight now (strip reviewer) (strip reason) greenlight run
unfolding revoke_run
revoke_run_passed now reviewer reason run greenlight h = rw (h, revoke_run) refl

abbrev IsRevoked : Greenlight → Run → Type 0
IsRevoked greenlight run = (run.status ≡ revoked) × (run.greenlight ≡ some greenlight)

IsRevoked-IsKept : (greenlight : Greenlight) → IsKept no_role no_status (IsRevoked greenlight)
unfolding set_state add_event
IsRevoked-IsKept greenlight = record {
  state_set = λ _ _ _ _ _ h. h;
  event_added = λ _ _ _ _ _ _ _ _ h. h;
  artifact_added = λ _ _ _ impossible _. cc;
  execution_set = λ _ _ h. h;
  status_set = λ _ _ impossible _. cc;
  completion_set = λ _ _ h. h;
}

revoke_greenlight_raised :
    (now : ℕ → String) (reviewer reason : String) (greenlight : Greenlight) (run : Run) (e : Error)
    → check_greenlight (fence_greenlight (now 0) reviewer reason greenlight) ≡ err e
    → (revoke_greenlight now reviewer reason greenlight run).0 ≡ err e
unfolding revoke_greenlight
revoke_greenlight_raised now reviewer reason greenlight run e h = rw (h, revoke_greenlight) refl

revoke_greenlight-IsRevoked :
    (now : ℕ → String) (reviewer reason : String) (greenlight : Greenlight) (run : Run)
    → (revoke_greenlight now reviewer reason greenlight run).0 ≡ ok tt
    → IsRevoked
        (fence_greenlight (now 0) reviewer reason greenlight)
        (revoke_greenlight now reviewer reason greenlight run).1
unfolding revoke_greenlight
revoke_greenlight-IsRevoked now reviewer reason greenlight run h =
    let fenced = fence_greenlight (now 0) reviewer reason greenlight in
    elim (Result-cases (check_greenlight fenced)) [
      | inr (e, raised) ↦ absurd (
          not_ok e (sym (revoke_greenlight_raised now reviewer reason greenlight run e raised) ∙ h))
      | inl (_, passed) ↦
          rw (passed, revoke_greenlight)
            (block-kept (IsRevoked-IsKept fenced) now 100 _ _ _ _ (refl, refl))
    ]

check_effect_revoked :
    (effect : Effect) (run : Run) → run.status ≡ revoked → check_effect effect run ≡ err not_active
unfolding check_effect active_greenlight
check_effect_revoked effect run h = rw h refl

-- After a revocation that raises nothing no external effect is authorized. The greenlight that the
-- run had is still there, with its fencing token one further and thereby another one, the time of
-- revocation, the trimmed reviewer and reason of the call, and the identifier, artifact ids and
-- artifact hashes that it had.
pub revoke_fences :
    (now : ℕ → String) (reviewer reason : String) (run : Run) (effect : Effect)
    → (revoke_run now reviewer reason run).0 ≡ ok tt
    → let after = (revoke_run now reviewer reason run).1 in
      (greenlight fenced : Greenlight) × (run.greenlight ≡ some greenlight)
      × (after.greenlight ≡ some fenced)
      × (fenced.fencing_token ≡ suc_ℤ greenlight.fencing_token)
      × (eqb_ℤ fenced.fencing_token greenlight.fencing_token ≡ false)
      × (fenced.revoked_at ≡ some (now 0))
      × (fenced.revoked_by ≡ strip reviewer)
      × (fenced.revocation_reason ≡ strip reason)
      × (fenced.greenlight_id ≡ greenlight.greenlight_id)
      × (fenced.approved_artifact_ids ≡ greenlight.approved_artifact_ids)
      × (fenced.approved_artifact_hashes ≡ greenlight.approved_artifact_hashes)
      × (check_effect effect after ≡ err not_active)
unfolding fence_greenlight
revoke_fences now reviewer reason run effect h =
    elim (Result-cases (check_revoke reviewer reason run)) [
      | inr (e, raised) ↦
          absurd (not_ok e (sym (revoke_run_raised now reviewer reason run e raised) ∙ h))
      | inl (greenlight, passed) ↦
          let same = revoke_run_passed now reviewer reason run greenlight passed in
          let found = check_revoke-active reviewer reason run greenlight passed in
          let revoked_run =
            revoke_greenlight-IsRevoked now (strip reviewer) (strip reason) greenlight run
              (ap (λ (o : Outcome). o.0) (sym same) ∙ h) in
          (
            greenlight,
            fence_greenlight (now 0) (strip reviewer) (strip reason) greenlight,
            found.1,
            rw same revoked_run.1,
            refl,
            suc_ℤ_ne greenlight.fencing_token,
            refl,
            refl,
            refl,
            refl,
            refl,
            refl,
            rw same (check_effect_revoked effect _ revoked_run.0),
          )
    ]

-- An effect on a run that the orchestrator's calls lead to passes the check only if its artifacts
-- and its hashes are those of all the run's artifacts but the last one, the publisher's.
pub effect_covers :
    (lib : Library) (services : Services) (run : Run) (effect : Effect)
    → Reachable lib services run
    → check_effect effect run ≡ ok tt
    → (approved : List Artifact) × (last_artifact : Artifact) × (run.artifacts
        ≡ approved ++ last_artifact ∷ [])
      × (last_artifact.created_by ≡ publisher)
      × (effect.artifact_ids ≡ artifact_ids lib approved)
      × (effect.artifact_hashes ≡ map (artifact_hash lib) approved)
effect_covers lib services run effect reached passed =
    let (greenlight, status, given, approves, standing, inside) =
      (check_effect-Authorizes effect run).0 passed in
    elim (Reachable-IsGoverned lib services reached) [
      | inl unpackaged ↦ absurd (completed_settled run.status (rw status refl) unpackaged.unsettled)
      | inr sealed ↦
          let same : sealed.greenlight ≡ greenlight = cc (sealed.given, given) in
          (
            sealed.approved,
            sealed.last_artifact,
            sealed.holds_both,
            sealed.packaged,
            sym inside.same_artifacts
                ∙ ap (λ (g : Greenlight). g.approved_artifact_ids) (sym same)
                ∙ sealed.same_ids,
            sym inside.same_hashes
                ∙ ap (λ (g : Greenlight). g.approved_artifact_hashes) (sym same)
                ∙ sealed.same_hashes,
          )
    ]
