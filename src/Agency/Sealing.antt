-- ===== src/Agency/Sealing.antt =====
-- backend/agency_runtime/orchestrator.py: a run is open, or it is sealed with what was approved.
use ai_native_content_agency.Prelude.{
  ℕ, String, Bool, true, false, not, some, ◌≡◌, refl, ◌∙◌, List, [], ◌∷◌, ◌++◌, arith, map,
}
use ai_native_content_agency.Prelude.Tables.{count_where, count-append, count_one}
use ai_native_content_agency.Prelude.Results.{ok}
use ai_native_content_agency.Json.{Platform as Library}
use ai_native_content_agency.Agency.Model.{
  Role, publisher, RunStatus, queued, running, awaiting_greenlight, completed, rejected, revoked,
  failed, approve, Artifact, Greenlight, Run, eqb_role, add_artifact,
}
use ai_native_content_agency.Agency.Stations.{set_state, add_event, is_awaiting}
use ai_native_content_agency.Agency.Services.{Services}
use ai_native_content_agency.Agency.Orchestrator.{dequeue, advance_run, is_queued, is_running}
use ai_native_content_agency.Agency.Greenlights.{artifact_ids, artifact_hash}
use ai_native_content_agency.Agency.Steps.{IsKept}

abbrev pub by_publisher : Artifact → Bool
by_publisher artifact = eqb_role artifact.created_by publisher

abbrev pub not_publisher : Role → Bool
not_publisher role = not (eqb_role role publisher)

abbrev pub is_settled : RunStatus → Bool
is_settled completed = true
is_settled revoked = true
is_settled _ = false

abbrev pub is_unsettled : RunStatus → Bool
is_unsettled status = not (is_settled status)

-- No package yet.
pub record IsOpen (run : Run) : Type 0 where
  pub unpackaged : count_where by_publisher run.artifacts ≡ 0
  pub unsettled : is_unsettled run.status ≡ true

-- Packaged under an approval of exactly the other artifacts.
pub record IsSealed (lib : Library) (run : Run) : Type 0 where
  pub approved : List Artifact
  pub last_artifact : Artifact
  pub greenlight : Greenlight
  pub settled : is_settled run.status ≡ true
  pub holds_both : run.artifacts ≡ approved ++ last_artifact ∷ []
  pub by_others : count_where by_publisher approved ≡ 0
  pub packaged : last_artifact.created_by ≡ publisher
  pub given : run.greenlight ≡ some greenlight
  pub approves : greenlight.decision ≡ approve
  pub same_ids : greenlight.approved_artifact_ids ≡ artifact_ids lib approved
  pub same_hashes : greenlight.approved_artifact_hashes ≡ map (artifact_hash lib) approved

pub count_other :
    (artifacts : List Artifact) (artifact : Artifact)
    → not_publisher artifact.created_by ≡ true
    → count_where by_publisher artifacts ≡ 0
    → count_where by_publisher (artifacts ++ artifact ∷ []) ≡ 0
count_other artifacts artifact other h =
    ground
      (arith, count-append by_publisher artifacts (artifact ∷ []), count_one by_publisher artifact)

pub IsOpen-IsKept : IsKept not_publisher is_unsettled IsOpen
unfolding set_state add_event add_artifact
IsOpen-IsKept = record {
  state_set = λ _ _ _ _ run h. record { unpackaged = h.unpackaged; unsettled = h.unsettled };
  event_added =
      λ _ _ _ _ _ _ _ run h. record { unpackaged = h.unpackaged; unsettled = h.unsettled };
  artifact_added = λ artifact _ run other h. record {
    unpackaged = count_other run.artifacts artifact other h.unpackaged;
    unsettled = h.unsettled;
  };
  execution_set = λ _ run h. record { unpackaged = h.unpackaged; unsettled = h.unsettled };
  status_set = λ _ run other h. record { unpackaged = h.unpackaged; unsettled = other };
  completion_set = λ _ run h. record { unpackaged = h.unpackaged; unsettled = h.unsettled };
}

abbrev pub no_role : Role → Bool
no_role _ = false

abbrev pub no_status : RunStatus → Bool
no_status _ = false

module _ (lib : Library) where
  -- A sealed run is sealed still when its parts are.
  pub reseal :
      (run after : Run)
      → after.artifacts ≡ run.artifacts
      → after.greenlight ≡ run.greenlight
      → is_settled after.status ≡ true
      → IsSealed lib run
      → IsSealed lib after
  reseal run after artifacts greenlight settled h = record {
    approved = h.approved;
    last_artifact = h.last_artifact;
    greenlight = h.greenlight;
    settled = settled;
    holds_both = artifacts ∙ h.holds_both;
    by_others = h.by_others;
    packaged = h.packaged;
    given = greenlight ∙ h.given;
    approves = h.approves;
    same_ids = h.same_ids;
    same_hashes = h.same_hashes;
  }

  pub IsSealed-IsKept : IsKept no_role no_status (IsSealed lib)
  unfolding set_state add_event
  IsSealed-IsKept = record {
    state_set = λ role status progress detail run h.
        reseal run (set_state role status progress detail run) refl refl h.settled h;
    event_added = λ timestamp role action status detail ids eids run h.
        reseal run (add_event timestamp role action status detail ids eids run) refl refl h.settled
          h;
    artifact_added = λ _ _ _ impossible _. cc;
    execution_set =
        λ execution run h. reseal run (record run { execution = execution }) refl refl h.settled h;
    status_set = λ _ _ impossible _. cc;
    completion_set = λ completed_at run h.
        reseal run (record run { completed_at = completed_at }) refl refl h.settled h;
  }

pub settled-idle :
    (status : RunStatus)
    → is_settled status ≡ true
    → (is_queued status ≡ false) × (is_running status ≡ false) × (is_awaiting status ≡ false)
settled-idle completed h = (refl, refl, refl)
settled-idle revoked h = (refl, refl, refl)
settled-idle queued h = cc
settled-idle running h = cc
settled-idle awaiting_greenlight h = cc
settled-idle rejected h = cc
settled-idle failed h = cc

-- What a settled run is after `advance`: itself.
pub advance_settled :
    (lib : Library) (services : Services) (now : ℕ → String) (run : Run)
    → is_settled run.status ≡ true
    → advance_run lib services now run ≡ (ok tt, run)
unfolding advance_run dequeue
advance_settled lib services now run settled =
    let idle = settled-idle run.status settled in rw (idle.0, idle.1) refl
