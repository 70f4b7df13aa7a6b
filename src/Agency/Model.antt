-- ===== src/Agency/Model.antt =====
-- backend/agency_runtime/models.py: the run, its parts and their validation. A dict from roles is the
-- list of its values, which carry their roles; an evidence claim has its five keys, as every caller
-- gives them.
use ai_native_content_agency.Prelude.{
  ℕ, String, Bool, true, false, not, ◌&&◌, ◌||◌, Option, none, some, List, [], ◌∷◌, ◌++◌, ◌==◌,
}
use ai_native_content_agency.Prelude.Tests.{ltb, eqb, if◌then◌else◌}
use ai_native_content_agency.Prelude.Int.{ℤ, pos, ltb_ℤ}
use ai_native_content_agency.Prelude.Tables.{length, find_where, count_where, update_where}
use ai_native_content_agency.Prelude.Text.{is_empty, strip}
use ai_native_content_agency.Prelude.Results.{Result, ◌>>◌, raise_if}
use ai_native_content_agency.Json.{Fields, is_blank}

pub data Platform : Type 0 where
  x facebook tiktok instagram : Platform

-- `AgentRole`
pub data Role : Type 0 where
  ceo research strategist growth writer media risk publisher : Role

-- `AGENT_SEQUENCE[:-1]`
abbrev pub executable : List Role
executable = ceo ∷ research ∷ strategist ∷ growth ∷ writer ∷ media ∷ risk ∷ []

-- `AGENT_SEQUENCE`
abbrev pub agent_sequence : List Role
agent_sequence = executable ++ publisher ∷ []

abbrev pub role_index : Role → ℕ
role_index ceo = 0
role_index research = 1
role_index strategist = 2
role_index growth = 3
role_index writer = 4
role_index media = 5
role_index risk = 6
role_index publisher = 7

-- `is` on the members of the Enum.
abbrev pub eqb_role : Role → Role → Bool
eqb_role a b = eqb (role_index a) (role_index b)

pub data AgentStatus : Type 0 where
  standby processing ready waiting_greenlight blocked attention : AgentStatus

pub data RunStatus : Type 0 where
  queued running awaiting_greenlight completed rejected revoked failed : RunStatus

-- `GreenlightDecision`
pub data Decision : Type 0 where
  approve reject : Decision

pub record Claim : Type 0 where
  pub statement : String
  pub source : String
  pub locator : String
  pub verification_status : String
  pub reviewed_by : String

-- `MissionBrief`
pub record Brief : Type 0 where
  pub title : String
  pub objective : String
  pub audience : String
  pub platforms : List Platform
  pub budget_cents : ℤ
  pub source_asset : String
  pub campaign_goal : String
  pub campaign_type : String
  pub publication_mode : String
  pub locale : String
  pub jurisdiction : String
  pub office : String
  pub candidate_name : String
  pub locality : String
  pub problem : String
  pub proposal : String
  pub desired_action : String
  pub disclosure : String
  pub legal_review_status : String
  pub legal_reviewed_by : String
  pub evidence_claims : List Claim

-- `ToolEvidence`
pub record Evidence : Type 0 where
  pub evidence_id : String
  pub tool : String
  pub operation : String
  pub sandbox : Bool
  pub summary : String
  pub payload : Fields
  pub references : List String

pub record Artifact : Type 0 where
  pub artifact_id : String
  pub kind : String
  pub title : String
  pub created_by : Role
  pub payload : Fields
  pub evidence_ids : List String

pub record AgentState : Type 0 where
  pub role : Role
  pub status : AgentStatus
  pub progress : ℕ
  pub detail : String
  pub artifact_ids : List String

pub record TraceEvent : Type 0 where
  pub sequence : ℕ
  pub timestamp : String
  pub role : Role
  pub action : String
  pub status : String
  pub detail : String
  pub artifact_ids : List String
  pub evidence_ids : List String

pub record Greenlight : Type 0 where
  pub greenlight_id : String
  pub run_id : String
  pub decision : Decision
  pub reviewer : String
  pub note : String
  pub decided_at : String
  pub approved_artifact_ids : List String
  pub approved_artifact_hashes : List String
  pub authorized_channels : List Platform
  pub authorized_budget_cents : ℤ
  pub fencing_token : ℤ
  pub revoked_at : Option String
  pub revoked_by : String
  pub revocation_reason : String

-- `RunExecution`
pub record Execution : Type 0 where
  pub state : String
  pub next_station : String
  pub lease_owner : String
  pub lease_expires_at : Option String
  pub fencing_token : ℤ
  pub attempts : ℤ
  pub checkpointed_at : Option String
  pub failure_detail : String

-- `ExecutionRun`
pub record Run : Type 0 where
  pub run_id : String
  pub brief : Brief
  pub status : RunStatus
  pub started_at : String
  pub agent_states : List AgentState
  pub artifacts : List Artifact
  pub evidence : List Evidence
  pub trace : List TraceEvent
  pub greenlight : Option Greenlight
  pub completed_at : Option String
  pub execution : Execution

-- What the constructors, the lookups and the orchestrator raise.
pub data Error : Type 0 where
  blank_field no_platforms negative_budget bad_campaign_type bad_publication_mode : Error
  bad_legal_review unsigned_legal_review bad_claim no_claims : Error
  envelope_mismatch bad_fence bad_revocation bad_execution : Error
  run_not_found run_exists station_missing artifact_missing invalid_station : Error
  not_awaiting risk_not_passed critique_not_passed reviewer_blank same_reviewer : Error
  not_active reason_blank bad_payload : Error
  wrong_greenlight stale_fence wrong_envelope wrong_channel wrong_budget : Error
  key_missing bad_value : Error
  -- what a station's tools and memory raise
  station_failed : String → Error

abbrev pub Check : Type 0
Check = Result Error (Unit {0})

abbrev pub is_political : Brief → Bool
is_political brief = brief.campaign_type == "political"

abbrev is_bad_claim : Claim → Bool
is_bad_claim claim =
    is_empty (strip claim.statement)
    || is_empty (strip claim.source)
    || is_empty (strip claim.locator)
    || not (claim.verification_status == "unverified" || claim.verification_status == "verified")
    || claim.verification_status == "verified" && is_empty (strip claim.reviewed_by)

-- `MissionBrief.__post_init__`
unfoldable pub check_brief : Brief → Check
unfolding is_blank strip
check_brief brief = do
  raise_if (is_blank brief.title || is_blank brief.objective || is_blank brief.audience) blank_field
  raise_if (eqb (length brief.platforms) 0) no_platforms
  raise_if (ltb_ℤ brief.budget_cents (pos 0)) negative_budget
  raise_if (not (brief.campaign_type == "commercial" || is_political brief)) bad_campaign_type
  raise_if (not (brief.publication_mode == "organic" || brief.publication_mode == "paid"))
      bad_publication_mode
  raise_if (is_blank brief.locale) blank_field
  raise_if (not (brief.legal_review_status == "pending" || brief.legal_review_status == "approved"))
      bad_legal_review
  raise_if (brief.legal_review_status == "approved" && is_empty (strip brief.legal_reviewed_by))
      unsigned_legal_review
  raise_if (ltb 0 (count_where is_bad_claim brief.evidence_claims)) bad_claim
  raise_if
      (is_political brief
        && (is_blank brief.jurisdiction
            || is_blank brief.office
            || is_blank brief.candidate_name
            || is_blank brief.locality
            || is_blank brief.problem
            || is_blank brief.proposal
            || is_blank brief.desired_action
            || is_blank brief.disclosure))
      blank_field
  raise_if (is_political brief && eqb (length brief.evidence_claims) 0) no_claims

-- `revoked_at` with the two fields that go with it.
unfoldable pub check_revocation : Option String → String → String → Check
unfolding is_blank
check_revocation none revoked_by reason =
    raise_if (not (is_empty revoked_by) || not (is_empty reason)) bad_revocation
check_revocation (some _) revoked_by reason =
    raise_if (is_blank revoked_by || is_blank reason) blank_field

-- `Greenlight.__post_init__`
unfoldable pub check_greenlight : Greenlight → Check
unfolding is_blank check_revocation
check_greenlight g = do
  raise_if (is_blank g.reviewer || is_blank g.decided_at) blank_field
  raise_if (not (eqb (length g.approved_artifact_ids) (length g.approved_artifact_hashes)))
      envelope_mismatch
  raise_if (ltb_ℤ g.authorized_budget_cents (pos 0)) negative_budget
  raise_if (ltb_ℤ g.fencing_token (pos 1)) bad_fence
  check_revocation g.revoked_at g.revoked_by g.revocation_reason

abbrev pub is_none : {A : Type 0} → Option A → Bool
is_none none = true
is_none (some _) = false

abbrev pub is_approve : Decision → Bool
is_approve approve = true
is_approve reject = false

-- `Greenlight.active`
unfoldable pub active : Greenlight → Bool
active g = is_approve g.decision && is_none g.revoked_at

-- `RunExecution.__post_init__`
unfoldable pub check_execution : Execution → Check
check_execution e = do
  raise_if
      (not (
        e.state == "inline"
        || e.state == "queued"
        || e.state == "leased"
        || e.state == "running"
        || e.state == "awaiting_greenlight"
        || e.state == "completed"
        || e.state == "failed"))
      bad_execution
  raise_if (ltb_ℤ e.fencing_token (pos 0) || ltb_ℤ e.attempts (pos 0)) bad_execution
  raise_if (not (is_empty e.lease_owner) && is_none e.lease_expires_at) bad_execution

-- `AgentState.update`; the callers' progress is one of 0, 10, 50 and 100, which its check lets pass.
unfoldable pub update : AgentStatus → ℕ → String → AgentState → AgentState
update status progress detail state = record state {
  status = status;
  progress = progress;
  detail = detail;
}

abbrev pub is_role : Role → AgentState → Bool
is_role role state = eqb_role state.role role

-- `state_for`, which raises KeyError on `none`.
abbrev pub state_for : Role → Run → Option AgentState
state_for role run = find_where (is_role role) run.agent_states

unfoldable pub add_artifact : Artifact → Run → Run
add_artifact artifact run = record run {
  artifacts = run.artifacts ++ artifact ∷ [];
  agent_states =
      update_where (is_role artifact.created_by)
        (λ state. record state { artifact_ids = state.artifact_ids ++ artifact.artifact_id ∷ [] })
        run.agent_states;
}

-- `artifact(kind)`: the last one of the kind.
unfoldable pub last_of_kind : String → List Artifact → Option Artifact
last_of_kind kind [] = none
last_of_kind kind (a ∷ artifacts) = elim (last_of_kind kind artifacts) [
  | some b ↦ some b
  | none ↦ if a.kind == kind then some a else none
]
