-- ===== src/Agency/Document.antt =====
-- backend/agency_runtime/serialization.py: a run from its persisted document.
use ai_native_content_agency.Prelude.{String, Bool, Option, none, some, List, [], ◌∷◌}
use ai_native_content_agency.Prelude.Int.{pos}
use ai_native_content_agency.Prelude.Results.{Result, ok, err, ◌>>=◌}
use ai_native_content_agency.Json.{
  Value, Items, Fields, null, boolean, list, dict, nil, cons, end, field, get,
}
use ai_native_content_agency.Agency.Model.{
  Claim, Brief, Evidence, Artifact, AgentState, TraceEvent, Greenlight, Execution, Error, bad_value,
  check_brief, check_greenlight, check_execution,
}
use ai_native_content_agency.Agency.Model.{Run, Check}
use ai_native_content_agency.Agency.Reading.{
  Casts, need, as_mapping, texts_at, items_at, platforms_from, role_from, agent_status_from,
  run_status_from, decision_from, as_count, text_at, text_or, int_at, int_or, optional_text,
}

-- A value that its class checks when it is made.
unfoldable pub built : {A : Type 0} → Check → A → Result Error A
built (ok _) a = ok a
built (err e) a = err e

-- A list, as a loop over it wants one.
unfoldable pub as_items : Value → Result Error Items
as_items (list vs) = ok vs
as_items _ = err bad_value

-- A list comprehension over the mappings of a list.
unfoldable pub each : {A : Type 0} → (Fields → Result Error A) → Items → Result Error (List A)
each read nil = ok []
each read (cons (dict fs) vs) = do a ← read fs; rest ← each read vs; ok (a ∷ rest)
each read (cons _ vs) = err bad_value

-- `bool(value)` of the values that are written for a Boolean
unfoldable pub as_bool : Value → Result Error Bool
as_bool (boolean b) = ok b
as_bool _ = err bad_value

module _ (casts : Casts) where
  unfoldable pub claim_from : Fields → Result Error Claim
  unfolding text_or
  claim_from fs = ok (record {
    statement = text_or casts "statement" "" fs;
    source = text_or casts "source" "" fs;
    locator = text_or casts "locator" "" fs;
    verification_status = text_or casts "verification_status" "unverified" fs;
    reviewed_by = text_or casts "reviewed_by" "" fs;
  })

  unfoldable pub brief_from : Fields → Result Error Brief
  unfolding need text_at text_or int_or items_at platforms_from each claim_from built
  brief_from fs = do
    title ← text_at casts "title" fs
    objective ← text_at casts "objective" fs
    audience ← text_at casts "audience" fs
    platforms ← need "platforms" fs >>= as_items >>= platforms_from
    budget_cents ← int_or casts "budget_cents" (pos 0) fs
    evidence_claims ← items_at "evidence_claims" fs >>= each claim_from
    let brief : Brief = record {
      title = title;
      objective = objective;
      audience = audience;
      platforms = platforms;
      budget_cents = budget_cents;
      source_asset = text_or casts "source_asset" "sandbox://brief/no-external-asset" fs;
      campaign_goal = text_or casts "campaign_goal" "awareness" fs;
      campaign_type = text_or casts "campaign_type" "commercial" fs;
      publication_mode = text_or casts "publication_mode" "organic" fs;
      locale = text_or casts "locale" "es-GT" fs;
      jurisdiction = text_or casts "jurisdiction" "" fs;
      office = text_or casts "office" "" fs;
      candidate_name = text_or casts "candidate_name" "" fs;
      locality = text_or casts "locality" "" fs;
      problem = text_or casts "problem" "" fs;
      proposal = text_or casts "proposal" "" fs;
      desired_action = text_or casts "desired_action" "" fs;
      disclosure = text_or casts "disclosure" "" fs;
      legal_review_status = text_or casts "legal_review_status" "pending" fs;
      legal_reviewed_by = text_or casts "legal_reviewed_by" "" fs;
      evidence_claims = evidence_claims;
    }
    built (check_brief brief) brief

  unfoldable pub state_from : String → Fields → Result Error AgentState
  unfolding text_at int_at texts_at
  state_from key fs = do
    role ← role_from key
    status ← text_at casts "status" fs >>= agent_status_from
    progress ← int_at casts "progress" fs >>= as_count
    detail ← text_at casts "detail" fs
    artifact_ids ← texts_at "artifact_ids" fs
    ok record {
      role = role;
      status = status;
      progress = progress;
      detail = detail;
      artifact_ids = artifact_ids;
    }

  -- The items of the mapping from roles.
  unfoldable pub states_from : Fields → Result Error (List AgentState)
  unfolding state_from
  states_from end = ok []
  states_from (field key (dict fs) rest) = do
    state ← state_from key fs
    states ← states_from rest
    ok (state ∷ states)
  states_from (field key _ rest) = err bad_value

  unfoldable pub artifact_from : Fields → Result Error Artifact
  unfolding need text_at texts_at as_mapping
  artifact_from fs = do
    artifact_id ← text_at casts "artifact_id" fs
    kind ← text_at casts "kind" fs
    title ← text_at casts "title" fs
    created_by ← text_at casts "created_by" fs >>= role_from
    payload ← need "payload" fs >>= as_mapping
    evidence_ids ← texts_at "evidence_ids" fs
    ok record {
      artifact_id = artifact_id;
      kind = kind;
      title = title;
      created_by = created_by;
      payload = payload;
      evidence_ids = evidence_ids;
    }

  unfoldable pub evidence_from : Fields → Result Error Evidence
  unfolding need text_at texts_at as_mapping as_bool
  evidence_from fs = do
    evidence_id ← text_at casts "evidence_id" fs
    tool ← text_at casts "tool" fs
    operation ← text_at casts "operation" fs
    sandbox ← need "sandbox" fs >>= as_bool
    summary ← text_at casts "summary" fs
    payload ← need "payload" fs >>= as_mapping
    references ← texts_at "references" fs
    ok record {
      evidence_id = evidence_id;
      tool = tool;
      operation = operation;
      sandbox = sandbox;
      summary = summary;
      payload = payload;
      references = references;
    }

  unfoldable pub event_from : Fields → Result Error TraceEvent
  unfolding text_at int_at texts_at
  event_from fs = do
    sequence ← int_at casts "sequence" fs >>= as_count
    timestamp ← text_at casts "timestamp" fs
    role ← text_at casts "role" fs >>= role_from
    action ← text_at casts "action" fs
    status ← text_at casts "status" fs
    detail ← text_at casts "detail" fs
    artifact_ids ← texts_at "artifact_ids" fs
    evidence_ids ← texts_at "evidence_ids" fs
    ok record {
      sequence = sequence;
      timestamp = timestamp;
      role = role;
      action = action;
      status = status;
      detail = detail;
      artifact_ids = artifact_ids;
      evidence_ids = evidence_ids;
    }

  unfoldable pub greenlight_from : Fields → Result Error Greenlight
  unfolding text_at text_or int_or optional_text texts_at platforms_from items_at built
  greenlight_from fs = do
    greenlight_id ← text_at casts "greenlight_id" fs
    run_id ← text_at casts "run_id" fs
    decision ← text_at casts "decision" fs >>= decision_from
    reviewer ← text_at casts "reviewer" fs
    decided_at ← text_at casts "decided_at" fs
    approved_artifact_ids ← texts_at "approved_artifact_ids" fs
    approved_artifact_hashes ← texts_at "approved_artifact_hashes" fs
    authorized_channels ← items_at "authorized_channels" fs >>= platforms_from
    authorized_budget_cents ← int_or casts "authorized_budget_cents" (pos 0) fs
    fencing_token ← int_or casts "fencing_token" (pos 1) fs
    let greenlight : Greenlight = record {
      greenlight_id = greenlight_id;
      run_id = run_id;
      decision = decision;
      reviewer = reviewer;
      note = text_or casts "note" "" fs;
      decided_at = decided_at;
      approved_artifact_ids = approved_artifact_ids;
      approved_artifact_hashes = approved_artifact_hashes;
      authorized_channels = authorized_channels;
      authorized_budget_cents = authorized_budget_cents;
      fencing_token = fencing_token;
      revoked_at = optional_text casts "revoked_at" fs;
      revoked_by = text_or casts "revoked_by" "" fs;
      revocation_reason = text_or casts "revocation_reason" "" fs;
    }
    built (check_greenlight greenlight) greenlight

  unfoldable pub execution_from : Fields → Result Error Execution
  unfolding text_or int_or optional_text built
  execution_from fs = do
    fencing_token ← int_or casts "fencing_token" (pos 0) fs
    attempts ← int_or casts "attempts" (pos 0) fs
    let execution : Execution = record {
      state = text_or casts "state" "inline" fs;
      next_station = text_or casts "next_station" "ceo" fs;
      lease_owner = text_or casts "lease_owner" "" fs;
      lease_expires_at = optional_text casts "lease_expires_at" fs;
      fencing_token = fencing_token;
      attempts = attempts;
      checkpointed_at = optional_text casts "checkpointed_at" fs;
      failure_detail = text_or casts "failure_detail" "" fs;
    }
    built (check_execution execution) execution

  -- `document.get("greenlight")`, absent or null for none.
  unfoldable pub optional_greenlight : Option Value → Result Error (Option Greenlight)
  optional_greenlight none = ok none
  optional_greenlight (some null) = ok none
  optional_greenlight (some v) = do
    fs ← as_mapping v
    greenlight ← greenlight_from fs
    ok (some greenlight)

  unfoldable pub execution_or_new : Option Value → Result Error Execution
  unfolding execution_from
  execution_or_new none = execution_from end
  execution_or_new (some null) = execution_from end
  execution_or_new (some v) = as_mapping v >>= execution_from

  -- `execution_run_from_document`
  unfoldable pub execution_run_from_document : Fields → Result Error Run
  execution_run_from_document document = do
    brief ← need "brief" document >>= as_mapping >>= brief_from
    agent_states ← need "agent_states" document >>= as_mapping >>= states_from
    artifacts ← items_at "artifacts" document >>= each artifact_from
    evidence ← items_at "evidence" document >>= each evidence_from
    trace ← items_at "trace" document >>= each event_from
    greenlight ← optional_greenlight (get "greenlight" document)
    execution ← execution_or_new (get "execution" document)
    run_id ← text_at casts "run_id" document
    status ← text_at casts "status" document >>= run_status_from
    started_at ← text_at casts "started_at" document
    ok record {
      run_id = run_id;
      brief = brief;
      status = status;
      started_at = started_at;
      agent_states = agent_states;
      artifacts = artifacts;
      evidence = evidence;
      trace = trace;
      greenlight = greenlight;
      completed_at = optional_text casts "completed_at" document;
      execution = execution;
    }
