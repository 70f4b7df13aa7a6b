-- ===== src/Agency/Roundtrip.antt =====
-- backend/agency_runtime/serialization.py: the parts of a run, written and read back.
use ai_native_content_agency.Prelude.{String, Option, none, some, ◌≡◌, refl, List, [], ◌∷◌}
use ai_native_content_agency.Prelude.Results.{ok, ◌>>=◌}
use ai_native_content_agency.Prelude.Text.{leb_str, leb_codes}
use ai_native_content_agency.Json.{
  get, to_primitive, primitive_items, primitive_fields, insert_sorted,
}
use ai_native_content_agency.Agency.Model.{
  Platform, x, facebook, tiktok, instagram, Role, ceo, research, strategist, growth, writer, media,
  risk, publisher, AgentStatus, standby, processing, ready, waiting_greenlight, blocked, attention,
  RunStatus, queued, running, awaiting_greenlight, completed, rejected, revoked, failed, Decision,
  approve, reject, Claim, Brief, Evidence, Artifact, AgentState, TraceEvent, Greenlight, Execution,
  check_brief, check_greenlight, check_execution,
}
use ai_native_content_agency.Agency.Values.{
  role_value, agent_status_value, run_status_value, decision_value, texts, platform_enums,
  artifact_to_value, brief_to_value, claim_values,
}
use ai_native_content_agency.Agency.Writing.{
  optional_value, state_fields, evidence_to_value, event_to_value, greenlight_to_value,
  execution_to_value,
}
use ai_native_content_agency.Agency.Reading.{
  Casts, need, as_mapping, texts_at, texts_from, items_at, platforms_from, role_from,
  agent_status_from, run_status_from, decision_from, text_at, text_or, int_at, int_or,
  optional_text, optional_of,
}
use ai_native_content_agency.Agency.Document.{
  built, as_items, each, as_bool, claim_from, brief_from, state_from, artifact_from, evidence_from,
  event_from, greenlight_from, execution_from,
}

texts_lem : (ss : List String) → texts_from (primitive_items (texts ss)) ≡ ok ss
unfolding texts_from primitive_items to_primitive texts
texts_lem [] = refl
texts_lem (s ∷ ss) = rw (texts_lem ss) refl

platforms_lem : (ps : List Platform) → platforms_from (primitive_items (platform_enums ps)) ≡ ok ps
unfolding platforms_from primitive_items to_primitive platform_enums
platforms_lem [] = refl
platforms_lem (x ∷ ps) = rw (platforms_lem ps) refl
platforms_lem (facebook ∷ ps) = rw (platforms_lem ps) refl
platforms_lem (tiktok ∷ ps) = rw (platforms_lem ps) refl
platforms_lem (instagram ∷ ps) = rw (platforms_lem ps) refl

decision_lem : (d : Decision) → decision_from (decision_value d) ≡ ok d
decision_lem approve = refl
decision_lem reject = refl

role_lem : (r : Role) → role_from (role_value r) ≡ ok r
role_lem ceo = refl
role_lem research = refl
role_lem strategist = refl
role_lem growth = refl
role_lem writer = refl
role_lem media = refl
role_lem risk = refl
role_lem publisher = refl

agent_status_lem : (s : AgentStatus) → agent_status_from (agent_status_value s) ≡ ok s
agent_status_lem standby = refl
agent_status_lem processing = refl
agent_status_lem ready = refl
agent_status_lem waiting_greenlight = refl
agent_status_lem blocked = refl
agent_status_lem attention = refl

pub run_status_lem : (s : RunStatus) → run_status_from (run_status_value s) ≡ ok s
run_status_lem queued = refl
run_status_lem running = refl
run_status_lem awaiting_greenlight = refl
run_status_lem completed = refl
run_status_lem rejected = refl
run_status_lem revoked = refl
run_status_lem failed = refl

-- The same with its payload in canonical form.
abbrev pub primitive_artifact : Artifact → Artifact
primitive_artifact a = record a { payload = primitive_fields a.payload }

abbrev pub primitive_evidence : Evidence → Evidence
primitive_evidence e = record e { payload = primitive_fields e.payload }

module _ (casts : Casts) where
  pub optional_lem :
      (o : Option String) → optional_of casts (some (to_primitive (optional_value o))) ≡ o
  unfolding optional_of to_primitive
  optional_lem none = refl
  optional_lem (some s) = refl

  pub greenlight_lem :
      (g : Greenlight)
      → check_greenlight g ≡ ok tt
      → (as_mapping (to_primitive (greenlight_to_value g)) >>= greenlight_from casts) ≡ ok g
  unfolding greenlight_to_value greenlight_from to_primitive primitive_fields insert_sorted leb_str
      leb_codes as_mapping text_at need get text_or int_or optional_text texts_at items_at built
  greenlight_lem g checked =
      rw
        (
          decision_lem g.decision,
          texts_lem g.approved_artifact_ids,
          texts_lem g.approved_artifact_hashes,
          platforms_lem g.authorized_channels,
          optional_lem g.revoked_at,
          checked,
        )
        refl

  pub execution_lem :
      (e : Execution)
      → check_execution e ≡ ok tt
      → (as_mapping (to_primitive (execution_to_value e)) >>= execution_from casts) ≡ ok e
  unfolding execution_to_value execution_from to_primitive primitive_fields insert_sorted leb_str
      leb_codes as_mapping get text_or int_or optional_text built
  execution_lem e checked =
      rw (optional_lem e.lease_expires_at, optional_lem e.checkpointed_at, checked) refl

  claims_lem :
      (cs : List Claim) → each (claim_from casts) (primitive_items (claim_values cs)) ≡ ok cs
  unfolding each claim_from claim_values to_primitive primitive_items primitive_fields insert_sorted
      leb_str leb_codes get text_or
  claims_lem [] = refl
  claims_lem (c ∷ cs) = rw (claims_lem cs) refl

  pub brief_lem :
      (b : Brief)
      → check_brief b ≡ ok tt
      → (as_mapping (to_primitive (brief_to_value b)) >>= brief_from casts) ≡ ok b
  unfolding brief_from brief_to_value to_primitive primitive_fields insert_sorted leb_str leb_codes
      as_mapping need get text_at text_or int_or items_at as_items built
  brief_lem b checked = rw (platforms_lem b.platforms, claims_lem b.evidence_claims, checked) refl

  pub artifact_lem :
      (a : Artifact)
      → (as_mapping (to_primitive (artifact_to_value a)) >>= artifact_from casts)
        ≡ ok (primitive_artifact a)
  unfolding artifact_from artifact_to_value to_primitive primitive_fields insert_sorted leb_str
      leb_codes as_mapping need get text_at texts_at items_at
  artifact_lem a = rw (role_lem a.created_by, texts_lem a.evidence_ids) refl

  pub evidence_lem :
      (e : Evidence)
      → (as_mapping (to_primitive (evidence_to_value e)) >>= evidence_from casts)
        ≡ ok (primitive_evidence e)
  unfolding evidence_from to_primitive primitive_fields insert_sorted leb_str leb_codes as_mapping
      as_bool need get text_at texts_at items_at
  evidence_lem e = rw (texts_lem e.references) refl

  pub event_lem :
      (e : TraceEvent) → (as_mapping (to_primitive (event_to_value e)) >>= event_from casts) ≡ ok e
  unfolding event_from to_primitive primitive_fields insert_sorted leb_str leb_codes as_mapping need
      get text_at int_at texts_at items_at
  event_lem e = rw (role_lem e.role, texts_lem e.artifact_ids, texts_lem e.evidence_ids) refl

  pub state_lem :
      (s : AgentState)
      → state_from casts (role_value s.role) (primitive_fields (state_fields s)) ≡ ok s
  unfolding state_from to_primitive primitive_fields insert_sorted leb_str leb_codes need get
      text_at int_at texts_at items_at
  state_lem s = rw (role_lem s.role, agent_status_lem s.status, texts_lem s.artifact_ids) refl
