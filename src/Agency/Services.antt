-- ===== src/Agency/Services.antt =====
-- backend/agency_runtime/orchestrator.py: what the stations call and share. The toolset, the payloads of
-- campaign_intelligence.py, the memory and Python's `str` are the record `Services`. An observation
-- has its content, the hundredths of its confidence, its tags and its provenance.
use ai_native_content_agency.Prelude.{ℕ, String, ◌+◌, Option, none, some, List, [], ◌∷◌, ◌++◌}
use ai_native_content_agency.Prelude.Int.{ℤ, pos}
use ai_native_content_agency.Prelude.Text.{join_text}
use ai_native_content_agency.Prelude.Results.{Result, ok, err, ◌>>=◌}
use ai_native_content_agency.Json.{
  Value, Items, Fields, number, list, dict, nil, cons, end, field, get,
}
use ai_native_content_agency.Json.{Platform as Library}
use ai_native_content_agency.Agency.Model.{
  Platform, Role, Brief, Evidence, Artifact, TraceEvent, Run, Error, artifact_missing, bad_payload,
  no_platforms, Check, last_of_kind,
}
use ai_native_content_agency.Agency.Values.{role_value}
use ai_native_content_agency.Agency.Stations.{Outcome, and_then, new_artifact, complete_with}

-- `ToolResponse`: `to_primitive(response.result)` and the evidence.
pub record Response : Type 0 where
  pub result : Fields
  pub evidence : Evidence

-- The provenance's source is always "agency_run".
pub record Observation : Type 0 where
  pub content : String
  pub confidence : ℕ
  pub tags : List String
  pub locator : String
  pub observed_at : String
  pub tool : String
  pub trace_id : String

-- What the stations call: the requests' fields are the arguments.
pub record Services : Type 0 where
  pub collect_trends : String → String → List Platform → Result Error Response
  pub observe_page : String → String → Result Error Response
  -- the recommendations of `docs.result`
  pub lookup_docs : String → String → Result Error (Items × Evidence)
  pub forecast_ads : String → String → ℤ → List Platform → Result Error Response
  pub plan_video : String → Platform → ℕ → Result Error Response
  pub plan_motion : String → String → ℕ → Result Error Response
  pub inspect_code : String → List String → String → Result Error Response
  -- `package.manifest_uri` with the response
  pub package_campaign : String → List Platform → List Artifact → Result Error (String × Response)
  pub claim_ledger : Brief → String → Result Error Items
  pub strategy_payload : Brief → Result Error Fields
  pub growth_payload : Brief → Fields → Result Error Fields
  pub copy_payload : Brief → Value → Result Error Fields
  pub media_payload : Brief → Fields → Fields → Result Error Fields
  pub critique_payload : Brief → Value → Value → Result Error Fields
  -- `self.memory.observe` and `self.memory.store`
  pub remember : Observation → Check
  pub str : Value → String

abbrev pub items_length : Items → ℕ
items_length nil = 0
items_length (cons _ vs) = 1 + items_length vs

abbrev fields_length : Fields → ℕ
fields_length end = 0
fields_length (field _ _ fs) = 1 + fields_length fs

-- `payload[key]`
unfoldable pub value_at : String → Fields → Result Error Value
unfolding get
value_at key payload = elim (get key payload) [ none ↦ err bad_payload | some v ↦ ok v ]

abbrev size : Value → Result Error ℕ
size (list vs) = ok (items_length vs)
size (dict fs) = ok (fields_length fs)
size _ = err bad_payload

-- `len(payload[key])`
unfoldable pub size_at : String → Fields → Result Error ℕ
unfolding value_at
size_at key payload = value_at key payload >>= size

-- `payload.get(key, default)`
unfoldable pub get_or : String → Value → Fields → Value
unfolding get
get_or key default payload = elim (get key payload) [ none ↦ default | some v ↦ v ]

-- `run.artifact(kind).payload`
unfoldable pub payload_of : String → Run → Result Error Fields
unfolding last_of_kind
payload_of kind run = elim (last_of_kind kind run.artifacts) [
  | none ↦ err artifact_missing
  | some artifact ↦ ok artifact.payload
]

-- `run.trace[-1].sequence if run.trace else 0`
unfoldable pub last_sequence : List TraceEvent → ℕ
last_sequence [] = 0
last_sequence (event ∷ []) = event.sequence
last_sequence (_ ∷ event ∷ events) = last_sequence (event ∷ events)

abbrev tool_of : Option Evidence → String
tool_of none = "agency_runtime"
tool_of (some evidence) = evidence.tool

-- An action that computes a value and changes no run.
unfoldable pub compute : {A : Type 0} → Result Error A → Run → (A → Outcome) → Outcome
compute (ok a) run rest = rest a
compute (err e) run rest = (err e, run)

-- `run.brief.platforms[0]`; a brief has a platform (`check_brief`).
abbrev pub first_platform : List Platform → Result Error Platform
first_platform [] = err no_platforms
first_platform (platform ∷ _) = ok platform

module _ (lib : Library) (services : Services) (now : ℕ → String) where
  -- `_remember`
  unfoldable pub remember_artifact :
      Role → String → ℕ → List String → Artifact → Option Evidence → ℕ → Run → Outcome
  unfolding last_sequence
  remember_artifact role content confidence tags artifact evidence reading run = (
    services.remember record {
      content = content;
      confidence = confidence;
      tags = tags ++ role_value role ∷ [];
      locator =
          join_text "sandbox://runs/"
            (join_text run.run_id (join_text "/artifacts/" artifact.artifact_id));
      observed_at = now reading;
      tool = tool_of evidence;
      trace_id =
          join_text run.run_id
            (join_text ":" (services.str (number (pos (last_sequence run.trace)))));
    },
    run,
  )

  -- `_complete_agent`, then the rest of the handler on the artifact.
  unfoldable pub complete_then :
      Role
      → String
      → String
      → Fields
      → List Evidence
      → String
      → Run
      → (Artifact → Run → Outcome)
      → Outcome
  unfolding and_then new_artifact complete_with
  complete_then role kind title payload evidence detail run rest =
      let artifact = new_artifact lib run.run_id role kind title payload evidence in
      and_then (complete_with (now 0) artifact evidence detail run) (rest artifact)
