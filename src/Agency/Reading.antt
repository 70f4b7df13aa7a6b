-- ===== src/Agency/Reading.antt =====
-- backend/agency_runtime/serialization.py: reading the parts of a persisted document. Python's
-- `str` and `int` of a value that is no text or no number are parameters; an identifier in a list is
-- a text, as the runtime writes it.
use ai_native_content_agency.Prelude.{ℕ, String, Option, none, some, List, [], ◌∷◌, ◌==◌}
use ai_native_content_agency.Prelude.Tests.{if◌then◌else◌}
use ai_native_content_agency.Prelude.Int.{ℤ, pos, negsuc}
use ai_native_content_agency.Prelude.Results.{Result, ok, err, ◌>>=◌}
use ai_native_content_agency.Json.{
  Value, Items, Fields, null, number, text, list, dict, nil, cons, get,
}
use ai_native_content_agency.Agency.Model.{
  Platform, x, facebook, tiktok, instagram, Role, ceo, research, strategist, growth, writer, media,
  risk, publisher, AgentStatus, standby, processing, ready, waiting_greenlight, blocked, attention,
  RunStatus, queued, running, awaiting_greenlight, completed, rejected, revoked, failed, Decision,
  approve, reject, Error, key_missing, bad_value,
}

-- `str` and `int`
pub record Casts : Type 0 where
  pub str : Value → String
  pub int : Value → Result Error ℤ

-- `document[key]`
unfoldable pub need : String → Fields → Result Error Value
unfolding get
need key fs = elim (get key fs) [ none ↦ err key_missing | some v ↦ ok v ]

-- `_mapping`
unfoldable pub as_mapping : Value → Result Error Fields
as_mapping (dict fs) = ok fs
as_mapping _ = err bad_value

unfoldable pub texts_from : Items → Result Error (List String)
texts_from nil = ok []
texts_from (cons (text s) vs) = texts_from vs >>= λ ss. ok (s ∷ ss)
texts_from (cons _ vs) = err bad_value

-- `item.get(key, [])` as a list or a tuple.
unfoldable pub items_at : String → Fields → Result Error Items
unfolding get
items_at key fs = elim (get key fs) [
  | none ↦ ok nil
  | some (list vs) ↦ ok vs
  | some _ ↦ err bad_value
]

unfoldable pub texts_at : String → Fields → Result Error (List String)
unfolding items_at texts_from
texts_at key fs = items_at key fs >>= texts_from

-- `Platform(value)` and its kin, which raise ValueError on another text.
abbrev pub platform_from : Value → Result Error Platform
platform_from (text s) =
    if s == "x"
    then ok x
    else if s == "facebook"
    then ok facebook
    else if s == "tiktok"
    then ok tiktok
    else if s == "instagram"
    then ok instagram
    else err bad_value
platform_from _ = err bad_value

abbrev pub role_from : String → Result Error Role
role_from s =
    if s == "ceo"
    then ok ceo
    else if s == "research"
    then ok research
    else if s == "strategist"
    then ok strategist
    else if s == "growth"
    then ok growth
    else if s == "writer"
    then ok writer
    else if s == "media"
    then ok media
    else if s == "risk"
    then ok risk
    else if s == "publisher"
    then ok publisher
    else err bad_value

abbrev pub agent_status_from : String → Result Error AgentStatus
agent_status_from s =
    if s == "standby"
    then ok standby
    else if s == "processing"
    then ok processing
    else if s == "ready"
    then ok ready
    else if s == "waiting_greenlight"
    then ok waiting_greenlight
    else if s == "blocked"
    then ok blocked
    else if s == "attention"
    then ok attention
    else err bad_value

abbrev pub run_status_from : String → Result Error RunStatus
run_status_from s =
    if s == "queued"
    then ok queued
    else if s == "running"
    then ok running
    else if s == "awaiting_greenlight"
    then ok awaiting_greenlight
    else if s == "completed"
    then ok completed
    else if s == "rejected"
    then ok rejected
    else if s == "revoked"
    then ok revoked
    else if s == "failed"
    then ok failed
    else err bad_value

abbrev pub decision_from : String → Result Error Decision
decision_from s =
    if s == "approved" then ok approve else if s == "rejected" then ok reject else err bad_value

unfoldable pub platforms_from : Items → Result Error (List Platform)
platforms_from nil = ok []
platforms_from (cons v vs) = do p ← platform_from v; ps ← platforms_from vs; ok (p ∷ ps)

-- A number that the runtime counts up from nothing.
abbrev pub as_count : ℤ → Result Error ℕ
as_count (pos n) = ok n
as_count (negsuc _) = err bad_value

module _ (casts : Casts) where
  abbrev pub to_text : Value → String
  to_text (text s) = s
  to_text v = casts.str v

  abbrev pub to_int : Value → Result Error ℤ
  to_int (number n) = ok n
  to_int v = casts.int v

  -- `str(item[key])`
  unfoldable pub text_at : String → Fields → Result Error String
  unfolding need
  text_at key fs = need key fs >>= λ v. ok (to_text v)

  -- `str(item.get(key, default))`
  unfoldable pub text_or : String → String → Fields → String
  unfolding get
  text_or key default fs = elim (get key fs) [ none ↦ default | some v ↦ to_text v ]

  -- `int(item[key])`
  unfoldable pub int_at : String → Fields → Result Error ℤ
  unfolding need
  int_at key fs = need key fs >>= to_int

  -- `int(item.get(key, default))`
  unfoldable pub int_or : String → ℤ → Fields → Result Error ℤ
  unfolding get
  int_or key default fs = elim (get key fs) [ none ↦ ok default | some v ↦ to_int v ]

  unfoldable pub optional_of : Option Value → Option String
  optional_of none = none
  optional_of (some null) = none
  optional_of (some v) = some (to_text v)

  -- `str(item[key]) if item.get(key) is not None else None`
  unfoldable pub optional_text : String → Fields → Option String
  unfolding get
  optional_text key fs = optional_of (get key fs)
