-- ===== src/Sessions/Creation.antt =====
-- `create_session` of backend/agency_runtime/persistence.py: the sessions, their table beside the audit
-- ledger, and the transaction that writes both.
use ai_native_content_agency.Prelude.{
  ℕ, String, Bool, ◌+◌, ◌&&◌, ◌||◌, Option, none, List, [], ◌∷◌, ◌++◌, ◌==◌,
}
use ai_native_content_agency.Prelude.Tests.{ltb, eqb, if◌then◌else◌}
use ai_native_content_agency.Prelude.Tables.{count_where}
use ai_native_content_agency.Prelude.Text.{is_empty, join_text}
use ai_native_content_agency.Prelude.Results.{Result, ok, err, raise_if, guarded}
use ai_native_content_agency.Json.{Platform, text, end, field}
use ai_native_content_agency.Audit.{
  Error as AuditError, Write, Ledger, check_write, append_audit_locked,
}

-- A row of `runtime_sessions`; a `SessionRecord` is one without the two hashes.
pub record Session : Type 0 where
  pub session_id : String
  pub tenant_id : String
  pub session_token_hash : String
  pub csrf_token_hash : String
  pub credential_fingerprint : String
  pub subject_id : String
  pub role : String
  pub key_id : String
  pub created_at : ℕ
  pub expires_at : ℕ
  pub revoked_at : Option ℕ

-- `SessionRecord`
pub record SessionRecord : Type 0 where
  pub session_id : String
  pub tenant_id : String
  pub subject_id : String
  pub role : String
  pub key_id : String
  pub credential_fingerprint : String
  pub created_at : ℕ
  pub expires_at : ℕ
  pub revoked_at : Option ℕ

-- `SessionIssue`
pub record SessionIssue : Type 0 where
  pub session_id : String
  pub session_token : String
  pub csrf_token : String
  pub tenant_id : String
  pub subject_id : String
  pub role : String
  pub key_id : String
  pub credential_fingerprint : String
  pub expires_at : ℕ

-- The two tables that a method of this part writes in one transaction.
pub record Store : Type 0 where
  pub sessions : List Session
  pub ledger : Ledger

pub data Error : Type 0 where
  bad_ttl missing_session invalid_session revoked_session expired_session : Error
  inactive_session csrf_required csrf_invalid session_not_found integrity : Error
  audit : AuditError → Error

abbrev pub has_token : String → Session → Bool
has_token hash session = session.session_token_hash == hash

abbrev pub has_session_id : String → Session → Bool
has_session_id session_id session = session.session_id == session_id

abbrev default : String → String → String → String
default value prefix tenant_id = if is_empty value then join_text prefix tenant_id else value

-- The end of a transaction: what the audit append raises undoes the change of the sessions too.
unfoldable pub commit :
    {A : Type 0}
    → A
    → List Session
    → Result AuditError (Unit {0}) × Ledger
    → Store
    → Result Error A × Store
commit value sessions (ok _, ledger) store =
    (ok value, record { sessions = sessions; ledger = ledger })
commit value sessions (err e, ledger) store = (err (audit e), store)

-- `_append_audit_locked` of an `AuditWrite` that is constructed for it.
unfoldable pub write_audit :
    Platform → String → String → String → Write → Ledger → Result AuditError (Unit {0}) × Ledger
unfolding check_write append_audit_locked guarded
write_audit lib now fresh tenant_id write =
    guarded (check_write write) (append_audit_locked lib now fresh tenant_id write)

-- `_token_hash`
abbrev pub token_hash : Platform → String → String
token_hash lib token = lib.sha256 token

-- What the source draws at random for a new session, and the identifier of its audit event.
pub record Draw : Type 0 where
  pub session_id : String
  pub session_token : String
  pub csrf_token : String
  pub event_id : String

-- The arguments of `create_session`.
pub record Request : Type 0 where
  pub tenant_id : String
  pub credential_fingerprint : String
  pub ttl_seconds : ℕ
  pub request_id : String
  pub actor : String
  pub subject_id : String
  pub role : String
  pub key_id : String

unfoldable pub new_session : Platform → ℕ → Draw → Request → Session
new_session lib now draw request = record {
  session_id = draw.session_id;
  tenant_id = request.tenant_id;
  session_token_hash = token_hash lib draw.session_token;
  csrf_token_hash = token_hash lib draw.csrf_token;
  credential_fingerprint = request.credential_fingerprint;
  subject_id = default request.subject_id "tenant:" request.tenant_id;
  role = request.role;
  key_id = default request.key_id "legacy:" request.tenant_id;
  created_at = now;
  expires_at = now + request.ttl_seconds;
  revoked_at = none;
}

unfoldable pub created_write : (ℕ → String) → Request → Session → Write
created_write isoformat request session = record {
  request_id = request.request_id;
  action = "session.created";
  resource_type = "browser_session";
  resource_id = session.session_id;
  actor = request.actor;
  payload = field "auth_method" (text "http_only_cookie") (
      field "subject_id" (text session.subject_id) (
        field "role" (text session.role) (
          field "key_id" (text session.key_id)
            (field "expires_at" (text (isoformat session.expires_at)) end))));
  event_id = "";
}

unfoldable pub issue : Session → String → String → SessionIssue
issue session session_token csrf_token = record {
  session_id = session.session_id;
  session_token = session_token;
  csrf_token = csrf_token;
  tenant_id = session.tenant_id;
  subject_id = session.subject_id;
  role = session.role;
  key_id = session.key_id;
  credential_fingerprint = session.credential_fingerprint;
  expires_at = session.expires_at;
}

-- The transaction: the INSERT, with its primary key and UNIQUE token hash, then the audit event.
-- `later` is the reading of the clock that the append takes.
unfoldable pub insert_session :
    Platform
    → (ℕ → String)
    → ℕ
    → Draw
    → Request
    → Session
    → Store
    → Result Error SessionIssue × Store
unfolding commit write_audit created_write issue
insert_session lib isoformat later draw request session store =
    if eqb (count_where (has_session_id session.session_id) store.sessions) 0
      && eqb (count_where (has_token session.session_token_hash) store.sessions) 0
    then commit (issue session draw.session_token draw.csrf_token) (store.sessions ++ session ∷ [])
        (write_audit lib (isoformat later) draw.event_id session.tenant_id
          (created_write isoformat request session) store.ledger)
        store
    else (err integrity, store)

unfoldable pub create_session :
    Platform → (ℕ → String) → ℕ → ℕ → Draw → Request → Store → Result Error SessionIssue × Store
unfolding insert_session new_session guarded
create_session lib isoformat now later draw request =
    guarded (raise_if (ltb request.ttl_seconds 300 || ltb 86400 request.ttl_seconds) bad_ttl)
      (insert_session lib isoformat later draw request (new_session lib now draw request))
