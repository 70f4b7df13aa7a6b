-- ===== src/Sessions.antt =====
-- Browser sessions after their creation (backend/agency_runtime/persistence.py: the table
-- `runtime_sessions`). Times are whole seconds, as `utc_now` reads them, and an ISO text is written
-- from one by `isoformat`. Identifiers and tokens that the source draws at random are arguments.
pub mod Creation
pub mod Lifecycle
mod Tests
pub use ai_native_content_agency.Sessions.Creation.{
  Session, SessionRecord, SessionIssue, Store, Error, has_token, has_session_id, token_hash, Draw,
  Request, bad_ttl, missing_session, invalid_session, revoked_session, expired_session,
  inactive_session, csrf_required, csrf_invalid, session_not_found, integrity, audit,
}
unfoldable pub use ai_native_content_agency.Sessions.Creation.{
  commit, write_audit, new_session, created_write, issue, insert_session, create_session,
}
use ai_native_content_agency.Prelude.{
  ℕ, String, Bool, true, false, not, ◌+◌, ◌&&◌, ◌||◌, Option, none, some, List, [], ◌∷◌, ◌++◌, ◌==◌,
}
use ai_native_content_agency.Prelude.Tests.{ltb, leb, eqb, if◌then◌else◌}
use ai_native_content_agency.Prelude.Tables.{find_where, count_where, update_where}
use ai_native_content_agency.Prelude.Text.{is_empty, join_text}
use ai_native_content_agency.Prelude.Results.{Result, ok, err, ◌>>=◌, ◌>>◌, raise_if, guarded}
use ai_native_content_agency.Json.{Platform, Fields, text, end, field}
use ai_native_content_agency.Audit.{
  Error as AuditError, Write, Ledger, check_write, append_audit_locked,
}

abbrev pub is_set : Option ℕ → Bool
is_set none = false
is_set (some _) = true

-- `_row_to_session_record`
unfoldable pub session_record : Session → SessionRecord
session_record session = record {
  session_id = session.session_id;
  tenant_id = session.tenant_id;
  subject_id = session.subject_id;
  role = session.role;
  key_id = session.key_id;
  credential_fingerprint = session.credential_fingerprint;
  created_at = session.created_at;
  expires_at = session.expires_at;
  revoked_at = session.revoked_at;
}

unfoldable pub check_session : ℕ → String → Option Session → Result Error SessionRecord
unfolding session_record
check_session now hash none = err invalid_session
check_session now hash (some session) = do
  raise_if (not (hash == session.session_token_hash)) invalid_session
  raise_if (is_set session.revoked_at) revoked_session
  raise_if (leb session.expires_at now) expired_session
  ok (session_record session)

unfoldable pub authenticate_session : Platform → ℕ → String → Store → Result Error SessionRecord
unfolding check_session
authenticate_session lib now session_token store =
    raise_if (is_empty session_token) missing_session
    >> check_session now (token_hash lib session_token)
        (find_where (has_token (token_hash lib session_token)) store.sessions)

-- A session that is neither revoked nor expired; `rotate_session_csrf` and `verify_session_csrf` raise
-- the refusals as exceptions of two classes, with the same messages.
unfoldable pub check_active : ℕ → Option Session → Result Error Session
check_active now none = err inactive_session
check_active now (some session) = do
  raise_if (is_set session.revoked_at) inactive_session
  raise_if (leb session.expires_at now) expired_session
  ok session

unfoldable pub set_csrf : String → Session → Session
set_csrf hash session = record session { csrf_token_hash = hash }

-- The row was read before the UPDATE; the issue holds no session token.
unfoldable pub rotate_found :
    Platform → String → String → Result Error Session → Store → Result Error SessionIssue × Store
unfolding issue set_csrf
rotate_found lib csrf_token session_id (err e) store = (err e, store)
rotate_found lib csrf_token session_id (ok session) store = (
  ok (issue session "" csrf_token),
  record store {
    sessions =
        update_where (has_session_id session_id) (set_csrf (token_hash lib csrf_token))
          store.sessions;
  },
)

unfoldable pub rotate_session_csrf :
    Platform → ℕ → String → String → Store → Result Error SessionIssue × Store
unfolding rotate_found check_active
rotate_session_csrf lib now csrf_token session_id store =
    rotate_found lib csrf_token session_id
      (check_active now (find_where (has_session_id session_id) store.sessions)) store

unfoldable pub verify_session_csrf :
    Platform → ℕ → String → String → Store → Result Error (Unit {0})
unfolding check_active
verify_session_csrf lib now session_id csrf_token store = do
  raise_if (is_empty csrf_token) csrf_required
  session ← check_active now (find_where (has_session_id session_id) store.sessions)
  raise_if (not (token_hash lib csrf_token == session.csrf_token_hash)) csrf_invalid

-- The WHERE clause of `revoke_session`.
abbrev pub is_live : String → String → Session → Bool
is_live tenant_id session_id session =
    session.tenant_id == tenant_id
    && session.session_id == session_id
    && not (is_set session.revoked_at)

unfoldable pub set_revoked : ℕ → Session → Session
set_revoked now session = record session { revoked_at = some now }

unfoldable pub revoked_write : (ℕ → String) → ℕ → String → String → String → Write
revoked_write isoformat now session_id request_id actor = record {
  request_id = request_id;
  action = "session.revoked";
  resource_type = "browser_session";
  resource_id = session_id;
  actor = actor;
  payload = field "revoked_at" (text (isoformat now)) end;
  event_id = "";
}

unfoldable pub revoke_session :
    Platform
    → (ℕ → String)
    → ℕ
    → ℕ
    → String
    → String
    → String
    → String
    → String
    → Store
    → Result Error (Unit {0}) × Store
unfolding commit write_audit revoked_write set_revoked
revoke_session lib isoformat now later fresh tenant_id session_id request_id actor store =
    if eqb (count_where (is_live tenant_id session_id) store.sessions) 1
    then commit tt (update_where (is_live tenant_id session_id) (set_revoked now) store.sessions)
        (write_audit lib (isoformat later) fresh tenant_id
          (revoked_write isoformat now session_id request_id actor) store.ledger)
        store
    else (err session_not_found, store)
