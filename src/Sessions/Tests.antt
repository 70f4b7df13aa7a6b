-- ===== src/Sessions/Tests.antt =====
-- The theorems on sessions at concrete stores.
use ai_native_content_agency.Prelude.{ℕ, String, ◌≡◌, refl, some, [], ◌∷◌, ◌==◌}
use ai_native_content_agency.Prelude.Tests.{if◌then◌else◌}
use ai_native_content_agency.Prelude.Tables.{find_where, count_where}
use ai_native_content_agency.Prelude.Text.{is_sha256}
use ai_native_content_agency.Prelude.Results.{ok, err}
use ai_native_content_agency.Json.{Platform, dict, end}
use ai_native_content_agency.Audit.{append_audit_locked}
use ai_native_content_agency.Sessions.{
  Session, Store, Draw, Request, revoked_session, csrf_invalid, new_session, session_record,
  create_session, authenticate_session, rotate_session_csrf, verify_session_csrf, revoke_session,
  check_active, write_audit,
}
use ai_native_content_agency.Sessions.Lifecycle.{
  authenticate-create, authenticate-revoke, verify-rotate,
}

abbrev digest_a : String
digest_a = "aaaaaaaaaaaaaaaaaaaaaaaaaaaaaaaaaaaaaaaaaaaaaaaaaaaaaaaaaaaaaaaa"

abbrev digest_b : String
digest_b = "bbbbbbbbbbbbbbbbbbbbbbbbbbbbbbbbbbbbbbbbbbbbbbbbbbbbbbbbbbbbbbbb"

-- One document, and two digests.
abbrev toy : Platform
toy = record {
  dumps = λ v. "{}";
  loads = λ s. some (dict end);
  sha256 = λ s. if s == "csrf-2" then digest_b else digest_a;
}

abbrev iso : ℕ → String
iso t = "2026-01-01T00:00:00+00:00"

abbrev draw : Draw
draw = record {
  session_id = "session-1";
  session_token = "token-1";
  csrf_token = "csrf-1";
  event_id = "audit-1";
}

abbrev request : Request
request = record {
  tenant_id = "acme";
  credential_fingerprint = "fingerprint";
  ttl_seconds = 600;
  request_id = "request-1";
  actor = "subject-1";
  subject_id = "";
  role = "admin";
  key_id = "";
}

abbrev empty_store : Store
empty_store = record { sessions = []; ledger = record { events = []; heads = [] } }

abbrev session : Session
session = new_session toy 1000 draw request

abbrev store : Store
store = record { sessions = session ∷ []; ledger = record { events = []; heads = [] } }

authenticate-create_example :
    authenticate_session toy 1599 "token-1"
      (create_session toy iso 1000 1001 draw request empty_store).1
    ≡ ok (session_record session)
unfolding create_session count_where write_audit append_audit_locked is_sha256 find_where
authenticate-create_example =
    authenticate-create toy iso 1000 1001 1599 draw request empty_store refl refl

authenticate-revoke_example :
    authenticate_session toy 1002 "token-1"
      (revoke_session toy iso 1000 1001 "audit-2" "acme" "session-1" "request-2" "subject-1"
        store).1
    ≡ err revoked_session
unfolding revoke_session new_session find_where count_where is_sha256
authenticate-revoke_example =
    authenticate-revoke toy iso 1000 1001 1002 "audit-2" "acme" "session-1" "request-2" "subject-1"
      "token-1" session store refl refl refl refl

verify-rotate_example :
    let later = (rotate_session_csrf toy 1000 "csrf-2" "session-1" store).1 in
    (verify_session_csrf toy 1002 "session-1" "csrf-2" later ≡ ok tt)
    × (verify_session_csrf toy 1002 "session-1" "csrf-1" later ≡ err csrf_invalid)
unfolding new_session find_where check_active
verify-rotate_example =
    verify-rotate toy 1000 1002 "csrf-2" "csrf-1" "session-1" session store refl refl refl refl refl
