-- ===== src/Auth/Access.antt =====
-- backend/agency_runtime/auth.py: the principal of a bearer key and of a session.
use ai_native_content_agency.Prelude.{
  String, Bool, ◌&&◌, ◌||◌, Option, none, some, List, [], ◌∷◌, ◌==◌,
}
use ai_native_content_agency.Prelude.Tests.{eqb, if◌then◌else◌}
use ai_native_content_agency.Prelude.Tables.{length}
use ai_native_content_agency.Prelude.Text.{codes}
use ai_native_content_agency.Prelude.Results.{Result, ok, err}
use ai_native_content_agency.Json.{Platform, take_text}
use ai_native_content_agency.Auth.{
  Error, invalid_credential, session_inactive, Principal, Entry, principal_of,
}
use ai_native_content_agency.Auth.Configuration.{has_digest, has_key}

-- `for entry in self._entries: if test: matched = entry`
unfoldable pub last_where : (Entry → Bool) → List Entry → Option Entry
last_where test [] = none
last_where test (entry ∷ rest) = elim (last_where test rest) [
  | some matched ↦ some matched
  | none ↦ if test entry then some entry else none
]

-- `authenticate`
unfoldable pub authenticate : Platform → String → List Entry → Result Error Principal
unfolding last_where principal_of
authenticate lib api_key entries = elim (last_where (has_digest (lib.sha256 api_key)) entries) [
  | none ↦ err invalid_credential
  | some entry ↦ ok (principal_of "bearer" "" entry)
]

-- The two matches of a session's fingerprint: in full, or by the sixteen characters that older
-- sessions hold.
unfoldable pub has_fingerprint : String → Entry → Bool
unfolding take_text
has_fingerprint fingerprint entry =
    entry.digest == fingerprint
    || eqb (length (codes fingerprint)) 16 && take_text 16 entry.digest == fingerprint

unfoldable pub is_session_entry : String → String → String → String → Entry → Bool
unfolding has_fingerprint
is_session_entry tenant_id subject_id key_id fingerprint entry =
    (has_key tenant_id key_id entry && entry.subject_id == subject_id)
    && has_fingerprint fingerprint entry

-- `resolve_active_session`
unfoldable pub resolve_active_session :
    String → String → String → String → String → List Entry → Result Error Principal
unfolding last_where is_session_entry principal_of
resolve_active_session tenant_id subject_id key_id fingerprint session_id entries =
    elim (last_where (is_session_entry tenant_id subject_id key_id fingerprint) entries) [
      | none ↦ err session_inactive
      | some entry ↦ ok (principal_of "session" session_id entry)
    ]
