-- ===== src/Auth/Resolution.antt =====
-- backend/agency_runtime/auth.py: a session resolves to the identity of the key that it was made with.
use ai_native_content_agency.Prelude.{
  String, true, ◌≡◌, refl, sym, ◌∙◌, none, some, List, inl, inr, eq_refl,
}
use ai_native_content_agency.Prelude.Tests.{Option-cases, and_left}
use ai_native_content_agency.Prelude.Results.{Result, ok, err}
use ai_native_content_agency.Json.{Platform, Fields}
use ai_native_content_agency.Auth.{Error, invalid_credential, Principal, Entry, principal_of}
use ai_native_content_agency.Auth.Configuration.{has_digest, has_key, configure}
use ai_native_content_agency.Auth.Access.{
  last_where, authenticate, has_fingerprint, is_session_entry, resolve_active_session,
}
use ai_native_content_agency.Auth.Consistency.{configure-IsConsistent, last_where_unique}

module _ (lib : Platform) where
  authenticate_found :
      (api_key : String) (entries : List Entry) (entry : Entry)
      → last_where (has_digest (lib.sha256 api_key)) entries ≡ some entry
      → authenticate lib api_key entries ≡ ok (principal_of "bearer" "" entry)
  unfolding authenticate
  authenticate_found api_key entries entry h = rw (h, authenticate) refl

  authenticate_missing :
      (api_key : String) (entries : List Entry)
      → last_where (has_digest (lib.sha256 api_key)) entries ≡ none
      → authenticate lib api_key entries ≡ err invalid_credential
  unfolding authenticate
  authenticate_missing api_key entries h = rw (h, authenticate) refl

session_entry_self :
    (entry : Entry)
    → is_session_entry entry.tenant_id entry.subject_id entry.key_id entry.digest entry ≡ true
unfolding is_session_entry has_fingerprint
session_entry_self entry =
    rw
      (
        eq_refl entry.tenant_id,
        eq_refl entry.subject_id,
        eq_refl entry.key_id,
        eq_refl entry.digest,
      )
      refl

session_entry_key :
    (tenant_id subject_id key_id fingerprint : String) (entry : Entry)
    → is_session_entry tenant_id subject_id key_id fingerprint entry ≡ true
    → has_key tenant_id key_id entry ≡ true
unfolding is_session_entry
session_entry_key tenant_id subject_id key_id fingerprint entry h = and_left _ _ (and_left _ _ h)

resolve_found :
    (tenant_id subject_id key_id fingerprint session_id : String) (entries : List Entry)
    (entry : Entry)
    → last_where (is_session_entry tenant_id subject_id key_id fingerprint) entries ≡ some entry
    → resolve_active_session tenant_id subject_id key_id fingerprint session_id entries
      ≡ ok (principal_of "session" session_id entry)
unfolding resolve_active_session
resolve_found tenant_id subject_id key_id fingerprint session_id entries entry h =
    rw (h, resolve_active_session) refl

not_both :
    (r : Result Error Principal) {principal : Principal} {e : Error}
    → r ≡ err e
    → r ≡ ok principal
    → ⊥
not_both r h k = cc

ok_same : {a b : Principal} → ◌≡◌ {A = Result Error Principal} (ok a) (ok b) → a ≡ b
ok_same h = cc

-- With an accepted configuration, a session that holds the tenant, the subject, the key identifier
-- and the fingerprint of a principal that a bearer key has authenticated resolves to the same
-- principal, its method and its session apart.
pub resolve-authenticate :
    (lib : Platform) (lower : String → String) (legacy : List (String × String))
    (raws : List Fields) (api_key session_id : String) (entries : List Entry)
    (principal : Principal)
    → configure lib lower legacy raws ≡ ok entries
    → authenticate lib api_key entries ≡ ok principal
    → resolve_active_session principal.tenant_id principal.subject_id principal.key_id
        principal.credential_fingerprint session_id entries
      ≡ ok (record principal { auth_method = "session"; session_id = session_id })
unfolding principal_of
resolve-authenticate lib lower legacy raws api_key session_id entries principal made passed =
    elim (Option-cases (last_where (has_digest (lib.sha256 api_key)) entries)) [
      | inl missing ↦ absurd (not_both _ (authenticate_missing lib api_key entries missing) passed)
      | inr (entry, found) ↦
          let same : principal_of "bearer" "" entry ≡ principal =
            ok_same (sym (authenticate_found lib api_key entries entry found) ∙ passed) in
          rw (sym same) (
            resolve_found entry.tenant_id entry.subject_id entry.key_id entry.digest session_id
              entries entry
              (last_where_unique (has_digest (lib.sha256 api_key))
                (is_session_entry entry.tenant_id entry.subject_id entry.key_id entry.digest)
                (has_key entry.tenant_id entry.key_id) entries entry
                (session_entry_key entry.tenant_id entry.subject_id entry.key_id entry.digest)
                ((configure-IsConsistent lib lower legacy raws made).one_key entry.tenant_id
                  entry.key_id)
                found (session_entry_self entry)))
    ]
