-- ===== src/Sessions/Lifecycle.antt =====
-- The life of a browser session in backend/agency_runtime/persistence.py: what its token and its CSRF
-- token open, and when they stop.
use ai_native_content_agency.Prelude.{
  ℕ, String, ◌+◌, ◌≡◌, refl, true, false, ◌||◌, some, List, [], ◌∷◌, ◌++◌, arith, ◌==◌, eq_iff,
  eq_refl, inl, inr, ap, ◌∙◌,
}
use ai_native_content_agency.Prelude.Tests.{ltb, leb, if◌then◌else◌, Bool-cases}
use ai_native_content_agency.Prelude.Tables.{
  find_where, count_where, update_where, find-update, find-append_new, find_some-test,
}
use ai_native_content_agency.Prelude.Text.{is_empty}
use ai_native_content_agency.Prelude.Results.{Result, ok, err, guarded}
use ai_native_content_agency.Json.{Platform}
use ai_native_content_agency.Audit.{Ledger, Error as AuditError}
use ai_native_content_agency.Sessions.{
  Session, SessionIssue, Store, Draw, Request, revoked_session, expired_session, csrf_invalid,
  has_token, has_session_id, commit, write_audit, token_hash, new_session, created_write, issue,
  insert_session, create_session, is_set, session_record, check_session, authenticate_session,
  check_active, set_csrf, rotate_found, rotate_session_csrf, verify_session_csrf, is_live,
  set_revoked, revoked_write, revoke_session,
}

commit-ok :
    {A : Type 0} (value : A) (sessions : List Session) (r : Result AuditError (Unit {0}) × Ledger)
    (store : Store) {a : A}
    → (commit value sessions r store).0 ≡ ok a
    → ((commit value sessions r store).1.sessions ≡ sessions) × (value ≡ a)
unfolding commit
commit-ok value sessions (ok _, ledger) store h = (refl, ground arith)
commit-ok value sessions (err e, ledger) store h = absurd (cc)

insert-ok :
    (lib : Platform) (isoformat : ℕ → String) (later : ℕ) (draw : Draw) (request : Request)
    (session : Session) (store : Store) {issued : SessionIssue}
    → (insert_session lib isoformat later draw request session store).0 ≡ ok issued
    → (count_where (has_token session.session_token_hash) store.sessions ≡ 0)
      × ((insert_session lib isoformat later draw request session store).1.sessions
          ≡ store.sessions ++ session ∷ [])
unfolding insert_session
insert-ok lib isoformat later draw request session store {issued} h = ground (
  arith,
  commit-ok (issue session draw.session_token draw.csrf_token) (store.sessions ++ session ∷ [])
      (write_audit lib (isoformat later) draw.event_id session.tenant_id
        (created_write isoformat request session) store.ledger)
      store {a = issued},
)

create-ok :
    (lib : Platform) (isoformat : ℕ → String) (now later : ℕ) (draw : Draw) (request : Request)
    (store : Store) {issued : SessionIssue}
    → (create_session lib isoformat now later draw request store).0 ≡ ok issued
    → find_where
        (has_token (token_hash lib draw.session_token))
        (create_session lib isoformat now later draw request store).1.sessions
      ≡ some (new_session lib now draw request)
unfolding create_session guarded new_session
create-ok lib isoformat now later draw request store {issued} h =
    let session = new_session lib now draw request in
    elim (Bool-cases (ltb request.ttl_seconds 300 || ltb 86400 request.ttl_seconds)) [
      | inl bad ↦ absurd (cc (rw bad at h))
      | inr fine ↦
          let inserted =
            insert-ok lib isoformat later draw request session store {issued = issued}
              (rw fine at h) in
          rw fine (
            ap
              (λ (xs : List Session). find_where (has_token (token_hash lib draw.session_token)) xs)
              inserted.1
            ∙ find-append_new (has_token (token_hash lib draw.session_token)) store.sessions session
                inserted.0 (eq_refl (token_hash lib draw.session_token)))
    ]

revoke-ok :
    (lib : Platform) (isoformat : ℕ → String) (now later : ℕ)
    (fresh tenant_id session_id request_id actor : String) (store : Store)
    → (revoke_session lib isoformat now later fresh tenant_id session_id request_id actor store).0
      ≡ ok tt
    → (revoke_session lib isoformat now later fresh tenant_id session_id request_id actor
        store).1.sessions
      ≡ update_where (is_live tenant_id session_id) (set_revoked now) store.sessions
unfolding revoke_session
revoke-ok lib isoformat now later fresh tenant_id session_id request_id actor store h = ground (
  arith,
  commit-ok tt (update_where (is_live tenant_id session_id) (set_revoked now) store.sessions)
      (write_audit lib (isoformat later) fresh tenant_id
        (revoked_write isoformat now session_id request_id actor) store.ledger)
      store {a = tt},
)

check_session_lem :
    (t : ℕ) (session : Session)
    → check_session t session.session_token_hash (some session) ≡ (
        if is_set session.revoked_at
        then err revoked_session
        else if leb session.expires_at t
        then err expired_session
        else ok (session_record session))
unfolding check_session
check_session_lem t session = ground (arith, eq_refl session.session_token_hash)

-- In the store that a successful creation leaves, the session's token, which is not empty, is
-- accepted with the session's record at every time before its end, and refused as expired from then
-- on.
pub authenticate-create :
    (lib : Platform) (isoformat : ℕ → String) (now later t : ℕ) (draw : Draw) (request : Request)
    (store : Store) {issued : SessionIssue}
    → is_empty draw.session_token ≡ false
    → (create_session lib isoformat now later draw request store).0 ≡ ok issued
    → authenticate_session lib t draw.session_token
        (create_session lib isoformat now later draw request store).1
      ≡ (if leb (now + request.ttl_seconds) t
          then err expired_session
          else ok (session_record (new_session lib now draw request)))
unfolding authenticate_session new_session
authenticate-create lib isoformat now later t draw request store {issued} token h =
    rw (token, create-ok lib isoformat now later draw request store {issued = issued} h)
      (check_session_lem t (new_session lib now draw request))

-- When a token that is not empty finds a session, and a revocation of that session succeeds, the
-- token is refused as revoked at every time.
pub authenticate-revoke :
    (lib : Platform) (isoformat : ℕ → String) (now later t : ℕ)
    (fresh tenant_id session_id request_id actor token : String) (session : Session) (store : Store)
    → is_empty token ≡ false
    → find_where (has_token (token_hash lib token)) store.sessions ≡ some session
    → is_live tenant_id session_id session ≡ true
    → (revoke_session lib isoformat now later fresh tenant_id session_id request_id actor store).0
      ≡ ok tt
    → authenticate_session lib t token
        (revoke_session lib isoformat now later fresh tenant_id session_id request_id actor store).1
      ≡ err revoked_session
unfolding authenticate_session set_revoked check_session
authenticate-revoke lib isoformat now later t fresh tenant_id session_id request_id actor token
      session store full found live h =
    let hash = token_hash lib token in
    let kept =
      find-update (has_token hash) (is_live tenant_id session_id) (set_revoked now) store.sessions
        (λ x h. refl) in
    rw
      (
        full,
        revoke-ok lib isoformat now later fresh tenant_id session_id request_id actor store h,
        kept,
        found,
        live,
      )
      (ground (
        arith,
        eq_iff hash session.session_token_hash,
        eq_iff session.session_token_hash hash,
        find_some-test (has_token hash) store.sessions {x = session} found,
      ))

-- After a rotation of the CSRF token of an active session, at every time before the session's end
-- the new token passes, and any other token passes exactly if it has the same digest; no token is
-- empty.
pub verify-rotate :
    (lib : Platform) (now t : ℕ) (csrf_token other session_id : String) (session : Session)
    (store : Store)
    → is_empty csrf_token ≡ false
    → is_empty other ≡ false
    → find_where (has_session_id session_id) store.sessions ≡ some session
    → check_active now (some session) ≡ ok session
    → leb session.expires_at t ≡ false
    → let later = (rotate_session_csrf lib now csrf_token session_id store).1 in
      (verify_session_csrf lib t session_id csrf_token later ≡ ok tt)
      × (verify_session_csrf lib t session_id other later
          ≡ (if token_hash lib other == token_hash lib csrf_token then ok tt else err csrf_invalid))
unfolding rotate_session_csrf rotate_found verify_session_csrf set_csrf check_active
verify-rotate lib now t csrf_token other session_id session store full full_other found active
      before =
    let kept =
      find-update (has_session_id session_id) (has_session_id session_id)
        (set_csrf (token_hash lib csrf_token)) store.sessions (λ x h. refl) in
    let hit = find_some-test (has_session_id session_id) store.sessions {x = session} found in
    let same = eq_refl (token_hash lib csrf_token) in
    rw (found, active, kept, found, hit) (ground (arith, full, full_other, same, before))
