-- ===== src/Limits/Failures.antt =====
-- The limit on failed authentications in backend/agency_runtime/persistence.py: the failures of a
-- bucket in a window.
use ai_native_content_agency.Prelude.{
  ℕ, suc, String, Bool, ◌≤◌, ◌≡◌, refl, List, [], ◌∷◌, ◌++◌, ◌==◌, arith, eq_iff, inl, inr, ◌∙◌, ap,
}
use ai_native_content_agency.Prelude.Tests.{leb, Bool-cases}
use ai_native_content_agency.Prelude.Tables.{length, count_where, select_where, count-append}
use ai_native_content_agency.Prelude.Results.{
  Result, ok, err, ◌>>◌, raise_if, guarded, Result-cases,
}
use ai_native_content_agency.Limits.{
  Limit, Failure, Error, rate_limited, sort_limits, is_bucket, is_kept, is_recent, retry_after,
  oldest, check_limits, failures_at, settle_failures, check_failure_limits,
  record_authentication_failure,
}
use ai_native_content_agency.Limits.Quota.{count-sort_limits, allows_more}

length-select :
    {A : Type 0} (p : A → Bool) (xs : List A) → length (select_where p xs) ≡ count_where p xs
unfolding select_where count_where
length-select p [] = refl
length-select p (x ∷ xs) = ground (arith, length-select p xs)

module _ (now window : ℕ) (bucket_hash : String) where
  -- The rows of the window are those that the DELETE keeps.
  count-kept :
      (failures : List Failure)
      → count_where (is_recent now window bucket_hash) (select_where (is_kept now window) failures)
        ≡ count_where (is_recent now window bucket_hash) failures
  unfolding count_where select_where is_kept
  count-kept [] = refl
  count-kept (failure ∷ failures) = ground (arith, count-kept failures)

  -- Each pair of the bucket is one more row of the window.
  count-failures_at :
      (limits : List Limit)
      → count_where (is_recent now window bucket_hash) (failures_at now limits)
        ≡ count_where (is_bucket bucket_hash) limits
  unfolding count_where failures_at
  count-failures_at [] = refl
  count-failures_at (limit ∷ limits) = ground (arith, count-failures_at limits)

  passed-below :
      (limit : Limit) (failures : List Failure) (rest : Result Error (Unit {0}))
      → limit.bucket_hash ≡ bucket_hash
      → (let rows = select_where (is_recent now window limit.bucket_hash) failures in
          raise_if
            (leb limit.most (length rows))
            (rate_limited (retry_after (oldest rows) window now))
          >> rest)
        ≡ ok tt
      → suc (count_where (is_recent now window bucket_hash) failures) ≤ limit.most
  passed-below limit failures rest same passed = ground (
    arith,
    passed,
    length-select (is_recent now window limit.bucket_hash) failures,
    ap (λ (b : String). count_where (is_recent now window b) failures) same,
  )

  -- A check that passes has found less than the limit of each pair of the bucket.
  check-below :
      (most : ℕ) (limits : List Limit) (failures : List Failure)
      → check_limits now window limits failures ≡ ok tt
      → count_where (allows_more bucket_hash most) limits ≡ 0
      → 1 ≤ count_where (is_bucket bucket_hash) limits
      → suc (count_where (is_recent now window bucket_hash) failures) ≤ most
  unfolding count_where check_limits
  check-below most [] failures passed fine named = ground arith
  check-below most (limit ∷ limits) failures passed fine named =
      elim (Bool-cases (limit.bucket_hash == bucket_hash)) [
        | inl hit ↦
            let same : limit.bucket_hash ≡ bucket_hash =
              ground (arith, eq_iff limit.bucket_hash bucket_hash) in
            ground (
              arith,
              passed-below limit failures (check_limits now window limits failures) same passed,
            )
        | inr miss ↦ check-below most limits failures (ground arith) (ground arith) (ground arith)
      ]

  settle-ok :
      (r : Result Error (Unit {0})) (table table' : List Failure)
      → (settle_failures r table table').0 ≡ ok tt
      → (r ≡ ok tt) × ((settle_failures r table table').1 ≡ table')
  unfolding settle_failures
  settle-ok (ok _) table table' h = (refl, refl)
  settle-ok (err e) table table' h = absurd (cc)

  -- A failure that is recorded without a refusal, and that names a bucket in exactly one pair,
  -- whose limit is at most a number, adds one failure of the bucket to the window and leaves at
  -- most that number of them there.
  pub record_failure-bound :
      (most : ℕ) (limits : List Limit) (table : List Failure)
      → (record_authentication_failure now limits window table).0 ≡ ok tt
      → count_where (is_bucket bucket_hash) limits ≡ 1
      → count_where (allows_more bucket_hash most) limits ≡ 0
      → let later = (record_authentication_failure now limits window table).1 in
        (count_where (is_recent now window bucket_hash) later
          ≡ suc (count_where (is_recent now window bucket_hash) table))
        × (count_where (is_recent now window bucket_hash) later ≤ most)
  unfolding record_authentication_failure guarded
  record_failure-bound most limits table recorded once fine =
      let kept = select_where (is_kept now window) table in
      let sorted = sort_limits limits in
      let added = kept ++ failures_at now sorted in
      let counted : count_where (is_recent now window bucket_hash) added
          ≡ suc (count_where (is_recent now window bucket_hash) table) =
        omega (
          arith,
          count-append (is_recent now window bucket_hash) kept (failures_at now sorted),
          count-kept table,
          count-failures_at sorted,
          count-sort_limits (is_bucket bucket_hash) limits,
          once,
        ) in
      elim (Result-cases (check_failure_limits limits window)) [
        | inr (e, bad) ↦ absurd (cc (rw bad at recorded))
        | inl (_, good) ↦
            let settled =
              settle-ok (check_limits now window sorted kept) table added (rw good at recorded) in
            let below =
              check-below most sorted kept settled.0
                (count-sort_limits (allows_more bucket_hash most) limits ∙ fine)
                (omega (arith, count-sort_limits (is_bucket bucket_hash) limits, once)) in
            rw (good, settled.1) (counted, omega (arith, counted, count-kept table, below))
      ]
