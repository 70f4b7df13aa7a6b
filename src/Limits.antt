-- ===== src/Limits.antt =====
-- The limits on failed authentications and on authenticated requests
-- (backend/agency_runtime/persistence.py). Times are whole seconds, as `utc_now` reads them; a time is
-- before `now - window` when it is `window` seconds and more than that away from `now`, which is
-- written `time + window < now`. What is raised inside a transaction undoes its DELETE.
pub mod Quota
mod Tests
pub mod Failures
use ai_native_content_agency.Prelude.{
  ℕ, suc, String, Bool, true, false, not, ◌+◌, ◌-◌, ◌&&◌, ◌||◌, Option, none, some, List, [], ◌∷◌,
  ◌++◌, ◌==◌,
}
use ai_native_content_agency.Prelude.Tests.{ltb, leb, eqb, if◌then◌else◌}
use ai_native_content_agency.Prelude.Tables.{length, find_where, count_where, select_where}
use ai_native_content_agency.Prelude.Text.{is_empty, leb_str}
use ai_native_content_agency.Prelude.Results.{Result, ok, err, ◌>>=◌, ◌>>◌, raise_if, guarded}

-- A pair of `bucket_limits`.
pub record Limit : Type 0 where
  pub bucket_hash : String
  pub most : ℕ

pub data Error : Type 0 where
  no_buckets blank_bucket repeated_bucket bad_limit bad_window : Error
  rate_limited : ℕ → Error

-- A row of `authentication_failures`.
pub record Failure : Type 0 where
  pub bucket_hash : String
  pub occurred_at : ℕ

-- A row of `authenticated_request_rate_limits`.
pub record Bucket : Type 0 where
  pub bucket_hash : String
  pub window_started_at : ℕ
  pub request_count : ℕ

-- `sorted(bucket_limits)`: Python's order on pairs.
unfoldable pub limit_le : Limit → Limit → Bool
limit_le a b =
    if a.bucket_hash == b.bucket_hash
    then leb a.most b.most
    else leb_str a.bucket_hash b.bucket_hash

unfoldable pub insert_limit : Limit → List Limit → List Limit
insert_limit a [] = a ∷ []
insert_limit a (b ∷ limits) =
    let rest = insert_limit a limits in if limit_le a b then a ∷ b ∷ limits else b ∷ rest

unfoldable pub sort_limits : List Limit → List Limit
unfolding limit_le insert_limit
sort_limits [] = []
sort_limits (a ∷ limits) = insert_limit a (sort_limits limits)

abbrev pub is_zero_limit : Limit → Bool
is_zero_limit limit = ltb limit.most 1

abbrev pub is_blank_limit : Limit → Bool
is_blank_limit limit = is_empty limit.bucket_hash

abbrev pub is_bucket : String → Limit → Bool
is_bucket bucket_hash limit = limit.bucket_hash == bucket_hash

abbrev pub some_where : (Limit → Bool) → List Limit → Bool
some_where p limits = ltb 0 (count_where p limits)

-- `max(1, retry_after_seconds)`
unfoldable pub retry_after : ℕ → ℕ → ℕ → ℕ
retry_after start window now =
    let seconds = start + window - now + 1 in if ltb seconds 1 then 1 else seconds

unfoldable pub check_failure_limits : List Limit → ℕ → Result Error (Unit {0})
check_failure_limits limits window = do
  raise_if (eqb (length limits) 0) no_buckets
  raise_if (some_where is_zero_limit limits) bad_limit
  raise_if (ltb window 1) bad_window

-- DELETE ... WHERE occurred_at < cutoff
unfoldable pub is_kept : ℕ → ℕ → Failure → Bool
is_kept now window failure = not (ltb (failure.occurred_at + window) now)

abbrev pub failed_in : String → Failure → Bool
failed_in bucket_hash failure = failure.bucket_hash == bucket_hash

-- SELECT ... WHERE bucket_hash = ? AND occurred_at >= cutoff
abbrev pub is_recent : ℕ → ℕ → String → Failure → Bool
is_recent now window bucket_hash failure =
    failure.bucket_hash == bucket_hash && not (ltb (failure.occurred_at + window) now)

-- The first of the rows by ORDER BY occurred_at ASC, with `first` before the others.
unfoldable pub earliest : ℕ → List Failure → ℕ
earliest first [] = first
earliest first (failure ∷ failures) =
    earliest (if ltb failure.occurred_at first then failure.occurred_at else first) failures

unfoldable pub oldest : List Failure → ℕ
unfolding earliest
oldest [] = 0
oldest (failure ∷ failures) = earliest failure.occurred_at failures

unfoldable pub check_limits : ℕ → ℕ → List Limit → List Failure → Result Error (Unit {0})
unfolding retry_after oldest
check_limits now window [] failures = ok tt
check_limits now window (limit ∷ limits) failures =
    let rest = check_limits now window limits failures in
    let rows = select_where (is_recent now window limit.bucket_hash) failures in
    raise_if (leb limit.most (length rows)) (rate_limited (retry_after (oldest rows) window now))
    >> rest

-- The end of the transaction: the table with its DELETE and `added`, or as it was.
unfoldable pub settle_failures :
    Result Error (Unit {0}) → List Failure → List Failure → Result Error (Unit {0}) × List Failure
settle_failures (ok _) table table' = (ok tt, table')
settle_failures (err e) table table' = (err e, table)

unfoldable pub enforce_authentication_rate_limit :
    ℕ → List Limit → ℕ → List Failure → Result Error (Unit {0}) × List Failure
unfolding guarded settle_failures check_failure_limits check_limits
enforce_authentication_rate_limit now limits window =
    guarded (check_failure_limits limits window) (λ table.
      settle_failures (check_limits now window limits (select_where (is_kept now window) table))
        table (select_where (is_kept now window) table))

unfoldable pub failures_at : ℕ → List Limit → List Failure
failures_at now [] = []
failures_at now (limit ∷ limits) =
    record { bucket_hash = limit.bucket_hash; occurred_at = now } ∷ failures_at now limits

unfoldable pub record_authentication_failure :
    ℕ → List Limit → ℕ → List Failure → Result Error (Unit {0}) × List Failure
unfolding guarded settle_failures check_failure_limits check_limits failures_at sort_limits
record_authentication_failure now limits window =
    guarded (check_failure_limits limits window) (λ table.
      settle_failures
        (check_limits now window (sort_limits limits) (select_where (is_kept now window) table))
        table (select_where (is_kept now window) table ++ failures_at now (sort_limits limits)))

-- A bucket hash stands twice among the pairs.
unfoldable pub has_repeat : List Limit → Bool
has_repeat [] = false
has_repeat (limit ∷ limits) = some_where (is_bucket limit.bucket_hash) limits || has_repeat limits

unfoldable pub check_quota_limits : List Limit → ℕ → Result Error (Unit {0})
unfolding has_repeat
check_quota_limits limits window = do
  raise_if (eqb (length limits) 0) no_buckets
  raise_if (some_where is_blank_limit limits) blank_bucket
  raise_if (has_repeat limits) repeated_bucket
  raise_if (some_where is_zero_limit limits) bad_limit
  raise_if (ltb window 1) bad_window

abbrev pub of_bucket : String → Bucket → Bool
of_bucket bucket_hash bucket = bucket.bucket_hash == bucket_hash

-- DELETE ... WHERE window_started_at < cutoff
unfoldable pub is_current : ℕ → ℕ → Bucket → Bool
is_current now window bucket = not (ltb (bucket.window_started_at + window) now)

-- The round of the loop for one bucket: the row to write, or the limit.
unfoldable pub next_bucket : ℕ → ℕ → Limit → Option Bucket → Result Error Bucket
unfolding retry_after
next_bucket now window limit none =
    ok (record { bucket_hash = limit.bucket_hash; window_started_at = now; request_count = 1 })
next_bucket now window limit (some row) =
    if leb (row.window_started_at + window) now
    then ok (record { bucket_hash = limit.bucket_hash; window_started_at = now; request_count = 1 })
    else if leb limit.most row.request_count
    then err (rate_limited (retry_after row.window_started_at window now))
    else ok (record {
      bucket_hash = limit.bucket_hash;
      window_started_at = row.window_started_at;
      request_count = row.request_count + 1;
    })

unfoldable pub next_buckets : ℕ → ℕ → List Limit → List Bucket → Result Error (List Bucket)
unfolding next_bucket
next_buckets now window [] table = ok []
next_buckets now window (limit ∷ limits) table = do
  updated ← next_bucket now window limit (find_where (of_bucket limit.bucket_hash) table)
  others ← next_buckets now window limits table
  ok (updated ∷ others)

-- INSERT ... ON CONFLICT(bucket_hash) DO UPDATE
unfoldable pub upsert_bucket : Bucket → List Bucket → List Bucket
upsert_bucket bucket [] = bucket ∷ []
upsert_bucket bucket (old ∷ table) =
    let rest = upsert_bucket bucket table in
    if old.bucket_hash == bucket.bucket_hash then bucket ∷ table else old ∷ rest

unfoldable pub upsert_buckets : List Bucket → List Bucket → List Bucket
unfolding upsert_bucket
upsert_buckets [] table = table
upsert_buckets (bucket ∷ updates) table = upsert_buckets updates (upsert_bucket bucket table)

unfoldable pub settle_quota :
    Result Error (List Bucket) → List Bucket → List Bucket → Result Error (Unit {0}) × List Bucket
unfolding upsert_buckets
settle_quota (ok updates) table kept = (ok tt, upsert_buckets updates kept)
settle_quota (err e) table kept = (err e, table)

unfoldable pub consume_authenticated_request_quota :
    ℕ → List Limit → ℕ → List Bucket → Result Error (Unit {0}) × List Bucket
unfolding guarded settle_quota check_quota_limits next_buckets is_current sort_limits
consume_authenticated_request_quota now limits window =
    guarded (check_quota_limits limits window) (λ table.
      settle_quota
        (next_buckets now window (sort_limits limits) (select_where (is_current now window) table))
        table (select_where (is_current now window) table))

unfoldable pub count_of : Option Bucket → ℕ
count_of none = 0
count_of (some row) = row.request_count

-- `authenticated_request_quota_count`
unfoldable pub quota_count : String → List Bucket → ℕ
unfolding count_of
quota_count bucket_hash table = count_of (find_where (of_bucket bucket_hash) table)
