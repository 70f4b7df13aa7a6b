-- ===== src/Limits/Quota.antt =====
-- The quota of authenticated requests in backend/agency_runtime/persistence.py: the counter of a
-- bucket.
use ai_native_content_agency.Prelude.{
  ℕ, String, Bool, false, ◌+◌, ◌≤◌, ◌≡◌, refl, ◌&&◌, Option, none, some, List, [], ◌∷◌, ◌==◌, arith,
  inl, inr, ◌∙◌,
}
use ai_native_content_agency.Prelude.Tests.{ltb, if◌then◌else◌, Option-cases}
use ai_native_content_agency.Prelude.Tables.{find_where, count_where, select_where}
use ai_native_content_agency.Prelude.Results.{Result, ok, err, guarded-kept, Result-cases}
use ai_native_content_agency.Limits.{
  Limit, Bucket, Error, insert_limit, sort_limits, of_bucket, is_current, next_bucket, next_buckets,
  upsert_bucket, upsert_buckets, settle_quota, check_quota_limits,
  consume_authenticated_request_quota, quota_count,
}

-- Sorting keeps the pairs.
pub count-insert_limit :
    (p : Limit → Bool) (a : Limit) (limits : List Limit)
    → count_where p (insert_limit a limits) ≡ (if p a then 1 else 0) + count_where p limits
unfolding insert_limit count_where
count-insert_limit p a [] = ground arith
count-insert_limit p a (b ∷ limits) = ground (arith, count-insert_limit p a limits)

pub count-sort_limits :
    (p : Limit → Bool) (limits : List Limit)
    → count_where p (sort_limits limits) ≡ count_where p limits
unfolding sort_limits count_where
count-sort_limits p [] = refl
count-sort_limits p (a ∷ limits) =
    omega (arith, count-insert_limit p a (sort_limits limits), count-sort_limits p limits)

module _ (bucket_hash : String) (most : ℕ) where
  -- A pair that gives the bucket more than `most`, and a row that counts more.
  abbrev pub allows_more : Limit → Bool
  allows_more limit = limit.bucket_hash == bucket_hash && ltb most limit.most

  abbrev pub counts_more : Bucket → Bool
  counts_more row = row.bucket_hash == bucket_hash && ltb most row.request_count

  select-counts :
      (p : Bucket → Bool) (table : List Bucket)
      → count_where counts_more table ≡ 0
      → count_where counts_more (select_where p table) ≡ 0
  unfolding count_where select_where
  select-counts p [] h = refl
  select-counts p (row ∷ table) h = ground (arith, select-counts p table)

  upsert-counts :
      (bucket : Bucket) (table : List Bucket)
      → counts_more bucket ≡ false
      → count_where counts_more table ≡ 0
      → count_where counts_more (upsert_bucket bucket table) ≡ 0
  unfolding count_where upsert_bucket
  upsert-counts bucket [] fine h = ground arith
  upsert-counts bucket (old ∷ table) fine h = ground (arith, upsert-counts bucket table fine)

  upserts-counts :
      (updates table : List Bucket)
      → count_where counts_more updates ≡ 0
      → count_where counts_more table ≡ 0
      → count_where counts_more (upsert_buckets updates table) ≡ 0
  unfolding count_where upsert_buckets
  upserts-counts [] table fine h = h
  upserts-counts (bucket ∷ updates) table fine h =
      upserts-counts updates (upsert_bucket bucket table) (ground arith)
        (upsert-counts bucket table (ground arith) h)

  next-counts :
      (now window : ℕ) (limit : Limit) (found : Option Bucket) {row : Bucket}
      → 1 ≤ most
      → allows_more limit ≡ false
      → next_bucket now window limit found ≡ ok row
      → counts_more row ≡ false
  unfolding next_bucket
  next-counts now window limit none positive fine h = ground arith
  next-counts now window limit (some old) positive fine h = ground arith

  nexts-counts :
      (now window : ℕ) (limits : List Limit) (table : List Bucket) {updates : List Bucket}
      → 1 ≤ most
      → count_where allows_more limits ≡ 0
      → next_buckets now window limits table ≡ ok updates
      → count_where counts_more updates ≡ 0
  unfolding next_buckets count_where
  nexts-counts now window [] table {updates} positive fine h = ground arith
  nexts-counts now window (limit ∷ limits) table {updates} positive fine h =
      elim (Result-cases
        (next_bucket now window limit (find_where (of_bucket limit.bucket_hash) table))) [
          | inr (e, bad) ↦ absurd (cc (rw bad at h))
          | inl (row, good) ↦ elim (Result-cases (next_buckets now window limits table)) [
            | inr (e, bad) ↦ absurd (cc (rw (good, bad) at h))
            | inl (others, done) ↦ ground (
              arith,
              rw (good, done) at h,
              next-counts now window limit (find_where (of_bucket limit.bucket_hash) table)
                  {row = row} positive (ground arith) good,
              nexts-counts now window limits table {updates = others} positive (ground arith) done,
            )
          ]
        ]

  settle-counts :
      (r : Result Error (List Bucket)) (table kept : List Bucket)
      → ((updates : List Bucket) → r ≡ ok updates → count_where counts_more updates ≡ 0)
      → count_where counts_more table ≡ 0
      → count_where counts_more kept ≡ 0
      → count_where counts_more (settle_quota r table kept).1 ≡ 0
  unfolding settle_quota
  settle-counts (ok updates) table kept fine before after =
      upserts-counts updates kept (fine updates refl) after
  settle-counts (err e) table kept fine before after = before

  consume-counts :
      (now window : ℕ) (limits : List Limit) (table : List Bucket)
      → 1 ≤ most
      → count_where allows_more limits ≡ 0
      → count_where counts_more table ≡ 0
      → count_where counts_more (consume_authenticated_request_quota now limits window table).1 ≡ 0
  unfolding consume_authenticated_request_quota
  consume-counts now window limits table positive fine h =
      let kept = select_where (is_current now window) table in
      guarded-kept (check_quota_limits limits window)
        (λ t.
          settle_quota
            (next_buckets now window (sort_limits limits) (select_where (is_current now window) t))
            t (select_where (is_current now window) t))
        table (λ (t : List Bucket). count_where counts_more t ≡ 0) h
        (settle-counts (next_buckets now window (sort_limits limits) kept) table kept
          (λ updates done.
            nexts-counts now window (sort_limits limits) kept {updates = updates} positive
              (count-sort_limits allows_more limits ∙ fine) done)
          h (select-counts (is_current now window) table h))

  found-bound :
      (table : List Bucket) {row : Bucket}
      → count_where counts_more table ≡ 0
      → find_where (of_bucket bucket_hash) table ≡ some row
      → row.request_count ≤ most
  unfolding count_where find_where
  found-bound [] {row} h found = ground arith
  found-bound (other ∷ table) {row} h found = ground (arith, found-bound table {row = row})

  count-bound :
      (table : List Bucket)
      → count_where counts_more table ≡ 0
      → quota_count bucket_hash table ≤ most
  unfolding quota_count
  count-bound table h = elim (Option-cases (find_where (of_bucket bucket_hash) table)) [
    | inl missing ↦ rw missing (omega arith)
    | inr (row, found) ↦ rw found (found-bound table {row = row} h found)
  ]

-- One call of `consume_authenticated_request_quota`.
pub record Call : Type 0 where
  pub now : ℕ
  pub limits : List Limit
  pub window_seconds : ℕ

-- The table after the calls, one after the other.
unfoldable pub consume_all : List Call → List Bucket → List Bucket
unfolding consume_authenticated_request_quota
consume_all [] table = table
consume_all (call ∷ calls) table =
    consume_all calls
      (consume_authenticated_request_quota call.now call.limits call.window_seconds table).1

-- A call that gives the bucket more than `most`.
unfoldable pub over : String → ℕ → Call → Bool
over bucket_hash most call = ltb 0 (count_where (allows_more bucket_hash most) call.limits)

calls-counts :
    (bucket_hash : String) (most : ℕ) (calls : List Call) (table : List Bucket)
    → 1 ≤ most
    → count_where (over bucket_hash most) calls ≡ 0
    → count_where (counts_more bucket_hash most) table ≡ 0
    → count_where (counts_more bucket_hash most) (consume_all calls table) ≡ 0
unfolding consume_all over count_where
calls-counts bucket_hash most [] table positive fine h = h
calls-counts bucket_hash most (call ∷ calls) table positive fine h =
    calls-counts bucket_hash most calls
      (consume_authenticated_request_quota call.now call.limits call.window_seconds table).1
      positive (ground arith)
      (consume-counts bucket_hash most call.now call.window_seconds call.limits table positive
        (ground arith) h)

-- From an empty table, after any sequence of requests at any times whose limits for a bucket are at
-- most a positive number, with any other buckets beside it, the counter of that bucket is at most
-- that number.
pub quota-bound :
    (bucket_hash : String) (most : ℕ) (calls : List Call)
    → 1 ≤ most
    → count_where (over bucket_hash most) calls ≡ 0
    → quota_count bucket_hash (consume_all calls []) ≤ most
unfolding count_where
quota-bound bucket_hash most calls positive fine =
    count-bound bucket_hash most (consume_all calls [])
      (calls-counts bucket_hash most calls [] positive fine refl)
