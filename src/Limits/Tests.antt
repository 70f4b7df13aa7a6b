-- ===== src/Limits/Tests.antt =====
-- The theorems on the limits at concrete tables.
use ai_native_content_agency.Prelude.{suc, ◌≤◌, ◌≡◌, refl, List, [], ◌∷◌, arith}
use ai_native_content_agency.Prelude.Tables.{count_where, select_where}
use ai_native_content_agency.Prelude.Text.{leb_str}
use ai_native_content_agency.Limits.{
  Limit, Failure, is_kept, is_recent, record_authentication_failure, quota_count,
}
use ai_native_content_agency.Limits.Quota.{Call, over, consume_all, quota-bound}
use ai_native_content_agency.Limits.Failures.{record_failure-bound}

abbrev limits : List Limit
limits =
    record { bucket_hash = "tenant"; most = 2 } ∷ record { bucket_hash = "address"; most = 5 } ∷ []

abbrev calls : List Call
calls =
    record { now = 1000; limits = limits; window_seconds = 60 }
    ∷ record { now = 1001; limits = limits; window_seconds = 60 }
    ∷ record { now = 1002; limits = limits; window_seconds = 60 }
    ∷ []

abbrev failures : List Failure
failures =
    record { bucket_hash = "tenant"; occurred_at = 900 }
    ∷ record { bucket_hash = "tenant"; occurred_at = 999 }
    ∷ []

quota-bound_example : quota_count "tenant" (consume_all calls []) ≤ 2
unfolding over count_where
quota-bound_example = quota-bound "tenant" 2 calls (omega arith) refl

record_failure-bound_example :
    let later = (record_authentication_failure 1000 limits 60 failures).1 in
    (count_where (is_recent 1000 60 "tenant") later
      ≡ suc (count_where (is_recent 1000 60 "tenant") failures))
    × (count_where (is_recent 1000 60 "tenant") later ≤ 2)
unfolding record_authentication_failure count_where select_where leb_str is_kept
record_failure-bound_example =
    record_failure-bound 1000 60 "tenant" 2 limits failures refl refl refl
