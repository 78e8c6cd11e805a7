-- ===== src/Gateway/RateLimiter/Cleanup.antt =====
-- sdks/typescript/src/gateway/rate-limiter.ts: `cleanup` and the requests after it.
use neural_mesh_protocol.Prelude.{
  ℕ, ◌≤◌, String, ◌≡◌, refl, ap, ◌∙◌, not, Option, none, some, arith,
}
use neural_mesh_protocol.Prelude.Assoc.{
  lookup, insert-IsUnique, IsUnique, keep, lookup-filter_values, filter_values-IsUnique,
}
use neural_mesh_protocol.Gateway.RateLimiter.{
  WindowRecord, InMemoryRateLimiter, is_expired, check, check_record, cleanup,
}

abbrev pub IsValid : InMemoryRateLimiter → Type 0
IsValid l = IsUnique l.records

pub check-IsValid :
    (now : ℕ) (key : String) (l : InMemoryRateLimiter) → IsValid l → IsValid (check now key l).1
unfolding check
check-IsValid now key l v = grind (arith, insert-IsUnique)

pub cleanup-IsValid : (now : ℕ) (l : InMemoryRateLimiter) → IsValid l → IsValid (cleanup now l)
unfolding cleanup
cleanup-IsValid now l v = filter_values-IsUnique (λ r. not (is_expired now r)) l.records v

-- The status depends on the limits and on the client's own record, and a record that `cleanup`
-- removes counts as none later on.
status-keep :
    (now later : ℕ) (key : String) (l : InMemoryRateLimiter) (o : Option WindowRecord)
    → now ≤ later
    → (check_record later key (cleanup now l) (keep (λ r. not (is_expired now r)) o)).0
      ≡ (check_record later key l o).0
unfolding check cleanup
status-keep now later key l none h = refl
status-keep now later key l (some r) h = ground arith

-- In a limiter that holds each key once, a cleanup at `now` changes the answer to no request at
-- that time or later, of any client.
pub check-cleanup :
    (now later : ℕ) (key : String) (l : InMemoryRateLimiter)
    → IsValid l
    → now ≤ later
    → (check later key (cleanup now l)).0 ≡ (check later key l).0
check-cleanup now later key l v h =
    let kept : lookup key (cleanup now l).records
        ≡ keep (λ r. not (is_expired now r)) (lookup key l.records) =
      unfold cleanup in lookup-filter_values (λ r. not (is_expired now r)) key l.records v in
    unfold check in
    (ap (λ o. (check_record later key (cleanup now l) o).0) kept
      ∙ status-keep now later key l (lookup key l.records) h)
