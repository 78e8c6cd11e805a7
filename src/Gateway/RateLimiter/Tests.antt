-- ===== src/Gateway/RateLimiter/Tests.antt =====
-- sdks/typescript/src/gateway/rate-limiter.ts on concrete requests.
use neural_mesh_protocol.Prelude.{ℕ, ◌≡◌, refl, true, false, [], ◌∷◌, arith, str_eq_iff}
use neural_mesh_protocol.Prelude.Int.{pos}
use neural_mesh_protocol.Prelude.Assoc.{lookup, insert, filter_values}
use neural_mesh_protocol.Gateway.RateLimiter.{InMemoryRateLimiter, create, check, cleanup}
use neural_mesh_protocol.Gateway.RateLimiter.Window.{
  IsFresh, serve, serve_quota, double_burst, check-lookup_ne,
}
use neural_mesh_protocol.Gateway.RateLimiter.Cleanup.{check-cleanup}

limiter : Unit {0}
unfolding create check cleanup lookup insert filter_values serve
limiter = tt

abbrev two_per_second : InMemoryRateLimiter
two_per_second = record { window_ms = 1000; max_requests = 2; records = []; cleanup_timer = true }

third_blocked :
    ((serve "ip" (5 ∷ 9 ∷ 1004 ∷ 1005 ∷ []) two_per_second).0 ≡ 3)
    × ((check 7 "ip" (check 6 "ip" (check 5 "ip" two_per_second).1).1).0
        ≡ record { allowed = false; remaining = pos 0; limit = 2; reset_ms = 998 })
unfolding limiter
third_blocked = (refl, refl)

-- No window was opened yet.
two_per_second-IsFresh : (now : ℕ) → IsFresh now "ip" two_per_second
unfolding limiter
two_per_second-IsFresh now r known = grind (arith, known)

serve_quota_example : (serve "ip" (5 ∷ 9 ∷ 1004 ∷ []) two_per_second).0 ≡ 2
serve_quota_example =
    serve_quota "ip" 5 (9 ∷ 1004 ∷ []) two_per_second (two_per_second-IsFresh 5)
      (omega arith, (omega arith, tt))

cleanup_keeps_answer :
    (check 2000 "ip" (cleanup 1500 (check 5 "ip" two_per_second).1)).0
    ≡ (check 2000 "ip" (check 5 "ip" two_per_second).1).0
unfolding limiter
cleanup_keeps_answer =
    check-cleanup 1500 2000 "ip" (check 5 "ip" two_per_second).1 (refl, tt) (omega arith)

other_clients :
    lookup "b" (check 5 "a" two_per_second).1.records ≡ lookup "b" two_per_second.records
other_clients = check-lookup_ne 5 "a" "b" two_per_second (ground (arith, str_eq_iff "a" "b"))

double_burst_example : (serve "ip" (5 ∷ 1004 ∷ 1005 ∷ 1005 ∷ []) two_per_second).0 ≡ 4
unfolding limiter
double_burst_example =
    double_burst "ip" 5 two_per_second (two_per_second-IsFresh 5) (omega arith) (omega arith)
