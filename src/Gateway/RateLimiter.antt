-- ===== src/Gateway/RateLimiter.antt =====
-- sdks/typescript/src/gateway/rate-limiter.ts: the in-memory limiter of the gateway, one window for each client key.
-- The clock (`Date.now()`) is an argument. The timer that calls `cleanup` is kept as a flag.
pub mod Window
pub mod Cleanup
mod Tests
use neural_mesh_protocol.Prelude.{
  ℕ, ◌+◌, ◌-◌, String, Bool, true, false, not, Option, none, some, [], leb, if◌then◌else◌,
}
use neural_mesh_protocol.Prelude.Int.{ℤ, pos, sub_ℕ}
use neural_mesh_protocol.Prelude.Assoc.{Assoc, lookup, insert, remove, filter_values}

pub record WindowRecord : Type 0 where
  pub count : ℕ
  pub reset_time : ℕ

pub record RateLimitStatus : Type 0 where
  pub allowed : Bool
  pub remaining : ℤ
  pub limit : ℕ
  pub reset_ms : ℕ

pub record InMemoryRateLimiter : Type 0 where
  pub window_ms : ℕ
  pub max_requests : ℕ
  pub records : Assoc WindowRecord
  pub cleanup_timer : Bool

or_default : Option ℕ → ℕ → ℕ
or_default none d = d
or_default (some n) d = n

-- the constructor; its timer runs `cleanup` every 30 s
unfoldable pub create : (window_ms max_requests : Option ℕ) → InMemoryRateLimiter
unfolding or_default
create window_ms max_requests = record {
  window_ms = or_default window_ms 60000;
  max_requests = or_default max_requests 120;
  records = [];
  cleanup_timer = true;
}

-- `now >= record.resetTime`
abbrev pub is_expired : ℕ → WindowRecord → Bool
is_expired now r = leb r.reset_time now

-- `!record || now >= record.resetTime`: a new window opens with this request.
open_window : ℕ → String → InMemoryRateLimiter → RateLimitStatus × InMemoryRateLimiter
open_window now key l = (
  record {
    allowed = true;
    remaining = sub_ℕ l.max_requests 1;
    limit = l.max_requests;
    reset_ms = l.window_ms;
  },
  record l {
    records = insert key (record { count = 1; reset_time = now + l.window_ms }) l.records;
  },
)

-- The request falls into the window that `r` records.
count_in_window :
    ℕ → String → InMemoryRateLimiter → WindowRecord → RateLimitStatus × InMemoryRateLimiter
count_in_window now key l r =
    if leb l.max_requests r.count
    then (
      record {
        allowed = false;
        remaining = pos 0;
        limit = l.max_requests;
        reset_ms = r.reset_time - now;
      },
      l,
    )
    else (
      record {
        allowed = true;
        remaining = sub_ℕ l.max_requests (r.count + 1);
        limit = l.max_requests;
        reset_ms = r.reset_time - now;
      },
      record l { records = insert key (record r { count = r.count + 1 }) l.records },
    )

check_record :
    ℕ → String → InMemoryRateLimiter → Option WindowRecord → RateLimitStatus × InMemoryRateLimiter
check_record now key l none = open_window now key l
check_record now key l (some r) =
    if is_expired now r then open_window now key l else count_in_window now key l r

-- `check`
unfoldable pub check : ℕ → String → InMemoryRateLimiter → RateLimitStatus × InMemoryRateLimiter
unfolding check_record open_window count_in_window
check now key l = check_record now key l (lookup key l.records)

-- `reset`
unfoldable pub reset : String → InMemoryRateLimiter → InMemoryRateLimiter
reset key l = record l { records = remove key l.records }

-- `cleanup`: the expired entries are deleted
unfoldable pub cleanup : ℕ → InMemoryRateLimiter → InMemoryRateLimiter
cleanup now l = record l { records = filter_values (λ r. not (is_expired now r)) l.records }

-- `close`
unfoldable pub close : InMemoryRateLimiter → InMemoryRateLimiter
close l = record l { records = []; cleanup_timer = false }
