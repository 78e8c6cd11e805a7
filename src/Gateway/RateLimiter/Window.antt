-- ===== src/Gateway/RateLimiter/Window.antt =====
-- sdks/typescript/src/gateway/rate-limiter.ts: how many requests of a client one window lets through.
use text.Mathlib.TextPositions.{eq_refl}
use neural_mesh_protocol.Prelude.{
  ℕ, ◌+◌, ◌-◌, ◌*◌, ◌≤◌, ◌<◌, min, max, String, ◌≡◌, refl, ◌≢◌, Bool, true, Option, none, some,
  List, [], ◌∷◌, ◌++◌, ◌∙◌, length, replicate, length-replicate, All-replicate, sym, ap, All, arith,
  if◌then◌else◌, leb, Option-cases, inl, inr, str_eq_iff,
}
use neural_mesh_protocol.Prelude.Assoc.{lookup, lookup-insert}
use neural_mesh_protocol.Gateway.RateLimiter.{WindowRecord, InMemoryRateLimiter, check}

abbrev pub admits : Bool → ℕ
admits b = if b then 1 else 0

-- The requests of one client at the times of the list, in turn: how many are allowed, and the
-- limiter that they leave.
unfoldable pub serve : String → List ℕ → InMemoryRateLimiter → ℕ × InMemoryRateLimiter
serve key [] l = (0, l)
serve key (now ∷ times) l =
    let (status, l') = check now key l in
    let (n, l'') = serve key times l' in (admits status.allowed + n, l'')

-- A request of one client leaves the window of every other client as it was.
pub check-lookup_ne :
    (now : ℕ) (key j : String) (l : InMemoryRateLimiter)
    → key ≢ j
    → lookup j (check now key l).1.records ≡ lookup j l.records
unfolding check
check-lookup_ne now key j l ne = grind (arith, str_eq_iff, lookup-insert)

pub check-max_requests :
    (now : ℕ) (key : String) (l : InMemoryRateLimiter)
    → (check now key l).1.max_requests ≡ l.max_requests
unfolding check
check-max_requests now key l = ground arith

pub check-window_ms :
    (now : ℕ) (key : String) (l : InMemoryRateLimiter) → (check now key l).1.window_ms ≡ l.window_ms
unfolding check
check-window_ms now key l = ground arith

-- A window with `used` requests counted after one more request.
abbrev counted : ℕ → ℕ → ℕ
counted limit used = if leb limit used then used else used + 1

abbrev Holds : String → InMemoryRateLimiter → (used until : ℕ) → Type 0
Holds key l used until = lookup key l.records ≡ some (record { count = used; reset_time = until })

module _ (key : String) (now : ℕ) (l : InMemoryRateLimiter) where
  -- One more request inside the window.
  check_inside :
      (used until : ℕ)
      → Holds key l used until
      → now < until
      → (admits (check now key l).0.allowed + used ≡ counted l.max_requests used)
        × Holds key (check now key l).1 (counted l.max_requests used) until
  unfolding check
  check_inside used until h p = grind (arith, lookup-insert, eq_refl)

  -- The request that opens a window.
  check_opens :
      ((r : WindowRecord) → lookup key l.records ≡ some r → r.reset_time ≤ now)
      → ((check now key l).0.allowed ≡ true) × Holds key (check now key l).1 1 (now + l.window_ms)
  unfolding check
  check_opens h = elim (Option-cases (lookup key l.records)) [
    | inl unknown ↦ rw unknown (refl, simp (lookup-insert, eq_refl))
    | inr (r, known) ↦ let late = h r known in grind (arith, lookup-insert, eq_refl)
  ]

-- The same record, with equal numbers.
Holds-cong :
    (key : String) (l : InMemoryRateLimiter) {used used' until : ℕ}
    → used ≡ used'
    → Holds key l used until
    → Holds key l used' until
Holds-cong key l e h = rw (← e) h

-- Inside one window, every request is counted until the quota is used up.
serve_inside :
    (key : String) (times : List ℕ) (l : InMemoryRateLimiter) (used until : ℕ)
    → All (λ t. t < until) times
    → Holds key l used until
    → ((serve key times l).0 ≡ min (length times) (l.max_requests - used))
      × Holds key (serve key times l).1 (used + min (length times) (l.max_requests - used)) until
      × ((serve key times l).1.max_requests ≡ l.max_requests)
      × ((serve key times l).1.window_ms ≡ l.window_ms)
unfolding serve
serve_inside key [] l used until early h =
    (omega arith, Holds-cong key l (omega arith) h, refl, refl)
serve_inside key (now ∷ times) l used until (first, rest) h =
    let (one, held) = check_inside key now l used until h first in
    let same : (check now key l).1.max_requests ≡ l.max_requests = check-max_requests now key l in
    let (n, after, limit, width) =
      serve_inside key times (check now key l).1 (counted l.max_requests used) until rest held in
    (
      ground (arith, one, n, same),
      Holds-cong key (serve key times (check now key l).1).1 (ground (arith, same)) after,
      limit ∙ same,
      width ∙ check-window_ms now key l,
    )

-- The window of the client `key` is over at `now`, or was never opened.
abbrev pub IsFresh : ℕ → String → InMemoryRateLimiter → Type 0
IsFresh now key l = (r : WindowRecord) → lookup key l.records ≡ some r → r.reset_time ≤ now

module _ (key : String) (now : ℕ) (times : List ℕ) (l : InMemoryRateLimiter)
    (fresh : IsFresh now key l) (inside : All (λ t. t < now + l.window_ms) times) where
  serve_fresh :
      ((serve key (now ∷ times) l).0 ≡ 1 + min (length times) (l.max_requests - 1))
      × Holds key
          (serve key (now ∷ times) l).1
          (1 + min (length times) (l.max_requests - 1))
          (now + l.window_ms)
      × ((serve key (now ∷ times) l).1.max_requests ≡ l.max_requests)
      × ((serve key (now ∷ times) l).1.window_ms ≡ l.window_ms)
  unfolding serve
  serve_fresh =
      let (first, held) = check_opens key now l fresh in
      let (n, after, limit, width) =
        serve_inside key times (check now key l).1 1 (now + l.window_ms) inside held in
      (
        rw (first, n) (rw check-max_requests refl),
        Holds-cong key (serve key times (check now key l).1).1 (rw check-max_requests refl) after,
        limit ∙ check-max_requests now key l,
        width ∙ check-window_ms now key l,
      )

  -- From the request that opens a client's window, of that request and the later ones before the
  -- window's end exactly the first `maxRequests` are allowed, and one at least.
  pub serve_quota :
      (serve key (now ∷ times) l).0 ≡ min (length (now ∷ times)) (max 1 l.max_requests)
  serve_quota = omega (arith, serve_fresh.0)

abbrev until_of : Option WindowRecord → ℕ
until_of none = 0
until_of (some r) = r.reset_time

serve-append :
    (key : String) (xs ys : List ℕ) (l : InMemoryRateLimiter)
    → (serve key (xs ++ ys) l).0 ≡ (serve key xs l).0 + (serve key ys (serve key xs l).1).0
unfolding serve
serve-append key [] ys l = omega arith
serve-append key (now ∷ xs) ys l = omega (arith, serve-append key xs ys (check now key l).1)

-- The windows are fixed, not sliding: with a quota of at least one and a window longer than zero,
-- of a client that has no window open at `now`, one request at `now`, `maxRequests - 1` in the last
-- millisecond of the window that it opens and `maxRequests` at the end of that window are all
-- allowed.
pub double_burst :
    (key : String) (now : ℕ) (l : InMemoryRateLimiter)
    → IsFresh now key l
    → 0 < l.window_ms
    → 0 < l.max_requests
    → (serve key
        ((now ∷ replicate (l.max_requests - 1) (now + l.window_ms - 1))
          ++ ((now + l.window_ms) ∷ replicate (l.max_requests - 1) (now + l.window_ms)))
        l).0
      ≡ 2 * l.max_requests
double_burst key now l fresh wide quota =
    let n = l.max_requests - 1 in
    let first = replicate n (now + l.window_ms - 1) in
    let inside : All (λ t. t < now + l.window_ms) first =
      All-replicate (λ t. t < now + l.window_ms) n (now + l.window_ms - 1) (omega arith) in
    let (served, held, limit, width) = serve_fresh key now first l fresh inside in
    let l' = (serve key (now ∷ first) l).1 in
    let fresh' : IsFresh (now + l.window_ms) key l' =
      λ r known. omega (arith, ap (λ (o : Option WindowRecord). until_of o) (sym held ∙ known)) in
    let again = serve_quota key (now + l.window_ms) (replicate n (now + l.window_ms)) l' fresh' (
      All-replicate (λ t. t < now + l.window_ms + l'.window_ms) n (now + l.window_ms)
        (omega (arith, width))) in
    omega (
      arith,
      serve-append key (now ∷ first) ((now + l.window_ms) ∷ replicate n (now + l.window_ms)) l,
      served,
      again,
      limit,
      length-replicate n (now + l.window_ms),
      length-replicate n (now + l.window_ms - 1),
    )
