-- ===== src/Throttling/Limit.antt =====
-- src/core/throttling/redis-throttler.storage.ts: what a window lets through.
use kuybi.Prelude.{ℕ, Option, List, ◌≤◌, ◌<◌, All, ◌+◌, ◌∷◌, some, none, ◌-◌, arith, []}
use kuybi.Throttling.{hit_all, increment_script, get_hits, block_left}

counted :
    (ttl limit block start n : ℕ) (b : Option ℕ) (times : List ℕ)
    → 1 ≤ n
    → All (λ t. (start ≤ t) × (t < start + ttl)) times
    → (hit_all ttl limit block times (record { hits = some (n, start + ttl); blocked_until = b })).1
      ≤ limit - n
unfolding hit_all increment_script get_hits block_left
counted ttl limit block start n b [] h k = omega arith
counted ttl limit block start n none (t ∷ times) h (k, ks) = ground (
  arith,
  k,
  h,
  counted ttl limit block start (n + 1) none times (omega arith) ks,
  counted ttl limit block start (n + 1) (some (t + block)) times (omega arith) ks,
)
counted ttl limit block start n (some u) (t ∷ times) h (k, ks) = ground (
  arith,
  k,
  h,
  counted ttl limit block start n (some u) times h ks,
  counted ttl limit block start (n + 1) none times (omega arith) ks,
  counted ttl limit block start (n + 1) (some (t + block)) times (omega arith) ks,
)

-- From a key without hits or block: of any hits in the window that the first of them opens, in any
-- order of times, at most `limit` are let through.
pub window_limit :
    (ttl limit block start : ℕ) (times : List ℕ)
    → 0 < ttl
    → All (λ t. (start ≤ t) × (t < start + ttl)) times
    → (hit_all ttl limit block (start ∷ times) (record { hits = none; blocked_until = none })).1
      ≤ limit
unfolding hit_all increment_script get_hits block_left
window_limit ttl limit block start times p h = ground (
  arith,
  p,
  counted ttl limit block start 1 none times (omega arith) h,
  counted ttl limit block start 1 (some (start + block)) times (omega arith) h,
)
