-- ===== src/Throttling.antt =====
-- src/core/throttling/redis-throttler.storage.ts: the script that Redis runs as one step, and
-- `increment` around it. A key's counter and block flag are values with the time they expire at; a
-- key that has expired is gone, and PTTL of it is not positive.
pub mod Limit
mod Tests
use kuybi.Prelude.{
  Option, ℕ, List, Bool, if◌then◌else◌, nat_beq, ◌∷◌, ◌+◌, ◌-◌, [], ltb, true, some, none, false,
}

pub record Counter : Type 0 where
  -- the hits and when they are forgotten, and when the block ends
  pub hits : Option (ℕ × ℕ)
  pub blocked_until : Option ℕ

pub record Reply : Type 0 where
  pub hits : ℕ
  pub hits_ttl : ℕ
  pub blocked : Bool
  pub block_ttl : ℕ

-- what is left at `now`
unfoldable pub get_hits : ℕ → Counter → ℕ × ℕ
get_hits now c = elim c.hits [
  | none ↦ (0, now)
  | some (n, t) ↦ if ltb now t then (n, t) else (0, now)
]

unfoldable pub block_left : ℕ → Counter → ℕ
block_left now c = elim c.blocked_until [ none ↦ 0 | some t ↦ t - now ]

-- INCREMENT_SCRIPT, with ttl, limit and block
unfoldable pub increment_script : ℕ → ℕ → ℕ → ℕ → Counter → Counter × Reply
increment_script now ttl limit block c =
    let left = block_left now c in
    let (n, t) = get_hits now c in
    let t' = if nat_beq n 0 then now + ttl else t in
    let hits_ttl = t' - now in
    if ltb 0 left
    then (c, record { hits = n; hits_ttl = t - now; blocked = true; block_ttl = left })
    else (if ltb limit (n + 1)
        then (
          record { hits = some (n + 1, t'); blocked_until = some (now + block) },
          record { hits = n + 1; hits_ttl = hits_ttl; blocked = true; block_ttl = block },
        )
        else (
          record { hits = some (n + 1, t'); blocked_until = none },
          record { hits = n + 1; hits_ttl = hits_ttl; blocked = false; block_ttl = 0 },
        ))

-- The script for each time of a list, oldest first, and how many are let through.
unfoldable pub hit_all : ℕ → ℕ → ℕ → List ℕ → Counter → Counter × ℕ
hit_all ttl limit block [] c = (c, 0)
hit_all ttl limit block (now ∷ times) c =
    let (c', r) = increment_script now ttl limit block c in
    let (c'', n) = hit_all ttl limit block times c' in (c'', (if r.blocked then n else n + 1))
