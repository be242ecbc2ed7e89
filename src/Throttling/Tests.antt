-- ===== src/Throttling/Tests.antt =====
-- Two hits to a window of a minute.
use kuybi.Throttling.Limit.{window_limit}
use kuybi.Prelude.{◌∷◌, [], none, ◌≤◌, arith}
use kuybi.Throttling.{hit_all}

window_limit_example :
    (hit_all 60000 2 1000
      (5 ∷ 6 ∷ 2000 ∷ 3000 ∷ [])
      (record { hits = none; blocked_until = none })).1
    ≤ 2
window_limit_example =
    window_limit 60000 2 1000 5 (6 ∷ 2000 ∷ 3000 ∷ []) (omega arith)
      ((omega arith, omega arith), ((omega arith, omega arith), ((omega arith, omega arith), tt)))
