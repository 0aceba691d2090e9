-- ===== src/Tests/Rounds.antt =====
-- A refill round over a pool of two exits that is full (packages/plugin/test/refill.test.ts).
use dsh_opencode.Base.{◌≡◌, ◌≤◌, ◌+◌, refl, [], ◌∷◌, codes, none, some, false, arith, count_if}
use dsh_opencode.Base.Maps.{delete}
use dsh_opencode.Pool.Types.{ExitPool, ExitNode, new_pool}
use dsh_opencode.Pool.Calls.{run}
use dsh_opencode.Pool.Capacity.{admission_quota, free_count, is_free_full, evict_worst_free}
use dsh_opencode.Pool.Table.{remove}
use dsh_opencode.Pool.Preserve.{run-new_pool-Consistent}
use dsh_opencode.Refill.{Round, claims, settles, new_round, turns, admit}
use dsh_opencode.Refill.Seats
use dsh_opencode.Refill.Collect
use dsh_opencode.Tests.Exits.{two, heads, filled, node_b, options, program}

turns-new_round_example :
    ((turns ((1, claims) ∷ (1, claims) ∷ (2, settles none) ∷ []) (new_round 1 1 two)).claimed
      ≤ admission_quota 1 two)
    × ((turns ((1, claims) ∷ (1, claims) ∷ (2, settles none) ∷ []) (new_round 1 1 two)).claimed ≤ 1)
turns-new_round_example =
    Seats.turns-new_round 1 1 two ((1, claims) ∷ (1, claims) ∷ (2, settles none) ∷ [])

abbrev crowded : ExitPool
crowded = run heads filled (new_pool (record options { target_size = some 1 }))

abbrev newcomer : ExitNode
newcomer = record node_b { id = codes "c:3" }

abbrev round : Round
round = record {
  pool = crowded;
  quota = 1;
  claimed = 1;
  admitted = 0;
  admitted_limited = 0;
  rejected = 0;
  admissions = 0;
}

admit-lost_example :
    (free_count (admit 5 newcomer false round).pool + 1 ≡ free_count crowded)
    × ((admit 5 newcomer false round).admitted ≡ 0)
    × ((admit 5 newcomer false round).admitted_limited ≡ 0)
unfolding program is_free_full free_count evict_worst_free remove count_if delete
admit-lost_example =
    Seats.admit-lost 5 newcomer false round
      (run-new_pool-Consistent heads (record options { target_size = some 1 }) filled) refl
      (omega arith) refl

abbrev row : Collect.Candidate
row = record { address = codes "d:4"; host = codes "d"; port = 4 }

-- The pool's addresses are seen from the start.
abbrev nothing_yet : Collect.Collected
nothing_yet = record { seen = codes "a:1" ∷ []; candidates = []; from_this_source = 0 }

nothing_yet-IsTidy : Collect.IsTidy nothing_yet
unfolding count_if
nothing_yet-IsTidy = record { once = λ a. omega arith; within = omega arith; share = omega arith }
