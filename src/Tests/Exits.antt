-- ===== src/Tests/Exits.antt =====
-- A pool of two exits, one free and one manual, and what the theorems say of it
-- (packages/plugin/test/pool.test.ts, packages/plugin/test/rotate.test.ts).
use dsh_opencode.Base.{
  ℕ, ◌+◌, ◌≤◌, ◌≡◌, refl, ◌≢◌, ◌⊎◌, Bool, true, false, List, [], ◌∷◌, Text, codes, none, some,
  arith, text_dec, subst, All, keep,
}
use dsh_opencode.Base.Maps.{lookup, insert, has}
use dsh_opencode.Pool.Types.{
  ExitPool, ExitNode, ExitSource, Protocol, Quality, PoolOptions, new_pool, fresh_health, sticky_of,
}
use dsh_opencode.Pool.Calls.{Call, adds, run, step}
use dsh_opencode.Pool.Invariant.{IsConsistent}
use dsh_opencode.Pool.Preserve.{run-new_pool-Consistent}
use dsh_opencode.Pool.Selection.{pick, is_usable, rank, usable_exits}
use dsh_opencode.Pool.Choice
use dsh_opencode.Pool.Sorting.{RankLe}
use dsh_opencode.Pool.Levels
use dsh_opencode.Pool.Passive.{exit_of_session}
use dsh_opencode.Pool.Capacity.{free_count, state_of, snapshot}
use dsh_opencode.Rotate
use dsh_opencode.Rotate.Progress
use dsh_opencode.Pool.Table.{add, is_duplicate, has_exit_ip}
use dsh_opencode.Pool.Signals.{mark_ok}

unfoldable pub program : Unit {0}
unfolding run step new_pool add is_duplicate has_exit_ip lookup insert text_dec mark_ok has
program = tt

abbrev pub id_a : Text
id_a = codes "a:1"

abbrev pub id_b : Text
id_b = codes "b:2"

abbrev pub model : Text
model = codes "m"

abbrev pub node_a : ExitNode
node_a = record {
  id = id_a;
  protocol = Protocol.http;
  source = ExitSource.free;
  pinned = false;
  exit_ip = codes "1.1.1.1";
  exit_location = [];
  latency_ms = 900;
  quality = Quality.a;
  added_at = 5;
}

abbrev pub node_b : ExitNode
node_b = record node_a {
  id = id_b;
  source = ExitSource.manual;
  exit_ip = codes "2.2.2.2";
  latency_ms = 300;
  quality = Quality.s;
}

abbrev pub options : PoolOptions
options = record {
  target_size = none;
  limited_cooldown_base_ms = none;
  limited_cooldown_max_ms = none;
  model_ban_confirmations = none;
  dead_evictions = some 1;
}

abbrev pub empty : ExitPool
empty = record {
  nodes = [];
  health = [];
  bans = [];
  session_exit = [];
  passive = [];
  target_size = 20;
  cooldown_base = 60000;
  cooldown_max = 1800000;
  ban_confirmations = 2;
  dead_evictions = 1;
  pinned_id = [];
}

abbrev pub two : ExitPool
two = record empty {
  nodes = (id_a, node_a) ∷ (id_b, node_b) ∷ [];
  health = (id_a, fresh_health) ∷ (id_b, fresh_health) ∷ [];
}

abbrev pub heads : Text → Text → Bool
heads l r = true

abbrev pub filled : List (ℕ × Call)
filled = (1, adds node_a) ∷ (2, adds node_b) ∷ []

filled_lem : run heads filled (new_pool options) ≡ two
unfolding program
filled_lem = refl

run-new_pool-Consistent_example : IsConsistent (run heads filled (new_pool options))
run-new_pool-Consistent_example = run-new_pool-Consistent heads options filled

pub two-Consistent : IsConsistent two
two-Consistent = subst IsConsistent filled_lem run-new_pool-Consistent_example

-- The faster exit is chosen.
pub pick-two :
    pick heads 10 (codes "s") model two
    ≡ (record two { session_exit = (codes "s", id_b) ∷ [] }, some id_b)
unfolding pick program is_usable rank usable_exits keep
pick-two = refl

abbrev pub session : Text
session = codes "s"

pick_order_example :
    ((Choice.preferred 10 session model two ≡ some id_b)
      × ((pick heads 10 session model two).0 ≡ two))
    ⊎ ((Choice.preferred 10 session model two ≡ none)
        × All (λ x. RankLe (rank two id_b) (rank two x)) (usable_exits 10 model two)
        × (sticky_of session (pick heads 10 session model two).0 ≡ some id_b))
unfolding pick program is_usable rank usable_exits keep
pick_order_example = Choice.pick_order heads 10 session model two refl

pick-is_usable_example : is_usable 10 id_b model two ≡ true
unfolding pick program is_usable rank usable_exits keep
pick-is_usable_example = Choice.pick-is_usable heads 10 session model two refl

-- Both exits are cooling.
abbrev cooling : ExitPool
cooling = record two {
  health =
      (id_a, record fresh_health { cooldown_until = 50 })
      ∷ (id_b, record fresh_health { cooldown_until = 50 })
      ∷ [];
}

-- The session sticks to the manual exit.
abbrev stuck : ExitPool
stuck = record two { session_exit = (session, id_b) ∷ [] }

decide_moves_on_example :
    (pick heads 10 session model (Rotate.decide none 10 model session 1 true stuck).0).1 ≢ some id_b
unfolding exit_of_session program
decide_moves_on_example = Progress.decide_moves_on none heads 10 model session 1 stuck refl

snapshot_counts_example :
    let s = snapshot 10 two in
    (s.by_source.free + s.by_source.manual + s.by_source.subscription + s.by_source.goproxy
      ≡ s.total)
    × (s.by_source.free ≡ free_count two)
    × (s.available_free ≤ s.by_source.free)
snapshot_counts_example = Levels.snapshot_counts 10 two

state_of_mono_example : Levels.severity (state_of 12 20) ≤ Levels.severity (state_of 3 20)
state_of_mono_example = Levels.state_of_mono 3 12 20 (omega arith)
