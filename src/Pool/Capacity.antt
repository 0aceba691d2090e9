-- ===== src/Pool/Capacity.antt =====
-- packages/plugin/src/pool/pool.ts: availability, the four states, quota, eviction, snapshot.
-- The source compares the quotient of two integers with 0.1, 0.3 and 0.95; the model compares
-- the products, which decide the same for every integer below 2^50.
use dsh_opencode.Base.{
  ℕ, ◌+◌, ◌-◌, ◌*◌, Bool, true, false, not, ◌&&◌, ◌||◌, List, [], ◌∷◌, Text, Option, none, some,
  if◌then◌else◌, ltb, leb, ◌==◌, length, starts_with, exists, count_if,
}
use dsh_opencode.Base.Maps.{values}
use dsh_opencode.Pool.Types.{
  ExitNode, ExitSource, ExitPool, ModelBan, PoolState, Quality, ban_prefix, health_of,
}
use dsh_opencode.Pool.Table.{remove}
use dsh_opencode.Pool.Signals.{is_banned, is_free}
use dsh_opencode.Pool.Selection.{is_dead}

-- The loop over the bans of one exit: one is banned, and none is anything else.
unfoldable pub exhausted : Text → List (Text × ModelBan) → Bool
unfolding exists starts_with
exhausted id bans =
    exists (λ e. starts_with (ban_prefix id) e.0 && is_banned e.1.state) bans
    && not (exists (λ e. starts_with (ban_prefix id) e.0 && not (is_banned e.1.state)) bans)

unfoldable pub is_available : ℕ → Text → ExitPool → Bool
unfolding exhausted
is_available now id p = elim (health_of id p) [
  | none ↦ false
  | some h ↦
      if is_dead h.state
      then false
      else if ltb now h.cooldown_until
      then false
      else not (exhausted id p.bans)
]

unfoldable pub available_free_count : ℕ → ExitPool → ℕ
unfolding is_available count_if
available_free_count now p =
    count_if (λ n. is_free n.source && is_available now n.id p) (values p.nodes)

-- The thresholds of `state` over the count and the target.
unfoldable pub state_of : ℕ → ℕ → PoolState
state_of available target =
    if leb target 0
    then PoolState.healthy
    else if ltb (available * 10) target
    then PoolState.emergency
    else if ltb (available * 10) (target * 3)
    then PoolState.critical
    else if ltb (available * 20) (target * 19)
    then PoolState.warning
    else PoolState.healthy

unfoldable pub pool_state : ℕ → ExitPool → PoolState
unfolding state_of available_free_count
pool_state now p = state_of (available_free_count now p) p.target_size

unfoldable pub admission_quota : ℕ → ExitPool → ℕ
unfolding available_free_count
admission_quota now p = p.target_size - available_free_count now p

abbrev pub grade_rank : Quality → ℕ
grade_rank Quality.s = 0
grade_rank Quality.a = 1
grade_rank Quality.b = 2
grade_rank Quality.c = 3

-- Whether a node replaces the worst one found so far.
unfoldable pub is_worse : ExitNode → ExitNode → Bool
is_worse n worst =
    ltb (grade_rank worst.quality) (grade_rank n.quality)
    || ((grade_rank n.quality == grade_rank worst.quality) && ltb n.added_at worst.added_at)

abbrev pub challenge : ExitNode → Option ExitNode → Option ExitNode
challenge n none = some n
challenge n (some worst) = if is_worse n worst then some n else some worst

unfoldable pub worst_free : Option ExitNode → List ExitNode → Option ExitNode
unfolding is_worse
worst_free worst [] = worst
worst_free worst (n ∷ ns) = worst_free (if is_free n.source then challenge n worst else worst) ns

unfoldable pub evict_worst_free : ExitPool → ExitPool × Bool
unfolding worst_free remove
evict_worst_free p = elim (worst_free none (values p.nodes)) [
  | none ↦ (p, false)
  | some worst ↦ (remove worst.id p, true)
]

unfoldable pub free_count : ExitPool → ℕ
unfolding count_if
free_count p = count_if (λ n. is_free n.source) (values p.nodes)

unfoldable pub is_free_full : ExitPool → Bool
unfolding free_count
is_free_full p = leb p.target_size (free_count p)

pub record BySource : Type 0 where
  pub free : ℕ
  pub manual : ℕ
  pub subscription : ℕ
  pub goproxy : ℕ

abbrev pub add_source : ExitSource → BySource → BySource
add_source ExitSource.free c = record c { free = c.free + 1 }
add_source ExitSource.manual c = record c { manual = c.manual + 1 }
add_source ExitSource.subscription c = record c { subscription = c.subscription + 1 }
add_source ExitSource.goproxy c = record c { goproxy = c.goproxy + 1 }

unfoldable pub count_sources : BySource → List ExitNode → BySource
count_sources c [] = c
count_sources c (n ∷ ns) = count_sources (add_source n.source c) ns

pub record Snapshot : Type 0 where
  pub state : PoolState
  pub total : ℕ
  pub by_source : BySource
  pub available_free : ℕ
  pub pinned : Text

unfoldable pub snapshot : ℕ → ExitPool → Snapshot
unfolding pool_state count_sources available_free_count
snapshot now p = record {
  state = pool_state now p;
  total = length p.nodes;
  by_source =
      count_sources (record { free = 0; manual = 0; subscription = 0; goproxy = 0 })
        (values p.nodes);
  available_free = available_free_count now p;
  pinned = p.pinned_id;
}
