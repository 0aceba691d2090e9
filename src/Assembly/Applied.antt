-- ===== src/Assembly/Applied.antt =====
-- packages/plugin/src/ip-pool.ts: what `applyConfig` changes of the runtime, and what it leaves.
use dsh_opencode.Base.{
  ℕ, zero, suc, ◌+◌, max, ◌≡◌, refl, ap, ◌∙◌, List, [], ◌∷◌, Text, arith, length,
}
use dsh_opencode.Pool.Types.{ExitPool, ExitNode, or_else}
use dsh_opencode.Pool.Table.{set_target_size, take_probe_lock}
use dsh_opencode.Prober.Queue.{
  Prober, Slot, is_exit_busy, find_runnable, start_next, pump_loop, pump, wake, set_max_concurrent,
}
use dsh_opencode.Settings.{chain}
use dsh_opencode.Installer.{set_installer_hosts}
use dsh_opencode.Assembly.{
  Runtime, apply_knobs, apply_refill, apply_subscriptions, apply_config, switched_refill,
  new_refill, wants_refill, urls_in, with_urls,
}

-- The exits and the pin of a table.
abbrev pub Rows : Type 0
Rows = List (Text × ExitNode) × Text

abbrev pub rows : ExitPool → Rows
rows p = (p.nodes, p.pinned_id)

is_exit_busy-rows : (id : Text) (p : ExitPool) → rows (is_exit_busy id p).0 ≡ rows p
unfolding is_exit_busy take_probe_lock
is_exit_busy-rows id p = ground arith

find_runnable-rows : (ss : List Slot) (p : ExitPool) → rows (find_runnable ss p).1 ≡ rows p
unfolding find_runnable
find_runnable-rows [] p = refl
find_runnable-rows (s ∷ ss) p =
    ground
      (arith, is_exit_busy-rows s.exit_id p, find_runnable-rows ss (is_exit_busy s.exit_id p).0)

start_next-rows : (c : Prober) → rows (start_next c).0.pool ≡ rows c.pool
unfolding start_next
start_next-rows c = ground (arith, find_runnable-rows c.queue c.pool)

pump_loop-rows : (fuel : ℕ) (c : Prober) → rows (pump_loop fuel c).pool ≡ rows c.pool
unfolding pump_loop
pump_loop-rows zero c = refl
pump_loop-rows (suc fuel) c =
    ground (arith, start_next-rows c, pump_loop-rows fuel (start_next c).0)

set_max_concurrent-rows : (n : ℕ) (c : Prober) → rows (set_max_concurrent n c).pool ≡ rows c.pool
unfolding set_max_concurrent pump wake
set_max_concurrent-rows n c =
    ground (arith, pump_loop-rows (length c.queue + 1) (record c { max_concurrent = max 1 n }))

-- The parts that the layer of subscriptions leaves.
with_urls-keeps :
    (urls : List Text) (r : Runtime)
    → ((with_urls urls r).prober ≡ r.prober)
      × ((with_urls urls r).installer ≡ r.installer)
      × ((with_urls urls r).world ≡ r.world)
      × ((with_urls urls r).refill ≡ r.refill)
with_urls-keeps [] r = (refl, refl, refl, refl)
with_urls-keeps (u ∷ urls) r = ground arith

apply_knobs-rows : (r : Runtime) → rows (apply_knobs r).prober.pool ≡ rows r.prober.pool
unfolding apply_knobs set_target_size
apply_knobs-rows r =
    let c = r.config in
    let size = or_else (chain (λ f. f.target_size) c.free) 20 in
    set_max_concurrent-rows (or_else c.max_concurrent_probes 3)
      (record r.prober { pool = set_target_size size r.prober.pool })

-- What `apply_config` leaves of the runtime: the exits, the pin and the slots; and what it makes
-- of the installer and of the refill loop.
pub apply_config-keeps :
    (r : Runtime)
    → (rows (apply_config r).prober.pool ≡ rows r.prober.pool)
      × ((apply_config r).installer ≡ set_installer_hosts r.config.proxy_hosts r.installer)
      × ((apply_config r).world ≡ r.world)
      × ((apply_config r).refill
          ≡ switched_refill (wants_refill r.config) r.refill (new_refill (apply_knobs r)))
unfolding apply_config apply_subscriptions apply_refill apply_knobs
apply_config-keeps r =
    let (p, i, w, l) = with_urls-keeps (urls_in r.config) (apply_refill (apply_knobs r)) in
    (ap (λ c. rows c.pool) p ∙ apply_knobs-rows r, i, w, l)
