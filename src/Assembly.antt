-- ===== src/Assembly.antt =====
-- packages/plugin/src/ip-pool.ts: the runtime that `startIpPool` puts together, and
-- `reconfigure`, which applies settings to it while it runs. The exit table is the one in the
-- probe scheduler. A refill loop keeps what it copied when it was made, and what its callback
-- closes over; one that is dropped has its timer stopped, while its round goes on.
pub mod Applied
pub mod Live
pub mod Stale
use dsh_opencode.Base.{
  ℕ, Bool, true, false, not, ◌&&◌, ◌||◌, List, [], ◌∷◌, Text, codes, Option, none, some,
  if◌then◌else◌, ltb, length, same,
}
use dsh_opencode.Pool.Types.{ExitPool, or_else}
use dsh_opencode.Pool.Table.{set_target_size}
use dsh_opencode.Pool.Capacity.{snapshot}
use dsh_opencode.Prober.Queue.{Prober, new_prober, set_max_concurrent}
use dsh_opencode.Installer.{World, Installer, new_installer, set_installer_hosts, install, disable}
use dsh_opencode.Settings.{AnyIpPoolSection, empty_section, chain}
use dsh_opencode.Admission.Manual.{build_pool_from_config}
use dsh_opencode.SubscriptionFetcher.{
  Fetcher, new_fetcher, set_urls, set_interval_ms, start_fetcher, stop_fetcher,
}

-- `RefillScheduler`, as far as the runtime drives it, with the copies in its dependencies and the
-- section that its callback has captured.
pub record RefillLoop : Type 0 where
  pub captured : AnyIpPoolSection
  pub blocked_countries : Option (List Text)
  pub smoke_model : Option Text
  pub timer : Bool
  pub running : Bool
  pub stopped : Bool

unfoldable pub start_refill : RefillLoop → RefillLoop
start_refill l = if l.timer || l.stopped then l else record l { timer = true; running = true }

unfoldable pub stop_refill : RefillLoop → RefillLoop
stop_refill l = record l { stopped = true; timer = false }

pub record Runtime : Type 0 where
  pub config : AnyIpPoolSection
  pub prober : Prober
  pub installer : Installer
  pub world : World
  pub probe_models : List Text
  pub blocked_countries : Option (List Text)
  pub smoke_model : Option Text
  pub refill : Option RefillLoop
  pub subscriptions : Option Fetcher
  pub supervisor : Option Text
  pub fetcher_active : Bool
  pub max_attempts : Option (Option ℕ)

abbrev pub first_of : List Text → Option Text
first_of [] = none
first_of (m ∷ ms) = some m

-- `config.ipPool?.enabled !== false`
abbrev pub is_enabled : AnyIpPoolSection → Bool
is_enabled c = or_else c.enabled true

abbrev pub wants_refill : AnyIpPoolSection → Bool
wants_refill c = or_else (chain (λ f. f.enabled) c.free) true && is_enabled c

abbrev pub has_exits : ℕ → Runtime → Bool
has_exits now r = ltb 0 (snapshot now r.prober.pool).total

-- The first part of `applyConfig`: the knobs of the table, the admission and the scheduler.
unfoldable pub apply_knobs : Runtime → Runtime
unfolding set_target_size set_max_concurrent set_installer_hosts
apply_knobs r =
    let c = r.config in
    let sized = record r.prober {
      pool = set_target_size (or_else (chain (λ f. f.target_size) c.free) 20) r.prober.pool;
    } in
    record r {
      prober = set_max_concurrent (or_else c.max_concurrent_probes 3) sized;
      blocked_countries = chain (λ f. f.blocked_countries) c.free;
      smoke_model = first_of r.probe_models;
      installer = set_installer_hosts c.proxy_hosts r.installer;
    }

unfoldable pub new_refill : Runtime → RefillLoop
new_refill r = record {
  captured = r.config;
  blocked_countries = r.blocked_countries;
  smoke_model = r.smoke_model;
  timer = false;
  running = false;
  stopped = false;
}

abbrev pub switched_refill : Bool → Option RefillLoop → RefillLoop → Option RefillLoop
switched_refill true none fresh = some (start_refill fresh)
switched_refill true (some l) fresh = some l
switched_refill false l fresh = none

-- The second part: the loop is made or dropped, and one that runs is left alone.
unfoldable pub apply_refill : Runtime → Runtime
unfolding start_refill new_refill
apply_refill r = record r {
  refill = switched_refill (wants_refill r.config) r.refill (new_refill r);
}

-- `ensureSupervisor`, of the path in the settings.
abbrev pub ensure_supervisor : Option Text → Option Text → Option Text
ensure_supervisor none supervisor = none
ensure_supervisor (some []) supervisor = none
ensure_supervisor (some (c ∷ path)) supervisor = some (c ∷ path)

abbrev pub with_fetcher : Option Fetcher → Runtime → Runtime
with_fetcher none r = record r {
  subscriptions = some (new_fetcher none);
  supervisor = ensure_supervisor r.config.singbox_path r.supervisor;
}
with_fetcher (some f) r = r

abbrev pub updated : (Fetcher → Fetcher) → Runtime → Runtime
updated change r = elim r.subscriptions [
  | none ↦ r
  | some f ↦ record r { subscriptions = some (change f) }
]

-- `ensureSubscriptions` where there are URLs.
abbrev pub ensure_subscriptions : List Text → Runtime → Runtime
ensure_subscriptions urls r = updated (set_urls urls) (with_fetcher r.subscriptions r)

abbrev pub started : Runtime → Runtime
started r =
    if r.fetcher_active then r else record (updated start_fetcher r) { fetcher_active = true }

abbrev pub urls_in : AnyIpPoolSection → List Text
urls_in c = or_else c.subscriptions []

abbrev pub refresh_in : AnyIpPoolSection → ℕ
refresh_in c = or_else (chain (λ s. s.refresh_ms) c.subscription) 1800000

abbrev pub with_urls : List Text → Runtime → Runtime
with_urls [] r = r
with_urls (u ∷ urls) r =
    started (updated (set_interval_ms (refresh_in r.config)) (ensure_subscriptions (u ∷ urls) r))

-- The last part: without URLs the layer is left as it is.
unfoldable pub apply_subscriptions : Runtime → Runtime
unfolding new_fetcher set_urls set_interval_ms start_fetcher
apply_subscriptions r = with_urls (urls_in r.config) r

unfoldable pub apply_config : Runtime → Runtime
unfolding apply_knobs apply_refill apply_subscriptions
apply_config r = apply_subscriptions (apply_refill (apply_knobs r))

abbrev pub routed : Runtime → World × Installer → Runtime
routed r (w, i) = record r { world = w; installer = i }

-- The parts as they are made.
unfoldable pub assembled : ℕ → World → AnyIpPoolSection → Runtime
unfolding build_pool_from_config new_prober new_installer
assembled now world config = record {
  config = config;
  prober =
      new_prober config.max_concurrent_probes
        (build_pool_from_config now config.manual config.pinned_exit_id);
  installer = new_installer config.proxy_hosts;
  world = world;
  probe_models = or_else config.probe_models [];
  blocked_countries = chain (λ f. f.blocked_countries) config.free;
  smoke_model = first_of (or_else config.probe_models []);
  refill = none;
  subscriptions = none;
  supervisor = none;
  fetcher_active = false;
  max_attempts = none;
}

module _ (returns_previous : Bool) (module_fetch : Option ℕ) where
  abbrev pub engage_routing : Runtime → Runtime
  engage_routing r = routed r (install returns_previous module_fetch r.world r.installer)

  -- The first decision on routing, before the settings are applied.
  unfoldable pub initial_routing : ℕ → Runtime → Runtime
  unfolding snapshot install
  initial_routing now r = if has_exits now r then engage_routing r else r

  -- `startIpPool`, where undici can be loaded.
  unfoldable pub start_ip_pool : ℕ → World → AnyIpPoolSection → Runtime
  unfolding assembled initial_routing apply_config
  start_ip_pool now world config =
      record (apply_config (initial_routing now (assembled now world config))) {
        max_attempts = some (some (or_else config.max_rotate_attempts 3));
      }

  -- The end of `reconfigure`: routing follows the switch and whether there are exits.
  unfoldable pub switch_routing : ℕ → Bool → Runtime → Runtime
  unfolding snapshot install disable
  switch_routing now enable r =
      if enable && not r.installer.enabled && has_exits now r
      then engage_routing r
      else if not enable && r.installer.enabled
      then routed r (disable false r.world r.installer)
      else r

  unfoldable pub reconfigure : ℕ → AnyIpPoolSection → Runtime → Runtime
  unfolding apply_config switch_routing
  reconfigure now next r =
      let applied =
        apply_config (record r { config = next; probe_models = or_else next.probe_models [] }) in
      switch_routing now (is_enabled next)
        (record applied { max_attempts = some (some (or_else next.max_rotate_attempts 3)) })

  -- The callback that a refill loop calls after each exit that it has added.
  unfoldable pub on_admitted : ℕ → RefillLoop → Runtime → Runtime
  unfolding snapshot install
  on_admitted now loop r =
      if not r.installer.enabled && is_enabled loop.captured && has_exits now r
      then engage_routing r
      else r

unfoldable pub dispose_runtime : Runtime → Runtime
unfolding stop_fetcher stop_refill disable
dispose_runtime r =
    let stopped = updated stop_fetcher r in
    let (w, i) = disable false r.world r.installer in
    record stopped {
      max_attempts = none;
      refill = elim r.refill [ none ↦ none | some l ↦ some (stop_refill l) ];
      world = w;
      installer = i;
    }
