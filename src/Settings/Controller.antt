-- ===== src/Settings/Controller.antt =====
-- packages/plugin/src/ip-pool-settings/apply.ts: the controller that owns the live runtime. The
-- runtime is a parameter with its `reconfigure`; an assembly ends as a step of its own, which other
-- commits may come before. `live` are the runtimes that were made and not disposed of, by number.
use dsh_opencode.Base.{
  ℕ, suc, ◌≡◌, true, not, List, [], ◌∷◌, ◌++◌, Option, none, some, if◌then◌else◌, ◌==◌, keep, map,
  arith,
}
use dsh_opencode.Settings.{AnyIpPoolSection, IpPoolSettings, with_defaults, to_ip_pool_config}

-- A commit that waits for its assembly, with the section that the assembly was given.
pub record Waiting : Type 0 where
  pub section : AnyIpPoolSection
  pub value : IpPoolSettings

module _ {Runtime : Type 0} (reconfigure : AnyIpPoolSection → Runtime → Runtime) where
  pub record Controller : Type 0 where
    pub config : Option AnyIpPoolSection
    pub runtime : Option ℕ
    pub live : List (ℕ × Runtime)
    pub next : ℕ
    pub assemblies : List Waiting

  abbrev pub new_controller : Option AnyIpPoolSection → Controller
  new_controller config = record {
    config = config;
    runtime = none;
    live = [];
    next = 0;
    assemblies = [];
  }

  -- `settings`
  abbrev pub settings : Controller → IpPoolSettings
  settings c = with_defaults c.config

  abbrev pub reconfigure_at : ℕ → AnyIpPoolSection → List (ℕ × Runtime) → List (ℕ × Runtime)
  reconfigure_at i next live = map (λ e. if e.0 == i then (e.0, reconfigure next e.1) else e) live

  -- `ensureRuntime`, up to its await.
  abbrev pub ensure_runtime : IpPoolSettings → Controller → Controller
  ensure_runtime value c = record c {
    assemblies =
        c.assemblies ++ (record { section = to_ip_pool_config (settings c); value = value } ∷ []);
  }

  abbrev pub committed : IpPoolSettings → Option ℕ → Controller → Controller
  committed value none c = if value.enabled then ensure_runtime value c else c
  committed value (some i) c = record c { live = reconfigure_at i (to_ip_pool_config value) c.live }

  -- `applyCommitted`
  unfoldable pub apply_committed : IpPoolSettings → Controller → Controller
  unfolding with_defaults to_ip_pool_config
  apply_committed value c =
      committed value c.runtime (record c { config = some (to_ip_pool_config value) })

  -- The first assembly that waits ends, with a runtime or, where undici is missing, without; what
  -- it brings takes the place of the runtime that is there.
  abbrev pub installed : Option Runtime → Waiting → Controller → Controller
  installed none waiting c = record c { runtime = none }
  installed (some r) waiting c = record c {
    runtime = some c.next;
    next = suc c.next;
    live = (c.next, reconfigure (to_ip_pool_config waiting.value) r) ∷ c.live;
  }

  abbrev pub ended : Option Runtime → List Waiting → Controller → Controller
  ended result [] c = c
  ended result (waiting ∷ rest) c = installed result waiting (record c { assemblies = rest })

  unfoldable pub end_assembly : Option Runtime → Controller → Controller
  unfolding to_ip_pool_config
  end_assembly result c = ended result c.assemblies c

  -- The disposal of the plugin's fiber.
  abbrev pub released : Option ℕ → Controller → Controller
  released none c = c
  released (some i) c = record c { runtime = none; live = keep (λ e. not (e.0 == i)) c.live }

  unfoldable pub dispose_controller : Controller → Controller
  unfolding keep
  dispose_controller c = released c.runtime c

  -- Two commits to a new controller that both enable the pool, before the first assembly ends, make
  -- two runtimes, of which the disposal ends the second only: the first goes on, owned by no one.
  pub apply_committed_twice :
      (config : Option AnyIpPoolSection) (v u : IpPoolSettings) (r s : Runtime)
      → v.enabled ≡ true
      → u.enabled ≡ true
      → let both = apply_committed u (apply_committed v (new_controller config)) in
        let made = end_assembly (some s) (end_assembly (some r) both) in
        (made.runtime ≡ some 1)
        × ((dispose_controller made).runtime ≡ none)
        × ((dispose_controller made).live ≡ (0, reconfigure (to_ip_pool_config v) r) ∷ [])
  unfolding apply_committed end_assembly dispose_controller keep
  apply_committed_twice config v u r s on on' = ground (arith, on, on')
