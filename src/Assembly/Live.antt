-- ===== src/Assembly/Live.antt =====
-- packages/plugin/src/ip-pool.ts: what applying settings to the running pool does to routing, and
-- what it does not reach.
use dsh_opencode.Base.{
  ℕ, ◌≡◌, refl, sym, ap, ◌∙◌, subst, Bool, true, false, List, [], Text, Option, none, some, arith,
  length, ltb,
}
use dsh_opencode.Pool.Types.{or_else}
use dsh_opencode.Pool.Capacity.{snapshot}
use dsh_opencode.Installer.{
  World, Installer, detect_foreign, install, engage, disable, set_installer_hosts,
}
use dsh_opencode.Settings.{AnyIpPoolSection}
use dsh_opencode.SubscriptionFetcher.{Fetcher}
use dsh_opencode.Assembly.{
  Runtime, RefillLoop, is_enabled, wants_refill, has_exits, urls_in, apply_config, apply_knobs,
  switch_routing, reconfigure, apply_refill, apply_subscriptions,
}
use dsh_opencode.Assembly.Applied.{rows, apply_config-keeps}

set_installer_hosts-enabled :
    (hosts : Option (List Text)) (i : Installer) → (set_installer_hosts hosts i).enabled ≡ i.enabled
unfolding set_installer_hosts
set_installer_hosts-enabled hosts i = ground arith

-- The runtime with new settings in it, before they are applied.
abbrev pub with_section : AnyIpPoolSection → Runtime → Runtime
with_section next r = record r { config = next; probe_models = or_else next.probe_models [] }

module _ (returns_previous : Bool) (module_fetch : Option ℕ) where
  pub install-enabled :
      (w : World) (i : Installer)
      → detect_foreign w.dispatcher ≡ none
      → (install returns_previous module_fetch w i).1.enabled ≡ true
  unfolding install engage
  install-enabled w i free = ground (arith, free)

  switch_routing-off :
      (now : ℕ) (r : Runtime)
      → (switch_routing returns_previous module_fetch now false r).installer.enabled ≡ false
  unfolding switch_routing disable
  switch_routing-off now r = ground arith

  switch_routing-on :
      (now : ℕ) (r : Runtime)
      → has_exits now r ≡ true
      → detect_foreign r.world.dispatcher ≡ none
      → (switch_routing returns_previous module_fetch now true r).installer.enabled ≡ true
  unfolding switch_routing
  switch_routing-on now r there free =
      ground (arith, there, install-enabled r.world r.installer free)

  pub switch_routing-keeps :
      (now : ℕ) (enable : Bool) (r : Runtime)
      → let s = switch_routing returns_previous module_fetch now enable r in
        (s.prober ≡ r.prober)
        × (s.refill ≡ r.refill)
        × (s.subscriptions ≡ r.subscriptions)
        × (s.supervisor ≡ r.supervisor)
  unfolding switch_routing
  switch_routing-keeps now enable r = ground arith

  module _ (now : ℕ) (next : AnyIpPoolSection) (r : Runtime) where
    abbrev pub reconfigured : Runtime
    reconfigured = reconfigure returns_previous module_fetch now next r

    abbrev applied : Runtime
    applied = record (apply_config (with_section next r)) {
      max_attempts = some (some (or_else next.max_rotate_attempts 3));
    }

    abbrev switched : Bool → Runtime
    switched enable = switch_routing returns_previous module_fetch now enable applied

    reconfigure_applied : reconfigured ≡ switched (is_enabled next)
    unfolding reconfigure
    reconfigure_applied = refl

    -- Settings that switch the pool off leave routing off and no refill loop.
    pub reconfigure-off :
        is_enabled next ≡ false
        → (reconfigured.installer.enabled ≡ false) × (reconfigured.refill ≡ none)
    unfolding reconfigure
    reconfigure-off off =
        let (p, i, w, l) = apply_config-keeps (with_section next r) in
        let (p', l', f', s') = switch_routing-keeps now (is_enabled next) applied in
        let unwanted : wants_refill next ≡ false = ground (arith, off) in
        (
          subst (λ b. (switched b).installer.enabled ≡ false) (sym off)
              (switch_routing-off now applied),
          l' ∙ l ∙ rw unwanted refl,
        )

    -- Settings that leave the pool on switch routing on, where the table has an exit and no foreign
    -- dispatcher stands in the slot.
    pub reconfigure-on :
        is_enabled next ≡ true
        → has_exits now r ≡ true
        → detect_foreign r.world.dispatcher ≡ none
        → reconfigured.installer.enabled ≡ true
    unfolding reconfigure snapshot
    reconfigure-on on there free =
        let (p, i, w, l) = apply_config-keeps (with_section next r) in
        let still : has_exits now applied ≡ true = ap (λ q. ltb 0 (length q.0)) p ∙ there in
        let slot : detect_foreign applied.world.dispatcher ≡ none =
          ap (λ v. detect_foreign v.dispatcher) w ∙ free in
        subst (λ b. (switched b).installer.enabled ≡ true) (sym on)
          (switch_routing-on now applied still slot)

    -- Whatever the new settings say of manual exits and of the pinned one, the rows of the table
    -- and the pin stay as they are.
    pub reconfigure-rows : rows reconfigured.prober.pool ≡ rows r.prober.pool
    unfolding reconfigure
    reconfigure-rows =
        let (p, i, w, l) = apply_config-keeps (with_section next r) in
        let (p', l', f', s') = switch_routing-keeps now (is_enabled next) applied in
        ap (λ c. rows c.pool) p' ∙ p

    -- A refill loop that goes on keeps what it was made with: the blocked countries, the model of
    -- its smoke request, and the section its callback reads, whatever the new settings say.
    pub reconfigure-refill :
        (loop : RefillLoop)
        → r.refill ≡ some loop
        → wants_refill next ≡ true
        → reconfigured.refill ≡ some loop
    unfolding reconfigure
    reconfigure-refill loop runs wanted =
        let (p, i, w, l) = apply_config-keeps (with_section next r) in
        let (p', l', f', s') = switch_routing-keeps now (is_enabled next) applied in
        l' ∙ l ∙ rw (wanted, runs) refl

    apply_config-subscriptions :
        (f : Fetcher)
        → r.subscriptions ≡ some f
        → ((apply_config (with_section next r)).supervisor ≡ r.supervisor)
          × (urls_in next ≡ [] → (apply_config (with_section next r)).subscriptions ≡ some f)
    unfolding apply_config apply_subscriptions apply_refill apply_knobs
    apply_config-subscriptions f there = ground (arith, there)

    -- Settings without a subscription leave the fetcher as it was, with its URLs and its timer.
    pub reconfigure-subscriptions :
        (f : Fetcher)
        → r.subscriptions ≡ some f
        → urls_in next ≡ []
        → reconfigured.subscriptions ≡ some f
    unfolding reconfigure
    reconfigure-subscriptions f there gone =
        let (p', l', f', s') = switch_routing-keeps now (is_enabled next) applied in
        f' ∙ (apply_config-subscriptions f there).1 gone

    -- Where there is a fetcher, no settings change the path of the bridge's binary.
    pub reconfigure-supervisor :
        (f : Fetcher) → r.subscriptions ≡ some f → reconfigured.supervisor ≡ r.supervisor
    unfolding reconfigure
    reconfigure-supervisor f there =
        let (p', l', f', s') = switch_routing-keeps now (is_enabled next) applied in
        s' ∙ (apply_config-subscriptions f there).0

    -- Where a refill loop runs on and a fetcher is there, settings with an empty list of
    -- subscriptions leave the rows of the table and the pin as they are; the loop keeps what it was
    -- made with, the blocked countries, the model of its smoke request and the section that its
    -- callback reads; the fetcher keeps its URLs and its timer, and the bridge the path of its
    -- binary, whatever the settings say of them.
    pub reconfigure-leaves :
        (loop : RefillLoop) (f : Fetcher)
        → r.refill ≡ some loop
        → r.subscriptions ≡ some f
        → wants_refill next ≡ true
        → urls_in next ≡ []
        → (rows reconfigured.prober.pool ≡ rows r.prober.pool)
          × (reconfigured.refill ≡ some loop)
          × (reconfigured.subscriptions ≡ some f)
          × (reconfigured.supervisor ≡ r.supervisor)
    reconfigure-leaves loop f runs there wanted gone = (
      reconfigure-rows,
      reconfigure-refill loop runs wanted,
      reconfigure-subscriptions f there gone,
      reconfigure-supervisor f there,
    )
