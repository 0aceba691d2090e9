-- ===== src/Assembly/Stale.antt =====
-- packages/plugin/src/ip-pool.ts: the callback of a refill loop whose round outlives the loop.
use dsh_opencode.Base.{
  ℕ, ◌≡◌, refl, sym, ap, ◌∙◌, subst, Bool, true, false, List, [], ◌∷◌, Option, none, some, arith,
  length, ltb,
}
use dsh_opencode.Pool.Types.{or_else}
use dsh_opencode.Pool.Capacity.{snapshot}
use dsh_opencode.Installer.{World, detect_foreign}
use dsh_opencode.Settings.{AnyIpPoolSection}
use dsh_opencode.Subscription.Valid.{Holds}
use dsh_opencode.Assembly.{
  Runtime, RefillLoop, is_enabled, wants_refill, has_exits, apply_config, apply_knobs, new_refill,
  start_refill, switched_refill, reconfigure, start_ip_pool, on_admitted, assembled,
  initial_routing,
}
use dsh_opencode.Assembly.Applied.{apply_config-keeps}
use dsh_opencode.Assembly.Live.{
  reconfigure-off, reconfigure-rows, install-enabled, switch_routing-keeps, with_section,
}

-- The section that the callback of the runtime's loop reads has the pool enabled.
abbrev pub IsArmed : Runtime → Type 0
IsArmed r = Holds (λ l. is_enabled l.captured ≡ true) r.refill

switched_refill-armed :
    (wanted : Bool) (l : Option RefillLoop) (fresh : RefillLoop)
    → (wanted ≡ true → is_enabled fresh.captured ≡ true)
    → Holds (λ k. is_enabled k.captured ≡ true) l
    → Holds (λ k. is_enabled k.captured ≡ true) (switched_refill wanted l fresh)
unfolding start_refill
switched_refill-armed true none fresh on h = ground (arith, on refl)
switched_refill-armed true (some l) fresh on h = h
switched_refill-armed false l fresh on h = tt

apply_config-IsArmed : (r : Runtime) → IsArmed r → IsArmed (apply_config r)
unfolding new_refill apply_knobs
apply_config-IsArmed r armed =
    let (p, i, w, l) = apply_config-keeps r in
    subst (Holds (λ k. is_enabled k.captured ≡ true)) (sym l) (
      switched_refill-armed (wants_refill r.config) r.refill (new_refill (apply_knobs r))
        (λ wanted. ground (arith, wanted)) armed)

module _ (returns_previous : Bool) (module_fetch : Option ℕ) where
  abbrev pub reconfigured_all : List (ℕ × AnyIpPoolSection) → Runtime → Runtime
  reconfigured_all [] r = r
  reconfigured_all ((now, next) ∷ rest) r =
      reconfigured_all rest (reconfigure returns_previous module_fetch now next r)

  reconfigure-IsArmed :
      (now : ℕ) (next : AnyIpPoolSection) (r : Runtime)
      → IsArmed r
      → IsArmed (reconfigure returns_previous module_fetch now next r)
  unfolding reconfigure
  reconfigure-IsArmed now next r armed =
      let applied = record (apply_config (with_section next r)) {
        max_attempts = some (some (or_else next.max_rotate_attempts 3));
      } in
      let (p, l, f, s) =
        switch_routing-keeps returns_previous module_fetch now (is_enabled next) applied in
      subst (Holds (λ k. is_enabled k.captured ≡ true)) (sym l)
        (apply_config-IsArmed (with_section next r) armed)

  initial_routing-refill :
      (now : ℕ) (r : Runtime)
      → (initial_routing returns_previous module_fetch now r).refill ≡ r.refill
  unfolding initial_routing
  initial_routing-refill now r = ground arith

  start_ip_pool-IsArmed :
      (now : ℕ) (w : World) (config : AnyIpPoolSection)
      → IsArmed (start_ip_pool returns_previous module_fetch now w config)
  unfolding start_ip_pool assembled
  start_ip_pool-IsArmed now w config =
      let parts = assembled now w config in
      apply_config-IsArmed (initial_routing returns_previous module_fetch now parts) (
        subst (Holds (λ k. is_enabled k.captured ≡ true)) (sym (initial_routing-refill now parts))
          tt)

  reconfigured_all-IsArmed :
      (changes : List (ℕ × AnyIpPoolSection)) (r : Runtime)
      → IsArmed r
      → IsArmed (reconfigured_all changes r)
  reconfigured_all-IsArmed [] r armed = armed
  reconfigured_all-IsArmed ((now, next) ∷ rest) r armed =
      reconfigured_all-IsArmed rest _ (reconfigure-IsArmed now next r armed)

  -- Whatever settings are applied after the start, the section that the refill loop's callback
  -- reads has the pool enabled, so the callback's test of it never stops it.
  pub start_ip_pool-IsArmed_always :
      (now : ℕ) (w : World) (config : AnyIpPoolSection) (changes : List (ℕ × AnyIpPoolSection))
      → IsArmed
          (reconfigured_all changes (start_ip_pool returns_previous module_fetch now w config))
  start_ip_pool-IsArmed_always now w config changes =
      reconfigured_all-IsArmed changes _ (start_ip_pool-IsArmed now w config)

  -- A refill round that was under way when the user switched the pool off, whose callback reads a
  -- section with the pool enabled, switches routing on again with the next exit that it admits, if
  -- the table has exits and no foreign dispatcher stands in the slot.
  pub on_admitted-reconfigure :
      (now : ℕ) (next : AnyIpPoolSection) (r : Runtime) (loop : RefillLoop)
      → IsArmed r
      → r.refill ≡ some loop
      → is_enabled next ≡ false
      → has_exits now r ≡ true
      → detect_foreign (reconfigure returns_previous module_fetch now next r).world.dispatcher
        ≡ none
      → let off = reconfigure returns_previous module_fetch now next r in
        (off.installer.enabled ≡ false)
        × ((on_admitted returns_previous module_fetch now loop off).installer.enabled ≡ true)
  unfolding on_admitted snapshot
  on_admitted-reconfigure now next r loop armed runs off there free =
      let stopped = reconfigure returns_previous module_fetch now next r in
      let (idle, gone) = reconfigure-off returns_previous module_fetch now next r off in
      let still : has_exits now stopped ≡ true =
        ap (λ q. ltb 0 (length q.0)) (reconfigure-rows returns_previous module_fetch now next r)
        ∙ there in
      let watched : is_enabled loop.captured ≡ true =
        subst (Holds (λ k. is_enabled k.captured ≡ true)) runs armed in
      let again =
        install-enabled returns_previous module_fetch stopped.world stopped.installer free in
      (idle, ground (arith, idle, still, watched, again))
