-- ===== src/Settings/Cycle.antt =====
-- packages/plugin/src/ip-pool-settings: what the way from the settings to the configuration of the
-- runtime, and back to settings, keeps.
use dsh_opencode.Base.{
  ◌≡◌, refl, ap, ◌∙◌, inl, inr, true, false, List, [], ◌∷◌, Text, some, exists, same, arith,
  Bool-cases,
}
use dsh_opencode.Settings.{
  IpPoolSettings, with_defaults, to_ip_pool_config, resolve_probe_models, distinct_models,
}

-- The settings as the runtime sees them: the cap of concurrent probes and the interval of the
-- subscriptions are not carried over, and the models to probe with are resolved.
abbrev pub as_carried : IpPoolSettings → IpPoolSettings
as_carried v = record v {
  probe_models = resolve_probe_models v.probe_models;
  max_concurrent_probes = 3;
  subscription = record v.subscription { refresh_ms = 1800000 };
}

-- The settings that come back from the runtime's configuration are those that went in, but for the
-- cap of concurrent probes, which is 3, and the subscriptions' interval, which is 30 minutes,
-- whatever was set; the models to probe with are resolved.
pub with_defaults-to_ip_pool_config :
    (v : IpPoolSettings) → with_defaults (some (to_ip_pool_config v)) ≡ as_carried v
unfolding with_defaults to_ip_pool_config
with_defaults-to_ip_pool_config v = refl

same_refl : (x : Text) → same x x ≡ true
same_refl x = ground arith

distinct_models_seen :
    (seen xs : List Text) (x : Text)
    → exists (same x) seen ≡ true
    → distinct_models seen (x ∷ xs) ≡ distinct_models seen xs
unfolding distinct_models
distinct_models_seen seen xs x e = rw (e, distinct_models) refl

distinct_new :
    (seen xs : List Text) (x : Text)
    → exists (same x) seen ≡ false
    → distinct_models seen (x ∷ xs) ≡ x ∷ distinct_models (x ∷ seen) xs
unfolding distinct_models
distinct_new seen xs x e = rw (e, distinct_models) refl

still_fresh :
    (seen others : List Text) (x y : Text)
    → (exists (same y) seen ≡ false → exists (same y) others ≡ false)
    → exists (same y) (x ∷ seen) ≡ false
    → exists (same y) (x ∷ others) ≡ false
unfolding exists
still_fresh seen others x y less out = ground (arith, less, out)

-- What `distinct_models` yields has no item among those seen, so a second pass drops nothing.
distinct_twice :
    (seen others xs : List Text)
    → ((x : Text) → exists (same x) seen ≡ false → exists (same x) others ≡ false)
    → distinct_models others (distinct_models seen xs) ≡ distinct_models seen xs
unfolding distinct_models
distinct_twice seen others [] less = refl
distinct_twice seen others (x ∷ xs) less = elim (Bool-cases (exists (same x) seen)) [
  | inl e ↦ rw (distinct_models_seen seen xs x e) (distinct_twice seen others xs less)
  | inr e ↦ rw (distinct_new seen xs x e) (
      distinct_new others (distinct_models (x ∷ seen) xs) x (less x e)
      ∙ ap (λ l. x ∷ l)
          (distinct_twice (x ∷ seen) (x ∷ others) xs
            (λ y out. still_fresh seen others x y (less y) out)))
]

resolve_twice :
    (ms : List Text) → resolve_probe_models (resolve_probe_models ms) ≡ resolve_probe_models ms
unfolding resolve_probe_models distinct_models exists
resolve_twice [] = refl
resolve_twice (m ∷ ms) = distinct_twice [] [] (m ∷ ms) (λ x out. out)

-- Resolving the models to probe with is done once and for all, so a second way through the
-- configuration changes nothing more.
pub to_ip_pool_config-with_defaults :
    (v : IpPoolSettings)
    → to_ip_pool_config (with_defaults (some (to_ip_pool_config v))) ≡ to_ip_pool_config v
unfolding to_ip_pool_config with_defaults
to_ip_pool_config-with_defaults v = rw (resolve_twice v.probe_models) refl
