-- ===== src/Settings.antt =====
-- packages/plugin/src/ip-pool-settings/namespace.ts and apply.ts: the settings of the pool, the
-- defaults that fill them, and the configuration that the runtime takes of them.
pub mod Cycle
pub mod Controller
use dsh_opencode.Base.{
  ℕ, Bool, true, false, List, [], ◌∷◌, Text, codes, Option, none, some, exists, same, if◌then◌else◌,
}
use dsh_opencode.Pool.Types.{or_else}

-- A section as it is written, in the shape of the settings page or of the configuration file: a
-- field that is missing is `none`.
pub record FreeSection : Type 0 where
  pub enabled : Option Bool
  pub target_size : Option ℕ
  pub blocked_countries : Option (List Text)

pub record SubscriptionSection : Type 0 where
  pub urls : Option (List Text)
  pub refresh_ms : Option ℕ

pub record AnyIpPoolSection : Type 0 where
  pub enabled : Option Bool
  pub probe_models : Option (List Text)
  pub max_concurrent_probes : Option ℕ
  pub free : Option FreeSection
  pub manual : Option (List Text)
  pub subscription : Option SubscriptionSection
  pub subscriptions : Option (List Text)
  pub singbox_path : Option Text
  pub pinned_exit_id : Option Text
  pub pinned_strict : Option Bool
  pub proxy_hosts : Option (List Text)
  pub max_rotate_attempts : Option ℕ

pub record FreeSettings : Type 0 where
  pub enabled : Bool
  pub target_size : ℕ
  pub blocked_countries : List Text

pub record SubscriptionSettings : Type 0 where
  pub urls : List Text
  pub refresh_ms : ℕ

pub record IpPoolSettings : Type 0 where
  pub enabled : Bool
  pub probe_models : List Text
  pub max_concurrent_probes : ℕ
  pub free : FreeSettings
  pub manual : List Text
  pub subscription : SubscriptionSettings
  pub singbox_path : Text
  pub pinned_exit_id : Text
  pub pinned_strict : Bool
  pub proxy_hosts : List Text
  pub max_rotate_attempts : ℕ

-- `value?.field`
abbrev pub chain {ℓ κ} : {A : Type ℓ} {B : Type κ} → (A → Option B) → Option A → Option B
chain f none = none
chain f (some a) = f a

abbrev pub empty_section : AnyIpPoolSection
empty_section = record {
  enabled = none;
  probe_models = none;
  max_concurrent_probes = none;
  free = none;
  manual = none;
  subscription = none;
  subscriptions = none;
  singbox_path = none;
  pinned_exit_id = none;
  pinned_strict = none;
  proxy_hosts = none;
  max_rotate_attempts = none;
}

-- `raw.subscription?.urls ?? raw.subscriptions ?? []`
abbrev pub urls_of : AnyIpPoolSection → List Text
urls_of raw = elim (chain (λ s. s.urls) raw.subscription) [
  | none ↦ or_else raw.subscriptions []
  | some urls ↦ urls
]

unfoldable pub with_defaults : Option AnyIpPoolSection → IpPoolSettings
with_defaults value =
    let raw = or_else value empty_section in
    record {
      enabled = or_else raw.enabled false;
      probe_models = or_else raw.probe_models [];
      max_concurrent_probes = or_else raw.max_concurrent_probes 3;
      free = record {
        enabled = or_else (chain (λ f. f.enabled) raw.free) true;
        target_size = or_else (chain (λ f. f.target_size) raw.free) 20;
        blocked_countries = or_else (chain (λ f. f.blocked_countries) raw.free) (codes "CN" ∷ []);
      };
      manual = or_else raw.manual [];
      subscription = record {
        urls = urls_of raw;
        refresh_ms = or_else (chain (λ s. s.refresh_ms) raw.subscription) 1800000;
      };
      singbox_path = or_else raw.singbox_path (codes "sing-box");
      pinned_exit_id = or_else raw.pinned_exit_id [];
      pinned_strict = or_else raw.pinned_strict false;
      proxy_hosts = or_else raw.proxy_hosts [];
      max_rotate_attempts = or_else raw.max_rotate_attempts 3;
    }

-- The items of a `Set` of texts, each where it stands first; `seen` are those before.
unfoldable pub distinct_models : List Text → List Text → List Text
unfolding exists
distinct_models seen [] = []
distinct_models seen (x ∷ xs) = elim (exists (same x) seen) [
  | true ↦ distinct_models seen xs
  | false ↦ x ∷ distinct_models (x ∷ seen) xs
]

abbrev pub default_probe_model : Text
default_probe_model = codes "big-pickle"

unfoldable pub resolve_probe_models : List Text → List Text
unfolding distinct_models
resolve_probe_models [] = default_probe_model ∷ []
resolve_probe_models (m ∷ ms) = distinct_models [] (m ∷ ms)

-- `toIpPoolConfig`, in the shape of the configuration file.
unfoldable pub to_ip_pool_config : IpPoolSettings → AnyIpPoolSection
unfolding resolve_probe_models
to_ip_pool_config value = record {
  enabled = some value.enabled;
  probe_models = some (resolve_probe_models value.probe_models);
  max_concurrent_probes = none;
  free = some (record {
    enabled = some value.free.enabled;
    target_size = some value.free.target_size;
    blocked_countries = some value.free.blocked_countries;
  });
  manual = some value.manual;
  subscription = none;
  subscriptions = some value.subscription.urls;
  singbox_path = some value.singbox_path;
  pinned_exit_id = some value.pinned_exit_id;
  pinned_strict = some value.pinned_strict;
  proxy_hosts = some value.proxy_hosts;
  max_rotate_attempts = some value.max_rotate_attempts;
}
