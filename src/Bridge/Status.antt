-- ===== src/Bridge/Status.antt =====
-- packages/plugin/src/ip-pool-settings/bridge.ts: `buildStatusView`. The counters of the last refill
-- round, which the runtime's record leaves out, are an argument.
use dsh_opencode.Base.{
  ℕ, Bool, true, false, not, List, [], ◌∷◌, map, Text, Option, none, some, if◌then◌else◌, ltb,
  length, keep,
}
use dsh_opencode.Pool.Types.{
  ExitHealth, ExitPool, ExitSource, ExitState, BanState, ModelBan, PassiveStats, PoolState,
  Protocol, Quality,
}
use dsh_opencode.Pool.Capacity.{BySource, snapshot}
use dsh_opencode.Pool.Listing.{Entry, list}
use dsh_opencode.Pool.Passive.{passive_stats}
use dsh_opencode.Prober.Queue.{Prober}
use dsh_opencode.SubscriptionFetcher.{Fetcher}
use dsh_opencode.Assembly.{Runtime, RefillLoop}

pub record BanView : Type 0 where
  pub model : Text
  pub state : BanState
  pub banned_at : ℕ

pub record ExitRowView : Type 0 where
  pub id : Text
  pub source : ExitSource
  pub protocol : Protocol
  pub pinned : Bool
  pub exit_ip : Text
  pub exit_location : Text
  pub latency_ms : ℕ
  pub quality : Quality
  pub state : ExitState
  pub cooling : Bool
  pub cooldown_until : ℕ
  pub consecutive_limited : ℕ
  pub banned_models : List BanView
  pub passive : PassiveStats

pub record ProberView : Type 0 where
  pub queued : ℕ
  pub in_flight : ℕ
  pub enqueued : ℕ
  pub completed : ℕ

pub record SubscriptionView : Type 0 where
  pub url_count : ℕ
  pub pending_conversion : ℕ
  pub converted_admitted : ℕ
  pub plaintext_admitted : ℕ
  pub last_fetch : ℕ
  pub last_error : Text

pub record PoolStatusView (RefillView : Type 0) : Type 0 where
  pub enabled : Bool
  pub deferred_reason : Text
  pub state : PoolState
  pub total : ℕ
  pub by_source : BySource
  pub available_free : ℕ
  pub target_size : ℕ
  pub pinned : Option (Text × Bool)
  pub proxy_hosts : List Text
  pub exits : List ExitRowView
  pub prober : ProberView
  pub refill : Option RefillView
  pub subscription : Option SubscriptionView
  pub at : ℕ

abbrev pub is_ok : BanState → Bool
is_ok BanState.ok = true
is_ok _ = false

abbrev pub ban_view : Text × ModelBan → BanView
ban_view (model, ban) = record { model = model; state = ban.state; banned_at = ban.banned_at }

abbrev pub exit_row : ℕ → PassiveStats → Entry → ExitHealth → ExitRowView
exit_row now passive e health = record {
  id = e.node.id;
  source = e.node.source;
  protocol = e.node.protocol;
  pinned = e.node.pinned;
  exit_ip = e.node.exit_ip;
  exit_location = e.node.exit_location;
  latency_ms = e.node.latency_ms;
  quality = e.node.quality;
  state = health.state;
  cooling = ltb now health.cooldown_until;
  cooldown_until = health.cooldown_until;
  consecutive_limited = health.consecutive_limited;
  banned_models = map ban_view (keep (λ b. not (is_ok b.1.state)) e.bans);
  passive = passive;
}

-- One row before the others; an exit without health has none to read, and the view throws.
abbrev pub add_row :
    ℕ
    → PassiveStats
    → Entry
    → Option ExitHealth
    → Option (List ExitRowView)
    → Option (List ExitRowView)
add_row now passive e none rows = none
add_row now passive e (some health) none = none
add_row now passive e (some health) (some rows) = some (exit_row now passive e health ∷ rows)

unfoldable pub exit_rows : ℕ → ExitPool → List Entry → Option (List ExitRowView)
unfolding keep passive_stats
exit_rows now pool [] = some []
exit_rows now pool (e ∷ es) =
    add_row now (passive_stats e.node.id pool) e e.health (exit_rows now pool es)

abbrev pub prober_view : Prober → ProberView
prober_view c = record {
  queued = length c.queue;
  in_flight = c.in_flight;
  enqueued = c.enqueued;
  completed = c.completed;
}

abbrev pub subscription_view : Option Fetcher → Option SubscriptionView
subscription_view none = none
subscription_view (some f) = some (record {
  url_count = length f.urls;
  pending_conversion = length f.state.pending_conversion;
  converted_admitted = f.state.converted_admitted;
  plaintext_admitted = f.state.plaintext_admitted;
  last_fetch = f.state.last_fetch;
  last_error = f.state.last_error;
})

abbrev pub text_or_none : Option Text → Text
text_or_none none = []
text_or_none (some s) = s

module _ {RefillView : Type 0} (refill_view : RefillLoop → RefillView) where
  abbrev pub refill_of : Option RefillLoop → Option RefillView
  refill_of none = none
  refill_of (some l) = some (refill_view l)

  abbrev pub pinned_view : Text → Bool → Option (Text × Bool)
  pinned_view [] strict = none
  pinned_view (c ∷ id) strict = some (c ∷ id, strict)

  -- The view of a runtime.
  abbrev pub live_view :
      ℕ → Runtime → Bool → List Text → List ExitRowView → PoolStatusView RefillView
  live_view now r strict proxy_hosts rows =
      let s = snapshot now r.prober.pool in
      record {
        enabled = r.installer.enabled;
        deferred_reason =
            if r.installer.enabled then [] else text_or_none r.installer.deferred_reason;
        state = s.state;
        total = s.total;
        by_source = s.by_source;
        available_free = s.available_free;
        target_size = r.prober.pool.target_size;
        pinned = pinned_view s.pinned strict;
        proxy_hosts = proxy_hosts;
        exits = rows;
        prober = prober_view r.prober;
        refill = refill_of r.refill;
        subscription = subscription_view r.subscriptions;
        at = now;
      }

  -- The view without a runtime.
  abbrev pub disabled_view : ℕ → List Text → PoolStatusView RefillView
  disabled_view now proxy_hosts = record {
    enabled = false;
    deferred_reason = [];
    state = PoolState.healthy;
    total = 0;
    by_source = record { free = 0; manual = 0; subscription = 0; goproxy = 0 };
    available_free = 0;
    target_size = 20;
    pinned = none;
    proxy_hosts = proxy_hosts;
    exits = [];
    prober = record { queued = 0; in_flight = 0; enqueued = 0; completed = 0 };
    refill = none;
    subscription = none;
    at = now;
  }

  abbrev pub with_rows :
      ℕ
      → Runtime
      → Bool
      → List Text
      → Option (List ExitRowView)
      → Option (PoolStatusView RefillView)
  with_rows now r strict proxy_hosts none = none
  with_rows now r strict proxy_hosts (some rows) = some (live_view now r strict proxy_hosts rows)

  unfoldable pub build_status_view :
      ℕ → Option Runtime → Bool → List Text → Option (PoolStatusView RefillView)
  unfolding exit_rows list snapshot
  build_status_view now none strict proxy_hosts = some (disabled_view now proxy_hosts)
  build_status_view now (some r) strict proxy_hosts =
      with_rows now r strict proxy_hosts (exit_rows now r.prober.pool (list r.prober.pool))
