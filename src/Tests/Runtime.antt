-- ===== src/Tests/Runtime.antt =====
-- Runs of ip-pool.ts, pool/installer.ts and the settings on concrete values.
use dsh_opencode.Base.{◌≡◌, refl, true, false, [], ◌∷◌, Text, Option, codes, none, some, text_dec}
use dsh_opencode.Base.Maps.{insert}
use dsh_opencode.Sources.Lines.{trim_start, is_space}
use dsh_opencode.Prober.Queue
use dsh_opencode.Prober.Queue.{pump, wake, pump_loop, start_next, find_runnable}
use dsh_opencode.Installer.{World, Installer, ours, other, new_installer, install, detect_foreign}
use dsh_opencode.Installer.Restores
use dsh_opencode.Installer.Restores.{SameSlots, undone, IsSettled, new_installer-IsSettled}
use dsh_opencode.Settings.{
  AnyIpPoolSection, IpPoolSettings, empty_section, with_defaults, to_ip_pool_config,
}
use dsh_opencode.Settings.Cycle
use dsh_opencode.Settings.Cycle.{as_carried}
use dsh_opencode.Settings.Controller
use dsh_opencode.Settings.Controller.{
  new_controller, apply_committed, end_assembly, dispose_controller,
}
use dsh_opencode.Bridge.Trust.{Request, PageUrl, one, is_trusted_bridge_request}
use dsh_opencode.Bridge.Refusals
use dsh_opencode.Dispatcher.Hosts.{lower}
use dsh_opencode.Base.Decimal.{decimal}
use dsh_opencode.SubscriptionFetcher.{Fetcher, new_fetcher, set_urls, start_fetcher}
use dsh_opencode.Assembly.{Runtime, RefillLoop, start_ip_pool, reconfigure, on_admitted}
use dsh_opencode.Assembly.Applied.{rows}
use dsh_opencode.Assembly.Live
use dsh_opencode.Assembly.Stale

-- undici's own agent in the slot, and the platform's fetch.
abbrev host : World
host = record {
  dispatcher = some (other (codes "Agent") true 7);
  fetch = 1;
  next_router = 0;
  destroyed = [];
}

abbrev fresh_installer : Installer
fresh_installer = new_installer none

disable-install_example :
    ((undone true (some 2) host fresh_installer).1.enabled ≡ false)
    × SameSlots (undone true (some 2) host fresh_installer).0 host
unfolding new_installer
disable-install_example =
    Restores.disable-install (some 2) host fresh_installer (new_installer-IsSettled none) refl
      (λ e. cc)

install-disable_void_example :
    let left = undone false (some 2) host fresh_installer in
    let again = install false (some 2) left.0 left.1 in
    (left.0.dispatcher ≡ some (ours 0))
    × (left.0.destroyed ≡ 0 ∷ [])
    × (again.0 ≡ left.0)
    × (again.1.enabled ≡ false)
unfolding detect_foreign text_dec new_installer
install-disable_void_example =
    Restores.install-disable_void (some 2) host fresh_installer (new_installer-IsSettled none) refl
      refl

abbrev settings : IpPoolSettings
settings = record (with_defaults none) {
  enabled = true;
  probe_models = codes "m" ∷ codes "m" ∷ [];
  max_concurrent_probes = 8;
}

with_defaults-to_ip_pool_config_example :
    with_defaults (some (to_ip_pool_config settings)) ≡ as_carried settings
with_defaults-to_ip_pool_config_example = Cycle.with_defaults-to_ip_pool_config settings

-- One manual exit, a subscription and the free list.
abbrev config : AnyIpPoolSection
config = record empty_section {
  enabled = some true;
  manual = some (codes "1.2.3.4:80" ∷ []);
  subscriptions = some (codes "https://s" ∷ []);
  singbox_path = some (codes "sing-box");
}

abbrev begun : Runtime
begun = start_ip_pool true none 0 host config

abbrev off : AnyIpPoolSection
off = record config { enabled = some false }

abbrev edited : AnyIpPoolSection
edited = record empty_section {
  manual = some (codes "5.6.7.8:80" ∷ []);
  singbox_path = some (codes "/opt/sing-box");
  free =
      some
        (record { enabled = none; target_size = none; blocked_countries = some (codes "RU" ∷ []) });
}

unfoldable live : Unit {0}
unfolding start_ip_pool reconfigure on_admitted detect_foreign insert pump wake Queue.idle pump_loop
    start_next find_runnable text_dec trim_start is_space
live = tt

begun_routing : begun.installer.enabled ≡ true
unfolding live
begun_routing = refl

reconfigure-off_example :
    ((reconfigure true none 1 off begun).installer.enabled ≡ false)
    × ((reconfigure true none 1 off begun).refill ≡ none)
reconfigure-off_example = Live.reconfigure-off true none 1 off begun refl

-- The runtime that was switched off is switched on again.
abbrev stopped : Runtime
stopped = reconfigure true none 1 off begun

reconfigure-on_example : (reconfigure true none 2 config stopped).installer.enabled ≡ true
unfolding live
reconfigure-on_example = Live.reconfigure-on true none 2 config stopped refl refl refl

abbrev loop : RefillLoop
loop = record {
  captured = config;
  blocked_countries = none;
  smoke_model = none;
  timer = true;
  running = true;
  stopped = false;
}

abbrev fetcher : Fetcher
fetcher = start_fetcher (set_urls (codes "https://s" ∷ []) (new_fetcher none))

reconfigure-leaves_example :
    let edits = reconfigure true none 1 edited begun in
    (rows edits.prober.pool ≡ rows begun.prober.pool)
    × (edits.refill ≡ some loop)
    × (edits.subscriptions ≡ some fetcher)
    × (edits.supervisor ≡ begun.supervisor)
unfolding live
reconfigure-leaves_example =
    Live.reconfigure-leaves true none 1 edited begun loop fetcher refl refl refl refl

on_admitted-reconfigure_example :
    (stopped.installer.enabled ≡ false)
    × ((on_admitted true none 1 loop stopped).installer.enabled ≡ true)
unfolding live
on_admitted-reconfigure_example =
    Stale.on_admitted-reconfigure true none 1 off begun loop refl refl refl refl refl

-- A page of another site that posts to the bridge.
abbrev page : PageUrl
page = record {
  host = codes "evil.example";
  hostname = codes "evil.example";
  username = [];
  password = [];
  pathname = codes "/";
  search = [];
  hash = [];
}

abbrev read_page : Text → Option PageUrl
read_page s = some page

abbrev posted : Request
posted = record {
  remote_address = some (codes "127.0.0.1");
  host = some (one (codes "localhost:3000"));
  origin = some (one (codes "http://evil.example"));
  sec_fetch_site = none;
}

is_trusted_bridge_request-origin_example : is_trusted_bridge_request read_page posted ≡ false
is_trusted_bridge_request-origin_example =
    Refusals.is_trusted_bridge_request-origin read_page posted (codes "localhost:3000")
      (one (codes "http://evil.example")) page refl refl refl (λ e. cc)

-- Requests of the card itself pass.
abbrev own_page : Text → Option PageUrl
own_page s = some (record page { host = codes "localhost:3000"; hostname = codes "localhost" })

own_request_passes :
    is_trusted_bridge_request own_page
      (record posted { origin = some (one (codes "http://localhost:3000")) })
    ≡ true
unfolding is_trusted_bridge_request trim_start text_dec decimal is_space lower
own_request_passes = refl

abbrev last_section : AnyIpPoolSection → AnyIpPoolSection → AnyIpPoolSection
last_section next old = next

apply_committed_twice_example :
    let both =
      apply_committed last_section settings
        (apply_committed last_section settings (new_controller last_section none)) in
    let made =
      end_assembly last_section
        (some empty_section)
        (end_assembly last_section (some empty_section) both) in
    (made.runtime ≡ some 1)
    × ((dispose_controller last_section made).runtime ≡ none)
    × ((dispose_controller last_section made).live ≡ (0, to_ip_pool_config settings) ∷ [])
apply_committed_twice_example =
    Controller.apply_committed_twice last_section none settings settings empty_section empty_section
      refl refl
