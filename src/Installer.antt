-- ===== src/Installer.antt =====
-- packages/plugin/src/pool/installer.ts: `RoutingInstaller` over the slots that it takes, the
-- global dispatcher of undici and `globalThis.fetch`. What undici's setter returns is a parameter:
-- the replaced dispatcher, or nothing, as it does on some hosts.
pub mod Restores
use dsh_opencode.Base.{
  ℕ, ◌+◌, Bool, true, false, not, ◌&&◌, ◌||◌, List, [], ◌∷◌, ◌++◌, Text, codes, Option, none, some,
  if◌then◌else◌, ◌==◌, same,
}

-- A dispatcher in the global slot: one of ours, by number, or another object with the name of its
-- constructor and whether it is an instance of undici's `Agent`.
pub data Installed : Type 0 where
  ours : ℕ → Installed
  other : Text → Bool → ℕ → Installed

pub record World : Type 0 where
  pub dispatcher : Option Installed
  pub fetch : ℕ
  pub next_router : ℕ
  pub destroyed : List ℕ

pub record Installer : Type 0 where
  pub proxy_hosts : Option (List Text)
  pub previous : Option Installed
  pub current : Option ℕ
  pub router_hosts : Option (List Text)
  pub enabled : Bool
  pub deferred_reason : Option Text
  pub saved_fetch : Option ℕ

unfoldable pub new_installer : Option (List Text) → Installer
new_installer proxy_hosts = record {
  proxy_hosts = proxy_hosts;
  previous = none;
  current = none;
  router_hosts = none;
  enabled = false;
  deferred_reason = none;
  saved_fetch = none;
}

-- `setProxyHosts`; the running router has the hosts that it was built with until then.
unfoldable pub set_installer_hosts : Option (List Text) → Installer → Installer
set_installer_hosts hosts i = elim i.current [
  | none ↦ record i { proxy_hosts = hosts }
  | some r ↦ record i { proxy_hosts = hosts; router_hosts = hosts }
]

abbrev pub constructor_name : Installed → Text
constructor_name (ours r) = codes "PoolRoutingDispatcher"
constructor_name (other name is_agent n) = name

abbrev pub is_agent : Installed → Bool
is_agent (ours r) = false
is_agent (other name agent n) = agent

abbrev pub is_default_name : Text → Bool
is_default_name name =
    same name []
    || same name (codes "Object")
    || same name (codes "Agent")
    || same name (codes "Dispatcher")

abbrev pub owned_by : Text → Text
owned_by name =
    codes "deferred: global dispatcher is owned by \""
    ++ name
    ++ codes "\" — install dsh-llm-proxy or the IP pool in one profile only, not both (R1)"

-- `#detectForeignDispatcher`; a getter that throws is one that finds nothing.
unfoldable pub detect_foreign : Option Installed → Option Text
detect_foreign none = none
detect_foreign (some d) =
    if is_default_name (constructor_name d) || is_agent d
    then none
    else some (owned_by (constructor_name d))

abbrev pub put_dispatcher : Option Installed → World → World
put_dispatcher d w = record w { dispatcher = d }

abbrev pub destroy_old : Option ℕ → World → World
destroy_old none w = w
destroy_old (some r) w = record w { destroyed = r ∷ w.destroyed }

abbrev pub or_keep : Option Installed → Option Installed → Option Installed
or_keep none old = old
or_keep (some d) old = some d

-- The module's own fetch, where it has one that is not installed yet.
abbrev pub take_fetch : Option ℕ → World → Installer → World × Installer
take_fetch none w i = (w, i)
take_fetch (some f) w i =
    if w.fetch == f
    then (w, i)
    else (record w { fetch = f }, record i { saved_fetch = some w.fetch })

module _ (returns_previous : Bool) (module_fetch : Option ℕ) where
  abbrev pub returned : Option Installed → Option Installed
  returned d = if returns_previous then d else none

  -- The part of `install` after the test for a foreign dispatcher.
  unfoldable pub engage : World → Installer → World × Installer
  engage w i =
      let router = w.next_router in
      let before = w.dispatcher in
      take_fetch module_fetch
        (destroy_old i.current
          (record w { dispatcher = some (ours router); next_router = router + 1 }))
        (record i {
          previous = or_keep (returned before) i.previous;
          current = some router;
          router_hosts = i.proxy_hosts;
          enabled = true;
          deferred_reason = none;
        })

  unfoldable pub install : World → Installer → World × Installer
  unfolding detect_foreign engage
  install w i = if i.enabled then (w, i) else elim (detect_foreign w.dispatcher) [
    | some reason ↦ (w, record i { deferred_reason = some reason })
    | none ↦ engage w i
  ]

abbrev pub restore_fetch : Option ℕ → World → World
restore_fetch none w = w
restore_fetch (some f) w = record w { fetch = f }

-- The setter may throw here, which is caught.
abbrev pub restore_dispatcher : Bool → Option Installed → World → World
restore_dispatcher setter_throws none w = w
restore_dispatcher setter_throws (some d) w =
    if setter_throws then w else record w { dispatcher = some d }

-- `disable` and `dispose`.
unfoldable pub disable : Bool → World → Installer → World × Installer
disable setter_throws w i =
    if i.enabled
    then (
      destroy_old i.current
          (restore_dispatcher setter_throws i.previous (restore_fetch i.saved_fetch w)),
      record i {
        enabled = false;
        saved_fetch = none;
        previous = none;
        current = none;
        router_hosts = none;
      },
    )
    else (w, i)
