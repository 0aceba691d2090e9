-- ===== src/Dispatcher/Routing.antt =====
-- packages/plugin/src/pool/dispatcher.ts: `dispatch`, the list of proxied hosts, `close` and
-- `destroy`. A dispatch answers with the path it takes: undici's own dispatch is behind it.
use dsh_opencode.Base.{
  ℕ, Bool, true, false, not, ◌||◌, List, [], ◌∷◌, ◌++◌, map, Text, codes, Option, none, some,
  if◌then◌else◌, exists, same,
}
use dsh_opencode.Base.Maps.{values}
use dsh_opencode.Pool.Types.{ExitPool, or_else}
use dsh_opencode.Pool.Selection.{pick}
use dsh_opencode.Dispatcher.Hosts.{normalize_host, is_loopback}
use dsh_opencode.Dispatcher.Agents.{Dispatcher, agent_for}

pub record RoutingContext : Type 0 where
  pub model : Option Text
  pub session : Option Text

pub data Route (Agent : Type 0) : Type 0 where
  refused : Route Agent
  direct : Route Agent
  via : Agent → Text → Text → Text → Route Agent

abbrev pub default_proxy_hosts : List Text
default_proxy_hosts = codes "opencode.ai" ∷ []

abbrev pub includes : List Text → Text → Bool
includes hosts host = exists (λ h. same h host) hosts

-- A `Set` of the hosts: each once, in order of insertion.
unfoldable pub set_of : List Text → List Text → List Text
unfolding exists
set_of seen [] = seen
set_of seen (h ∷ hs) = set_of (if includes seen h then seen else seen ++ (h ∷ [])) hs

abbrev pub hosts_or_default : Option (List Text) → List Text
hosts_or_default none = default_proxy_hosts
hosts_or_default (some []) = default_proxy_hosts
hosts_or_default (some (h ∷ hs)) = h ∷ hs

module _ {Agent : Type 0} (hostname : Text → Option Text) where
  unfoldable pub new_dispatcher : Option (List Text) → Option ℕ → ExitPool → Dispatcher Agent
  unfolding set_of normalize_host
  new_dispatcher proxy_hosts cap pool = record {
    pool = pool;
    proxy_hosts =
        set_of [] (map (normalize_host hostname) (or_else proxy_hosts default_proxy_hosts));
    agent_lru_cap = or_else cap 16;
    agents = [];
    agents_order = [];
    destroyed = [];
    closed = false;
  }

  unfoldable pub set_proxy_hosts : Option (List Text) → Dispatcher Agent → Dispatcher Agent
  unfolding set_of normalize_host
  set_proxy_hosts hosts d = record d {
    proxy_hosts = set_of [] (map (normalize_host hostname) (hosts_or_default hosts));
  }

  -- Whether the traffic of an origin goes to the pool.
  unfoldable pub is_proxied : Text → Dispatcher Agent → Bool
  unfolding normalize_host is_loopback exists
  is_proxied origin d =
      let host = normalize_host hostname origin in
      not (is_loopback hostname host || not (includes d.proxy_hosts host))

module _ {Agent : Type 0} where
  -- `close` and `destroy` also end the direct path, which is undici's own.
  unfoldable pub close : Dispatcher Agent → Dispatcher Agent
  close d = record d { closed = true; destroyed = d.destroyed ++ values d.agents }

  unfoldable pub destroy : Dispatcher Agent → Dispatcher Agent
  destroy d = record d {
    closed = true;
    agents = [];
    agents_order = [];
    destroyed = d.destroyed ++ values d.agents;
  }

  abbrev pub via_agent :
      Text → Text → Text → Dispatcher Agent × Option Agent → Dispatcher Agent × Route Agent
  via_agent id model session (d, none) = (d, Route.direct)
  via_agent id model session (d, some a) = (d, Route.via a id model session)

module _ {Agent : Type 0} (build : Text → Option Agent) (hostname : Text → Option Text)
    (coin : Text → Text → Bool) where
  abbrev pub route_picked :
      Text → Text → Dispatcher Agent → ExitPool × Option Text → Dispatcher Agent × Route Agent
  route_picked model session d (pool, none) = (record d { pool = pool }, Route.direct)
  route_picked model session d (pool, some id) =
      via_agent id model session (agent_for build id (record d { pool = pool }))

  -- `dispatch`
  unfoldable pub dispatch :
      ℕ → Text → RoutingContext → Dispatcher Agent → Dispatcher Agent × Route Agent
  unfolding is_proxied pick agent_for
  dispatch now origin context d =
      if d.closed
      then (d, Route.refused)
      else if not (is_proxied hostname origin d)
      then (d, Route.direct)
      else let model = or_else context.model (codes "default") in
        let session = or_else context.session (codes "default") in
        route_picked model session d (pick coin now session model d.pool)
