-- ===== src/Tests/Routes.antt =====
-- Requests through the dispatcher over the pool of two exits
-- (packages/plugin/test/dispatcher.test.ts). An agent is its URI.
use dsh_opencode.Base.{
  ◌≡◌, ◌<◌, refl, true, false, [], ◌∷◌, Text, codes, Option, some, arith, count_if, keep,
}
use dsh_opencode.Base.Maps.{has}
use dsh_opencode.Pool.Selection.{is_usable, rank, usable_exits}
use dsh_opencode.Sources.Lines.{trim_start, is_space}
use dsh_opencode.Dispatcher.Hosts.{exit_proxy_uri}
use dsh_opencode.Dispatcher.Agents.{Dispatcher, agent_for}
use dsh_opencode.Dispatcher.Lru
use dsh_opencode.Dispatcher.Lru.{IsLru, IsNewest}
use dsh_opencode.Dispatcher.Routing.{RoutingContext, is_proxied, dispatch}
use dsh_opencode.Dispatcher.Observer.{Signal, observe, handle, handle_all}
use dsh_opencode.Dispatcher.Outcome
use dsh_opencode.Dispatcher.Outcome.{charge, by_status}
use dsh_opencode.Dispatcher.Paths
use dsh_opencode.Tests.Exits.{two, id_a, id_b, heads, model, session, program}

unfoldable routing : Unit {0}
unfolding program dispatch agent_for is_usable rank usable_exits keep handle observe is_proxied
    trim_start is_space exit_proxy_uri
routing = tt

abbrev build : Text → Option Text
build uri = some uri

abbrev at_zen : Text → Option Text
at_zen value = some (codes "opencode.ai")

abbrev at_v6 : Text → Option Text
at_v6 value = some (codes "[::1]")

abbrev fresh : Dispatcher Text
fresh = record {
  pool = two;
  proxy_hosts = codes "opencode.ai" ∷ codes "::1" ∷ [];
  agent_lru_cap = 1;
  agents = [];
  agents_order = [];
  destroyed = [];
  closed = false;
}

abbrev zen : Text
zen = codes "https://opencode.ai"

abbrev context : RoutingContext
context = record { model = some model; session = some session }

fresh-IsLru : IsLru fresh
unfolding count_if has
fresh-IsLru = record { named = λ k. refl; within = omega arith }

agent_for_lem_example :
    IsLru (agent_for build id_a fresh).0
    × ((a : Text)
        → 0 < 1
        → (agent_for build id_a fresh).1 ≡ some a
        → IsNewest id_a a (agent_for build id_a fresh).0)
agent_for_lem_example = Lru.agent_for_lem build id_a fresh fresh-IsLru

dispatch-via_example :
    (false ≡ false)
    × (is_proxied at_zen zen fresh ≡ true)
    × (model ≡ model)
    × (is_usable 10 id_b model two ≡ true)
unfolding routing
dispatch-via_example =
    Paths.dispatch-via build at_zen heads 10 zen context fresh {a = codes "http://b:2"} {id = id_b}
      {session = session} refl

handle_all-observe_example :
    (handle_all
      ((5, Signal.response_start 503) ∷ (6, Signal.response_error) ∷ [])
      (observe id_a model session 2000 10000 two)).pool
    ≡ charge id_a model session (some (by_status 5 503)) two
unfolding Outcome.first_outcome
handle_all-observe_example =
    Outcome.handle_all-observe ((5, Signal.response_start 503) ∷ (6, Signal.response_error) ∷ [])
      id_a model session 2000 10000 two
