-- ===== src/Dispatcher/Agents.antt =====
-- packages/plugin/src/pool/dispatcher.ts: the state of the dispatcher, and the cache of proxy
-- agents with its LRU order. The agents of undici are the parameter `Agent`, their constructor the
-- parameter `build`, which is `none` where it throws.
use dsh_opencode.Base.{
  ℕ, Bool, List, [], ◌∷◌, ◌++◌, Text, Option, none, some, ltb, if◌then◌else◌, length, text_dec,
  same,
}
use dsh_opencode.Base.Maps.{lookup, insert, delete}
use dsh_opencode.Pool.Types.{ExitPool, ExitNode, node_of}
use dsh_opencode.Dispatcher.Hosts.{exit_proxy_uri}

pub record Dispatcher (Agent : Type 0) : Type 0 where
  pub pool : ExitPool
  pub proxy_hosts : List Text
  pub agent_lru_cap : ℕ
  pub agents : List (Text × Agent)
  pub agents_order : List Text
  pub destroyed : List Agent
  pub closed : Bool

-- `indexOf` and `splice`: without the first occurrence.
unfoldable pub take_out : Text → List Text → List Text
take_out id [] = []
take_out id (x ∷ xs) = let rest = take_out id xs in if same id x then xs else x ∷ rest

module _ {Agent : Type 0} where
  abbrev pub option_list : Option Agent → List Agent
  option_list none = []
  option_list (some a) = a ∷ []

  -- `shift()` of the order, and the end of the agent it names.
  unfoldable pub evict_first : List Text → Dispatcher Agent → Dispatcher Agent
  evict_first [] d = d
  evict_first (old ∷ rest) d = record d {
    agents = delete text_dec old d.agents;
    agents_order = rest;
    destroyed = d.destroyed ++ option_list (lookup text_dec old d.agents);
  }

  unfoldable pub trim_cache : Dispatcher Agent → Dispatcher Agent
  unfolding evict_first
  trim_cache d =
      if ltb d.agent_lru_cap (length d.agents_order) then evict_first d.agents_order d else d

  abbrev pub remember_agent : Text → Agent → Dispatcher Agent → Dispatcher Agent
  remember_agent id a d = record d {
    agents = insert text_dec id a d.agents;
    agents_order = d.agents_order ++ (id ∷ []);
  }

  abbrev pub touch : Text → Dispatcher Agent → Dispatcher Agent
  touch id d = record d { agents_order = take_out id d.agents_order ++ (id ∷ []) }

module _ {Agent : Type 0} (build : Text → Option Agent) where
  abbrev pub build_agent : Text → ExitNode → Dispatcher Agent → Dispatcher Agent × Option Agent
  build_agent id node d = elim (build (exit_proxy_uri node.id node.protocol)) [
    | none ↦ (d, none)
    | some a ↦ (trim_cache (remember_agent id a d), some a)
  ]

  -- `#agentFor`
  unfoldable pub agent_for : Text → Dispatcher Agent → Dispatcher Agent × Option Agent
  unfolding trim_cache take_out
  agent_for id d = elim (lookup text_dec id d.agents) [
    | some a ↦ (touch id d, some a)
    | none ↦ elim (node_of id d.pool) [ none ↦ (d, none) | some node ↦ build_agent id node d ]
  ]
