-- ===== src/Singbox/Supervisor.antt =====
-- packages/plugin/src/pool/singbox.ts: `SingBoxSupervisor`. The search for the binary, the files, the
-- preflight and the wait for the ports are I/O; a stop that awaits the exit of its child, and a
-- reload that goes on after it, are steps of their own.
use dsh_opencode.Base.{
  ℕ, suc, ◌≡◌, refl, Bool, true, false, List, [], ◌∷◌, ◌++◌, Text, codes, Option, none, some,
  if◌then◌else◌, ◌==◌, text_dec, All, Option-cases, inl, inr,
}
use dsh_opencode.Base.Decimal.{decimal}
use dsh_opencode.Base.Json.{Json, Number}
use dsh_opencode.Base.Maps.{lookup, All-lookup}
use dsh_opencode.Singbox.Outbound.{ParsedNode}
use dsh_opencode.Singbox.Config.{node_key_of, generate_config, GeneratedConfig}
use dsh_opencode.Singbox.Wiring.{listens, generate_config-IsWired}

-- A child process; one that a signal has ended has no exit code.
pub record BridgeChild : Type 0 where
  pub number : ℕ
  pub exit_code : Option ℕ

pub record Supervisor : Type 0 where
  pub bin_path : Text
  pub child : Option BridgeChild
  pub running : Bool
  pub port_map : List (Text × ℕ)
  pub nodes : List ParsedNode
  pub next_child : ℕ

unfoldable pub new_supervisor : Text → Supervisor
new_supervisor bin_path = record {
  bin_path = bin_path;
  child = none;
  running = false;
  port_map = [];
  nodes = [];
  next_child = 0;
}

unfoldable pub set_bin_path : Text → Supervisor → Supervisor
set_bin_path path s = record s { bin_path = path }

-- `stop` up to its await, and the child whose exit it awaits.
abbrev pub stop_bridge_child : Option BridgeChild → Supervisor → Supervisor × Option ℕ
stop_bridge_child none s = (record s { running = false }, none)
stop_bridge_child (some c) s = elim c.exit_code [
  | none ↦ (record s { child = none }, some c.number)
  | some code ↦ (record s { running = false }, none)
]

unfoldable pub stop_supervisor : Supervisor → Supervisor × Option ℕ
stop_supervisor s = stop_bridge_child s.child s

-- The end of a stop, after the exit that it awaited.
unfoldable pub stop_ended : Supervisor → Supervisor
stop_ended s = record s { running = false }

-- The listener on the exit of a child that was spawned; a child that is no longer the current one
-- changes nothing.
abbrev pub exited : ℕ → Option ℕ → Option BridgeChild → Supervisor → Supervisor
exited number code none s = s
exited number code (some c) s =
    if c.number == number
    then record s { child = some (record c { exit_code = code }); running = false }
    else s

unfoldable pub bridge_exits : ℕ → Option ℕ → Supervisor → Supervisor
bridge_exits number code s = exited number code s.child s

-- `reload` without nodes, after its stop.
unfoldable pub reload_empty : Supervisor → Supervisor
reload_empty s = record s { nodes = []; port_map = [] }

-- The address and the node of a converted exit.
abbrev pub LocalExit : Type 0
LocalExit = Text × ParsedNode

abbrev pub exit_at : ParsedNode → Option ℕ → List LocalExit → List LocalExit
exit_at node none rest = rest
exit_at node (some port) rest = (codes "127.0.0.1:" ++ decimal port, node) ∷ rest

unfoldable pub exits_of : List (Text × ℕ) → List ParsedNode → List LocalExit
unfolding lookup text_dec decimal
exits_of port_map [] = []
exits_of port_map (node ∷ nodes) =
    exit_at node (lookup text_dec (node_key_of node) port_map) (exits_of port_map nodes)

module _ (to_number : Option Json → Option Number) where
  abbrev pub config_for : ℕ → List ParsedNode → GeneratedConfig
  config_for base_port nodes = generate_config to_number base_port nodes

  -- The rest of `reload` after its preflight and its stop: the new child, and the exits that it
  -- serves.
  unfoldable pub reload : ℕ → List ParsedNode → Supervisor → Supervisor × List LocalExit
  unfolding generate_config exits_of
  reload base_port nodes s =
      let port_map = (config_for base_port nodes).port_map in
      (
        record s {
          child = some (record { number = s.next_child; exit_code = none });
          next_child = suc s.next_child;
          running = true;
          nodes = nodes;
          port_map = port_map;
        },
        exits_of port_map nodes,
      )

  -- An inbound of the configuration listens on the port of the exit.
  abbrev pub IsServed : GeneratedConfig → LocalExit → Type 0
  IsServed g e =
      (port : ℕ) × (e.0 ≡ codes "127.0.0.1:" ++ decimal port) × (listens port g.inbounds ≡ true)

  exits_of-IsServed :
      (g : GeneratedConfig) (nodes : List ParsedNode)
      → All (λ e. listens e.1 g.inbounds ≡ true) g.port_map
      → All (IsServed g) (exits_of g.port_map nodes)
  unfolding exits_of
  exits_of-IsServed g [] m = tt
  exits_of-IsServed g (node ∷ nodes) m =
      let rest = exits_of-IsServed g nodes m in
      elim (Option-cases (lookup text_dec (node_key_of node) g.port_map)) [
        | inl e ↦ rw (e, exits_of) rest
        | inr (port, e) ↦
            let listening =
              All-lookup text_dec (λ p. listens p.1 g.inbounds ≡ true) (node_key_of node) g.port_map
                m e in
            rw (e, exits_of) ((port, refl, listening), rest)
      ]

  -- Each exit that a reload hands out is at a port that an inbound of the configuration, which was
  -- written for the same nodes, listens on.
  pub reload-IsServed :
      (base_port : ℕ) (nodes : List ParsedNode) (s : Supervisor)
      → All (IsServed (config_for base_port nodes)) (reload base_port nodes s).1
  unfolding reload
  reload-IsServed base_port nodes s =
      let (a, r, o, m) = generate_config-IsWired to_number base_port nodes in
      exits_of-IsServed (config_for base_port nodes) nodes m
