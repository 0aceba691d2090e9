-- ===== src/Singbox/Config.antt =====
-- packages/plugin/src/pool/singbox.ts: `generateConfig` and `nodeKeyOf`. The constants of the
-- configuration (log level, listen address, the final route) are left out.
use dsh_opencode.Base.{ℕ, suc, List, [], ◌∷◌, ◌++◌, Text, codes, Option, none, some, text_dec}
use dsh_opencode.Base.Decimal.{decimal}
use dsh_opencode.Base.Maps.{insert, delete}
use dsh_opencode.Base.Json.{Json, Fields, end, field, Number}
use dsh_opencode.Singbox.Outbound.{ParsedNode, build_outbound}

abbrev pub node_key_of : ParsedNode → Text
node_key_of n = n.node_type ++ codes ":" ++ n.server ++ codes ":" ++ n.port.text

abbrev pub tag_of : ℕ → Text
tag_of index = codes "node-" ++ decimal index

abbrev pub in_tag : ℕ → Text
in_tag index = codes "in-" ++ tag_of index

abbrev pub out_tag : ℕ → Text
out_tag index = codes "out-" ++ tag_of index

pub record Inbound : Type 0 where
  pub tag : Text
  pub listen_port : ℕ

pub record Rule : Type 0 where
  pub inbound : Text
  pub outbound : Text

pub record GeneratedConfig : Type 0 where
  pub inbounds : List Inbound
  pub outbounds : List Fields
  pub rules : List Rule
  pub port_map : List (Text × ℕ)

module _ (to_number : Option Json → Option Number) where
  -- One turn of the loop; an unknown node takes its port from the map again.
  abbrev pub take_node : ℕ → ℕ → ParsedNode → Option Fields → GeneratedConfig → GeneratedConfig
  take_node index port node none g = record g {
    port_map =
        delete text_dec (node_key_of node) (insert text_dec (node_key_of node) port g.port_map);
  }
  take_node index port node (some outbound) g = record {
    inbounds = g.inbounds ++ (record { tag = in_tag index; listen_port = port } ∷ []);
    outbounds = g.outbounds ++ (outbound ∷ []);
    rules = g.rules ++ (record { inbound = in_tag index; outbound = out_tag index } ∷ []);
    port_map = insert text_dec (node_key_of node) port g.port_map;
  }

  unfoldable pub add_nodes : ℕ → ℕ → List ParsedNode → GeneratedConfig → GeneratedConfig
  unfolding build_outbound insert delete
  add_nodes index port [] g = g
  add_nodes index port (node ∷ nodes) g =
      add_nodes (suc index) (suc port) nodes
        (take_node index (suc port) node (build_outbound to_number node (out_tag index)) g)

  abbrev pub direct : Fields
  direct =
      field (codes "type") (Json.str (codes "direct"))
        (field (codes "tag") (Json.str (codes "direct")) end)

  abbrev pub with_direct : GeneratedConfig → GeneratedConfig
  with_direct g = record g { outbounds = g.outbounds ++ (direct ∷ []) }

  -- `generateConfig`
  unfoldable pub generate_config : ℕ → List ParsedNode → GeneratedConfig
  unfolding add_nodes
  generate_config base_port nodes = with_direct (
      add_nodes 0 base_port nodes
        (record { inbounds = []; outbounds = []; rules = []; port_map = [] }))
