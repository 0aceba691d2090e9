-- ===== src/Subscription/Clash.antt =====
-- packages/plugin/src/pool/subscription.ts: `parseClashProxy` and `parseClashYaml`.
use dsh_opencode.Base.{
  ℕ, ◌+◌, Bool, false, not, ◌&&◌, ◌||◌, List, [], ◌∷◌, ◌++◌, map, Text, codes, Option, none, some,
  if◌then◌else◌, ltb, ◌==◌, exists, same, text_dec,
}
use dsh_opencode.Base.Json.{Json, num, str, arr, obj, Number, Fields, get, items, member, text_of}
use dsh_opencode.Dispatcher.Hosts.{lower}
use dsh_opencode.Catalog.Prices.{member_of}
use dsh_opencode.Sources.Lines.{is_digit, number, number_from}
use dsh_opencode.Singbox.Outbound.{ParsedNode, whole_number}

abbrev pub supported_types : List Text
supported_types =
    codes "vmess"
    ∷ codes "vless"
    ∷ codes "trojan"
    ∷ codes "shadowsocks"
    ∷ codes "shadowsocksr"
    ∷ codes "hysteria"
    ∷ codes "hysteria2"
    ∷ codes "tuic"
    ∷ codes "anytls"
    ∷ codes "http"
    ∷ codes "socks5"
    ∷ []

-- `toLowerCase`, of ASCII letters and the Kelvin sign, which is the one other character whose lower
-- case is in ASCII.
abbrev pub lower_unit : ℕ → ℕ
lower_unit c = if c == 8490 then b'k' else lower c

-- The text of a property, empty where it is no text.
abbrev pub text_or_empty : Option Text → Text
text_or_empty none = []
text_or_empty (some s) = s

abbrev pub text_field : Text → Fields → Text
text_field key fs = text_or_empty (text_of (get key fs))

abbrev pub is_number_text : Text → Bool
is_number_text [] = false
is_number_text (c ∷ s) = not (exists (λ d. not (is_digit d)) (c ∷ s))

-- The port, 0 where there is none.
unfoldable pub clash_port : Option Json → Number
unfolding is_digit exists number_from
clash_port (some (num n)) = if n.is_finite then n else whole_number 0
clash_port (some (str s)) = if is_number_text s then whole_number (number s) else whole_number 0
clash_port _ = whole_number 0

-- `port < 1` and `port > 65535`
abbrev pub is_below_one : Number → Bool
is_below_one n = n.negative || (n.whole == 0)

abbrev pub is_above_range : Number → Bool
is_above_range n =
    not n.negative && (ltb 65535 n.whole || ((n.whole == 65535) && not (n.fraction == 0)))

abbrev pub normalized_type : Text → Text
normalized_type t =
    if same t (codes "ss")
    then codes "shadowsocks"
    else if same t (codes "ssr")
    then codes "shadowsocksr"
    else t

abbrev pub name_or : Text → Text → Text
name_or [] fallback = fallback
name_or (c ∷ s) fallback = c ∷ s

abbrev pub clash_node : Fields → Text → Text → Number → ParsedNode
clash_node fs node_type server port = record {
  name = name_or (text_field (codes "name") fs) (server ++ codes ":" ++ port.text);
  node_type = node_type;
  server = server;
  port = port;
  raw = fs;
}

unfoldable pub clash_from : Fields → Option ParsedNode
unfolding clash_port lower get text_dec member_of exists
clash_from fs =
    let node_type = map lower_unit (text_field (codes "type") fs) in
    let server = text_field (codes "server") fs in
    let port = clash_port (get (codes "port") fs) in
    let normalized = normalized_type node_type in
    if same node_type [] || same server []
    then none
    else if is_below_one port || is_above_range port
    then none
    else if not (member_of supported_types normalized)
    then none
    else some (clash_node fs normalized server port)

-- An array has no property `type`, and what is no object is none.
unfoldable pub parse_clash_proxy : Json → Option ParsedNode
unfolding clash_from
parse_clash_proxy (obj fs) = clash_from fs
parse_clash_proxy _ = none

pub record Parsed : Type 0 where
  pub nodes : List ParsedNode
  pub skipped : ℕ

abbrev pub no_nodes : Parsed
no_nodes = record { nodes = []; skipped = 0 }

-- The node of an entry, where it is one, before those of the rest.
abbrev pub count_entry : Option ParsedNode → Parsed → Parsed
count_entry none rest = record rest { skipped = rest.skipped + 1 }
count_entry (some node) rest = record rest { nodes = node ∷ rest.nodes }

unfoldable pub parse_entries : List Json → Parsed → Parsed
unfolding parse_clash_proxy
parse_entries [] rest = rest
parse_entries (entry ∷ entries) rest =
    count_entry (parse_clash_proxy entry) (parse_entries entries rest)

-- The items of a property that is an array.
abbrev pub list_in : Option Json → List Json
list_in (some (arr xs)) = items xs
list_in _ = []

-- The nodes of a document, none where the parser throws.
unfoldable pub document_nodes : Option Json → Parsed
unfolding parse_entries get text_dec
document_nodes none = no_nodes
document_nodes (some document) =
    parse_entries (list_in (member (codes "proxies") document))
      (parse_entries (list_in (member (codes "Proxy") document)) no_nodes)

-- `parseClashYaml`; `parse_yaml` is `none` where it throws.
unfoldable pub parse_clash_yaml : (Text → Option Json) → Text → Parsed
unfolding document_nodes
parse_clash_yaml parse_yaml content = document_nodes (parse_yaml content)
