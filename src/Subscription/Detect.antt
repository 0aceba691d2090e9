-- ===== src/Subscription/Detect.antt =====
-- packages/plugin/src/pool/subscription.ts: `parseProxyLinks`, `parsePlainAddresses` and
-- `parseSubscription`, which finds out the format. `none` is a call that throws.
use dsh_opencode.Base.{
  ℕ, Bool, true, false, not, ◌&&◌, ◌||◌, List, [], ◌∷◌, ◌++◌, Text, codes, Option, none, some,
  if◌then◌else◌, ◌==◌, same, starts_with,
}
use dsh_opencode.Base.Json.{Json, str, end, field}
use dsh_opencode.Catalog.Prices.{member_of}
use dsh_opencode.Sources.Lines.{trim, number, number_from, in_range, split_address}
use dsh_opencode.Admission.Manual.{split_scheme, socks_schemes}
use dsh_opencode.Singbox.Outbound.{ParsedNode, natural, whole_number}
use dsh_opencode.Subscription.Encoding.{looks_like_yaml, looks_like_proxy_links, try_base64_decode}
use dsh_opencode.Subscription.Clash.{Parsed, no_nodes, count_entry, parse_clash_yaml}
use dsh_opencode.Subscription.Links.{
  Url, Throwing, Conversion, strip_ends, strip_close, parse_vmess_link, parse_standard_link,
}
use dsh_opencode.Subscription.Shadowsocks.{parse_shadowsocks_link}

-- What the parsers use of the platform and of packages.
pub record Platform : Type 0 where
  pub decode64 : Text → Text
  pub encode64 : Text → Text
  pub parse_yaml : Text → Option Json
  pub parse_json : Text → Option Json
  pub to_number : Conversion
  pub parse_url : Text → Option Url
  pub decode_uri : Text → Throwing Text

-- `split(/\r?\n/)`; `line` is what the line at hand has so far.
abbrev pub without_return : Text → Text
without_return [] = []
without_return (c ∷ []) = if c == 13 then [] else c ∷ []
without_return (c ∷ d ∷ s) = c ∷ without_return (d ∷ s)

unfoldable pub lines_from : Text → Text → List Text
lines_from line [] = line ∷ []
lines_from line (c ∷ s) =
    let ended = without_return line ∷ lines_from [] s in
    let longer = lines_from (line ++ (c ∷ [])) s in if c == 10 then ended else longer

abbrev pub lines_of : Text → List Text
lines_of content = lines_from [] content

-- A line that is empty or a comment.
abbrev pub is_ignored : Text → Bool
is_ignored line = same line [] || starts_with (codes "#") line

-- The loop over the lines ends where the parser of one throws.
abbrev pub count_link : Throwing (Option ParsedNode) → Throwing Parsed → Throwing Parsed
count_link none rest = none
count_link (some entry) none = none
count_link (some entry) (some rest) = some (count_entry entry rest)

-- A line that is ignored is not parsed.
abbrev pub take_line : Bool → Throwing (Option ParsedNode) → Throwing Parsed → Throwing Parsed
take_line true entry rest = rest
take_line false entry rest = count_link entry rest

pub data LinkKind : Type 0 where
  vmess vless trojan ss hysteria2 tuic foreign : LinkKind

-- The parser that a link's prefix asks for.
unfoldable pub link_kind : Text → LinkKind
unfolding starts_with
link_kind value =
    if starts_with (codes "vmess://") value
    then vmess
    else if starts_with (codes "vless://") value
    then vless
    else if starts_with (codes "trojan://") value
    then trojan
    else if starts_with (codes "ss://") value
    then ss
    else if starts_with (codes "hysteria2://") value || starts_with (codes "hy2://") value
    then hysteria2
    else if starts_with (codes "tuic://") value
    then tuic
    else foreign

module _ (platform : Platform) where
  abbrev pub standard : Text → Text → Throwing (Option ParsedNode)
  standard link node_type =
      parse_standard_link platform.parse_url platform.decode_uri link node_type

  abbrev pub parse_as : LinkKind → Text → Throwing (Option ParsedNode)
  parse_as vmess value =
      parse_vmess_link platform.decode64 platform.encode64 platform.parse_json platform.to_number
        value
  parse_as vless value = standard value (codes "vless")
  parse_as trojan value = standard value (codes "trojan")
  parse_as ss value =
      parse_shadowsocks_link platform.decode64 platform.encode64 platform.decode_uri value
  parse_as hysteria2 value = standard value (codes "hysteria2")
  parse_as tuic value = standard value (codes "tuic")
  parse_as foreign value = some none

  unfoldable pub parse_proxy_link : Text → Throwing (Option ParsedNode)
  unfolding trim link_kind parse_vmess_link parse_standard_link parse_shadowsocks_link
  parse_proxy_link link = parse_as (link_kind (trim link)) (trim link)

  unfoldable pub parse_link_lines : List Text → Throwing Parsed
  unfolding trim starts_with parse_proxy_link
  parse_link_lines [] = some no_nodes
  parse_link_lines (raw_line ∷ lines) =
      take_line (is_ignored (trim raw_line)) (parse_proxy_link (trim raw_line))
        (parse_link_lines lines)

  unfoldable pub parse_proxy_links : Text → Throwing Parsed
  unfolding parse_link_lines lines_from
  parse_proxy_links content = parse_link_lines (lines_of content)

abbrev pub is_plain_scheme : Option Text → Bool
is_plain_scheme none = true
is_plain_scheme (some scheme) =
    member_of socks_schemes scheme || same scheme (codes "http") || same scheme (codes "https")

abbrev pub plain_type : Option Text → Text
plain_type none = codes "http"
plain_type (some scheme) = if member_of socks_schemes scheme then codes "socks5" else codes "http"

abbrev pub plain_node : Text → Text → Text → ℕ → ParsedNode
plain_node address node_type server port = record {
  name = address;
  node_type = node_type;
  server = server;
  port = whole_number port;
  raw =
      field (codes "type") (str node_type)
        (field (codes "server") (str server) (field (codes "port") (natural port) end));
}

abbrev pub plain_at : Option Text → Text → Option (Text × Text) → Option ParsedNode
plain_at scheme address none = none
plain_at scheme address (some (host, digits)) =
    if in_range (number digits)
    then some (plain_node address (plain_type scheme) (strip_ends host) (number digits))
    else none

abbrev pub plain_from : Option Text × Text → Option ParsedNode
plain_from (scheme, address) =
    if not (is_plain_scheme scheme) then none else plain_at scheme address (split_address address)

abbrev pub plain_unless : Bool → Option ParsedNode → Option ParsedNode
plain_unless true entry = none
plain_unless false entry = entry

unfoldable pub parse_plain_line : Text → Option ParsedNode
unfolding trim split_scheme split_address member_of strip_close number_from starts_with
parse_plain_line raw_line =
    let line = trim raw_line in plain_unless (is_ignored line) (plain_from (split_scheme line))

unfoldable pub parse_plain_lines : List Text → List ParsedNode
unfolding parse_plain_line
parse_plain_lines [] = []
parse_plain_lines (raw_line ∷ lines) = elim (parse_plain_line raw_line) [
  | none ↦ parse_plain_lines lines
  | some node ↦ node ∷ parse_plain_lines lines
]

unfoldable pub parse_plain_addresses : Text → List ParsedNode
unfolding parse_plain_lines lines_from
parse_plain_addresses content = parse_plain_lines (lines_of content)

pub data Detected : Type 0 where
  clash_yaml proxy_links base64_clash_yaml base64_proxy_links plain : Detected

pub record ParseReport : Type 0 where
  pub nodes : List ParsedNode
  pub detected : Detected
  pub skipped : ℕ

abbrev pub plain_report : List ParsedNode → ParseReport
plain_report nodes = record { nodes = nodes; detected = Detected.plain; skipped = 0 }

abbrev pub report : Detected → Parsed → ParseReport
report detected parsed = record {
  nodes = parsed.nodes;
  detected = detected;
  skipped = parsed.skipped;
}

abbrev pub is_empty {ℓ} : {A : Type ℓ} → List A → Bool
is_empty [] = true
is_empty (x ∷ xs) = false

module _ (platform : Platform) where
  -- A document of YAML where it looks like one and has nodes, and otherwise what comes next.
  abbrev pub try_yaml : Detected → Text → Throwing ParseReport → Throwing ParseReport
  try_yaml detected content otherwise =
      let parsed = parse_clash_yaml platform.parse_yaml content in
      if looks_like_yaml content && not (is_empty parsed.nodes)
      then some (report detected parsed)
      else otherwise

  abbrev pub links_or : Detected → Throwing Parsed → Throwing ParseReport → Throwing ParseReport
  links_or detected none otherwise = none
  links_or detected (some parsed) otherwise =
      if not (is_empty parsed.nodes) then some (report detected parsed) else otherwise

  abbrev pub try_links : Detected → Text → Throwing ParseReport → Throwing ParseReport
  try_links detected content otherwise =
      if looks_like_proxy_links content
      then links_or detected (parse_proxy_links platform content) otherwise
      else otherwise

  abbrev pub try_plain : Text → Throwing ParseReport → Throwing ParseReport
  try_plain content otherwise = elim (parse_plain_addresses content) [
    | [] ↦ otherwise
    | node ∷ nodes ↦ some (plain_report (node ∷ nodes))
  ]

  abbrev pub try_decoded : Option Text → Throwing ParseReport → Throwing ParseReport
  try_decoded none otherwise = otherwise
  try_decoded (some decoded) otherwise =
      try_yaml Detected.base64_clash_yaml decoded
        (try_links Detected.base64_proxy_links decoded (try_plain decoded otherwise))

  unfoldable pub parse_subscription : Text → Throwing ParseReport
  unfolding trim looks_like_yaml parse_clash_yaml looks_like_proxy_links parse_proxy_links
      parse_plain_addresses try_base64_decode
  parse_subscription content =
      let trimmed = trim content in
      if same trimmed []
      then some (plain_report [])
      else try_yaml Detected.clash_yaml trimmed (
          try_links Detected.proxy_links trimmed (
            try_decoded (try_base64_decode platform.decode64 platform.encode64 trimmed)
              (try_plain trimmed (some (plain_report [])))))
