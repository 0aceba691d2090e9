-- ===== src/Bridge/Trust.antt =====
-- packages/plugin/src/ip-pool-settings/bridge.ts: which requests the bridge answers. The `URL`
-- class of the runtime is the parameter `parse_url`, which is `none` where it throws.
use dsh_opencode.Base.{
  ℕ, Bool, true, false, not, ◌&&◌, ◌||◌, List, [], ◌∷◌, ◌++◌, map, Text, codes, Option, none, some,
  if◌then◌else◌, leb, ◌==◌, length, exists, same,
}
use dsh_opencode.Base.Decimal.{decimal}
use dsh_opencode.Sources.Lines.{trim, is_space, is_digit, number, number_from, span}
use dsh_opencode.Subscription.Clash.{lower_unit}

-- A header of node's request object.
pub data Header : Type 0 where
  one : Text → Header
  many : List Text → Header

pub record Request : Type 0 where
  pub remote_address : Option Text
  pub host : Option Header
  pub origin : Option Header
  pub sec_fetch_site : Option Header

pub record PageUrl : Type 0 where
  pub host : Text
  pub hostname : Text
  pub username : Text
  pub password : Text
  pub pathname : Text
  pub search : Text
  pub hash : Text

abbrev pub is_text : Text → Option Text → Bool
is_text s none = false
is_text s (some t) = same t s

unfoldable pub is_loopback_address : Option Text → Bool
is_loopback_address address =
    is_text (codes "127.0.0.1") address
    || is_text (codes "::1") address
    || is_text (codes "::ffff:127.0.0.1") address

-- `split('.')`; `part` is what the part at hand has so far.
unfoldable pub split_dots : Text → Text → List Text
split_dots part [] = part ∷ []
split_dots part (c ∷ s) =
    let ended = part ∷ split_dots [] s in
    let longer = split_dots (part ++ (c ∷ [])) s in if c == b'.' then ended else longer

-- `/^\d{1,3}$/` and at most 255.
unfoldable pub is_octet : Text → Bool
unfolding is_digit exists number_from
is_octet part =
    not (exists (λ c. not (is_digit c)) part)
    && leb 1 (length part)
    && leb (length part) 3
    && leb (number part) 255

abbrev pub is_loopback_parts : List Text → Bool
is_loopback_parts (a ∷ b ∷ c ∷ d ∷ []) =
    same a (codes "127") && is_octet a && is_octet b && is_octet c && is_octet d
is_loopback_parts _ = false

unfoldable pub is_loopback_hostname : Text → Bool
unfolding split_dots is_octet
is_loopback_hostname hostname =
    same hostname (codes "localhost")
    || same hostname (codes "[::1]")
    || is_loopback_parts (split_dots [] hostname)

-- What a pattern leaves: no match, or a match with or without a port.
abbrev pub Matched : Type 0
Matched = Option (Option Text)

-- `(?::([0-9]+))?$`
abbrev pub port_group : Text → Matched
port_group [] = some none
port_group (c ∷ d) =
    if (c == b':') && not (same d []) && not (exists (λ x. not (is_digit x)) d)
    then some (some d)
    else none

abbrev pub after_bracket : Text → Text → Matched
after_bracket inner [] = none
after_bracket inner (c ∷ rest) = if same inner [] then none else port_group rest

abbrev pub is_authority_char : ℕ → Bool
is_authority_char c =
    not ((c == b':') || (c == b'@') || (c == b'/') || (c == b'?') || (c == b'#') || is_space c)

unfoldable pub match_plain : Text → Matched
unfolding span is_space is_digit exists
match_plain s =
    let (host, rest) = span is_authority_char s in if same host [] then none else port_group rest

unfoldable pub match_authority : Text → Matched
unfolding span is_digit exists match_plain
match_authority [] = none
match_authority (c ∷ s) =
    let (inner, rest) = span (λ x. not (x == b']')) s in
    if c == b'[' then after_bracket inner rest else match_plain (c ∷ s)

abbrev pub is_port_number : Option Text → Bool
is_port_number none = true
is_port_number (some d) = leb (number d) 65535 && same (decimal (number d)) d

abbrev pub is_bare : PageUrl → Bool
is_bare url =
    same url.username []
    && same url.password []
    && same url.pathname (codes "/")
    && same url.search []
    && same url.hash []

abbrev pub lowered : Text → Text
lowered s = map lower_unit s

-- `String(value)` of a header.
abbrev pub join_commas : List Text → Text
join_commas [] = []
join_commas (s ∷ []) = s
join_commas (s ∷ t ∷ ts) = s ++ codes "," ++ join_commas (t ∷ ts)

abbrev pub header_text : Header → Text
header_text (one s) = s
header_text (many ss) = join_commas ss

abbrev pub is_cross_site : Option Header → Bool
is_cross_site (some (one s)) = same s (codes "cross-site")
is_cross_site _ = false

module _ (parse_url : Text → Option PageUrl) where
  abbrev pub bare_url : Matched → Text → Option PageUrl
  bare_url none authority = none
  bare_url (some port) authority = elim (parse_url (codes "http://" ++ authority)) [
    | none ↦ none
    | some url ↦ if is_bare url && is_port_number port then some url else none
  ]

  unfoldable pub parse_authority : Text → Option PageUrl
  unfolding trim match_authority decimal number_from
  parse_authority authority =
      if same (trim authority) authority
      then bare_url (match_authority authority) authority
      else none

  abbrev pub is_own_origin : Option Header → PageUrl → Bool
  is_own_origin none host_url = true
  is_own_origin (some origin) host_url = elim (parse_url (header_text origin)) [
    | none ↦ false
    | some url ↦ same url.host host_url.host
  ]

  unfoldable pub is_same_origin_request : Request → PageUrl → Bool
  is_same_origin_request request host_url =
      not (is_cross_site request.sec_fetch_site) && is_own_origin request.origin host_url

  abbrev pub is_trusted_host : Request → Text → Option PageUrl → Bool
  is_trusted_host request host none = false
  is_trusted_host request host (some url) =
      same (lowered url.host) (lowered host)
      && is_same_origin_request request url
      && is_loopback_hostname url.hostname

  abbrev pub is_trusted_header : Request → Option Header → Bool
  is_trusted_header request (some (one host)) = is_trusted_host request host (parse_authority host)
  is_trusted_header request _ = false

  unfoldable pub is_trusted_bridge_request : Request → Bool
  unfolding is_loopback_address parse_authority is_same_origin_request is_loopback_hostname
  is_trusted_bridge_request request =
      is_loopback_address request.remote_address && is_trusted_header request request.host
