-- ===== src/Subscription/Valid.antt =====
-- packages/plugin/src/pool/subscription.ts: what every node that comes out of a subscription has.
use dsh_opencode.Base.{
  ◌≡◌, refl, subst, inl, inr, Bool, true, false, if◌then◌else◌, List, [], ◌∷◌, Text, codes, Option,
  none, some, arith, Option-cases, text_dec, All,
}
use dsh_opencode.Base.Json.{Json, null, bool, num, str, arr, obj, Fields, member}
use dsh_opencode.Sources.Lines.{trim, split_address}
use dsh_opencode.Catalog.Prices.{member_of}
use dsh_opencode.Singbox.Outbound.{ParsedNode}
use dsh_opencode.Subscription.Clash.{
  Parsed, supported_types, is_below_one, is_above_range, count_entry, clash_from, parse_clash_proxy,
  parse_entries, document_nodes, list_in, no_nodes,
}
use dsh_opencode.Subscription.Links.{
  Throwing, Url, Decoder, Conversion, vmess_from, vmess_of, parse_vmess_link, standard_from,
  parse_standard_link,
}
use dsh_opencode.Subscription.Shadowsocks.{
  from_userinfo, from_body, shadowsocks_from, parse_shadowsocks_link,
}
use dsh_opencode.Subscription.Detect.{
  Platform, parse_proxy_link, parse_link_lines, parse_plain_line, parse_plain_lines, count_link,
  plain_type, plain_at, plain_from,
}
use dsh_opencode.Subscription.Detect.{
  plain_unless, is_ignored, take_line, LinkKind, link_kind, parse_as,
}
use dsh_opencode.Admission.Manual.{split_scheme, socks_schemes}

-- What holds of a result, where there is one.
abbrev pub Holds {ℓ κ} : {A : Type ℓ} → (A → Type κ) → Option A → Type κ
Holds P none = Unit
Holds P (some a) = P a

abbrev pub IsTyped : ParsedNode → Type 0
IsTyped n = member_of supported_types n.node_type ≡ true

-- The port lies in 1 to 65535.
abbrev pub IsInRange : ParsedNode → Type 0
IsInRange n = (is_below_one n.port ≡ false) × (is_above_range n.port ≡ false)

abbrev pub IsSound : ParsedNode → Type 0
IsSound n = IsTyped n × IsInRange n

clash_from-IsSound : (fs : Fields) → Holds IsSound (clash_from fs)
unfolding clash_from
clash_from-IsSound fs = ground arith

parse_clash_proxy-IsSound : (v : Json) → Holds IsSound (parse_clash_proxy v)
unfolding parse_clash_proxy
parse_clash_proxy-IsSound (obj fs) = clash_from-IsSound fs
parse_clash_proxy-IsSound null = tt
parse_clash_proxy-IsSound (bool b) = tt
parse_clash_proxy-IsSound (num n) = tt
parse_clash_proxy-IsSound (str s) = tt
parse_clash_proxy-IsSound (arr xs) = tt

module _ (P : ParsedNode → Type 0) where
  count_entry-All :
      (o : Option ParsedNode) (rest : Parsed)
      → Holds P o
      → All P rest.nodes
      → All P (count_entry o rest).nodes
  count_entry-All none rest h a = a
  count_entry-All (some n) rest h a = (h, a)

  count_link-All :
      (o : Throwing (Option ParsedNode)) (rest : Throwing Parsed)
      → Holds (Holds P) o
      → Holds (λ r. All P r.nodes) rest
      → Holds (λ r. All P r.nodes) (count_link o rest)
  count_link-All none rest h a = tt
  count_link-All (some o) none h a = tt
  count_link-All (some o) (some rest) h a = count_entry-All o rest h a

parse_entries-IsSound :
    (entries : List Json) (rest : Parsed)
    → All IsSound rest.nodes
    → All IsSound (parse_entries entries rest).nodes
unfolding parse_entries
parse_entries-IsSound [] rest a = a
parse_entries-IsSound (e ∷ es) rest a =
    count_entry-All IsSound (parse_clash_proxy e) (parse_entries es rest)
      (parse_clash_proxy-IsSound e) (parse_entries-IsSound es rest a)

pub document_nodes-IsSound : (document : Option Json) → All IsSound (document_nodes document).nodes
unfolding document_nodes
document_nodes-IsSound none = tt
document_nodes-IsSound (some document) =
    parse_entries-IsSound (list_in (member (codes "proxies") document))
      (parse_entries (list_in (member (codes "Proxy") document)) no_nodes)
      (parse_entries-IsSound (list_in (member (codes "Proxy") document)) no_nodes tt)

vmess_from-IsTyped :
    (to_number : Conversion) (info : Json) → Holds IsTyped (vmess_from to_number info)
unfolding vmess_from member_of
vmess_from-IsTyped to_number info = ground arith

vmess_of-IsTyped :
    (to_number : Conversion) (info : Json) → Holds (Holds IsTyped) (vmess_of to_number info)
vmess_of-IsTyped to_number null = tt
vmess_of-IsTyped to_number (bool b) = vmess_from-IsTyped to_number (bool b)
vmess_of-IsTyped to_number (num n) = vmess_from-IsTyped to_number (num n)
vmess_of-IsTyped to_number (str s) = vmess_from-IsTyped to_number (str s)
vmess_of-IsTyped to_number (arr xs) = vmess_from-IsTyped to_number (arr xs)
vmess_of-IsTyped to_number (obj fs) = vmess_from-IsTyped to_number (obj fs)

standard_from-IsTyped :
    (decode_uri : Decoder) (node_type : Text) (url : Url)
    → member_of supported_types node_type ≡ true
    → Holds (Holds IsTyped) (standard_from decode_uri node_type url)
unfolding standard_from
standard_from-IsTyped decode_uri node_type url t = ground (arith, t)

from_userinfo-IsTyped :
    (name : Text) (userinfo : Option Text) (m : Option (Text × Text))
    → Holds IsTyped (from_userinfo name userinfo m)
unfolding member_of
from_userinfo-IsTyped name userinfo m = ground arith

module _ (platform : Platform) where
  parse_vmess_link-IsTyped :
      (link : Text)
      → Holds (Holds IsTyped) (
          parse_vmess_link platform.decode64 platform.encode64 platform.parse_json
            platform.to_number link)
  unfolding parse_vmess_link
  parse_vmess_link-IsTyped link = grind (arith, vmess_of-IsTyped)

  parse_standard_link-IsTyped :
      (link node_type : Text)
      → member_of supported_types node_type ≡ true
      → Holds
          (Holds IsTyped)
          (parse_standard_link platform.parse_url platform.decode_uri link node_type)
  unfolding parse_standard_link
  parse_standard_link-IsTyped link node_type t =
      ground (arith, standard_from-IsTyped platform.decode_uri node_type, t)

  shadowsocks_from-IsTyped :
      (name body : Text)
      → Holds IsTyped (shadowsocks_from platform.decode64 platform.encode64 name body)
  unfolding shadowsocks_from from_body member_of
  shadowsocks_from-IsTyped name body = grind (arith, from_userinfo-IsTyped)

  parse_shadowsocks_link-IsTyped :
      (link : Text)
      → Holds
          (Holds IsTyped)
          (parse_shadowsocks_link platform.decode64 platform.encode64 platform.decode_uri link)
  unfolding parse_shadowsocks_link
  parse_shadowsocks_link-IsTyped link = grind (arith, shadowsocks_from-IsTyped)

  parse_as-IsTyped :
      (kind : LinkKind) (value : Text) → Holds (Holds IsTyped) (parse_as platform kind value)
  unfolding member_of text_dec
  parse_as-IsTyped LinkKind.vmess value = parse_vmess_link-IsTyped value
  parse_as-IsTyped LinkKind.vless value = parse_standard_link-IsTyped value (codes "vless") refl
  parse_as-IsTyped LinkKind.trojan value = parse_standard_link-IsTyped value (codes "trojan") refl
  parse_as-IsTyped LinkKind.ss value = parse_shadowsocks_link-IsTyped value
  parse_as-IsTyped LinkKind.hysteria2 value =
      parse_standard_link-IsTyped value (codes "hysteria2") refl
  parse_as-IsTyped LinkKind.tuic value = parse_standard_link-IsTyped value (codes "tuic") refl
  parse_as-IsTyped LinkKind.foreign value = tt

  take_line-IsTyped :
      (ignored : Bool) (entry : Throwing (Option ParsedNode)) (rest : Throwing Parsed)
      → Holds (Holds IsTyped) entry
      → Holds (λ r. All IsTyped r.nodes) rest
      → Holds (λ r. All IsTyped r.nodes) (take_line ignored entry rest)
  take_line-IsTyped true entry rest h a = a
  take_line-IsTyped false entry rest h a = count_link-All IsTyped entry rest h a

  pub parse_link_lines-IsTyped :
      (lines : List Text) → Holds (λ r. All IsTyped r.nodes) (parse_link_lines platform lines)
  unfolding parse_link_lines parse_proxy_link
  parse_link_lines-IsTyped [] = tt
  parse_link_lines-IsTyped (raw_line ∷ lines) =
      take_line-IsTyped (is_ignored (trim raw_line)) (parse_proxy_link platform (trim raw_line))
        (parse_link_lines platform lines)
        (parse_as-IsTyped (link_kind (trim (trim raw_line))) (trim (trim raw_line)))
        (parse_link_lines-IsTyped lines)

if_typed :
    (b : Bool) → member_of supported_types (if b then codes "socks5" else codes "http") ≡ true
unfolding member_of text_dec
if_typed true = refl
if_typed false = refl

plain_type-typed : (scheme : Option Text) → member_of supported_types (plain_type scheme) ≡ true
plain_type-typed none = if_typed false
plain_type-typed (some s) = if_typed (member_of socks_schemes s)

plain_at-IsSound :
    (scheme : Option Text) (address : Text) (m : Option (Text × Text))
    → Holds IsSound (plain_at scheme address m)
plain_at-IsSound scheme address none = tt
plain_at-IsSound scheme address (some (host, digits)) = ground (arith, plain_type-typed scheme)

plain_from-IsSound : (split : Option Text × Text) → Holds IsSound (plain_from split)
plain_from-IsSound (scheme, address) =
    ground (arith, plain_at-IsSound scheme address (split_address address))

plain_unless-IsSound :
    (ignored : Bool) (entry : Option ParsedNode)
    → Holds IsSound entry
    → Holds IsSound (plain_unless ignored entry)
plain_unless-IsSound true entry h = tt
plain_unless-IsSound false entry h = h

parse_plain_line-IsSound : (line : Text) → Holds IsSound (parse_plain_line line)
unfolding parse_plain_line
parse_plain_line-IsSound line =
    plain_unless-IsSound (is_ignored (trim line)) (plain_from (split_scheme (trim line)))
      (plain_from-IsSound (split_scheme (trim line)))

pub parse_plain_lines-IsSound : (lines : List Text) → All IsSound (parse_plain_lines lines)
unfolding parse_plain_lines
parse_plain_lines-IsSound [] = tt
parse_plain_lines-IsSound (line ∷ lines) =
    let here = parse_plain_line-IsSound line in
    let rest = parse_plain_lines-IsSound lines in
    elim (Option-cases (parse_plain_line line)) [
      | inl e ↦ rw (e, parse_plain_lines) rest
      | inr (n, e) ↦ rw (e, parse_plain_lines) (subst (Holds IsSound) e here, rest)
    ]
