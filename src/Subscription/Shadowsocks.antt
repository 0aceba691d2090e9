-- ===== src/Subscription/Shadowsocks.antt =====
-- packages/plugin/src/pool/subscription.ts: `parseShadowsocksLink` in its two layouts.
use dsh_opencode.Base.{
  ℕ, not, ◌&&◌, ◌||◌, [], ◌∷◌, ◌++◌, Text, codes, Option, none, some, if◌then◌else◌, ◌==◌, drop,
  same,
}
use dsh_opencode.Base.Json.{str, Fields, end, field}
use dsh_opencode.Sources.Lines.{is_space, number, number_from, span, split_address}
use dsh_opencode.Singbox.Outbound.{ParsedNode, natural, whole_number}
use dsh_opencode.Subscription.Encoding.{try_base64_decode}
use dsh_opencode.Subscription.Clash.{name_or}
use dsh_opencode.Subscription.Links.{Throwing, Decoder, strip_ends, strip_close}

-- What stands before and behind the last `@`.
unfoldable pub split_last_at : Text → Option (Text × Text)
split_last_at [] = none
split_last_at (c ∷ s) = elim (split_last_at s) [
  | some (before, after) ↦ some (c ∷ before, after)
  | none ↦ if c == b'@' then some ([], s) else none
]

abbrev pub shadowsocks_fields : Text → Text → ℕ → Fields → Fields
shadowsocks_fields name server port rest = field (codes "type") (str (codes "shadowsocks")) (
    field (codes "name") (str name)
      (field (codes "server") (str server) (field (codes "port") (natural port) rest)))

abbrev pub shadowsocks_node : Text → Text → ℕ → Fields → ParsedNode
shadowsocks_node name server port rest = record {
  name = name_or name server;
  node_type = codes "shadowsocks";
  server = server;
  port = whole_number port;
  raw = shadowsocks_fields (name_or name server) server port rest;
}

-- Variant A, the user part decoded and the host part matched; the user part goes to `cipher`.
abbrev pub from_userinfo : Text → Option Text → Option (Text × Text) → Option ParsedNode
from_userinfo name none m = none
from_userinfo name (some userinfo) none = none
from_userinfo name (some userinfo) (some (host, digits)) =
    if number digits == 0
    then none
    else some (
        shadowsocks_node name (strip_ends host) (number digits)
          (field (codes "cipher") (str userinfo) end))

pub record Credentials : Type 0 where
  pub user : Text
  pub host : Text
  pub digits : Text

-- `/^(\S+?)@(\[[^\]]+\]|[^:]+):(\d{1,5})$/`: the first `@` behind at least one character and no
-- white space from which on the rest is an address. `user` is what was passed.
unfoldable pub match_from : Text → Text → Option Credentials
unfolding split_address is_space
match_from user [] = none
match_from user (c ∷ s) =
    let later = match_from (user ++ (c ∷ [])) s in
    let on = if is_space c then none else later in
    if not (same user []) && (c == b'@')
    then elim (split_address s) [
      | some (host, digits) ↦ some (record { user = user; host = host; digits = digits })
      | none ↦ on
    ]
    else on

-- The method and the password around a colon that does not stand first.
unfoldable pub split_user : Text → Text × Text
unfolding span
split_user user =
    let (method, rest) = span (λ c. not (c == b':')) user in
    if same method [] || same rest [] then (user, []) else (method, drop 1 rest)

abbrev pub from_credentials : Text → Credentials → ParsedNode
from_credentials name m =
    let (method, password) = split_user m.user in
    shadowsocks_node name (strip_ends m.host) (number m.digits)
      (field (codes "method") (str method) (field (codes "password") (str password) end))

module _ (decode64 encode64 : Text → Text) where
  -- Variant B, all of the body decoded.
  unfoldable pub from_body : Text → Text → Option ParsedNode
  unfolding try_base64_decode match_from split_user strip_close number_from
  from_body name body = elim (try_base64_decode decode64 encode64 body) [
    | none ↦ none
    | some decoded ↦ elim (match_from [] decoded) [
      | none ↦ none
      | some m ↦ some (from_credentials name m)
    ]
  ]

  unfoldable pub shadowsocks_from : Text → Text → Option ParsedNode
  unfolding from_body split_last_at try_base64_decode split_address strip_close number_from
  shadowsocks_from name body = elim (split_last_at body) [
    | none ↦ from_body name body
    | some (before, after) ↦
        if same before []
        then from_body name body
        else from_userinfo name (try_base64_decode decode64 encode64 before) (split_address after)
  ]

  abbrev pub decode_name : Decoder → Text → Throwing Text
  decode_name decode_uri [] = some []
  decode_name decode_uri (c ∷ hash) = decode_uri hash

  unfoldable pub parse_shadowsocks_link : Decoder → Text → Throwing (Option ParsedNode)
  unfolding shadowsocks_from span
  parse_shadowsocks_link decode_uri link =
      let (before, hash) = span (λ c. not (c == b'#')) link in
      elim (decode_name decode_uri hash) [
        | none ↦ none
        | some name ↦ some (shadowsocks_from name (drop 5 before))
      ]
