-- ===== src/Subscription/Links.antt =====
-- packages/plugin/src/pool/subscription.ts: the parsers of one protocol link. A parser that throws
-- is `none`, one that gives null is `some none`. A parameter of a query that is named like an index
-- or like `__proto__` is taken as any other.
use dsh_opencode.Base.{
  ℕ, true, not, ◌||◌, List, [], ◌∷◌, Text, codes, Option, none, some, if◌then◌else◌, ◌==◌, drop,
  same, text_dec,
}
use dsh_opencode.Base.Json.{
  Json, null, bool, num, str, obj, Number, Fields, end, field, get, set_field, member, text_of,
  string_of, string_or_empty,
}
use dsh_opencode.Sources.Lines.{number, number_from}
use dsh_opencode.Singbox.Outbound.{ParsedNode, natural, whole_number, set_if_text}
use dsh_opencode.Subscription.Encoding.{try_base64_decode}
use dsh_opencode.Subscription.Clash.{text_or_empty, is_below_one, name_or}

-- What `new URL` makes of a text, as far as it is read; `port` is digits, or empty.
pub record Url : Type 0 where
  pub hostname : Text
  pub port : Text
  pub hash : Text
  pub username : Text
  pub password : Text
  pub search_params : List (Text × Text)

abbrev pub Throwing : Type 0 → Type 0
Throwing A = Option A

abbrev pub strip_open : Text → Text
strip_open [] = []
strip_open (c ∷ s) = if c == b'[' then s else c ∷ s

unfoldable pub strip_close : Text → Text
strip_close [] = []
strip_close (c ∷ []) = if c == b']' then [] else c ∷ []
strip_close (c ∷ d ∷ s) = c ∷ strip_close (d ∷ s)

-- `replace(/^\[|\]$/g, '')`
abbrev pub strip_ends : Text → Text
strip_ends s = strip_close (strip_open s)

-- `Number(value)`: `none` for what is no number.
abbrev pub Conversion : Type 0
Conversion = Json → Option Number

-- `value ?? 0`
abbrev pub or_zero : Option Json → Json
or_zero none = natural 0
or_zero (some null) = natural 0
or_zero (some v) = v

-- `Number(info.aid ?? 0) || 0`
abbrev pub alter_id : Option Number → Json
alter_id none = natural 0
alter_id (some n) = num n

abbrev pub text_default : Option Text → Text → Text
text_default none fallback = fallback
text_default (some s) fallback = s

abbrev pub put_text : Text → Text → Fields → Fields
put_text key value fs = set_field key (str value) fs

abbrev pub ws_opts : Json → Fields
ws_opts info =
    let with_path =
      set_if_text (codes "path") (text_or_empty (text_of (member (codes "path") info))) end in
    elim (text_or_empty (text_of (member (codes "host") info))) [
      | [] ↦ with_path
      | c ∷ s ↦ set_field (codes "headers") (obj (field (codes "Host") (str (c ∷ s)) end)) with_path
    ]

abbrev pub grpc_opts : Json → Fields
grpc_opts info =
    set_if_text (codes "grpc-service-name") (text_or_empty (text_of (member (codes "path") info)))
      end

abbrev pub with_tls : Json → Fields → Fields
with_tls info raw = elim (member (codes "tls") info) [
  | none ↦ raw
  | some v ↦
      if same (string_of v) (codes "tls")
      then set_if_text (codes "sni") (text_or_empty (text_of (member (codes "sni") info)))
          (set_field (codes "tls") (bool true) raw)
      else raw
]

abbrev pub with_network : Json → Fields → Fields
with_network info raw =
    let network = text_default (text_of (member (codes "net") info)) (codes "tcp") in
    let named = put_text (codes "network") network raw in
    if same network (codes "ws")
    then set_field (codes "ws-opts") (obj (ws_opts info)) named
    else if same network (codes "grpc")
    then set_field (codes "grpc-opts") (obj (grpc_opts info)) named
    else named

abbrev pub vmess_fields : Conversion → Json → Text → Text → Number → Fields
vmess_fields to_number info name server port = field (codes "type") (str (codes "vmess")) (
    field (codes "name") (str name) (
      field (codes "server") (str server) (
        field (codes "port") (num port) (
          field (codes "uuid") (str (string_or_empty (member (codes "id") info))) (
            field (codes "alterId") (alter_id (to_number (or_zero (member (codes "aid") info)))) (
              field (codes "cipher")
                (str (text_default (text_of (member (codes "scy") info)) (codes "auto"))) end))))))

-- The rest of `parseVmessLink` for a port that is a finite number.
abbrev pub vmess_node : Conversion → Json → Text → Number → ParsedNode
vmess_node to_number info server port =
    let name = name_or (text_or_empty (text_of (member (codes "ps") info))) server in
    record {
      name = name;
      node_type = codes "vmess";
      server = server;
      port = port;
      raw = with_network info (with_tls info (vmess_fields to_number info name server port));
    }

unfoldable pub vmess_from : Conversion → Json → Option ParsedNode
unfolding get set_field text_dec string_of string_or_empty
vmess_from to_number info =
    let server = string_or_empty (member (codes "add") info) in
    elim (to_number (or_zero (member (codes "port") info))) [
      | none ↦ none
      | some port ↦
          if same server [] || not port.is_finite || is_below_one port
          then none
          else some (vmess_node to_number info server port)
    ]

-- A null that was parsed has no properties to ask for.
abbrev pub vmess_of : Conversion → Json → Throwing (Option ParsedNode)
vmess_of to_number null = none
vmess_of to_number info = some (vmess_from to_number info)

unfoldable pub parse_vmess_link :
    (Text → Text)
    → (Text → Text)
    → (Text → Option Json)
    → Conversion
    → Text
    → Throwing (Option ParsedNode)
unfolding try_base64_decode vmess_from
parse_vmess_link decode64 encode64 parse_json to_number link =
    elim (try_base64_decode decode64 encode64 (drop 8 link)) [
      | none ↦ some none
      | some decoded ↦ elim (parse_json decoded) [
        | none ↦ some none
        | some info ↦ vmess_of to_number info
      ]
    ]

abbrev pub standard_port : Text → ℕ
standard_port port = if number port == 0 then 443 else number port

-- `decodeURIComponent`, which is `none` where it throws.
abbrev pub Decoder : Type 0
Decoder = Text → Throwing Text

abbrev pub decode_unless_empty : Decoder → Text → Throwing Text
decode_unless_empty decode_uri [] = some []
decode_unless_empty decode_uri (c ∷ s) = decode_uri (c ∷ s)

-- The password part, where it is there.
abbrev pub put_password : Decoder → Text → Fields → Throwing Fields
put_password decode_uri [] raw = some raw
put_password decode_uri (c ∷ s) raw = elim (decode_uri (c ∷ s)) [
  | none ↦ none
  | some password ↦ some (put_text (codes "password") password raw)
]

abbrev pub with_user : Decoder → Text → Url → Text → Fields → Throwing Fields
with_user decode_uri node_type url [] raw = some raw
with_user decode_uri node_type url (c ∷ username) raw =
    if same node_type (codes "trojan") || same node_type (codes "hysteria2")
    then some (put_text (codes "password") (c ∷ username) raw)
    else if same node_type (codes "vless") || same node_type (codes "tuic")
    then put_password decode_uri url.password (put_text (codes "uuid") (c ∷ username) raw)
    else some raw

-- The loop over the parameters of the query, each of which overwrites what stands there.
abbrev pub put_params : List (Text × Text) → Fields → Fields
put_params [] raw = raw
put_params ((key, value) ∷ params) raw = put_params params (put_text key value raw)

abbrev pub standard_fields : Text → Text → Text → ℕ → Fields
standard_fields node_type name server port = field (codes "type") (str node_type) (
    field (codes "name") (str name)
      (field (codes "server") (str server) (field (codes "port") (natural port) end)))

unfoldable pub standard_from : Decoder → Text → Url → Throwing (Option ParsedNode)
unfolding strip_close number_from set_field text_dec
standard_from decode_uri node_type url =
    let server = strip_ends url.hostname in
    let port = standard_port url.port in
    elim (decode_uri (drop 1 url.hash)) [
      | none ↦ none
      | some hash ↦
          let name = name_or hash server in
          elim (decode_unless_empty decode_uri url.username) [
            | none ↦ none
            | some username ↦
                elim (with_user decode_uri node_type url username
                  (standard_fields node_type name server port)) [
                    | none ↦ none
                    | some raw ↦ some (
                        some (record {
                          name = name;
                          node_type = node_type;
                          server = server;
                          port = whole_number port;
                          raw = put_params url.search_params raw;
                        }))
                  ]
          ]
    ]

unfoldable pub parse_standard_link :
    (Text → Option Url) → Decoder → Text → Text → Throwing (Option ParsedNode)
unfolding standard_from
parse_standard_link parse_url decode_uri link node_type = elim (parse_url link) [
  | none ↦ some none
  | some url ↦ standard_from decode_uri node_type url
]
