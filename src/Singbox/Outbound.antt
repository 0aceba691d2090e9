-- ===== src/Singbox/Outbound.antt =====
-- packages/plugin/src/pool/singbox.ts: `buildOutbound` with `applyTLS` and `applyTransport`. The
-- conversion `Number` is the parameter `to_number`, `none` for what is not finite.
use dsh_opencode.Base.{
  ℕ, ◌+◌, Bool, true, false, not, ◌||◌, List, [], ◌∷◌, ◌++◌, map, Text, codes, Option, none, some,
  if◌then◌else◌, text_dec, same,
}
use dsh_opencode.Base.Decimal.{decimal}
use dsh_opencode.Base.Json.{
  Json, null, bool, num, str, arr, obj, Number, nil, cons, Fields, end, field, items, entries,
  of_items, get, set_field, member, is_object, is_true, string_of, string_or_empty,
}

pub record ParsedNode : Type 0 where
  pub name : Text
  pub node_type : Text
  pub server : Text
  pub port : Number
  pub raw : Fields

abbrev pub whole_number : ℕ → Number
whole_number n = record {
  is_finite = true;
  negative = false;
  whole = n;
  fraction = 0;
  text = decimal n;
}

abbrev pub natural : ℕ → Json
natural n = num (whole_number n)

-- `getStr`, `getStrDefault` and the choice of the first text that is not empty.
abbrev pub get_str : Text → Fields → Text
get_str key raw = string_or_empty (get key raw)

abbrev pub text_or : Text → Text → Text
text_or [] fallback = fallback
text_or (c ∷ s) fallback = c ∷ s

abbrev pub get_str_default : Text → Text → Fields → Text
get_str_default key fallback raw = text_or (get_str key raw) fallback

-- The properties of an option that is an object; an array has none of those asked for.
abbrev pub options_in : Option Json → Option Fields
options_in (some (obj fs)) = some fs
options_in (some (arr xs)) = some end
options_in _ = none

-- `value !== undefined && typeof value === 'object'`, which null passes.
abbrev pub is_object_or_null : Option Json → Bool
is_object_or_null none = false
is_object_or_null (some null) = true
is_object_or_null (some v) = is_object v

abbrev pub set_if_text : Text → Text → Fields → Fields
set_if_text key [] out = out
set_if_text key (c ∷ s) out = set_field key (str (c ∷ s)) out

abbrev pub has_tls : Fields → Bool
has_tls raw =
    is_true (get (codes "tls") raw)
    || not (same (get_str (codes "sni") raw) [])
    || not (same (get_str (codes "client-fingerprint") raw) [])
    || is_object_or_null (get (codes "reality-opts") raw)

abbrev pub texts_in : List Json → List Json
texts_in [] = []
texts_in (str s ∷ xs) = str s ∷ texts_in xs
texts_in (_ ∷ xs) = texts_in xs

abbrev pub set_if_items : Text → List Json → Fields → Fields
set_if_items key [] out = out
set_if_items key (x ∷ xs) out = set_field key (arr (of_items (x ∷ xs))) out

abbrev pub set_alpn : Option Json → Fields → Fields
set_alpn (some (arr xs)) tls = set_if_items (codes "alpn") (texts_in (items xs)) tls
set_alpn _ tls = tls

abbrev pub set_utls : Text → Fields → Fields
set_utls [] tls = tls
set_utls (c ∷ s) tls =
    set_field (codes "utls")
      (obj (field (codes "enabled") (bool true) (field (codes "fingerprint") (str (c ∷ s)) end)))
      tls

abbrev pub set_reality : Option Fields → Fields → Fields
set_reality none tls = tls
set_reality (some opts) tls =
    set_field (codes "reality")
      (obj (
        field (codes "enabled") (bool true) (
          field (codes "public_key") (str (get_str (codes "public-key") opts))
            (field (codes "short_id") (str (get_str (codes "short-id") opts)) end))))
      tls

abbrev pub set_insecure : Bool → Fields → Fields
set_insecure skip tls = if skip then set_field (codes "insecure") (bool true) tls else tls

abbrev pub tls_of : Fields → Fields
tls_of raw = set_reality (options_in (get (codes "reality-opts") raw)) (
    set_utls (get_str (codes "client-fingerprint") raw) (
      set_alpn (get (codes "alpn") raw) (
        set_insecure (is_true (get (codes "skip-cert-verify") raw)) (
          set_if_text (codes "server_name")
            (text_or (get_str (codes "sni") raw) (get_str (codes "servername") raw))
            (field (codes "enabled") (bool true) end)))))

unfoldable pub apply_tls : Fields → Fields → Fields
unfolding get set_field text_dec string_or_empty
apply_tls raw out = if has_tls raw then set_field (codes "tls") (obj (tls_of raw)) out else out

abbrev pub transport : Text → Fields
transport name = field (codes "type") (str name) end

abbrev pub set_headers : Option Json → Fields → Fields
set_headers none t = t
set_headers (some v) t = if is_object v then set_field (codes "headers") v t else t

abbrev pub set_host : Option Json → Fields → Fields
set_host (some (str s)) t = set_field (codes "host") (str s) t
set_host _ t = t

abbrev pub set_first_host : Option Json → Fields → Fields
set_first_host (some (arr (cons (str s) xs))) t =
    set_field (codes "host") (arr (cons (str s) nil)) t
set_first_host _ t = t

abbrev pub set_path : Fields → Fields → Fields
set_path opts t = set_if_text (codes "path") (get_str (codes "path") opts) t

abbrev pub host_in : Option Json → Option Json
host_in none = none
host_in (some headers) = member (codes "Host") headers

abbrev pub ws_transport : Option Fields → Fields
ws_transport none = transport (codes "ws")
ws_transport (some ws) =
    set_headers (get (codes "headers") ws) (set_path ws (transport (codes "ws")))

abbrev pub grpc_transport : Option Fields → Fields
grpc_transport none = transport (codes "grpc")
grpc_transport (some opts) =
    set_if_text (codes "service_name") (get_str (codes "grpc-service-name") opts)
      (transport (codes "grpc"))

abbrev pub h2_transport : Option Fields → Fields
h2_transport none = transport (codes "http")
h2_transport (some h2) =
    set_first_host (get (codes "host") h2) (set_path h2 (transport (codes "http")))

abbrev pub upgrade_transport : Option Fields → Fields
upgrade_transport none = transport (codes "httpupgrade")
upgrade_transport (some ws) =
    set_host (host_in (get (codes "headers") ws)) (set_path ws (transport (codes "httpupgrade")))

abbrev pub set_transport : Fields → Fields → Fields
set_transport t out = set_field (codes "transport") (obj t) out

unfoldable pub apply_transport : Fields → Fields → Fields
unfolding get set_field text_dec string_or_empty
apply_transport raw out =
    let network = get_str_default (codes "network") (codes "tcp") raw in
    if same network (codes "ws")
    then set_transport (ws_transport (options_in (get (codes "ws-opts") raw))) out
    else if same network (codes "grpc")
    then set_transport (grpc_transport (options_in (get (codes "grpc-opts") raw))) out
    else if same network (codes "h2")
    then set_transport (h2_transport (options_in (get (codes "h2-opts") raw))) out
    else if same network (codes "httpupgrade")
    then set_transport (upgrade_transport (options_in (get (codes "ws-opts") raw))) out
    else out

abbrev pub entry_text : Text × Json → Text
entry_text (key, value) = key ++ codes "=" ++ string_of value

abbrev pub join_entries : List Text → Text
join_entries [] = []
join_entries (s ∷ []) = s
join_entries (s ∷ t ∷ ts) = s ++ codes ";" ++ join_entries (t ∷ ts)

-- `Object.entries` of an object, or of an array by its indices.
abbrev pub indexed : ℕ → List Json → List (Text × Json)
indexed n [] = []
indexed n (x ∷ xs) = (decimal n, x) ∷ indexed (n + 1) xs

abbrev pub joined : List (Text × Json) → Json
joined es = str (join_entries (map entry_text es))

abbrev pub set_plugin_opts : Option Json → Fields → Fields
set_plugin_opts (some (obj fs)) out = set_field (codes "plugin_opts") (joined (entries fs)) out
set_plugin_opts (some (arr xs)) out =
    set_field (codes "plugin_opts") (joined (indexed 0 (items xs))) out
set_plugin_opts _ out = out

abbrev pub set_plugin : Text → Option Json → Fields → Fields
set_plugin [] opts out = out
set_plugin (c ∷ s) opts out = set_plugin_opts opts (set_field (codes "plugin") (str (c ∷ s)) out)

abbrev pub put : Text → Text → Fields → Fields
put key value out = set_field key (str value) out

abbrev pub outbound_base : ParsedNode → Text → Fields
outbound_base node tag =
    field (codes "tag") (str tag)
      (field (codes "server") (str node.server) (field (codes "server_port") (num node.port) end))

abbrev pub typed : Text → Fields → Fields
typed name out = put (codes "type") name out

abbrev pub with_uuid : Fields → Fields → Fields
with_uuid raw out = put (codes "uuid") (get_str (codes "uuid") raw) out

abbrev pub with_password : Fields → Fields → Fields
with_password raw out = put (codes "password") (get_str (codes "password") raw) out

-- `buildOutbound`, `none` for a type that the bridge does not know.
unfoldable pub build_outbound : (Option Json → Option Number) → ParsedNode → Text → Option Fields
unfolding apply_tls apply_transport set_field get text_dec string_of string_or_empty
build_outbound to_number node tag =
    let raw = node.raw in
    let out = outbound_base node tag in
    if same node.node_type (codes "vmess")
    then some (
        apply_transport raw (
          apply_tls raw (
            put (codes "security") (get_str_default (codes "cipher") (codes "auto") raw) (
              set_field (codes "alter_id")
                (elim (to_number (get (codes "alterId") raw)) [ none ↦ natural 0 | some n ↦ num n ])
                (with_uuid raw (typed (codes "vmess") out))))))
    else if same node.node_type (codes "vless")
    then some (
        apply_transport raw (
          apply_tls raw (
            set_if_text (codes "flow") (get_str (codes "flow") raw)
              (with_uuid raw (typed (codes "vless") out)))))
    else if same node.node_type (codes "trojan")
    then some (apply_transport raw (apply_tls raw (with_password raw (typed (codes "trojan") out))))
    else if same node.node_type (codes "shadowsocks")
    then some (
        set_plugin (get_str (codes "plugin") raw) (get (codes "plugin-opts") raw) (
          with_password raw (
            put (codes "method")
              (text_or (get_str (codes "cipher") raw) (get_str (codes "method") raw))
              (typed (codes "shadowsocks") out))))
    else if same node.node_type (codes "hysteria2")
    then some (apply_tls raw (with_password raw (typed (codes "hysteria2") out)))
    else if same node.node_type (codes "tuic")
    then some (
        apply_tls raw (
          put (codes "congestion_control")
            (get_str_default (codes "congestion-controller") (codes "bbr") raw)
            (with_password raw (with_uuid raw (typed (codes "tuic") out)))))
    else if same node.node_type (codes "anytls")
    then some (
        apply_tls (set_field (codes "tls") (bool true) raw)
          (with_password raw (typed (codes "anytls") out)))
    else none
