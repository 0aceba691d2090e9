-- ===== src/Tests/Subscriptions.antt =====
-- Runs of pool/subscription.ts on concrete bodies.
use dsh_opencode.Base.{
  ◌≡◌, refl, true, false, [], ◌∷◌, Text, codes, Option, none, some, exists, All, keep, text_dec,
  if◌then◌else◌, ◌==◌,
}
use dsh_opencode.Base.Json.{Json, end, field, obj, arr, nil, cons, str}
use dsh_opencode.Singbox.Outbound.{ParsedNode, natural}
use dsh_opencode.Base.Decimal.{decimal}
use dsh_opencode.Sources.Lines.{trim_start, is_space}
use dsh_opencode.Subscription.Encoding.{try_base64_decode, looks_like_yaml, looks_like_proxy_links}
use dsh_opencode.Subscription.Links.{Url}
use dsh_opencode.Subscription.Detect.{
  Platform, ParseReport, Detected, parse_subscription, parse_proxy_link,
}
use dsh_opencode.Subscription.Valid.{IsTyped, IsSound}
use dsh_opencode.Subscription.Losses
use dsh_opencode.Subscription.Losses.{is_standard}
use dsh_opencode.Subscription.Typed

-- A document of one entry, URLs all alike, and escapes that are refused where one ends the text.
abbrev entry : Json
entry = obj (
    field (codes "type") (str (codes "SS"))
      (field (codes "server") (str (codes "h.example")) (field (codes "port") (natural 8388) end)))

abbrev document : Json
document = obj (field (codes "proxies") (arr (cons entry (cons (str (codes "x")) nil))) end)

abbrev url : Url
url = record {
  hostname = codes "[::1]";
  port = codes "443";
  hash = codes "#100%";
  username = codes "u";
  password = [];
  search_params = [];
}

abbrev refuse_percent : Text → Option Text
refuse_percent s = if exists (λ c. c == b'%') s then none else some s

abbrev platform : Platform
platform = record {
  decode64 = λ s. s;
  encode64 = λ s. s;
  parse_yaml = λ s. some document;
  parse_json = λ s. none;
  to_number = λ v. none;
  parse_url = λ s. some url;
  decode_uri = refuse_percent;
}

abbrev yaml_body : Text
yaml_body = codes "proxies:\n  - {}\n"

abbrev node : ParsedNode
node = record {
  name = codes "h.example:8388";
  node_type = codes "shadowsocks";
  server = codes "h.example";
  port = record {
    is_finite = true;
    negative = false;
    whole = 8388;
    fraction = 0;
    text = codes "8388";
  };
  raw =
      field (codes "type") (str (codes "SS")) (
        field (codes "server") (str (codes "h.example")) (field (codes "port") (natural 8388) end));
}

abbrev yaml_report : ParseReport
yaml_report = record { nodes = node ∷ []; detected = Detected.clash_yaml; skipped = 1 }

unfoldable reading : Unit {0}
unfolding parse_subscription parse_proxy_link looks_like_yaml looks_like_proxy_links trim_start
    text_dec decimal
reading = tt

parse_subscription_yaml : parse_subscription platform yaml_body ≡ some yaml_report
unfolding reading
parse_subscription_yaml = refl

parse_subscription-IsTyped_example : All IsTyped (node ∷ [])
parse_subscription-IsTyped_example =
    Typed.parse_subscription-IsTyped platform yaml_body yaml_report parse_subscription_yaml

parse_subscription-IsSound_example : All IsSound (node ∷ [])
parse_subscription-IsSound_example =
    Typed.parse_subscription-IsSound platform yaml_body yaml_report parse_subscription_yaml refl

-- The base64 text of a link with a slash.
try_base64_decode-standard_example :
    try_base64_decode platform.decode64 platform.encode64 (codes "c3M6Ly9h/2I=") ≡ none
unfolding reading exists is_space keep
try_base64_decode-standard_example =
    Losses.try_base64_decode-standard platform.decode64 platform.encode64 (codes "c3M6Ly9h/2I=")
      refl

-- The first link is fine, the name of the second ends in a percent sign.
abbrev links_body : Text
links_body = codes "tuic://u@h:1#a\nvless://u@h:1#100%"

parse_subscription-throws_example : parse_subscription platform links_body ≡ none
unfolding reading
parse_subscription-throws_example =
    Losses.parse_subscription-throws platform links_body 1 (codes "vless://u@h:1#100%") refl refl
      refl refl refl refl
