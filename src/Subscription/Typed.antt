-- ===== src/Subscription/Typed.antt =====
-- packages/plugin/src/pool/subscription.ts: `parseSubscription` over all formats.
use dsh_opencode.Base.{
  ◌≡◌, refl, subst, Bool, true, false, List, [], ◌∷◌, Text, Option, none, some, arith, All,
}
use dsh_opencode.Sources.Lines.{trim}
use dsh_opencode.Singbox.Outbound.{ParsedNode}
use dsh_opencode.Subscription.Encoding.{try_base64_decode}
use dsh_opencode.Subscription.Clash.{Parsed, parse_clash_yaml, document_nodes}
use dsh_opencode.Subscription.Links.{Throwing}
use dsh_opencode.Subscription.Detect.{
  Platform, ParseReport, Detected, parse_proxy_links, parse_link_lines, lines_of,
  parse_plain_addresses, parse_plain_lines, parse_subscription, report, plain_report, try_yaml,
  links_or, try_links, try_plain, try_decoded,
}
use dsh_opencode.Subscription.Valid.{
  Holds, IsTyped, IsSound, document_nodes-IsSound, parse_link_lines-IsTyped,
  parse_plain_lines-IsSound,
}

-- Whether the nodes were read off links.
abbrev pub from_links : Detected → Bool
from_links Detected.proxy_links = true
from_links Detected.base64_proxy_links = true
from_links _ = false

typed : (xs : List ParsedNode) → All IsSound xs → All IsTyped xs
typed [] a = tt
typed (x ∷ xs) a = (a.0.0, typed xs a.1)

-- What each report has, by where its nodes come from.
abbrev IsGood : ParseReport → Type 0
IsGood r = All IsTyped r.nodes × (from_links r.detected ≡ false → All IsSound r.nodes)

sound-IsGood : (r : ParseReport) → All IsSound r.nodes → IsGood r
sound-IsGood r a = (typed r.nodes a, λ e. a)

module _ (platform : Platform) where
  try_yaml-IsGood :
      (detected : Detected) (content : Text) (otherwise : Throwing ParseReport)
      → Holds IsGood otherwise
      → Holds IsGood (try_yaml platform detected content otherwise)
  unfolding parse_clash_yaml
  try_yaml-IsGood detected content otherwise h =
      let nodes = document_nodes-IsSound (platform.parse_yaml content) in
      ground (
        arith,
        h,
        sound-IsGood (report detected (document_nodes (platform.parse_yaml content))) nodes,
      )

  links_or-IsGood :
      (detected : Detected) (o : Throwing Parsed) (otherwise : Throwing ParseReport)
      → from_links detected ≡ true
      → Holds (λ r. All IsTyped r.nodes) o
      → Holds IsGood otherwise
      → Holds IsGood (links_or platform detected o otherwise)
  links_or-IsGood detected none otherwise l t h = tt
  links_or-IsGood detected (some parsed) otherwise l t h =
      let links : IsGood (report detected parsed) = (t, λ e. absurd (ground (arith, e, l))) in
      ground (arith, h, links)

  try_links-IsGood :
      (detected : Detected) (content : Text) (otherwise : Throwing ParseReport)
      → from_links detected ≡ true
      → Holds IsGood otherwise
      → Holds IsGood (try_links platform detected content otherwise)
  unfolding parse_proxy_links
  try_links-IsGood detected content otherwise l h =
      let links =
        links_or-IsGood detected (parse_link_lines platform (lines_of content)) otherwise l
          (parse_link_lines-IsTyped platform (lines_of content)) h in
      ground (arith, h, links)

  try_plain-IsGood :
      (content : Text) (otherwise : Throwing ParseReport)
      → Holds IsGood otherwise
      → Holds IsGood (try_plain platform content otherwise)
  unfolding parse_plain_addresses
  try_plain-IsGood content otherwise h =
      let nodes = parse_plain_lines-IsSound (lines_of content) in
      ground (arith, h, sound-IsGood (plain_report (parse_plain_lines (lines_of content))) nodes)

  try_decoded-IsGood :
      (decoded : Option Text) (otherwise : Throwing ParseReport)
      → Holds IsGood otherwise
      → Holds IsGood (try_decoded platform decoded otherwise)
  try_decoded-IsGood none otherwise h = h
  try_decoded-IsGood (some decoded) otherwise h =
      let plain = try_plain-IsGood decoded otherwise h in
      let links = try_links-IsGood Detected.base64_proxy_links decoded _ refl plain in
      try_yaml-IsGood Detected.base64_clash_yaml decoded _ links

  parse_subscription-IsGood : (content : Text) → Holds IsGood (parse_subscription platform content)
  unfolding parse_subscription
  parse_subscription-IsGood content =
      let trimmed = trim content in
      let decoded = try_base64_decode platform.decode64 platform.encode64 trimmed in
      let plain = try_plain-IsGood trimmed (some (plain_report [])) (tt, λ e. tt) in
      let links =
        try_links-IsGood Detected.proxy_links trimmed _ refl (try_decoded-IsGood decoded _ plain) in
      let yaml = try_yaml-IsGood Detected.clash_yaml trimmed _ links in ground (arith, yaml)

  -- Every node of every report has a type that is supported.
  pub parse_subscription-IsTyped :
      (content : Text) (r : ParseReport)
      → parse_subscription platform content ≡ some r
      → All IsTyped r.nodes
  parse_subscription-IsTyped content r e =
      (subst (Holds IsGood) e (parse_subscription-IsGood content)).0

  -- The nodes of a report that were not read off links have a type that is supported and a port in
  -- 1 to 65535.
  pub parse_subscription-IsSound :
      (content : Text) (r : ParseReport)
      → parse_subscription platform content ≡ some r
      → from_links r.detected ≡ false
      → All IsSound r.nodes
  parse_subscription-IsSound content r e read =
      (subst (Holds IsGood) e (parse_subscription-IsGood content)).1 read
