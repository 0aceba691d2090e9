-- ===== src/Subscription/Losses.antt =====
-- packages/plugin/src/pool/subscription.ts: bodies that are lost.
use dsh_opencode.Base.{
  ℕ, zero, suc, ◌≡◌, refl, subst, Bool, true, false, ◌||◌, List, [], ◌∷◌, map, Text, Option, none,
  some, arith, same, text_dec, exists, ◌==◌, get_elem?, inl, inr, Bool-cases,
}
use dsh_opencode.Sources.Lines.{trim}
use dsh_opencode.Subscription.Encoding.{
  looks_like_yaml, looks_like_proxy_links, try_base64_decode, survives, strip_padding, to_url_safe,
  compacted, decoded_of,
}
use dsh_opencode.Subscription.Clash.{Parsed}
use dsh_opencode.Subscription.Links.{Throwing}
use dsh_opencode.Subscription.Detect.{
  Platform, parse_proxy_link, parse_proxy_links, parse_link_lines, parse_subscription, lines_of,
  is_ignored, take_line,
}

-- The two characters that the standard alphabet has and the URL-safe one has not.
abbrev pub is_standard : ℕ → Bool
is_standard c = (c == b'+') || (c == b'/')

url_safe : (s : Text) → exists is_standard (map to_url_safe s) ≡ false
unfolding exists
url_safe [] = refl
url_safe (c ∷ s) = ground (arith, url_safe s)

exists-strip_padding : (s : Text) → exists is_standard (strip_padding s) ≡ exists is_standard s
unfolding exists strip_padding text_dec
exists-strip_padding [] = refl
exists-strip_padding (c ∷ s) = ground (arith, exists-strip_padding s)

pub same_eq : (s t : Text) → same s t ≡ true → s ≡ t
same_eq s t e = ground (arith, e)

module _ (decode64 encode64 : Text → Text) where
  not_survives :
      (compact : Text)
      → exists is_standard compact ≡ true
      → survives decode64 encode64 compact ≡ false
  unfolding survives
  not_survives compact standard = elim (Bool-cases (survives decode64 encode64 compact)) [
    | inr e ↦ e
    | inl e ↦
        let back = strip_padding (encode64 (decoded_of decode64 encode64 compact)) in
        let equal = same_eq (map to_url_safe back) (strip_padding compact) e in
        let safe = subst (λ s. exists is_standard s ≡ false) equal (url_safe back) in
        absurd (ground (arith, safe, standard, exists-strip_padding compact))
  ]

  -- Whatever the decoder does, a text of base64 that has a plus or a slash, which the standard
  -- alphabet has, is not decoded: only the URL-safe alphabet passes.
  pub try_base64_decode-standard :
      (content : Text)
      → exists is_standard (compacted content) ≡ true
      → try_base64_decode decode64 encode64 content ≡ none
  unfolding try_base64_decode
  try_base64_decode-standard content standard =
      ground (arith, not_survives (compacted content) standard)

take_line-throws :
    (ignored : Bool) (entry : Throwing (Option _)) (rest : Throwing Parsed)
    → rest ≡ none
    → take_line ignored entry rest ≡ none
take_line-throws true entry rest e = e
take_line-throws false none rest e = refl
take_line-throws false (some entry) none e = refl
take_line-throws false (some entry) (some rest) e = absurd (cc)

module _ (platform : Platform) where
  parse_link_lines-throws :
      (lines : List Text) (i : ℕ) (line : Text)
      → get_elem? lines i ≡ some line
      → is_ignored (trim line) ≡ false
      → parse_proxy_link platform (trim line) ≡ none
      → parse_link_lines platform lines ≡ none
  unfolding parse_link_lines
  parse_link_lines-throws [] i line at live throws = absurd (cc)
  parse_link_lines-throws (l ∷ lines) zero line at live throws =
      let here : l ≡ line = cc in rw (here, live, throws) refl
  parse_link_lines-throws (l ∷ lines) (suc i) line at live throws =
      take_line-throws (is_ignored (trim l)) (parse_proxy_link platform (trim l))
        (parse_link_lines platform lines) (parse_link_lines-throws lines i line at live throws)

  -- One line of links whose parser throws, as it does on a malformed escape in the name of a link,
  -- and the whole body throws, whatever its other lines are, unless it looks like YAML.
  pub parse_subscription-throws :
      (content : Text) (i : ℕ) (line : Text)
      → looks_like_yaml (trim content) ≡ false
      → looks_like_proxy_links (trim content) ≡ true
      → same (trim content) [] ≡ false
      → get_elem? (lines_of (trim content)) i ≡ some line
      → is_ignored (trim line) ≡ false
      → parse_proxy_link platform (trim line) ≡ none
      → parse_subscription platform content ≡ none
  unfolding parse_subscription parse_proxy_links
  parse_subscription-throws content i line yaml links there at live throws =
      let lost = parse_link_lines-throws (lines_of (trim content)) i line at live throws in
      rw (there, yaml, links, lost) refl
