-- ===== src/Subscription/Encoding.antt =====
-- packages/plugin/src/pool/subscription.ts: the tests of a format and `tryBase64Decode`.
use dsh_opencode.Base.{
  ℕ, ◌%◌, Bool, true, false, not, ◌&&◌, ◌||◌, [], ◌∷◌, ◌++◌, map, Text, codes, Option, none, some,
  if◌then◌else◌, ltb, ◌==◌, length, drop, keep, exists, same, starts_with,
}
use dsh_opencode.Events.Errors.{contains}
use dsh_opencode.Sources.Lines.{is_space}

-- The ends of lines under the flag `m`.
abbrev pub is_line_end : ℕ → Bool
is_line_end c = (c == 10) || (c == 13) || (c == 8232) || (c == 8233)

-- A line that starts with the word and has white space after it only: `/^word\s*$/m`, from the
-- start of a line on.
unfoldable pub blank_to_end : Text → Bool
unfolding is_space
blank_to_end [] = true
blank_to_end (c ∷ s) = let rest = blank_to_end s in is_line_end c || (is_space c && rest)

unfoldable pub line_is : Text → Text → Bool
unfolding starts_with blank_to_end
line_is word s = starts_with word s && blank_to_end (drop (length word) s)

unfoldable pub later_line_is : Text → Text → Bool
unfolding line_is
later_line_is word [] = false
later_line_is word (c ∷ s) =
    let rest = later_line_is word s in (is_line_end c && line_is word s) || rest

abbrev pub has_line : Text → Text → Bool
has_line word s = line_is word s || later_line_is word s

unfoldable pub looks_like_yaml : Text → Bool
unfolding line_is later_line_is contains
looks_like_yaml content =
    has_line (codes "proxies:") content
    || has_line (codes "Proxy:") content
    || (contains (codes "proxies:") content && contains (codes "- name:") content)
    || (has_line (codes "---") content && contains (codes "port:") content)

unfoldable pub looks_like_proxy_links : Text → Bool
unfolding contains
looks_like_proxy_links content =
    contains (codes "vmess://") content
    || contains (codes "vless://") content
    || contains (codes "trojan://") content
    || contains (codes "ss://") content
    || contains (codes "ssr://") content
    || contains (codes "hysteria2://") content
    || contains (codes "hy2://") content
    || contains (codes "tuic://") content

-- `content.replace(/\s+/g, '')`
abbrev pub compacted : Text → Text
compacted content = keep (λ c. not (is_space c)) content

-- The URL-safe alphabet, and back.
abbrev pub to_url_safe : ℕ → ℕ
to_url_safe c = if c == b'+' then b'-' else if c == b'/' then b'_' else c

abbrev pub from_url_safe : ℕ → ℕ
from_url_safe c = if c == b'-' then b'+' else if c == b'_' then b'/' else c

-- `replace(/=+$/, '')`: what comes after is only more of the padding.
unfoldable pub strip_padding : Text → Text
strip_padding [] = []
strip_padding (c ∷ s) =
    let rest = strip_padding s in if (c == b'=') && same rest [] then [] else c ∷ rest

-- `padEnd` to the next multiple of four.
abbrev pub padding : ℕ → Text
padding rest =
    if rest == 0
    then []
    else if rest == 1
    then codes "==="
    else if rest == 2
    then codes "=="
    else codes "="

unfoldable pub pad_to_four : Text → Text
pad_to_four s = s ++ padding (length s % 4)

-- `decode64` is `Buffer.from(text, 'base64').toString('utf8')` and `encode64` the other way.
module _ (decode64 encode64 : Text → Text) where
  abbrev pub decoded_of : Text → Text
  decoded_of compact = decode64 (pad_to_four (map from_url_safe compact))

  -- The test that the text is what its decoding is encoded as.
  unfoldable pub survives : Text → Bool
  unfolding strip_padding pad_to_four
  survives compact =
      same (map to_url_safe (strip_padding (encode64 (decoded_of compact)))) (strip_padding compact)

  unfoldable pub try_base64_decode : Text → Option Text
  unfolding survives exists
  try_base64_decode content =
      let compact = compacted content in
      if ltb (length compact) 8
      then none
      else if not (survives compact)
      then none
      else if exists (λ c. c == 0) (decoded_of compact)
      then none
      else some (decoded_of compact)
