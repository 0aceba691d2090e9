-- ===== src/Sources/Lines.antt =====
-- packages/plugin/src/pool/sources.ts: `parseFreeListLine` and `dedupeAddresses`.
use dsh_opencode.Base.{
  ℕ, ◌+◌, ◌-◌, ◌*◌, Bool, true, false, not, ◌&&◌, ◌||◌, List, [], ◌∷◌, ◌++◌, Text, codes, Option,
  none, some, leb, ◌==◌, if◌then◌else◌, length, drop, exists, same, starts_with,
}
use mathlib.Core.List.{reverse}

-- The white space that `trim` removes.
unfoldable pub is_space : ℕ → Bool
is_space c =
    (leb 9 c && leb c 13)
    || (c == 32)
    || (c == 160)
    || (c == 5760)
    || (leb 8192 c && leb c 8202)
    || (c == 8232)
    || (c == 8233)
    || (c == 8239)
    || (c == 8287)
    || (c == 12288)
    || (c == 65279)

unfoldable pub trim_start : Text → Text
trim_start [] = []
trim_start (c ∷ s) = let rest = trim_start s in if is_space c then rest else c ∷ s

unfoldable pub trim : Text → Text
trim s = reverse (trim_start (reverse (trim_start s)))

-- `[a-z0-9+.-]` under the flag `i`.
unfoldable pub is_scheme_char : ℕ → Bool
is_scheme_char c =
    (leb b'a' c && leb c b'z')
    || (leb b'A' c && leb c b'Z')
    || (leb b'0' c && leb c b'9')
    || (c == b'+')
    || (c == b'.')
    || (c == b'-')

-- The longest run of characters that pass the test, and what follows it.
unfoldable pub span : (ℕ → Bool) → Text → Text × Text
span p [] = ([], [])
span p (c ∷ s) = let (run, rest) = span p s in if p c then (c ∷ run, rest) else ([], c ∷ s)

-- `replace(/^[a-z0-9+.-]+:\/\//i, '')`. No scheme character is a colon, so the run has one end.
unfoldable pub strip_scheme : Text → Text
unfolding span is_scheme_char starts_with
strip_scheme s =
    let (run, rest) = span is_scheme_char s in
    if not (same run []) && starts_with (codes "://") rest then drop 3 rest else s

unfoldable pub is_digit : ℕ → Bool
is_digit c = leb b'0' c && leb c b'9'

-- `\d{1,5}` up to the end.
unfoldable pub is_port_text : Text → Bool
unfolding is_digit exists
is_port_text d = not (exists (λ c. not (is_digit c)) d) && leb 1 (length d) && leb (length d) 5

-- `Number` of a text of digits.
unfoldable pub number_from : ℕ → Text → ℕ
number_from n [] = n
number_from n (c ∷ d) = number_from (n * 10 + (c - b'0')) d

abbrev pub number : Text → ℕ
number d = number_from 0 d

abbrev pub port_after : Text → Text → Option (Text × Text)
port_after host [] = none
port_after host (c ∷ d) = if (c == b':') && is_port_text d then some (host, d) else none

-- `[^:]+:\d{1,5}$`
unfoldable pub plain_host : Text → Option (Text × Text)
unfolding span is_port_text
plain_host s =
    let (host, rest) = span (λ c. not (c == b':')) s in
    if same host [] then none else port_after host rest

abbrev pub close_bracket : Text → Text → Option (Text × Text)
close_bracket inner [] = none
close_bracket inner (c ∷ rest) =
    if c == b']' then port_after (b'[' ∷ (inner ++ (b']' ∷ []))) rest else none

-- `\[[^\]]+\]:\d{1,5}$`
unfoldable pub bracketed_host : Text → Option (Text × Text)
unfolding span is_port_text
bracketed_host [] = none
bracketed_host (c ∷ s) =
    let (inner, rest) = span (λ c. not (c == b']')) s in
    if (c == b'[') && not (same inner []) then close_bracket inner rest else none

-- The two alternatives of the pattern, in its order.
unfoldable pub split_address : Text → Option (Text × Text)
unfolding bracketed_host plain_host
split_address s = elim (bracketed_host s) [ none ↦ plain_host s | some hd ↦ some hd ]

pub record FreeAddress : Type 0 where
  pub address : Text
  pub host : Text
  pub port : ℕ

abbrev pub in_range : ℕ → Bool
in_range port = leb 1 port && leb port 65535

unfoldable pub parse_address : Text → Option FreeAddress
unfolding split_address number_from
parse_address address = elim (split_address address) [
  | none ↦ none
  | some (host, digits) ↦
      if in_range (number digits)
      then some (record { address = address; host = host; port = number digits })
      else none
]

unfoldable pub parse_free_list_line : Text → Option FreeAddress
unfolding trim strip_scheme parse_address
parse_free_list_line line =
    let trimmed = trim line in
    if same trimmed [] || starts_with (b'#' ∷ []) trimmed
    then none
    else parse_address (strip_scheme trimmed)

-- The loop of `dedupeAddresses`, with the addresses seen so far.
unfoldable pub dedupe_from : List Text → List Text → List FreeAddress
unfolding parse_free_list_line exists
dedupe_from seen [] = []
dedupe_from seen (line ∷ lines) = elim (parse_free_list_line line) [
  | none ↦ dedupe_from seen lines
  | some parsed ↦ elim (exists (same parsed.address) seen) [
    | true ↦ dedupe_from seen lines
    | false ↦ parsed ∷ dedupe_from (parsed.address ∷ seen) lines
  ]
]

unfoldable pub dedupe_addresses : List Text → List FreeAddress
unfolding dedupe_from
dedupe_addresses lines = dedupe_from [] lines
