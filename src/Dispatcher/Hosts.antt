-- ===== src/Dispatcher/Hosts.antt =====
-- packages/plugin/src/pool/dispatcher.ts: `normalizeHost`, `isLoopback` and `exitProxyUri`. The
-- `URL` class of the runtime is the parameter `hostname`, which is `none` where it throws. Letters
-- are lowered in ASCII, where host names are written.
use dsh_opencode.Base.{
  ℕ, ◌+◌, Bool, false, not, ◌&&◌, ◌||◌, [], ◌∷◌, ◌++◌, map, Text, codes, Option, none, some, leb,
  ◌==◌, if◌then◌else◌, exists, same, starts_with,
}
use dsh_opencode.Pool.Types.{Protocol}
use dsh_opencode.Sources.Lines.{trim, is_digit, is_scheme_char, span}

unfoldable pub lower : ℕ → ℕ
lower c = if leb b'A' c && leb c b'Z' then c + 32 else c

-- `value.includes('://')`
unfoldable pub has_scheme : Text → Bool
unfolding starts_with
has_scheme [] = false
has_scheme (c ∷ s) = let rest = has_scheme s in starts_with (codes "://") (c ∷ s) || rest

-- A colon and at least one digit, up to the end.
unfoldable pub is_port_part : Text → Bool
unfolding exists is_digit
is_port_part [] = false
is_port_part (c ∷ []) = false
is_port_part (c ∷ d ∷ s) = (c == b':') && not (exists (λ x. not (is_digit x)) (d ∷ s))

-- `replace(/:\d+$/, '')`
unfoldable pub strip_port : Text → Text
unfolding is_port_part
strip_port [] = []
strip_port (c ∷ s) = let rest = strip_port s in if is_port_part (c ∷ s) then [] else c ∷ rest

abbrev pub push_front : ℕ → Option Text → Option Text
push_front c none = none
push_front c (some s) = some (c ∷ s)

-- What stands before a last character `]`.
unfoldable pub before_close : Text → Option Text
before_close [] = none
before_close (c ∷ []) = if c == b']' then some [] else none
before_close (c ∷ d ∷ s) = push_front c (before_close (d ∷ s))

abbrev pub inner_or : Text → Option Text → Text
inner_or whole none = whole
inner_or whole (some []) = whole
inner_or whole (some (c ∷ s)) = c ∷ s

-- `replace(/^\[(.+)\]$/, '$1')`
unfoldable pub strip_brackets : Text → Text
unfolding before_close
strip_brackets [] = []
strip_brackets (c ∷ s) = if c == b'[' then inner_or (c ∷ s) (before_close s) else c ∷ s

abbrev pub resolved : (Text → Option Text) → Text → Text
resolved hostname value =
    if has_scheme value then elim (hostname value) [ none ↦ value | some h ↦ h ] else value

unfoldable pub normalize_host : (Text → Option Text) → Text → Text
unfolding trim lower has_scheme strip_port strip_brackets
normalize_host hostname [] = []
normalize_host hostname (c ∷ s) =
    strip_brackets (strip_port (resolved hostname (map lower (trim (c ∷ s)))))

unfoldable pub is_loopback : (Text → Option Text) → Text → Bool
unfolding normalize_host
is_loopback hostname host =
    let normalized = normalize_host hostname host in
    same normalized (codes "localhost")
    || same normalized (codes "127.0.0.1")
    || same normalized (codes "::1")

abbrev pub scheme_of : Protocol → Text
scheme_of Protocol.socks5 = codes "socks5"
scheme_of Protocol.http = codes "http"

unfoldable pub exit_proxy_uri : Text → Protocol → Text
unfolding span is_scheme_char starts_with
exit_proxy_uri exit_id protocol =
    let (run, rest) = span is_scheme_char exit_id in
    if not (same run []) && starts_with (codes "://") rest
    then exit_id
    else scheme_of protocol ++ (codes "://" ++ exit_id)
