-- ===== src/Admission/Manual.antt =====
-- packages/plugin/src/ip-pool.ts: `parseManualProxy` and `buildPoolFromConfig`.
use dsh_opencode.Base.{
  ℕ, Bool, true, false, not, ◌&&◌, ◌||◌, List, [], ◌∷◌, map, Text, codes, Option, none, some,
  if◌then◌else◌, leb, ◌==◌, same, drop, length, starts_with,
}
use dsh_opencode.Pool.Types.{
  ExitNode, ExitSource, Protocol, ExitPool, PoolOptions, new_pool, grade_of,
}
use dsh_opencode.Pool.Table.{add, pin}
use dsh_opencode.Pool.Signals.{mark_ok}
use mathlib.Core.List.{reverse}
use dsh_opencode.Sources.Lines.{trim, is_digit, is_scheme_char, span}
use dsh_opencode.Dispatcher.Hosts.{lower}
use dsh_opencode.Catalog.Prices.{member_of}

pub record ManualProxy : Type 0 where
  pub id : Text
  pub protocol : Protocol

abbrev pub starts_with_close : Text → Bool
starts_with_close [] = false
starts_with_close (c ∷ s) = c == b']'

-- `^\[[^\]]+\]`, which asks for no port.
unfoldable pub is_bracketed : Text → Bool
unfolding span
is_bracketed [] = false
is_bracketed (c ∷ s) =
    let (inner, rest) = span (λ x. not (x == b']')) s in
    (c == b'[') && not (same inner []) && starts_with_close rest

abbrev pub colon_then_host : Text → Bool
colon_then_host [] = false
colon_then_host (c ∷ []) = false
colon_then_host (c ∷ d ∷ s) = (c == b':') && not (d == b':')

-- `[^:]+:\d{1,5}$`, read from the end.
unfoldable pub ends_in_port : Text → Bool
unfolding span is_digit
ends_in_port s =
    let (port, rest) = span is_digit (reverse s) in
    leb 1 (length port) && leb (length port) 5 && colon_then_host rest

abbrev pub proxy_schemes : List Text
proxy_schemes =
    codes "http" ∷ codes "socks5" ∷ codes "https" ∷ codes "socks4" ∷ codes "socks5h" ∷ []

abbrev pub socks_schemes : List Text
socks_schemes = codes "socks5" ∷ codes "socks4" ∷ codes "socks5h" ∷ []

-- The scheme in lower case, where there is one, and the rest.
unfoldable pub split_scheme : Text → Option Text × Text
unfolding span is_scheme_char starts_with lower
split_scheme s =
    let (run, rest) = span is_scheme_char s in
    if not (same run []) && starts_with (codes "://") rest
    then (some (map lower run), drop 3 rest)
    else (none, s)

abbrev pub is_known_scheme : Option Text → Bool
is_known_scheme none = true
is_known_scheme (some s) = member_of proxy_schemes s

abbrev pub protocol_of : Option Text → Protocol
protocol_of none = Protocol.http
protocol_of (some s) = if member_of socks_schemes s then Protocol.socks5 else Protocol.http

abbrev pub proxy_from : Text → Option Text × Text → Option ManualProxy
proxy_from trimmed (scheme, rest) =
    if not (is_bracketed rest || ends_in_port rest)
    then none
    else if not (is_known_scheme scheme)
    then none
    else some (record { id = trimmed; protocol = protocol_of scheme })

-- `parseManualProxy`
unfoldable pub parse_manual_proxy : Text → Option ManualProxy
unfolding trim split_scheme is_bracketed ends_in_port member_of
parse_manual_proxy entry =
    if same (trim entry) [] then none else proxy_from (trim entry) (split_scheme (trim entry))

abbrev pub manual_node : ℕ → Bool → ManualProxy → ExitNode
manual_node now pinned proxy = record {
  id = proxy.id;
  protocol = proxy.protocol;
  source = ExitSource.manual;
  pinned = pinned;
  exit_ip = [];
  exit_location = [];
  latency_ms = 0;
  quality = grade_of 0;
  added_at = now;
}

abbrev pub add_manual : ℕ → Bool → ManualProxy → ExitPool → ExitPool
add_manual now pinned proxy p = mark_ok now proxy.id none (add (manual_node now pinned proxy) p).0

unfoldable pub add_entries : ℕ → List Text → ExitPool → ExitPool
unfolding parse_manual_proxy mark_ok add
add_entries now [] p = p
add_entries now (entry ∷ entries) p =
    add_entries now entries
      (elim (parse_manual_proxy entry) [ none ↦ p | some proxy ↦ add_manual now false proxy p ])

abbrev pub default_options : PoolOptions
default_options = record {
  target_size = none;
  limited_cooldown_base_ms = none;
  limited_cooldown_max_ms = none;
  model_ban_confirmations = none;
  dead_evictions = none;
}

unfoldable pub add_pinned : ℕ → Option Text → ExitPool → ExitPool
unfolding parse_manual_proxy mark_ok add pin
add_pinned now none p = p
add_pinned now (some entry) p = elim (parse_manual_proxy (trim entry)) [
  | none ↦ p
  | some proxy ↦ (pin proxy.id (add_manual now true proxy p)).0
]

-- `buildPoolFromConfig`, of the manual entries and the pinned exit.
unfoldable pub build_pool_from_config : ℕ → Option (List Text) → Option Text → ExitPool
unfolding new_pool add_entries add_pinned
build_pool_from_config now none pinned = add_pinned now pinned (new_pool default_options)
build_pool_from_config now (some entries) pinned =
    add_pinned now pinned (add_entries now entries (new_pool default_options))
