-- ===== src/Sources/Accepted.antt =====
-- packages/plugin/src/pool/sources.ts: which lines `parseFreeListLine` accepts, and as what.
use dsh_opencode.Base.{
  ℕ, ◌≤◌, ◌≡◌, refl, sym, ap, ◌≢◌, Bool, true, false, not, [], ◌∷◌, ◌++◌, Text, Option, none, some,
  arith, ◌==◌, if◌then◌else◌, same, All,
}
use mathlib.Core.List.{append_assoc}
use dsh_opencode.Sources.Lines.{
  FreeAddress, span, number, is_port_text, plain_host, bracketed_host, split_address, parse_address,
  parse_free_list_line, strip_scheme, trim, port_after, close_bracket, in_range,
}

span-append : (p : ℕ → Bool) (s : Text) → (span p s).0 ++ (span p s).1 ≡ s
unfolding span
span-append p [] = refl
span-append p (c ∷ s) = ground (arith, span-append p s)

plain_host_sound :
    (s : Text) {host digits : Text}
    → plain_host s ≡ some (host, digits)
    → (s ≡ host ++ (b':' ∷ digits)) × (host ≢ []) × (is_port_text digits ≡ true)
unfolding plain_host
plain_host_sound s {host} {digits} h =
    go (span (λ c. not (c == b':')) s).0 (span (λ c. not (c == b':')) s).1
      (span-append (λ c. not (c == b':')) s) h
  where
    go :
        (x t : Text)
        → x ++ t ≡ s
        → (if same x [] then none else port_after x t) ≡ some (host, digits)
        → (s ≡ host ++ (b':' ∷ digits)) × (host ≢ []) × (is_port_text digits ≡ true)
    go x [] e q = ground arith
    go x (c ∷ d) e q = ground arith

-- The shape of what the pattern matches.
abbrev IsAddress : Text → Text → Text → Type 0
IsAddress s host digits = (s ≡ host ++ (b':' ∷ digits)) × (host ≢ []) × (is_port_text digits ≡ true)

port_after_sound :
    (x t : Text) {host digits : Text}
    → port_after x t ≡ some (host, digits)
    → (t ≡ b':' ∷ digits) × (host ≡ x) × (is_port_text digits ≡ true)
port_after_sound x [] h = cc
port_after_sound x (c ∷ d) h = ground arith

close_bracket_sound :
    (inner rest : Text) {host digits : Text}
    → close_bracket inner rest ≡ some (host, digits)
    → IsAddress (b'[' ∷ (inner ++ rest)) host digits
close_bracket_sound inner [] h = cc
close_bracket_sound inner (c ∷ rest) {host} {digits} h =
    let x : Text = b'[' ∷ (inner ++ (b']' ∷ [])) in
    let (tail, whole, valid) =
      port_after_sound x rest {host = host} {digits = digits} (ground arith) in
    let closed : c ≡ b']' = ground arith in
    let regroup = append_assoc inner (b']' ∷ []) (b':' ∷ digits) in
    (rw (closed, tail, whole) (ap (◌∷◌ b'[') (sym regroup)), rw whole (λ e. cc), valid)

bracketed_host_sound :
    (s : Text) {host digits : Text}
    → bracketed_host s ≡ some (host, digits)
    → IsAddress s host digits
unfolding bracketed_host
bracketed_host_sound [] h = cc
bracketed_host_sound (c ∷ s) {host} {digits} h =
    let inner = (span (λ c. not (c == b']')) s).0 in
    let rest = (span (λ c. not (c == b']')) s).1 in
    let whole = span-append (λ c. not (c == b']')) s in
    let opened : c ≡ b'[' = ground arith in
    let found = close_bracket_sound inner rest {host = host} {digits = digits} (ground arith) in
    (rw (opened, ← whole) found.0, found.1, found.2)

split_address_sound :
    (s : Text) {host digits : Text}
    → split_address s ≡ some (host, digits)
    → IsAddress s host digits
unfolding split_address
split_address_sound s {host} {digits} h = ground (
  arith,
  plain_host_sound s {host = host} {digits = digits},
  bracketed_host_sound s {host = host} {digits = digits},
)

parse_address_sound :
    (address : Text) {r : FreeAddress}
    → parse_address address ≡ some r
    → (digits : Text) × (r.address ≡ r.host ++ (b':' ∷ digits))
      × (r.host ≢ [])
      × (is_port_text digits ≡ true)
      × (r.port ≡ number digits)
      × (1 ≤ r.port)
      × (r.port ≤ 65535)
unfolding parse_address
parse_address_sound address {r} h = go (split_address address) refl h
  where
    go :
        (o : Option (Text × Text))
        → split_address address ≡ o
        → elim o as (λ _. Option FreeAddress) [
          | none ↦ none
          | some (host, digits) ↦
              if in_range (number digits)
              then some (record { address = address; host = host; port = number digits })
              else none
        ]
          ≡ some r
        → (digits : Text) × (r.address ≡ r.host ++ (b':' ∷ digits))
          × (r.host ≢ [])
          × (is_port_text digits ≡ true)
          × (r.port ≡ number digits)
          × (1 ≤ r.port)
          × (r.port ≤ 65535)
    go none e q = cc
    go (some (host, digits)) e q =
        let s = split_address_sound address e in
        (digits, ground arith, ground arith, s.2, ground arith, ground arith, ground arith)

-- An accepted line names a port between 1 and 65535, and its address is a host that is not empty,
-- a colon and one to five digits, whose value is the port.
pub parse_free_list_line_sound :
    (line : Text) {r : FreeAddress}
    → parse_free_list_line line ≡ some r
    → (digits : Text) × (r.address ≡ r.host ++ (b':' ∷ digits))
      × (r.host ≢ [])
      × (is_port_text digits ≡ true)
      × (r.port ≡ number digits)
      × (1 ≤ r.port)
      × (r.port ≤ 65535)
unfolding parse_free_list_line
parse_free_list_line_sound line {r} h =
    parse_address_sound (strip_scheme (trim line)) (ground arith)

span_stop :
    (p : ℕ → Bool) (xs : Text) (c : ℕ) (ys : Text)
    → All (λ x. p x ≡ true) xs
    → p c ≡ false
    → span p (xs ++ (c ∷ ys)) ≡ (xs, c ∷ ys)
unfolding span
span_stop p [] c ys h k = ground arith
span_stop p (x ∷ xs) c ys h k = ground (arith, span_stop p xs c ys h.1 k)
