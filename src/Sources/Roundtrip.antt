-- ===== src/Sources/Roundtrip.antt =====
-- packages/plugin/src/pool/sources.ts: lines that are an address already are read back whole, and
-- the deduplicated list names every address once.
use dsh_opencode.Base.{
  ℕ, ◌≤◌, ◌≡◌, refl, ◌≢◌, inl, inr, Bool, true, false, not, ◌||◌, List, [], ◌∷◌, ◌++◌, Text, codes,
  none, some, arith, ◌==◌, exists, same, All, All-append, starts_with, Bool-cases, Option-cases,
}
use mathlib.Core.List.{reverse, reverse-cons, reverse-reverse}
use dsh_opencode.Sources.Lines.{
  FreeAddress, span, number, is_digit, is_port_text, plain_host, bracketed_host, split_address,
  parse_address, parse_free_list_line, strip_scheme, trim, trim_start, is_space, is_scheme_char,
  dedupe_from, dedupe_addresses,
}

trim_start_id : (s : Text) → All (λ c. is_space c ≡ false) s → trim_start s ≡ s
unfolding trim_start
trim_start_id [] h = refl
trim_start_id (c ∷ s) h = ground (arith, h.0)

All-reverse : (P : ℕ → Type 0) (s : Text) → All P s → All P (reverse s)
All-reverse P [] h = h
All-reverse P (c ∷ s) h =
    rw (reverse-cons c s) (All-append P (reverse s) (c ∷ []) (All-reverse P s h.1) (h.0, tt))

trim_id : (s : Text) → All (λ c. is_space c ≡ false) s → trim s ≡ s
unfolding trim
trim_id s h =
    rw (trim_start_id s h, trim_start_id (reverse s) (All-reverse (λ c. is_space c ≡ false) s h))
      (reverse-reverse s)

span_stop :
    (p : ℕ → Bool) (xs : Text) (c : ℕ) (ys : Text)
    → All (λ x. p x ≡ true) xs
    → p c ≡ false
    → span p (xs ++ (c ∷ ys)) ≡ (xs, c ∷ ys)
unfolding span
span_stop p [] c ys h k = ground arith
span_stop p (x ∷ xs) c ys h k = ground (arith, span_stop p xs c ys h.1 k)

no_scheme :
    (xs : Text) (d : ℕ) (ds : Text)
    → All (λ x. x ≢ b':') xs
    → d ≢ b'/'
    → starts_with (codes "://") (span is_scheme_char (xs ++ (b':' ∷ d ∷ ds))).1 ≡ false
unfolding span starts_with is_scheme_char
no_scheme [] d ds h k = ground arith
no_scheme (x ∷ xs) d ds h k = ground (arith, h.0, no_scheme xs d ds h.1 k)

All-map : (P Q : ℕ → Type 0) (s : Text) → ((c : ℕ) → P c → Q c) → All P s → All Q s
All-map P Q [] f h = h
All-map P Q (c ∷ s) f h = (f c h.0, All-map P Q s f h.1)

exists-eq-false : (p : ℕ → Bool) (s : Text) → exists p s ≡ false → All (λ c. p c ≡ false) s
unfolding exists
exists-eq-false p [] h = tt
exists-eq-false p (c ∷ s) h = ground (arith, exists-eq-false p s)

digit-not-space : (c : ℕ) → not (is_digit c) ≡ false → is_space c ≡ false
unfolding is_digit is_space
digit-not-space c h = ground arith

-- A host that the list format takes as it stands: not empty, no colon and no white space in it,
-- and neither a comment sign nor a bracket in front.
pub record IsPlainHost (c : ℕ) (h : Text) : Type 0 where
  pub no_colon : All (λ x. x ≢ b':') (c ∷ h)
  pub no_space : All (λ x. is_space x ≡ false) (c ∷ h)
  pub no_comment : c ≢ b'#'
  pub no_bracket : c ≢ b'['

module _ (c : ℕ) (h : Text) (d : ℕ) (ds : Text) (v : IsPlainHost c h)
    (digits : is_port_text (d ∷ ds) ≡ true) where
  abbrev line : Text
  line = c ∷ (h ++ (b':' ∷ d ∷ ds))

  All-digits : All (λ x. not (is_digit x) ≡ false) (d ∷ ds)
  unfolding is_port_text
  All-digits = exists-eq-false (λ x. not (is_digit x)) (d ∷ ds) (ground arith)

  line-not_space : All (λ x. is_space x ≡ false) line
  line-not_space =
      All-append (λ x. is_space x ≡ false) (c ∷ h) (b':' ∷ d ∷ ds) v.no_space
        (
          unfold is_space in refl,
          All-map (λ x. not (is_digit x) ≡ false) (λ x. is_space x ≡ false) (d ∷ ds) digit-not-space
              All-digits,
        )

  strip_scheme_id : strip_scheme line ≡ line
  unfolding strip_scheme is_digit
  strip_scheme_id = ground (arith, no_scheme (c ∷ h) d ds v.no_colon (ground (arith, All-digits.0)))

  split_line : split_address line ≡ some (c ∷ h, d ∷ ds)
  unfolding split_address bracketed_host plain_host
  split_line =
      let colon =
        span_stop (λ x. not (x == b':')) (c ∷ h) b':' (d ∷ ds)
          (All-map (λ x. x ≢ b':') (λ x. not (x == b':') ≡ true) (c ∷ h) (λ x ne. ground arith)
            v.no_colon)
          refl in
      ground (arith, colon, v.no_bracket)

  parse_line :
      1 ≤ number (d ∷ ds)
      → number (d ∷ ds) ≤ 65535
      → parse_address line ≡ some (record { address = line; host = c ∷ h; port = number (d ∷ ds) })
  unfolding parse_address
  parse_line low high = rw (split_line, parse_address) (ground arith)

  -- Such a host, a colon and one to five digits whose value is a port are accepted, with the whole
  -- line as the address.
  pub parse_free_list_line-accepts :
      1 ≤ number (d ∷ ds)
      → number (d ∷ ds) ≤ 65535
      → parse_free_list_line line
        ≡ some (record { address = line; host = c ∷ h; port = number (d ∷ ds) })
  unfolding parse_free_list_line starts_with
  parse_free_list_line-accepts low high =
      ground
        (arith, trim_id line line-not_space, strip_scheme_id, parse_line low high, v.no_comment)

-- Every address of the list is new: it is neither among those seen before nor again further on.
abbrev pub AllNew : List Text → List FreeAddress → Type 0
AllNew seen [] = Unit
AllNew seen (r ∷ rs) = (exists (same r.address) seen ≡ false) × AllNew (r.address ∷ seen) rs

dedupe_from-none :
    (seen lines : List Text) (l : Text)
    → parse_free_list_line l ≡ none
    → dedupe_from seen (l ∷ lines) ≡ dedupe_from seen lines
unfolding dedupe_from
dedupe_from-none seen lines l e = rw (e, dedupe_from)

dedupe_from-seen :
    (seen lines : List Text) (l : Text) {r : FreeAddress}
    → parse_free_list_line l ≡ some r
    → exists (same r.address) seen ≡ true
    → dedupe_from seen (l ∷ lines) ≡ dedupe_from seen lines
unfolding dedupe_from
dedupe_from-seen seen lines l e f = rw (e, f, dedupe_from)

dedupe_from-new :
    (seen lines : List Text) (l : Text) {r : FreeAddress}
    → parse_free_list_line l ≡ some r
    → exists (same r.address) seen ≡ false
    → dedupe_from seen (l ∷ lines) ≡ r ∷ dedupe_from (r.address ∷ seen) lines
unfolding dedupe_from
dedupe_from-new seen lines l e f = rw (e, f, dedupe_from)

dedupe_from-AllNew : (seen lines : List Text) → AllNew seen (dedupe_from seen lines)
unfolding dedupe_from
dedupe_from-AllNew seen [] = tt
dedupe_from-AllNew seen (l ∷ lines) = elim (Option-cases (parse_free_list_line l)) [
  | inl e ↦ rw (dedupe_from-none seen lines l e) (dedupe_from-AllNew seen lines)
  | inr (r, e) ↦ elim (Bool-cases (exists (same r.address) seen)) [
    | inl f ↦ rw (dedupe_from-seen seen lines l e f) (dedupe_from-AllNew seen lines)
    | inr f ↦ rw (dedupe_from-new seen lines l e f) (f, dedupe_from-AllNew (r.address ∷ seen) lines)
  ]
]

-- Whether the list names the address.
abbrev pub lists : Text → List FreeAddress → Bool
lists address [] = false
lists address (r ∷ rs) = same r.address address || lists address rs

abbrev pub parses_to : Text → List Text → Bool
parses_to address [] = false
parses_to address (line ∷ lines) =
    (elim (parse_free_list_line line) [ none ↦ false | some r ↦ same r.address address ])
    || parses_to address lines

dedupe_from-lists :
    (seen lines : List Text) (address : Text)
    → exists (same address) seen ≡ false
    → lists address (dedupe_from seen lines) ≡ parses_to address lines
unfolding dedupe_from exists
dedupe_from-lists seen [] address h = refl
dedupe_from-lists seen (l ∷ lines) address h = elim (Option-cases (parse_free_list_line l)) [
  | inl e ↦ rw (dedupe_from-none seen lines l e, e) (dedupe_from-lists seen lines address h)
  | inr (r, e) ↦ elim (Bool-cases (exists (same r.address) seen)) [
    | inl f ↦
        rw (dedupe_from-seen seen lines l e f, e)
          (ground (arith, dedupe_from-lists seen lines address h))
    | inr f ↦
        rw (dedupe_from-new seen lines l e f, e)
          (ground (arith, dedupe_from-lists (r.address ∷ seen) lines address))
  ]
]

-- The deduplicated list names no address twice, and it names exactly the addresses that some line
-- parses to.
pub dedupe_addresses_lem :
    (lines : List Text)
    → AllNew [] (dedupe_addresses lines)
      × ((address : Text) → lists address (dedupe_addresses lines) ≡ parses_to address lines)
unfolding dedupe_addresses exists
dedupe_addresses_lem lines =
    (dedupe_from-AllNew [] lines, λ address. dedupe_from-lists [] lines address refl)
