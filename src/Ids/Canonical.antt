-- ===== src/Ids/Canonical.antt =====
-- packages/plugin/src/adapter/ids.ts: every session id has the canonical shape.
use dsh_opencode.Base.{
  ℕ, zero, suc, ◌+◌, ◌-◌, ◌*◌, ◌/◌, ◌%◌, ◌^◌, ◌≤◌, ◌<◌, ◌≡◌, refl, ap, ◌∙◌, sym, Bool, true, ◌&&◌,
  List, [], ◌∷◌, ◌++◌, Text, codes, arith, if◌then◌else◌, leb, ◌==◌, ==_iff, length, length-append,
  drop, exists, starts_with, All, Bool-cases, inl, inr,
}
use dsh_opencode.Ids.{
  take, hex, char_at, base62_fixed, big_endian, is_hex_char, is_base62_char, every, is_canonical,
  canonical_session_id,
}

-- The digits under a width, tested one after the other.
every_digit : (test : ℕ → Bool) → ℕ → Bool
every_digit test zero = true
every_digit test (suc width) = every_digit test width && test width

every_digit-at :
    (test : ℕ → Bool) (width d : ℕ) → d < width → every_digit test width ≡ true → test d ≡ true
unfolding every_digit
every_digit-at test zero d below all = elim below [ ]
every_digit-at test (suc width) d below all = ground (arith, every_digit-at test width d)

char_table : every_digit (λ n. is_base62_char (char_at n)) 62 ≡ true
unfolding every_digit char_at
char_table = refl

char_at-base62 : (n : ℕ) → n < 62 → is_base62_char (char_at n) ≡ true
char_at-base62 n h = every_digit-at (λ x. is_base62_char (char_at x)) 62 n h char_table

every-append :
    (p : ℕ → Bool) (s t : Text) → every p s ≡ true → every p t ≡ true → every p (s ++ t) ≡ true
unfolding exists
every-append p [] t h k = k
every-append p (c ∷ s) t h k = ground (arith, every-append p s t)

base62_fixed-base62 : (width n : ℕ) → every is_base62_char (base62_fixed n width) ≡ true
unfolding base62_fixed exists
base62_fixed-base62 zero n = refl
base62_fixed-base62 (suc width) n =
    every-append is_base62_char (base62_fixed (n / 62) width) (char_at (n % 62) ∷ [])
      (base62_fixed-base62 width (n / 62)) (ground (arith, char_at-base62 (n % 62) (omega arith)))

length-base62_fixed : (width n : ℕ) → length (base62_fixed n width) ≡ width
unfolding base62_fixed
length-base62_fixed zero n = refl
length-base62_fixed (suc width) n = omega (
  arith,
  length-append (base62_fixed (n / 62) width) (char_at (n % 62) ∷ []),
  length-base62_fixed width (n / 62),
)

-- The bytes of a digest.
abbrev pub IsBytes : List ℕ → Type 0
IsBytes bs = All (λ b. b < 256) bs

hex-hex : (bs : List ℕ) → IsBytes bs → every is_hex_char (hex bs) ≡ true
unfolding hex exists
hex-hex [] h = refl
hex-hex (b ∷ bs) h = ground (arith, h.0, hex-hex bs h.1)

length-hex : (bs : List ℕ) → length (hex bs) ≡ length bs * 2
unfolding hex
length-hex [] = refl
length-hex (b ∷ bs) = omega (arith, length-hex bs)

take-IsBytes : (n : ℕ) (bs : List ℕ) → IsBytes bs → IsBytes (take n bs)
take-IsBytes zero bs h = tt
take-IsBytes (suc n) [] h = tt
take-IsBytes (suc n) (b ∷ bs) h = (h.0, take-IsBytes n bs h.1)

length-take : (n : ℕ) (bs : List ℕ) → n ≤ length bs → length (take n bs) ≡ n
length-take zero bs h = refl
length-take (suc n) [] h = elim h [ ]
length-take (suc n) (b ∷ bs) h = omega (arith, length-take n bs)

take-append : (s t : Text) (n : ℕ) → length s ≡ n → take n (s ++ t) ≡ s
take-append [] t n h = rw (sym h) refl
take-append (c ∷ s) t n h = rw (sym h) (ap (λ x. c ∷ x) (take-append s t (length s) refl))

drop-append : (s t : Text) (n : ℕ) → length s ≡ n → drop n (s ++ t) ≡ t
drop-append [] t n h = rw (sym h) refl
drop-append (c ∷ s) t n h = rw (sym h) (drop-append s t (length s) refl)

-- A session id of the three parts that the pattern asks for.
canonical_of_parts :
    (time rest : Text)
    → length time ≡ 12
    → length rest ≡ 14
    → every is_hex_char time ≡ true
    → every is_base62_char rest ≡ true
    → is_canonical (codes "ses_" ++ (time ++ rest)) ≡ true
unfolding is_canonical starts_with
canonical_of_parts time rest ht hr et er =
    ground
      (arith, length-append time rest, take-append time rest 12 ht, drop-append time rest 12 ht)

session-canonical :
    (sha256 : Text → List ℕ) (signal : Text)
    → ((t : Text) → IsBytes (sha256 t))
    → ((t : Text) → 16 ≤ length (sha256 t))
    → is_canonical (canonical_session_id sha256 signal) ≡ true
unfolding canonical_session_id
session-canonical sha256 signal bytes long = elim (Bool-cases (is_canonical signal)) [
  | inl official ↦ rw (official, canonical_session_id) official
  | inr foreign ↦
      let key = codes "ses" ++ (0 ∷ signal) in
      let sum = sha256 key in
      let number = big_endian 0 (take 10 (drop 6 sum)) in
      rw (foreign, canonical_session_id)
        (canonical_of_parts (hex (take 6 sum)) (base62_fixed number 14)
          (omega (arith, length-hex (take 6 sum), length-take 6 sum, long key))
          (length-base62_fixed 14 number) (hex-hex (take 6 sum) (take-IsBytes 6 sum (bytes key)))
          (base62_fixed-base62 14 number))
]

-- Every session id that is sent upstream has the canonical shape, whatever the signal, for a hash
-- that gives at least 16 bytes; and a session id is a signal for itself, so an id that came from
-- here or from OpenCode is passed on unchanged.
pub canonical_session_id_lem :
    (sha256 : Text → List ℕ) (signal : Text)
    → ((t : Text) → IsBytes (sha256 t))
    → ((t : Text) → 16 ≤ length (sha256 t))
    → let id = canonical_session_id sha256 signal in
      (is_canonical id ≡ true) × (canonical_session_id sha256 id ≡ id)
unfolding canonical_session_id
canonical_session_id_lem sha256 signal bytes long =
    let canonical = session-canonical sha256 signal bytes long in
    (canonical, rw (canonical, canonical_session_id) refl)

-- The number that digits of the alphabet stand for, the highest first.
abbrev pub char_value : ℕ → ℕ
char_value c = if leb c b'9' then c - b'0' else if leb c b'Z' then c - 55 else c - 61

abbrev pub base62_value : ℕ → Text → ℕ
base62_value n [] = n
base62_value n (c ∷ s) = base62_value (n * 62 + char_value c) s

value_table : every_digit (λ n. char_value (char_at n) == n) 62 ≡ true
unfolding every_digit char_at
value_table = refl

base62_value-append :
    (n : ℕ) (s t : Text) → base62_value n (s ++ t) ≡ base62_value (base62_value n s) t
base62_value-append n [] t = refl
base62_value-append n (c ∷ s) t = base62_value-append (n * 62 + char_value c) s t

-- The digits of a number that fits the width stand for that number: no two of them share a text.
pub base62_fixed-value : (width n : ℕ) → n < 62 ^ width → base62_value 0 (base62_fixed n width) ≡ n
unfolding base62_fixed
base62_fixed-value zero n h = omega arith
base62_fixed-value (suc width) n h =
    let digit =
      (==_iff (char_value (char_at (n % 62))) (n % 62)).0
        (every_digit-at (λ x. char_value (char_at x) == x) 62 (n % 62) (omega arith) value_table) in
    let front = base62_fixed-value width (n / 62) (omega arith) in
    base62_value-append 0 (base62_fixed (n / 62) width) (char_at (n % 62) ∷ [])
    ∙ omega (arith, digit, front)
