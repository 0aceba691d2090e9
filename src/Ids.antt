-- ===== src/Ids.antt =====
-- packages/plugin/src/adapter/ids.ts: the correlation ids of a request. `createHash('sha256')` is
-- the parameter `sha256` from a text to bytes, `randomBytes` the bytes that a call is given.
pub mod Canonical
use dsh_opencode.Base.{
  ℕ, zero, suc, ◌+◌, ◌*◌, ◌/◌, ◌%◌, Bool, true, false, not, ◌&&◌, ◌||◌, List, [], ◌∷◌, ◌++◌, Text,
  codes, Option, none, some, if◌then◌else◌, leb, ◌==◌, same, length, drop, get_elem?, exists,
  starts_with,
}
use dsh_opencode.Pool.Types.{or_else}
use dsh_opencode.Sources.Lines.{trim}

pub record RequestIds : Type 0 where
  pub session : Text
  pub request : Text
  pub project : Text
  pub parent_session : Text

abbrev pub take : ℕ → List ℕ → List ℕ
take zero xs = []
take (suc n) [] = []
take (suc n) (x ∷ xs) = x ∷ take n xs

-- A lower-case hexadecimal digit.
abbrev pub hex_digit : ℕ → ℕ
hex_digit n = if leb n 9 then b'0' + n else 87 + n

-- `toString('hex')`
unfoldable pub hex : List ℕ → Text
hex [] = []
hex (b ∷ bs) = hex_digit (b / 16) ∷ hex_digit (b % 16) ∷ hex bs

abbrev pub prefixed : Text → Text → Text
prefixed prefix id = prefix ++ (codes "_" ++ id)

unfoldable pub random_id : Text → List ℕ → Text
unfolding hex
random_id prefix bytes = prefixed prefix (hex bytes)

-- `firstString`
unfoldable pub first_string : List (Option Text) → Text
unfolding trim
first_string [] = []
first_string (none ∷ vs) = first_string vs
first_string (some v ∷ vs) = let rest = first_string vs in if same (trim v) [] then rest else trim v

abbrev pub base62_alphabet : Text
base62_alphabet = codes "0123456789ABCDEFGHIJKLMNOPQRSTUVWXYZabcdefghijklmnopqrstuvwxyz"

-- `BASE62_ALPHABET.charAt`
unfoldable pub char_at : ℕ → ℕ
char_at n = or_else (get_elem? base62_alphabet n) 0

-- `base62Fixed`: the lowest `width` digits, the highest first.
unfoldable pub base62_fixed : ℕ → ℕ → Text
unfolding char_at
base62_fixed n zero = []
base62_fixed n (suc width) = base62_fixed (n / 62) width ++ (char_at (n % 62) ∷ [])

-- `BigInt('0x' + hex)` of bytes.
unfoldable pub big_endian : ℕ → List ℕ → ℕ
big_endian n [] = n
big_endian n (b ∷ bs) = big_endian (n * 256 + b) bs

abbrev pub is_hex_char : ℕ → Bool
is_hex_char c = (leb b'0' c && leb c b'9') || (leb b'a' c && leb c b'f')

abbrev pub is_base62_char : ℕ → Bool
is_base62_char c =
    (leb b'0' c && leb c b'9') || (leb b'A' c && leb c b'Z') || (leb b'a' c && leb c b'z')

abbrev pub every : (ℕ → Bool) → Text → Bool
every p s = not (exists (λ c. not (p c)) s)

-- `CANONICAL_SESSION_PATTERN.test`
unfoldable pub is_canonical : Text → Bool
unfolding exists starts_with
is_canonical s =
    starts_with (codes "ses_") s
    && (length s == 30)
    && every is_hex_char (take 12 (drop 4 s))
    && every is_base62_char (drop 16 s)

-- A message of which the role and the content are read.
pub record SeedMessage (Content : Type 0) : Type 0 where
  pub is_user : Bool
  pub content : Content

module _ {Content : Type 0} (stringify : Content → Text) where
  -- `conversationSeed`
  unfoldable pub conversation_seed : List (SeedMessage Content) → Text
  conversation_seed [] = []
  conversation_seed (m ∷ ms) =
      let rest = conversation_seed ms in
      let encoded = stringify m.content in
      if m.is_user && not (same encoded (codes "null")) && not (same encoded [])
      then encoded
      else rest

module _ (sha256 : Text → List ℕ) where
  -- `stableID`
  unfoldable pub stable_id : Text → Text → Text
  unfolding hex
  stable_id prefix value = prefixed prefix (hex (take 12 (sha256 (prefix ++ (0 ∷ value)))))

  -- `canonicalSessionID`
  unfoldable pub canonical_session_id : Text → Text
  unfolding is_canonical hex base62_fixed big_endian
  canonical_session_id signal =
      let sum = sha256 (codes "ses" ++ (0 ∷ signal)) in
      if is_canonical signal
      then signal
      else prefixed (codes "ses")
          (hex (take 6 sum) ++ base62_fixed (big_endian 0 (take 10 (drop 6 sum))) 14)

  -- `deriveRequestIDs`; the two groups of random bytes are drawn where they are used.
  unfoldable pub derive_request_ids :
      {Content : Type 0}
      → (Content → Text)
      → List ℕ
      → List ℕ
      → List (SeedMessage Content)
      → RequestIds
  unfolding conversation_seed random_id canonical_session_id stable_id
  derive_request_ids stringify fallback_bytes request_bytes messages =
      let seed = conversation_seed stringify messages in
      let signal =
        if same seed [] || same seed (codes "{}")
        then random_id (codes "fallback") fallback_bytes
        else seed in
      record {
        session = canonical_session_id signal;
        request = random_id (codes "req") request_bytes;
        project = stable_id (codes "prj") (codes "OpenCode:default-project");
        parent_session = [];
      }

-- `opencodeUserAgent`, from what the process says of itself.
unfoldable pub opencode_user_agent : Text → Text → Text → Text
opencode_user_agent platform arch node =
    codes "opencode/1.18.31 ("
    ++ (platform ++ (codes " " ++ (arch ++ (codes "; node" ++ (node ++ codes ")")))))

-- `disguiseHeaders`
unfoldable pub disguise_headers : Text → RequestIds → List (Text × Text)
disguise_headers user_agent ids =
    (codes "user-agent", user_agent)
    ∷ (codes "x-opencode-client", codes "cli")
    ∷ (codes "x-opencode-session", ids.session)
    ∷ (codes "x-session-affinity", ids.session)
    ∷ (codes "X-Session-Id", ids.session)
    ∷ (codes "x-opencode-request", ids.request)
    ∷ (codes "x-opencode-project", ids.project)
    ∷ []
