-- ===== src/Admission/Screen.antt =====
-- packages/plugin/src/pool/admission.ts: `coarseScreen`. What a request brings is a parameter, and
-- so is `parse_echo`, `JSON.parse` with the members that are read, `none` where it throws.
use dsh_opencode.Base.{
  ℕ, ◌-◌, Bool, not, ◌&&◌, List, [], ◌∷◌, ◌++◌, map, Text, codes, Option, none, some, if◌then◌else◌,
  leb, ltb, ◌==◌, same,
}
use dsh_opencode.Base.Decimal.{decimal}
use dsh_opencode.Pool.Types.{or_else}
use dsh_opencode.Sources.Lines.{trim}
use dsh_opencode.Catalog.Prices.{member_of}

-- The answer of a request after some milliseconds, or its failure.
pub record Reply : Type 0 where
  pub status : ℕ
  pub body : Text

pub data Wire : Type 0 where
  answers : ℕ → Reply → Wire
  fails : ℕ → Text → Wire

-- `withTimeout`: the timer wins over what comes later.
pub data Awaited : Type 0 where
  got : ℕ → Reply → Awaited
  thrown : Text → Awaited

abbrev pub timed_out : Text → ℕ → Text
timed_out label ms = label ++ codes " timed out after " ++ decimal ms ++ codes "ms"

unfoldable pub with_timeout : ℕ → Text → Wire → Awaited
with_timeout ms label (answers took reply) =
    if ltb ms took then Awaited.thrown (timed_out label ms) else Awaited.got took reply
with_timeout ms label (fails took message) =
    if ltb ms took then Awaited.thrown (timed_out label ms) else Awaited.thrown message

pub record EchoResponse : Type 0 where
  pub status : Option Text
  pub query : Option Text
  pub country_code : Option Text
  pub city : Option Text

pub record EchoFacts : Type 0 where
  pub exit_ip : Text
  pub exit_location : Text
  pub latency_ms : ℕ

pub data Screened : Type 0 where
  facts : EchoFacts → Screened
  rejected : Text → Screened

pub record ScreenOptions : Type 0 where
  pub relaxed : Bool
  pub pinned : Bool
  pub timeout_ms : Option ℕ

abbrev pub default_timeout_ms : ℕ
default_timeout_ms = 8000

abbrev pub max_response_ms : Bool → ℕ
max_response_ms relaxed = if relaxed then 6000 else 3000

-- `toUpperCase`, in ASCII, where country codes are written.
unfoldable pub upper : ℕ → ℕ
upper c = if leb b'a' c && leb c b'z' then c - 32 else c

abbrev pub country_of : EchoResponse → Text
country_of e = map upper (or_else e.country_code [])

abbrev pub shown : Option Text → Text
shown s = or_else s (codes "undefined")

abbrev pub facts_of : ℕ → EchoResponse → EchoFacts
facts_of took e = record {
  exit_ip = or_else e.query [];
  exit_location = trim (shown e.country_code ++ codes " " ++ shown e.city);
  latency_ms = took;
}

abbrev pub reports : EchoResponse → Bool
reports e = same (or_else e.status []) (codes "success") && not (same (or_else e.query []) [])

-- The tests on an echo that was read, in their order.
unfoldable pub screen_echo : List Text → ScreenOptions → ℕ → EchoResponse → Screened
unfolding upper member_of trim
screen_echo blocked options took e =
    if not (reports e)
    then Screened.rejected (codes "echo did not report an exit IP")
    else if member_of blocked (country_of e)
    then Screened.rejected (codes "geo-blocked " ++ country_of e)
    else if ltb (max_response_ms options.relaxed) took && not options.pinned
    then Screened.rejected (
        codes "latency "
        ++ decimal took
        ++ codes "ms > "
        ++ decimal (max_response_ms options.relaxed)
        ++ codes "ms")
    else Screened.facts (facts_of took e)

abbrev pub screen_reply :
    (Text → Option EchoResponse) → List Text → ScreenOptions → Awaited → Screened
screen_reply parse_echo blocked options (Awaited.thrown message) = Screened.rejected message
screen_reply parse_echo blocked options (Awaited.got took reply) =
    if not (reply.status == 200)
    then Screened.rejected (codes "echo HTTP " ++ decimal reply.status)
    else elim (parse_echo reply.body) [
      | none ↦ Screened.rejected (codes "echo body not JSON")
      | some e ↦ screen_echo blocked options took e
    ]

-- `coarseScreen`, with the message of the proxy agent's constructor where it throws.
unfoldable pub coarse_screen :
    (Text → Option EchoResponse)
    → Option (List Text)
    → ScreenOptions
    → Option Text
    → Wire
    → Screened
unfolding with_timeout screen_echo
coarse_screen parse_echo blocked options (some message) wire =
    Screened.rejected (codes "agent-build: " ++ message)
coarse_screen parse_echo blocked options none wire =
    screen_reply parse_echo (or_else blocked (codes "CN" ∷ [])) options
      (with_timeout (or_else options.timeout_ms default_timeout_ms) (codes "probe") wire)
