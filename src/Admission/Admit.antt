-- ===== src/Admission/Admit.antt =====
-- packages/plugin/src/pool/admission.ts: `admitCandidate` and `admitTrusted`.
use dsh_opencode.Base.{
  ℕ, Bool, true, false, List, [], ◌++◌, Text, codes, Option, none, some, if◌then◌else◌, ◌==◌,
}
use dsh_opencode.Base.Decimal.{decimal}
use dsh_opencode.Pool.Types.{ExitNode, ExitSource, Protocol, Quality, grade_of, or_else}
use dsh_opencode.Admission.Screen.{
  Wire, Awaited, with_timeout, EchoResponse, EchoFacts, Screened, ScreenOptions, default_timeout_ms,
  coarse_screen,
}

pub record Candidate : Type 0 where
  pub address : Text
  pub protocol : Protocol
  pub source : ExitSource

-- What the requests of one admission bring.
pub record Wires : Type 0 where
  pub agent_error : Option Text
  pub echo : Wire
  pub models : Wire
  pub smoke : Wire

pub data AdmissionResult : Type 0 where
  admitted : ExitNode → Bool → AdmissionResult
  refused : Text → AdmissionResult

abbrev pub node_from : ℕ → Candidate → Bool → EchoFacts → ExitNode
node_from now c pinned f = record {
  id = c.address;
  protocol = c.protocol;
  source = c.source;
  pinned = pinned;
  exit_ip = f.exit_ip;
  exit_location = f.exit_location;
  latency_ms = f.latency_ms;
  quality = grade_of f.latency_ms;
  added_at = now;
}

-- The smoke request decides, with 429 as a limited exit.
abbrev pub smoke_verdict : ExitNode → Awaited → AdmissionResult
smoke_verdict node (Awaited.thrown message) = AdmissionResult.refused message
smoke_verdict node (Awaited.got took reply) =
    if reply.status == 200
    then AdmissionResult.admitted node false
    else if reply.status == 429
    then AdmissionResult.admitted node true
    else AdmissionResult.refused (codes "zen smoke HTTP " ++ decimal reply.status)

abbrev pub models_verdict : Awaited → AdmissionResult → AdmissionResult
models_verdict (Awaited.thrown message) next = AdmissionResult.refused message
models_verdict (Awaited.got took reply) next =
    if reply.status == 200
    then next
    else AdmissionResult.refused (codes "zen models HTTP " ++ decimal reply.status)

-- The two requests to the gateway.
unfoldable pub gateway_verdict : ℕ → Wires → ExitNode → AdmissionResult
unfolding with_timeout
gateway_verdict timeout w node =
    models_verdict (with_timeout timeout (codes "probe") w.models)
      (smoke_verdict node (with_timeout timeout (codes "smoke") w.smoke))

abbrev pub facts_or_screen :
    (Text → Option EchoResponse)
    → Option (List Text)
    → ScreenOptions
    → Option EchoFacts
    → Wire
    → Screened
facts_or_screen parse_echo blocked options (some f) wire = Screened.facts f
facts_or_screen parse_echo blocked options none wire =
    coarse_screen parse_echo blocked options none wire

abbrev pub after_screen : ℕ → Candidate → ScreenOptions → Wires → Screened → AdmissionResult
after_screen now c options w (Screened.rejected message) = AdmissionResult.refused message
after_screen now c options w (Screened.facts f) =
    gateway_verdict (or_else options.timeout_ms default_timeout_ms) w
      (node_from now c options.pinned f)

-- The facts that an earlier probe left.
pub record Previous : Type 0 where
  pub exit_ip : Text
  pub exit_location : Text
  pub latency_ms : ℕ
  pub quality : Option Quality

module _ (parse_echo : Text → Option EchoResponse) (blocked : Option (List Text)) (now : ℕ) where
  abbrev pub admit_built :
      Candidate → ScreenOptions → Option EchoFacts → Wires → Option Text → AdmissionResult
  admit_built c options known w (some message) =
      AdmissionResult.refused (codes "agent-build: " ++ message)
  admit_built c options known w none =
      after_screen now c options w (facts_or_screen parse_echo blocked options known w.echo)

  unfoldable pub admit_candidate :
      Candidate → ScreenOptions → Option EchoFacts → Wires → AdmissionResult
  unfolding coarse_screen gateway_verdict
  admit_candidate c options known w = admit_built c options known w w.agent_error

  abbrev pub previous_node : Candidate → Bool → Option Previous → ExitNode
  previous_node c pinned none =
      node_from now c pinned (record { exit_ip = []; exit_location = []; latency_ms = 0 })
  previous_node c pinned (some f) = record {
    id = c.address;
    protocol = c.protocol;
    source = c.source;
    pinned = pinned;
    exit_ip = f.exit_ip;
    exit_location = f.exit_location;
    latency_ms = f.latency_ms;
    quality = or_else f.quality (grade_of f.latency_ms);
    added_at = now;
  }

  abbrev pub trust : Candidate → Bool → Option Previous → AdmissionResult → AdmissionResult
  trust c pinned previous (AdmissionResult.admitted n limited) = AdmissionResult.admitted n limited
  trust c pinned previous (AdmissionResult.refused message) =
      AdmissionResult.admitted (previous_node c pinned previous) false

  unfoldable pub admit_trusted : Candidate → Bool → Option Previous → Wires → AdmissionResult
  unfolding admit_candidate
  admit_trusted c pinned previous w =
      trust c pinned previous
        (admit_candidate c (record { relaxed = false; pinned = pinned; timeout_ms = none }) none w)
