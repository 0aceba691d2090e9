-- ===== src/Admission/Verdicts.antt =====
-- packages/plugin/src/pool/admission.ts: which candidates pass, and as what.
use dsh_opencode.Base.{
  ℕ, ◌≤◌, ◌≡◌, ◌≢◌, refl, sym, ◌∙◌, ◌⊎◌, inl, inr, Bool, true, false, List, [], ◌∷◌, Text, codes,
  Option, none, some, arith, ◌==◌, Bool-cases, Option-cases,
}
use dsh_opencode.Pool.Types.{ExitNode, or_else}
use dsh_opencode.Catalog.Prices.{member_of}
use dsh_opencode.Admission.Screen.{
  Reply, Wire, Awaited, with_timeout, EchoResponse, EchoFacts, Screened, ScreenOptions,
  default_timeout_ms, max_response_ms, country_of, facts_of, reports, screen_echo, screen_reply,
  coarse_screen,
}
use dsh_opencode.Admission.Admit.{
  Candidate, Wires, AdmissionResult, node_from, smoke_verdict, models_verdict, gateway_verdict,
  facts_or_screen, after_screen, admit_candidate, Previous, previous_node, admit_trusted,
}

-- An answer in time with one of two statuses.
abbrev pub Answers : ℕ → Wire → ℕ → Reply → Type 0
Answers timeout wire took reply = (wire ≡ Wire.answers took reply) × (took ≤ timeout)

with_timeout-got :
    (ms : ℕ) (label : Text) (wire : Wire) (took : ℕ) (reply : Reply)
    → (with_timeout ms label wire ≡ Awaited.got took reply → Answers ms wire took reply)
      × (Answers ms wire took reply → with_timeout ms label wire ≡ Awaited.got took reply)
unfolding with_timeout
with_timeout-got ms label (Wire.answers t r) took reply =
    ((λ e. ground arith), (λ h. ground (arith, h.0, h.1)))
with_timeout-got ms label (Wire.fails t m) took reply =
    ((λ e. ground arith), (λ h. ground (arith, h.0)))

-- What the screen asks of an echo that was read.
abbrev pub PassesEcho : List Text → ScreenOptions → ℕ → EchoResponse → Type 0
PassesEcho blocked options took e =
    (reports e ≡ true)
    × (member_of blocked (country_of e) ≡ false)
    × ((took ≤ max_response_ms options.relaxed) ⊎ (options.pinned ≡ true))

screen_echo-facts :
    (blocked : List Text) (options : ScreenOptions) (took : ℕ) (e : EchoResponse) (f : EchoFacts)
    → (screen_echo blocked options took e ≡ Screened.facts f
        → PassesEcho blocked options took e × (f ≡ facts_of took e))
      × (PassesEcho blocked options took e × (f ≡ facts_of took e)
          → screen_echo blocked options took e ≡ Screened.facts f)
unfolding screen_echo
screen_echo-facts blocked options took e f = (
  (λ h. ground arith),
  (λ h. elim h.0.2 [ inl l ↦ ground (arith, h) | inr l ↦ ground (arith, h) ]),
)

-- A candidate that the screen accepts: one echo within the timeout, with status 200 and a body
-- that passes.
abbrev pub PassesScreen :
    (Text → Option EchoResponse) → List Text → ScreenOptions → Wire → EchoFacts → Type 0
PassesScreen parse_echo blocked options wire f =
    (took : ℕ) × ((reply : Reply) × ((e : EchoResponse) × (Answers
            (or_else options.timeout_ms default_timeout_ms) wire took reply
          × (reply.status ≡ 200)
          × (parse_echo reply.body ≡ some e)
          × (PassesEcho blocked options took e × (f ≡ facts_of took e)))))

screen_reply-facts :
    (parse_echo : Text → Option EchoResponse) (blocked : List Text) (options : ScreenOptions)
    (wire : Wire) (a : Awaited) (f : EchoFacts)
    → with_timeout (or_else options.timeout_ms default_timeout_ms) (codes "probe") wire ≡ a
    → screen_reply parse_echo blocked options a ≡ Screened.facts f
    → PassesScreen parse_echo blocked options wire f
screen_reply-facts parse_echo blocked options wire (Awaited.thrown m) f w h = cc
screen_reply-facts parse_echo blocked options wire (Awaited.got took reply) f w h =
    let ms = or_else options.timeout_ms default_timeout_ms in
    elim (Bool-cases (reply.status == 200)) [
      | inr bad ↦ ground (arith, bad, h)
      | inl good ↦ elim (Option-cases (parse_echo reply.body)) [
        | inl unread ↦ ground (arith, good, unread, h)
        | inr (e, read) ↦ (
          took,
          (
            reply,
            (
              e,
              (
                (with_timeout-got ms (codes "probe") wire took reply).0 w,
                ground arith,
                read,
                (screen_echo-facts blocked options took e f).0 (ground (arith, good, read, h)),
              ),
            ),
          ),
        )
      ]
    ]

-- The screen accepts a candidate exactly when the echo answers in time, with status 200 and a
-- readable report of an exit IP, from a country that is not blocked (China where no list is
-- given), and within the latency limit or for a pinned node; the facts are those of the echo.
pub coarse_screen-facts :
    (parse_echo : Text → Option EchoResponse) (blocked : Option (List Text))
    (options : ScreenOptions) (wire : Wire) (f : EchoFacts)
    → let passes = PassesScreen parse_echo (or_else blocked (codes "CN" ∷ [])) options wire f in
      (coarse_screen parse_echo blocked options none wire ≡ Screened.facts f → passes)
      × (passes → coarse_screen parse_echo blocked options none wire ≡ Screened.facts f)
unfolding coarse_screen
coarse_screen-facts parse_echo blocked options wire f =
    let countries = or_else blocked (codes "CN" ∷ []) in
    let ms = or_else options.timeout_ms default_timeout_ms in
    (
      (λ h.
          screen_reply-facts parse_echo countries options wire
            (with_timeout ms (codes "probe") wire) f refl h),
      (λ (took, (reply, (e, (answered, good, read, passed)))).
          rw ((with_timeout-got ms (codes "probe") wire took reply).1 answered, good, read)
            ((screen_echo-facts countries options took e f).1 passed)),
    )

-- An answer to the smoke request that admits, limited or not.
abbrev pub PassesSmoke : ℕ → Wire → Bool → Type 0
PassesSmoke ms wire limited =
    (took : ℕ) × ((reply : Reply) × (Answers ms wire took reply
        × (((reply.status ≡ 200) × (limited ≡ false)) ⊎ ((reply.status ≡ 429) × (limited ≡ true)))))

abbrev pub PassesModels : ℕ → Wire → Type 0
PassesModels ms wire =
    (took : ℕ) × ((reply : Reply) × (Answers ms wire took reply × (reply.status ≡ 200)))

smoke_verdict-admitted :
    (ms : ℕ) (wire : Wire) (a : Awaited) (n node : ExitNode) (limited : Bool)
    → with_timeout ms (codes "smoke") wire ≡ a
    → smoke_verdict n a ≡ AdmissionResult.admitted node limited
    → PassesSmoke ms wire limited × (node ≡ n)
smoke_verdict-admitted ms wire (Awaited.thrown m) n node limited w h = cc
smoke_verdict-admitted ms wire (Awaited.got took reply) n node limited w h =
    let answered = (with_timeout-got ms (codes "smoke") wire took reply).0 w in
    elim (Bool-cases (reply.status == 200)) [
      | inl good ↦ (
        (took, (reply, (answered, inl (ground arith, ground (arith, good, h))))),
        ground (arith, good, h),
      )
      | inr bad ↦ elim (Bool-cases (reply.status == 429)) [
        | inl full ↦ (
          (took, (reply, (answered, inr (ground arith, ground (arith, bad, full, h))))),
          ground (arith, bad, full, h),
        )
        | inr other ↦ ground (arith, bad, other, h)
      ]
    ]

models_verdict-admitted :
    (ms : ℕ) (wire : Wire) (a : Awaited) (next : AdmissionResult) (node : ExitNode) (limited : Bool)
    → with_timeout ms (codes "probe") wire ≡ a
    → models_verdict a next ≡ AdmissionResult.admitted node limited
    → PassesModels ms wire × (next ≡ AdmissionResult.admitted node limited)
models_verdict-admitted ms wire (Awaited.thrown m) next node limited w h = cc
models_verdict-admitted ms wire (Awaited.got took reply) next node limited w h =
    elim (Bool-cases (reply.status == 200)) [
      | inl good ↦ (
        (took, (reply, ((with_timeout-got ms (codes "probe") wire took reply).0 w, ground arith))),
        ground (arith, good, h),
      )
      | inr bad ↦ ground (arith, bad, h)
    ]

gateway_verdict-admitted :
    (ms : ℕ) (w : Wires) (n node : ExitNode) (limited : Bool)
    → let passes = PassesModels ms w.models × PassesSmoke ms w.smoke limited × (node ≡ n) in
      (gateway_verdict ms w n ≡ AdmissionResult.admitted node limited → passes)
      × (passes → gateway_verdict ms w n ≡ AdmissionResult.admitted node limited)
unfolding gateway_verdict
gateway_verdict-admitted ms w n node limited =
    let models = with_timeout ms (codes "probe") w.models in
    let smoke = with_timeout ms (codes "smoke") w.smoke in
    (
      (λ h.
          let (m, rest) =
            models_verdict-admitted ms w.models models (smoke_verdict n smoke) node limited refl
              h in
          let (s, e) = smoke_verdict-admitted ms w.smoke smoke n node limited refl rest in
          (m, s, e)),
      (λ ((took, (reply, (answered, good))), (took', (reply', (answered', verdict))), e).
          rw
            (
              (with_timeout-got ms (codes "probe") w.models took reply).1 answered,
              good,
              (with_timeout-got ms (codes "smoke") w.smoke took' reply').1 answered',
            )
            (elim verdict [ inl v ↦ rw (v.0, v.1, e) refl | inr v ↦ rw (v.0, v.1, e) refl ])),
    )

after_screen-facts :
    (now : ℕ) (c : Candidate) (options : ScreenOptions) (w : Wires) (s : Screened) (node : ExitNode)
    (limited : Bool)
    → after_screen now c options w s ≡ AdmissionResult.admitted node limited
    → (f : EchoFacts) × ((s ≡ Screened.facts f)
        × (gateway_verdict
              (or_else options.timeout_ms default_timeout_ms)
              w
              (node_from now c options.pinned f)
            ≡ AdmissionResult.admitted node limited))
after_screen-facts now c options w (Screened.rejected m) node limited h = cc
after_screen-facts now c options w (Screened.facts f) node limited h = (f, (refl, h))

pub result_cases :
    (r : AdmissionResult)
    → ((node : ExitNode) × ((limited : Bool) × (r ≡ AdmissionResult.admitted node limited)))
      ⊎ ((m : Text) × (r ≡ AdmissionResult.refused m))
result_cases (AdmissionResult.admitted node limited) = inl (node, (limited, refl))
result_cases (AdmissionResult.refused m) = inr (m, refl)

differ :
    (m : Text) (node : ExitNode) (limited : Bool)
    → AdmissionResult.refused m ≢ AdmissionResult.admitted node limited
differ m node limited e = cc

module _ (parse_echo : Text → Option EchoResponse) (blocked : Option (List Text)) (now : ℕ) where
  -- What an admission takes.
  abbrev pub PassesGate :
      Candidate → ScreenOptions → Option EchoFacts → Wires → ExitNode → Bool → Type 0
  PassesGate c options known w node limited =
      let ms = or_else options.timeout_ms default_timeout_ms in
      (w.agent_error ≡ none)
      × ((f : EchoFacts) × ((facts_or_screen parse_echo blocked options known w.echo
              ≡ Screened.facts f)
            × (PassesModels ms w.models
                × PassesSmoke ms w.smoke limited
                × (node ≡ node_from now c options.pinned f))))

  -- A candidate is admitted exactly when its agent is built, its facts are known or the screen
  -- accepts it, the models list answers 200 in time, and the smoke request answers 200 or 429 in
  -- time; 429 alone marks it as limited. The node carries the candidate's address, protocol and
  -- source, and the facts with their grade.
  pub admit_candidate-admitted :
      (c : Candidate) (options : ScreenOptions) (known : Option EchoFacts) (w : Wires)
      (node : ExitNode) (limited : Bool)
      → let result = admit_candidate parse_echo blocked now c options known w in
        (result ≡ AdmissionResult.admitted node limited → PassesGate c options known w node limited)
        × (PassesGate c options known w node limited
            → result ≡ AdmissionResult.admitted node limited)
  unfolding admit_candidate
  admit_candidate-admitted c options known w node limited =
      let ms = or_else options.timeout_ms default_timeout_ms in
      let screened = facts_or_screen parse_echo blocked options known w.echo in
      (
        (λ h. elim (Option-cases w.agent_error) [
          | inr (m, e) ↦ ground (arith, e, h)
          | inl e ↦
              let (f, (screen, gate)) =
                after_screen-facts now c options w screened node limited (ground (arith, e, h)) in
              let passed =
                (gateway_verdict-admitted ms w (node_from now c options.pinned f) node limited).0
                  gate in
              (e, (f, (screen, passed)))
        ]),
        (λ (e, (f, (screen, passed))).
            rw (e, screen)
              ((gateway_verdict-admitted ms w (node_from now c options.pinned f) node limited).1
                passed)),
      )

  -- A trusted candidate is admitted whatever its requests bring: as the gate admits it where it
  -- passes, and otherwise with the facts of the previous probe and not as limited.
  pub admit_trusted_lem :
      (c : Candidate) (pinned : Bool) (previous : Option Previous) (w : Wires)
      → let options : ScreenOptions = record {
        relaxed = false;
        pinned = pinned;
        timeout_ms = none;
      } in
        let result = admit_trusted parse_echo blocked now c pinned previous w in
        ((node : ExitNode) × ((limited : Bool) × ((result ≡ AdmissionResult.admitted node limited)
              × PassesGate c options none w node limited)))
        ⊎ ((result
              ≡ AdmissionResult.admitted
                  (previous_node parse_echo blocked now c pinned previous)
                  false)
            × ((node : ExitNode) (limited : Bool) → ¬ PassesGate c options none w node limited))
  unfolding admit_trusted
  admit_trusted_lem c pinned previous w =
      let options : ScreenOptions = record {
        relaxed = false;
        pinned = pinned;
        timeout_ms = none;
      } in
      elim (result_cases (admit_candidate parse_echo blocked now c options none w)) [
        | inl (node, (limited, e)) ↦ inl (
          node,
          (limited, (rw (e) refl, (admit_candidate-admitted c options none w node limited).0 e)),
        )
        | inr (m, e) ↦ inr (
          rw (e) refl,
          λ node limited passes.
              differ m node limited
                (sym e ∙ (admit_candidate-admitted c options none w node limited).1 passes),
        )
      ]
