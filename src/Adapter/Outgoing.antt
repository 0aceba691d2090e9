-- ===== src/Adapter/Outgoing.antt =====
-- packages/plugin/src/adapter/zen-adapter.ts: the bodies that `onPayload` lets out.
use dsh_opencode.Base.{
  ◌≡◌, refl, ◌∙◌, ◌⊎◌, Bool, true, false, Text, codes, Option, none, some, arith, text_dec,
  Option-cases, inl, inr,
}
use mathlib.Core.Logic.{ite}
use dsh_opencode.Base.Json.{Json, obj, str, Fields, end, field, get, set_field, remove_field}
use dsh_opencode.Pool.Types.{or_else}
use dsh_opencode.Messages.Gate.{shape_body}
use dsh_opencode.Messages.Shape.{get-set_field, is_chat, passes, shape_body_lem}
use dsh_opencode.Adapter.Payload.{reasoning_field, with_reasoning, responses_payload, on_body}

get-remove_field :
    (k j : Text) (fs : Fields) → get j (remove_field k fs) ≡ ite (text_dec k j) none (get j fs)
unfolding get remove_field
get-remove_field k j end = ground arith
get-remove_field k j (field i w fs) = ground (arith, get-remove_field k j fs)

-- The two fields that the gate reads.
abbrev pub SameGate : Fields → Fields → Type 0
SameGate b c =
    (get (codes "input") b ≡ get (codes "input") c)
    × (get (codes "tools") b ≡ get (codes "tools") c)

SameGate-passes : (b c : Fields) → SameGate b c → passes c ≡ true → passes b ≡ true
SameGate-passes b c h p = rw (h.0, h.1) p

-- The body that leaves: pi-ai's own where `onPayload` returns nothing.
abbrev pub sent : Bool → Option Text → Fields → Fields
sent is_responses wire body = or_else (on_body is_responses wire body) body

or_else-passes :
    (body : Fields) → is_chat body ≡ true → passes (or_else (shape_body body) body) ≡ true
or_else-passes body chat = elim (Option-cases (shape_body body)) [
  | inl e ↦ rw (e) ((shape_body_lem body).1 e chat)
  | inr (next, e) ↦ rw (e) (((shape_body_lem body).0 next e).0)
]

stripped-SameGate : (b : Fields) → SameGate (remove_field reasoning_field b) b
unfolding text_dec
stripped-SameGate b = (
  get-remove_field reasoning_field (codes "input") b,
  get-remove_field reasoning_field (codes "tools") b,
)

set-SameGate : (v : Json) (b : Fields) → SameGate (set_field reasoning_field v b) b
unfolding text_dec
set-SameGate v b = (
  get-set_field reasoning_field (codes "input") v b,
  get-set_field reasoning_field (codes "tools") v b,
)

reasoning-SameGate : (wire : Option Text) (b : Fields) → SameGate (with_reasoning wire b) b
unfolding text_dec
reasoning-SameGate none b = (refl, refl)
reasoning-SameGate (some w) b =
    let value = obj (field (codes "effort") (str w) end) in
    (
      get-set_field (codes "reasoning") (codes "input") value b,
      get-set_field (codes "reasoning") (codes "tools") value b,
    )

reasoning-strips :
    (wire : Option Text) (b : Fields)
    → get reasoning_field (with_reasoning wire (remove_field reasoning_field b)) ≡ none
unfolding text_dec
reasoning-strips none b = get-remove_field reasoning_field reasoning_field b
reasoning-strips (some w) b =
    get-set_field (codes "reasoning") reasoning_field (obj (field (codes "effort") (str w) end))
      (remove_field reasoning_field b)
    ∙ get-remove_field reasoning_field reasoning_field b

-- The field that carries an effort, in each kind of body.
abbrev pub CarriesEffort : Bool → Option Text → Fields → Type 0
CarriesEffort is_responses none body = Unit
CarriesEffort true (some wire) body =
    get (codes "reasoning") body ≡ some (obj (field (codes "effort") (str wire) end))
CarriesEffort false (some wire) body = get reasoning_field body ≡ some (str wire)

reasoning-Carries :
    (wire : Option Text) (b : Fields) → CarriesEffort true wire (with_reasoning wire b)
unfolding text_dec
reasoning-Carries none b = tt
reasoning-Carries (some w) b =
    get-set_field (codes "reasoning") (codes "reasoning") (obj (field (codes "effort") (str w) end))
      b

abbrev pub IsResponses : Option Text → Fields → Fields → Type 0
IsResponses wire body next =
    (get reasoning_field next ≡ none)
    × (is_chat body ≡ true → passes next ≡ true)
    × CarriesEffort true wire next

rewritten-IsResponses :
    (wire : Option Text) (body : Fields)
    → IsResponses wire body
        (with_reasoning wire (remove_field reasoning_field (or_else (shape_body body) body)))
rewritten-IsResponses wire body =
    let base = or_else (shape_body body) body in
    let stripped = remove_field reasoning_field base in
    (
      reasoning-strips wire base,
      (λ chat.
          SameGate-passes (with_reasoning wire stripped) stripped (reasoning-SameGate wire stripped)
            (SameGate-passes stripped base (stripped-SameGate base) (or_else-passes body chat))),
      reasoning-Carries wire stripped,
    )

responses_payload_cases :
    (wire : Option Text) (shaped : Option Fields) (body : Fields)
    → ((wire ≡ none)
        × (shaped ≡ none)
        × (get reasoning_field body ≡ none)
        × (responses_payload wire shaped body ≡ none))
      ⊎ (responses_payload wire shaped body
          ≡ some (with_reasoning wire (remove_field reasoning_field (or_else shaped body))))
responses_payload_cases (some w) shaped body = inr (ground arith)
responses_payload_cases none (some s) body = inr refl
responses_payload_cases none none body = elim (Option-cases (get reasoning_field body)) [
  | inl e ↦ inl (refl, refl, e, rw (e) refl)
  | inr (v, e) ↦ inr (rw (e) refl)
]

-- A responses body leaves without a top-level `reasoning_effort`, with the effort in `reasoning`
-- where one was selected, and with both gate tools where it is a body that the gate knows.
pub on_body-IsResponses :
    (wire : Option Text) (body : Fields) → IsResponses wire body (sent true wire body)
unfolding on_body
on_body-IsResponses wire body = elim (responses_payload_cases wire (shape_body body) body) [
  | inl (w, s, g, e) ↦ rw (e, w) (g, (λ chat. (shape_body_lem body).1 s chat), tt)
  | inr e ↦ rw (e) (rewritten-IsResponses wire body)
]

-- A chat body leaves with both gate tools, and with the effort in `reasoning_effort` where one was
-- selected; where none was, only the gate tools are written.
pub on_body-chat :
    (wire : Option Text) (body : Fields)
    → (is_chat body ≡ true → passes (sent false wire body) ≡ true)
      × CarriesEffort false wire (sent false wire body)
      × (wire ≡ none → sent false wire body ≡ or_else (shape_body body) body)
unfolding on_body text_dec
on_body-chat none body = ((λ chat. or_else-passes body chat), tt, (λ e. refl))
on_body-chat (some w) body =
    let base = or_else (shape_body body) body in
    (
      (λ chat.
          SameGate-passes (set_field reasoning_field (str w) base) base (set-SameGate (str w) base)
            (or_else-passes body chat)),
      get-set_field reasoning_field reasoning_field (str w) base,
      (λ e. cc),
    )
