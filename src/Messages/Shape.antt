-- ===== src/Messages/Shape.antt =====
-- packages/plugin/src/adapter/messages.ts: a shaped body passes the free lane's gate.
use dsh_opencode.Base.{
  ◌≡◌, refl, ap, ◌∙◌, Bool, true, false, ◌&&◌, ◌||◌, List, [], ◌∷◌, ◌++◌, map, Text, codes, Option,
  none, some, arith, if◌then◌else◌, text_dec, exists, keep, Bool-cases, inl, inr,
}
use mathlib.Core.Logic.{ite}
use dsh_opencode.Base.Json.{Json, arr, str, Fields, end, field, items, of_items, get, set_field}
use dsh_opencode.Messages.Gate.{
  free_lane_gate_tool, free_lane_gate_tool_responses, tools_in, is_array, chat_name, responses_name,
  has_tool, missing_tools, with_tools, quiet_if, shape_responses, shape_chat, shape_body,
}

pub get-set_field :
    (k j : Text) (v : Json) (fs : Fields)
    → get j (set_field k v fs) ≡ ite (text_dec k j) (some v) (get j fs)
unfolding get set_field
get-set_field k j v end = refl
get-set_field k j v (field i w fs) = ground (arith, get-set_field k j v fs)

items-of_items : (xs : List Json) → items (of_items xs) ≡ xs
items-of_items [] = refl
items-of_items (x ∷ xs) = ap (λ ys. x ∷ ys) (items-of_items xs)

has_tool-append :
    (name_of : Json → Option Text) (xs ys : List Json) (name : Text)
    → has_tool name_of (xs ++ ys) name ≡ (has_tool name_of xs name || has_tool name_of ys name)
unfolding has_tool exists
has_tool-append name_of [] ys name = refl
has_tool-append name_of (x ∷ xs) ys name = ground (arith, has_tool-append name_of xs ys name)

-- The tools of a body, and the test of its gate.
abbrev pub tools_of : Fields → List Json
tools_of body = tools_in (get (codes "tools") body)

abbrev pub name_in : Fields → Json → Option Text
name_in body = if is_array (get (codes "input") body) then responses_name else chat_name

abbrev pub passes : Fields → Bool
passes body =
    has_tool (name_in body) (tools_of body) (codes "bash")
    && has_tool (name_in body) (tools_of body) (codes "read")

abbrev pub is_chat : Fields → Bool
is_chat body = is_array (get (codes "input") body) || is_array (get (codes "messages") body)

-- The tools of the gate that are missing, in both kinds of body.
gate_complete :
    (name_of : Json → Option Text) (gate : Text → Json) (tools : List Json)
    → ((n : Text) → name_of (gate n) ≡ some n)
    → let all = tools ++ map gate (missing_tools name_of tools) in
      (has_tool name_of all (codes "bash") && has_tool name_of all (codes "read")) ≡ true
unfolding missing_tools keep has_tool exists
gate_complete name_of gate tools named = elim (Bool-cases (has_tool name_of tools (codes "bash"))) [
  | inl b ↦ elim (Bool-cases (has_tool name_of tools (codes "read"))) [
    | inl r ↦ ground (
      arith,
      b,
      r,
      has_tool-append name_of tools [] (codes "bash"),
      has_tool-append name_of tools [] (codes "read"),
    )
    | inr r ↦ ground (
      arith,
      b,
      r,
      has_tool-append name_of tools (map gate (codes "read" ∷ [])) (codes "bash"),
      has_tool-append name_of tools (map gate (codes "read" ∷ [])) (codes "read"),
      named (codes "read"),
    )
  ]
  | inr b ↦ elim (Bool-cases (has_tool name_of tools (codes "read"))) [
    | inl r ↦ ground (
      arith,
      b,
      r,
      has_tool-append name_of tools (map gate (codes "bash" ∷ [])) (codes "bash"),
      has_tool-append name_of tools (map gate (codes "bash" ∷ [])) (codes "read"),
      named (codes "bash"),
    )
    | inr r ↦ ground (
      arith,
      b,
      r,
      has_tool-append name_of tools (map gate (codes "bash" ∷ codes "read" ∷ [])) (codes "bash"),
      has_tool-append name_of tools (map gate (codes "bash" ∷ codes "read" ∷ [])) (codes "read"),
      named (codes "bash"),
      named (codes "read"),
    )
  ]
]

missing-nil :
    (name_of : Json → Option Text) (tools : List Json)
    → ((missing_tools name_of tools ≡ [])
        → (has_tool name_of tools (codes "bash") && has_tool name_of tools (codes "read")) ≡ true)
      × ((has_tool name_of tools (codes "bash") && has_tool name_of tools (codes "read")) ≡ true
          → missing_tools name_of tools ≡ [])
unfolding missing_tools keep
missing-nil name_of tools = ((λ e. ground arith), (λ e. ground arith))

-- The two fields that tell the kind of a body, and its tools, after the tools are written.
with_tools-fields :
    (tools added : List Json) (body : Fields)
    → let next = with_tools tools added body in
      (get (codes "input") next ≡ get (codes "input") body)
      × (get (codes "messages") next ≡ get (codes "messages") body)
      × (tools_of next ≡ tools ++ added)
unfolding text_dec
with_tools-fields tools added body =
    let value = arr (of_items (tools ++ added)) in
    (
      get-set_field (codes "tools") (codes "input") value body,
      get-set_field (codes "tools") (codes "messages") value body,
      ap tools_in (get-set_field (codes "tools") (codes "tools") value body)
          ∙ items-of_items (tools ++ added),
    )

quiet_if-fields :
    (tools : List Json) (body : Fields)
    → (get (codes "input") (quiet_if tools body) ≡ get (codes "input") body)
      × (get (codes "messages") (quiet_if tools body) ≡ get (codes "messages") body)
      × (tools_of (quiet_if tools body) ≡ tools_of body)
unfolding text_dec
quiet_if-fields (t ∷ ts) body = (refl, refl, refl)
quiet_if-fields [] body =
    let value = str (codes "none") in
    (
      get-set_field (codes "tool_choice") (codes "input") value body,
      get-set_field (codes "tool_choice") (codes "messages") value body,
      ap tools_in (get-set_field (codes "tool_choice") (codes "tools") value body),
    )

-- What is asked of a body that was rewritten.
abbrev pub IsShaped : Fields → Fields → Type 0
IsShaped body next =
    (passes next ≡ true)
    × (is_chat next ≡ true)
    × (shape_body next ≡ none)
    × ((added : List Json) × (tools_of next ≡ tools_of body ++ added))

responses_named : (n : Text) → responses_name (free_lane_gate_tool_responses n) ≡ some n
unfolding responses_name get text_dec
responses_named n = refl

chat_named : (n : Text) → chat_name (free_lane_gate_tool n) ≡ some n
unfolding chat_name get text_dec
chat_named n = refl

shape_responses-nil :
    (tools : List Json) (missing : List Text) (body : Fields)
    → missing ≡ []
    → shape_responses tools missing body ≡ none
shape_responses-nil tools [] body e = refl
shape_responses-nil tools (n ∷ ns) body e = cc

shape_chat-nil :
    (tools : List Json) (missing : List Text) (body : Fields)
    → missing ≡ []
    → shape_chat tools missing body ≡ none
shape_chat-nil tools [] body e = refl
shape_chat-nil tools (n ∷ ns) body e = cc

shape_body-passes : (body : Fields) → passes body ≡ true → shape_body body ≡ none
unfolding shape_body
shape_body-passes body ok = elim (Bool-cases (is_array (get (codes "input") body))) [
  | inl input ↦
      rw (input, shape_body)
        (shape_responses-nil (tools_of body) (missing_tools responses_name (tools_of body)) body
          ((missing-nil responses_name (tools_of body)).1 (ground (arith, input))))
  | inr other ↦ elim (Bool-cases (is_array (get (codes "messages") body))) [
    | inr none_of_both ↦ rw (other, none_of_both, shape_body) refl
    | inl messages ↦
        rw (other, messages, shape_body)
          (shape_chat-nil (tools_of body) (missing_tools chat_name (tools_of body)) body
            ((missing-nil chat_name (tools_of body)).1 (ground (arith, other))))
  ]
]

shape_responses-some :
    (tools : List Json) (missing : List Text) (body next : Fields)
    → shape_responses tools missing body ≡ some next
    → next ≡ with_tools tools (map free_lane_gate_tool_responses missing) body
shape_responses-some tools [] body next e = cc
shape_responses-some tools (n ∷ ns) body next e = cc

shape_chat-some :
    (tools : List Json) (missing : List Text) (body next : Fields)
    → shape_chat tools missing body ≡ some next
    → next ≡ quiet_if tools (with_tools tools (map free_lane_gate_tool missing) body)
shape_chat-some tools [] body next e = cc
shape_chat-some tools (n ∷ ns) body next e = cc

responses-IsShaped :
    (body next : Fields)
    → is_array (get (codes "input") body) ≡ true
    → next
      ≡ with_tools
          (tools_of body)
          (map free_lane_gate_tool_responses (missing_tools responses_name (tools_of body)))
          body
    → IsShaped body next
responses-IsShaped body next input e =
    let added = map free_lane_gate_tool_responses (missing_tools responses_name (tools_of body)) in
    let (same_input, same_messages, all) = with_tools-fields (tools_of body) added body in
    let complete =
      gate_complete responses_name free_lane_gate_tool_responses (tools_of body) responses_named in
    let passed : passes next ≡ true = ground (arith, e, input, same_input, all, complete) in
    (passed, ground (arith, e, input, same_input), shape_body-passes next passed, (added, rw e all))

chat-IsShaped :
    (body next : Fields)
    → is_array (get (codes "input") body) ≡ false
    → is_array (get (codes "messages") body) ≡ true
    → next
      ≡ quiet_if (tools_of body) (
          with_tools
            (tools_of body)
            (map free_lane_gate_tool (missing_tools chat_name (tools_of body)))
            body)
    → IsShaped body next
chat-IsShaped body next input messages e =
    let added = map free_lane_gate_tool (missing_tools chat_name (tools_of body)) in
    let (same_input, same_messages, all) = with_tools-fields (tools_of body) added body in
    let (quiet_input, quiet_messages, quiet_all) =
      quiet_if-fields (tools_of body) (with_tools (tools_of body) added body) in
    let complete = gate_complete chat_name free_lane_gate_tool (tools_of body) chat_named in
    let input' : get (codes "input") next ≡ get (codes "input") body =
      rw e (quiet_input ∙ same_input) in
    let messages' : get (codes "messages") next ≡ get (codes "messages") body =
      rw e (quiet_messages ∙ same_messages) in
    let all' : tools_of next ≡ tools_of body ++ added = rw e (quiet_all ∙ all) in
    let passed : passes next ≡ true = ground (arith, input, input', all', complete) in
    (passed, ground (arith, messages, messages'), shape_body-passes next passed, (added, all'))

shape_responses-none :
    (tools : List Json) (missing : List Text) (body : Fields)
    → shape_responses tools missing body ≡ none
    → missing ≡ []
shape_responses-none tools [] body e = refl
shape_responses-none tools (n ∷ ns) body e = cc

shape_chat-none :
    (tools : List Json) (missing : List Text) (body : Fields)
    → shape_chat tools missing body ≡ none
    → missing ≡ []
shape_chat-none tools [] body e = refl
shape_chat-none tools (n ∷ ns) body e = cc

-- A body that is rewritten carries both gate tools, keeps its own tools in front, and is left alone
-- when it comes again. A chat or responses body that is not rewritten carries both tools already.
pub shape_body_lem :
    (body : Fields)
    → ((next : Fields) → shape_body body ≡ some next → IsShaped body next)
      × (shape_body body ≡ none → is_chat body ≡ true → passes body ≡ true)
unfolding shape_body
shape_body_lem body = elim (Bool-cases (is_array (get (codes "input") body))) [
  | inl input ↦
      let missing = missing_tools responses_name (tools_of body) in
      (
        λ next e.
            responses-IsShaped body next input
              (shape_responses-some (tools_of body) missing body next (ground (arith, input))),
        λ e chat.
            let full = shape_responses-none (tools_of body) missing body (ground (arith, input)) in
            ground (arith, input, (missing-nil responses_name (tools_of body)).0 full),
      )
  | inr other ↦ elim (Bool-cases (is_array (get (codes "messages") body))) [
    | inr neither ↦
        ((λ next e. ground (arith, other, neither)), (λ e chat. ground (arith, other, neither)))
    | inl messages ↦
        let missing = missing_tools chat_name (tools_of body) in
        (
          λ next e.
              chat-IsShaped body next other messages (
                shape_chat-some (tools_of body) missing body next
                  (ground (arith, other, messages))),
          λ e chat.
              let full =
                shape_chat-none (tools_of body) missing body (ground (arith, other, messages)) in
              ground (arith, other, (missing-nil chat_name (tools_of body)).0 full),
        )
  ]
]
