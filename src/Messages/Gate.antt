-- ===== src/Messages/Gate.antt =====
-- packages/plugin/src/adapter/messages.ts: the gate tools and `ensureFreeLaneShape`, `none` where
-- pi-ai keeps its payload.
use dsh_opencode.Base.{
  Bool, true, false, not, List, [], ◌∷◌, ◌++◌, map, Text, codes, Option, none, some, if◌then◌else◌,
  text_dec, same, exists, keep,
}
use dsh_opencode.Base.Json.{
  Json, obj, arr, str, Fields, end, field, items, of_items, get, set_field, member, member?,
  text_of,
}

abbrev pub free_lane_gate_tool_names : List Text
free_lane_gate_tool_names = codes "bash" ∷ codes "read" ∷ []

abbrev pub reserved : Text
reserved = codes "Reserved for the host runtime; do not call it."

abbrev pub empty_parameters : Json
empty_parameters =
    obj (field (codes "type") (str (codes "object")) (field (codes "properties") (obj end) end))

-- `freeLaneGateTool`
abbrev pub free_lane_gate_tool : Text → Json
free_lane_gate_tool name = obj (
    field (codes "type") (str (codes "function")) (
      field (codes "function")
        (obj (
          field (codes "name") (str name) (
            field (codes "description") (str reserved)
              (field (codes "parameters") empty_parameters end))))
        end))

-- `freeLaneGateToolResponses`
abbrev pub free_lane_gate_tool_responses : Text → Json
free_lane_gate_tool_responses name = obj (
    field (codes "type") (str (codes "function")) (
      field (codes "name") (str name) (
        field (codes "description") (str reserved)
          (field (codes "parameters") empty_parameters end))))

-- `Array.isArray(value) ? value : []`
abbrev pub tools_in : Option Json → List Json
tools_in (some (arr xs)) = items xs
tools_in _ = []

abbrev pub is_array : Option Json → Bool
is_array (some (arr xs)) = true
is_array _ = false

-- The name of a tool in each of the two bodies.
unfoldable pub chat_name : Json → Option Text
unfolding get text_dec
chat_name tool = text_of (member? (codes "name") (member (codes "function") tool))

unfoldable pub responses_name : Json → Option Text
unfolding get text_dec
responses_name tool = text_of (member (codes "name") tool)

abbrev pub is_named : Text → Option Text → Bool
is_named name none = false
is_named name (some s) = same s name

-- Whether the names of the tools include one.
unfoldable pub has_tool : (Json → Option Text) → List Json → Text → Bool
unfolding exists
has_tool name_of tools name = exists (λ t. is_named name (name_of t)) tools

unfoldable pub missing_tools : (Json → Option Text) → List Json → List Text
unfolding keep has_tool
missing_tools name_of tools =
    keep (λ name. not (has_tool name_of tools name)) free_lane_gate_tool_names

abbrev pub with_tools : List Json → List Json → Fields → Fields
with_tools tools added body = set_field (codes "tools") (arr (of_items (tools ++ added))) body

abbrev pub quiet_if : List Json → Fields → Fields
quiet_if [] body = set_field (codes "tool_choice") (str (codes "none")) body
quiet_if (t ∷ ts) body = body

abbrev pub shape_responses : List Json → List Text → Fields → Option Fields
shape_responses tools [] body = none
shape_responses tools (n ∷ ns) body =
    some (with_tools tools (map free_lane_gate_tool_responses (n ∷ ns)) body)

abbrev pub shape_chat : List Json → List Text → Fields → Option Fields
shape_chat tools [] body = none
shape_chat tools (n ∷ ns) body =
    some (quiet_if tools (with_tools tools (map free_lane_gate_tool (n ∷ ns)) body))

unfoldable pub shape_body : Fields → Option Fields
unfolding get set_field text_dec missing_tools chat_name responses_name
shape_body body =
    let tools = tools_in (get (codes "tools") body) in
    if is_array (get (codes "input") body)
    then shape_responses tools (missing_tools responses_name tools) body
    else if is_array (get (codes "messages") body)
    then shape_chat tools (missing_tools chat_name tools) body
    else none

-- `ensureFreeLaneShape`
unfoldable pub ensure_free_lane_shape : Json → Option Fields
unfolding shape_body
ensure_free_lane_shape (obj body) = shape_body body
ensure_free_lane_shape _ = none
