-- ===== src/Adapter/Payload.antt =====
-- packages/plugin/src/adapter/zen-adapter.ts: `onPayload`, the last rewriting of a body; `none`
-- where pi-ai keeps its own.
use dsh_opencode.Base.{
  Bool, true, false, not, ◌&&◌, Text, codes, Option, none, some, if◌then◌else◌, text_dec,
}
use dsh_opencode.Base.Json.{Json, obj, str, Fields, end, field, get, set_field, remove_field}
use dsh_opencode.Pool.Types.{or_else}
use dsh_opencode.Messages.Gate.{shape_body}

abbrev pub is_some {ℓ} : {A : Type ℓ} → Option A → Bool
is_some none = false
is_some (some a) = true

abbrev pub reasoning_field : Text
reasoning_field = codes "reasoning_effort"

abbrev pub with_reasoning : Option Text → Fields → Fields
with_reasoning none body = body
with_reasoning (some wire) body =
    set_field (codes "reasoning") (obj (field (codes "effort") (str wire) end)) body

abbrev pub responses_payload : Option Text → Option Fields → Fields → Option Fields
responses_payload wire shaped body =
    if not (is_some shaped) && not (is_some wire) && not (is_some (get reasoning_field body))
    then none
    else some (with_reasoning wire (remove_field reasoning_field (or_else shaped body)))

abbrev pub chat_payload : Option Text → Option Fields → Fields → Option Fields
chat_payload none shaped body = shaped
chat_payload (some wire) shaped body =
    some (set_field reasoning_field (str wire) (or_else shaped body))

unfoldable pub on_body : Bool → Option Text → Fields → Option Fields
unfolding shape_body get set_field remove_field text_dec
on_body is_responses wire body =
    if is_responses
    then responses_payload wire (shape_body body) body
    else chat_payload wire (shape_body body) body

unfoldable pub on_payload : Bool → Option Text → Json → Option Fields
unfolding on_body
on_payload is_responses wire (obj body) = on_body is_responses wire body
on_payload is_responses wire _ = none
