-- ===== src/Events/Stream.antt =====
-- packages/plugin/src/adapter/events.ts: `toStreamChunks`, over the events that the stream gives.
-- The result is the chunks and whether the generator returned; where it did not, it threw.
use dsh_opencode.Base.{
  ℕ, Bool, true, false, List, [], ◌∷◌, Text, codes, Option, none, some, ℕ_discrete, get_elem?, same,
  if◌then◌else◌,
}
use dsh_opencode.Base.Maps.{lookup, insert}
use dsh_opencode.Pool.Types.{or_else}
use dsh_opencode.Events.Types.{PiEvent, PiBlock, PiDoneMessage, HarnessChunk, BlockType, Block}
use dsh_opencode.Events.Errors.{map_stop_reason, map_usage}

pub record ToolId : Type 0 where
  pub id : Text
  pub name : Text

abbrev pub tool_id_of : Option PiBlock → ToolId
tool_id_of none = record { id = []; name = [] }
tool_id_of (some b) =
    if same b.block_type (codes "toolCall")
    then record { id = or_else b.id []; name = or_else b.name [] }
    else record { id = []; name = [] }

abbrev pub name_if_any : Text → Option Text
name_if_any [] = none
name_if_any (c ∷ s) = some (c ∷ s)

abbrev pub delta_of : ℕ → Text → Option ToolId → HarnessChunk
delta_of i delta none = HarnessChunk.tool_call_delta i [] none delta
delta_of i delta (some t) = HarnessChunk.tool_call_delta i t.id (name_if_any t.name) delta

abbrev pub emit : HarnessChunk → List HarnessChunk × Bool → List HarnessChunk × Bool
emit c (cs, returned) = (c ∷ cs, returned)

module _ {Json : Type 0} (stringify : Json → Text) (context_window : ℕ) where
  -- The two chunks of a terminal event.
  unfoldable pub ending : PiDoneMessage → List HarnessChunk
  unfolding map_usage map_stop_reason
  ending m =
      HarnessChunk.usage (map_usage m.usage)
      ∷ HarnessChunk.finish (map_stop_reason m context_window)
      ∷ []

  unfoldable pub to_stream_chunks :
      List (ℕ × ToolId) → List (PiEvent Json) → List HarnessChunk × Bool
  unfolding ending lookup insert
  to_stream_chunks ids [] = ([], false)
  to_stream_chunks ids (PiEvent.start ∷ es) = to_stream_chunks ids es
  to_stream_chunks ids (PiEvent.text_start i ∷ es) =
      emit (HarnessChunk.block_start i BlockType.text) (to_stream_chunks ids es)
  to_stream_chunks ids (PiEvent.text_delta i d ∷ es) =
      emit (HarnessChunk.text_delta i d) (to_stream_chunks ids es)
  to_stream_chunks ids (PiEvent.text_end i t ∷ es) =
      emit (HarnessChunk.block_end i (Block.text_block t)) (to_stream_chunks ids es)
  to_stream_chunks ids (PiEvent.thinking_start i ∷ es) =
      emit (HarnessChunk.block_start i BlockType.reasoning) (to_stream_chunks ids es)
  to_stream_chunks ids (PiEvent.thinking_delta i d ∷ es) =
      emit (HarnessChunk.reasoning_delta i d) (to_stream_chunks ids es)
  to_stream_chunks ids (PiEvent.thinking_end i t ∷ es) =
      emit (HarnessChunk.block_end i (Block.reasoning_block t)) (to_stream_chunks ids es)
  to_stream_chunks ids (PiEvent.toolcall_start i content ∷ es) =
      emit (HarnessChunk.block_start i BlockType.tool_call)
        (to_stream_chunks (insert ℕ_discrete i (tool_id_of (get_elem? content i)) ids) es)
  to_stream_chunks ids (PiEvent.toolcall_delta i d ∷ es) =
      emit (delta_of i d (lookup ℕ_discrete i ids)) (to_stream_chunks ids es)
  to_stream_chunks ids (PiEvent.toolcall_end i call ∷ es) =
      emit
        (HarnessChunk.block_end i
          (Block.tool_call_block call.id call.name (stringify call.arguments)))
        (to_stream_chunks ids es)
  to_stream_chunks ids (PiEvent.done m ∷ es) = (ending m, true)
  to_stream_chunks ids (PiEvent.error m ∷ es) = (ending m, true)
