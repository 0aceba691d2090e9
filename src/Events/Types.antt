-- ===== src/Events/Types.antt =====
-- packages/plugin/src/adapter/events.ts: the events, the chunks and the finish reasons. The
-- arguments of a tool call are the runtime's JSON values, the parameter `Json`.
use dsh_opencode.Base.{ℕ, List, Text, Option}

pub data BlockType : Type 0 where
  text reasoning tool_call : BlockType

pub record Failure : Type 0 where
  pub message : Text
  pub code : Text

pub data FinishReason : Type 0 where
  stop max_tokens tool_calls : FinishReason
  aborted error : Failure → FinishReason

pub data Block : Type 0 where
  text_block reasoning_block : Text → Block
  tool_call_block : Text → Text → Text → Block

pub record ChunkUsage : Type 0 where
  pub input_tokens : ℕ
  pub output_tokens : ℕ
  pub cache_read_tokens : Option ℕ
  pub cache_write_tokens : Option ℕ

pub data HarnessChunk : Type 0 where
  block_start : ℕ → BlockType → HarnessChunk
  text_delta : ℕ → Text → HarnessChunk
  block_end : ℕ → Block → HarnessChunk
  reasoning_delta : ℕ → Text → HarnessChunk
  tool_call_delta : ℕ → Text → Option Text → Text → HarnessChunk
  usage : ChunkUsage → HarnessChunk
  finish : FinishReason → HarnessChunk

-- A content block of a message, of which the translation reads type, id and name.
pub record PiBlock : Type 0 where
  pub block_type : Text
  pub id : Option Text
  pub name : Option Text

pub record PiUsage : Type 0 where
  pub input : ℕ
  pub output : ℕ
  pub cache_read : ℕ
  pub cache_write : ℕ
  pub total_tokens : ℕ

pub data StopReason : Type 0 where
  stop length tool_use error aborted : StopReason

pub record PiDoneMessage : Type 0 where
  pub api : Text
  pub provider : Text
  pub model : Text
  pub response_model : Option Text
  pub response_id : Option Text
  pub content : List PiBlock
  pub usage : PiUsage
  pub stop_reason : StopReason
  pub error_message : Option Text

pub record PiToolCall (Json : Type 0) : Type 0 where
  pub id : Text
  pub name : Text
  pub arguments : Json

-- The `partial` of an event is read by `toolcall_start` alone.
pub data PiEvent (Json : Type 0) : Type 0 where
  start : PiEvent Json
  text_start : ℕ → PiEvent Json
  text_delta text_end : ℕ → Text → PiEvent Json
  thinking_start : ℕ → PiEvent Json
  thinking_delta thinking_end : ℕ → Text → PiEvent Json
  toolcall_start : ℕ → List PiBlock → PiEvent Json
  toolcall_delta : ℕ → Text → PiEvent Json
  toolcall_end : ℕ → PiToolCall Json → PiEvent Json
  done error : PiDoneMessage → PiEvent Json
