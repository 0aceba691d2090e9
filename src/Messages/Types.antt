-- ===== src/Messages/Types.antt =====
-- packages/plugin/src/adapter/messages.ts: the vocabulary of both sides.
use dsh_opencode.Base.{Bool, List, Text, Option}
use dsh_opencode.Base.Json.{Json, Fields}

pub record HarnessTool : Type 0 where
  pub name : Text
  pub description : Text
  pub parameters : Json

-- An image, and the further fields of a block, are not read.
mutual
  pub data HarnessBlock : Type 0 where
    text : Text → HarnessBlock
    reasoning : Text → HarnessBlock
    tool_call : Text → Text → Text → HarnessBlock
    image : HarnessBlock
    tool_result : Text → HarnessBlocks → Option Bool → HarnessBlock

  pub data HarnessBlocks : Type 0 where
    none_left : HarnessBlocks
    block : HarnessBlock → HarnessBlocks → HarnessBlocks

pub data Role : Type 0 where
  system user assistant : Role

pub record MessageSource : Type 0 where
  pub kind : Text
  pub provider : Option Text
  pub model : Option Text

pub record HarnessMessage : Type 0 where
  pub role : Role
  pub content : HarnessBlocks
  pub source : Option MessageSource

pub record HarnessGenerateOptions : Type 0 where
  pub provider : Text
  pub model : Text
  pub messages : List HarnessMessage
  pub system : Option Text
  pub tools : Option (List HarnessTool)
  pub reasoning_effort : Option Text

pub data PiAssistantBlock : Type 0 where
  text : Text → PiAssistantBlock
  thinking : Text → PiAssistantBlock
  tool_call : Text → Text → Fields → PiAssistantBlock

pub data ReplayReason : Type 0 where
  stop tool_use : ReplayReason

-- The usage of a replayed message is zero, its time 0 and its api openai-completions.
pub record PiAssistant : Type 0 where
  pub content : List PiAssistantBlock
  pub provider : Text
  pub model : Text
  pub stop_reason : ReplayReason

pub record PiToolResult : Type 0 where
  pub tool_call_id : Text
  pub tool_name : Text
  pub content : Text
  pub is_error : Bool

pub data PiMessage : Type 0 where
  user : Text → PiMessage
  assistant : PiAssistant → PiMessage
  tool_result : PiToolResult → PiMessage

pub record PiContext : Type 0 where
  pub system_prompt : Option Text
  pub messages : List PiMessage
  pub tools : Option (List HarnessTool)
