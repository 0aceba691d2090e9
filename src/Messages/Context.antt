-- ===== src/Messages/Context.antt =====
-- packages/plugin/src/adapter/messages.ts: `toPiContext`; `none` where it throws. `JSON.parse` is
-- the parameter `parse`, `none` where it throws.
use dsh_opencode.Base.{
  Bool, true, false, List, [], ◌∷◌, ◌++◌, Text, codes, Option, none, some, if◌then◌else◌, text_dec,
  same,
}
use dsh_opencode.Base.Json.{Json, obj, str, Fields, end, field}
use dsh_opencode.Base.Maps.{lookup, insert}
use dsh_opencode.Pool.Types.{or_else}
use dsh_opencode.Messages.Types.{
  HarnessBlock, HarnessBlocks, none_left, block, HarnessMessage, HarnessGenerateOptions,
  HarnessTool, Role, MessageSource, PiAssistantBlock, PiAssistant, PiMessage, PiContext,
  ReplayReason,
}

-- `flattenText`
unfoldable pub flatten_text : HarnessBlocks → Text
flatten_text none_left = []
flatten_text (block (HarnessBlock.text t) bs) = t ++ flatten_text bs
flatten_text (block _ bs) = flatten_text bs

-- `toolResultText`
unfoldable mutual
  pub tool_result_text : HarnessBlocks → Text
  tool_result_text none_left = []
  tool_result_text (block b bs) = block_text b ++ tool_result_text bs

  pub block_text : HarnessBlock → Text
  block_text (HarnessBlock.text t) = t
  block_text (HarnessBlock.tool_result id content is_error) = tool_result_text content
  block_text _ = []

abbrev pub push_block :
    PiAssistantBlock → Option (List PiAssistantBlock) → Option (List PiAssistantBlock)
push_block b none = none
push_block b (some bs) = some (b ∷ bs)

abbrev pub is_call : PiAssistantBlock → Bool
is_call (PiAssistantBlock.tool_call id name arguments) = true
is_call _ = false

unfoldable pub any_call : List PiAssistantBlock → Bool
any_call [] = false
any_call (b ∷ bs) = let rest = any_call bs in if is_call b then true else rest

-- The field of the source of a message that a model wrote.
abbrev pub sourced : Option MessageSource → (MessageSource → Option Text) → Text → Text
sourced none f provider_id = provider_id
sourced (some s) f provider_id =
    if same s.kind (codes "model") then or_else (f s) provider_id else provider_id

-- The names of the tools that were called, by call id.
unfoldable pub remember_calls : List PiAssistantBlock → List (Text × Text) → List (Text × Text)
unfolding insert text_dec
remember_calls [] names = names
remember_calls (PiAssistantBlock.tool_call id name arguments ∷ bs) names =
    remember_calls bs (insert text_dec id name names)
remember_calls (_ ∷ bs) names = remember_calls bs names

abbrev pub or_no_output : Text → Text
or_no_output [] = codes "(no output)"
or_no_output (c ∷ s) = c ∷ s

-- The tool results of a user message, in their order.
unfoldable pub tool_results : List (Text × Text) → HarnessBlocks → List PiMessage
unfolding lookup text_dec tool_result_text
tool_results names none_left = []
tool_results names (block (HarnessBlock.tool_result id content is_error) bs) =
    PiMessage.tool_result (record {
      tool_call_id = id;
      tool_name = or_else (lookup text_dec id names) (codes "unknown");
      content = or_no_output (tool_result_text content);
      is_error = or_else is_error false;
    })
    ∷ tool_results names bs
tool_results names (block _ bs) = tool_results names bs

abbrev pub system_message : Text → List PiMessage
system_message [] = []
system_message (c ∷ s) = PiMessage.user (c ∷ s) ∷ []

-- A user message: its text, unless that is empty and there are results, and its results.
abbrev pub user_messages : Text → List PiMessage → List PiMessage
user_messages [] [] = PiMessage.user [] ∷ []
user_messages [] (r ∷ rs) = r ∷ rs
user_messages (c ∷ s) results = PiMessage.user (c ∷ s) ∷ results

abbrev pub prepend : List PiMessage → Option (List PiMessage) → Option (List PiMessage)
prepend ms none = none
prepend ms (some rest) = some (ms ++ rest)

abbrev pub non_empty_text : Option Text → Option Text
non_empty_text none = none
non_empty_text (some []) = none
non_empty_text (some (c ∷ s)) = some (c ∷ s)

abbrev pub non_empty_tools : Option (List HarnessTool) → Option (List HarnessTool)
non_empty_tools none = none
non_empty_tools (some []) = none
non_empty_tools (some (t ∷ ts)) = some (t ∷ ts)

module _ (parse : Text → Option Json) where
  -- `parseArguments`
  unfoldable pub parse_arguments : Text → Fields
  parse_arguments [] = end
  parse_arguments (c ∷ s) = elim (parse (c ∷ s)) [
    | none ↦ field (codes "raw") (str (c ∷ s)) end
    | some (obj fs) ↦ fs
    | some other ↦ field (codes "value") other end
  ]

  unfoldable pub assistant_blocks : HarnessBlocks → Option (List PiAssistantBlock)
  unfolding parse_arguments
  assistant_blocks none_left = some []
  assistant_blocks (block (HarnessBlock.text t) bs) =
      push_block (PiAssistantBlock.text t) (assistant_blocks bs)
  assistant_blocks (block (HarnessBlock.reasoning t) bs) =
      push_block (PiAssistantBlock.thinking t) (assistant_blocks bs)
  assistant_blocks (block (HarnessBlock.tool_call id name arguments) bs) =
      push_block (PiAssistantBlock.tool_call id name (parse_arguments arguments))
        (assistant_blocks bs)
  assistant_blocks (block HarnessBlock.image bs) = none
  assistant_blocks (block (HarnessBlock.tool_result id content is_error) bs) = assistant_blocks bs

  -- `toPiAssistant`, from the blocks.
  unfoldable pub to_pi_assistant : Text → Option MessageSource → List PiAssistantBlock → PiAssistant
  unfolding any_call
  to_pi_assistant provider_id source content = record {
    content = content;
    provider = sourced source (λ s. s.provider) provider_id;
    model = sourced source (λ s. s.model) provider_id;
    stop_reason = if any_call content then ReplayReason.tool_use else ReplayReason.stop;
  }

  -- The loop over the messages, with the names of the tools called so far.
  unfoldable pub to_pi_messages :
      Text → List (Text × Text) → List HarnessMessage → Option (List PiMessage)
  unfolding flatten_text assistant_blocks to_pi_assistant remember_calls tool_results
  to_pi_messages provider_id names [] = some []
  to_pi_messages provider_id names (m ∷ ms) = elim m.role [
    | Role.system ↦
        prepend (system_message (flatten_text m.content)) (to_pi_messages provider_id names ms)
    | Role.assistant ↦ elim (assistant_blocks m.content) [
      | none ↦ none
      | some content ↦
          prepend (PiMessage.assistant (to_pi_assistant provider_id m.source content) ∷ [])
            (to_pi_messages provider_id (remember_calls content names) ms)
    ]
    | Role.user ↦
        prepend (user_messages (flatten_text m.content) (tool_results names m.content))
          (to_pi_messages provider_id names ms)
  ]

  -- `toPiContext`
  unfoldable pub to_pi_context : HarnessGenerateOptions → Option PiContext
  unfolding to_pi_messages
  to_pi_context options = elim (to_pi_messages options.provider [] options.messages) [
    | none ↦ none
    | some messages ↦ some (record {
      system_prompt = non_empty_text options.system;
      messages = messages;
      tools = non_empty_tools options.tools;
    })
  ]
