-- ===== src/Messages/Replay.antt =====
-- packages/plugin/src/adapter/messages.ts: which conversations can be replayed.
use dsh_opencode.Base.{
  ◌≡◌, refl, Bool, true, false, List, [], ◌∷◌, Text, Option, none, some, arith, exists,
  Option-cases, inl, inr,
}
use dsh_opencode.Base.Json.{Json}
use dsh_opencode.Messages.Types.{
  HarnessBlock, HarnessBlocks, none_left, block, HarnessMessage, HarnessGenerateOptions, Role,
}
use dsh_opencode.Messages.Context.{assistant_blocks, to_pi_messages, to_pi_context, remember_calls}

abbrev pub has_image : HarnessBlocks → Bool
has_image none_left = false
has_image (block HarnessBlock.image bs) = true
has_image (block _ bs) = has_image bs

abbrev pub is_unplayable : HarnessMessage → Bool
is_unplayable m = elim m.role [ Role.assistant ↦ has_image m.content | _ ↦ false ]

abbrev pub is_none : {A : Type 0} → Option A → Bool
is_none none = true
is_none (some a) = false

module _ (parse : Text → Option Json) where
  assistant_blocks-none : (bs : HarnessBlocks) → is_none (assistant_blocks parse bs) ≡ has_image bs
  unfolding assistant_blocks
  assistant_blocks-none none_left = refl
  assistant_blocks-none (block (HarnessBlock.text t) bs) = ground (arith, assistant_blocks-none bs)
  assistant_blocks-none (block (HarnessBlock.reasoning t) bs) =
      ground (arith, assistant_blocks-none bs)
  assistant_blocks-none (block (HarnessBlock.tool_call id name a) bs) =
      ground (arith, assistant_blocks-none bs)
  assistant_blocks-none (block HarnessBlock.image bs) = refl
  assistant_blocks-none (block (HarnessBlock.tool_result id content e) bs) =
      assistant_blocks-none bs

  to_pi_messages-none :
      (provider : Text) (names : List (Text × Text)) (ms : List HarnessMessage)
      → is_none (to_pi_messages parse provider names ms) ≡ exists is_unplayable ms
  unfolding to_pi_messages exists
  to_pi_messages-none provider names [] = refl
  to_pi_messages-none provider names (m ∷ ms) =
      elim (Option-cases (assistant_blocks parse m.content)) [
        | inl throws ↦
            ground (
              arith,
              throws,
              assistant_blocks-none m.content,
              to_pi_messages-none provider names ms,
            )
        | inr (content, plays) ↦ ground (
          arith,
          plays,
          assistant_blocks-none m.content,
          to_pi_messages-none provider names ms,
          to_pi_messages-none provider (remember_calls content names) ms,
        )
      ]

  -- A conversation is refused exactly when an assistant message of it holds an image; every other
  -- one is converted.
  pub to_pi_context-none :
      (options : HarnessGenerateOptions)
      → is_none (to_pi_context parse options) ≡ exists is_unplayable options.messages
  unfolding to_pi_context
  to_pi_context-none options =
      elim (Option-cases (to_pi_messages parse options.provider [] options.messages)) [
        | inl e ↦ ground (arith, e, to_pi_messages-none options.provider [] options.messages)
        | inr (ms, e) ↦ ground (arith, e, to_pi_messages-none options.provider [] options.messages)
      ]
