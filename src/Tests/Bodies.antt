-- ===== src/Tests/Bodies.antt =====
-- A chat body without tools, a conversation, and a turn of two attempts
-- (packages/plugin/test/messages.test.ts, packages/plugin/test/adapter-rotate.test.ts).
use dsh_opencode.Base.{
  ℕ, zero, suc, ◌≡◌, refl, true, false, List, [], ◌∷◌, Text, codes, Option, none, some,
}
use dsh_opencode.Base.Json.{Json, Fields, nil, cons, end, field}
use dsh_opencode.Pool.Types.{ExitPool}
use dsh_opencode.Messages.Types.{HarnessBlock, HarnessGenerateOptions, Role, none_left, block}
use dsh_opencode.Messages.Gate.{shape_body}
use dsh_opencode.Messages.Shape
use dsh_opencode.Messages.Shape.{IsShaped, is_chat, passes}
use dsh_opencode.Events.Types.{PiEvent}
use dsh_opencode.Events.Errors.{is_econn}
use dsh_opencode.Rotate.Failures.{classify_stream_failure, is_region_blocked}
use dsh_opencode.Pool.Selection.{is_usable}
use dsh_opencode.Adapter.Models.{PiModel, Api}
use dsh_opencode.Adapter.Attempts.{Pull, max_rotates}
use dsh_opencode.Adapter.Turns.{Served, attempts}
use dsh_opencode.Adapter.Replays
use dsh_opencode.Adapter.Replays.{IsTurn}
use dsh_opencode.Adapter.Outgoing
use dsh_opencode.Adapter.Outgoing.{IsResponses, CarriesEffort, sent}
use dsh_opencode.Pool.Types.{or_else}
use dsh_opencode.Tests.Exits.{two, program}

abbrev body : Fields
body =
    field (codes "messages") (Json.arr (cons (Json.str (codes "hi")) nil))
      (field (codes "reasoning_effort") (Json.str (codes "low")) end)

shape_body_lem_example :
    ((next : Fields) → shape_body body ≡ some next → IsShaped body next)
    × (shape_body body ≡ none → is_chat body ≡ true → passes body ≡ true)
shape_body_lem_example = Shape.shape_body_lem body

on_body-IsResponses_example :
    IsResponses (some (codes "high")) body (sent true (some (codes "high")) body)
on_body-IsResponses_example = Outgoing.on_body-IsResponses (some (codes "high")) body

on_body-chat_example :
    (is_chat body ≡ true → passes (sent false (some (codes "high")) body) ≡ true)
    × CarriesEffort false (some (codes "high")) (sent false (some (codes "high")) body)
    × (some (codes "high") ≡ none
        → sent false (some (codes "high")) body ≡ or_else (shape_body body) body)
on_body-chat_example = Outgoing.on_body-chat (some (codes "high")) body

abbrev unread : Text → Option Json
unread t = none

abbrev options : HarnessGenerateOptions
options = record {
  provider = codes "OpenCode";
  model = codes "mini";
  messages =
      record { role = Role.user; content = block HarnessBlock.image none_left; source = none }
      ∷ record {
        role = Role.assistant;
        content = block HarnessBlock.image none_left;
        source = none;
      }
      ∷ [];
  system = none;
  tools = none;
  reasoning_effort = none;
}

abbrev model : PiModel
model = record {
  id = codes "mini";
  api = Api.openai_completions;
  reasoning = false;
  context_window = 100;
  max_tokens = 10;
}

-- The first attempt is reset before any content, the second brings a text.
abbrev source : ℕ → List (Pull Text)
source zero = Pull.yields PiEvent.start ∷ Pull.throws (codes "econnreset") ∷ []
source (suc n) = Pull.yields PiEvent.start ∷ Pull.yields (PiEvent.text_start 0) ∷ []

abbrev clock : ℕ → ℕ
clock n = n

abbrev alone : ℕ → ExitPool → ExitPool
alone n p = p

attempts_lem_example :
    (r : Served Text) × ((attempts
          (some none)
          clock
          (codes "s")
          model
          source
          alone
          (suc max_rotates)
          0
          []
          two
        ≡ some r)
      × IsTurn (some none) clock (codes "s") model source 0 r)
attempts_lem_example = Replays.attempts_lem (some none) clock (codes "s") model source alone two

-- Every attempt is reset before any content, and the settings allow ten more: there are three.
abbrev resets : ℕ → List (Pull Text)
resets n = Pull.yields PiEvent.start ∷ Pull.throws (codes "econnreset") ∷ []

abbrev number_of : Option (Served Text) → Option ℕ
number_of none = none
number_of (some r) = some r.last_attempt

attempts-resets :
    number_of
      (attempts (some (some 10)) clock (codes "s") model resets alone (suc max_rotates) 0 [] two)
    ≡ some 3
unfolding attempts program classify_stream_failure is_econn is_region_blocked is_usable
attempts-resets = refl
