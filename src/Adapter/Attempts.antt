-- ===== src/Adapter/Attempts.antt =====
-- packages/plugin/src/adapter/zen-adapter.ts: `stream`, its peek and its pump, and the loop that
-- tries again through another exit. What one attempt brings is a list of pulls; between two
-- attempts the pool changes by the parameter `meanwhile`, which stands for all other requests.
use dsh_opencode.Base.{
  ℕ, suc, ◌+◌, Bool, true, false, List, [], ◌∷◌, ◌++◌, Text, codes, Option, none, some,
  if◌then◌else◌,
}
use dsh_opencode.Ids.{take}
use dsh_opencode.Base.Decimal.{decimal}
use dsh_opencode.Pool.Types.{or_else}
use dsh_opencode.Rotate.Failures.{RotateFailure, classify_stream_failure}
use dsh_opencode.Events.Types.{PiEvent, PiDoneMessage, StopReason}
use dsh_opencode.Adapter.Models.{provider_id, Api, PiModel}

-- What the race of the next event against the deadline brings; a list of pulls that is over is a
-- stream that ended.
pub data Pull (Json : Type 0) : Type 0 where
  yields : PiEvent Json → Pull Json
  throws : Text → Pull Json
  silent : Pull Json

abbrev pub watchdog_first_message : Text
watchdog_first_message =
    codes "OpenCode: first stream event timeout (exit silent before any response)"

abbrev pub watchdog_idle_message : Text
watchdog_idle_message = codes "OpenCode: stream body idle timeout (exit went silent mid-response)"

abbrev pub watchdog_message : Bool → Text
watchdog_message saw_any = if saw_any then watchdog_idle_message else watchdog_first_message

abbrev pub max_rotates : ℕ
max_rotates = 3

abbrev pub api_name : Api → Text
api_name Api.openai_completions = codes "openai-completions"
api_name Api.openai_responses = codes "openai-responses"

-- `terminalErrorEvent`
abbrev pub terminal_error : {Json : Type 0} → PiModel → Text → PiEvent Json
terminal_error model message = PiEvent.error (record {
  api = api_name model.api;
  provider = provider_id;
  model = model.id;
  response_model = none;
  response_id = none;
  content = [];
  usage = record { input = 0; output = 0; cache_read = 0; cache_write = 0; total_tokens = 0 };
  stop_reason = StopReason.error;
  error_message = some message;
})

abbrev pub is_error_stop : StopReason → Bool
is_error_stop StopReason.error = true
is_error_stop _ = false

abbrev pub failure_message : PiDoneMessage → Text
failure_message m = or_else m.error_message (codes "pi-ai stream error")

-- How the peek phase ends: with content and the rest still to come, with a stream that is over, or
-- with a failure before any content.
pub data Peeked (Json : Type 0) : Type 0 where
  live : List (PiEvent Json) → List (Pull Json) → Peeked Json
  over : List (PiEvent Json) → Peeked Json
  failed : Text → List (PiEvent Json) → Peeked Json

abbrev pub buffer : {Json : Type 0} → PiEvent Json → Peeked Json → Peeked Json
buffer e (Peeked.live es rest) = Peeked.live (e ∷ es) rest
buffer e (Peeked.over es) = Peeked.over (e ∷ es)
buffer e (Peeked.failed m es) = Peeked.failed m (e ∷ es)

module _ {Json : Type 0} (model : PiModel) where
  -- The peek phase.
  unfoldable pub peek : Bool → List (Pull Json) → Peeked Json
  peek saw_any [] = Peeked.over []
  peek saw_any (Pull.silent ∷ ps) =
      Peeked.failed (watchdog_message saw_any)
        (terminal_error model (watchdog_message saw_any) ∷ [])
  peek saw_any (Pull.throws m ∷ ps) = Peeked.failed m (terminal_error model m ∷ [])
  peek saw_any (Pull.yields (PiEvent.error m) ∷ ps) =
      Peeked.failed (failure_message m) (PiEvent.error m ∷ [])
  peek saw_any (Pull.yields (PiEvent.done m) ∷ ps) =
      if is_error_stop m.stop_reason
      then Peeked.failed (failure_message m) (PiEvent.done m ∷ [])
      else Peeked.over (PiEvent.done m ∷ [])
  peek saw_any (Pull.yields PiEvent.start ∷ ps) = buffer PiEvent.start (peek true ps)
  peek saw_any (Pull.yields e ∷ ps) = Peeked.live (e ∷ []) ps

  -- `pumpLive` after the buffered events.
  unfoldable pub pump_live : List (Pull Json) → List (PiEvent Json)
  pump_live [] = []
  pump_live (Pull.silent ∷ ps) = terminal_error model watchdog_idle_message ∷ []
  pump_live (Pull.throws m ∷ ps) = terminal_error model m ∷ []
  pump_live (Pull.yields (PiEvent.error m) ∷ ps) = PiEvent.error m ∷ []
  pump_live (Pull.yields (PiEvent.done m) ∷ ps) = PiEvent.done m ∷ []
  pump_live (Pull.yields e ∷ ps) = e ∷ pump_live ps

-- One entry of `rotateStory`.
abbrev pub failure_name : Option RotateFailure → Text
failure_name none = codes "unknown"
failure_name (some RotateFailure.transport) = codes "transport"
failure_name (some RotateFailure.limited) = codes "limited"
failure_name (some RotateFailure.refused) = codes "refused"

abbrev pub chapter : ℕ → Text → Text
chapter attempt message =
    codes "#"
    ++ decimal (attempt + 1)
    ++ codes " "
    ++ failure_name (classify_stream_failure message)
    ++ codes ": "
    ++ take 80 message

abbrev pub join_story : List Text → Text
join_story [] = []
join_story (s ∷ []) = s
join_story (s ∷ t ∷ ts) = s ++ codes " -> " ++ join_story (t ∷ ts)

abbrev pub count : List Text → ℕ
count [] = 0
count (s ∷ ts) = suc (count ts)

-- The message with the story of more than one attempt.
unfoldable pub told : List Text → Option Text → Option Text
told [] message = message
told (s ∷ []) message = message
told (s ∷ t ∷ ts) message = some (
    or_else message (codes "undefined")
    ++ codes " (OpenCode 轮换 "
    ++ decimal (count (t ∷ ts))
    ++ codes " 次后放弃: "
    ++ join_story (s ∷ t ∷ ts)
    ++ codes ")")

abbrev pub retold : List Text → PiDoneMessage → PiDoneMessage
retold story m = record m { error_message = told story m.error_message }

-- The rewriting of the first terminal error.
unfoldable pub tell_story : {Json : Type 0} → List Text → List (PiEvent Json) → List (PiEvent Json)
unfolding told
tell_story story [] = []
tell_story story (PiEvent.error m ∷ es) = PiEvent.error (retold story m) ∷ es
tell_story story (PiEvent.done m ∷ es) =
    let rest = tell_story story es in
    if is_error_stop m.stop_reason
    then PiEvent.done (retold story m) ∷ es
    else PiEvent.done m ∷ rest
tell_story story (e ∷ es) = e ∷ tell_story story es
