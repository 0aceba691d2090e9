-- ===== src/Tests/Streams.antt =====
-- A short stream of events (packages/plugin/test/events.test.ts).
use dsh_opencode.Base.{List, [], ◌∷◌, Text, codes, none, some}
use dsh_opencode.Events.Types.{PiEvent, PiDoneMessage, StopReason}
use dsh_opencode.Events.Stream.{ending, to_stream_chunks}
use dsh_opencode.Events.Ending
use dsh_opencode.Events.Ending.{EndsWith}

abbrev message : PiDoneMessage
message = record {
  api = codes "a";
  provider = codes "p";
  model = codes "m";
  response_model = none;
  response_id = none;
  content = record { block_type = codes "text"; id = none; name = none } ∷ [];
  usage = record { input = 9; output = 3; cache_read = 0; cache_write = 0; total_tokens = 12 };
  stop_reason = StopReason.stop;
  error_message = none;
}

abbrev plain : Text → Text
plain t = t

abbrev stream : List (PiEvent Text)
stream =
    PiEvent.start
    ∷ PiEvent.text_start 0
    ∷ PiEvent.text_delta 0 (codes "hi")
    ∷ PiEvent.done message
    ∷ PiEvent.text_delta 0 (codes "late")
    ∷ []

to_stream_chunks-EndsWith_example :
    EndsWith (some (ending plain 100 message)) (to_stream_chunks plain 100 [] stream)
unfolding Ending.first_message
to_stream_chunks-EndsWith_example = Ending.to_stream_chunks-EndsWith plain 100 [] stream
