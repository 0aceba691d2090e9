-- ===== src/Events/Errors.antt =====
-- packages/plugin/src/adapter/events.ts: `classifyError`, `isContextOverflow`, `mapStopReason` and
-- `mapUsage`. A regular expression is a test at a position and a search over the positions.
use dsh_opencode.Base.{
  ℕ, Bool, true, false, not, ◌&&◌, ◌||◌, [], ◌∷◌, ◌++◌, map, Text, codes, Option, none, some, leb,
  ltb, ◌==◌, if◌then◌else◌, length, drop, same, starts_with,
}
use dsh_opencode.Pool.Types.{or_else}
use dsh_opencode.Sources.Lines.{is_digit, is_space, span}
use dsh_opencode.Dispatcher.Hosts.{lower}
use dsh_opencode.Events.Types.{PiDoneMessage, PiUsage, StopReason, FinishReason, ChunkUsage}

unfoldable pub is_word_char : ℕ → Bool
unfolding is_digit
is_word_char c =
    (leb b'a' c && leb c b'z') || (leb b'A' c && leb c b'Z') || is_digit c || (c == b'_')

-- `\b` after a word character.
abbrev pub word_ends : Text → Bool
word_ends [] = true
word_ends (c ∷ s) = not (is_word_char c)

-- Whether the test holds somewhere.
unfoldable pub search : (Text → Bool) → Text → Bool
search at [] = at []
search at (c ∷ s) = let rest = search at s in at (c ∷ s) || rest

-- The same, at the places where no word character stands before, which `\b` asks.
unfoldable pub search_word : (Text → Bool) → Bool → Text → Bool
unfolding is_word_char
search_word at in_word [] = false
search_word at in_word (c ∷ s) =
    let rest = search_word at (is_word_char c) s in (not in_word && at (c ∷ s)) || rest

unfoldable pub contains : Text → Text → Bool
unfolding search starts_with
contains w s = search (λ t. starts_with w t) s

-- A word with its end.
unfoldable pub is_word : Text → Text → Bool
unfolding starts_with is_word_char
is_word w s = starts_with w s && word_ends (drop (length w) s)

unfoldable pub has_word : Text → Text → Bool
unfolding search_word is_word
has_word w s = search_word (is_word w) false s

abbrev is_newline : ℕ → Bool
is_newline c = (c == 10) || (c == 13) || (c == 8232) || (c == 8233)

abbrev skip_one : Text → Text → Bool
skip_one second [] = false
skip_one second (c ∷ s) = not (is_newline c) && starts_with second s

-- Two words with at most one character between them: `first.?second`.
unfoldable pub is_joined : Text → Text → Text → Bool
unfolding starts_with
is_joined first second s =
    let rest = drop (length first) s in
    starts_with first s && (starts_with second rest || skip_one second rest)

-- `5\d\d\b`
unfoldable pub is_5xx : Text → Bool
unfolding is_digit is_word_char
is_5xx (a ∷ b ∷ c ∷ s) = (a == b'5') && is_digit b && is_digit c && word_ends s
is_5xx s = false

abbrev optional_d : Text → Text
optional_d [] = []
optional_d (c ∷ s) = if c == b'd' then s else c ∷ s

-- `time(?:d)?\s*out\b`
unfoldable pub is_timed_out : Text → Bool
unfolding starts_with span is_space is_word
is_timed_out s =
    let (spaces, rest) = span is_space (optional_d (drop 4 s)) in
    starts_with (codes "time") s && is_word (codes "out") rest

abbrev is_lower : ℕ → Bool
is_lower c = leb b'a' c && leb c b'z'

-- `ECONN[A-Z]+\b`, in lower case.
unfoldable pub is_econn : Text → Bool
unfolding starts_with span is_word_char
is_econn s =
    let (letters, rest) = span is_lower (drop 5 s) in
    starts_with (codes "econn") s && not (same letters []) && word_ends rest

abbrev pub is_network : Text → Bool
is_network s =
    is_word (codes "network") s
    || is_word (codes "connection") s
    || is_word (codes "socket") s
    || is_word (codes "fetch") s
    || is_econn s

unfoldable pub classify_error : Text → Text
unfolding has_word contains search search_word is_joined is_5xx is_timed_out is_word is_econn lower
classify_error raw =
    let text = map lower raw in
    if has_word (codes "401") raw || has_word (codes "403") raw
    then codes "AUTH"
    else if contains (codes "insufficient") text
        || contains (codes "quota") text
        || contains (codes "billing") text
    then codes "QUOTA_EXCEEDED"
    else if has_word (codes "429") text || search (is_joined (codes "rate") (codes "limit")) text
    then codes "RATE_LIMIT"
    else if has_word (codes "413") text
        || contains (codes "payload too large") text
        || contains (codes "request body too large") text
    then codes "INVALID_REQUEST"
    else if has_word (codes "400") text
        || search (is_joined (codes "invalid") (codes "request")) text
    then codes "INVALID_REQUEST"
    else if search_word is_5xx false raw
    then codes "SERVER"
    else if search_word is_timed_out false text || contains (codes "timeout") text
    then codes "TIMEOUT"
    else if search_word is_network false text
        || contains (codes "terminated") text
        || contains (codes "premature close") text
    then codes "TRANSPORT"
    else codes "UPSTREAM"

abbrev is_stop : StopReason → Bool
is_stop StopReason.stop = true
is_stop _ = false

abbrev is_error : StopReason → Bool
is_error StopReason.error = true
is_error _ = false

unfoldable pub is_context_overflow : PiDoneMessage → ℕ → Bool
is_context_overflow m context_window = is_stop m.stop_reason && ltb context_window m.usage.input

-- The two tests of the error text in `mapStopReason`.
unfoldable pub mentions_overflow : Option Text → Bool
unfolding contains lower
mentions_overflow none = false
mentions_overflow (some raw) =
    let text = map lower raw in
    contains (codes "context") text
    && (contains (codes "exceed") text
        || contains (codes "window") text
        || contains (codes "length") text
        || contains (codes "token") text)

abbrev quoted : Text → Text
quoted model = codes "\"" ++ (model ++ codes "\"")

abbrev pub by_reason : StopReason → PiDoneMessage → FinishReason
by_reason StopReason.stop m = elim m.content [
  | [] ↦ FinishReason.error (record {
    message =
        codes "model "
        ++ (quoted m.model ++ codes " returned a completed response with no content");
    code = codes "EMPTY_RESPONSE";
  })
  | b ∷ bs ↦ FinishReason.stop
]
by_reason StopReason.length m = FinishReason.max_tokens
by_reason StopReason.tool_use m = FinishReason.tool_calls
by_reason StopReason.aborted m = FinishReason.aborted (record {
  message = or_else m.error_message (codes "pi-ai stream aborted");
  code = codes "ABORTED";
})
by_reason StopReason.error m = FinishReason.error (record {
  message = or_else m.error_message (codes "pi-ai stream error");
  code = classify_error (or_else m.error_message []);
})

unfoldable pub map_stop_reason : PiDoneMessage → ℕ → FinishReason
unfolding is_context_overflow mentions_overflow classify_error
map_stop_reason m context_window =
    if is_context_overflow m context_window
      || (is_error m.stop_reason && mentions_overflow m.error_message)
    then FinishReason.error (record {
      message =
          or_else m.error_message
            (codes "pi-ai detected context overflow for model " ++ quoted m.model);
      code = codes "CONTEXT_WINDOW_EXCEEDED";
    })
    else by_reason m.stop_reason m

abbrev if_positive : ℕ → Option ℕ
if_positive n = if ltb 0 n then some n else none

unfoldable pub map_usage : PiUsage → ChunkUsage
map_usage u = record {
  input_tokens = u.input;
  output_tokens = u.output;
  cache_read_tokens = if_positive u.cache_read;
  cache_write_tokens = if_positive u.cache_write;
}
