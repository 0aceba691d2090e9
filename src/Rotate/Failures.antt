-- ===== src/Rotate/Failures.antt =====
-- packages/plugin/src/pool/rotate.ts: what an error text says of the exit.
use dsh_opencode.Base.{Bool, false, ◌||◌, map, Text, codes, Option, none, some, if◌then◌else◌}
use dsh_opencode.Dispatcher.Hosts.{lower}
use dsh_opencode.Events.Errors.{
  contains, has_word, search, search_word, is_joined, is_network, is_word, is_5xx,
}

pub data RotateFailure : Type 0 where
  transport limited refused : RotateFailure

-- `\b(?:network|...|premature close)\b|\beconn[a-z]+\b`, the words of `classifyError` and two more.
abbrev pub is_transport_word : Text → Bool
is_transport_word s =
    is_network s || is_word (codes "terminated") s || is_word (codes "premature close") s

-- `classifyStreamFailure`
unfoldable pub classify_stream_failure : Text → Option RotateFailure
unfolding lower contains has_word search search_word is_joined is_word is_5xx
classify_stream_failure message =
    let text = map lower message in
    if has_word (codes "429") text
      || search (is_joined (codes "rate") (codes "limit")) text
      || contains (codes "freeusagelimit") text
    then some RotateFailure.limited
    else if has_word (codes "401") text || has_word (codes "403") text
    then some RotateFailure.refused
    else if search_word is_transport_word false text
        || contains (codes "timeout") text
        || contains (codes "timed out") text
    then some RotateFailure.transport
    else if search_word is_5xx false text
        || contains (codes "internal server error") text
        || contains (codes "server error") text
    then some RotateFailure.transport
    else none

-- `isRegionBlocked`
unfoldable pub is_region_blocked : Text → Bool
unfolding lower contains
is_region_blocked message =
    let text = map lower message in
    contains (codes "regionerror") text || contains (codes "not available in your country") text
