-- ===== src/Events/Ending.antt =====
-- packages/plugin/src/adapter/events.ts: how a chunk stream ends, and when its reason is `stop`.
use dsh_opencode.Base.{
  ℕ, ◌≤◌, ◌≡◌, ◌≢◌, refl, ap, Bool, true, false, List, [], ◌∷◌, ◌++◌, Text, Option, none, some,
  arith, All, ℕ_discrete, get_elem?,
}
use dsh_opencode.Base.Maps.{lookup, insert}
use dsh_opencode.Events.Types.{PiEvent, PiDoneMessage, HarnessChunk, FinishReason, StopReason}
use dsh_opencode.Events.Errors.{map_stop_reason, is_context_overflow}
use dsh_opencode.Events.Stream.{ToolId, tool_id_of, delta_of, emit, ending, to_stream_chunks}

-- A chunk that neither counts tokens nor ends the stream.
unfoldable pub is_content : HarnessChunk → Bool
is_content (HarnessChunk.usage u) = false
is_content (HarnessChunk.finish r) = false
is_content _ = true

-- The message of the first terminal event.
unfoldable pub first_message : {Json : Type 0} → List (PiEvent Json) → Option PiDoneMessage
first_message [] = none
first_message (PiEvent.done m ∷ es) = some m
first_message (PiEvent.error m ∷ es) = some m
first_message (_ ∷ es) = first_message es

-- A stream that ends with the two chunks of a message, or, without one, by an exception.
abbrev pub EndsWith : Option (List HarnessChunk) → List HarnessChunk × Bool → Type 0
EndsWith none (cs, returned) = (returned ≡ false) × All (λ c. is_content c ≡ true) cs
EndsWith (some last) (cs, returned) =
    (returned ≡ true)
    × ((body : List HarnessChunk) × ((cs ≡ body ++ last) × All (λ c. is_content c ≡ true) body))

emit-EndsWith :
    (c : HarnessChunk) (last : Option (List HarnessChunk)) (r : List HarnessChunk × Bool)
    → is_content c ≡ true
    → EndsWith last r
    → EndsWith last (emit c r)
emit-EndsWith c none r e h = (h.0, (e, h.1))
emit-EndsWith c (some last) r e (returned, (body, (split, all))) =
    (returned, (c ∷ body, (ap (λ cs. c ∷ cs) split, (e, all))))

delta_of-content : (i : ℕ) (d : Text) (t : Option ToolId) → is_content (delta_of i d t) ≡ true
unfolding is_content
delta_of-content i d none = refl
delta_of-content i d (some t) = refl

abbrev pub map_option {ℓ κ} : {A : Type ℓ} → {B : Type κ} → (A → B) → Option A → Option B
map_option f none = none
map_option f (some a) = some (f a)

module _ {Json : Type 0} (stringify : Json → Text) (context_window : ℕ) where
  -- A chunk stream is content, then the usage and the finish of the first terminal event, and no
  -- chunk after them. Without a terminal event all chunks are content and the stream throws.
  pub to_stream_chunks-EndsWith :
      (ids : List (ℕ × ToolId)) (es : List (PiEvent Json))
      → EndsWith
          (map_option (ending stringify context_window) (first_message es))
          (to_stream_chunks stringify context_window ids es)
  unfolding to_stream_chunks first_message is_content
  to_stream_chunks-EndsWith ids [] = (refl, tt)
  to_stream_chunks-EndsWith ids (PiEvent.done m ∷ es) = (refl, ([], (refl, tt)))
  to_stream_chunks-EndsWith ids (PiEvent.error m ∷ es) = (refl, ([], (refl, tt)))
  to_stream_chunks-EndsWith ids (PiEvent.start ∷ es) = to_stream_chunks-EndsWith ids es
  to_stream_chunks-EndsWith ids (PiEvent.toolcall_start i content ∷ es) =
      let more = insert ℕ_discrete i (tool_id_of (get_elem? content i)) ids in
      emit-EndsWith _ _ _ refl (to_stream_chunks-EndsWith more es)
  to_stream_chunks-EndsWith ids (PiEvent.toolcall_delta i d ∷ es) =
      emit-EndsWith _ _ _ (delta_of-content i d (lookup ℕ_discrete i ids))
        (to_stream_chunks-EndsWith ids es)
  to_stream_chunks-EndsWith ids (_ ∷ es) =
      emit-EndsWith _ _ _ refl (to_stream_chunks-EndsWith ids es)

-- The finish reason is `stop` only for a model that stopped by itself, with content, and with an
-- input that fits the window; and it is `stop` in each such case.
pub map_stop_reason-stop :
    (m : PiDoneMessage) (context_window : ℕ)
    → (map_stop_reason m context_window ≡ FinishReason.stop
        → (m.stop_reason ≡ StopReason.stop) × (m.content ≢ []) × (m.usage.input ≤ context_window))
      × (m.stop_reason ≡ StopReason.stop
          → m.content ≢ []
          → m.usage.input ≤ context_window
          → map_stop_reason m context_window ≡ FinishReason.stop)
unfolding map_stop_reason is_context_overflow
map_stop_reason-stop m context_window = ((λ e. ground arith), (λ s c i. ground arith))
