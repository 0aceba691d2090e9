-- ===== src/Adapter/Turns.antt =====
-- packages/plugin/src/adapter/zen-adapter.ts: `stream`. `source` is what the attempts bring, by
-- number, `clock` the time when each fails, and `meanwhile` what the pool has become by then.
use dsh_opencode.Base.{
  ℕ, zero, suc, ◌+◌, Bool, false, List, [], ◌∷◌, ◌++◌, Text, codes, Option, none, some,
  if◌then◌else◌, ltb,
}
use dsh_opencode.Pool.Types.{ExitPool}
use dsh_opencode.Catalog.Prices.{known_unavailable_models, member_of}
use dsh_opencode.Rotate.{should_rotate}
use dsh_opencode.Rotate.Failures.{classify_stream_failure, is_region_blocked}
use dsh_opencode.Events.Types.{PiEvent, HarnessChunk}
use dsh_opencode.Events.Stream.{to_stream_chunks}
use dsh_opencode.Adapter.Models.{default_context_window, PiModel, to_pi_model}
use dsh_opencode.Adapter.Attempts.{
  Pull, Peeked, max_rotates, terminal_error, peek, pump_live, chapter, tell_story,
}

-- What an attempt leads to: the events of the turn, or another attempt.
pub data Next (Json : Type 0) : Type 0 where
  serve : List (PiEvent Json) → ExitPool → Next Json
  again : List Text → ExitPool → Next Json

pub record Served (Json : Type 0) : Type 0 where
  pub events : List (PiEvent Json)
  pub last_attempt : ℕ
  pub pool : ExitPool

abbrev pub unavailable_message : Text → Text
unavailable_message model =
    codes "OpenCode: 模型 \""
    ++ model
    ++ codes
        "\" 已被上游下架停用或服务异常，请在模型列表中切换到其他可用模型（如 big-pickle、mimo-v2.6-flash-free、muse-spark-1.3-contributor-free 等）"

module _ (delegate : Option (Option ℕ)) (clock : ℕ → ℕ) (session : Text) (model : PiModel) where
  -- The decision after a failure before any content; the pool is not asked where the failure is
  -- not one of an exit, or where the attempts are used up.
  unfoldable pub ask_pool : ℕ → Text → ExitPool → ExitPool × Bool
  unfolding should_rotate
  ask_pool attempt message p = elim (classify_stream_failure message) [
    | none ↦ (p, false)
    | some failure ↦
        if ltb attempt max_rotates
        then should_rotate delegate (clock attempt) model.id session (attempt + 1)
            (is_region_blocked message) p
        else (p, false)
  ]

  abbrev pub give_up_or_again :
      {Json : Type 0} → List Text → List (PiEvent Json) → ExitPool × Bool → Next Json
  give_up_or_again story buffered (q, rotate) =
      if rotate then Next.again story q else Next.serve (tell_story story buffered) q

  unfoldable pub settle : {Json : Type 0} → ℕ → List Text → ExitPool → Peeked Json → Next Json
  unfolding ask_pool tell_story pump_live
  settle attempt story p (Peeked.live buffered rest) =
      Next.serve (buffered ++ pump_live model rest) p
  settle attempt story p (Peeked.over buffered) = Next.serve buffered p
  settle attempt story p (Peeked.failed message buffered) =
      give_up_or_again (story ++ (chapter attempt message ∷ [])) buffered
        (ask_pool attempt message p)

  -- The rotate loop, on fuel.
  unfoldable pub attempts :
      {Json : Type 0}
      → (source : ℕ → List (Pull Json)) → (meanwhile : ℕ → ExitPool → ExitPool) → ℕ
      → ℕ
      → List Text
      → ExitPool
      → Option (Served Json)
  unfolding settle peek
  attempts source meanwhile zero attempt story p = none
  attempts source meanwhile (suc fuel) attempt story p =
      elim (settle attempt story (meanwhile attempt p) (peek model false (source attempt))) [
        | serve es q ↦ some (record { events = es; last_attempt = attempt; pool = q })
        | again more q ↦ attempts source meanwhile fuel (suc attempt) more q
      ]

-- `stream`: the chunks of a turn and the pool after it. A known unavailable model is refused
-- without an attempt.
unfoldable pub stream :
    {Json : Type 0}
    → (stringify : Json → Text) → Option (Option ℕ)
    → (clock : ℕ → ℕ) → (session id : Text) → (reasoning : Bool) → (source : ℕ → List (Pull Json))
    → (meanwhile : ℕ → ExitPool → ExitPool) → ExitPool
    → Option ((List HarnessChunk × Bool) × ExitPool)
unfolding attempts to_stream_chunks member_of to_pi_model
stream stringify delegate clock session id reasoning source meanwhile p =
    let model = to_pi_model id reasoning in
    if member_of known_unavailable_models id
    then some (
      to_stream_chunks stringify default_context_window []
          (terminal_error model (unavailable_message id) ∷ []),
      p,
    )
    else elim (attempts delegate clock session model source meanwhile (suc max_rotates) 0 [] p) [
      | none ↦ none
      | some r ↦ some (to_stream_chunks stringify default_context_window [] r.events, r.pool)
    ]
