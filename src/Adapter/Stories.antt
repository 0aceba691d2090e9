-- ===== src/Adapter/Stories.antt =====
-- packages/plugin/src/adapter/zen-adapter.ts: how an attempt goes, told from its pulls alone, and
-- the story that a turn of several attempts closes with.
use dsh_opencode.Base.{
  ℕ, zero, suc, ◌+◌, ◌<◌, ◌≡◌, refl, ap, sym, ◌∙◌, inl, inr, Bool, true, false, List, [], ◌∷◌, ◌++◌,
  Text, codes, Option, none, some, arith, Bool-cases, All,
}
use dsh_opencode.Base.Decimal.{decimal}
use mathlib.Core.Bool.{false≢true}
use dsh_opencode.Pool.Types.{or_else}
use dsh_opencode.Ids.{take}
use dsh_opencode.Rotate.Failures.{classify_stream_failure}
use dsh_opencode.Events.Types.{PiEvent}
use dsh_opencode.Adapter.Models.{PiModel}
use dsh_opencode.Adapter.Attempts.{
  Pull, terminal_error, pump_live, is_error_stop, failure_message, failure_name, count, told,
  tell_story, join_story, watchdog_message,
}

-- An attempt that fails before any content, told from its pulls alone.
unfoldable pub fails_early : {Json : Type 0} → List (Pull Json) → Bool
fails_early [] = false
fails_early (Pull.silent ∷ ps) = true
fails_early (Pull.throws m ∷ ps) = true
fails_early (Pull.yields (PiEvent.error m) ∷ ps) = true
fails_early (Pull.yields (PiEvent.done m) ∷ ps) = is_error_stop m.stop_reason
fails_early (Pull.yields PiEvent.start ∷ ps) = fails_early ps
fails_early (Pull.yields e ∷ ps) = false

-- The message of an attempt that fails early.
unfoldable pub early_message : {Json : Type 0} → Bool → List (Pull Json) → Text
early_message saw_any [] = []
early_message saw_any (Pull.silent ∷ ps) = watchdog_message saw_any
early_message saw_any (Pull.throws m ∷ ps) = m
early_message saw_any (Pull.yields (PiEvent.error m) ∷ ps) = failure_message m
early_message saw_any (Pull.yields (PiEvent.done m) ∷ ps) = failure_message m
early_message saw_any (Pull.yields e ∷ ps) = early_message true ps

-- The attempt passed on with no buffer: each event as it comes, up to the first terminal one.
unfoldable pub passed_on : {Json : Type 0} → PiModel → Bool → List (Pull Json) → List (PiEvent Json)
passed_on model saw_any [] = []
passed_on model saw_any (Pull.silent ∷ ps) = terminal_error model (watchdog_message saw_any) ∷ []
passed_on model saw_any (Pull.throws m ∷ ps) = terminal_error model m ∷ []
passed_on model saw_any (Pull.yields (PiEvent.error m) ∷ ps) = PiEvent.error m ∷ []
passed_on model saw_any (Pull.yields (PiEvent.done m) ∷ ps) = PiEvent.done m ∷ []
passed_on model saw_any (Pull.yields e ∷ ps) = e ∷ passed_on model true ps

pub pump_live-passed_on :
    {Json : Type 0}
    → (model : PiModel) (ps : List (Pull Json)) → pump_live model ps ≡ passed_on model true ps
unfolding pump_live passed_on
pump_live-passed_on model [] = refl
pump_live-passed_on model (Pull.silent ∷ ps) = refl
pump_live-passed_on model (Pull.throws m ∷ ps) = refl
pump_live-passed_on model (Pull.yields (PiEvent.error m) ∷ ps) = refl
pump_live-passed_on model (Pull.yields (PiEvent.done m) ∷ ps) = refl
pump_live-passed_on model (Pull.yields e ∷ ps) = ap (λ es. e ∷ es) (pump_live-passed_on model ps)

-- The first attempts of a turn, one entry for each.
abbrev pub entry_of : ℕ → Text → Text
entry_of n message =
    codes "#"
    ++ decimal (n + 1)
    ++ codes " "
    ++ failure_name (classify_stream_failure message)
    ++ codes ": "
    ++ take 80 message

unfoldable pub chapters : {Json : Type 0} → (ℕ → List (Pull Json)) → ℕ → List Text
chapters source zero = []
chapters source (suc n) = chapters source n ++ (entry_of n (early_message false (source n)) ∷ [])

abbrev pub message_of : {Json : Type 0} → PiEvent Json → Option Text
message_of (PiEvent.error m) = m.error_message
message_of (PiEvent.done m) = m.error_message
message_of _ = none

abbrev pub with_message : {Json : Type 0} → PiEvent Json → Option Text → PiEvent Json
with_message (PiEvent.error m) t = PiEvent.error (record m { error_message = t })
with_message (PiEvent.done m) t = PiEvent.done (record m { error_message = t })
with_message e t = e

-- What is said after several attempts, the last of them with that number.
abbrev pub epilogue : Option Text → ℕ → List Text → Text
epilogue message n story =
    or_else message (codes "undefined")
    ++ codes " (OpenCode 轮换 "
    ++ decimal n
    ++ codes " 次后放弃: "
    ++ join_story story
    ++ codes ")"

-- The events are those of the attempt, but for the message of the last, which closes with the story.
abbrev pub Closes :
    {Json : Type 0}
    → List (PiEvent Json)
    → (Option Text → Option Text)
    → List (PiEvent Json)
    → Type 0
Closes {Json} whole retell es =
    (opening : List (PiEvent Json)) × ((e : PiEvent Json) × ((whole ≡ opening ++ (e ∷ []))
        × All (λ x. x ≡ PiEvent.start) opening
        × (es ≡ opening ++ (with_message e (retell (message_of e)) ∷ []))))

-- The events of an attempt, by its number, as the turn serves them.
abbrev pub Told :
    {Json : Type 0} → PiModel → (ℕ → List (Pull Json)) → ℕ → List (PiEvent Json) → Type 0
Told model source n es =
    let whole = passed_on model false (source n) in
    (fails_early (source n) ≡ false → es ≡ whole)
    × (fails_early (source n) ≡ true → n ≡ 0 → es ≡ whole)
    × (fails_early (source n) ≡ true
        → 0 < n
        → Closes whole (λ message. some (epilogue message n (chapters source (suc n)))) es)

count-append : (story : List Text) (s : Text) → count (story ++ (s ∷ [])) ≡ suc (count story)
count-append [] s = refl
count-append (t ∷ story) s = ap suc (count-append story s)

count-chapters :
    {Json : Type 0} (source : ℕ → List (Pull Json)) (n : ℕ) → count (chapters source n) ≡ n
unfolding chapters
count-chapters source zero = refl
count-chapters source (suc n) =
    count-append (chapters source n) _ ∙ ap suc (count-chapters source n)

told_many :
    (story : List Text) (n : ℕ) (message : Option Text)
    → count story ≡ suc (suc n)
    → told story message ≡ some (epilogue message (suc n) story)
unfolding told
told_many [] n message c = absurd (omega (arith, c))
told_many (s ∷ []) n message c = absurd (omega (arith, c))
told_many (s ∷ t ∷ ts) n message c =
    let last : count (t ∷ ts) ≡ suc n = omega (arith, c) in rw (last) refl

-- A story of one attempt changes nothing.
tell_story-single :
    {Json : Type 0} (s : Text) (es : List (PiEvent Json)) → tell_story (s ∷ []) es ≡ es
unfolding tell_story told
tell_story-single s [] = refl
tell_story-single s (PiEvent.error m ∷ es) = refl
tell_story-single s (PiEvent.done m ∷ es) = elim (Bool-cases (is_error_stop m.stop_reason)) [
  | inl e ↦ rw (e) refl
  | inr e ↦ rw (e) (ap (λ xs. PiEvent.done m ∷ xs) (tell_story-single s es))
]
tell_story-single s (e ∷ es) = ap (λ xs. e ∷ xs) (tell_story-single s es)

tell_story-Closes :
    {Json : Type 0}
    → (model : PiModel) (saw_any : Bool) (ps : List (Pull Json)) (story : List Text)
    → fails_early ps ≡ true
    → Closes
        (passed_on model saw_any ps)
        (told story)
        (tell_story story (passed_on model saw_any ps))
unfolding tell_story passed_on fails_early
tell_story-Closes model saw_any [] story h = elim (false≢true h) [ ]
tell_story-Closes model saw_any (Pull.silent ∷ ps) story h = ([], (_, (refl, tt, refl)))
tell_story-Closes model saw_any (Pull.throws m ∷ ps) story h = ([], (_, (refl, tt, refl)))
tell_story-Closes model saw_any (Pull.yields (PiEvent.error m) ∷ ps) story h =
    ([], (_, (refl, tt, refl)))
tell_story-Closes model saw_any (Pull.yields (PiEvent.done m) ∷ ps) story h =
    ([], (PiEvent.done m, (refl, tt, rw (h) refl)))
tell_story-Closes model saw_any (Pull.yields PiEvent.start ∷ ps) story h =
    let (opening, (e, (whole, starts, es))) = tell_story-Closes model true ps story h in
    (
      PiEvent.start ∷ opening,
      (e, (ap (λ xs. PiEvent.start ∷ xs) whole, (refl, starts), ap (λ xs. PiEvent.start ∷ xs) es)),
    )
tell_story-Closes model saw_any (Pull.yields e ∷ ps) story h = elim (false≢true h) [ ]

-- An attempt that fails early and is the last.
pub tell_story-Told :
    {Json : Type 0}
    → (model : PiModel) (source : ℕ → List (Pull Json)) (n : ℕ) → fails_early (source n) ≡ true
    → Told model source n (tell_story (chapters source (suc n)) (passed_on model false (source n)))
unfolding chapters
tell_story-Told model source zero h = (
  (λ f. elim (false≢true (sym f ∙ h)) [ ]),
  (λ f z. tell_story-single _ (passed_on model false (source zero))),
  (λ f l. absurd (omega (arith, l))),
)
tell_story-Told model source (suc n) h =
    let story = chapters source (suc (suc n)) in
    let (opening, (e, (whole, starts, es))) =
      tell_story-Closes model false (source (suc n)) story h in
    let text = told_many story n (message_of e) (count-chapters source (suc (suc n))) in
    (
      (λ f. elim (false≢true (sym f ∙ h)) [ ]),
      (λ f z. absurd (omega (arith, z))),
      (λ f l.
          (opening, (e, (whole, starts, es ∙ ap (λ t. opening ++ (with_message e t ∷ [])) text)))),
    )
