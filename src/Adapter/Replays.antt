-- ===== src/Adapter/Replays.antt =====
-- packages/plugin/src/adapter/zen-adapter.ts: a turn is never replayed once content was delivered,
-- and it ends. Adapter/Stories has what an attempt is and what a turn of several tells.
use dsh_opencode.Base.{
  ℕ, zero, suc, ◌+◌, ◌≤◌, ◌<◌, min, ◌≡◌, refl, ap, sym, ◌∙◌, inl, inr, Bool, true, false, List, [],
  ◌∷◌, ◌++◌, Text, Option, none, some, arith, ltb, Bool-cases, subst,
}
use mathlib.Core.Bool.{false≢true}
use dsh_opencode.Pool.Types.{ExitPool, or_else}
use dsh_opencode.Rotate.{should_rotate, decide}
use dsh_opencode.Rotate.Failures.{is_region_blocked}
use dsh_opencode.Events.Types.{PiEvent}
use dsh_opencode.Adapter.Models.{PiModel}
use dsh_opencode.Adapter.Attempts.{
  Pull, Peeked, max_rotates, peek, pump_live, buffer, is_error_stop, chapter,
}
use dsh_opencode.Adapter.Turns.{Next, serve, again, Served, ask_pool, settle, attempts}
use dsh_opencode.Adapter.Stories.{
  fails_early, early_message, passed_on, pump_live-passed_on, chapters, Told, tell_story-Told,
}

-- What the peek phase has to say of an attempt.
abbrev pub Peeks :
    {Json : Type 0} → PiModel → Bool → Text → List (PiEvent Json) → Peeked Json → Type 0
Peeks model early why whole (Peeked.live buffered rest) =
    (early ≡ false) × (buffered ++ pump_live model rest ≡ whole)
Peeks model early why whole (Peeked.over buffered) = (early ≡ false) × (buffered ≡ whole)
Peeks model early why whole (Peeked.failed m buffered) =
    (early ≡ true) × (buffered ≡ whole) × (m ≡ why)

buffer-Peeks :
    {Json : Type 0}
    → (model : PiModel) (early : Bool) (why : Text) (e : PiEvent Json) (whole : List (PiEvent Json))
      (r : Peeked Json)
    → Peeks model early why whole r
    → Peeks model early why (e ∷ whole) (buffer e r)
buffer-Peeks model early why e whole (Peeked.live buffered rest) h = (h.0, ap (λ es. e ∷ es) h.1)
buffer-Peeks model early why e whole (Peeked.over buffered) h = (h.0, ap (λ es. e ∷ es) h.1)
buffer-Peeks model early why e whole (Peeked.failed m buffered) h =
    (h.0, ap (λ es. e ∷ es) h.1, h.2)

peek-Peeks :
    {Json : Type 0}
    → (model : PiModel) (saw_any : Bool) (ps : List (Pull Json))
    → Peeks model
        (fails_early ps)
        (early_message saw_any ps)
        (passed_on model saw_any ps)
        (peek model saw_any ps)
unfolding peek passed_on fails_early early_message
peek-Peeks model saw_any [] = (refl, refl)
peek-Peeks model saw_any (Pull.silent ∷ ps) = (refl, refl, refl)
peek-Peeks model saw_any (Pull.throws m ∷ ps) = (refl, refl, refl)
peek-Peeks model saw_any (Pull.yields (PiEvent.error m) ∷ ps) = (refl, refl, refl)
peek-Peeks model saw_any (Pull.yields (PiEvent.done m) ∷ ps) =
    elim (Bool-cases (is_error_stop m.stop_reason)) [
      | inl e ↦ rw (e) (refl, refl, refl)
      | inr e ↦ rw (e) (refl, refl)
    ]
peek-Peeks model saw_any (Pull.yields PiEvent.start ∷ ps) =
    buffer-Peeks model (fails_early ps) (early_message true ps) PiEvent.start
      (passed_on model true ps) (peek model true ps) (peek-Peeks model true ps)
peek-Peeks model saw_any (Pull.yields e ∷ ps) =
    (refl, ap (λ es. e ∷ es) (pump_live-passed_on model ps))

-- How many times a turn may go on: the ceiling that the settings give the delegate, which without
-- a delegate is 0 and without a setting 3, and never more than 3.
abbrev pub limit : Option (Option ℕ) → ℕ
limit none = 0
limit (some ceiling) = min 3 (or_else ceiling 3)

limit_le : (delegate : Option (Option ℕ)) → limit delegate ≤ 3
limit_le none = omega arith
limit_le (some none) = omega arith
limit_le (some (some ceiling)) = omega arith

-- A delegate that grants an attempt has a ceiling above its number.
should_rotate-limit :
    (delegate : Option (Option ℕ)) (now : ℕ) (model session : Text) (attempt : ℕ)
    (deterministic : Bool) (p : ExitPool)
    → (should_rotate delegate now model session (attempt + 1) deterministic p).1 ≡ true
    → attempt < 3
    → attempt < limit delegate
unfolding should_rotate decide
should_rotate-limit none now model session attempt deterministic p h l = ground arith
should_rotate-limit (some none) now model session attempt deterministic p h l = ground arith
should_rotate-limit (some (some ceiling)) now model session attempt deterministic p h l =
    ground arith

module _ (delegate : Option (Option ℕ)) (clock : ℕ → ℕ) (session : Text) (model : PiModel) where
  abbrev pub Settled : {Json : Type 0} → (ℕ → List (Pull Json)) → ℕ → Next Json → Type 0
  Settled source attempt (Next.serve es q) = Told model source attempt es
  Settled source attempt (Next.again more q) =
      (fails_early (source attempt) ≡ true)
      × (more ≡ chapters source (suc attempt))
      × (attempt < limit delegate)

  -- Another attempt is granted below the limit only.
  ask_pool-true :
      (attempt : ℕ) (message : Text) (p : ExitPool)
      → (ask_pool delegate clock session model attempt message p).1 ≡ true
      → attempt < limit delegate
  unfolding ask_pool
  ask_pool-true attempt message p h = ground (
    arith,
    should_rotate-limit delegate (clock attempt) model.id session attempt
        (is_region_blocked message) p,
  )

  settle-Settled :
      {Json : Type 0}
      → (source : ℕ → List (Pull Json)) (attempt : ℕ) (story : List Text) (p : ExitPool)
        (r : Peeked Json)
      → story ≡ chapters source attempt
      → Peeks model
          (fails_early (source attempt))
          (early_message false (source attempt))
          (passed_on model false (source attempt))
          r
      → Settled source attempt (settle delegate clock session model attempt story p r)
  unfolding settle chapters
  settle-Settled source attempt story p (Peeked.live buffered rest) c h = (
    (λ e. h.1),
    (λ e. elim (false≢true (sym h.0 ∙ e)) [ ]),
    (λ e. elim (false≢true (sym h.0 ∙ e)) [ ]),
  )
  settle-Settled source attempt story p (Peeked.over buffered) c h = (
    (λ e. h.1),
    (λ e. elim (false≢true (sym h.0 ∙ e)) [ ]),
    (λ e. elim (false≢true (sym h.0 ∙ e)) [ ]),
  )
  settle-Settled {Json} source attempt story p (Peeked.failed message buffered) c h =
      let asked = ask_pool delegate clock session model attempt message p in
      let more = story ++ (chapter attempt message ∷ []) in
      let told_so_far : more ≡ chapters source (suc attempt) = rw (c, h.2) refl in
      elim (Bool-cases asked.1) [
        | inl e ↦ rw (e) (h.0, told_so_far, ask_pool-true attempt message p e)
        | inr e ↦ rw (e, told_so_far, h.1) (tell_story-Told model source attempt h.0)
      ]

  -- A turn: every attempt before the last failed with nothing delivered, and the events are those
  -- of the last one.
  abbrev pub IsTurn : {Json : Type 0} → (source : ℕ → List (Pull Json)) → ℕ → Served Json → Type 0
  IsTurn source first r =
      (first ≤ r.last_attempt)
      × (r.last_attempt ≤ limit delegate)
      × ((j : ℕ) → first ≤ j → j < r.last_attempt → fails_early (source j) ≡ true)
      × Told model source r.last_attempt r.events

  module _ {Json : Type 0} (source : ℕ → List (Pull Json))
      (meanwhile : ℕ → ExitPool → ExitPool) where
    before_last :
        (attempt last j : ℕ)
        → fails_early (source attempt) ≡ true
        → ((i : ℕ) → suc attempt ≤ i → i < last → fails_early (source i) ≡ true)
        → attempt ≤ j
        → j < last
        → fails_early (source j) ≡ true
    before_last attempt last j e rest l u = elim (Bool-cases (ltb attempt j)) [
      | inl t ↦ rest j (ground arith) u
      | inr t ↦ subst (λ i. fails_early (source i) ≡ true) (ground arith) e
    ]

    after_settle :
        (attempt : ℕ) (more : List Text → ExitPool → Option (Served Json)) (n : Next Json)
        → Settled source attempt n
        → attempt ≤ limit delegate
        → ((story : List Text) (q : ExitPool)
            → story ≡ chapters source (suc attempt)
            → attempt < limit delegate
            → (r : Served Json) × ((more story q ≡ some r) × IsTurn source (suc attempt) r))
        → (r : Served Json) × ((elim n [
          | serve es q ↦ some (record { events = es; last_attempt = attempt; pool = q })
          | again story q ↦ more story q
        ]
              ≡ some r)
            × IsTurn source attempt r)
    after_settle attempt more (Next.serve es q) h l rest = (
      record { events = es; last_attempt = attempt; pool = q },
      (refl, (omega arith, l, (λ j a b. ground arith), h)),
    )
    after_settle attempt more (Next.again story q) h l rest =
        let (r, (e, t)) = rest story q h.1 h.2 in
        (
          r,
          (e, (omega arith, t.1, (λ j a b. before_last attempt r.last_attempt j h.0 t.2 a b), t.3)),
        )

    attempts-IsTurn :
        (fuel attempt : ℕ) (story : List Text) (p : ExitPool)
        → story ≡ chapters source attempt
        → attempt ≤ limit delegate
        → fuel + attempt ≡ max_rotates
        → (r : Served Json) × ((attempts delegate clock session model source meanwhile
                (suc fuel)
                attempt
                story
                p
              ≡ some r)
            × IsTurn source attempt r)
    unfolding attempts
    attempts-IsTurn zero attempt story p c l f =
        let now = meanwhile attempt p in
        let peeked = peek model false (source attempt) in
        after_settle attempt
          (attempts delegate clock session model source meanwhile zero (suc attempt))
          (settle delegate clock session model attempt story now peeked)
          (settle-Settled source attempt story now peeked c
            (peek-Peeks model false (source attempt)))
          l (λ more q d u. absurd (omega (arith, limit_le delegate)))
    attempts-IsTurn (suc fuel) attempt story p c l f =
        let now = meanwhile attempt p in
        let peeked = peek model false (source attempt) in
        after_settle attempt
          (attempts delegate clock session model source meanwhile (suc fuel) (suc attempt))
          (settle delegate clock session model attempt story now peeked)
          (settle-Settled source attempt story now peeked c
            (peek-Peeks model false (source attempt)))
          l (λ more q d u. attempts-IsTurn fuel (suc attempt) more q d u (omega arith))

    -- Every turn ends after at most four attempts, and after at most one more than the delegate's
    -- ceiling, without a delegate after one, whatever they bring and whatever the pool becomes
    -- meanwhile. All attempts before the last failed before any content, and the events served are
    -- those of the last attempt alone, in their order up to its first terminal event, unchanged
    -- unless it failed before any content and was not the first. In that case they are starts and
    -- the terminal error, whose message closes with the number of the attempts before and with one
    -- entry for each attempt, in their order, with its number, its kind of failure and the first
    -- 80 units of its message.
    pub attempts_lem :
        (p : ExitPool)
        → (r : Served Json) × ((attempts delegate clock session model source meanwhile
                (suc max_rotates)
                0
                []
                p
              ≡ some r)
            × IsTurn source 0 r)
    unfolding chapters
    attempts_lem p = attempts-IsTurn max_rotates 0 [] p refl (omega arith) refl
