-- ===== src/Sources/Breaker.antt =====
-- packages/plugin/src/pool/sources.ts: `SourceBreaker`. `now` is the reading of the clock.
use dsh_opencode.Base.{
  ℕ, ◌+◌, ◌<◌, ◌≡◌, refl, ◌≢◌, Bool, true, false, not, ◌&&◌, List, [], ◌∷◌, Text, Option, none,
  some, arith, ltb, leb, if◌then◌else◌, length, count_if, text_dec,
}
use dsh_opencode.Base.Maps.{lookup, insert, values, lookup-insert_self, lookup-insert_ne}

pub record BreakerEntry : Type 0 where
  pub consecutive_fails : ℕ
  pub disabled_until : ℕ

pub record SourceBreaker : Type 0 where
  pub entries : List (Text × BreakerEntry)
  pub threshold : ℕ
  pub cooldown_ms : ℕ

abbrev pub closed : BreakerEntry
closed = record { consecutive_fails = 0; disabled_until = 0 }

unfoldable pub new_breaker : Option ℕ → Option ℕ → SourceBreaker
new_breaker threshold cooldown = record {
  entries = [];
  threshold = elim threshold [ none ↦ 3 | some n ↦ n ];
  cooldown_ms = elim cooldown [ none ↦ 600000 | some n ↦ n ];
}

abbrev put : Text → BreakerEntry → SourceBreaker → SourceBreaker
put url e b = record b { entries = insert text_dec url e b.entries }

abbrev pub entry_of : Text → SourceBreaker → BreakerEntry
entry_of url b = elim (lookup text_dec url b.entries) [ none ↦ closed | some e ↦ e ]

-- `canUse`: an elapsed cooldown resets the counter in place.
unfoldable pub can_use : ℕ → Text → SourceBreaker → SourceBreaker × Bool
can_use now url b = elim (lookup text_dec url b.entries) [
  | none ↦ (b, true)
  | some e ↦
      if ltb now e.disabled_until
      then (b, false)
      else if leb b.threshold e.consecutive_fails
      then (put url closed b, true)
      else (b, true)
]

unfoldable pub record_success : Text → SourceBreaker → SourceBreaker
record_success url b = put url closed b

abbrev failed_once : ℕ → SourceBreaker → BreakerEntry → BreakerEntry
failed_once now b e = record {
  consecutive_fails = e.consecutive_fails + 1;
  disabled_until =
      if leb b.threshold (e.consecutive_fails + 1) then now + b.cooldown_ms else e.disabled_until;
}

unfoldable pub record_failure : ℕ → Text → SourceBreaker → SourceBreaker
record_failure now url b = put url (failed_once now b (entry_of url b)) b

unfoldable pub disabled_count : ℕ → SourceBreaker → ℕ
unfolding count_if
disabled_count now b = count_if (λ e. ltb now e.disabled_until) (values b.entries)

-- Failures of one source in a row, at the times listed.
unfoldable pub failures : List ℕ → Text → SourceBreaker → SourceBreaker
unfolding record_failure
failures [] url b = b
failures (now ∷ ts) url b = failures ts url (record_failure now url b)

failures-frame :
    (ts : List ℕ) (url : Text) (b : SourceBreaker)
    → ((failures ts url b).threshold ≡ b.threshold)
      × ((failures ts url b).cooldown_ms ≡ b.cooldown_ms)
unfolding failures
failures-frame [] url b = (refl, refl)
failures-frame (now ∷ ts) url b = failures-frame ts url (record_failure now url b)

failures-count :
    (ts : List ℕ) (url : Text) (b : SourceBreaker)
    → (entry_of url (failures ts url b)).consecutive_fails
      ≡ length ts + (entry_of url b).consecutive_fails
unfolding failures
failures-count [] url b = omega arith
failures-count (now ∷ ts) url b =
    let stored = lookup-insert_self text_dec url (failed_once now b (entry_of url b)) b.entries in
    let rest = failures-count ts url (put url (failed_once now b (entry_of url b)) b) in
    ground (arith, stored, rest)

failures_below :
    (ts : List ℕ) (url : Text) (b : SourceBreaker)
    → length ts + (entry_of url b).consecutive_fails < b.threshold
    → (entry_of url (failures ts url b)).disabled_until ≡ (entry_of url b).disabled_until
unfolding failures
failures_below [] url b h = refl
failures_below (now ∷ ts) url b h =
    let stored = lookup-insert_self text_dec url (failed_once now b (entry_of url b)) b.entries in
    let rest = failures_below ts url (put url (failed_once now b (entry_of url b)) b) in
    ground (arith, stored, rest)

can_use-eq :
    (now : ℕ) (url : Text) (b : SourceBreaker)
    → (can_use now url b).1 ≡ leb (entry_of url b).disabled_until now
unfolding can_use
can_use-eq now url b = ground arith

-- A source that has never failed is refused exactly when it has then failed at least as often in a
-- row as the threshold says and the cooldown since the last failure is not over.
pub can_use-failures :
    (ts : List ℕ) (last now : ℕ) (url : Text) (b : SourceBreaker)
    → lookup text_dec url b.entries ≡ none
    → (can_use now url (record_failure last url (failures ts url b))).1
      ≡ not (leb b.threshold (length ts + 1) && ltb now (last + b.cooldown_ms))
unfolding record_failure
can_use-failures ts last now url b fresh =
    let c = failures ts url b in
    let stored = lookup-insert_self text_dec url (failed_once last c (entry_of url c)) c.entries in
    ground (
      arith,
      can_use-eq now url (record_failure last url c),
      stored,
      failures-frame ts url b,
      failures-count ts url b,
      failures_below ts url b,
    )

-- A source that may be used is fewer than the threshold of failures from closed afterwards, and
-- asking again at the same time gives the same answer and changes nothing; the entries of other
-- sources are left alone.
pub can_use_lem :
    (now : ℕ) (url : Text) (b : SourceBreaker)
    → 0 < b.threshold
    → let (c, usable) = can_use now url b in
      (usable ≡ true → (entry_of url c).consecutive_fails < b.threshold)
      × (can_use now url c ≡ (c, usable))
      × ((other : Text)
          → url ≢ other
          → lookup text_dec other c.entries ≡ lookup text_dec other b.entries)
unfolding can_use
can_use_lem now url b pos =
    let stored = lookup-insert_self text_dec url closed b.entries in
    (
      ground (arith, stored),
      ground (arith, stored),
      λ other ne. ground (arith, lookup-insert_ne text_dec url other closed b.entries ne),
    )
