-- ===== src/Prober/Serial.antt =====
-- packages/plugin/src/pool/prober.ts: at most one probe of an exit of the table is in flight, as
-- long as nobody else touches the locks; and who does.
use dsh_opencode.Base.{
  ℕ, zero, suc, ◌+◌, ◌≡◌, sym, subst, ◌∙◌, inl, inr, Bool, true, false, List, [], ◌∷◌, ◌++◌, Text,
  none, some, arith, length, text_dec, Bool-cases, Option-cases, All, All-append,
}
use dsh_opencode.Base.Maps.{insert, lookup-insert, has_of_lookup, lookup_of_has}
use dsh_opencode.Pool.Types.{ExitPool, ExitHealth, node_of, health_of}
use dsh_opencode.Pool.Table.{take_probe_lock}
use dsh_opencode.Pool.Invariant.{IsConsistent, touch-Consistent}
use mathlib.Core.Bool.{false≢true}
use dsh_opencode.Prober.Queue.{Slot, Prober, start_next, pump_loop, pump, wake, idle, is_exit_busy}
use dsh_opencode.Prober.Counts.{Round, start_next_lem, Counted, Round-Counted}

-- An exit without a health record; in a consistent pool, one that is not in the table.
abbrev pub Absent : ExitPool → Text → Type 0
Absent pool id = health_of id pool ≡ none

abbrev pub Locked : ExitPool → Text → Type 0
Locked pool id = (h : ExitHealth) → health_of id pool ≡ some h → h.inflight ≡ true

-- Two tasks of the list have one exit only if it is absent.
abbrev pub Serial : ExitPool → List Slot → Type 0
Serial pool [] = Unit
Serial pool (s ∷ ss) = All (λ t. s.exit_id ≡ t.exit_id → Absent pool t.exit_id) ss × Serial pool ss

pub record IsSafe (c : Prober) : Type 0 where
  pub counted : Counted c
  pub consistent : IsConsistent c.pool
  pub locked : All (λ s. Locked c.pool s.exit_id) c.running
  pub serial : Serial c.pool c.running

-- What it means that the search found the exit free.
record Freed (id : Text) (pool q : ExitPool) : Type 0 where
  consistent : IsConsistent q
  locked_now : Locked q id
  absent_still : (j : Text) → Absent pool j → Absent q j
  locked_still : (j : Text) → Locked pool j → Locked q j
  was_free : Locked pool id → Absent pool id

Absent-of_node :
    (id : Text) (pool : ExitPool) → IsConsistent pool → node_of id pool ≡ none → Absent pool id
Absent-of_node id pool c e = elim (Option-cases (health_of id pool)) [
  | inl gone ↦ gone
  | inr (h, there) ↦
      let known = sym (c.with_health id) ∙ has_of_lookup text_dec id pool.health there in
      let (n, found) = lookup_of_has text_dec id pool.nodes known in cc
]

take_lock-Freed :
    (id : Text) (pool : ExitPool) (h : ExitHealth)
    → IsConsistent pool
    → health_of id pool ≡ some h
    → h.inflight ≡ false
    → Freed id pool
        (record pool { health = insert text_dec id (record h { inflight = true }) pool.health })
take_lock-Freed id pool h c e free =
    let taken : ExitHealth = record h { inflight = true } in
    let at = λ (j : Text). lookup-insert text_dec id j taken pool.health in
    record {
      consistent = touch-Consistent id h taken e c;
      locked_now = λ k f. ground (arith, at id);
      absent_still = λ j gone. ground (arith, at j);
      locked_still = λ j l k f. ground (arith, at j, l k);
      was_free = λ l. ground (arith, l h e);
    }

is_exit_busy-Freed :
    (id : Text) (pool : ExitPool)
    → IsConsistent pool
    → (is_exit_busy id pool).1 ≡ false
    → Freed id pool (is_exit_busy id pool).0
unfolding is_exit_busy take_probe_lock
is_exit_busy-Freed id pool c e = elim (Option-cases (node_of id pool)) [
  | inl gone ↦
      let absent = Absent-of_node id pool c gone in
      rw (gone, is_exit_busy)
        (record {
          consistent = c;
          locked_now = λ k f. cc;
          absent_still = λ j h. h;
          locked_still = λ j l. l;
          was_free = λ l. absent;
        })
  | inr (n, there) ↦ elim (Option-cases (health_of id pool)) [
    | inl gone ↦ absurd (false≢true (ground arith))
    | inr (h, found) ↦ elim (Bool-cases h.inflight) [
      | inl held ↦ absurd (false≢true (ground arith))
      | inr free ↦
          rw (there, found, free, is_exit_busy, take_probe_lock)
            (take_lock-Freed id pool h c found free)
    ]
  ]
]

Serial-snoc :
    (pool : ExitPool) (xs : List Slot) (s : Slot)
    → Serial pool xs
    → All (λ t. t.exit_id ≡ s.exit_id → Absent pool s.exit_id) xs
    → Serial pool (xs ++ (s ∷ []))
Serial-snoc pool [] s h k = (tt, tt)
Serial-snoc pool (x ∷ xs) s h k = (
  All-append (λ t. x.exit_id ≡ t.exit_id → Absent pool t.exit_id) xs (s ∷ []) h.0 (k.0, tt),
  Serial-snoc pool xs s h.1 k.1,
)

Serial-map :
    (pool q : ExitPool) (xs : List Slot)
    → ((j : Text) → Absent pool j → Absent q j)
    → Serial pool xs
    → Serial q xs
Serial-map pool q [] f h = tt
Serial-map pool q (x ∷ xs) f h = (go xs h.0, Serial-map pool q xs f h.1)
  where
    go :
        (ys : List Slot)
        → All (λ t. x.exit_id ≡ t.exit_id → Absent pool t.exit_id) ys
        → All (λ t. x.exit_id ≡ t.exit_id → Absent q t.exit_id) ys
    go [] k = tt
    go (y ∷ ys) k = ((λ e. f y.exit_id (k.0 e)), go ys k.1)

All-Locked_map :
    (pool q : ExitPool) (xs : List Slot)
    → ((j : Text) → Locked pool j → Locked q j)
    → All (λ s. Locked pool s.exit_id) xs
    → All (λ s. Locked q s.exit_id) xs
All-Locked_map pool q [] f h = tt
All-Locked_map pool q (x ∷ xs) f h = (f x.exit_id h.0, All-Locked_map pool q xs f h.1)

-- The running tasks of one exit, one of which is about to be joined by another.
not_running_twice :
    (id : Text) (pool q : ExitPool) (xs : List Slot)
    → Freed id pool q
    → All (λ s. Locked pool s.exit_id) xs
    → All (λ t. t.exit_id ≡ id → Absent q id) xs
not_running_twice id pool q [] f h = tt
not_running_twice id pool q (x ∷ xs) f h = (
  (λ e. f.absent_still id (f.was_free (subst (Locked pool) e h.0))),
  not_running_twice id pool q xs f h.1,
)

Round-IsSafe : (c : Prober) (r : Prober × Bool) → Round c r → IsSafe c → Counted r.0 → IsSafe r.0
Round-IsSafe c r (inl (e, _)) h k = rw e h
Round-IsSafe c r (inr (before, after, s, split, all, free, room, e)) h k =
    let f = is_exit_busy-Freed s.exit_id c.pool h.consistent free in
    let q = (is_exit_busy s.exit_id c.pool).0 in
    rw e (record {
      counted = rw e at k;
      consistent = f.consistent;
      locked =
          All-append (λ t. Locked q t.exit_id) c.running (s ∷ [])
            (All-Locked_map c.pool q c.running f.locked_still h.locked) (f.locked_now, tt);
      serial =
          Serial-snoc q c.running s (Serial-map c.pool q c.running f.absent_still h.serial)
            (not_running_twice s.exit_id c.pool q c.running f h.locked);
    })

pump_loop-IsSafe : (fuel : ℕ) (c : Prober) → IsSafe c → IsSafe (pump_loop fuel c)
unfolding pump_loop
pump_loop-IsSafe zero c h = h
pump_loop-IsSafe (suc fuel) c h =
    let first =
      Round-IsSafe c (start_next c) (start_next_lem c) h
        (Round-Counted c (start_next c) (start_next_lem c) h.counted) in
    elim (Bool-cases (start_next c).1) [
      | inl more ↦ rw (more, pump_loop) (pump_loop-IsSafe fuel (start_next c).0 first)
      | inr stop ↦ rw (stop, pump_loop) first
    ]

wake-IsSafe : (c : Prober) → IsSafe c → IsSafe (wake c)
unfolding wake
wake-IsSafe c h = elim (Bool-cases (idle c)) [
  | inl e ↦
      rw (e, wake)
        (record {
          counted = record { flying = h.counted.flying; total = h.counted.total };
          consistent = h.consistent;
          locked = h.locked;
          serial = h.serial;
        })
  | inr e ↦ rw (e, wake) h
]

pub pump-IsSafe : (c : Prober) → IsSafe c → IsSafe (pump c)
unfolding pump
pump-IsSafe c h = wake-IsSafe _ (pump_loop-IsSafe (length c.queue + 1) c h)
