-- ===== src/Prober/Counts.antt =====
-- packages/plugin/src/pool/prober.ts: the loop of `#pump` ends, and the counters agree.
use dsh_opencode.Base.{
  ℕ, zero, suc, ◌+◌, ◌≤◌, ◌<◌, ◌≡◌, refl, ◌∙◌, ◌⊎◌, inl, inr, Bool, true, false, List, [], ◌∷◌,
  ◌++◌, Text, none, some, arith, ltb, length, length-append, Bool-cases, All, ap,
}
use dsh_opencode.Pool.Types.{ExitPool}
use dsh_opencode.Pool.Table.{take_probe_lock}
use dsh_opencode.Prober.Queue.{
  Slot, Prober, Found, find_runnable, start_next, skip, pump_loop, is_exit_busy,
}

abbrev pub Busy : ExitPool → Slot → Type 0
Busy pool s = (is_exit_busy s.exit_id pool).1 ≡ true

busy_frame :
    (id : Text) (pool : ExitPool)
    → (is_exit_busy id pool).1 ≡ true
    → (is_exit_busy id pool).0 ≡ pool
unfolding is_exit_busy take_probe_lock
busy_frame id pool h = ground arith

-- The search finds the first task whose exit is not busy, or finds every exit busy and changes
-- nothing.
abbrev pub Search : List Slot → ExitPool → Found → Type 0
Search q pool r =
    ((r ≡ (none, pool)) × All (Busy pool) q)
    ⊎ ((before after : List Slot) × (s : Slot) × (q ≡ before ++ (s ∷ after))
        × All (Busy pool) before
        × ((is_exit_busy s.exit_id pool).1 ≡ false)
        × (r ≡ (some (s, before ++ after), (is_exit_busy s.exit_id pool).0)))

find_runnable-busy :
    (s : Slot) (ss : List Slot) (pool : ExitPool)
    → (is_exit_busy s.exit_id pool).1 ≡ true
    → find_runnable (s ∷ ss) pool ≡ skip s (find_runnable ss pool)
unfolding find_runnable
find_runnable-busy s ss pool h = rw (h, busy_frame s.exit_id pool h, find_runnable)

pub find_runnable-free :
    (s : Slot) (ss : List Slot) (pool : ExitPool)
    → (is_exit_busy s.exit_id pool).1 ≡ false
    → find_runnable (s ∷ ss) pool ≡ (some (s, ss), (is_exit_busy s.exit_id pool).0)
unfolding find_runnable
find_runnable-free s ss pool h = rw (h, find_runnable)

pub find_runnable_lem : (q : List Slot) (pool : ExitPool) → Search q pool (find_runnable q pool)
unfolding find_runnable
find_runnable_lem [] pool = inl (refl, tt)
find_runnable_lem (s ∷ ss) pool = elim (Bool-cases (is_exit_busy s.exit_id pool).1) [
  | inl h ↦ elim (find_runnable_lem ss pool) [
    | inl (r, all) ↦ inl (find_runnable-busy s ss pool h ∙ ap (skip s) r, (h, all))
    | inr (before, after, t, split, all, free, r) ↦ inr (
      s ∷ before,
      after,
      t,
      ap (◌∷◌ s) split,
      (h, all),
      free,
      find_runnable-busy s ss pool h ∙ ap (skip s) r,
    )
  ]
  | inr h ↦ inr ([], ss, s, refl, tt, h, find_runnable-free s ss pool h)
]

-- What one round of the loop does.
abbrev pub Round : Prober → Prober × Bool → Type 0
Round c r =
    ((r ≡ (c, false)) × ((c.max_concurrent ≤ c.in_flight) ⊎ All (Busy c.pool) c.queue))
    ⊎ ((before after : List Slot) × (s : Slot) × (c.queue ≡ before ++ (s ∷ after))
        × All (Busy c.pool) before
        × ((is_exit_busy s.exit_id c.pool).1 ≡ false)
        × (c.in_flight < c.max_concurrent)
        × (r ≡ (
          record c {
            pool = (is_exit_busy s.exit_id c.pool).0;
            queue = before ++ after;
            running = c.running ++ (s ∷ []);
            in_flight = c.in_flight + 1;
          },
          true,
        )))

pub start_next_lem : (c : Prober) → Round c (start_next c)
unfolding start_next
start_next_lem c = elim (Bool-cases (ltb c.in_flight c.max_concurrent)) [
  | inl room ↦ elim (find_runnable_lem c.queue c.pool) [
    | inl (r, all) ↦ inl (rw (room, r), inr all)
    | inr (before, after, s, split, all, free, r) ↦
        inr (before, after, s, split, all, free, ground arith, rw (room, r))
  ]
  | inr full ↦ inl (rw full, inl (ground arith))
]

-- The counters agree with the lists that they count.
pub record Counted (c : Prober) : Type 0 where
  pub flying : c.in_flight ≡ length c.running
  pub total : c.enqueued ≡ length c.queue + c.in_flight + c.completed

pub Round-Counted : (c : Prober) (r : Prober × Bool) → Round c r → Counted c → Counted r.0
Round-Counted c r (inl (e, _)) h = rw e h
Round-Counted c r (inr (before, after, s, split, all, free, room, e)) h =
    let queue_length = ap length split ∙ length-append before (s ∷ after) in
    rw e (record {
      flying = omega (arith, h.flying, length-append c.running (s ∷ []));
      total = omega (arith, h.total, queue_length, length-append before after);
    })

pub pump_loop-Counted : (fuel : ℕ) (c : Prober) → Counted c → Counted (pump_loop fuel c)
unfolding pump_loop
pump_loop-Counted zero c h = h
pump_loop-Counted (suc fuel) c h =
    let first = Round-Counted c (start_next c) (start_next_lem c) h in
    elim (Bool-cases (start_next c).1) [
      | inl more ↦ rw (more, pump_loop) (pump_loop-Counted fuel (start_next c).0 first)
      | inr stop ↦ rw (stop, pump_loop) first
    ]

-- Nothing more can start: the cap is reached, or the exit of every queued task is busy.
abbrev pub Settled : Prober → Type 0
Settled c = (c.max_concurrent ≤ c.in_flight) ⊎ All (Busy c.pool) c.queue

Round-stop : (c : Prober) (r : Prober × Bool) → Round c r → r.1 ≡ false → Settled r.0
Round-stop c r (inl (e, settled)) h = rw e settled
Round-stop c r (inr (before, after, s, split, all, free, room, e)) h = cc

Round-length :
    (c : Prober) (r : Prober × Bool) (fuel : ℕ)
    → Round c r
    → r.1 ≡ true
    → length c.queue < suc fuel
    → length r.0.queue < fuel
Round-length c r fuel (inl (e, _)) h k = cc
Round-length c r fuel (inr (before, after, s, split, all, free, room, e)) h k =
    let queue_length = ap length split ∙ length-append before (s ∷ after) in
    rw e (omega (arith, queue_length, length-append before after))

-- With more fuel than queued tasks the loop runs to its end.
pub pump_loop-Settled : (fuel : ℕ) (c : Prober) → length c.queue < fuel → Settled (pump_loop fuel c)
unfolding pump_loop
pump_loop-Settled zero c h = elim h [ ]
pump_loop-Settled (suc fuel) c h = elim (Bool-cases (start_next c).1) [
  | inl more ↦
      rw (more, pump_loop)
        (pump_loop-Settled fuel (start_next c).0
          (Round-length c (start_next c) fuel (start_next_lem c) more h))
  | inr stop ↦ rw (stop, pump_loop) (Round-stop c (start_next c) (start_next_lem c) stop)
]
