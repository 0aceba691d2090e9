-- ===== src/Prober/Limits.antt =====
-- packages/plugin/src/pool/prober.ts: how far a pump goes, and two ways round the rules.
use dsh_opencode.Base.{
  ℕ, zero, suc, ◌+◌, ◌≤◌, ◌<◌, ◌≡◌, inl, inr, Bool, false, List, [], ◌∷◌, ◌++◌, Text, some, arith,
  length, Bool-cases,
}
use dsh_opencode.Pool.Types.{ExitPool, ExitHealth, ExitNode, node_of, health_of}
use dsh_opencode.Pool.Removal.{mark_dead_strike_lem}
use dsh_opencode.Pool.Signals.{mark_dead_strike}
use dsh_opencode.Pool.Table.{take_probe_lock}
use dsh_opencode.Prober.Queue.{
  Slot, Prober, start_next, pump_loop, pump, wake, idle, drained, is_exit_busy,
}
use dsh_opencode.Prober.Counts.{
  Round, start_next_lem, Settled, pump_loop-Settled, find_runnable-free,
}

Round-within :
    (c : Prober) (r : Prober × Bool)
    → Round c r
    → c.in_flight ≤ c.max_concurrent
    → r.0.in_flight ≤ r.0.max_concurrent
Round-within c r (inl (e, _)) h = rw e h
Round-within c r (inr (before, after, s, split, all, free, room, e)) h = rw e (omega arith)

pump_loop-within :
    (fuel : ℕ) (c : Prober)
    → c.in_flight ≤ c.max_concurrent
    → (pump_loop fuel c).in_flight ≤ (pump_loop fuel c).max_concurrent
unfolding pump_loop
pump_loop-within zero c h = h
pump_loop-within (suc fuel) c h =
    let first = Round-within c (start_next c) (start_next_lem c) h in
    elim (Bool-cases (start_next c).1) [
      | inl more ↦ rw (more, pump_loop) (pump_loop-within fuel (start_next c).0 first)
      | inr stop ↦ rw (stop, pump_loop) first
    ]

-- A pump from within the cap stays within it, and goes on until the cap is reached or the exit of
-- every queued task is busy.
pub pump-Settled :
    (c : Prober)
    → c.in_flight ≤ c.max_concurrent
    → ((pump c).in_flight ≤ (pump c).max_concurrent) × Settled (pump c)
unfolding pump wake
pump-Settled c h =
    let d = pump_loop (length c.queue + 1) c in
    let within = pump_loop-within (length c.queue + 1) c h in
    let settled = pump_loop-Settled (length c.queue + 1) c (omega arith) in
    elim (Bool-cases (idle d)) [
      | inl e ↦ rw (e, pump, wake) (within, settled)
      | inr e ↦ rw (e, pump, wake) (within, settled)
    ]

struck-free :
    (id : Text) (pool : ExitPool) {n : ExitNode} {h : ExitHealth}
    → node_of id pool ≡ some n
    → health_of id pool ≡ some h
    → (is_exit_busy id (mark_dead_strike id pool).0).1 ≡ false
unfolding is_exit_busy take_probe_lock
struck-free id pool {n} {h} en eh =
    let (evicted, health, node, never) = mark_dead_strike_lem id pool en eh in
    ground (arith, health, node)

-- A dead strike from a real request frees the probe lock of an exit while its probe is in flight:
-- whatever runs, the next task in the queue for that exit starts beside it.
pub mark_dead_strike-unlocks :
    (c : Prober) (t : Slot) (rest : List Slot) {n : ExitNode} {h : ExitHealth}
    → node_of t.exit_id c.pool ≡ some n
    → health_of t.exit_id c.pool ≡ some h
    → c.queue ≡ t ∷ rest
    → c.in_flight < c.max_concurrent
    → (start_next (record c { pool = (mark_dead_strike t.exit_id c.pool).0 })).0.running
      ≡ c.running ++ (t ∷ [])
unfolding start_next
mark_dead_strike-unlocks c t rest {n} {h} en eh eq room =
    let free = struck-free t.exit_id c.pool en eh in
    let found = find_runnable-free t rest (mark_dead_strike t.exit_id c.pool).0 free in
    ground (arith, found)

-- Only the last of two callers that wait for an unfinished queue is remembered.
pub drained_twice :
    (c : Prober) (first second : ℕ)
    → idle c ≡ false
    → (drained second (drained first c)).waiter ≡ some second
unfolding drained idle
drained_twice c first second h = ground arith
