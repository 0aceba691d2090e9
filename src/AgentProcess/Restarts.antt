-- ===== src/AgentProcess/Restarts.antt =====
-- packages/plugin/src/agent-process.ts: the backoff of restarts and the circuit breaker.
use dsh_opencode.Base.{ℕ, zero, suc, ◌+◌, ◌-◌, ◌*◌, ◌≤◌, ◌<◌, min, ◌≡◌, false, none, some, arith}
use dsh_opencode.AgentProcess.{
  AgentProcess, AgentState, ReadyInfo, Child, start, start_guarded, spawn, handshake_ok, on_exit,
  crash, reset_if_stable, timer_fires, stable_uptime_ms,
}

-- An agent that is up: ready, watched, not being stopped.
pub record IsUp (p : AgentProcess) : Type 0 where
  pub ready : p.state ≡ AgentState.ready
  pub child : (c : Child) × (p.child ≡ some c)
  pub going : (p.stopping ≡ false) × (p.disposed ≡ false)

-- A crash of the current child of an agent that is up, `now` being less than the stable uptime
-- after READY.
abbrev pub IsEarly : ℕ → AgentProcess → Type 0
IsEarly now p = now - p.ready_since_ms < stable_uptime_ms

-- The restart that a crash schedules succeeds: the timer fires and the child says READY.
unfoldable pub restarted : ℕ → ReadyInfo → AgentProcess → AgentProcess
unfolding timer_fires handshake_ok
restarted now info p = handshake_ok now info p.spawned (timer_fires p)

unfoldable pub child_number : AgentProcess → ℕ
child_number p = elim p.child [ none ↦ 0 | some c ↦ c.number ]

-- The number of the delay that follows k crashes in a row.
unfoldable pub delay_after : ℕ → ℕ → ℕ → ℕ
delay_after delay limit zero = delay
delay_after delay limit (suc k) = min (delay_after delay limit k * 2) limit

-- Where the schedule stands after k early crashes.
abbrev pub AtCrash : ℕ → AgentProcess → Type 0
AtCrash k p =
    (p.consecutive_crashes ≡ k)
    × (p.backoff_ms ≡ delay_after p.restart_delay_ms p.restart_max_delay_ms k)

-- The k-th early crash in a row of an agent that is up trips the breaker when k reaches the
-- limit; before that it schedules a restart after the k-th delay, and when that restart succeeds
-- the agent is up again, one crash further on the schedule.
pub on_exit-schedule :
    (k now later : ℕ) (info : ReadyInfo) (p : AgentProcess)
    → IsUp p
    → AtCrash k p
    → IsEarly now p
    → let q = on_exit now (child_number p) p in
      (p.max_consecutive_crashes ≤ k + 1 → q.state ≡ AgentState.tripped)
      × (k + 1 < p.max_consecutive_crashes
          → (q.restart_timer ≡ some (delay_after p.restart_delay_ms p.restart_max_delay_ms k))
            × IsUp (restarted later info q)
            × AtCrash (suc k) (restarted later info q))
unfolding on_exit crash reset_if_stable child_number restarted delay_after timer_fires start
    handshake_ok start_guarded spawn
on_exit-schedule k now later info p up at early = (
  ground (arith, up.ready, up.child.1, up.going, at, early),
  λ room. (
    ground (arith, up.ready, up.child.1, up.going, at, early),
    record {
      ready = ground (arith, up.ready, up.child.1, up.going, at, early);
      child = (
        record { number = p.spawned; exit_code = none; ended = false },
        ground (arith, up.ready, up.child.1, up.going, at, early),
      );
      going = ground (arith, up.ready, up.child.1, up.going, at, early);
    },
    ground (arith, up.ready, up.child.1, up.going, at, early),
  ),
)
