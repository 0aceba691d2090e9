-- ===== src/AgentProcess/Stopping.antt =====
-- packages/plugin/src/agent-process.ts: a restart that fails, and a stop that has nothing to wait for.
use dsh_opencode.Base.{
  ℕ, ◌≡◌, ◌≢◌, refl, Bool, true, not, List, [], ◌∷◌, Option, none, some, arith, ◌==◌, All, exists,
  keep,
}
use dsh_opencode.AgentProcess.{
  AgentProcess, AgentState, Child, handshake_failed, detach, on_exit, child_exits, timer_fires,
  stop, end_stops, start, start_guarded, spawn,
}

-- What can happen without a call of the owner: children exit and the restart timer fires.
pub data Event : Type 0 where
  exits : ℕ → ℕ → Option ℕ → Event
  fires : Event

abbrev react : Event → AgentProcess → AgentProcess
react (exits now number code) p = child_exits now number code p
react fires p = timer_fires p

unfoldable pub events : List Event → AgentProcess → AgentProcess
unfolding child_exits timer_fires
events [] p = p
events (e ∷ es) p = events es (react e p)

-- Down for good: nothing is left that could start the agent.
abbrev pub IsIdle : AgentProcess → Type 0
IsIdle p = (p.state ≡ AgentState.stopped) × (p.child ≡ none) × (p.restart_timer ≡ none)

react-Idle : (e : Event) (p : AgentProcess) → IsIdle p → IsIdle (react e p)
unfolding child_exits timer_fires on_exit end_stops
react-Idle (exits now number code) p h = ground (arith, h.0, h.1, h.2)
react-Idle fires p h = ground (arith, h)

events-Idle : (es : List Event) (p : AgentProcess) → IsIdle p → IsIdle (events es p)
unfolding events
events-Idle [] p h = h
events-Idle (e ∷ es) p h = events-Idle es (react e p) (react-Idle e p h)

-- When the restart that a crash has scheduled fails its handshake, the agent stays stopped with no
-- timer set, whatever children exit later: no further restart follows and the breaker never trips.
pub failed_restart :
    (es : List Event) (p : AgentProcess) {delay : ℕ}
    → p.state ≡ AgentState.ready
    → p.ready_info ≡ none
    → p.restart_timer ≡ some delay
    → let q = timer_fires p in
      (q.pending ≡ some p.spawned) × IsIdle (events es (handshake_failed p.spawned q))
unfolding timer_fires start start_guarded spawn handshake_failed detach
failed_restart es p down lost timed =
    let q = timer_fires p in
    (
      ground (arith, down, lost, timed),
      events-Idle es (handshake_failed p.spawned q) (ground (arith, down, lost, timed)),
    )

abbrev pub waits_for : ℕ → AgentProcess → Bool
waits_for number p = exists (λ n. n == number) p.stops_waiting

abbrev pub Spares : ℕ → Event → Type 0
Spares number (exits now other code) = number ≢ other
Spares number fires = Unit

exists-keep_others :
    (number other : ℕ) (xs : List ℕ)
    → number ≢ other
    → exists (λ n. n == number) (keep (λ n. not (n == other)) xs) ≡ exists (λ n. n == number) xs
unfolding exists keep
exists-keep_others number other [] h = refl
exists-keep_others number other (x ∷ xs) h = ground (arith, exists-keep_others number other xs h)

react-waits :
    (number : ℕ) (e : Event) (p : AgentProcess)
    → Spares number e
    → waits_for number p ≡ true
    → waits_for number (react e p) ≡ true
unfolding child_exits timer_fires on_exit end_stops start start_guarded spawn
react-waits number (exits now other code) p ne h =
    ground (arith, exists-keep_others number other p.stops_waiting ne)
react-waits number fires p ne h = ground arith

events-waits :
    (number : ℕ) (es : List Event) (p : AgentProcess)
    → All (Spares number) es
    → waits_for number p ≡ true
    → waits_for number (events es p) ≡ true
unfolding events
events-waits number [] p s h = h
events-waits number (e ∷ es) p s h =
    events-waits number es (react e p) s.1 (react-waits number e p s.0 h)

-- A stop of an agent whose child has no exit code, which holds also for a child that a signal has
-- already ended, does not end until an exit of that child is reported, whatever else happens.
pub stop-waits :
    (es : List Event) (p : AgentProcess) (c : Child)
    → p.child ≡ some c
    → c.exit_code ≡ none
    → All (Spares c.number) es
    → waits_for c.number (events es (stop p)) ≡ true
unfolding stop exists
stop-waits es p c e by_signal s = events-waits c.number es (stop p) s (ground (arith, e, by_signal))
