-- ===== src/AgentProcess.antt =====
-- packages/plugin/src/agent-process.ts: the driver of the agent child process. Children are
-- numbered in the order they are spawned. What the child and the timers do are the events; the
-- promises that `start` and `stop` wait for are `pending` and `stops_waiting`, the listeners of
-- `exit` are `watched` and `stop_listeners`.
pub mod Restarts
pub mod Stopping
use dsh_opencode.Base.{
  ℕ, suc, ◌+◌, ◌-◌, ◌*◌, min, ◌≡◌, refl, Bool, true, false, not, ◌&&◌, ◌||◌, List, [], ◌∷◌, ◌++◌,
  Text, Option, none, some, leb, ◌==◌, if◌then◌else◌, exists, keep,
}

pub record ReadyInfo : Type 0 where
  pub port : ℕ
  pub version : Text

pub data AgentState : Type 0 where
  starting ready stopped tripped : AgentState

-- A child, with its exit code once it has one: a child that a signal ended has none.
pub record Child : Type 0 where
  pub number : ℕ
  pub exit_code : Option ℕ
  pub ended : Bool

pub record AgentProcess : Type 0 where
  pub child : Option Child
  pub state : AgentState
  pub consecutive_crashes : ℕ
  pub restart_timer : Option ℕ
  pub stopping : Bool
  pub disposed : Bool
  pub backoff_ms : ℕ
  pub ready_since_ms : ℕ
  pub ready_info : Option ReadyInfo
  pub restart_delay_ms : ℕ
  pub restart_max_delay_ms : ℕ
  pub max_consecutive_crashes : ℕ
  pub spawned : ℕ
  pub pending : Option ℕ
  pub watched : List ℕ
  pub stop_listeners : List ℕ
  pub stops_waiting : List ℕ

abbrev pub stable_uptime_ms : ℕ
stable_uptime_ms = 30000

unfoldable pub new_process : ℕ → ℕ → ℕ → AgentProcess
new_process delay max_delay max_crashes = record {
  child = none;
  state = AgentState.stopped;
  consecutive_crashes = 0;
  restart_timer = none;
  stopping = false;
  disposed = false;
  backoff_ms = delay;
  ready_since_ms = 0;
  ready_info = none;
  restart_delay_ms = delay;
  restart_max_delay_ms = max_delay;
  max_consecutive_crashes = max_crashes;
  spawned = 0;
  pending = none;
  watched = [];
  stop_listeners = [];
  stops_waiting = [];
}

-- The part of `start` after its guards, up to the handshake.
unfoldable pub spawn : AgentProcess → AgentProcess
spawn p = record p {
  stopping = false;
  state = AgentState.starting;
  child = some (record { number = p.spawned; exit_code = none; ended = false });
  pending = some p.spawned;
  spawned = p.spawned + 1;
}

abbrev has_info : Option ReadyInfo → Bool
has_info none = false
has_info (some info) = true

-- `start`: a ready agent is kept, a start in progress and a tripped breaker are errors.
unfoldable pub start_guarded : AgentState → AgentProcess → AgentProcess
unfolding spawn
start_guarded AgentState.ready p = if has_info p.ready_info then p else spawn p
start_guarded AgentState.starting p = p
start_guarded AgentState.tripped p = p
start_guarded AgentState.stopped p = spawn p

unfoldable pub start : AgentProcess → AgentProcess
unfolding start_guarded
start p = start_guarded p.state p

-- The handshake of `start` succeeds.
unfoldable pub handshake_ok : ℕ → ReadyInfo → ℕ → AgentProcess → AgentProcess
handshake_ok now info number p = record p {
  ready_info = some info;
  state = AgentState.ready;
  ready_since_ms = now;
  pending = none;
  watched = number ∷ p.watched;
}

abbrev is_child : ℕ → Option Child → Bool
is_child number none = false
is_child number (some c) = c.number == number

-- `removeAllListeners('exit')` also takes the listener of a stop.
unfoldable pub detach : ℕ → AgentProcess → AgentProcess
unfolding keep
detach number p = record p {
  watched = keep (λ n. not (n == number)) p.watched;
  stop_listeners = keep (λ n. not (n == number)) p.stop_listeners;
  child = if is_child number p.child then none else p.child;
}

-- The handshake fails: the child exits early, cannot be spawned or is late. `start` rejects.
unfoldable pub handshake_failed : ℕ → AgentProcess → AgentProcess
unfolding detach
handshake_failed number p = record (detach number p) { state = AgentState.stopped; pending = none }

unfoldable pub reset_if_stable : ℕ → AgentProcess → AgentProcess
reset_if_stable now p =
    if not (p.ready_since_ms == 0) && leb stable_uptime_ms (now - p.ready_since_ms)
    then record p { consecutive_crashes = 0; backoff_ms = p.restart_delay_ms; ready_since_ms = 0 }
    else record p { ready_since_ms = 0 }

-- The end of `onExit`: the breaker trips, or a restart is scheduled and the backoff doubles.
unfoldable pub crash : AgentProcess → AgentProcess
crash p =
    if leb p.max_consecutive_crashes (p.consecutive_crashes + 1)
    then record p { consecutive_crashes = p.consecutive_crashes + 1; state = AgentState.tripped }
    else record p {
      consecutive_crashes = p.consecutive_crashes + 1;
      backoff_ms = min (p.backoff_ms * 2) p.restart_max_delay_ms;
      restart_timer = some p.backoff_ms;
    }

unfoldable pub on_exit : ℕ → ℕ → AgentProcess → AgentProcess
unfolding reset_if_stable crash
on_exit now number p =
    if not (is_child number p.child) || p.disposed
    then p
    else if p.stopping
    then record p { ready_info = none; state = AgentState.stopped }
    else crash (reset_if_stable now (record p { ready_info = none }))

abbrev end_child : ℕ → Option ℕ → Option Child → Option Child
end_child number code none = none
end_child number code (some c) =
    if c.number == number then some (record c { exit_code = code; ended = true }) else some c

-- A stop that waits for this child ends.
unfoldable pub end_stops : ℕ → AgentProcess → AgentProcess
unfolding exists keep
end_stops number p =
    if exists (λ n. n == number) p.stop_listeners
    then record p {
      stops_waiting = keep (λ n. not (n == number)) p.stops_waiting;
      state = AgentState.stopped;
    }
    else p

-- The `exit` event of a child: a listener of `start` and those of `stop`.
unfoldable pub child_exits : ℕ → ℕ → Option ℕ → AgentProcess → AgentProcess
unfolding on_exit end_stops exists
child_exits now number code p =
    let q = record p { child = end_child number code p.child } in
    end_stops number (if exists (λ n. n == number) p.watched then on_exit now number q else q)

unfoldable pub timer_fires : AgentProcess → AgentProcess
unfolding start
timer_fires p = elim p.restart_timer [
  | none ↦ p
  | some delay ↦ start (record p { restart_timer = none })
]

abbrev is_over : Child → Bool
is_over c = elim c.exit_code [ none ↦ false | some code ↦ true ]

abbrev stop_child : Option Child → AgentProcess → AgentProcess
stop_child none p = record p { state = AgentState.stopped }
stop_child (some c) p = if is_over c then record p { state = AgentState.stopped } else record p {
  stop_listeners = c.number ∷ p.stop_listeners;
  stops_waiting = c.number ∷ p.stops_waiting;
}

-- `stop`, up to the exit that `terminate` waits for.
unfoldable pub stop : AgentProcess → AgentProcess
stop p = stop_child p.child (record p { stopping = true; restart_timer = none })

unfoldable pub dispose : AgentProcess → AgentProcess
unfolding stop
dispose p = stop (record p { disposed = true })
