-- ===== src/Tests/Agents.antt =====
-- An agent that crashes, and one that is stopped (packages/plugin/test/agent-process.test.ts).
use dsh_opencode.Base.{◌≡◌, ◌≤◌, ◌<◌, refl, false, [], ◌∷◌, codes, none, some, arith}
use dsh_opencode.AgentProcess.{
  AgentProcess, AgentState, ReadyInfo, new_process, handshake_failed, on_exit, timer_fires,
}
use dsh_opencode.AgentProcess.Restarts
use dsh_opencode.AgentProcess.Restarts.{IsUp, AtCrash, restarted, delay_after}
use dsh_opencode.AgentProcess.Stopping
use dsh_opencode.AgentProcess.Stopping.{IsIdle, events, exits, fires, waits_for}

abbrev info : ReadyInfo
info = record { port = 4000; version = codes "1" }

abbrev up : AgentProcess
up = record (new_process 1000 60000 3) {
  state = AgentState.ready;
  child = some (record { number = 0; exit_code = none; ended = false });
  ready_since_ms = 5;
  ready_info = some info;
  spawned = 1;
  watched = 0 ∷ [];
}

up-IsUp : IsUp up
unfolding new_process
up-IsUp = record {
  ready = refl;
  child = (record { number = 0; exit_code = none; ended = false }, refl);
  going = (refl, refl);
}

on_exit-schedule_example :
    (3 ≤ 1 → (on_exit 10 0 up).state ≡ AgentState.tripped)
    × (1 < 3
        → ((on_exit 10 0 up).restart_timer ≡ some 1000)
          × IsUp (restarted 2000 info (on_exit 10 0 up))
          × AtCrash 1 (restarted 2000 info (on_exit 10 0 up)))
unfolding delay_after Restarts.child_number new_process
on_exit-schedule_example =
    Restarts.on_exit-schedule 0 10 2000 info up up-IsUp (refl, refl) (omega arith)

-- After the first crash.
abbrev down : AgentProcess
down = record up { ready_info = none; consecutive_crashes = 1; restart_timer = some 1000 }

failed_restart_example :
    ((timer_fires down).pending ≡ some 1)
    × IsIdle (events (fires ∷ exits 9 0 (some 1) ∷ []) (handshake_failed 1 (timer_fires down)))
failed_restart_example =
    Stopping.failed_restart (fires ∷ exits 9 0 (some 1) ∷ []) down refl refl refl
