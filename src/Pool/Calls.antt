-- ===== src/Pool/Calls.antt =====
-- packages/plugin/src/pool/pool.ts: the public methods that change the table, as one step.
use dsh_opencode.Base.{ℕ, Bool, List, [], ◌∷◌, Text, Option}
use dsh_opencode.Pool.Types.{ExitNode, ExitPool}
use dsh_opencode.Pool.Table
use dsh_opencode.Pool.Signals
use dsh_opencode.Pool.Passive
use dsh_opencode.Pool.Passive.{StreamFailure}
use dsh_opencode.Pool.Selection
use dsh_opencode.Pool.Capacity

pub data Call : Type 0 where
  sets_target : ℕ → Call
  adds : ExitNode → Call
  removes marks_dead pins locks unlocks marks_limited strikes records_transport reroutes :
      Text → Call
  unpins evicts : Call
  marks_ok : Text → Option Text → Call
  bans signals : Text → Text → Call
  stream_fails : Text → StreamFailure → Option Text → Call
  records : Text → ℕ → Text → Bool → Call
  picks : Text → Text → Call

unfoldable pub step : (Text → Text → Bool) → ℕ → Call → ExitPool → ExitPool
step coin now (sets_target n) p = Table.set_target_size n p
step coin now (adds n) p = (Table.add n p).0
step coin now (removes id) p = Table.remove id p
step coin now (marks_dead id) p = Table.mark_dead id p
step coin now (pins id) p = (Table.pin id p).0
step coin now unpins p = Table.unpin p
step coin now (locks id) p = (Table.take_probe_lock id p).0
step coin now (unlocks id) p = Table.release_probe_lock id p
step coin now (marks_ok id model) p = Signals.mark_ok now id model p
step coin now (marks_limited id) p = (Signals.mark_limited now id p).0
step coin now (bans id model) p = Signals.mark_model_banned now id model p
step coin now (signals id model) p = (Signals.mark_model_signal now id model p).0
step coin now (strikes id) p = (Signals.mark_dead_strike id p).0
step coin now (stream_fails id kind model) p = Passive.mark_stream_failure now id kind model p
step coin now (records id status model blocked) p =
    (Passive.record_passive now id status model blocked p).0
step coin now (records_transport id) p = Passive.record_passive_transport id p
step coin now (reroutes session) p = Passive.reroute_session session p
step coin now (picks session model) p = (Selection.pick coin now session model p).0
step coin now evicts p = (Capacity.evict_worst_free p).0

unfoldable pub run : (Text → Text → Bool) → List (ℕ × Call) → ExitPool → ExitPool
run coin [] p = p
run coin ((now, call) ∷ calls) p = run coin calls (step coin now call p)
