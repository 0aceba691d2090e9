-- ===== src/Refill.antt =====
-- packages/plugin/src/pool/refill.ts: the admission part of a refill round. The awaited probe
-- splits a task in two turns, the claim of a seat and the verdict, which other tasks and calls of
-- the pool may come between. `admitCandidate` gives the verdict, `none` where it throws.
pub mod Collect
pub mod Seats
use dsh_opencode.Base.{
  ℕ, ◌+◌, min, Bool, true, false, ◌||◌, List, [], ◌∷◌, Option, none, some, leb, if◌then◌else◌,
}
use dsh_opencode.Pool.Types.{ExitPool, ExitNode}
use dsh_opencode.Pool.Table.{add}
use dsh_opencode.Pool.Signals.{mark_ok, mark_limited}
use dsh_opencode.Pool.Capacity.{admission_quota, evict_worst_free, is_free_full}

pub record Verdict : Type 0 where
  pub admitted : Bool
  pub limited : Bool
  pub node : Option ExitNode

-- The counters of one round, over the shared pool.
pub record Round : Type 0 where
  pub pool : ExitPool
  pub quota : ℕ
  pub claimed : ℕ
  pub admitted : ℕ
  pub admitted_limited : ℕ
  pub rejected : ℕ
  pub admissions : ℕ

unfoldable pub new_round : ℕ → ℕ → ExitPool → Round
unfolding admission_quota
new_round now max_per_round pool = record {
  pool = pool;
  quota = min (admission_quota now pool) max_per_round;
  claimed = 0;
  admitted = 0;
  admitted_limited = 0;
  rejected = 0;
  admissions = 0;
}

-- The gate before the probe, and whether the task goes on.
unfoldable pub claim : ℕ → Round → Round × Bool
unfolding admission_quota
claim now r =
    if leb r.quota r.claimed || leb (admission_quota now r.pool) 0
    then (r, false)
    else (record r { claimed = r.claimed + 1 }, true)

-- The replace flow: a full pool gives up its worst free exit before the new one is added.
unfoldable pub make_room : ExitPool → ExitPool
unfolding is_free_full evict_worst_free
make_room p = if is_free_full p then (evict_worst_free p).0 else p

abbrev pub added : ℕ → ExitNode → Bool → Round → ExitPool × Bool → Round
added now node limited r (p, false) = record r { pool = p }
added now node true r (p, true) = record r {
  pool = (mark_limited now node.id p).0;
  admitted_limited = r.admitted_limited + 1;
}
added now node false r (p, true) = record r {
  pool = mark_ok now node.id none p;
  admitted = r.admitted + 1;
}

unfoldable pub admit : ℕ → ExitNode → Bool → Round → Round
unfolding make_room add mark_ok mark_limited
admit now node limited r = added now node limited r (add node (make_room r.pool))

abbrev pub judged : ℕ → Verdict → Option ExitNode → Round → Round
judged now v none r = record r { rejected = r.rejected + 1 }
judged now v (some node) r =
    let seated = admit now node v.limited r in
    if v.admitted then seated else record r { rejected = r.rejected + 1 }

abbrev count_admission : Round → Round
count_admission r = record r { admissions = r.admissions + 1 }

-- The rest of a task after its probe, with its `finally`.
unfoldable pub settle_verdict : ℕ → Option Verdict → Round → Round
unfolding admit
settle_verdict now none r = count_admission r
settle_verdict now (some v) r = count_admission (judged now v v.node r)

pub data Turn : Type 0 where
  claims : Turn
  settles : Option Verdict → Turn
  others : (ExitPool → ExitPool) → Turn

unfoldable pub turn : ℕ → Turn → Round → Round
unfolding claim settle_verdict
turn now claims r = (claim now r).0
turn now (settles v) r = settle_verdict now v r
turn now (others f) r = record r { pool = f r.pool }

unfoldable pub turns : List (ℕ × Turn) → Round → Round
unfolding turn
turns [] r = r
turns ((now, t) ∷ ts) r = turns ts (turn now t r)
