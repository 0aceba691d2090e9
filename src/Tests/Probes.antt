-- ===== src/Tests/Probes.antt =====
-- The probe scheduler over the pool of two exits (packages/plugin/test/prober.test.ts).
use dsh_opencode.Base.{◌≤◌, [], ◌∷◌, none, arith}
use dsh_opencode.Prober.Queue.{Slot, Prober, new_prober, here, next, enqueues, enqueue, pump}
use dsh_opencode.Prober.Serial.{IsSafe}
use dsh_opencode.Prober.Counts.{Settled}
use dsh_opencode.Prober.Steps
use dsh_opencode.Prober.Limits
use dsh_opencode.Tests.Exits.{two, two-Consistent, id_a}

abbrev first : Slot
first = record { exit_id = id_a; task = 1 }

abbrev second : Slot
second = record { exit_id = id_a; task = 2 }

Reach-IsSafe_example : IsSafe (enqueue second (enqueue first (new_prober none two)))
Reach-IsSafe_example =
    Steps.Reach-IsSafe none two two-Consistent (next (next here (enqueues first)) (enqueues second))

-- One probe of the exit in flight, another queued.
abbrev probing : Prober
probing = record {
  pool = two;
  max_concurrent = 3;
  queue = second ∷ [];
  running = first ∷ [];
  in_flight = 1;
  waiter = none;
  enqueued = 2;
  completed = 0;
}

pump-Settled_example :
    ((pump probing).in_flight ≤ (pump probing).max_concurrent) × Settled (pump probing)
pump-Settled_example = Limits.pump-Settled probing (omega arith)
