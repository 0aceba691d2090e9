-- ===== src/Prober/Queue.antt =====
-- packages/plugin/src/pool/prober.ts: the queue, the pump and the settling of a task. The body of a
-- task is the caller's: between two steps it may use the exit table, and it settles at some later
-- step. `running` names the tasks that the counter `#inFlight` counts.
use dsh_opencode.Base.{
  ℕ, zero, suc, ◌+◌, ◌-◌, max, ◌≡◌, Bool, true, false, not, ◌&&◌, List, [], ◌∷◌, ◌++◌, Text, Option,
  none, some, ltb, ◌==◌, if◌then◌else◌, length,
}
use dsh_opencode.Pool.Types.{ExitPool, node_of, or_else}
use dsh_opencode.Pool.Table.{take_probe_lock, release_probe_lock}

pub record Slot : Type 0 where
  pub exit_id : Text
  pub task : ℕ

pub record Prober : Type 0 where
  pub pool : ExitPool
  pub max_concurrent : ℕ
  pub queue : List Slot
  pub running : List Slot
  pub in_flight : ℕ
  pub waiter : Option ℕ
  pub enqueued : ℕ
  pub completed : ℕ

unfoldable pub new_prober : Option ℕ → ExitPool → Prober
new_prober n pool = record {
  pool = pool;
  max_concurrent = max 1 (or_else n 3);
  queue = [];
  running = [];
  in_flight = 0;
  waiter = none;
  enqueued = 0;
  completed = 0;
}

-- `#isExitBusy`, which takes the lock of an exit of the table that it finds free.
unfoldable pub is_exit_busy : Text → ExitPool → ExitPool × Bool
is_exit_busy id pool = elim (node_of id pool) [
  | none ↦ (pool, false)
  | some n ↦ let (locked, taken) = take_probe_lock id pool in (locked, not taken)
]

abbrev pub Found : Type 0
Found = Option (Slot × List Slot) × ExitPool

abbrev pub skip : Slot → Found → Found
skip s (none, pool) = (none, pool)
skip s (some (t, rest), pool) = (some (t, s ∷ rest), pool)

-- `findIndex` and `splice`: the first task whose exit is not busy, and the queue without it.
unfoldable pub find_runnable : List Slot → ExitPool → Found
find_runnable [] pool = (none, pool)
find_runnable (s ∷ ss) pool =
    let (pool', busy) = is_exit_busy s.exit_id pool in
    elim busy [ true ↦ skip s (find_runnable ss pool') | false ↦ (some (s, ss), pool') ]

abbrev pub start : Prober → Found → Prober × Bool
start c (none, pool) = (record c { pool = pool }, false)
start c (some (s, rest), pool) = (
  record c {
    pool = pool;
    queue = rest;
    running = c.running ++ (s ∷ []);
    in_flight = c.in_flight + 1;
  },
  true,
)

-- One round of the `while` of `#pump`, its test included, and whether the loop goes on.
unfoldable pub start_next : Prober → Prober × Bool
start_next c =
    if ltb c.in_flight c.max_concurrent then start c (find_runnable c.queue c.pool) else (c, false)

-- The loop. A round that goes on takes a task off the queue, so its length plus one is enough.
unfoldable pub pump_loop : ℕ → Prober → Prober
pump_loop zero c = c
pump_loop (suc fuel) c =
    let (c', more) = start_next c in elim more [ true ↦ pump_loop fuel c' | false ↦ c' ]

abbrev pub is_nil {ℓ} : {A : Type ℓ} → List A → Bool
is_nil [] = true
is_nil (x ∷ xs) = false

-- `idle`
unfoldable pub idle : Prober → Bool
idle c = is_nil c.queue && (c.in_flight == 0)

-- The end of `#pump`: an idle scheduler lets its waiter go.
unfoldable pub wake : Prober → Prober
wake c = if idle c then record c { waiter = none } else c

unfoldable pub pump : Prober → Prober
pump c = wake (pump_loop (length c.queue + 1) c)

unfoldable pub set_max_concurrent : ℕ → Prober → Prober
set_max_concurrent value c = pump (record c { max_concurrent = max 1 value })

unfoldable pub enqueue : Slot → Prober → Prober
enqueue s c = pump (record c { enqueued = c.enqueued + 1; queue = c.queue ++ (s ∷ []) })

unfoldable pub enqueue_all : List Slot → Prober → Prober
enqueue_all [] c = c
enqueue_all (s ∷ ss) c = enqueue_all ss (enqueue s c)

-- `drained()`: waits unless idle; a second waiter takes the place of the first.
unfoldable pub drained : ℕ → Prober → Prober
drained id c = if idle c then c else record c { waiter = some id }

-- The `finally` of `#runSlot` and `#finishSlot`, for the running task at a position.
unfoldable pub settle : Text → List Slot → Prober → Prober
settle exit_id others c = pump (record c {
  pool = release_probe_lock exit_id c.pool;
  running = others;
  in_flight = c.in_flight - 1;
  completed = c.completed + 1;
})

-- What can happen to the scheduler: a call, or the end of one of the running tasks.
pub data Step (c : Prober) : Prober → Type 0 where
  enqueues : (s : Slot) → Step c (enqueue s c)
  resizes : (n : ℕ) → Step c (set_max_concurrent n c)
  waits : (id : ℕ) → Step c (drained id c)
  settles :
      (before after : List Slot) (s : Slot)
      → c.running ≡ before ++ (s ∷ after)
      → Step c (settle s.exit_id (before ++ after) c)

pub data Reach (c : Prober) : Prober → Type 0 where
  here : Reach c c
  next : {d e : Prober} → Reach c d → Step d e → Reach c e
