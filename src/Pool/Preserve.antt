-- ===== src/Pool/Preserve.antt =====
-- packages/plugin/src/pool/pool.ts: every method keeps the exit table consistent, and so does
-- every sequence of calls.
use dsh_opencode.Base.{
  ℕ, ◌≡◌, refl, ◌⊎◌, inl, inr, Bool, true, false, List, [], ◌∷◌, Text, Option, none, some, arith,
  Bool-cases, Option-cases, text_dec, All, All-keep,
}
use dsh_opencode.Base.Maps.{keys, values, insert, has, has-insert, has_of_lookup}
use dsh_opencode.Pool.Types.{
  ExitNode, ExitHealth, ExitPool, PoolOptions, new_pool, fresh_health, health_of, node_of,
}
use dsh_opencode.Pool.Table
use dsh_opencode.Pool.Signals
use dsh_opencode.Pool.Passive
use dsh_opencode.Pool.Passive.{PassiveKind, StreamFailure}
use dsh_opencode.Pool.Selection
use dsh_opencode.Pool.Capacity
use dsh_opencode.Pool.Calls.{
  Call, sets_target, adds, removes, marks_dead, pins, unpins, locks, unlocks, marks_ok,
  marks_limited, bans, signals, strikes, stream_fails, records, records_transport, reroutes, picks,
  evicts, step, run,
}
use dsh_opencode.Pool.Sorting.{sort-All, keys-All-has}
use dsh_opencode.Pool.Invariant.{
  IsConsistent, touch-Consistent, stick-Consistent, unstick-Consistent, pin-Consistent,
  insert-Consistent, remove-Consistent,
}

new_pool-Consistent : (o : PoolOptions) → IsConsistent (new_pool o)
unfolding new_pool has
new_pool-Consistent o = record {
  unique = tt;
  keyed = tt;
  with_health = λ id. refl;
  sticky = tt;
  pin_known = inl refl;
  distinct = λ i j m n ei. cc;
}

pub update_health-Consistent :
    (id : Text) (f : ExitHealth → ExitHealth) (p : ExitPool)
    → IsConsistent p
    → IsConsistent (Table.update_health id f p)
update_health-Consistent id f p c = elim (Option-cases (health_of id p)) [
  | inl e ↦ rw (e, Table.update_health) c
  | inr (h, e) ↦ rw (e, Table.update_health) (touch-Consistent id h (f h) e c)
]

mark_limited-Consistent :
    (now : ℕ) (id : Text) (p : ExitPool)
    → IsConsistent p
    → IsConsistent (Signals.mark_limited now id p).0
unfolding Signals.mark_limited
mark_limited-Consistent now id p c = elim (Option-cases (health_of id p)) [
  | inl e ↦ rw (e, Signals.mark_limited) c
  | inr (h, e) ↦ rw (e, Signals.mark_limited) (touch-Consistent id h _ e c)
]

not-is_duplicate :
    (n : ExitNode) (p : ExitPool)
    → Table.is_duplicate n p ≡ false
    → (n.exit_ip ≡ []) ⊎ (Table.has_exit_ip n.exit_ip n.id p.nodes ≡ false)
unfolding Table.is_duplicate
not-is_duplicate n p e = ground arith

-- The write of `add`, with a new health record where there is none.
upsert-Consistent :
    (n : ExitNode) (p : ExitPool)
    → Table.is_duplicate n p ≡ false
    → IsConsistent p
    → IsConsistent (
        Table.with_health n.id
          (health_of n.id p)
          (record p { nodes = insert text_dec n.id n p.nodes }))
upsert-Consistent n p e c = elim (Option-cases (health_of n.id p)) [
  | inl d ↦
      rw (d, Table.with_health)
        (insert-Consistent n (not-is_duplicate n p e) c (insert text_dec n.id fresh_health p.health)
          (λ id. has-insert text_dec n.id id fresh_health p.health))
  | inr (h, d) ↦
      rw (d, Table.with_health)
        (insert-Consistent n (not-is_duplicate n p e) c p.health
          (λ id. ground (arith, has_of_lookup text_dec n.id p.health d)))
]

add-Consistent : (n : ExitNode) (p : ExitPool) → IsConsistent p → IsConsistent (Table.add n p).0
unfolding Table.add
add-Consistent n p c = elim (Bool-cases (Table.is_duplicate n p)) [
  | inl e ↦ rw (e, Table.add) c
  | inr e ↦ rw (e, Table.add) (upsert-Consistent n p e c)
]

remove-Consistent_lem :
    (id : Text) (p : ExitPool) → IsConsistent p → IsConsistent (Table.remove id p)
unfolding Table.remove
remove-Consistent_lem id p c = remove-Consistent id c

pin-Consistent_lem : (id : Text) (p : ExitPool) → IsConsistent p → IsConsistent (Table.pin id p).0
unfolding Table.pin Table.has_exit
pin-Consistent_lem id p c = elim (Bool-cases (has text_dec id p.nodes)) [
  | inl e ↦ rw (e, Table.pin) (pin-Consistent id (inr e) c)
  | inr e ↦ rw (e, Table.pin) c
]

pub take_probe_lock-Consistent :
    (id : Text) (p : ExitPool) → IsConsistent p → IsConsistent (Table.take_probe_lock id p).0
unfolding Table.take_probe_lock
take_probe_lock-Consistent id p c = elim (Option-cases (health_of id p)) [
  | inl e ↦ rw (e, Table.take_probe_lock) c
  | inr (h, e) ↦ ground (arith, touch-Consistent id h (record h { inflight = true }) e c)
]

mark_ok-Consistent :
    (now : ℕ) (id : Text) (model : Option Text) (p : ExitPool)
    → IsConsistent p
    → IsConsistent (Signals.mark_ok now id model p)
unfolding Signals.mark_ok
mark_ok-Consistent now id none p c = update_health-Consistent id (Signals.healed now) p c
mark_ok-Consistent now id (some model) p c = update_health-Consistent id (Signals.healed now) p c

strike-Consistent :
    (id : Text) (n : ExitNode) (h : ExitHealth) (p : ExitPool)
    → health_of id p ≡ some h
    → IsConsistent p
    → IsConsistent (Signals.strike id n h p).0
unfolding Signals.strike Table.remove
strike-Consistent id n h p e c =
    let hit = touch-Consistent id h (Signals.struck h) e c in
    ground (arith, hit, remove-Consistent id hit)

mark_dead_strike-Consistent :
    (id : Text) (p : ExitPool) → IsConsistent p → IsConsistent (Signals.mark_dead_strike id p).0
unfolding Signals.mark_dead_strike
mark_dead_strike-Consistent id p c = elim (Option-cases (node_of id p)) [
  | inl e ↦ rw (e, Signals.mark_dead_strike) c
  | inr (n, e) ↦ elim (Option-cases (health_of id p)) [
    | inl d ↦ rw (e, d, Signals.mark_dead_strike) c
    | inr (h, d) ↦ rw (e, d, Signals.mark_dead_strike) (strike-Consistent id n h p d c)
  ]
]

apply_passive-Consistent :
    (now : ℕ) (id : Text) (kind : PassiveKind) (model : Text) (blocked : Bool) (p : ExitPool)
    → IsConsistent p
    → IsConsistent (Passive.apply_passive now id kind model blocked p)
unfolding Passive.apply_passive Signals.mark_model_banned Signals.mark_model_signal
apply_passive-Consistent now id PassiveKind.ok model blocked p c =
    mark_ok-Consistent now id (some model) p c
apply_passive-Consistent now id PassiveKind.limited model blocked p c =
    mark_limited-Consistent now id p c
apply_passive-Consistent now id PassiveKind.refused model true p c = c
apply_passive-Consistent now id PassiveKind.refused model false p c = c
apply_passive-Consistent now id PassiveKind.dead model blocked p c = c
apply_passive-Consistent now id PassiveKind.transport model blocked p c = c

record_passive-Consistent :
    (now : ℕ) (id : Text) (status : ℕ) (model : Text) (blocked : Bool) (p : ExitPool)
    → IsConsistent p
    → IsConsistent (Passive.record_passive now id status model blocked p).0
unfolding Passive.record_passive
record_passive-Consistent now id status model blocked p c =
    elim (Bool-cases (Table.has_exit id p)) [
      | inl e ↦
          rw (e, Passive.record_passive)
            (apply_passive-Consistent now id (Passive.passive_kind status) model blocked p c)
      | inr e ↦ rw (e, Passive.record_passive) c
    ]

record_passive_transport-Consistent :
    (id : Text) (p : ExitPool)
    → IsConsistent p
    → IsConsistent (Passive.record_passive_transport id p)
unfolding Passive.record_passive_transport
record_passive_transport-Consistent id p c = elim (Bool-cases (Table.has_exit id p)) [
  | inl e ↦ rw (e, Passive.record_passive_transport) (mark_dead_strike-Consistent id p c)
  | inr e ↦ rw (e, Passive.record_passive_transport) c
]

mark_stream_failure-Consistent :
    (now : ℕ) (id : Text) (kind : StreamFailure) (model : Option Text) (p : ExitPool)
    → IsConsistent p
    → IsConsistent (Passive.mark_stream_failure now id kind model p)
unfolding Passive.mark_stream_failure
mark_stream_failure-Consistent now id StreamFailure.by_429 m p c =
    mark_limited-Consistent now id p c
mark_stream_failure-Consistent now id StreamFailure.by_model none p c = c
mark_stream_failure-Consistent now id StreamFailure.by_model (some m) p c = c

-- The rotation pool chooses among the exits of the table.
remember-Consistent :
    (session : Text) (ids : List Text) (p : ExitPool)
    → All (λ id. has text_dec id p.nodes ≡ true) ids
    → IsConsistent p
    → IsConsistent (Selection.remember session ids p).0
remember-Consistent session [] p h c = c
remember-Consistent session (id ∷ ids) p h c = stick-Consistent session id h.0 c

pick-Consistent :
    (coin : Text → Text → Bool) (now : ℕ) (session model : Text) (p : ExitPool)
    → IsConsistent p
    → IsConsistent (Selection.pick coin now session model p).0
unfolding Selection.pick Selection.rotate_pick Selection.usable_exits
pick-Consistent coin now session model p c =
    let ids = Selection.usable_exits now model p in
    let listed =
      sort-All coin p (λ id. has text_dec id p.nodes ≡ true) ids
        (All-keep (λ id. has text_dec id p.nodes ≡ true) (λ id. Selection.is_usable now id model p)
          (keys p.nodes) (keys-All-has p.nodes)) in
    let chosen = remember-Consistent session (Selection.sort coin p ids) p listed c in
    elim (Bool-cases (Selection.pinned_wins now model p)) [
      | inl e ↦ rw (e, Selection.pick) c
      | inr e ↦ elim (Option-cases (Selection.sticky_usable now session model p)) [
        | inl d ↦ rw (e, d, Selection.pick) chosen
        | inr (last, d) ↦ rw (e, d, Selection.pick) c
      ]
    ]

evict_worst_free-Consistent :
    (p : ExitPool) → IsConsistent p → IsConsistent (Capacity.evict_worst_free p).0
unfolding Capacity.evict_worst_free
evict_worst_free-Consistent p c = elim (Option-cases (Capacity.worst_free none (values p.nodes))) [
  | inl e ↦ rw (e, Capacity.evict_worst_free) c
  | inr (n, e) ↦ rw (e, Capacity.evict_worst_free) (remove-Consistent_lem n.id p c)
]

-- Every method call keeps the table consistent: nodes under their ids, one health record each,
-- sessions and pin on exits of the table, one address to an exit IP.
pub step-Consistent :
    (coin : Text → Text → Bool) (now : ℕ) (call : Call) (p : ExitPool)
    → IsConsistent p
    → IsConsistent (step coin now call p)
unfolding step Table.set_target_size Table.mark_dead Table.unpin Table.release_probe_lock
    Passive.reroute_session Signals.mark_model_banned Signals.mark_model_signal
step-Consistent coin now (sets_target n) p c = c
step-Consistent coin now (adds n) p c = add-Consistent n p c
step-Consistent coin now (removes id) p c = remove-Consistent_lem id p c
step-Consistent coin now (marks_dead id) p c = update_health-Consistent id _ p c
step-Consistent coin now (pins id) p c = pin-Consistent_lem id p c
step-Consistent coin now unpins p c = pin-Consistent [] (inl refl) c
step-Consistent coin now (locks id) p c = take_probe_lock-Consistent id p c
step-Consistent coin now (unlocks id) p c = update_health-Consistent id _ p c
step-Consistent coin now (marks_ok id model) p c = mark_ok-Consistent now id model p c
step-Consistent coin now (marks_limited id) p c = mark_limited-Consistent now id p c
step-Consistent coin now (bans id model) p c = c
step-Consistent coin now (signals id model) p c = c
step-Consistent coin now (strikes id) p c = mark_dead_strike-Consistent id p c
step-Consistent coin now (stream_fails id kind model) p c =
    mark_stream_failure-Consistent now id kind model p c
step-Consistent coin now (records id status model blocked) p c =
    record_passive-Consistent now id status model blocked p c
step-Consistent coin now (records_transport id) p c = record_passive_transport-Consistent id p c
step-Consistent coin now (reroutes session) p c = unstick-Consistent session c
step-Consistent coin now (picks session model) p c = pick-Consistent coin now session model p c
step-Consistent coin now evicts p c = evict_worst_free-Consistent p c

run-Consistent :
    (coin : Text → Text → Bool) (calls : List (ℕ × Call)) (p : ExitPool)
    → IsConsistent p
    → IsConsistent (run coin calls p)
unfolding run
run-Consistent coin [] p c = c
run-Consistent coin ((now, call) ∷ calls) p c =
    run-Consistent coin calls (step coin now call p) (step-Consistent coin now call p c)

-- A pool that starts empty is consistent after every sequence of method calls at any clock
-- readings: each node stands under its own id and has a health record, sessions and pin name
-- exits of the table, and no exit IP but the unknown one belongs to two addresses.
pub run-new_pool-Consistent :
    (coin : Text → Text → Bool) (options : PoolOptions) (calls : List (ℕ × Call))
    → IsConsistent (run coin calls (new_pool options))
run-new_pool-Consistent coin options calls =
    run-Consistent coin calls (new_pool options) (new_pool-Consistent options)
