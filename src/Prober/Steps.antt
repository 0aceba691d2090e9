-- ===== src/Prober/Steps.antt =====
-- packages/plugin/src/pool/prober.ts: every call and every end of a task keeps the scheduler safe.
use dsh_opencode.Base.{
  ℕ, suc, ◌+◌, ◌≡◌, refl, sym, ap, subst, ◌∙◌, inl, inr, false, List, [], ◌∷◌, ◌++◌, Text, Option,
  arith, length, length-append, text_dec, Bool-cases, Option-cases, All,
}
use dsh_opencode.Base.Maps.{lookup-insert}
use dsh_opencode.Pool.Types.{ExitPool, health_of}
use dsh_opencode.Pool.Table.{release_probe_lock, update_health}
use dsh_opencode.Pool.Invariant.{IsConsistent}
use dsh_opencode.Pool.Preserve.{update_health-Consistent}
use dsh_opencode.Prober.Queue.{
  Slot, Prober, idle, enqueue, set_max_concurrent, new_prober, drained, settle, Step, enqueues,
  resizes, waits, settles, Reach, here, next,
}
use dsh_opencode.Prober.Serial.{Absent, Locked, Serial, IsSafe, pump-IsSafe}

-- The tasks that are left when one of the list is taken out.
abbrev Apart : ExitPool → Slot → List Slot → Type 0
Apart pool s = All (λ t. s.exit_id ≡ t.exit_id → Absent pool t.exit_id)

All-out :
    (P : Slot → Type 0) (before after : List Slot) (s : Slot)
    → All P (before ++ (s ∷ after))
    → P s × All P (before ++ after)
All-out P [] after s h = h
All-out P (x ∷ before) after s h =
    let rest = All-out P before after s h.1 in (rest.0, (h.0, rest.1))

Serial-out :
    (pool : ExitPool) (before after : List Slot) (s : Slot)
    → Serial pool (before ++ (s ∷ after))
    → Serial pool (before ++ after) × Apart pool s (before ++ after)
Serial-out pool [] after s h = (h.1, h.0)
Serial-out pool (x ∷ before) after s h =
    let rest = Serial-out pool before after s h.1 in
    let out = All-out (λ t. x.exit_id ≡ t.exit_id → Absent pool t.exit_id) before after s h.0 in
    ((out.1, rest.0), ((λ e. subst (Absent pool) e (out.0 (sym e))), rest.1))

-- What the release of a lock leaves: the other locks, and who is absent.
release_others :
    (id j : Text) (pool : ExitPool)
    → (Absent pool j → Absent (release_probe_lock id pool) j)
      × ((id ≡ j → Absent pool j) → Locked pool j → Locked (release_probe_lock id pool) j)
unfolding release_probe_lock
release_others id j pool = elim (Option-cases (health_of id pool)) [
  | inl e ↦ rw (e, update_health) ((λ h. h), (λ _ l. l))
  | inr (h, e) ↦
      let at = lookup-insert text_dec id j (record h { inflight = false }) pool.health in
      rw (e, update_health) ((λ gone. ground (arith, at)), (λ apart l k f. ground (arith, at, l k)))
]

released :
    (id : Text) (pool : ExitPool) (s : Slot) (xs : List Slot)
    → s.exit_id ≡ id
    → Apart pool s xs
    → All (λ t. Locked pool t.exit_id) xs
    → All (λ t. Locked (release_probe_lock id pool) t.exit_id) xs
released id pool s [] e a l = tt
released id pool s (x ∷ xs) e a l =
    ((release_others id x.exit_id pool).1 (λ q. a.0 (e ∙ q)) l.0, released id pool s xs e a.1 l.1)

Serial-release :
    (id : Text) (pool : ExitPool) (xs : List Slot)
    → Serial pool xs
    → Serial (release_probe_lock id pool) xs
Serial-release id pool [] h = tt
Serial-release id pool (x ∷ xs) h = (go xs h.0, Serial-release id pool xs h.1)
  where
    go :
        (ys : List Slot)
        → All (λ t. x.exit_id ≡ t.exit_id → Absent pool t.exit_id) ys
        → All (λ t. x.exit_id ≡ t.exit_id → Absent (release_probe_lock id pool) t.exit_id) ys
    go [] k = tt
    go (y ∷ ys) k = ((λ e. (release_others id y.exit_id pool).0 (k.0 e)), go ys k.1)

release_probe_lock-Consistent :
    (id : Text) (pool : ExitPool) → IsConsistent pool → IsConsistent (release_probe_lock id pool)
unfolding release_probe_lock
release_probe_lock-Consistent id pool c = update_health-Consistent id _ pool c

Step-IsSafe : {c d : Prober} → Step c d → IsSafe c → IsSafe d
unfolding enqueue set_max_concurrent drained settle
Step-IsSafe {c} (enqueues s) h = pump-IsSafe _ (record {
  counted = record {
    flying = h.counted.flying;
    total = omega (arith, h.counted.total, length-append c.queue (s ∷ []));
  };
  consistent = h.consistent;
  locked = h.locked;
  serial = h.serial;
})
Step-IsSafe {c} (resizes n) h = pump-IsSafe _ (record {
  counted = record { flying = h.counted.flying; total = h.counted.total };
  consistent = h.consistent;
  locked = h.locked;
  serial = h.serial;
})
Step-IsSafe {c} (waits id) h = elim (Bool-cases (idle c)) [
  | inl e ↦ rw (e, drained) h
  | inr e ↦
      rw (e, drained)
        (record {
          counted = record { flying = h.counted.flying; total = h.counted.total };
          consistent = h.consistent;
          locked = h.locked;
          serial = h.serial;
        })
]
Step-IsSafe {c} (settles before after s e) h =
    let (serial, apart) = Serial-out c.pool before after s (rw e at h.serial) in
    let (own, locked) = All-out (λ t. Locked c.pool t.exit_id) before after s (rw e at h.locked) in
    let flying : c.in_flight ≡ length before + suc (length after) =
      h.counted.flying ∙ ap length e ∙ length-append before (s ∷ after) in
    pump-IsSafe _ (record {
      counted = record {
        flying = omega (arith, flying, length-append before after);
        total = omega (arith, flying, h.counted.total);
      };
      consistent = release_probe_lock-Consistent s.exit_id c.pool h.consistent;
      locked = released s.exit_id c.pool s (before ++ after) refl apart locked;
      serial = Serial-release s.exit_id c.pool (before ++ after) serial;
    })

-- A new scheduler over a consistent pool, driven by any calls and ends of tasks while nobody else
-- changes the pool: no two tasks in flight have one exit of the table, every exit of the table with
-- a task in flight is locked, and the tasks enqueued are those queued, in flight and completed.
pub Reach-IsSafe :
    (n : Option ℕ) (pool : ExitPool) {c : Prober}
    → IsConsistent pool
    → Reach (new_prober n pool) c
    → IsSafe c
unfolding new_prober
Reach-IsSafe n pool h here = record {
  counted = record { flying = refl; total = refl };
  consistent = h;
  locked = tt;
  serial = tt;
}
Reach-IsSafe n pool h (next r s) = Step-IsSafe s (Reach-IsSafe n pool h r)
