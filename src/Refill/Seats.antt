-- ===== src/Refill/Seats.antt =====
-- packages/plugin/src/pool/refill.ts: how many seats a round claims, and a seat that is lost.
use dsh_opencode.Base.{
  ℕ, ◌+◌, ◌≤◌, ◌<◌, ◌≡◌, refl, Bool, true, false, List, [], ◌∷◌, Option, none, some, arith, inl,
  inr,
}
use dsh_opencode.Pool.Types.{ExitPool, ExitNode}
use dsh_opencode.Pool.Table.{add, is_duplicate}
use dsh_opencode.Pool.Capacity.{admission_quota, evict_worst_free, is_free_full, free_count}
use dsh_opencode.Pool.Invariant.{IsConsistent}
use dsh_opencode.Pool.Levels.{evict_worst_free_lem}
use dsh_opencode.Refill.{
  Round, Turn, Verdict, claims, settles, others, new_round, claim, admit, added, judged, make_room,
  settle_verdict, turn, turns,
}

abbrev Within : Round → Type 0
Within r = r.claimed ≤ r.quota

admit-frame :
    (now : ℕ) (node : ExitNode) (limited : Bool) (r : Round)
    → ((admit now node limited r).claimed ≡ r.claimed)
      × ((admit now node limited r).quota ≡ r.quota)
unfolding admit
admit-frame now node limited r = go (add node (make_room r.pool)) limited
  where
    go :
        (a : ExitPool × Bool) (limited : Bool)
        → ((added now node limited r a).claimed ≡ r.claimed)
          × ((added now node limited r a).quota ≡ r.quota)
    go (p, false) limited = (refl, refl)
    go (p, true) true = (refl, refl)
    go (p, true) false = (refl, refl)

settle_verdict-frame :
    (now : ℕ) (v : Option Verdict) (r : Round)
    → ((settle_verdict now v r).claimed ≡ r.claimed) × ((settle_verdict now v r).quota ≡ r.quota)
unfolding settle_verdict
settle_verdict-frame now none r = (refl, refl)
settle_verdict-frame now (some v) r =
    elim v.node
      as (λ n. ((judged now v n r).claimed ≡ r.claimed) × ((judged now v n r).quota ≡ r.quota)) [
        | none ↦ (refl, refl)
        | some node ↦ ground (arith, admit-frame now node v.limited r)
      ]

turn-Within :
    (now : ℕ) (t : Turn) (r : Round)
    → Within r
    → Within (turn now t r) × ((turn now t r).quota ≡ r.quota)
unfolding turn claim
turn-Within now claims r h = ground arith
turn-Within now (settles v) r h = ground (arith, settle_verdict-frame now v r)
turn-Within now (others f) r h = (h, refl)

turns-Within : (ts : List (ℕ × Turn)) (r : Round) → Within r → (turns ts r).claimed ≤ r.quota
unfolding turns
turns-Within [] r h = h
turns-Within ((now, t) ∷ ts) r h =
    let (kept, same_quota) = turn-Within now t r h in
    omega (arith, turns-Within ts (turn now t r) kept, same_quota)

-- A round claims at most as many seats as the quota that it starts with, and at most its limit,
-- however its tasks, their verdicts and other uses of the pool are interleaved.
pub turns-new_round :
    (start max_per_round : ℕ) (pool : ExitPool) (ts : List (ℕ × Turn))
    → let r = turns ts (new_round start max_per_round pool) in
      (r.claimed ≤ admission_quota start pool) × (r.claimed ≤ max_per_round)
unfolding new_round
turns-new_round start max_per_round pool ts =
    let h = turns-Within ts (new_round start max_per_round pool) (omega arith) in
    (omega (arith, h), omega (arith, h))

-- On a full pool, an admitted candidate whose exit IP belongs to an exit that is not the evicted
-- one is refused after the eviction: the round admits nothing and the pool has a free exit fewer.
pub admit-lost :
    (now : ℕ) (node : ExitNode) (limited : Bool) (r : Round)
    → IsConsistent r.pool
    → is_free_full r.pool ≡ true
    → 0 < free_count r.pool
    → is_duplicate node (evict_worst_free r.pool).0 ≡ true
    → let after = admit now node limited r in
      (free_count after.pool + 1 ≡ free_count r.pool)
      × (after.admitted ≡ r.admitted)
      × (after.admitted_limited ≡ r.admitted_limited)
unfolding admit make_room add
admit-lost now node limited r c full some_free dup = elim (evict_worst_free_lem r.pool c) [
  | inl (e, nothing) ↦ ground (arith, nothing)
  | inr (w, e, member, free, worst, fewer) ↦ ground (arith, full, dup, fewer)
]
