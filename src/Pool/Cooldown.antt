-- ===== src/Pool/Cooldown.antt =====
-- packages/plugin/src/pool/pool.ts: the exit-level cooldown of `markLimited`.
use dsh_opencode.Base.{
  ℕ, ◌+◌, ◌-◌, ◌*◌, ◌^◌, ◌≤◌, min, ◌≡◌, refl, ◌≢◌, true, ◌&&◌, List, [], ◌∷◌, length, Text, some,
  arith, leb, text_dec,
}
use dsh_opencode.Base.Maps.{insert, lookup-insert_self, lookup-insert_ne}
use dsh_opencode.Pool.Types.{ExitPool, ExitHealth, health_of, ban_of, ban_key, fresh_ban}
use dsh_opencode.Pool.Keys.{ban_key_tail}
use native.Mathlib.Nat.{one-le-pow, pow-le-pow_right}
use dsh_opencode.Pool.Signals.{mark_limited, backoff, cooled, mark_ok, healed}
use dsh_opencode.Pool.Selection.{is_usable, ban_allows}

backoff-le_max : (p : ExitPool) (n : ℕ) → backoff p n ≤ p.cooldown_max
unfolding backoff
backoff-le_max p n = omega arith

base-le-mul_pow : (a n : ℕ) → a ≤ a * 2 ^ n
base-le-mul_pow a n = let h : 1 ≤ 2 ^ n = one-le-pow n 2 (omega arith) in grind arith

min-le-backoff : (p : ExitPool) (n : ℕ) → min p.cooldown_base p.cooldown_max ≤ backoff p n
unfolding backoff
min-le-backoff p n = omega (arith, base-le-mul_pow p.cooldown_base (n - 1))

-- A longer streak of 429 answers never cools for less time.
pub backoff_mono : (p : ExitPool) (m n : ℕ) → m ≤ n → backoff p m ≤ backoff p n
unfolding backoff
backoff_mono p m n h =
    let le : 2 ^ (m - 1) ≤ 2 ^ (n - 1) = pow-le-pow_right (omega arith) (omega arith) in
    let scaled : p.cooldown_base * 2 ^ (m - 1) ≤ p.cooldown_base * 2 ^ (n - 1) = grind arith in
    omega arith

-- A 429 on an exit of the table returns a deadline that is at least the smaller of the base and
-- the ceiling away, and at most the ceiling; until then the exit is usable for no model, and from
-- then on for exactly the models whose pairing is not banned. Its streak of 429 answers grows by
-- one, and its record has the deadline. The nodes, the bans, the sessions, the counters, the pin,
-- the settings and the health records of all other exits stay as they are, and so does for what
-- these are usable.
pub mark_limited_lem :
    (now : ℕ) (id : Text) (p : ExitPool) {h : ExitHealth}
    → health_of id p ≡ some h
    → let (q, deadline) = mark_limited now id p in
      (now + min p.cooldown_base p.cooldown_max ≤ deadline)
      × (deadline ≤ now + p.cooldown_max)
      × ((t : ℕ) (model : Text)
          → is_usable t id model q ≡ leb deadline t && ban_allows (ban_of id model p))
      × ((k : ExitHealth) × ((health_of id q ≡ some k)
            × (k.consecutive_limited ≡ h.consecutive_limited + 1)
            × (k.cooldown_until ≡ deadline)))
      × (q ≡ record p { health = q.health })
      × ((j : Text) → id ≢ j → health_of j q ≡ health_of j p)
      × ((t : ℕ) (j model : Text) → id ≢ j → is_usable t j model q ≡ is_usable t j model p)
unfolding mark_limited is_usable
mark_limited_lem now id p {h} e = (
  ground (arith, min-le-backoff p (h.consecutive_limited + 1)),
  ground (arith, backoff-le_max p (h.consecutive_limited + 1)),
  λ t model. ground (arith, lookup-insert_self text_dec id (cooled p now h) p.health),
  (
    cooled p now h,
    (ground (arith, lookup-insert_self text_dec id (cooled p now h) p.health), refl, ground arith),
  ),
  rw (e, mark_limited),
  λ j ne. ground (arith, lookup-insert_ne text_dec id j (cooled p now h) p.health ne),
  λ t j model ne. ground (arith, lookup-insert_ne text_dec id j (cooled p now h) p.health ne),
)

-- `n` answers 429 in a row, at the times listed.
unfoldable pub limited_times : List ℕ → Text → ExitPool → ExitPool
unfolding mark_limited
limited_times [] id p = p
limited_times (now ∷ ts) id p = limited_times ts id (mark_limited now id p).0

mark_limited-eq :
    (now : ℕ) (id : Text) (p : ExitPool) {h : ExitHealth}
    → health_of id p ≡ some h
    → mark_limited now id p ≡ (
      record p { health = insert text_dec id (cooled p now h) p.health },
      now + backoff p (h.consecutive_limited + 1),
    )
unfolding mark_limited
mark_limited-eq now id p e = rw (e, mark_limited)

streak :
    (ts : List ℕ) (id : Text) (p : ExitPool) {h : ExitHealth}
    → health_of id p ≡ some h
    → (k : ExitHealth) × (health_of id (limited_times ts id p) ≡ some k)
      × (k.consecutive_limited ≡ h.consecutive_limited + length ts)
      × ((limited_times ts id p).cooldown_base ≡ p.cooldown_base)
      × ((limited_times ts id p).cooldown_max ≡ p.cooldown_max)
unfolding limited_times
streak [] id p {h} e = (h, e, omega arith, refl, refl)
streak (now ∷ ts) id p {h} e =
    let q : ExitPool = record p { health = insert text_dec id (cooled p now h) p.health } in
    let here : health_of id q ≡ some (cooled p now h) =
      lookup-insert_self text_dec id (cooled p now h) p.health in
    let (k, found, length_k, same_base, same_max) = streak ts id q here in
    rw (limited_times, mark_limited-eq now id p e) (k, found, omega arith, same_base, same_max)

-- The cooldown doubles: after a healthy exit has answered 429 once for each listed time, one more
-- such answer cools it for the base times two to their number, or for the ceiling if that is less.
pub mark_limited_streak :
    (ts : List ℕ) (now : ℕ) (id : Text) (p : ExitPool) {h : ExitHealth}
    → health_of id p ≡ some h
    → h.consecutive_limited ≡ 0
    → (mark_limited now id (limited_times ts id p)).1
      ≡ now + min (p.cooldown_base * 2 ^ length ts) p.cooldown_max
unfolding backoff
mark_limited_streak ts now id p {h} e z =
    let (k, found, length_k, same_base, same_max) = streak ts id p e in
    let exponent : k.consecutive_limited + 1 - 1 ≡ length ts = omega arith in
    rw (mark_limited-eq now id (limited_times ts id p) found, same_base, same_max, exponent)

-- A success ends every cooldown and death of the exit, and lifts the ban of the model that it
-- was for: the exit is usable for that model at once, and for any other as its own ban says.
pub mark_ok_lem :
    (now : ℕ) (id model : Text) (p : ExitPool) {h : ExitHealth}
    → health_of id p ≡ some h
    → ((t : ℕ) → is_usable t id model (mark_ok now id (some model) p) ≡ true)
      × ((t : ℕ) (other : Text)
          → model ≢ other
          → is_usable t id other (mark_ok now id (some model) p) ≡ ban_allows (ban_of id other p))
unfolding mark_ok is_usable
mark_ok_lem now id model p {h} e = (
  λ t. ground (
    arith,
    lookup-insert_self text_dec id (healed now h) p.health,
    lookup-insert_self text_dec (ban_key id model) fresh_ban p.bans,
  ),
  λ t other ne. ground (
    arith,
    lookup-insert_self text_dec id (healed now h) p.health,
    lookup-insert_ne text_dec (ban_key id model) (ban_key id other) fresh_ban p.bans
        (λ q. ne (ban_key_tail id model other q)),
  ),
)
