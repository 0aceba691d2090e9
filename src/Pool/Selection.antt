-- ===== src/Pool/Selection.antt =====
-- packages/plugin/src/pool/pool.ts: `isUsable` and `pick`. The outcomes of `Math.random()` are
-- the parameter `coin`, one for each pair of exits that the sort compares.
use dsh_opencode.Base.{
  ℕ, Bool, true, false, not, ◌&&◌, List, [], ◌∷◌, Text, Option, none, some, if◌then◌else◌, ltb,
  ◌==◌, text_dec, same, keep,
}
use dsh_opencode.Base.Maps.{insert, keys}
use dsh_opencode.Pool.Types.{ExitState, ExitPool, ModelBan, node_of, health_of, ban_of, sticky_of}
use dsh_opencode.Pool.Signals.{is_banned}

abbrev pub is_dead : ExitState → Bool
is_dead ExitState.dead = true
is_dead _ = false

abbrev pub ban_allows : Option ModelBan → Bool
ban_allows none = true
ban_allows (some ban) = not (is_banned ban.state)

unfoldable pub is_usable : ℕ → Text → Text → ExitPool → Bool
is_usable now id model p = elim (health_of id p) [
  | none ↦ false
  | some h ↦
      if is_dead h.state
      then false
      else if ltb now h.cooldown_until
      then false
      else ban_allows (ban_of id model p)
]

abbrev pub state_rank : ExitState → ℕ
state_rank ExitState.ok = 0
state_rank _ = 1

-- The sort key of an exit: state, 429 streak, latency. The source asserts that every listed exit
-- has a health record; the invariant of Pool.Invariant shows it.
pub record Rank : Type 0 where
  pub by_state : ℕ
  pub by_limited : ℕ
  pub by_latency : ℕ

unfoldable pub rank : ExitPool → Text → Rank
rank p id = elim (health_of id p) [
  | none ↦ record { by_state = 1; by_limited = 0; by_latency = 0 }
  | some h ↦ elim (node_of id p) [
    | none ↦ record {
      by_state = state_rank h.state;
      by_limited = h.consecutive_limited;
      by_latency = 0;
    }
    | some n ↦ record {
      by_state = state_rank h.state;
      by_limited = h.consecutive_limited;
      by_latency = n.latency_ms;
    }
  ]
]

-- Whether the comparator puts the left exit first.
unfoldable pub goes_first : Rank → Rank → Bool → Bool
goes_first l r coin =
    if not (l.by_state == r.by_state)
    then ltb l.by_state r.by_state
    else if not (l.by_limited == r.by_limited)
    then ltb l.by_limited r.by_limited
    else if not (l.by_latency == r.by_latency)
    then ltb l.by_latency r.by_latency
    else coin

module _ (coin : Text → Text → Bool) (p : ExitPool) where
  -- `Array.prototype.sort` as an insertion sort.
  unfoldable pub place : Text → List Text → List Text
  unfolding goes_first rank
  place x [] = x ∷ []
  place x (y ∷ ys) =
      let rest = place x ys in
      if goes_first (rank p x) (rank p y) (coin x y) then x ∷ y ∷ ys else y ∷ rest

  unfoldable pub sort : List Text → List Text
  unfolding place
  sort [] = []
  sort (x ∷ xs) = place x (sort xs)

unfoldable pub usable_exits : ℕ → Text → ExitPool → List Text
unfolding is_usable
usable_exits now model p = keep (λ id. is_usable now id model p) (keys p.nodes)

abbrev pub remember : Text → List Text → ExitPool → ExitPool × Option Text
remember session [] p = (p, none)
remember session (chosen ∷ _) p =
    (record p { session_exit = insert text_dec session chosen p.session_exit }, some chosen)

-- The rotation pool: the first of the sorted usable exits becomes sticky.
unfoldable pub rotate_pick :
    (Text → Text → Bool) → ℕ → Text → Text → ExitPool → ExitPool × Option Text
unfolding usable_exits sort
rotate_pick coin now session model p = remember session (sort coin p (usable_exits now model p)) p

unfoldable pub sticky_usable : ℕ → Text → Text → ExitPool → Option Text
unfolding is_usable
sticky_usable now session model p = elim (sticky_of session p) [
  | none ↦ none
  | some last ↦ if is_usable now last model p then some last else none
]

unfoldable pub pinned_wins : ℕ → Text → ExitPool → Bool
unfolding is_usable
pinned_wins now model p = not (same p.pinned_id []) && is_usable now p.pinned_id model p

unfoldable pub pick : (Text → Text → Bool) → ℕ → Text → Text → ExitPool → ExitPool × Option Text
unfolding pinned_wins sticky_usable rotate_pick
pick coin now session model p =
    if pinned_wins now model p
    then (p, some p.pinned_id)
    else elim (sticky_usable now session model p) [
      | some last ↦ (p, some last)
      | none ↦ rotate_pick coin now session model p
    ]
