-- ===== src/Pool/Removal.antt =====
-- packages/plugin/src/pool/pool.ts: what `remove` and `markDeadStrike` leave behind.
use dsh_opencode.Base.{
  ℕ, ◌+◌, ◌≡◌, ◌≢◌, false, ◌&&◌, List, [], ◌∷◌, Text, none, some, arith, leb, text_dec, same,
  starts_with, if◌then◌else◌,
}
use dsh_opencode.Base.Maps.{
  lookup, insert, drop_if, lookup-insert_self, lookup-delete, lookup-drop_if, lookup-drop_if_gone,
}
use dsh_opencode.Pool.Types.{
  ExitPool, ExitNode, ExitHealth, node_of, health_of, ban_of, sticky_of, ban_prefix, ban_key,
}
use dsh_opencode.Pool.Keys.{NulFree, starts_with-ban_key, ban_key_own}
use dsh_opencode.Pool.Table.{remove}
use dsh_opencode.Pool.Signals.{mark_dead_strike, struck, is_free}
use dsh_opencode.Pool.Selection.{is_usable}

-- No session of the list sticks to the exit.
lookup-drop_value :
    (session id : Text) (m : List (Text × Text))
    → lookup text_dec session (drop_if (λ _ exit_id. same exit_id id) m) ≢ some id
unfolding lookup drop_if
lookup-drop_value session id [] e = cc
lookup-drop_value session id ((k, v) ∷ m) e = ground (arith, lookup-drop_value session id m)

-- After `remove` the pool has no node, no health record, no ban of any model, no sticky session
-- and no pin for the exit, which is usable for no model.
pub remove_forgets :
    (id : Text) (p : ExitPool)
    → id ≢ []
    → let q = remove id p in
      (node_of id q ≡ none)
      × (health_of id q ≡ none)
      × ((model : Text) → ban_of id model q ≡ none)
      × ((session : Text) → sticky_of session q ≢ some id)
      × (q.pinned_id ≢ id)
      × ((t : ℕ) (model : Text) → is_usable t id model q ≡ false)
unfolding remove is_usable
remove_forgets id p ne = (
  ground (arith, lookup-delete text_dec id id p.nodes),
  ground (arith, lookup-delete text_dec id id p.health),
  λ model.
      lookup-drop_if_gone text_dec (λ key _. starts_with (ban_prefix id) key) (ban_key id model)
        p.bans (λ _. ban_key_own id model),
  λ session. lookup-drop_value session id p.session_exit,
  ground arith,
  λ t model. ground (arith, lookup-delete text_dec id id p.health),
)

-- `remove` keeps the node, the health record and every ban of another exit, when neither id holds
-- the code unit 0 that joins the keys of the ban table.
pub remove_others :
    (id j : Text) (p : ExitPool)
    → NulFree id
    → NulFree j
    → id ≢ j
    → let q = remove id p in
      (node_of j q ≡ node_of j p)
      × (health_of j q ≡ health_of j p)
      × ((model : Text) → ban_of j model q ≡ ban_of j model p)
      × ((t : ℕ) (model : Text) → is_usable t j model q ≡ is_usable t j model p)
unfolding remove is_usable
remove_others id j p hi hj ne = (
  ground (arith, lookup-delete text_dec id j p.nodes),
  ground (arith, lookup-delete text_dec id j p.health),
  same_bans,
  λ t model. ground (arith, lookup-delete text_dec id j p.health, same_bans model),
)
  where
    same_bans :
        (model : Text)
        → lookup text_dec
            (ban_key j model)
            (drop_if (λ key _. starts_with (ban_prefix id) key) p.bans)
          ≡ ban_of j model p
    same_bans model =
        lookup-drop_if text_dec (λ key _. starts_with (ban_prefix id) key) (ban_key j model) p.bans
          (λ _. ground (arith, starts_with-ban_key id j model hi hj))

-- A dead strike on an exit of the table evicts it exactly if it is a free one and its strikes
-- reach the limit; otherwise it stays, dead, with one strike more and its probe lock free. Either
-- way it is usable for no model.
pub mark_dead_strike_lem :
    (id : Text) (p : ExitPool) {n : ExitNode} {h : ExitHealth}
    → node_of id p ≡ some n
    → health_of id p ≡ some h
    → let (q, evicted) = mark_dead_strike id p in
      (evicted ≡ is_free n.source && leb p.dead_evictions (h.dead_strikes + 1))
      × (health_of id q ≡ (if evicted then none else some (struck h)))
      × (node_of id q ≡ (if evicted then none else some n))
      × ((t : ℕ) (model : Text) → is_usable t id model q ≡ false)
unfolding mark_dead_strike remove is_usable
mark_dead_strike_lem id p {n} {h} en eh =
    let here = lookup-insert_self text_dec id (struck h) p.health in
    let gone = lookup-delete text_dec id id p.nodes in
    let gone_health = lookup-delete text_dec id id (insert text_dec id (struck h) p.health) in
    (
      ground arith,
      ground (arith, here, gone_health),
      ground (arith, gone),
      λ t model. ground (arith, here, gone_health),
    )
