-- ===== src/Pool/Invariant.antt =====
-- packages/plugin/src/pool/pool.ts: what holds of the exit table between two calls.
use dsh_opencode.Base.{
  ◌≡◌, refl, ◌≢◌, ◌⊎◌, ite, true, false, List, [], ◌∷◌, Text, some, arith, if◌then◌else◌, text_dec,
  same, exists, All,
}
use dsh_opencode.Base.Maps.{
  Unique, Unique-insert, Unique-delete, lookup, insert, delete, drop_if, has, lookup-insert,
  lookup-delete, has-insert, has-delete, All-lookup, All-insert, All-delete, has_of_lookup,
}
use dsh_opencode.Pool.Types.{ExitNode, ExitHealth, ExitPool}
use dsh_opencode.Pool.Table.{has_exit_ip}

-- Every node stands under its own id, once, and has a health record, and conversely; sessions stick to,
-- and the pin names, exits of the table; no exit IP has two addresses.
pub record Consistent (nodes : List (Text × ExitNode)) (health : List (Text × ExitHealth))
    (sessions : List (Text × Text)) (pinned : Text) : Type 0 where
  pub unique : Unique text_dec nodes
  pub keyed : All (λ e. e.1.id ≡ e.0) nodes
  pub with_health : (id : Text) → has text_dec id health ≡ has text_dec id nodes
  pub sticky : All (λ e. has text_dec e.1 nodes ≡ true) sessions
  pub pin_known : (pinned ≡ []) ⊎ (has text_dec pinned nodes ≡ true)
  pub distinct :
      (i j : Text) (m n : ExitNode)
      → lookup text_dec i nodes ≡ some m
      → lookup text_dec j nodes ≡ some n
      → m.exit_ip ≡ n.exit_ip
      → m.exit_ip ≢ []
      → i ≡ j

abbrev pub IsConsistent : ExitPool → Type 0
IsConsistent p = Consistent p.nodes p.health p.session_exit p.pinned_id

module _ {nodes : List (Text × ExitNode)} {health : List (Text × ExitHealth)}
    {sessions : List (Text × Text)} {pinned : Text} where
  -- A health record that is there is written anew.
  pub touch-Consistent :
      (id : Text) (h h' : ExitHealth)
      → lookup text_dec id health ≡ some h
      → Consistent nodes health sessions pinned
      → Consistent nodes (insert text_dec id h' health) sessions pinned
  touch-Consistent id h h' e c = record {
    unique = c.unique;
    keyed = c.keyed;
    with_health = λ j. ground (
      arith,
      has-insert text_dec id j h' health,
      has_of_lookup text_dec id health e,
      c.with_health j,
    );
    sticky = c.sticky;
    pin_known = c.pin_known;
    distinct = c.distinct;
  }

  pub stick-Consistent :
      (session id : Text)
      → has text_dec id nodes ≡ true
      → Consistent nodes health sessions pinned
      → Consistent nodes health (insert text_dec session id sessions) pinned
  stick-Consistent session id h c = record {
    unique = c.unique;
    keyed = c.keyed;
    with_health = c.with_health;
    sticky =
        All-insert text_dec (λ e. has text_dec e.1 nodes ≡ true) session id sessions c.sticky h;
    pin_known = c.pin_known;
    distinct = c.distinct;
  }

  pub unstick-Consistent :
      (session : Text)
      → Consistent nodes health sessions pinned
      → Consistent nodes health (delete text_dec session sessions) pinned
  unstick-Consistent session c = record {
    unique = c.unique;
    keyed = c.keyed;
    with_health = c.with_health;
    sticky = All-delete text_dec (λ e. has text_dec e.1 nodes ≡ true) session sessions c.sticky;
    pin_known = c.pin_known;
    distinct = c.distinct;
  }

  pub pin-Consistent :
      (id : Text)
      → (id ≡ []) ⊎ (has text_dec id nodes ≡ true)
      → Consistent nodes health sessions pinned
      → Consistent nodes health sessions id
  pin-Consistent id h c = record {
    unique = c.unique;
    keyed = c.keyed;
    with_health = c.with_health;
    sticky = c.sticky;
    pin_known = h;
    distinct = c.distinct;
  }

-- The scan of `#hasExitIP` misses no node that a lookup finds.
pub has_exit_ip_sound :
    (ip except j : Text) (nodes : List (Text × ExitNode)) (n : ExitNode)
    → has_exit_ip ip except nodes ≡ false
    → lookup text_dec j nodes ≡ some n
    → n.exit_ip ≡ ip
    → n.id ≡ except
unfolding has_exit_ip exists lookup
has_exit_ip_sound ip except j [] n h e q = cc
has_exit_ip_sound ip except j ((k, m) ∷ nodes) n h e q = elim (text_dec k j) [
  | yes here ↦ ground arith
  | no there ↦ has_exit_ip_sound ip except j nodes n (ground arith) (ground arith) q
]

module _ (n : ExitNode) {nodes : List (Text × ExitNode)} {health : List (Text × ExitHealth)}
    {sessions : List (Text × Text)} {pinned : Text}
    (fresh : (n.exit_ip ≡ []) ⊎ (has_exit_ip n.exit_ip n.id nodes ≡ false))
    (c : Consistent nodes health sessions pinned) where
  distinct_from_new :
      (j : Text) (m : ExitNode)
      → lookup text_dec j nodes ≡ some m
      → m.exit_ip ≡ n.exit_ip
      → n.exit_ip ≢ []
      → n.id ≡ j
  distinct_from_new j m e q h = ground (
    arith,
    has_exit_ip_sound n.exit_ip n.id j nodes m,
    All-lookup text_dec (λ e. e.1.id ≡ e.0) j nodes c.keyed e,
  )

  distinct-insert :
      (i j : Text) (m k : ExitNode)
      → lookup text_dec i (insert text_dec n.id n nodes) ≡ some m
      → lookup text_dec j (insert text_dec n.id n nodes) ≡ some k
      → m.exit_ip ≡ k.exit_ip
      → m.exit_ip ≢ []
      → i ≡ j
  distinct-insert i j m k ei ej q h = ground (
    arith,
    lookup-insert text_dec n.id i n nodes,
    lookup-insert text_dec n.id j n nodes,
    distinct_from_new i m,
    distinct_from_new j k,
    c.distinct i j m k,
  )

  -- A node that is no duplicate is written under its id, with a health record.
  pub insert-Consistent :
      (health' : List (Text × ExitHealth))
      → ((id : Text)
          → has text_dec id health' ≡ ite (text_dec n.id id) true (has text_dec id health))
      → Consistent (insert text_dec n.id n nodes) health' sessions pinned
  insert-Consistent health' hh = record {
    unique = Unique-insert text_dec n.id n nodes c.unique;
    keyed = All-insert text_dec (λ e. e.1.id ≡ e.0) n.id n nodes c.keyed refl;
    with_health =
        λ id. ground (arith, hh id, has-insert text_dec n.id id n nodes, c.with_health id);
    sticky = still sessions c.sticky;
    pin_known = ground (arith, c.pin_known, has-insert text_dec n.id pinned n nodes);
    distinct = distinct-insert;
  }
    where
      still :
          (l : List (Text × Text))
          → All (λ e. has text_dec e.1 nodes ≡ true) l
          → All (λ e. has text_dec e.1 (insert text_dec n.id n nodes) ≡ true) l
      still [] h = tt
      still ((k, v) ∷ l) h = (ground (arith, has-insert text_dec n.id v n nodes, h.0), still l h.1)

-- The sessions that are left after the exit is dropped stick to other exits.
still_sticky :
    (id : Text) (nodes : List (Text × ExitNode)) (l : List (Text × Text))
    → All (λ e. has text_dec e.1 nodes ≡ true) l
    → All
        (λ e. has text_dec e.1 (delete text_dec id nodes) ≡ true)
        (drop_if (λ _ exit_id. same exit_id id) l)
unfolding drop_if
still_sticky id nodes [] h = tt
still_sticky id nodes ((k, v) ∷ l) h =
    ground (arith, has-delete text_dec id v nodes, h.0, still_sticky id nodes l h.1)

pub remove-Consistent :
    (id : Text) {nodes : List (Text × ExitNode)} {health : List (Text × ExitHealth)}
    {sessions : List (Text × Text)} {pinned : Text}
    → Consistent nodes health sessions pinned
    → Consistent
        (delete text_dec id nodes)
        (delete text_dec id health)
        (drop_if (λ _ exit_id. same exit_id id) sessions)
        (if same pinned id then [] else pinned)
remove-Consistent id {nodes} {health} {sessions} {pinned} c = record {
  unique = Unique-delete text_dec id nodes c.unique;
  keyed = All-delete text_dec (λ e. e.1.id ≡ e.0) id nodes c.keyed;
  with_health = λ j.
      ground
        (arith, has-delete text_dec id j nodes, has-delete text_dec id j health, c.with_health j);
  sticky = still_sticky id nodes sessions c.sticky;
  pin_known = ground (arith, c.pin_known, has-delete text_dec id pinned nodes);
  distinct = λ i j m n ei ej.
      c.distinct i j m n (ground (arith, lookup-delete text_dec id i nodes, ei))
        (ground (arith, lookup-delete text_dec id j nodes, ej));
}
