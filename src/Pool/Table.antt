-- ===== src/Pool/Table.antt =====
-- packages/plugin/src/pool/pool.ts: table management, pinning and the probe lock.
use dsh_opencode.Base.{
  ℕ, max, Bool, true, false, not, ◌&&◌, List, [], Text, Option, none, some, if◌then◌else◌, text_dec,
  same, starts_with, exists,
}
use dsh_opencode.Base.Maps.{insert, delete, drop_if, has, values}
use dsh_opencode.Pool.Types.{
  ExitNode, ExitHealth, ExitState, ExitPool, ban_prefix, fresh_health, health_of,
}

unfoldable pub set_target_size : ℕ → ExitPool → ExitPool
set_target_size value p = record p { target_size = max 1 value }

unfoldable pub has_exit_ip : Text → Text → List (Text × ExitNode) → Bool
unfolding exists
has_exit_ip ip except nodes =
    exists (λ n. not (same n.id except) && same n.exit_ip ip) (values nodes)

-- The first test of `add`: the exit IP is known and belongs to another address.
unfoldable pub is_duplicate : ExitNode → ExitPool → Bool
is_duplicate n p = not (same n.exit_ip []) && has_exit_ip n.exit_ip n.id p.nodes

abbrev pub with_health : Text → Option ExitHealth → ExitPool → ExitPool
with_health id (some h) p = p
with_health id none p = record p { health = insert text_dec id fresh_health p.health }

unfoldable pub add : ExitNode → ExitPool → ExitPool × Bool
unfolding is_duplicate
add n p = if is_duplicate n p then (p, false) else (
  with_health n.id (health_of n.id p) (record p { nodes = insert text_dec n.id n p.nodes }),
  true,
)

unfoldable pub has_exit : Text → ExitPool → Bool
unfolding has
has_exit id p = has text_dec id p.nodes

unfoldable pub clear_pinned_if : Text → ExitPool → ExitPool
clear_pinned_if id p = record p { pinned_id = if same p.pinned_id id then [] else p.pinned_id }

unfoldable pub remove : Text → ExitPool → ExitPool
unfolding clear_pinned_if
remove id p = clear_pinned_if id (record p {
  nodes = delete text_dec id p.nodes;
  health = delete text_dec id p.health;
  passive = delete text_dec id p.passive;
  bans = drop_if (λ key _. starts_with (ban_prefix id) key) p.bans;
  session_exit = drop_if (λ _ exit_id. same exit_id id) p.session_exit;
})

-- An update of the health record of one exit, where it has one.
abbrev pub update_health : Text → (ExitHealth → ExitHealth) → ExitPool → ExitPool
update_health id f p = elim (health_of id p) [
  | none ↦ p
  | some h ↦ record p { health = insert text_dec id (f h) p.health }
]

unfoldable pub mark_dead : Text → ExitPool → ExitPool
mark_dead id = update_health id (λ h. record h { state = ExitState.dead; inflight = false })

unfoldable pub pin : Text → ExitPool → ExitPool × Bool
unfolding has_exit
pin id p = if has_exit id p then (record p { pinned_id = id }, true) else (p, false)

unfoldable pub unpin : ExitPool → ExitPool
unpin p = record p { pinned_id = [] }

unfoldable pub take_probe_lock : Text → ExitPool → ExitPool × Bool
take_probe_lock id p = elim (health_of id p) [
  | none ↦ (p, false)
  | some h ↦
      if h.inflight
      then (p, false)
      else (record p { health = insert text_dec id (record h { inflight = true }) p.health }, true)
]

unfoldable pub release_probe_lock : Text → ExitPool → ExitPool
release_probe_lock id = update_health id (λ h. record h { inflight = false })
