-- ===== src/Rotate/Progress.antt =====
-- packages/plugin/src/pool/rotate.ts: a granted rotation leads to another exit.
use dsh_opencode.Base.{
  ℕ, ◌≤◌, ◌≡◌, refl, sym, ◌∙◌, ◌≢◌, Bool, true, false, List, [], ◌∷◌, Text, Option, none, some,
  arith, exists, All, text_dec,
}
use dsh_opencode.Base.Maps.{keys, lookup-delete, lookup-insert_self}
use dsh_opencode.Pool.Types.{
  ExitPool, ExitNode, sticky_of, or_else, ban_key, ban_of, ModelBan, BanState,
}
use dsh_opencode.Pool.Invariant.{IsConsistent}
use dsh_opencode.Pool.Choice.{pick-is_usable, pick-eq-none}
use dsh_opencode.Pool.Listing.{list, entries}
use dsh_opencode.Pool.Passive.{reroute_session, exit_of_session}
use dsh_opencode.Pool.Signals.{mark_model_banned, set_ban, is_banned}
use mathlib.Core.Bool.{false≢true}
use dsh_opencode.Pool.Selection.{is_usable, pick}
use dsh_opencode.Rotate.{decide, ban_sticky, any_usable}

none_usable :
    (now : ℕ) (model : Text) (m : List (Text × ExitNode)) (p : ExitPool)
    → All (λ e. e.1.id ≡ e.0) m
    → All (λ id. is_usable now id model p ≡ false) (keys m)
    → exists (λ e. is_usable now e.node.id model p) (entries m p) ≡ false
unfolding entries exists
none_usable now model [] p k h = refl
none_usable now model ((i, n) ∷ m) p k h =
    ground (arith, k.0, h.0, none_usable now model m p k.1 h.1)

ban_sticky-frame :
    (now : ℕ) (deterministic : Bool) (model session : Text) (p : ExitPool)
    → let q = ban_sticky now deterministic model session p in
      (q.nodes ≡ p.nodes)
      × (q.health ≡ p.health)
      × (q.session_exit ≡ p.session_exit)
      × (q.pinned_id ≡ p.pinned_id)
unfolding ban_sticky mark_model_banned
ban_sticky-frame now deterministic model session p = ground arith

decide-eq-true :
    (max_attempts : Option ℕ) (now : ℕ) (model session : Text) (attempt : ℕ) (deterministic : Bool)
    (p : ExitPool)
    → (decide max_attempts now model session attempt deterministic p).1 ≡ true
    → let q = ban_sticky now deterministic model session p in
      (attempt ≤ or_else max_attempts 3)
      × (any_usable now model q ≡ true)
      × ((decide max_attempts now model session attempt deterministic p).0
          ≡ reroute_session session q)
unfolding decide
decide-eq-true max_attempts now model session attempt deterministic p h =
    (ground arith, ground arith, ground arith)

reroute-sticky :
    (session : Text) (q : ExitPool) → sticky_of session (reroute_session session q) ≡ none
unfolding reroute_session
reroute-sticky session q = ground (arith, lookup-delete text_dec session session q.session_exit)

reroute-pick :
    (coin : Text → Text → Bool) (now : ℕ) (model session : Text) (deterministic : Bool)
    (p : ExitPool)
    → IsConsistent p
    → any_usable now model (ban_sticky now deterministic model session p) ≡ true
    → (pick coin now session model
        (reroute_session session (ban_sticky now deterministic model session p))).1
      ≢ none
unfolding any_usable list reroute_session is_usable
reroute-pick coin now model session deterministic p c found stuck =
    let q = ban_sticky now deterministic model session p in
    let frame = ban_sticky-frame now deterministic model session p in
    let keyed : All (λ e. e.1.id ≡ e.0) q.nodes = rw frame.0 c.keyed in
    let never =
      none_usable now model q.nodes q keyed
        (pick-eq-none coin now session model (reroute_session session q) stuck) in
    false≢true (sym never ∙ found)

-- Where a rotation is granted, the attempt is within the limit, the session sticks to no exit any
-- more, and the restarted stream finds an exit: `pick` does not give up.
pub decide-pick :
    (max_attempts : Option ℕ) (coin : Text → Text → Bool) (now : ℕ) (model session : Text)
    (attempt : ℕ) (deterministic : Bool) (p : ExitPool)
    → IsConsistent p
    → (decide max_attempts now model session attempt deterministic p).1 ≡ true
    → let q = (decide max_attempts now model session attempt deterministic p).0 in
      (attempt ≤ or_else max_attempts 3)
      × (sticky_of session q ≡ none)
      × ((pick coin now session model q).1 ≢ none)
decide-pick max_attempts coin now model session attempt deterministic p c h =
    let q = ban_sticky now deterministic model session p in
    let (within, found, moved) =
      decide-eq-true max_attempts now model session attempt deterministic p h in
    (
      within,
      rw moved (reroute-sticky session q),
      rw moved (reroute-pick coin now model session deterministic p c found),
    )

banned_unusable :
    (now : ℕ) (id model : Text) (q : ExitPool) {b : ModelBan}
    → ban_of id model q ≡ some b
    → is_banned b.state ≡ true
    → is_usable now id model q ≡ false
unfolding is_usable
banned_unusable now id model q {b} e h = ground arith

decide-banned :
    (max_attempts : Option ℕ) (now : ℕ) (model session : Text) (attempt : ℕ) (p : ExitPool)
    {failed : Text}
    → exit_of_session session p ≡ some failed
    → is_usable now failed model (decide max_attempts now model session attempt true p).0 ≡ false
unfolding decide ban_sticky mark_model_banned reroute_session
decide-banned max_attempts now model session attempt p {failed} e =
    let ban : ModelBan = record {
      state = BanState.banned;
      banned_at = now;
      consecutive_failures = p.ban_confirmations;
    } in
    let q : ExitPool = set_ban failed model ban p in
    let stored = lookup-insert_self text_dec (ban_key failed model) ban p.bans in
    ground (
      arith,
      banned_unusable now failed model q stored refl,
      banned_unusable now failed model (reroute_session session q) stored refl,
    )

-- After a refusal that is a property of the exit, the restarted stream does not go back to the
-- exit that the session stuck to: that pairing is banned at once.
pub decide_moves_on :
    (max_attempts : Option ℕ) (coin : Text → Text → Bool) (now : ℕ) (model session : Text)
    (attempt : ℕ) (p : ExitPool) {failed : Text}
    → exit_of_session session p ≡ some failed
    → (pick coin now session model (decide max_attempts now model session attempt true p).0).1
      ≢ some failed
decide_moves_on max_attempts coin now model session attempt p {failed} e back =
    let q = (decide max_attempts now model session attempt true p).0 in
    let usable : is_usable now failed model q ≡ true =
      pick-is_usable coin now session model q back in
    false≢true (sym (decide-banned max_attempts now model session attempt p e) ∙ usable)
