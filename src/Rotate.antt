-- ===== src/Rotate.antt =====
-- packages/plugin/src/pool/rotate.ts: whether a stream that failed before any content is tried
-- again through another exit.
pub mod Failures
pub mod Progress
use dsh_opencode.Base.{
  ℕ, ◌≤◌, ◌<◌, ◌≡◌, refl, ◌≢◌, ◌⊎◌, inl, inr, Bool, true, false, List, [], ◌∷◌, Text, Option, none,
  some, arith, ltb, if◌then◌else◌, exists, text_dec, Bool-cases, Option-cases,
}
use dsh_opencode.Base.Maps.{lookup, values, keys}
use dsh_opencode.Pool.Types.{ExitPool, sticky_of, or_else}
use dsh_opencode.Pool.Listing.{list, Entry}
use dsh_opencode.Pool.Passive.{reroute_session, exit_of_session}
use dsh_opencode.Pool.Signals.{mark_model_banned}
use dsh_opencode.Pool.Selection.{is_usable}

-- The first step: a deterministic refusal bans the sticky exit's pairing at once.
unfoldable pub ban_sticky : ℕ → Bool → Text → Text → ExitPool → ExitPool
ban_sticky now deterministic model session p =
    if deterministic
    then elim (exit_of_session session p) [
      | none ↦ p
      | some failed ↦ mark_model_banned now failed model p
    ]
    else p

unfoldable pub any_usable : ℕ → Text → ExitPool → Bool
unfolding exists list
any_usable now model p = exists (λ e. is_usable now e.node.id model p) (list p)

-- `createRotateDelegate(pool, { maxAttempts }).decide`; the kind of failure is not read.
unfoldable pub decide : Option ℕ → ℕ → Text → Text → ℕ → Bool → ExitPool → ExitPool × Bool
unfolding ban_sticky any_usable reroute_session
decide max_attempts now model session attempt deterministic p =
    let q = ban_sticky now deterministic model session p in
    if ltb (or_else max_attempts 3) attempt
    then (q, false)
    else if any_usable now model q
    then (reroute_session session q, true)
    else (q, false)

-- `shouldRotate`: without a delegate the failure surfaces.
unfoldable pub should_rotate :
    Option (Option ℕ) → ℕ → Text → Text → ℕ → Bool → ExitPool → ExitPool × Bool
unfolding decide
should_rotate none now model session attempt deterministic p = (p, false)
should_rotate (some max_attempts) now model session attempt deterministic p =
    decide max_attempts now model session attempt deterministic p
