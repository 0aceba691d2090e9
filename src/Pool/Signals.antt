-- ===== src/Pool/Signals.antt =====
-- packages/plugin/src/pool/pool.ts: the signals of probes, by exit and by (exit, model).
use dsh_opencode.Base.{
  ℕ, ◌+◌, ◌-◌, ◌*◌, ◌^◌, min, Bool, true, false, not, ◌&&◌, Text, Option, none, some, if◌then◌else◌,
  leb, text_dec,
}
use dsh_opencode.Base.Maps.{insert}
use dsh_opencode.Pool.Types.{
  ExitNode, ExitSource, ExitHealth, ExitState, BanState, ModelBan, ExitPool, fresh_ban, ban_key,
  node_of, health_of, ban_of, or_else,
}
use dsh_opencode.Pool.Table.{remove, update_health}

abbrev pub set_ban : Text → Text → ModelBan → ExitPool → ExitPool
set_ban id model ban p = record p { bans = insert text_dec (ban_key id model) ban p.bans }

abbrev pub healed : ℕ → ExitHealth → ExitHealth
healed now h = record h {
  state = ExitState.ok;
  last_probed_at = now;
  consecutive_limited = 0;
  cooldown_until = 0;
  dead_strikes = 0;
}

-- `markOk`; the model is optional.
unfoldable pub mark_ok : ℕ → Text → Option Text → ExitPool → ExitPool
mark_ok now id none p = update_health id (healed now) p
mark_ok now id (some model) p = set_ban id model fresh_ban (update_health id (healed now) p)

-- The length of the cooldown after `n` consecutive 429 answers.
unfoldable pub backoff : ExitPool → ℕ → ℕ
backoff p n = min (p.cooldown_base * 2 ^ (n - 1)) p.cooldown_max

abbrev pub cooled : ExitPool → ℕ → ExitHealth → ExitHealth
cooled p now h = record h {
  consecutive_limited = h.consecutive_limited + 1;
  state = ExitState.ok;
  cooldown_until = now + backoff p (h.consecutive_limited + 1);
}

-- `markLimited`, with the deadline that it returns.
unfoldable pub mark_limited : ℕ → Text → ExitPool → ExitPool × ℕ
unfolding backoff
mark_limited now id p = elim (health_of id p) [
  | none ↦ (p, 0)
  | some h ↦ (
    record p { health = insert text_dec id (cooled p now h) p.health },
    now + backoff p (h.consecutive_limited + 1),
  )
]

unfoldable pub mark_model_banned : ℕ → Text → Text → ExitPool → ExitPool
mark_model_banned now id model p =
    set_ban id model
      (record {
        state = BanState.banned;
        banned_at = now;
        consecutive_failures = p.ban_confirmations;
      })
      p

abbrev pub is_banned : BanState → Bool
is_banned BanState.banned = true
is_banned _ = false

-- The record after one more refusal.
unfoldable pub suspected : ℕ → ℕ → ModelBan → ModelBan
suspected confirmations now ban =
    if leb confirmations (ban.consecutive_failures + 1) && not (is_banned ban.state)
    then record ban {
      state = BanState.banned;
      banned_at = now;
      consecutive_failures = ban.consecutive_failures + 1;
    }
    else record ban {
      state = if not (is_banned ban.state) then BanState.suspect else ban.state;
      consecutive_failures = ban.consecutive_failures + 1;
    }

unfoldable pub mark_model_signal : ℕ → Text → Text → ExitPool → ExitPool × BanState
unfolding suspected
mark_model_signal now id model p =
    let next = suspected p.ban_confirmations now (or_else (ban_of id model p) fresh_ban) in
    (set_ban id model next p, next.state)

abbrev pub is_free : ExitSource → Bool
is_free ExitSource.free = true
is_free _ = false

abbrev pub struck : ExitHealth → ExitHealth
struck h = record h { state = ExitState.dead; inflight = false; dead_strikes = h.dead_strikes + 1 }

-- The tail of `markDeadStrike`, with the node and its health at hand.
unfoldable pub strike : Text → ExitNode → ExitHealth → ExitPool → ExitPool × Bool
unfolding remove
strike id n h p =
    let hit = record p { health = insert text_dec id (struck h) p.health } in
    if is_free n.source && leb p.dead_evictions (h.dead_strikes + 1)
    then (remove id hit, true)
    else (hit, false)

unfoldable pub mark_dead_strike : Text → ExitPool → ExitPool × Bool
unfolding strike
mark_dead_strike id p = elim (node_of id p) [
  | none ↦ (p, false)
  | some n ↦ elim (health_of id p) [ none ↦ (p, false) | some h ↦ strike id n h p ]
]
