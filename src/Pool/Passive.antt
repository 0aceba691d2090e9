-- ===== src/Pool/Passive.antt =====
-- packages/plugin/src/pool/pool.ts: the outcomes of real requests, and the sticky sessions.
use dsh_opencode.Base.{
  ℕ, ◌+◌, Bool, ◌&&◌, ◌||◌, Text, Option, none, some, if◌then◌else◌, leb, ltb, ◌==◌, text_dec,
}
use dsh_opencode.Base.Maps.{lookup, insert, delete}
use dsh_opencode.Pool.Types.{ExitPool, PassiveStats, no_passive, or_else, sticky_of}
use dsh_opencode.Pool.Table.{has_exit}
use dsh_opencode.Pool.Signals.{
  mark_ok, mark_limited, mark_model_banned, mark_model_signal, mark_dead_strike,
}

pub data PassiveKind : Type 0 where
  ok limited refused dead transport : PassiveKind

pub data StreamFailure : Type 0 where
  by_429 by_model : StreamFailure

unfoldable pub bump : PassiveKind → PassiveStats → PassiveStats
bump PassiveKind.limited s = record s { limited = s.limited + 1 }
bump PassiveKind.refused s = record s { refused = s.refused + 1 }
bump PassiveKind.dead s = record s { dead = s.dead + 1 }
bump PassiveKind.transport s = record s { transport = s.transport + 1 }
bump PassiveKind.ok s = record s { ok = s.ok + 1 }

unfoldable pub passive_stats : Text → ExitPool → PassiveStats
passive_stats id p = or_else (lookup text_dec id p.passive) no_passive

unfoldable pub count_passive : Text → PassiveKind → ExitPool → ExitPool
unfolding bump
count_passive id kind p = record p {
  passive =
      insert text_dec id (bump kind (or_else (lookup text_dec id p.passive) no_passive)) p.passive;
}

-- `markStreamFailure`
unfoldable pub mark_stream_failure : ℕ → Text → StreamFailure → Option Text → ExitPool → ExitPool
unfolding mark_limited mark_model_signal count_passive
mark_stream_failure now id StreamFailure.by_429 m p =
    count_passive id PassiveKind.limited (mark_limited now id p).0
mark_stream_failure now id StreamFailure.by_model none p = p
mark_stream_failure now id StreamFailure.by_model (some m) p =
    count_passive id PassiveKind.refused (mark_model_signal now id m p).0

-- The branch that `recordPassive` takes by the status code.
unfoldable pub passive_kind : ℕ → PassiveKind
passive_kind status =
    if leb 200 status && ltb status 300
    then PassiveKind.ok
    else if status == 429
    then PassiveKind.limited
    else if (status == 401) || (status == 403)
    then PassiveKind.refused
    else PassiveKind.dead

-- What each branch of `recordPassive` does to the two-tier health.
unfoldable pub apply_passive : ℕ → Text → PassiveKind → Text → Bool → ExitPool → ExitPool
unfolding mark_ok mark_limited mark_model_banned mark_model_signal
apply_passive now id PassiveKind.ok model blocked p = mark_ok now id (some model) p
apply_passive now id PassiveKind.limited model blocked p = (mark_limited now id p).0
apply_passive now id PassiveKind.refused model blocked p =
    if blocked then mark_model_banned now id model p else (mark_model_signal now id model p).0
apply_passive now id _ model blocked p = p

unfoldable pub record_passive : ℕ → Text → ℕ → Text → Bool → ExitPool → ExitPool × PassiveKind
unfolding passive_kind apply_passive count_passive has_exit
record_passive now id status model blocked p =
    if has_exit id p
    then (
      count_passive id (passive_kind status)
          (apply_passive now id (passive_kind status) model blocked p),
      passive_kind status,
    )
    else (p, PassiveKind.ok)

unfoldable pub record_passive_transport : Text → ExitPool → ExitPool
unfolding mark_dead_strike count_passive has_exit
record_passive_transport id p =
    if has_exit id p then count_passive id PassiveKind.transport (mark_dead_strike id p).0 else p

-- `rerouteSession` and `breakStickySession`, which have one body.
unfoldable pub reroute_session : Text → ExitPool → ExitPool
reroute_session session p = record p { session_exit = delete text_dec session p.session_exit }

unfoldable pub exit_of_session : Text → ExitPool → Option Text
exit_of_session session p = sticky_of session p
