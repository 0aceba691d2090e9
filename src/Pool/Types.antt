-- ===== src/Pool/Types.antt =====
-- packages/plugin/src/pool/pool.ts: the data of the exit table.
use dsh_opencode.Base.{
  ℕ, Bool, false, List, [], ◌∷◌, ◌++◌, Text, Option, none, some, leb, if◌then◌else◌, text_dec,
}
use dsh_opencode.Base.Maps.{lookup}

pub data ExitSource : Type 0 where
  free manual subscription goproxy : ExitSource

pub data Protocol : Type 0 where
  http socks5 : Protocol

pub data Quality : Type 0 where
  s a b c : Quality

pub record ExitNode : Type 0 where
  pub id : Text
  pub protocol : Protocol
  pub source : ExitSource
  pub pinned : Bool
  pub exit_ip : Text
  pub exit_location : Text
  pub latency_ms : ℕ
  pub quality : Quality
  pub added_at : ℕ

pub data ExitState : Type 0 where
  unknown ok dead : ExitState

pub data BanState : Type 0 where
  ok suspect banned : BanState

pub record ExitHealth : Type 0 where
  pub state : ExitState
  pub last_probed_at : ℕ
  pub consecutive_limited : ℕ
  pub cooldown_until : ℕ
  pub inflight : Bool
  pub dead_strikes : ℕ

pub record ModelBan : Type 0 where
  pub state : BanState
  pub banned_at : ℕ
  pub consecutive_failures : ℕ

pub record PassiveStats : Type 0 where
  pub ok : ℕ
  pub limited : ℕ
  pub refused : ℕ
  pub dead : ℕ
  pub transport : ℕ

pub data PoolState : Type 0 where
  healthy warning critical emergency : PoolState

-- Thresholds of `gradeOf`.
unfoldable pub grade_of : ℕ → Quality
grade_of latency =
    if leb latency 500
    then Quality.s
    else if leb latency 1000
    then Quality.a
    else if leb latency 2000
    then Quality.b
    else Quality.c

-- The key of a ban: exit and model, joined by the code unit 0.
abbrev pub ban_prefix : Text → Text
ban_prefix exit_id = exit_id ++ (0 ∷ [])

abbrev pub ban_key : Text → Text → Text
ban_key exit_id model = ban_prefix exit_id ++ model

pub record ExitPool : Type 0 where
  pub nodes : List (Text × ExitNode)
  pub health : List (Text × ExitHealth)
  pub bans : List (Text × ModelBan)
  pub session_exit : List (Text × Text)
  pub passive : List (Text × PassiveStats)
  pub target_size : ℕ
  pub cooldown_base : ℕ
  pub cooldown_max : ℕ
  pub ban_confirmations : ℕ
  pub dead_evictions : ℕ
  pub pinned_id : Text

pub record PoolOptions : Type 0 where
  pub target_size : Option ℕ
  pub limited_cooldown_base_ms : Option ℕ
  pub limited_cooldown_max_ms : Option ℕ
  pub model_ban_confirmations : Option ℕ
  pub dead_evictions : Option ℕ

-- `option ?? fallback`
abbrev pub or_else {ℓ} : {A : Type ℓ} → Option A → A → A
or_else none fallback = fallback
or_else (some x) fallback = x

-- The constructor, its clock left to the callers of the methods.
unfoldable pub new_pool : PoolOptions → ExitPool
new_pool options = record {
  nodes = [];
  health = [];
  bans = [];
  session_exit = [];
  passive = [];
  target_size = or_else options.target_size 20;
  cooldown_base = or_else options.limited_cooldown_base_ms 60000;
  cooldown_max = or_else options.limited_cooldown_max_ms 1800000;
  ban_confirmations = or_else options.model_ban_confirmations 2;
  dead_evictions = or_else options.dead_evictions 2;
  pinned_id = [];
}

abbrev pub fresh_health : ExitHealth
fresh_health = record {
  state = ExitState.unknown;
  last_probed_at = 0;
  consecutive_limited = 0;
  cooldown_until = 0;
  inflight = false;
  dead_strikes = 0;
}

abbrev pub fresh_ban : ModelBan
fresh_ban = record { state = BanState.ok; banned_at = 0; consecutive_failures = 0 }

abbrev pub no_passive : PassiveStats
no_passive = record { ok = 0; limited = 0; refused = 0; dead = 0; transport = 0 }

-- The lookups that the methods make.
abbrev pub node_of : Text → ExitPool → Option ExitNode
node_of id p = lookup text_dec id p.nodes

abbrev pub health_of : Text → ExitPool → Option ExitHealth
health_of id p = lookup text_dec id p.health

abbrev pub ban_of : Text → Text → ExitPool → Option ModelBan
ban_of id model p = lookup text_dec (ban_key id model) p.bans

abbrev pub sticky_of : Text → ExitPool → Option Text
sticky_of session p = lookup text_dec session p.session_exit
