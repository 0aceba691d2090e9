-- ===== src/Pool/Bans.antt =====
-- packages/plugin/src/pool/pool.ts: the bans of (exit, model) pairings.
use dsh_opencode.Base.{
  ℕ, suc, ◌+◌, ◌<◌, ◌≡◌, refl, ◌≢◌, true, not, List, [], ◌∷◌, Text, none, arith, leb, length,
  text_dec,
}
use dsh_opencode.Base.Maps.{lookup-insert_self, lookup-insert_ne}
use dsh_opencode.Pool.Types.{ExitPool, ModelBan, ban_of, ban_key, fresh_ban, or_else}
use dsh_opencode.Pool.Keys.{NulFree, ban_key_inj}
use dsh_opencode.Pool.Signals.{mark_model_signal, suspected, set_ban, is_banned}
use dsh_opencode.Pool.Selection.{is_usable}
use native.Mathlib.Nat.{zero-add}

-- Refusals of one pairing, at the times listed.
unfoldable pub signals : List ℕ → Text → Text → ExitPool → ExitPool
unfolding mark_model_signal
signals [] id model p = p
signals (now ∷ ts) id model p = signals ts id model (mark_model_signal now id model p).0

-- The ban record of a pairing that has been refused `n` times since its last success.
record Counts (confirmations n : ℕ) (ban : ModelBan) : Type 0 where
  counted : ban.consecutive_failures ≡ n
  agrees : is_banned ban.state ≡ (leb confirmations n)

suspected-Counts :
    (confirmations now n : ℕ) (ban : ModelBan)
    → Counts confirmations n ban
    → Counts confirmations (suc n) (suspected confirmations now ban)
unfolding suspected
suspected-Counts confirmations now n ban h = ground arith

-- Refusals write the ban table alone.
signals-frame :
    (ts : List ℕ) (id model : Text) (p : ExitPool)
    → ((signals ts id model p).health ≡ p.health)
      × ((signals ts id model p).ban_confirmations ≡ p.ban_confirmations)
unfolding signals
signals-frame [] id model p = (refl, refl)
signals-frame (now ∷ ts) id model p = signals-frame ts id model (mark_model_signal now id model p).0

signals-Counts :
    (ts : List ℕ) (id model : Text) (n : ℕ) (p : ExitPool)
    → Counts p.ban_confirmations n (or_else (ban_of id model p) fresh_ban)
    → Counts p.ban_confirmations
        (length ts + n)
        (or_else (ban_of id model (signals ts id model p)) fresh_ban)
unfolding signals
signals-Counts [] id model n p h = rw zero-add h
signals-Counts (now ∷ ts) id model n p h =
    let next : ModelBan =
      suspected p.ban_confirmations now (or_else (ban_of id model p) fresh_ban) in
    let here = lookup-insert_self text_dec (ban_key id model) next p.bans in
    let moved : suc (length ts) + n ≡ length ts + suc n = omega arith in
    rw moved (
      signals-Counts ts id model (suc n) (set_ban id model next p)
        (rw here (suspected-Counts p.ban_confirmations now n _ h)))

-- A pairing with no record is banned by the refusal that brings their number to the configured
-- one, and by none before: an exit that is usable for the model stays so exactly while fewer
-- refusals have come.
pub signals_ban :
    (ts : List ℕ) (t : ℕ) (id model : Text) (p : ExitPool)
    → ban_of id model p ≡ none
    → 0 < p.ban_confirmations
    → is_usable t id model p ≡ true
    → is_usable t id model (signals ts id model p) ≡ not (leb p.ban_confirmations (length ts))
unfolding is_usable
signals_ban ts t id model p fresh pos u = ground (
  arith,
  signals-frame ts id model p,
  signals-Counts ts id model 0 p (rw fresh (record { counted = refl; agrees = ground arith })),
)

-- A refusal of one pairing leaves the usability of every other pairing as it was, when neither
-- exit id holds the code unit 0 that joins the keys of the ban table.
pub mark_model_signal-others :
    (now t : ℕ) (id model j other : Text) (p : ExitPool)
    → NulFree id
    → NulFree j
    → (id ≡ j → model ≢ other)
    → is_usable t j other (mark_model_signal now id model p).0 ≡ is_usable t j other p
unfolding mark_model_signal is_usable
mark_model_signal-others now t id model j other p hi hj ne =
    let apart : ban_key id model ≢ ban_key j other =
      λ e. let both = ban_key_inj id j model other hi hj e in ne both.0 both.1 in
    ground (
      arith,
      lookup-insert_ne text_dec (ban_key id model) (ban_key j other)
          (suspected p.ban_confirmations now (or_else (ban_of id model p) fresh_ban)) p.bans apart,
    )
