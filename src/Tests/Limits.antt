-- ===== src/Tests/Limits.antt =====
-- The cooldowns, bans and strikes of one exit (packages/plugin/test/pool.test.ts).
use dsh_opencode.Base.{
  ℕ, ◌+◌, ◌≤◌, min, ◌≡◌, refl, ap, ◌≢◌, true, ◌&&◌, List, [], ◌∷◌, Text, some, arith, text_dec, leb,
}
use dsh_opencode.Base.Maps.{lookup}
use dsh_opencode.Pool.Types.{ExitHealth, ModelBan, BanState, node_of, health_of, ban_of, ban_key}
use dsh_opencode.Pool.Signals.{mark_limited, mark_ok}
use dsh_opencode.Pool.Selection.{is_usable, ban_allows}
use dsh_opencode.Pool.Table.{remove}
use dsh_opencode.Pool.Keys.{NulFree}
use dsh_opencode.Pool.Cooldown
use dsh_opencode.Pool.Removal
use dsh_opencode.Pool.Listing
use dsh_opencode.Tests.Exits.{two, id_a, id_b, model, program}

mark_limited_lem_example :
    let (q, deadline) = mark_limited 1000 id_a two in
    (1000 + min 60000 1800000 ≤ deadline)
    × (deadline ≤ 1000 + 1800000)
    × ((t : ℕ) (m : Text) → is_usable t id_a m q ≡ leb deadline t && ban_allows (ban_of id_a m two))
    × ((k : ExitHealth) × ((health_of id_a q ≡ some k)
          × (k.consecutive_limited ≡ 0 + 1)
          × (k.cooldown_until ≡ deadline)))
    × (q ≡ record two { health = q.health })
    × ((j : Text) → id_a ≢ j → health_of j q ≡ health_of j two)
    × ((t : ℕ) (j m : Text) → id_a ≢ j → is_usable t j m q ≡ is_usable t j m two)
unfolding program
mark_limited_lem_example = Cooldown.mark_limited_lem 1000 id_a two refl

mark_ok_lem_example :
    ((t : ℕ) → is_usable t id_a model (mark_ok 10 id_a (some model) two) ≡ true)
    × ((t : ℕ) (other : Text)
        → model ≢ other
        → is_usable t id_a other (mark_ok 10 id_a (some model) two)
          ≡ ban_allows (ban_of id_a other two))
unfolding program
mark_ok_lem_example = Cooldown.mark_ok_lem 10 id_a model two refl

first_code : Text → ℕ
first_code [] = 0
first_code (c ∷ s) = c

pub a_ne_b : id_a ≢ id_b
unfolding first_code
a_ne_b e = absurd (omega (arith, ap first_code e))

pub id_a-NulFree : NulFree id_a
id_a-NulFree = omega arith

pub id_b-NulFree : NulFree id_b
id_b-NulFree = omega arith

remove_others_example :
    let q = remove id_a two in
    (node_of id_b q ≡ node_of id_b two)
    × (health_of id_b q ≡ health_of id_b two)
    × ((m : Text) → ban_of id_b m q ≡ ban_of id_b m two)
    × ((t : ℕ) (m : Text) → is_usable t id_b m q ≡ is_usable t id_b m two)
remove_others_example = Removal.remove_others id_a id_b two id_a-NulFree id_b-NulFree a_ne_b

abbrev noted : List (Text × ModelBan)
noted =
    (
      ban_key id_a model,
      record { state = BanState.suspect; banned_at = 0; consecutive_failures = 1 },
    )
    ∷ []

lookup-model_bans_example :
    lookup text_dec model (Listing.model_bans id_a noted)
    ≡ lookup text_dec (ban_key id_a model) noted
lookup-model_bans_example = Listing.lookup-model_bans id_a model noted
