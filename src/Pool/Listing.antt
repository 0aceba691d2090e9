-- ===== src/Pool/Listing.antt =====
-- packages/plugin/src/pool/pool.ts: `list`, the table as the settings page and the rotation see it.
use dsh_opencode.Base.{
  ◌≡◌, refl, true, List, [], ◌∷◌, ◌++◌, Text, Option, arith, text_dec, starts_with, if◌then◌else◌,
  starts_with-append,
}
use dsh_opencode.Base.Maps.{lookup}
use dsh_opencode.Pool.Types.{
  ExitNode, ExitHealth, ModelBan, ExitPool, ban_prefix, ban_key, health_of,
}

-- `text.slice(prefix.length)`
unfoldable pub after_prefix : Text → Text → Text
after_prefix [] s = s
after_prefix (c ∷ p) [] = []
after_prefix (c ∷ p) (d ∷ s) = after_prefix p s

-- The bans of one exit, each under its model.
unfoldable pub model_bans : Text → List (Text × ModelBan) → List (Text × ModelBan)
unfolding after_prefix starts_with
model_bans id [] = []
model_bans id ((key, ban) ∷ m) =
    let rest = model_bans id m in
    if starts_with (ban_prefix id) key then (after_prefix (ban_prefix id) key, ban) ∷ rest else rest

pub record Entry : Type 0 where
  pub node : ExitNode
  pub health : Option ExitHealth
  pub bans : List (Text × ModelBan)

unfoldable pub entries : List (Text × ExitNode) → ExitPool → List Entry
unfolding model_bans
entries [] p = []
entries ((id, n) ∷ m) p =
    record { node = n; health = health_of id p; bans = model_bans id p.bans } ∷ entries m p

unfoldable pub list : ExitPool → List Entry
unfolding entries
list p = entries p.nodes p

after_prefix-append : (p s : Text) → after_prefix p (p ++ s) ≡ s
unfolding after_prefix
after_prefix-append [] s = refl
after_prefix-append (c ∷ p) s = after_prefix-append p s

append-after_prefix : (p s : Text) → starts_with p s ≡ true → p ++ after_prefix p s ≡ s
unfolding after_prefix starts_with
append-after_prefix [] s h = refl
append-after_prefix (c ∷ p) [] h = cc
append-after_prefix (c ∷ p) (d ∷ s) h = ground (arith, append-after_prefix p s)

-- What `list` shows under a model is the ban that the pool keeps for the pairing.
pub lookup-model_bans :
    (id model : Text) (m : List (Text × ModelBan))
    → lookup text_dec model (model_bans id m) ≡ lookup text_dec (ban_key id model) m
unfolding lookup model_bans
lookup-model_bans id model [] = refl
lookup-model_bans id model ((key, ban) ∷ m) = elim (text_dec key (ban_key id model)) [
  | yes h ↦ ground (
    arith,
    starts_with-append (ban_prefix id) model,
    after_prefix-append (ban_prefix id) model,
    lookup-model_bans id model m,
  )
  | no h ↦ ground (arith, append-after_prefix (ban_prefix id) key, lookup-model_bans id model m)
]
