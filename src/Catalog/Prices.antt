-- ===== src/Catalog/Prices.antt =====
-- packages/plugin/src/adapter/catalog.ts: the lists of known models, prices and `decide`.
use dsh_opencode.Base.{
  Bool, true, false, not, ◌&&◌, ◌||◌, List, [], ◌∷◌, map, Text, codes, Option, none, some,
  if◌then◌else◌, ◌==◌, text_dec, same, exists,
}
use dsh_opencode.Base.Json.{Number}
use dsh_opencode.Base.Maps.{lookup}
use dsh_opencode.Dispatcher.Hosts.{lower}
use dsh_opencode.Events.Errors.{contains}

unfoldable pub static_free_models : List Text
static_free_models =
    codes "big-pickle"
    ∷ codes "mimo-v2.5-free"
    ∷ codes "mimo-v2.6-flash-free"
    ∷ codes "longcat-2.5-preview-free"
    ∷ codes "ling-3.0-flash-fin-free"
    ∷ codes "nemotron-3.5-lightning-free"
    ∷ codes "nemotron-3-ultra-free"
    ∷ codes "muse-spark-1.2-contributor-free"
    ∷ codes "muse-spark-1.3-contributor-free"
    ∷ codes "space-bunny-free"
    ∷ []

unfoldable pub known_unavailable_models : List Text
known_unavailable_models =
    codes "deepseek-v4-flash-free"
    ∷ codes "jev-1.13-free"
    ∷ codes "mimo-v2-flash-free"
    ∷ codes "minimax-m2.5-free"
    ∷ codes "hy3-free"
    ∷ codes "laguna-s-2.1-free"
    ∷ []

-- `list.includes(text)`
unfoldable pub member_of : List Text → Text → Bool
unfolding exists
member_of xs s = exists (λ x. same x s) xs

unfoldable pub is_free_model : Text → Bool
unfolding contains lower
is_free_model model = contains (codes "free") (map lower model)

pub data Source : Type 0 where
  known_unavailable name_free metadata_pending metadata_model_missing : Source
  metadata_deprecated name_and_metadata_free metadata_free : Source
  metadata_cost_unknown metadata_paid static_verified : Source

pub record AnonymousDecision : Type 0 where
  pub allowed : Bool
  pub source : Source
  pub known : Bool

pub record ModelPrice : Type 0 where
  pub input : Option Number
  pub output : Option Number
  pub deprecated : Bool
  pub reasoning : Option Bool
  pub effort_values : Option (List Text)

abbrev pub verdict : Bool → Source → Bool → AnonymousDecision
verdict allowed source known = record { allowed = allowed; source = source; known = known }

abbrev pub by_name : Text → Source → AnonymousDecision
by_name model source =
    if is_free_model model then verdict true Source.name_free false else verdict false source false

-- `price === 0`
abbrev pub is_zero : Option Number → Bool
is_zero none = false
is_zero (some n) = (n.whole == 0) && (n.fraction == 0) && n.is_finite

abbrev pub is_unknown : Option Number → Bool
is_unknown none = true
is_unknown (some n) = false

abbrev pub is_nil {ℓ} : {A : Type ℓ} → List A → Bool
is_nil [] = true
is_nil (x ∷ xs) = false

-- What a price says.
unfoldable pub decide_price : Text → ModelPrice → AnonymousDecision
unfolding is_free_model
decide_price model price =
    if price.deprecated
    then verdict false Source.metadata_deprecated true
    else if is_zero price.input && is_zero price.output
    then verdict true
        (if is_free_model model then Source.name_and_metadata_free else Source.metadata_free) true
    else if is_unknown price.input || is_unknown price.output
    then verdict false Source.metadata_cost_unknown false
    else verdict false Source.metadata_paid true

unfoldable pub decide_known : Text → Option ModelPrice → AnonymousDecision
unfolding decide_price is_free_model
decide_known model none = by_name model Source.metadata_model_missing
decide_known model (some price) = decide_price model price

-- `decide`
unfoldable pub decide : Text → List (Text × ModelPrice) → Bool → AnonymousDecision
unfolding member_of known_unavailable_models decide_known lookup text_dec
decide model prices ready =
    if member_of known_unavailable_models model
    then verdict false Source.known_unavailable true
    else if not ready || is_nil prices
    then by_name model Source.metadata_pending
    else decide_known model (lookup text_dec model prices)
