-- ===== src/Catalog/Directory.antt =====
-- packages/plugin/src/adapter/catalog.ts: `ModelCatalog`. The answers of the two endpoints and of
-- the cache file are arguments; `fetchZenModels` and `loadMetadataCache` are what follows an answer.
use dsh_opencode.Base.{
  ℕ, zero, suc, ◌-◌, ◌*◌, Bool, true, false, not, ◌&&◌, ◌||◌, List, [], ◌∷◌, ◌++◌, Text, codes,
  Option, none, some, if◌then◌else◌, ltb, leb, ◌==◌, text_dec, same, length, keep,
}
use dsh_opencode.Base.Json.{Json, arr, items, member, text_of}
use dsh_opencode.Base.Decimal.{decimal}
use dsh_opencode.Base.Maps.{lookup}
use dsh_opencode.Pool.Types.{or_else}
use dsh_opencode.Dispatcher.Routing.{set_of}
use dsh_opencode.Catalog.Prices.{
  ModelPrice, AnonymousDecision, Source, decide, verdict, member_of, static_free_models,
  known_unavailable_models, is_nil,
}
use dsh_opencode.Catalog.Decode.{decode_models_dev}

pub record ModelCatalog : Type 0 where
  pub zen : List Text
  pub updated_at : ℕ
  pub prices : List (Text × ModelPrice)
  pub prices_ready : Bool
  pub last_error : Text
  pub has_cache_path : Bool
  pub refresh_seconds : ℕ
  pub startup_retry_ms : ℕ
  pub timer : Option ℕ
  pub stopped : Bool

unfoldable pub new_catalog : Option ℕ → Bool → Option ℕ → ModelCatalog
new_catalog refresh_seconds has_cache_path startup_retry_ms = record {
  zen = [];
  updated_at = 0;
  prices = [];
  prices_ready = false;
  last_error = [];
  has_cache_path = has_cache_path;
  refresh_seconds = or_else refresh_seconds 300;
  startup_retry_ms = or_else startup_retry_ms 15000;
  timer = none;
  stopped = false;
}

abbrev pub is_success : ℕ → Bool
is_success status = leb 200 status && ltb status 300

pub data Outcome (A : Type 0) : Type 0 where
  ok : A → Outcome A
  err : Text → Outcome A

-- The end of a fetch: an error, or a status with the body as JSON or the error of its parser.
pub data Answer : Type 0 where
  fails : Text → Answer
  answers : ℕ → Outcome Json → Answer

abbrev pub keep_id : Json → List Text → List Text
keep_id item ids = elim (text_of (member (codes "id") item)) [
  | none ↦ ids
  | some s ↦ if same s [] then ids else s ∷ ids
]

unfoldable pub model_ids : List Json → List Text
model_ids [] = []
model_ids (item ∷ rest) = keep_id item (model_ids rest)

abbrev pub listed : Option Json → List Json
listed (some (arr xs)) = items xs
listed _ = []

abbrev pub non_empty : List Text → Outcome (List Text)
non_empty [] = err (codes "models endpoint returned an empty list")
non_empty (x ∷ xs) = ok (x ∷ xs)

abbrev listed_ids : Outcome Json → Outcome (List Text)
listed_ids (err message) = err message
listed_ids (ok body) = non_empty (model_ids (listed (member (codes "data") body)))

-- `fetchZenModels`
unfoldable pub zen_models : Answer → Outcome (List Text)
unfolding model_ids decimal
zen_models (fails message) = err message
zen_models (answers status body) =
    if is_success status
    then listed_ids body
    else err (codes "models endpoint returned HTTP " ++ decimal status)

abbrev pub take_zen : ℕ → Outcome (List Text) → ModelCatalog → ModelCatalog
take_zen now (ok ids) c = record c { zen = set_of [] ids; updated_at = now; last_error = [] }
take_zen now (err message) c = record c { last_error = message }

-- `refreshZen`
unfoldable pub refresh_zen : ℕ → Answer → ModelCatalog → ModelCatalog
unfolding zen_models set_of
refresh_zen now answer c = take_zen now (zen_models answer) c

abbrev pub non_empty_prices : List (Text × ModelPrice) → Outcome (List (Text × ModelPrice))
non_empty_prices [] = err (codes "models.dev contains no OpenCode model metadata")
non_empty_prices (p ∷ ps) = ok (p ∷ ps)

abbrev body_prices : (Text → Text → Bool) → Outcome Json → Outcome (List (Text × ModelPrice))
body_prices before (err message) = err message
body_prices before (ok body) = non_empty_prices (decode_models_dev before body)

unfoldable pub metadata_prices : (Text → Text → Bool) → Answer → Outcome (List (Text × ModelPrice))
unfolding decode_models_dev decimal
metadata_prices before (fails message) = err message
metadata_prices before (answers status body) =
    if is_success status
    then body_prices before body
    else err (codes "models.dev returned HTTP " ++ decimal status)

-- A cache file: when it was written, and its prices; `none` where it cannot be read.
abbrev pub CacheFile : Type 0
CacheFile = Option (ℕ × List (Text × ModelPrice))

abbrev pub metadata_refresh_ms : ℕ
metadata_refresh_ms = 24 * 60 * 60 * 1000

-- `loadMetadataCache`, empty where it fails.
abbrev pub load_metadata_cache : ℕ → CacheFile → List (Text × ModelPrice)
load_metadata_cache now none = []
load_metadata_cache now (some (updated_at, prices)) =
    if ltb (7 * metadata_refresh_ms) (now - updated_at) then [] else prices

abbrev pub from_cache : Text → List (Text × ModelPrice) → ModelCatalog → ModelCatalog
from_cache message [] c = record c { last_error = message }
from_cache message (p ∷ ps) c = record c { prices = p ∷ ps; prices_ready = true }

-- The `catch` of `refreshMetadata`.
unfoldable pub metadata_failed : ℕ → Text → CacheFile → ModelCatalog → ModelCatalog
metadata_failed now message cache c =
    if c.has_cache_path && not c.prices_ready
    then from_cache message (load_metadata_cache now cache) c
    else record c { last_error = message }

-- The write of the cache, `none` where it succeeds.
abbrev pub save_cache : ℕ → Option Text → CacheFile → ModelCatalog → ModelCatalog
save_cache now none cache c = c
save_cache now (some message) cache c =
    if c.has_cache_path then metadata_failed now message cache c else c

abbrev pub take_prices :
    ℕ → Outcome (List (Text × ModelPrice)) → Option Text → CacheFile → ModelCatalog → ModelCatalog
take_prices now (ok prices) saving cache c =
    save_cache now saving cache (record c { prices = prices; prices_ready = true })
take_prices now (err message) saving cache c = metadata_failed now message cache c

-- `refreshMetadata`
unfoldable pub refresh_metadata :
    (Text → Text → Bool) → ℕ → Answer → Option Text → CacheFile → ModelCatalog → ModelCatalog
unfolding metadata_prices metadata_failed
refresh_metadata before now answer saving cache c =
    take_prices now (metadata_prices before answer) saving cache c

-- `decision`: the compile-time list speaks where metadata does not, or calls a model deprecated.
abbrev pub is_deprecated_verdict : Source → Bool
is_deprecated_verdict Source.metadata_deprecated = true
is_deprecated_verdict _ = false

unfoldable pub vouch : Text → AnonymousDecision → AnonymousDecision
unfolding member_of static_free_models
vouch model metadata =
    if not metadata.allowed
      && is_deprecated_verdict metadata.source
      && member_of static_free_models model
    then verdict true Source.static_verified false
    else if not metadata.allowed && not metadata.known && member_of static_free_models model
    then verdict true Source.static_verified false
    else metadata

unfoldable pub decision : Text → ModelCatalog → AnonymousDecision
unfolding vouch decide
decision model c =
    if member_of known_unavailable_models model
    then verdict false Source.known_unavailable true
    else vouch model (decide model c.prices c.prices_ready)

-- The order of `Array.prototype.sort` on texts: by code units.
unfoldable pub text_before : Text → Text → Bool
text_before [] [] = false
text_before [] (d ∷ t) = true
text_before (c ∷ s) [] = false
text_before (c ∷ s) (d ∷ t) = let rest = text_before s t in if c == d then rest else ltb c d

unfoldable pub place_text : Text → List Text → List Text
unfolding text_before
place_text s [] = s ∷ []
place_text s (t ∷ ts) =
    let rest = place_text s ts in if text_before t s then t ∷ rest else s ∷ t ∷ ts

unfoldable pub sort_texts : List Text → List Text
unfolding place_text
sort_texts [] = []
sort_texts (s ∷ ts) = place_text s (sort_texts ts)

abbrev pub allowed_by : ModelCatalog → Text → Bool
allowed_by c model = (decision model c).allowed

-- `list`
unfoldable pub list : ModelCatalog → List Text
unfolding decision sort_texts keep static_free_models
list c = if is_nil c.zen then static_free_models else sort_texts (keep (allowed_by c) c.zen)

pub record ReasoningCapability : Type 0 where
  pub reasoning : Bool
  pub effort_values : List Text

-- `reasoningCapability`
unfoldable pub reasoning_capability : Text → ModelCatalog → Option ReasoningCapability
unfolding lookup text_dec member_of static_free_models
reasoning_capability model c = elim (lookup text_dec model c.prices) [
  | none ↦
      if member_of static_free_models model
      then some (record { reasoning = true; effort_values = [] })
      else none
  | some price ↦ some (record {
    reasoning = or_else price.reasoning false;
    effort_values = or_else price.effort_values [];
  })
]

pub data CatalogStatus : Type 0 where
  pending ready stale : CatalogStatus

pub record CatalogSnapshot : Type 0 where
  pub status : CatalogStatus
  pub total : ℕ
  pub exposed : ℕ
  pub last_refresh : Option ℕ

unfoldable pub snapshot : ℕ → ModelCatalog → CatalogSnapshot
unfolding list
snapshot now c = record {
  status =
      if c.updated_at == 0
      then CatalogStatus.pending
      else if ltb (10 * 60 * 1000) (now - c.updated_at)
      then CatalogStatus.stale
      else CatalogStatus.ready;
  total = length c.zen;
  exposed = length (list c);
  last_refresh = if c.updated_at == 0 then none else some c.updated_at;
}

unfoldable pub stop : ModelCatalog → ModelCatalog
stop c = record c { stopped = true; timer = none }

-- `start` after its first refresh: four retries at most while the live catalog is empty. `wait` is
-- what else happens while a retry waits, `refresh` one `refreshOnce`; both count the retries left.
module _ (wait refresh : ℕ → ModelCatalog → ModelCatalog) where
  unfoldable pub retry_startup : ℕ → ModelCatalog → ModelCatalog
  retry_startup zero c = c
  retry_startup (suc left) c =
      let later = retry_startup left (refresh left (wait left c)) in
      if not (is_nil c.zen) || c.stopped
      then c
      else if (wait left c).stopped
      then wait left c
      else later

  unfoldable pub start : ModelCatalog → ModelCatalog
  unfolding retry_startup
  start c =
      let up = retry_startup 4 (refresh 4 c) in
      if up.stopped then up else record up { timer = some (c.refresh_seconds * 1000) }
