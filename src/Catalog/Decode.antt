-- ===== src/Catalog/Decode.antt =====
-- packages/plugin/src/adapter/catalog.ts: `decodeModelsDev`, from the JSON of models.dev to prices.
-- `localeCompare` is the parameter `locale_before`, the order in which the runtime's locale puts
-- two provider keys of one rank.
use dsh_opencode.Base.{
  ℕ, Bool, false, not, ◌&&◌, ◌||◌, List, [], ◌∷◌, ◌++◌, map, Text, codes, Option, none, some,
  if◌then◌else◌, ltb, ◌==◌, text_dec, same,
}
use dsh_opencode.Base.Json.{
  Json, num, str, arr, obj, Number, items, entries, member, member?, or_nullish, is_object, is_true,
  is_there, text_of, string_or_empty, get,
}
use dsh_opencode.Base.Maps.{insert}
use dsh_opencode.Dispatcher.Hosts.{lower}
use dsh_opencode.Events.Errors.{contains}
use dsh_opencode.Sources.Lines.{trim}
use dsh_opencode.Catalog.Prices.{ModelPrice, member_of, is_nil}

unfoldable pub provider_rank : Text → ℕ
unfolding lower contains
provider_rank key =
    let k = map lower key in
    if same k (codes "opencode") || same k (codes "opencode-zen") || same k (codes "opencode_zen")
    then 0
    else if contains (codes "opencode") k
    then 1
    else 2

abbrev pub object_entries : Json → List (Text × Json)
object_entries (obj fs) = entries fs
object_entries _ = []

module _ (locale_before : Text → Text → Bool) where
  abbrev provider_first : Text × Json → Text × Json → Bool
  provider_first a b =
      if not (provider_rank a.0 == provider_rank b.0)
      then ltb (provider_rank a.0) (provider_rank b.0)
      else locale_before a.0 b.0

  unfoldable pub place_provider : Text × Json → List (Text × Json) → List (Text × Json)
  unfolding provider_rank
  place_provider p [] = p ∷ []
  place_provider p (q ∷ qs) =
      let rest = place_provider p qs in if provider_first p q then p ∷ q ∷ qs else q ∷ rest

  unfoldable pub sort_providers : List (Text × Json) → List (Text × Json)
  unfolding place_provider
  sort_providers [] = []
  sort_providers (p ∷ ps) = place_provider p (sort_providers ps)

-- `num`: a finite number.
abbrev pub finite_number : Option Json → Option Number
finite_number (some (num n)) = if n.is_finite then some n else none
finite_number _ = none

unfoldable pub metadata_deprecated : Json → Bool
unfolding lower string_or_empty
metadata_deprecated model =
    let status = map lower (
      string_or_empty
        (or_nullish (member (codes "status") model) (member (codes "lifecycle") model))) in
    is_true (member (codes "deprecated") model)
    || same status (codes "deprecated")
    || same status (codes "retired")
    || same status (codes "disabled")
    || is_there (member (codes "deprecated_at") model)
    || is_there (member (codes "retirement_date") model)

-- One value of an `effort` entry, kept once.
abbrev pub add_value : Json → List Text → List Text
add_value (str []) values = values
add_value (str (c ∷ s)) values =
    if member_of values (c ∷ s) then values else values ++ ((c ∷ s) ∷ [])
add_value _ values = values

unfoldable pub add_values : List Json → List Text → List Text
unfolding member_of
add_values [] values = values
add_values (v ∷ vs) values = add_values vs (add_value v values)

abbrev pub same_text : Option Text → Text → Bool
same_text none t = false
same_text (some s) t = same s t

abbrev pub effort_list : Option Json → List Json
effort_list (some (arr xs)) = items xs
effort_list _ = []

unfoldable pub add_option : Json → List Text → List Text
unfolding add_values
add_option option values =
    let more = add_values (effort_list (member (codes "values") option)) values in
    if same_text (text_of (member (codes "type") option)) (codes "effort") then more else values

unfoldable pub add_options : List Json → List Text → List Text
unfolding add_option
add_options [] values = values
add_options (o ∷ os) values = add_options os (add_option o values)

-- `decodeEffortValues`: undefined where the field is no array.
unfoldable pub decode_effort_values : Option Json → Option (List Text)
unfolding add_options
decode_effort_values (some (arr xs)) = some (add_options (items xs) [])
decode_effort_values _ = none

abbrev pub model_id : Text → Json → Text
model_id key raw = elim (text_of (member (codes "id") raw)) [
  | none ↦ key
  | some s ↦ if same s [] then key else s
]

unfoldable pub decode_price : Json → ModelPrice
unfolding metadata_deprecated decode_effort_values get
decode_price raw = record {
  input = finite_number (member? (codes "input") (member (codes "cost") raw));
  output = finite_number (member? (codes "output") (member (codes "cost") raw));
  deprecated = metadata_deprecated raw;
  reasoning = some (is_true (member (codes "reasoning") raw));
  effort_values = decode_effort_values (member (codes "reasoning_options") raw);
}

unfoldable pub decode_models :
    List (Text × Json) → List (Text × ModelPrice) → List (Text × ModelPrice)
unfolding decode_price insert text_dec
decode_models [] prices = prices
decode_models ((key, raw) ∷ rest) prices =
    decode_models rest (
      if is_object raw
      then insert text_dec (model_id key raw) (decode_price raw) prices
      else prices)

-- The second test of a provider whose key only mentions the name.
unfoldable pub is_identified : Json → Bool
unfolding lower contains trim string_or_empty
is_identified provider = contains (codes "opencode") (
    trim (
      map lower (
        string_or_empty (member (codes "id") provider)
        ++ (codes " " ++ string_or_empty (member (codes "name") provider)))))

unfoldable pub is_opencode : Text → Json → Bool
unfolding provider_rank is_identified
is_opencode key provider =
    is_object provider
    && ((provider_rank key == 0) || ((provider_rank key == 1) && is_identified provider))

abbrev pub models_of : Json → List (Text × Json)
models_of provider = elim (member (codes "models") provider) [
  | none ↦ []
  | some models ↦ object_entries models
]

-- The loop over the sorted providers, which ends at the first that yields a price.
unfoldable pub decode_providers :
    List (Text × Json) → List (Text × ModelPrice) → List (Text × ModelPrice)
unfolding is_opencode decode_models
decode_providers [] prices = prices
decode_providers ((key, provider) ∷ rest) prices =
    let found =
      if is_opencode key provider then decode_models (models_of provider) prices else prices in
    let later = decode_providers rest found in if not (is_nil found) then found else later

unfoldable pub decode_models_dev : (Text → Text → Bool) → Json → List (Text × ModelPrice)
unfolding sort_providers decode_providers
decode_models_dev locale_before data_ =
    decode_providers (sort_providers locale_before (object_entries data_)) []
