-- ===== src/Provider.antt =====
-- packages/plugin/src/provider.ts: the models that are registered, and the route that sidecar mode
-- leaves behind. A namespace of the settings is a JSON value; the write of `mutate` is the argument
-- of the step.
pub mod Routes
use dsh_opencode.Base.{
  ℕ, ◌≡◌, refl, Bool, true, false, not, ◌&&◌, List, [], ◌∷◌, ◌++◌, Text, codes, Option, none, some,
  if◌then◌else◌, exists, same, text_dec,
}
use dsh_opencode.Base.Decimal.{decimal}
use dsh_opencode.Base.Json.{
  Json, null, bool, num, str, arr, obj, Fields, Items, nil, cons, end, field, get, set_field,
  remove_field, items, member, member?, text_of,
}
use dsh_opencode.Catalog.Prices.{member_of}
use dsh_opencode.Subscription.Clash.{text_or_empty, name_or, list_in}

pub record PiAiModelEntry : Type 0 where
  pub id : Text
  pub name : Text

abbrev pub provider_base_url : ℕ → Text
provider_base_url port = codes "http://127.0.0.1:" ++ decimal port ++ codes "/v1"

abbrev pub model_entry : Text → Json → PiAiModelEntry
model_entry id item = record {
  id = id;
  name = name_or (text_or_empty (text_of (member (codes "name") item))) id;
}

abbrev pub id_of : Json → Text
id_of item = text_or_empty (text_of (member (codes "id") item))

-- The loop, with the ids seen so far; what is no object has no id.
unfoldable pub model_entries : List Text → List Json → List PiAiModelEntry
unfolding member_of get text_dec
model_entries seen [] = []
model_entries seen (item ∷ rest) =
    let skipped = model_entries seen rest in
    let taken = model_entry (id_of item) item ∷ model_entries (id_of item ∷ seen) rest in
    if same (id_of item) [] then skipped else if member_of seen (id_of item) then skipped else taken

-- `toPiAiModels`
unfoldable pub to_pi_ai_models : Json → List PiAiModelEntry
unfolding model_entries get text_dec
to_pi_ai_models reply = model_entries [] (list_in (member (codes "data") reply))

abbrev pub is_defined : Option Json → Bool
is_defined none = false
is_defined (some v) = true

-- Whether the namespace has a route of the provider.
unfoldable pub has_route : Text → Json → Bool
unfolding get text_dec
has_route provider_id namespace =
    elim (member? provider_id (member (codes "providers") namespace)) [
      | none ↦ false
      | some route ↦ true
    ]

abbrev pub without_provider : Text → Json → Json
without_provider provider_id (obj fs) = obj (remove_field provider_id fs)
without_provider provider_id v = v

abbrev pub unset_in : Text → Fields → Option Json → Json
unset_in provider_id fs none = obj fs
unset_in provider_id fs (some providers) =
    obj (set_field (codes "providers") (without_provider provider_id providers) fs)

abbrev pub unset_route : Text → Json → Json
unset_route provider_id (obj fs) = elim (get (codes "providers") fs) [
  | none ↦ obj fs
  | some providers ↦ obj (set_field (codes "providers") (without_provider provider_id providers) fs)
]
unset_route provider_id v = v

-- `removeProviderRoute` with the write of the settings, and whether it removed a route.
unfoldable pub remove_provider_route : Text → Json → Json × Bool
unfolding has_route get set_field remove_field text_dec
remove_provider_route provider_id namespace =
    if has_route provider_id namespace
    then (unset_route provider_id namespace, true)
    else (namespace, false)
