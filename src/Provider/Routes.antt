-- ===== src/Provider/Routes.antt =====
-- packages/plugin/src/provider.ts: the stale route is gone, and the models are listed once.
use dsh_opencode.Base.{
  ◌≡◌, ◌≢◌, refl, ap, ◌∙◌, false, List, [], ◌∷◌, Text, codes, Option, none, some, arith,
}
use dsh_opencode.Base.Json.{
  Json, null, bool, num, str, arr, obj, Fields, end, field, get, set_field, remove_field, member,
  member?, text_of,
}
use dsh_opencode.Catalog.Prices.{member_of}
use dsh_opencode.Subscription.Clash.{text_or_empty, name_or, list_in}
use dsh_opencode.Provider.{
  PiAiModelEntry, id_of, model_entries, to_pi_ai_models, has_route, without_provider, unset_route,
  unset_in, is_defined, remove_provider_route,
}

get-set_field : (k : Text) (v : Json) (fs : Fields) → get k (set_field k v fs) ≡ some v
unfolding get set_field
get-set_field k v end = ground arith
get-set_field k v (field j w fs) = ground (arith, get-set_field k v fs)

get-remove_field : (k : Text) (fs : Fields) → get k (remove_field k fs) ≡ none
unfolding get remove_field
get-remove_field k end = refl
get-remove_field k (field j w fs) = ground (arith, get-remove_field k fs)

without_provider-gone :
    (provider_id : Text) (providers : Json)
    → member provider_id (without_provider provider_id providers) ≡ none
without_provider-gone provider_id (obj fs) = get-remove_field provider_id fs
without_provider-gone provider_id null = refl
without_provider-gone provider_id (bool b) = refl
without_provider-gone provider_id (num n) = refl
without_provider-gone provider_id (str s) = refl
without_provider-gone provider_id (arr xs) = refl

unset_in-gone :
    (provider_id : Text) (fs : Fields) (providers : Option Json)
    → get (codes "providers") fs ≡ providers
    → has_route provider_id (unset_in provider_id fs providers) ≡ false
unfolding has_route
unset_in-gone provider_id fs none e = ap (λ o. is_defined (member? provider_id o)) e
unset_in-gone provider_id fs (some providers) e =
    ap (λ o. is_defined (member? provider_id o))
      (get-set_field (codes "providers") (without_provider provider_id providers) fs)
    ∙ ap is_defined (without_provider-gone provider_id providers)

unset_route-gone :
    (provider_id : Text) (namespace : Json)
    → has_route provider_id (unset_route provider_id namespace) ≡ false
unfolding has_route
unset_route-gone provider_id null = refl
unset_route-gone provider_id (bool b) = refl
unset_route-gone provider_id (num n) = refl
unset_route-gone provider_id (str s) = refl
unset_route-gone provider_id (arr xs) = refl
unset_route-gone provider_id (obj fs) =
    unset_in-gone provider_id fs (get (codes "providers") fs) refl

-- After the removal no route of the provider is left, and it says truly whether there was one.
pub remove_provider_route_lem :
    (provider_id : Text) (namespace : Json)
    → ((remove_provider_route provider_id namespace).1 ≡ has_route provider_id namespace)
      × (has_route provider_id (remove_provider_route provider_id namespace).0 ≡ false)
unfolding remove_provider_route
remove_provider_route_lem provider_id namespace =
    ground (arith, unset_route-gone provider_id namespace)

-- An entry that is no repetition of those seen, with its name in place.
abbrev pub AreNew : List Text → List PiAiModelEntry → Type 0
AreNew seen [] = Unit
AreNew seen (e ∷ es) =
    (member_of seen e.id ≡ false) × (e.id ≢ []) × (e.name ≢ []) × AreNew (e.id ∷ seen) es

name_or-ne : (name id : Text) → id ≢ [] → name_or name id ≢ []
name_or-ne [] id n = n
name_or-ne (c ∷ name) id n = λ e. cc

model_entries-AreNew : (seen : List Text) (rest : List Json) → AreNew seen (model_entries seen rest)
unfolding model_entries
model_entries-AreNew seen [] = tt
model_entries-AreNew seen (item ∷ rest) = ground (
  arith,
  model_entries-AreNew seen rest,
  model_entries-AreNew (id_of item ∷ seen) rest,
  name_or-ne (text_or_empty (text_of (member (codes "name") item))) (id_of item),
)

-- The models that are registered have an id and a name each, and no id is there twice.
pub to_pi_ai_models-AreNew : (reply : Json) → AreNew [] (to_pi_ai_models reply)
unfolding to_pi_ai_models
to_pi_ai_models-AreNew reply = model_entries-AreNew [] (list_in (member (codes "data") reply))
