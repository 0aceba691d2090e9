-- ===== src/Adapter/Models.antt =====
-- packages/plugin/src/adapter/zen-adapter.ts: models as the harness and pi-ai see them, and the
-- effort that a request carries.
use dsh_opencode.Base.{
  ℕ, Bool, false, List, [], ◌∷◌, map, Text, codes, Option, none, some, if◌then◌else◌, max, same,
  exists, starts_with,
}
use dsh_opencode.Pool.Types.{or_else}
use dsh_opencode.Dispatcher.Hosts.{lower}
use dsh_opencode.Catalog.Prices.{member_of}
use dsh_opencode.Catalog.Directory.{ModelCatalog, reasoning_capability}
use dsh_opencode.Adapter.Efforts.{ZenReasoningEffort, reasoning_efforts, reasoning_effort_wire}

abbrev pub provider_id : Text
provider_id = codes "OpenCode"

abbrev pub default_context_window : ℕ
default_context_window = 262144

abbrev pub default_max_tokens : ℕ
default_max_tokens = 32768

-- `isResponsesModel`
unfoldable pub is_responses_model : Text → Bool
unfolding lower starts_with
is_responses_model id = starts_with (codes "muse-spark") (map lower id)

pub data Api : Type 0 where
  openai_completions openai_responses : Api

pub record PiModel : Type 0 where
  pub id : Text
  pub api : Api
  pub reasoning : Bool
  pub context_window : ℕ
  pub max_tokens : ℕ

-- `toPiModel`
unfoldable pub to_pi_model : Text → Bool → PiModel
unfolding is_responses_model
to_pi_model id reasoning = record {
  id = id;
  api = if is_responses_model id then Api.openai_responses else Api.openai_completions;
  reasoning = reasoning;
  context_window = default_context_window;
  max_tokens = default_max_tokens;
}

pub record ListedModel : Type 0 where
  pub provider : Text
  pub id : Text

-- `listModels`: each id of the catalog once, where it stands first.
unfoldable pub list_models : Text → List Text → List Text → List ListedModel
unfolding member_of
list_models provider seen [] = []
list_models provider seen (id ∷ ids) =
    let rest = list_models provider (if member_of seen id then seen else id ∷ seen) ids in
    if member_of seen id then rest else record { provider = provider; id = id } ∷ rest

pub record ResolvedModel : Type 0 where
  pub provider : Text
  pub id : Text
  pub context_window : ℕ
  pub default_max_tokens : ℕ
  pub efforts : Option (List ZenReasoningEffort)

-- `resolveModel`
unfoldable pub resolve_model : Text → Text → ModelCatalog → ResolvedModel
unfolding reasoning_efforts reasoning_capability
resolve_model provider model c = record {
  provider = provider;
  id = model;
  context_window = default_context_window;
  default_max_tokens = default_max_tokens;
  efforts = reasoning_efforts (reasoning_capability model c);
}

abbrev pub offers : Text → Option (List ZenReasoningEffort) → Bool
offers id none = false
offers id (some efforts) = exists (λ e. same e.id id) efforts

-- The effort that `#eventsFor` puts on the wire: one that is offered for the model.
unfoldable pub effort_on_wire : Option Text → Option (List ZenReasoningEffort) → Option Text
unfolding reasoning_effort_wire exists
effort_on_wire none efforts = none
effort_on_wire (some []) efforts = none
effort_on_wire (some (c ∷ s)) efforts =
    if offers (c ∷ s) efforts then reasoning_effort_wire (some (c ∷ s)) else none

-- The body-idle window of `stream`, by the api of the model.
unfoldable pub body_idle_window : Option ℕ → Option ℕ → Api → ℕ
body_idle_window body_idle responses_body_idle Api.openai_responses =
    max (or_else body_idle 120000) (or_else responses_body_idle 300000)
body_idle_window body_idle responses_body_idle Api.openai_completions = or_else body_idle 120000
