-- ===== src/Tests/Models.antt =====
-- A catalog with a free and a paid model, ids, and the efforts of a reasoning model
-- (packages/plugin/test/catalog.test.ts, packages/plugin/test/ids.test.ts).
use dsh_opencode.Base.{
  ℕ, ◌≤◌, ◌≡◌, refl, true, false, not, ◌&&◌, List, [], ◌∷◌, map, Text, codes, none, some, arith,
  All, length, if◌then◌else◌,
}
use dsh_opencode.Base.Json.{Number}
use dsh_opencode.Catalog.Prices.{
  ModelPrice, known_unavailable_models, member_of, static_free_models, is_free_model,
}
use dsh_opencode.Catalog.Directory.{ModelCatalog, ReasoningCapability, decision, list}
use dsh_opencode.Catalog.Verdicts
use dsh_opencode.Catalog.Verdicts.{is_offered, knowledge}
use dsh_opencode.Catalog.Listing
use dsh_opencode.Catalog.Listing.{Sorted, times}
use dsh_opencode.Ids.Canonical.{IsBytes}
use dsh_opencode.Adapter.Efforts.{reasoning_efforts, effort}
use dsh_opencode.Adapter.Ladder
use dsh_opencode.Adapter.Ladder.{Ascends, IsSendable, Covers}

abbrev number : ℕ → Text → Number
number n text = record { is_finite = true; negative = false; whole = n; fraction = 0; text = text }

abbrev price : ℕ → Text → ModelPrice
price n text = record {
  input = some (number n text);
  output = some (number n text);
  deprecated = false;
  reasoning = some true;
  effort_values = none;
}

abbrev catalog : ModelCatalog
catalog = record {
  zen = codes "pro" ∷ codes "mini" ∷ [];
  updated_at = 1;
  prices = (codes "mini", price 0 (codes "0")) ∷ (codes "pro", price 5 (codes "5")) ∷ [];
  prices_ready = true;
  last_error = [];
  has_cache_path = false;
  refresh_seconds = 300;
  startup_retry_ms = 15000;
  timer = none;
  stopped = false;
}

decision-table_example : (decision (codes "mini") catalog).allowed ≡ (
    not (member_of known_unavailable_models (codes "mini"))
    && is_offered
        (knowledge (codes "mini") catalog)
        (member_of static_free_models (codes "mini"))
        (is_free_model (codes "mini")))
decision-table_example = Verdicts.decision-table (codes "mini") catalog

list_lem_example :
    Sorted (list catalog)
    × ((m : Text)
        → times m (list catalog)
          ≡ (if (decision m catalog).allowed then times m catalog.zen else 0))
list_lem_example = Listing.list_lem catalog refl

abbrev zero_hash : Text → List ℕ
zero_hash t = 0 ∷ 0 ∷ 0 ∷ 0 ∷ 0 ∷ 0 ∷ 0 ∷ 0 ∷ 0 ∷ 0 ∷ 0 ∷ 0 ∷ 0 ∷ 0 ∷ 0 ∷ 0 ∷ []

zero_hash-IsBytes : (t : Text) → IsBytes (zero_hash t)
zero_hash-IsBytes t = ground arith

zero_hash-long : (t : Text) → 16 ≤ length (zero_hash t)
zero_hash-long t = omega arith

abbrev thinker : ReasoningCapability
thinker = record {
  reasoning = true;
  effort_values = codes "high" ∷ codes "none" ∷ codes "high" ∷ [];
}

reasoning_efforts_lem_example :
    (true ≡ false → reasoning_efforts (some thinker) ≡ none)
    × (true ≡ true
        → (levels : List Text) × ((reasoning_efforts (some thinker) ≡ some (map effort levels))
            × Ascends levels
            × All IsSendable levels
            × Covers thinker.effort_values levels))
reasoning_efforts_lem_example = Ladder.reasoning_efforts_lem (some thinker)

-- A model of no known capability (packages/plugin/test/zen-adapter.test.ts).
no_efforts : reasoning_efforts none ≡ none
unfolding reasoning_efforts
no_efforts = refl
