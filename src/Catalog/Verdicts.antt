-- ===== src/Catalog/Verdicts.antt =====
-- packages/plugin/src/adapter/catalog.ts: which models the chain of verdicts offers.
use dsh_opencode.Base.{
  ◌≡◌, Bool, true, false, not, ◌&&◌, ◌||◌, List, [], ◌∷◌, Text, Option, none, some, arith,
  if◌then◌else◌, text_dec, Bool-cases, Option-cases, inl, inr,
}
use dsh_opencode.Base.Maps.{lookup}
use dsh_opencode.Catalog.Prices.{
  ModelPrice, is_free_model, is_zero, is_unknown, member_of, static_free_models,
  known_unavailable_models, decide, decide_known, decide_price,
}
use dsh_opencode.Catalog.Directory.{ModelCatalog, decision, vouch}

-- What the metadata of models.dev says of a model.
pub data Knowledge : Type 0 where
  silent deprecated free cost_unknown paid : Knowledge

abbrev pub price_knowledge : ModelPrice → Knowledge
price_knowledge price =
    if price.deprecated
    then Knowledge.deprecated
    else if is_zero price.input && is_zero price.output
    then Knowledge.free
    else if is_unknown price.input || is_unknown price.output
    then Knowledge.cost_unknown
    else Knowledge.paid

abbrev pub found_knowledge : Option ModelPrice → Knowledge
found_knowledge none = Knowledge.silent
found_knowledge (some price) = price_knowledge price

-- Metadata that is not loaded says nothing.
abbrev pub knowledge : Text → ModelCatalog → Knowledge
knowledge model c =
    if c.prices_ready then found_knowledge (lookup text_dec model c.prices) else Knowledge.silent

-- The table of offers.
abbrev pub is_offered : Knowledge → Bool → Bool → Bool
is_offered Knowledge.silent verified named_free = verified || named_free
is_offered Knowledge.deprecated verified named_free = verified
is_offered Knowledge.free verified named_free = true
is_offered Knowledge.cost_unknown verified named_free = verified
is_offered Knowledge.paid verified named_free = false

vouch-table :
    (model : Text) (price : ModelPrice)
    → (vouch model (decide_price model price)).allowed
      ≡ is_offered
          (price_knowledge price)
          (member_of static_free_models model)
          (is_free_model model)
unfolding vouch decide_price
vouch-table model price = ground arith

-- The verdict on a model that is not known to be unavailable.
abbrev judged : Text → List (Text × ModelPrice) → Bool → Knowledge
judged model prices ready =
    if ready then found_knowledge (lookup text_dec model prices) else Knowledge.silent

vouch-decide :
    (model : Text) (prices : List (Text × ModelPrice)) (ready : Bool)
    → member_of known_unavailable_models model ≡ false
    → (vouch model (decide model prices ready)).allowed
      ≡ is_offered
          (judged model prices ready)
          (member_of static_free_models model)
          (is_free_model model)
unfolding decide decide_known vouch
vouch-decide model prices false new = ground arith
vouch-decide model [] true new = ground arith
vouch-decide model (p ∷ ps) true new = elim (Option-cases (lookup text_dec model (p ∷ ps))) [
  | inl missing ↦ ground (arith, missing)
  | inr (price, found) ↦ ground (arith, found, vouch-table model price)
]

-- A model is offered by this table of what metadata says, whether the verified list has it and
-- whether its name says free, unless it is known to be unavailable. In particular the verified list
-- overrides a deprecation, but not a price.
pub decision-table :
    (model : Text) (c : ModelCatalog)
    → (decision model c).allowed ≡ (
        not (member_of known_unavailable_models model)
        && is_offered
            (knowledge model c)
            (member_of static_free_models model)
            (is_free_model model))
unfolding decision
decision-table model c = elim (Bool-cases (member_of known_unavailable_models model)) [
  | inl gone ↦ ground (arith, gone)
  | inr new ↦ ground (arith, new, vouch-decide model c.prices c.prices_ready new)
]
