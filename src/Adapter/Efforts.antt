-- ===== src/Adapter/Efforts.antt =====
-- packages/plugin/src/adapter/zen-adapter.ts: the reasoning efforts that are offered, and what is
-- sent for one.
use dsh_opencode.Base.{
  ℕ, zero, suc, ◌-◌, not, ◌&&◌, List, [], ◌∷◌, ◌++◌, map, Text, codes, Option, none, some,
  if◌then◌else◌, ltb, leb, same,
}
use dsh_opencode.Catalog.Prices.{member_of}
use dsh_opencode.Catalog.Directory.{ReasoningCapability}

abbrev pub reasoning_effort_ladder : List Text
reasoning_effort_ladder =
    codes "off"
    ∷ codes "minimal"
    ∷ codes "low"
    ∷ codes "medium"
    ∷ codes "high"
    ∷ codes "xhigh"
    ∷ codes "max"
    ∷ []

abbrev pub default_effort_ladder : List Text
default_effort_ladder =
    codes "off" ∷ codes "minimal" ∷ codes "low" ∷ codes "medium" ∷ codes "high" ∷ []

pub record ZenReasoningEffort : Type 0 where
  pub id : Text
  pub name : Text

abbrev pub level_of : Text → Text
level_of value = if same value (codes "none") then codes "off" else value

-- The declared levels that the ladder has, each once.
unfoldable pub declared_levels : List Text → List Text → List Text
unfolding member_of
declared_levels [] declared = declared
declared_levels (value ∷ values) declared =
    let level = level_of value in
    declared_levels values (
      if member_of reasoning_effort_ladder level && not (member_of declared level)
      then declared ++ (level ∷ [])
      else declared)

-- `indexOf`, counted from one, with 0 for a level that the ladder lacks.
unfoldable pub index_of : Text → List Text → ℕ
index_of level [] = 0
index_of level (x ∷ xs) =
    let rest = index_of level xs in
    if same x level then 1 else elim rest [ zero ↦ 0 | suc i ↦ suc (suc i) ]

abbrev pub rung : Text → ℕ
rung level = index_of level reasoning_effort_ladder

-- `sort` by the place on the ladder.
unfoldable pub place_level : Text → List Text → List Text
unfolding index_of
place_level s [] = s ∷ []
place_level s (t ∷ ts) =
    let rest = place_level s ts in if ltb (rung t) (rung s) then t ∷ rest else s ∷ t ∷ ts

unfoldable pub sort_levels : List Text → List Text
unfolding place_level
sort_levels [] = []
sort_levels (s ∷ ts) = place_level s (sort_levels ts)

abbrev pub capitalized : Text → Text
capitalized [] = []
capitalized (c ∷ s) = (if leb b'a' c && leb c b'z' then c - 32 else c) ∷ s

abbrev pub effort : Text → ZenReasoningEffort
effort level = record { id = level; name = capitalized level }

abbrev pub levels_or_default : List Text → List Text
levels_or_default [] = default_effort_ladder
levels_or_default (s ∷ ts) = sort_levels (s ∷ ts)

-- `reasoningEfforts`
unfoldable pub reasoning_efforts : Option ReasoningCapability → Option (List ZenReasoningEffort)
unfolding declared_levels sort_levels
reasoning_efforts none = none
reasoning_efforts (some capability) =
    if capability.reasoning
    then some (map effort (levels_or_default (declared_levels capability.effort_values [])))
    else none

-- `reasoningEffortWire`
unfoldable pub reasoning_effort_wire : Option Text → Option Text
unfolding member_of
reasoning_effort_wire none = none
reasoning_effort_wire (some id) =
    if same id (codes "off")
    then some (codes "none")
    else if member_of reasoning_effort_ladder id
    then some id
    else none
