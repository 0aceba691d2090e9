-- ===== src/Adapter/Ladder.antt =====
-- packages/plugin/src/adapter/zen-adapter.ts: the efforts offered for a model.
use dsh_opencode.Base.{
  ◌<◌, ◌≡◌, ◌≢◌, refl, ◌∙◌, subst, inl, inr, Bool, true, false, not, ◌&&◌, ◌||◌, List, [], ◌∷◌,
  ◌++◌, map, Text, codes, none, some, arith, if◌then◌else◌, ltb, same, text_dec, exists, All,
  All-append, Bool-cases, Option,
}
use mathlib.Core.Bool.{false≢true}
use dsh_opencode.Catalog.Prices.{member_of}
use dsh_opencode.Catalog.Directory.{ReasoningCapability}
use dsh_opencode.Adapter.Efforts.{
  reasoning_effort_ladder, level_of, declared_levels, index_of, rung, place_level, sort_levels,
  effort, levels_or_default, reasoning_efforts, reasoning_effort_wire,
}

index_of-inj :
    (xs : List Text) (s t : Text) → index_of s xs ≡ index_of t xs → index_of s xs ≢ 0 → s ≡ t
unfolding index_of
index_of-inj [] s t e h = elim (h refl) [ ]
index_of-inj (x ∷ xs) s t e h = ground (arith, index_of-inj xs s t)

index_of-member : (xs : List Text) (s : Text) → member_of xs s ≡ true → index_of s xs ≢ 0
unfolding index_of member_of exists
index_of-member [] s h e = false≢true h
index_of-member (x ∷ xs) s h e = ground (arith, index_of-member xs s)

-- In the order of the ladder, strictly, so that no level is repeated.
abbrev pub Ascends : List Text → Type 0
Ascends [] = Unit
Ascends (s ∷ ts) = All (λ t. rung s < rung t) ts × Ascends ts

abbrev pub Distinct : List Text → Type 0
Distinct [] = Unit
Distinct (s ∷ ts) = All (λ t. rung s ≢ rung t) ts × Distinct ts

place_level-All :
    (P : Text → Type 0) (s : Text) (ts : List Text) → P s → All P ts → All P (place_level s ts)
unfolding place_level
place_level-All P s [] p h = (p, tt)
place_level-All P s (t ∷ ts) p h = elim (Bool-cases (ltb (rung t) (rung s))) [
  | inl e ↦ rw (e) (h.0, place_level-All P s ts p h.1)
  | inr e ↦ rw (e) (p, h)
]

sort_levels-All : (P : Text → Type 0) (ts : List Text) → All P ts → All P (sort_levels ts)
unfolding sort_levels
sort_levels-All P [] h = tt
sort_levels-All P (s ∷ ts) h = place_level-All P s (sort_levels ts) h.0 (sort_levels-All P ts h.1)

below-All :
    (s t : Text) (ts : List Text)
    → rung s < rung t
    → All (λ u. rung t < rung u) ts
    → All (λ u. rung s < rung u) ts
below-All s t [] l h = tt
below-All s t (u ∷ ts) l h = (omega (arith, l, h.0), below-All s t ts l h.1)

place_level-Ascends :
    (s : Text) (ts : List Text)
    → All (λ t. rung s ≢ rung t) ts
    → Ascends ts
    → Ascends (place_level s ts)
unfolding place_level
place_level-Ascends s [] d h = (tt, tt)
place_level-Ascends s (t ∷ ts) d h = elim (Bool-cases (ltb (rung t) (rung s))) [
  | inl e ↦ rw (e) (
    place_level-All (λ u. rung t < rung u) s ts (ground arith) h.0,
    place_level-Ascends s ts d.1 h.1,
  )
  | inr e ↦
      let below : rung s < rung t = ground (arith, d.0) in
      rw (e) ((below, below-All s t ts below h.0), h)
]

sort_levels-Ascends : (ts : List Text) → Distinct ts → Ascends (sort_levels ts)
unfolding sort_levels
sort_levels-Ascends [] d = tt
sort_levels-Ascends (s ∷ ts) d =
    place_level-Ascends s (sort_levels ts) (sort_levels-All (λ t. rung s ≢ rung t) ts d.0)
      (sort_levels-Ascends ts d.1)

-- The declared levels, each on the ladder and each once.
abbrev pub OnLadder : Text → Type 0
OnLadder s = member_of reasoning_effort_ladder s ≡ true

differs : (t s : Text) (ts : List Text) → OnLadder t → member_of (t ∷ ts) s ≡ false → t ≢ s
unfolding member_of exists
differs t s ts l m e = ground arith

append-Distinct :
    (ts : List Text) (s : Text)
    → Distinct ts
    → All OnLadder ts
    → OnLadder s
    → member_of ts s ≡ false
    → Distinct (ts ++ (s ∷ []))
unfolding member_of exists
append-Distinct [] s d l o m = (tt, tt)
append-Distinct (t ∷ ts) s d l o m = (
  All-append (λ u. rung t ≢ rung u) ts (s ∷ []) d.0
      (
        (λ e. differs t s ts l.0 m (
            index_of-inj reasoning_effort_ladder t s e
              (index_of-member reasoning_effort_ladder t l.0))),
        tt,
      ),
  append-Distinct ts s d.1 l.1 o (ground arith),
)

declared_levels-Distinct :
    (values declared : List Text)
    → Distinct declared
    → All OnLadder declared
    → Distinct (declared_levels values declared) × All OnLadder (declared_levels values declared)
unfolding declared_levels
declared_levels-Distinct [] declared d l = (d, l)
declared_levels-Distinct (value ∷ values) declared d l =
    let level = level_of value in
    elim (Bool-cases (member_of reasoning_effort_ladder level && not (member_of declared level))) [
      | inl e ↦ rw (e) (
          declared_levels-Distinct values (declared ++ (level ∷ []))
            (append-Distinct declared level d l (ground arith) (ground arith))
            (All-append OnLadder declared (level ∷ []) l (ground arith, tt)))
      | inr e ↦ rw (e) (declared_levels-Distinct values declared d l)
    ]

-- What `reasoning_effort_wire` sends for a level names that level again.
abbrev pub IsSendable : Text → Type 0
IsSendable id =
    (wire : Text) × ((reasoning_effort_wire (some id) ≡ some wire) × (level_of wire ≡ id))

keeps_level : (id : Text) → OnLadder id → level_of id ≡ id
unfolding member_of exists text_dec
keeps_level id l = elim (Bool-cases (same id (codes "none"))) [
  | inl e ↦ ground (arith, l, e)
  | inr e ↦ rw (e) refl
]

OnLadder-IsSendable : (id : Text) → OnLadder id → IsSendable id
unfolding reasoning_effort_wire
OnLadder-IsSendable id l = elim (Bool-cases (same id (codes "off"))) [
  | inl e ↦ rw (e) (codes "none", (refl, ground (arith, e)))
  | inr e ↦ rw (e, l) (id, (refl, keeps_level id l))
]

All-map : (P Q : Text → Type 0) (ts : List Text) → ((t : Text) → P t → Q t) → All P ts → All Q ts
All-map P Q [] f h = tt
All-map P Q (t ∷ ts) f h = (f t h.0, All-map P Q ts f h.1)

member-append :
    (ts : List Text) (s x : Text) → member_of (ts ++ (s ∷ [])) x ≡ (member_of ts x || same s x)
unfolding member_of exists
member-append [] s x = ground arith
member-append (t ∷ ts) s x = ground (arith, member-append ts s x)

declared_levels-keeps :
    (values declared : List Text) (x : Text)
    → member_of declared x ≡ true
    → member_of (declared_levels values declared) x ≡ true
unfolding declared_levels
declared_levels-keeps [] declared x h = h
declared_levels-keeps (value ∷ values) declared x h =
    let level = level_of value in
    elim (Bool-cases (member_of reasoning_effort_ladder level && not (member_of declared level))) [
      | inl e ↦ rw (e) (
          declared_levels-keeps values (declared ++ (level ∷ [])) x
            (member-append declared level x ∙ rw (h) refl))
      | inr e ↦ rw (e) (declared_levels-keeps values declared x h)
    ]

-- The declared values whose level is on the ladder are among some levels.
abbrev pub Covers : List Text → List Text → Type 0
Covers values levels =
    All
      (λ v.
        member_of reasoning_effort_ladder (level_of v) ≡ true
        → member_of levels (level_of v) ≡ true)
      values

declared_levels-Covers :
    (values declared : List Text) → Covers values (declared_levels values declared)
unfolding declared_levels
declared_levels-Covers [] declared = tt
declared_levels-Covers (value ∷ values) declared =
    let level = level_of value in
    let whole = declared_levels (value ∷ values) declared in
    elim (Bool-cases (member_of reasoning_effort_ladder level && not (member_of declared level))) [
      | inl e ↦
          let more = declared ++ (level ∷ []) in
          let step : declared_levels values more ≡ whole = rw (e) refl in
          subst (Covers (value ∷ values)) step (
            (λ o.
                declared_levels-keeps values more level
                  (member-append declared level level ∙ ground arith)),
            declared_levels-Covers values more,
          )
      | inr e ↦
          let step : declared_levels values declared ≡ whole = rw (e) refl in
          subst (Covers (value ∷ values)) step (
            (λ o. declared_levels-keeps values declared level (ground arith)),
            declared_levels-Covers values declared,
          )
    ]

if_or : (a r : Bool) → (if a then true else r) ≡ (a || r)
if_or a r = ground arith

if_or_swap :
    (a b m r : Bool) → m ≡ (b || r) → (if a then true else m) ≡ (b || (if a then true else r))
if_or_swap a b m r h = ground arith

member-place :
    (s : Text) (ts : List Text) (x : Text)
    → member_of (place_level s ts) x ≡ (same s x || member_of ts x)
unfolding place_level member_of exists
member-place s [] x = ground arith
member-place s (t ∷ ts) x = elim (Bool-cases (ltb (rung t) (rung s))) [
  | inl e ↦ rw (e) (
      if_or_swap (same t x) (same s x) (member_of (place_level s ts) x) (member_of ts x)
        (member-place s ts x))
  | inr e ↦ rw (e) (if_or (same s x) (member_of (t ∷ ts) x))
]

member-sort : (ts : List Text) (x : Text) → member_of (sort_levels ts) x ≡ member_of ts x
unfolding sort_levels member_of exists
member-sort [] x = refl
member-sort (s ∷ ts) x = ground (arith, member-place s (sort_levels ts) x, member-sort ts x)

Covers-more :
    (values ts us : List Text)
    → ((x : Text) → member_of ts x ≡ true → member_of us x ≡ true)
    → Covers values ts
    → Covers values us
Covers-more [] ts us f h = tt
Covers-more (v ∷ values) ts us f h = ((λ o. f (level_of v) (h.0 o)), Covers-more values ts us f h.1)

levels_or_default-Ascends : (ts : List Text) → Distinct ts → Ascends (levels_or_default ts)
unfolding index_of
levels_or_default-Ascends [] d = ground arith
levels_or_default-Ascends (s ∷ ts) d = sort_levels-Ascends (s ∷ ts) d

levels_or_default-All : (ts : List Text) → All OnLadder ts → All OnLadder (levels_or_default ts)
unfolding member_of exists text_dec
levels_or_default-All [] l = (refl, (refl, (refl, (refl, (refl, tt)))))
levels_or_default-All (s ∷ ts) l = sort_levels-All OnLadder (s ∷ ts) l

levels_or_default-member :
    (ts : List Text) (x : Text) → member_of ts x ≡ true → member_of (levels_or_default ts) x ≡ true
unfolding member_of exists
levels_or_default-member [] x h = elim (false≢true h) [ ]
levels_or_default-member (s ∷ ts) x h = member-sort (s ∷ ts) x ∙ h

-- `capability?.reasoning`, and the values that a capability declares.
abbrev pub is_reasoning : Option ReasoningCapability → Bool
is_reasoning none = false
is_reasoning (some capability) = capability.reasoning

abbrev pub declared_values : Option ReasoningCapability → List Text
declared_values none = []
declared_values (some capability) = capability.effort_values

-- The efforts offered for a reasoning model ascend on the ladder without a repeat; for each, what
-- goes on the wire names the same level; and every declared value whose level the ladder has is
-- offered. For a model that does not reason, and for one of no known capability, nothing is
-- offered.
pub reasoning_efforts_lem :
    (capability : Option ReasoningCapability)
    → (is_reasoning capability ≡ false → reasoning_efforts capability ≡ none)
      × (is_reasoning capability ≡ true
          → (levels : List Text) × ((reasoning_efforts capability ≡ some (map effort levels))
              × Ascends levels
              × All IsSendable levels
              × Covers (declared_values capability) levels))
unfolding reasoning_efforts
reasoning_efforts_lem none = ((λ e. refl), (λ e. elim (false≢true e) [ ]))
reasoning_efforts_lem (some capability) =
    let values = capability.effort_values in
    let declared = declared_levels values [] in
    let (distinct, known) = declared_levels-Distinct values [] tt tt in
    (
      (λ e. rw (e) refl),
      (λ e. (
        levels_or_default declared,
        (
          rw (e) refl,
          levels_or_default-Ascends declared distinct,
          All-map OnLadder IsSendable (levels_or_default declared) OnLadder-IsSendable
              (levels_or_default-All declared known),
          Covers-more values declared (levels_or_default declared)
              (levels_or_default-member declared) (declared_levels-Covers values []),
        ),
      )),
    )
