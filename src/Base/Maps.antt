-- ===== src/Base/Maps.antt =====
-- A JavaScript `Map`: an association list in insertion order. Setting a key that is there keeps
-- its place.
use dsh_opencode.Base.Tests.{if◌then◌else◌}
use dsh_opencode.Base.Lists.{All, count_if}
use mathlib.Core.Path.{◌≡◌, refl, ap, ◌∙◌, sym, subst}
use Prim.Native.Nat.{◌+◌}
use mathlib.Core.Logic.{◌≢◌, ite, apply_ite, if_pos, if_neg}
use mathlib.Core.Bool.{Bool, true, false, false≢true}
use mathlib.Core.Option.{Option, none, some}
use mathlib.Core.List.{List, [], ◌∷◌}
use native.Mathlib.Omega.{arith}

module _ {ℓ} {K V : Type ℓ} where
  abbrev pub keys : List (K × V) → List K
  keys [] = []
  keys ((k, v) ∷ m) = k ∷ keys m

  abbrev pub values : List (K × V) → List V
  values [] = []
  values ((k, v) ∷ m) = v ∷ values m

  -- Deletes every entry that the test selects, as the source's `for ... delete` loops do.
  unfoldable pub drop_if : (K → V → Bool) → List (K × V) → List (K × V)
  drop_if p [] = []
  drop_if p ((k, v) ∷ m) = let rest = drop_if p m in if p k v then rest else (k, v) ∷ rest

abbrev is_some {ℓ} : {V : Type ℓ} → Option V → Bool
is_some none = false
is_some (some v) = true

module _ {ℓ} {K V : Type ℓ} (dec : Discrete K) where
  unfoldable pub lookup : K → List (K × V) → Option V
  lookup k [] = none
  lookup k ((j, v) ∷ m) = let rest = lookup k m in ite (dec j k) (some v) rest

  unfoldable pub insert : K → V → List (K × V) → List (K × V)
  insert k v [] = (k, v) ∷ []
  insert k v ((j, w) ∷ m) = let rest = insert k v m in ite (dec j k) ((j, v) ∷ m) ((j, w) ∷ rest)

  unfoldable pub delete : K → List (K × V) → List (K × V)
  delete k [] = []
  delete k ((j, w) ∷ m) = let rest = delete k m in ite (dec j k) rest ((j, w) ∷ rest)

  unfoldable pub has : K → List (K × V) → Bool
  unfolding lookup
  has k m = is_some (lookup k m)

module _ {ℓ} {K V : Type ℓ} (dec : Discrete K) where
  pub lookup-insert :
      (k j : K) (v : V) (m : List (K × V))
      → lookup dec j (insert dec k v m) ≡ ite (dec k j) (some v) (lookup dec j m)
  unfolding lookup insert
  lookup-insert k j v [] = refl
  lookup-insert k j v ((i, w) ∷ m) = ground (arith, lookup-insert k j v m)

  pub lookup-insert_self :
      (k : K) (v : V) (m : List (K × V)) → lookup dec k (insert dec k v m) ≡ some v
  lookup-insert_self k v m = ground (arith, lookup-insert k k v m)

  pub lookup-insert_ne :
      (k j : K) (v : V) (m : List (K × V))
      → k ≢ j
      → lookup dec j (insert dec k v m) ≡ lookup dec j m
  lookup-insert_ne k j v m h = ground (arith, lookup-insert k j v m)

  pub lookup-delete :
      (k j : K) (m : List (K × V))
      → lookup dec j (delete dec k m) ≡ ite (dec k j) none (lookup dec j m)
  unfolding lookup delete
  lookup-delete k j [] = ground arith
  lookup-delete k j ((i, w) ∷ m) = ground (arith, lookup-delete k j m)

  -- A deletion by key leaves the other keys alone.
  pub lookup-drop_if :
      (p : K → V → Bool) (j : K) (m : List (K × V))
      → ((v : V) → p j v ≡ false)
      → lookup dec j (drop_if p m) ≡ lookup dec j m
  unfolding lookup drop_if
  lookup-drop_if p j [] h = refl
  lookup-drop_if p j ((i, w) ∷ m) h = ground (arith, lookup-drop_if p j m h, h w)

  pub lookup-drop_if_gone :
      (p : K → V → Bool) (j : K) (m : List (K × V))
      → ((v : V) → p j v ≡ true)
      → lookup dec j (drop_if p m) ≡ none
  unfolding lookup drop_if
  lookup-drop_if_gone p j [] h = refl
  lookup-drop_if_gone p j ((i, w) ∷ m) h = ground (arith, lookup-drop_if_gone p j m h, h w)

  module _ {ι} (P : K × V → Type ι) where
    pub All-lookup :
        (k : K) (m : List (K × V)) {v : V} → All P m → lookup dec k m ≡ some v → P (k, v)
    unfolding lookup
    All-lookup k [] h e = cc
    All-lookup k ((j, w) ∷ m) {v} h e = elim (dec j k) [
      | yes p ↦ ground (arith, h.0)
      | no p ↦ All-lookup k m h.1 (ground arith)
    ]

    pub All-insert :
        (k : K) (v : V) (m : List (K × V)) → All P m → P (k, v) → All P (insert dec k v m)
    unfolding insert
    All-insert k v [] h q = (q, tt)
    All-insert k v ((j, w) ∷ m) h q = ground (arith, All-insert k v m h.1 q)

    pub All-delete : (k : K) (m : List (K × V)) → All P m → All P (delete dec k m)
    unfolding delete
    All-delete k [] h = h
    All-delete k ((j, w) ∷ m) h = ground (arith, All-delete k m h.1)

module _ {ℓ ι} {K V : Type ℓ} (P : K × V → Type ι) where
  pub All-drop_if : (p : K → V → Bool) (m : List (K × V)) → All P m → All P (drop_if p m)
  unfolding drop_if
  All-drop_if p [] h = h
  All-drop_if p ((j, w) ∷ m) h = ground (arith, All-drop_if p m h.1)

module _ {ℓ} {K V : Type ℓ} (dec : Discrete K) where
  pub has-insert :
      (k j : K) (v : V) (m : List (K × V))
      → has dec j (insert dec k v m) ≡ ite (dec k j) true (has dec j m)
  unfolding has
  has-insert k j v m =
      ap is_some (lookup-insert dec k j v m) ∙ apply_ite is_some (dec k j) (some v) (lookup dec j m)

  pub has-delete :
      (k j : K) (m : List (K × V)) → has dec j (delete dec k m) ≡ ite (dec k j) false (has dec j m)
  unfolding has
  has-delete k j m =
      ap is_some (lookup-delete dec k j m) ∙ apply_ite is_some (dec k j) none (lookup dec j m)

  pub has_of_lookup :
      (k : K) {v : V} (m : List (K × V)) → lookup dec k m ≡ some v → has dec k m ≡ true
  unfolding has
  has_of_lookup k m h = rw (h, has)

  pub lookup_of_has :
      (k : K) (m : List (K × V)) → has dec k m ≡ true → (v : V) × (lookup dec k m ≡ some v)
  unfolding has
  lookup_of_has k m h = go (lookup dec k m) refl h
    where
      go :
          (o : Option V)
          → lookup dec k m ≡ o
          → is_some o ≡ true
          → (v : V) × (lookup dec k m ≡ some v)
      go none e q = cc
      go (some v) e q = (v, e)

  pub lookup_of_has_not : (k : K) (m : List (K × V)) → has dec k m ≡ false → lookup dec k m ≡ none
  unfolding has
  lookup_of_has_not k m h = ground arith

-- No key stands twice.
module _ {ℓ} {K V : Type ℓ} (dec : Discrete K) where
  abbrev pub Unique : List (K × V) → Type 0
  Unique [] = Unit
  Unique ((k, v) ∷ m) = (has dec k m ≡ false) × Unique m

  pub Unique-insert : (k : K) (v : V) (m : List (K × V)) → Unique m → Unique (insert dec k v m)
  unfolding insert has lookup
  Unique-insert k v [] u = (refl, tt)
  Unique-insert k v ((j, w) ∷ m) u = elim (dec j k) [
    | yes p ↦ rw (insert, if_pos _ p) u
    | no p ↦
        rw (insert, if_neg _ p)
          (rw (has-insert dec k j v m, if_neg _ (λ e. p (sym e))) u.0, Unique-insert k v m u.1)
  ]

  pub Unique-delete : (k : K) (m : List (K × V)) → Unique m → Unique (delete dec k m)
  unfolding delete
  Unique-delete k [] u = tt
  Unique-delete k ((j, w) ∷ m) u = elim (dec j k) [
    | yes p ↦ rw (delete, if_pos _ p) (Unique-delete k m u.1)
    | no p ↦
        rw (delete, if_neg _ p)
          (rw (has-delete dec k j m, if_neg _ (λ e. p (sym e))) u.0, Unique-delete k m u.1)
  ]

  pub has-cons :
      (k j : K) (v : V) (m : List (K × V))
      → has dec k ((j, v) ∷ m) ≡ ite (dec j k) true (has dec k m)
  unfolding has lookup
  has-cons k j v m = apply_ite is_some (dec j k) (some v) (lookup dec k m)

  pub delete_absent : (k : K) (m : List (K × V)) → has dec k m ≡ false → delete dec k m ≡ m
  unfolding delete
  delete_absent k [] h = refl
  delete_absent k ((j, w) ∷ m) h = elim (dec j k) [
    | yes p ↦ absurd (false≢true (sym h ∙ has-cons k j w m ∙ if_pos (dec j k) p true (has dec k m)))
    | no p ↦
        rw (delete, if_neg _ p)
          (ap (◌∷◌ (j, w)) (
            delete_absent k m (sym (has-cons k j w m ∙ if_neg (dec j k) p true (has dec k m)) ∙ h)))
  ]

  module _ (p : V → Bool) where
    -- Deleting a present key takes its value out of the count.
    pub count-delete :
        (k : K) (v : V) (m : List (K × V))
        → Unique m
        → lookup dec k m ≡ some v
        → count_if p (values (delete dec k m)) + (if p v then 1 else 0) ≡ count_if p (values m)
    unfolding delete lookup count_if
    count-delete k v [] u e = cc
    count-delete k v ((j, w) ∷ m) u e = elim (dec j k) [
      | yes h ↦
          let absent : delete dec k m ≡ m =
            delete_absent k m (subst (λ i. has dec i m ≡ false) h u.0) in
          let stored : some w ≡ some v = sym (if_pos (dec j k) h (some w) (lookup dec k m)) ∙ e in
          let found : w ≡ v = cc in rw (delete, if_pos _ h, absent, found) (ground arith)
      | no h ↦
          rw (delete, if_neg _ h)
            (ground (
              arith,
              count-delete k v m u.1 (sym (if_neg (dec j k) h (some w) (lookup dec k m)) ∙ e),
            ))
    ]
