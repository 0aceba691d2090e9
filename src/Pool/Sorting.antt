-- ===== src/Pool/Sorting.antt =====
-- packages/plugin/src/pool/pool.ts: the order of the exits in `pick`, whatever the coin says.
use dsh_opencode.Base.{
  ◌≡◌, refl, ◌<◌, ◌≤◌, ◌⊎◌, ◌≢◌, inl, inr, Bool, true, false, List, [], ◌∷◌, Text, arith, All,
  Bool-cases, text_dec,
}
use dsh_opencode.Base.Maps.{has, keys, lookup}
use dsh_opencode.Pool.Types.{ExitPool, ExitNode}
use dsh_opencode.Pool.Selection.{Rank, rank, goes_first, place, sort}

-- The lexicographic order: a better state, then fewer consecutive 429 answers, then less latency.
abbrev pub RankLe : Rank → Rank → Type 0
RankLe l r =
    (l.by_state < r.by_state)
    ⊎ ((l.by_state ≡ r.by_state)
        × ((l.by_limited < r.by_limited)
            ⊎ ((l.by_limited ≡ r.by_limited) × (l.by_latency ≤ r.by_latency))))

RankLe-refl : (r : Rank) → RankLe r r
RankLe-refl r = ground arith

RankLe-trans : (q r t : Rank) → RankLe q r → RankLe r t → RankLe q t
RankLe-trans q r t h k = ground arith

goes_first-RankLe : (l r : Rank) (coin : Bool) → goes_first l r coin ≡ true → RankLe l r
unfolding goes_first
goes_first-RankLe l r coin h = ground arith

not-goes_first-RankLe : (l r : Rank) (coin : Bool) → goes_first l r coin ≡ false → RankLe r l
unfolding goes_first
not-goes_first-RankLe l r coin h = ground arith

module _ (coin : Text → Text → Bool) (p : ExitPool) where
  module _ (P : Text → Type 0) where
    place-All : (x : Text) (ys : List Text) → P x → All P ys → All P (place coin p x ys)
    unfolding place
    place-All x [] h k = (h, tt)
    place-All x (y ∷ ys) h k = ground (arith, place-All x ys h k.1)

    pub sort-All : (xs : List Text) → All P xs → All P (sort coin p xs)
    unfolding sort
    sort-All [] h = tt
    sort-All (x ∷ xs) h = place-All x (sort coin p xs) h.0 (sort-All xs h.1)

    All-place : (x : Text) (ys : List Text) → All P (place coin p x ys) → P x × All P ys
    unfolding place
    All-place x [] h = h
    All-place x (y ∷ ys) h = elim (Bool-cases (goes_first (rank p x) (rank p y) (coin x y))) [
      | inl e ↦ ground (arith, h)
      | inr e ↦
          let both : P y × All P (place coin p x ys) = ground (arith, h) in
          let rest = All-place x ys both.1 in (rest.0, (both.0, rest.1))
    ]

    pub All-sort : (xs : List Text) → All P (sort coin p xs) → All P xs
    unfolding sort
    All-sort [] h = tt
    All-sort (x ∷ xs) h = let rest = All-place x (sort coin p xs) h in (rest.0, All-sort xs rest.1)

  -- The first element is no worse than any other.
  abbrev HeadIsLeast : List Text → Type 0
  HeadIsLeast [] = Unit
  HeadIsLeast (y ∷ ys) = All (λ x. RankLe (rank p y) (rank p x)) ys

  All-RankLe_trans :
      (x y : Text) (ys : List Text)
      → RankLe (rank p x) (rank p y)
      → All (λ z. RankLe (rank p y) (rank p z)) ys
      → All (λ z. RankLe (rank p x) (rank p z)) ys
  All-RankLe_trans x y [] h k = tt
  All-RankLe_trans x y (z ∷ zs) h k =
      (RankLe-trans (rank p x) (rank p y) (rank p z) h k.0, All-RankLe_trans x y zs h k.1)

  place-HeadIsLeast : (x : Text) (ys : List Text) → HeadIsLeast ys → HeadIsLeast (place coin p x ys)
  unfolding place
  place-HeadIsLeast x [] h = tt
  place-HeadIsLeast x (y ∷ ys) h = elim (Bool-cases (goes_first (rank p x) (rank p y) (coin x y))) [
    | inl e ↦ front e (goes_first-RankLe (rank p x) (rank p y) (coin x y) e)
    | inr e ↦ back e (not-goes_first-RankLe (rank p x) (rank p y) (coin x y) e)
  ]
    where
      front :
          goes_first (rank p x) (rank p y) (coin x y) ≡ true
          → RankLe (rank p x) (rank p y)
          → HeadIsLeast (place coin p x (y ∷ ys))
      front e le = rw (e, place) (le, All-RankLe_trans x y ys le h)

      back :
          goes_first (rank p x) (rank p y) (coin x y) ≡ false
          → RankLe (rank p y) (rank p x)
          → HeadIsLeast (place coin p x (y ∷ ys))
      back e le = rw (e, place) (place-All (λ z. RankLe (rank p y) (rank p z)) x ys le h)

  sort-HeadIsLeast : (xs : List Text) → HeadIsLeast (sort coin p xs)
  unfolding sort
  sort-HeadIsLeast [] = tt
  sort-HeadIsLeast (x ∷ xs) = place-HeadIsLeast x (sort coin p xs) (sort-HeadIsLeast xs)

  -- What the sort puts first is no worse than any exit that it was given.
  pub sort-least :
      (xs : List Text) {y : Text} {ys : List Text}
      → sort coin p xs ≡ y ∷ ys
      → All (λ x. RankLe (rank p y) (rank p x)) xs
  sort-least xs {y} {ys} e =
      All-sort (λ x. RankLe (rank p y) (rank p x)) xs
        (rw e (RankLe-refl (rank p y), rw e at (sort-HeadIsLeast xs)))

  place-ne-nil : (x : Text) (ys : List Text) → place coin p x ys ≢ []
  unfolding place
  place-ne-nil x [] h = cc
  place-ne-nil x (y ∷ ys) h = ground arith

  pub sort-eq-nil : (xs : List Text) → sort coin p xs ≡ [] → xs ≡ []
  unfolding sort
  sort-eq-nil [] h = refl
  sort-eq-nil (x ∷ xs) h = absurd (place-ne-nil x (sort coin p xs) h)

-- Every key of the table is one that a lookup finds.
All-has-cons :
    (k : Text) (n : ExitNode) (m : List (Text × ExitNode)) (ks : List Text)
    → All (λ id. has text_dec id m ≡ true) ks
    → All (λ id. has text_dec id ((k, n) ∷ m) ≡ true) ks
unfolding has lookup
All-has-cons k n m [] h = tt
All-has-cons k n m (j ∷ ks) h = (ground (arith, h.0), All-has-cons k n m ks h.1)

pub keys-All-has : (m : List (Text × ExitNode)) → All (λ id. has text_dec id m ≡ true) (keys m)
unfolding has lookup
keys-All-has [] = tt
keys-All-has ((k, n) ∷ m) = (ground arith, All-has-cons k n m (keys m) (keys-All-has m))
