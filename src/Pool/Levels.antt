-- ===== src/Pool/Levels.antt =====
-- packages/plugin/src/pool/pool.ts: the four states, the quota, the counts and the eviction.
use dsh_opencode.Base.{
  ℕ, ◌+◌, ◌*◌, ◌≤◌, ◌<◌, max, ◌≡◌, refl, sym, subst, ◌∙◌, ◌⊎◌, inl, inr, Bool, true, false, ◌&&◌,
  List, [], ◌∷◌, Text, Option, none, some, arith, if◌then◌else◌, length, count_if, Bool-cases,
  Option-cases, All, text_dec,
}
use dsh_opencode.Base.Maps.{values, Unique, lookup, has_of_lookup, count-delete}
use dsh_opencode.Pool.Types.{ExitNode, ExitPool, ExitSource, PoolState}
use dsh_opencode.Pool.Table.{remove}
use dsh_opencode.Pool.Invariant.{IsConsistent}
use mathlib.Core.Bool.{false≢true}
use dsh_opencode.Pool.Signals.{is_free}
use dsh_opencode.Pool.Capacity.{
  state_of, pool_state, admission_quota, available_free_count, is_available, free_count, is_worse,
  worst_free, evict_worst_free, grade_rank, count_sources, BySource, add_source, snapshot,
}

-- How far a state is from healthy.
abbrev pub severity : PoolState → ℕ
severity PoolState.healthy = 0
severity PoolState.warning = 1
severity PoolState.critical = 2
severity PoolState.emergency = 3

-- With more exits at hand the state is never worse.
pub state_of_mono :
    (a b target : ℕ) → a ≤ b → severity (state_of b target) ≤ severity (state_of a target)
unfolding state_of
state_of_mono a b target h = ground arith

-- The quota is what is missing: with that many more exits the count reaches the target, and the
-- state is healthy. While the state is healthy, at most a twentieth of the target is missing.
pub admission_quota_lem :
    (now : ℕ) (p : ExitPool)
    → let have = available_free_count now p in
      (have + admission_quota now p ≡ max have p.target_size)
      × (state_of (have + admission_quota now p) p.target_size ≡ PoolState.healthy)
      × (pool_state now p ≡ PoolState.healthy → admission_quota now p * 20 ≤ p.target_size)
unfolding admission_quota pool_state state_of
admission_quota_lem now p = (omega arith, ground arith, λ h. ground arith)

count_if_mono :
    (p q : ExitNode → Bool) (ns : List ExitNode)
    → ((n : ExitNode) → p n ≡ true → q n ≡ true)
    → count_if p ns ≤ count_if q ns
unfolding count_if
count_if_mono p q [] h = omega arith
count_if_mono p q (n ∷ ns) h = ground (arith, count_if_mono p q ns h, h n)

add_source_total :
    (c : BySource) (source : ExitSource)
    → let r = add_source source c in
      (r.free + r.manual + r.subscription + r.goproxy
        ≡ c.free + c.manual + c.subscription + c.goproxy + 1)
      × (r.free ≡ c.free + (if is_free source then 1 else 0))
add_source_total c ExitSource.free = (omega arith, omega arith)
add_source_total c ExitSource.manual = (omega arith, omega arith)
add_source_total c ExitSource.subscription = (omega arith, omega arith)
add_source_total c ExitSource.goproxy = (omega arith, omega arith)

count_sources_total :
    (c : BySource) (ns : List ExitNode)
    → let r = count_sources c ns in
      (r.free + r.manual + r.subscription + r.goproxy
        ≡ c.free + c.manual + c.subscription + c.goproxy + length ns)
      × (r.free ≡ c.free + count_if (λ n. is_free n.source) ns)
unfolding count_sources count_if
count_sources_total c [] = (omega arith, omega arith)
count_sources_total c (n ∷ ns) =
    ground (arith, add_source_total c n.source, count_sources_total (add_source n.source c) ns)

abbrev no_sources : BySource
no_sources = record { free = 0; manual = 0; subscription = 0; goproxy = 0 }

length-values : (m : List (Text × ExitNode)) → length (values m) ≡ length m
length-values [] = refl
length-values ((k, n) ∷ m) = omega (arith, length-values m)

-- The snapshot counts every node under exactly one source, its free ones agree with the count
-- that the admission gate reads, and it lists no more available free nodes than free ones.
pub snapshot_counts :
    (now : ℕ) (p : ExitPool)
    → let s = snapshot now p in
      (s.by_source.free + s.by_source.manual + s.by_source.subscription + s.by_source.goproxy
        ≡ s.total)
      × (s.by_source.free ≡ free_count p)
      × (s.available_free ≤ s.by_source.free)
unfolding snapshot free_count available_free_count
snapshot_counts now p =
    let (total, free) = count_sources_total no_sources (values p.nodes) in
    (
      total ∙ omega (arith, length-values p.nodes),
      free ∙ omega arith,
      omega (
        arith,
        free,
        count_if_mono (λ n. is_free n.source && is_available now n.id p) (λ n. is_free n.source)
            (values p.nodes) (λ n h. ground arith),
      ),
    )

-- The first node is no worse a keep: of a better grade, or of the same and admitted no earlier.
abbrev pub NoWorse : ExitNode → ExitNode → Type 0
NoWorse n m =
    (grade_rank n.quality < grade_rank m.quality)
    ⊎ ((grade_rank n.quality ≡ grade_rank m.quality) × (m.added_at ≤ n.added_at))

abbrev pub Member : ExitNode → List ExitNode → Type 0
Member n [] = ⊥
Member n (m ∷ ms) = (n ≡ m) ⊎ Member n ms

-- The result of the scan for the worst free node, from the worst one found before the list.
abbrev ScanOf : Option ExitNode → List ExitNode → Option ExitNode → Type 0
ScanOf before ns none = (before ≡ none) × All (λ n. is_free n.source ≡ false) ns
ScanOf before ns (some w) =
    (is_free w.source ≡ true)
    × All (λ n. is_free n.source ≡ true → NoWorse n w) ns
    × ((n : ExitNode) → before ≡ some n → NoWorse n w)
    × ((before ≡ some w) ⊎ Member w ns)

abbrev IsFreeOption : Option ExitNode → Type 0
IsFreeOption none = Unit
IsFreeOption (some n) = is_free n.source ≡ true

not-is_worse : (n w : ExitNode) → is_worse n w ≡ false → NoWorse n w
unfolding is_worse
not-is_worse n w h = ground arith

is_worse-NoWorse : (n w : ExitNode) → is_worse n w ≡ true → NoWorse w n
unfolding is_worse
is_worse-NoWorse n w h = ground arith

NoWorse-trans : (a b c : ExitNode) → NoWorse a b → NoWorse b c → NoWorse a c
NoWorse-trans a b c h k = ground arith

scan_skip :
    (before : Option ExitNode) (n : ExitNode) (ns : List ExitNode) (r : Option ExitNode)
    → is_free n.source ≡ false
    → ScanOf before ns r
    → ScanOf before (n ∷ ns) r
scan_skip before n ns none h s = (s.0, (h, s.1))
scan_skip before n ns (some w) h s =
    (s.0, ((λ f. absurd (false≢true (sym h ∙ f))), s.1), s.2, ground (arith, s.3))

-- The loop goes on with `m`, which is the new node or the worst one so far.
scan_take :
    (before : Option ExitNode) (n m : ExitNode) (ns : List ExitNode) (r : Option ExitNode)
    → (before ≡ some m) ⊎ (n ≡ m)
    → NoWorse n m
    → ((b : ExitNode) → before ≡ some b → NoWorse b m)
    → ScanOf (some m) ns r
    → ScanOf before (n ∷ ns) r
scan_take before n m ns none which le older s = cc
scan_take before n m ns (some w) which le older s =
    let last : NoWorse m w = s.2 m refl in
    (
      s.0,
      ((λ _. NoWorse-trans n m w le last), s.1),
      (λ b e. NoWorse-trans b m w (older b e) last),
      ground (arith, s.3, which),
    )

NoWorse-refl : (n : ExitNode) → NoWorse n n
NoWorse-refl n = omega arith

NoWorse-of_eq : (m : ExitNode) {b a : ExitNode} → NoWorse b m → some b ≡ some a → NoWorse a m
NoWorse-of_eq m {b} {a} h e = let q : b ≡ a = cc in subst (λ z. NoWorse z m) q h

worst_free_scan :
    (before : Option ExitNode) (ns : List ExitNode)
    → IsFreeOption before
    → ScanOf before ns (worst_free before ns)
unfolding worst_free
worst_free_scan none [] h = (refl, tt)
worst_free_scan (some b) [] h = (h, tt, (λ n e. NoWorse-of_eq b (NoWorse-refl b) e), inl refl)
worst_free_scan none (n ∷ ns) h = elim (Bool-cases (is_free n.source)) [
  | inl f ↦ rw f (
      scan_take none n n ns (worst_free (some n) ns) (inr refl) (NoWorse-refl n) (λ b e. cc)
        (worst_free_scan (some n) ns f))
  | inr f ↦ rw f (scan_skip none n ns (worst_free none ns) f (worst_free_scan none ns h))
]
worst_free_scan (some b) (n ∷ ns) h = elim (Bool-cases (is_free n.source)) [
  | inl f ↦ elim (Bool-cases (is_worse n b)) [
    | inl g ↦
        rw (f, g)
          (scan_take (some b) n n ns (worst_free (some n) ns) (inr refl) (NoWorse-refl n)
            (λ a e. NoWorse-of_eq n (is_worse-NoWorse n b g) e) (worst_free_scan (some n) ns f))
    | inr g ↦
        rw (f, g)
          (scan_take (some b) n b ns (worst_free (some b) ns) (inl refl) (not-is_worse n b g)
            (λ a e. NoWorse-of_eq b (NoWorse-refl b) e) (worst_free_scan (some b) ns h))
  ]
  | inr f ↦
      rw f (scan_skip (some b) n ns (worst_free (some b) ns) f (worst_free_scan (some b) ns h))
]

count_if-eq_zero :
    (p : ExitNode → Bool) (ns : List ExitNode) → All (λ n. p n ≡ false) ns → count_if p ns ≡ 0
unfolding count_if
count_if-eq_zero p [] h = refl
count_if-eq_zero p (n ∷ ns) h = ground (arith, h.0, count_if-eq_zero p ns h.1)

-- A node of the table is what its own id finds.
lookup_of_Member :
    (w : ExitNode) (m : List (Text × ExitNode))
    → Unique text_dec m
    → All (λ e. e.1.id ≡ e.0) m
    → Member w (values m)
    → lookup text_dec w.id m ≡ some w
unfolding lookup
lookup_of_Member w [] u k h = elim h [ ]
lookup_of_Member w ((i, n) ∷ m) u k (inl e) = ground (arith, k.0)
lookup_of_Member w ((i, n) ∷ m) u k (inr h) =
    let found = lookup_of_Member w m u.1 k.1 h in
    ground (arith, u.0, has_of_lookup text_dec w.id m found)

-- On a consistent pool the eviction either finds no free node and leaves the pool alone, or removes
-- a free node of the table that no free node is a worse keep than (by grade, then by age), and one
-- free node fewer is left.
pub evict_worst_free_lem :
    (p : ExitPool)
    → IsConsistent p
    → ((evict_worst_free p ≡ (p, false)) × (free_count p ≡ 0))
      ⊎ ((w : ExitNode) × (evict_worst_free p ≡ (remove w.id p, true))
          × Member w (values p.nodes)
          × (is_free w.source ≡ true)
          × All (λ n. is_free n.source ≡ true → NoWorse n w) (values p.nodes)
          × (free_count (evict_worst_free p).0 + 1 ≡ free_count p))
unfolding evict_worst_free free_count remove
evict_worst_free_lem p c = elim (Option-cases (worst_free none (values p.nodes))) [
  | inl e ↦
      let s : ScanOf none (values p.nodes) none =
        rw e at (worst_free_scan none (values p.nodes) tt) in
      inl (rw (e, evict_worst_free), count_if-eq_zero (λ n. is_free n.source) (values p.nodes) s.1)
  | inr (w, e) ↦
      let s : ScanOf none (values p.nodes) (some w) =
        rw e at (worst_free_scan none (values p.nodes) tt) in
      let listed : Member w (values p.nodes) = ground (arith, s.3) in
      let found = lookup_of_Member w p.nodes c.unique c.keyed listed in
      let counted = count-delete text_dec (λ n. is_free n.source) w.id w p.nodes c.unique found in
      inr (
        w,
        rw (e, evict_worst_free),
        listed,
        s.0,
        s.1,
        rw (e, evict_worst_free) (omega (arith, rw s.0 at counted)),
      )
]
