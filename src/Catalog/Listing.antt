-- ===== src/Catalog/Listing.antt =====
-- packages/plugin/src/adapter/catalog.ts: what `list` exposes, and in what order.
use dsh_opencode.Base.{
  ℕ, ◌+◌, ◌≡◌, refl, ap, ◌∙◌, Bool, true, false, List, [], ◌∷◌, Text, arith, if◌then◌else◌,
  text_dec, Bool-cases, inl, inr, All, count_if, same, keep,
}
use dsh_opencode.Catalog.Prices.{is_nil}
use dsh_opencode.Catalog.Directory.{
  ModelCatalog, decision, allowed_by, text_before, place_text, sort_texts, list,
}

-- No text stands before one that sorts first.
abbrev pub Sorted : List Text → Type 0
Sorted [] = Unit
Sorted (s ∷ ts) = All (λ t. text_before t s ≡ false) ts × Sorted ts

text_before_trans :
    (s t u : Text) → text_before t s ≡ false → text_before u t ≡ false → text_before u s ≡ false
unfolding text_before
text_before_trans [] t [] h k = refl
text_before_trans [] t (c ∷ u) h k = refl
text_before_trans (a ∷ s) [] u h k = ground arith
text_before_trans (a ∷ s) (b ∷ t) [] h k = ground arith
text_before_trans (a ∷ s) (b ∷ t) (c ∷ u) h k = ground (arith, text_before_trans s t u)

text_before_asym : (s t : Text) → text_before s t ≡ true → text_before t s ≡ false
unfolding text_before
text_before_asym [] [] h = refl
text_before_asym [] (d ∷ t) h = refl
text_before_asym (c ∷ s) [] h = ground arith
text_before_asym (c ∷ s) (d ∷ t) h = ground (arith, text_before_asym s t)

All-before :
    (s t : Text) (xs : List Text)
    → text_before t s ≡ false
    → All (λ x. text_before x t ≡ false) xs
    → All (λ x. text_before x s ≡ false) xs
All-before s t [] h a = tt
All-before s t (x ∷ xs) h a = (text_before_trans s t x h a.0, All-before s t xs h a.1)

place_text-All :
    (s t : Text) (xs : List Text)
    → text_before s t ≡ false
    → All (λ x. text_before x t ≡ false) xs
    → All (λ x. text_before x t ≡ false) (place_text s xs)
unfolding place_text
place_text-All s t [] h a = (h, tt)
place_text-All s t (x ∷ xs) h a = ground (arith, place_text-All s t xs h a.1)

place_text-Sorted : (s : Text) (xs : List Text) → Sorted xs → Sorted (place_text s xs)
unfolding place_text
place_text-Sorted s [] h = (tt, tt)
place_text-Sorted s (t ∷ ts) h = elim (Bool-cases (text_before t s)) [
  | inl first ↦
      rw (first, place_text)
        (place_text-All s t ts (text_before_asym t s first) h.0, place_text-Sorted s ts h.1)
  | inr last ↦ rw (last, place_text) ((last, All-before s t ts last h.0), h)
]

pub sort_texts-Sorted : (xs : List Text) → Sorted (sort_texts xs)
unfolding sort_texts
sort_texts-Sorted [] = tt
sort_texts-Sorted (x ∷ xs) = place_text-Sorted x (sort_texts xs) (sort_texts-Sorted xs)

abbrev pub times : Text → List Text → ℕ
times m xs = count_if (λ x. same x m) xs

abbrev pub one_if : Bool → ℕ
one_if true = 1
one_if false = 0

times-place_text :
    (m s : Text) (xs : List Text) → times m (place_text s xs) ≡ one_if (same s m) + times m xs
unfolding place_text count_if
times-place_text m s [] = ground arith
times-place_text m s (x ∷ xs) = ground (arith, times-place_text m s xs)

times-sort_texts : (m : Text) (xs : List Text) → times m (sort_texts xs) ≡ times m xs
unfolding sort_texts count_if
times-sort_texts m [] = refl
times-sort_texts m (x ∷ xs) =
    ground (arith, times-place_text m x (sort_texts xs), times-sort_texts m xs)

times-keep :
    (p : Text → Bool) (m : Text) (xs : List Text)
    → times m (keep p xs) ≡ (if p m then times m xs else 0)
unfolding keep count_if
times-keep p m [] = ground arith
times-keep p m (x ∷ xs) = elim (text_dec x m) [
  | yes e ↦ ground (arith, ap p e, times-keep p m xs)
  | no e ↦ ground (arith, times-keep p m xs)
]

-- With a live catalog the list holds the models of it that are allowed, each as often as the
-- catalog does, and nothing else, in the order of their code units.
pub list_lem :
    (c : ModelCatalog)
    → is_nil c.zen ≡ false
    → Sorted (list c)
      × ((m : Text) → times m (list c) ≡ (if (decision m c).allowed then times m c.zen else 0))
unfolding list
list_lem c live =
    let kept = keep (allowed_by c) c.zen in
    rw (live, list)
      (sort_texts-Sorted kept, λ m. times-sort_texts m kept ∙ times-keep (allowed_by c) m c.zen)
