-- ===== src/Base/Texts.antt =====
-- Text as the list of its UTF-16 code units, so that the source's concatenations and prefix
-- tests are those of lists.
use Prim.Native.Nat.{ℕ}
use Prim.Native.Char.{code}
use Prim.Native.String.{String}
use mathlib.Core.Path.{◌≡◌, refl}
use mathlib.Core.Bool.{Bool, true, false}
use mathlib.Core.List.{List, [], ◌∷◌, ◌++◌}
use mathlib.Core.Logic.{ite}
use native.Mathlib.Decide.{ℕ_discrete}
use native.Mathlib.Omega.{arith}

abbrev pub Text : Type 0
Text = List ℕ

abbrev pub codes : String → Text
codes String.[] = []
codes (String.◌∷◌ c s) = code c ∷ codes s

unfoldable pub text_dec : Discrete Text
unfolding ℕ_discrete
text_dec [] [] = yes refl
text_dec [] (b ∷ t) = no (λ e. cc)
text_dec (a ∷ s) [] = no (λ e. cc)
text_dec (a ∷ s) (b ∷ t) =
    let rest = text_dec s t in
    elim (ℕ_discrete a b) [
      | yes p ↦ elim rest [ yes q ↦ yes (cc) | no q ↦ no (λ e. q (cc)) ]
      | no p ↦ no (λ e. p (cc))
    ]

-- `s === t`
abbrev pub same : Text → Text → Bool
same s t = ite (text_dec s t) true false

-- `s.startsWith(p)`, the prefix first.
unfoldable pub starts_with : Text → Text → Bool
unfolding ℕ_discrete
starts_with [] s = true
starts_with (c ∷ p) [] = false
starts_with (c ∷ p) (d ∷ s) = let rest = starts_with p s in ite (ℕ_discrete c d) rest false

pub starts_with-append : (p s : Text) → starts_with p (p ++ s) ≡ true
unfolding starts_with
starts_with-append [] s = refl
starts_with-append (c ∷ p) s = ground (arith, starts_with-append p s)
