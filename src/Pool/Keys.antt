-- ===== src/Pool/Keys.antt =====
-- packages/plugin/src/pool/pool.ts: the joined keys of the ban table. Exit ids without the code
-- unit 0 are told apart by the prefix of a key.
use dsh_opencode.Base.{
  ◌≡◌, refl, subst, ◌≢◌, true, [], ◌∷◌, Text, arith, All, starts_with, starts_with-append,
}
use dsh_opencode.Pool.Types.{ban_prefix, ban_key}

abbrev pub NulFree : Text → Type 0
NulFree = All (λ c. c ≢ 0)

-- The prefix test of the source finds an exit's own keys and no other's.
pub starts_with-ban_key :
    (i j model : Text)
    → NulFree i
    → NulFree j
    → starts_with (ban_prefix i) (ban_key j model) ≡ true
    → i ≡ j
unfolding starts_with
starts_with-ban_key [] [] model hi hj e = refl
starts_with-ban_key [] (d ∷ j) model hi hj e = ground (arith, hj.0)
starts_with-ban_key (c ∷ i) [] model hi hj e = ground (arith, hi.0)
starts_with-ban_key (c ∷ i) (d ∷ j) model hi hj e =
    ground (arith, starts_with-ban_key i j model hi.1 hj.1)

pub ban_key_own : (i model : Text) → starts_with (ban_prefix i) (ban_key i model) ≡ true
ban_key_own i model = starts_with-append (ban_prefix i) model

pub ban_key_tail : (i m n : Text) → ban_key i m ≡ ban_key i n → m ≡ n
ban_key_tail [] m n e = cc
ban_key_tail (c ∷ i) m n e = ban_key_tail i m n (cc)

-- Two pairings share a key only if they are the same pairing.
pub ban_key_inj :
    (i j m n : Text) → NulFree i → NulFree j → ban_key i m ≡ ban_key j n → (i ≡ j) × (m ≡ n)
ban_key_inj i j m n hi hj e =
    let same_exit : i ≡ j =
      starts_with-ban_key i j n hi hj
        (subst (λ k. starts_with (ban_prefix i) k ≡ true) e (ban_key_own i m)) in
    (same_exit, ban_key_tail i m n (cc))
