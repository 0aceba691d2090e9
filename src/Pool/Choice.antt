-- ===== src/Pool/Choice.antt =====
-- packages/plugin/src/pool/pool.ts: what `pick` promises.
use dsh_opencode.Base.{
  ℕ, ◌≡◌, refl, ◌⊎◌, inl, inr, Bool, true, false, not, ◌&&◌, List, [], ◌∷◌, Text, Option, none,
  some, arith, Bool-cases, Option-cases, text_dec, same, All, keep, keep-All, if◌then◌else◌,
}
use dsh_opencode.Base.Maps.{keys, insert, lookup-insert_self}
use dsh_opencode.Pool.Types.{ExitPool, sticky_of}
use dsh_opencode.Pool.Selection.{
  pick, pinned_wins, sticky_usable, rotate_pick, remember, usable_exits, is_usable, sort, rank,
}
use dsh_opencode.Pool.Sorting.{RankLe, sort-All, sort-least, sort-eq-nil}

abbrev Usable : ℕ → Text → ExitPool → Text → Type 0
Usable now model p id = is_usable now id model p ≡ true

usable_exits-Usable :
    (now : ℕ) (model : Text) (p : ExitPool) → All (Usable now model p) (usable_exits now model p)
unfolding usable_exits
usable_exits-Usable now model p = keep-All (λ id. is_usable now id model p) (keys p.nodes)

remember-Usable :
    (now : ℕ) (session model : Text) (p : ExitPool) (ids : List Text) {id : Text}
    → All (Usable now model p) ids
    → (remember session ids p).1 ≡ some id
    → Usable now model p id
remember-Usable now session model p [] h e = cc
remember-Usable now session model p (x ∷ xs) h e = ground (arith, h.0)

rotate_pick-Usable :
    (coin : Text → Text → Bool) (now : ℕ) (session model : Text) (p : ExitPool) {id : Text}
    → (rotate_pick coin now session model p).1 ≡ some id
    → Usable now model p id
unfolding rotate_pick
rotate_pick-Usable coin now session model p e =
    let ids = usable_exits now model p in
    remember-Usable now session model p (sort coin p ids)
      (sort-All coin p (Usable now model p) ids (usable_exits-Usable now model p)) e

-- Whatever `pick` returns is usable for the model at that time: it has a health record that is
-- neither dead nor cooling, and the pairing with the model is not banned.
pub pick-is_usable :
    (coin : Text → Text → Bool) (now : ℕ) (session model : Text) (p : ExitPool) {id : Text}
    → (pick coin now session model p).1 ≡ some id
    → is_usable now id model p ≡ true
unfolding pick pinned_wins sticky_usable
pick-is_usable coin now session model p {id} e =
    ground (arith, rotate_pick-Usable coin now session model p {id = id})

keep-eq-nil {ℓ} :
    {A : Type ℓ} (p : A → Bool) (xs : List A) → keep p xs ≡ [] → All (λ x. p x ≡ false) xs
unfolding keep
keep-eq-nil p [] e = tt
keep-eq-nil p (x ∷ xs) e = ground (arith, keep-eq-nil p xs)

remember-eq-none :
    (session : Text) (ids : List Text) (p : ExitPool) → (remember session ids p).1 ≡ none → ids ≡ []
remember-eq-none session [] p e = refl
remember-eq-none session (x ∷ xs) p e = cc

-- `pick` gives up only when no exit of the table is usable for the model.
pub pick-eq-none :
    (coin : Text → Text → Bool) (now : ℕ) (session model : Text) (p : ExitPool)
    → (pick coin now session model p).1 ≡ none
    → All (λ id. is_usable now id model p ≡ false) (keys p.nodes)
unfolding pick rotate_pick usable_exits
pick-eq-none coin now session model p e =
    let ids = usable_exits now model p in
    keep-eq-nil (λ id. is_usable now id model p) (keys p.nodes)
      (sort-eq-nil coin p ids (remember-eq-none session (sort coin p ids) p (ground arith)))

rotate_pick_order :
    (coin : Text → Text → Bool) (now : ℕ) (session model : Text) (p : ExitPool) {id : Text}
    → (rotate_pick coin now session model p).1 ≡ some id
    → All (λ x. RankLe (rank p id) (rank p x)) (usable_exits now model p)
      × (sticky_of session (rotate_pick coin now session model p).0 ≡ some id)
unfolding rotate_pick
rotate_pick_order coin now session model p {id} e =
    go (sort coin p (usable_exits now model p)) refl e
  where
    go :
        (ids : List Text)
        → sort coin p (usable_exits now model p) ≡ ids
        → (remember session ids p).1 ≡ some id
        → All (λ x. RankLe (rank p id) (rank p x)) (usable_exits now model p)
          × (sticky_of session (remember session ids p).0 ≡ some id)
    go [] s r = cc
    go (y ∷ ys) s r = ground (
      arith,
      sort-least coin p (usable_exits now model p) s,
      lookup-insert_self text_dec session y p.session_exit,
    )

-- The exit that the pin or the session prefers, where it is usable.
abbrev pub preferred : ℕ → Text → Text → ExitPool → Option Text
preferred now session model p =
    if not (same p.pinned_id []) && is_usable now p.pinned_id model p
    then some p.pinned_id
    else elim (sticky_of session p) [
      | none ↦ none
      | some last ↦ if is_usable now last model p then some last else none
    ]

-- The pin wins while it is usable, then the exit that the session sticks to, and neither choice
-- changes the pool. Otherwise no usable exit of the table ranks before the chosen one in the order
-- by state, then consecutive 429 answers, then latency, whatever the coin says, and the session
-- sticks to it from then on.
pub pick_order :
    (coin : Text → Text → Bool) (now : ℕ) (session model : Text) (p : ExitPool) {id : Text}
    → (pick coin now session model p).1 ≡ some id
    → ((preferred now session model p ≡ some id) × ((pick coin now session model p).0 ≡ p))
      ⊎ ((preferred now session model p ≡ none)
          × All (λ x. RankLe (rank p id) (rank p x)) (usable_exits now model p)
          × (sticky_of session (pick coin now session model p).0 ≡ some id))
unfolding pick pinned_wins sticky_usable
pick_order coin now session model p {id} e =
    ground (arith, rotate_pick_order coin now session model p {id = id})

-- After a rotation pick the session's exit is usable, and the pin still is not.
remember_again :
    (flip : Text → Text → Bool) (now : ℕ) (session model : Text) (p : ExitPool) (id : Text)
    → pinned_wins now model p ≡ false
    → is_usable now id model p ≡ true
    → let q = record p { session_exit = insert text_dec session id p.session_exit } in
      pick flip now session model q ≡ (q, some id)
unfolding pick pinned_wins sticky_usable is_usable
remember_again flip now session model p id h u =
    rw (h, lookup-insert_self text_dec session id p.session_exit, u)

rotate_again :
    (coin flip : Text → Text → Bool) (now : ℕ) (session model : Text) (p : ExitPool) {id : Text}
    → pinned_wins now model p ≡ false
    → (rotate_pick coin now session model p).1 ≡ some id
    → pick flip now session model (rotate_pick coin now session model p).0
      ≡ ((rotate_pick coin now session model p).0, some id)
unfolding rotate_pick
rotate_again coin flip now session model p {id} h e =
    go (sort coin p (usable_exits now model p)) e (rotate_pick-Usable coin now session model p e)
  where
    go :
        (ids : List Text)
        → (remember session ids p).1 ≡ some id
        → is_usable now id model p ≡ true
        → pick flip now session model (remember session ids p).0
          ≡ ((remember session ids p).0, some id)
    go [] r u = cc
    go (y ∷ ys) r u = ground (arith, remember_again flip now session model p y h)

-- Asked again at the same time for the same session and model, `pick` returns the same exit and
-- leaves the pool as the first call left it.
pub pick_again :
    (coin flip : Text → Text → Bool) (now : ℕ) (session model : Text) (p : ExitPool) {id : Text}
    → (pick coin now session model p).1 ≡ some id
    → pick flip now session model (pick coin now session model p).0
      ≡ ((pick coin now session model p).0, some id)
unfolding pick
pick_again coin flip now session model p {id} e = elim (Bool-cases (pinned_wins now model p)) [
  | inl w ↦ ground arith
  | inr w ↦ elim (Option-cases (sticky_usable now session model p)) [
    | inl d ↦ ground (arith, rotate_again coin flip now session model p {id = id} w)
    | inr (last, d) ↦ ground arith
  ]
]
