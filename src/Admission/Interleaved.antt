-- ===== src/Admission/Interleaved.antt =====
-- packages/plugin/src/ip-pool.ts and packages/plugin/src/pool/prober.ts: probe tasks of several
-- exits, each of which awaits between its rounds while the others go on.
use dsh_opencode.Base.{
  ℕ, ◌≡◌, refl, sym, ◌∙◌, ap, subst, ◌≢◌, ◌⊎◌, inl, inr, List, [], ◌∷◌, ◌++◌, Text, Option, none,
  some, arith, Bool-cases, Option-cases, if◌then◌else◌, All,
}
use dsh_opencode.Pool.Types.{ExitNode, ExitHealth, ExitPool, node_of, health_of, ban_of}
use dsh_opencode.Pool.Keys.{NulFree}
use dsh_opencode.Pool.Selection.{is_usable}
use dsh_opencode.Pool.Table.{take_probe_lock, release_probe_lock}
use dsh_opencode.Admission.Screen.{EchoResponse}
use dsh_opencode.Admission.Probing.{Round, verdict_of, probe_round, probe_entry}
use dsh_opencode.Admission.Spares.{
  unlocked, Same, Same-refl, Same-sym, Same-trans, Spared, take_probe_lock-Spared,
  release_probe_lock-Spared, probe_round-Spared,
}
use dsh_opencode.Admission.Repeats.{Listed, probe_round-Listed, probe_entry-Same}

-- The body of a task: its exit as it was listed, and the rounds that are left of its loop.
pub record Body : Type 0 where
  pub entry : ExitNode
  pub left : List Round

pub record World : Type 0 where
  pub pool : ExitPool
  pub bodies : List Body

abbrev pub body : ExitNode → List Round → Body
body entry left = record { entry = entry; left = left }

module _ (parse_echo : Text → Option EchoResponse) (blocked : Option (List Text)) where
  -- One task comes back from its awaits and ends a round; a refusal ends its loop.
  unfoldable pub play : List Body → List Body → ExitNode → Round → List Round → ExitPool → World
  unfolding verdict_of
  play before after entry r rs p =
      let (q, more) =
        probe_round parse_echo blocked entry r (verdict_of parse_echo blocked entry r) p in
      record { pool = q; bodies = before ++ (body entry (if more then rs else []) ∷ after) }

  -- What can happen: a round of any task, and the locks that the scheduler takes and releases.
  pub data Move (w : World) : World → Type 0 where
    plays :
        (before after : List Body) (entry : ExitNode) (r : Round) (rs : List Round)
        → w.bodies ≡ before ++ (body entry (r ∷ rs) ∷ after)
        → Move w (play before after entry r rs w.pool)
    locks : (id : Text) → Move w (record w { pool = (take_probe_lock id w.pool).0 })
    unlocks : (id : Text) → Move w (record w { pool = release_probe_lock id w.pool })

  pub data Moves (w : World) : World → Type 0 where
    here : Moves w w
    next : {v u : World} → Moves w v → Move v u → Moves w u

goes_on : (r : Round) (rs : List Round) → [] ≢ r ∷ rs
goes_on r rs e = cc

-- The task of another exit.
abbrev pub Apart : Text → Body → Type 0
Apart id b = NulFree b.entry.id × (b.entry.id ≢ id)

All-at :
    (P : Body → Type 0) (before after : List Body) (b c : Body)
    → (P b → P c)
    → All P (before ++ (b ∷ after))
    → P b × All P (before ++ (c ∷ after))
All-at P [] after b c f h = (h.0, (f h.0, h.1))
All-at P (x ∷ before) after b c f h =
    let (k, rest) = All-at P before after b c f h.1 in (k, (h.0, rest))

Spared-Listed :
    (entry : ExitNode) (p q : ExitPool) → Spared entry.id p q → Listed entry p → Listed entry q
Spared-Listed entry p q (same, node) (n, (h, (there, known, kind))) =
    elim (Option-cases (health_of entry.id q)) [
      | inl e ↦
          let gone : unlocked (some h) ≡ unlocked none =
            ap unlocked (sym known) ∙ same.health ∙ ap unlocked e in
          cc
      | inr (k, e) ↦ (n, (k, (sym node ∙ there, e, kind)))
    ]

Same-is_usable :
    (id : Text) (p q : ExitPool) (t : ℕ) (model : Text)
    → Same id p q
    → is_usable t id model p ≡ is_usable t id model q
unfolding is_usable
Same-is_usable id p q t model h = elim (Option-cases (health_of id p)) [
  | inl e ↦ elim (Option-cases (health_of id q)) [
    | inl f ↦ rw (e, f, is_usable) refl
    | inr (k, f) ↦
        let differ : unlocked none ≡ unlocked (some k) =
          ap unlocked (sym e) ∙ h.health ∙ ap unlocked f in
        cc
  ]
  | inr (g, e) ↦ elim (Option-cases (health_of id q)) [
    | inl f ↦
        let differ : unlocked (some g) ≡ unlocked none =
          ap unlocked (sym e) ∙ h.health ∙ ap unlocked f in
        cc
    | inr (k, f) ↦
        let alike : unlocked (some g) ≡ unlocked (some k) =
          ap unlocked (sym e) ∙ h.health ∙ ap unlocked f in
        ground (arith, alike, h.bans model)
  ]
]

module _ (parse_echo : Text → Option EchoResponse) (blocked : Option (List Text)) (entry : ExitNode)
    (free : NulFree entry.id) (alone : ExitPool) where
  -- What is left of the task makes of the table what the whole task makes of it alone.
  record Inv (w : World) : Type 0 where
    left : List Round
    others : List Body
    bodies : w.bodies ≡ (body entry left ∷ others)
    apart : All (Apart entry.id) others
    agrees : Same entry.id (probe_entry parse_echo blocked entry left w.pool) alone
    listed : (left ≡ []) ⊎ Listed entry w.pool

  Spared-agrees :
      (left : List Round) (p q : ExitPool)
      → Spared entry.id p q
      → (left ≡ []) ⊎ Listed entry p
      → Same entry.id (probe_entry parse_echo blocked entry left p) alone
      → Same entry.id (probe_entry parse_echo blocked entry left q) alone
  unfolding probe_entry
  Spared-agrees [] p q s l h = Same-trans entry.id q p alone (Same-sym entry.id p q s.0) h
  Spared-agrees (r ∷ rs) p q s (inl e) h = ground arith
  Spared-agrees (r ∷ rs) p q s (inr l) h =
      Same-trans entry.id _ _ alone
        (probe_entry-Same parse_echo blocked entry (r ∷ rs) q p (Same-sym entry.id p q s.0)
          (Spared-Listed entry p q s l) l)
        h

  Spared-Inv :
      (w : World) (q : ExitPool) (bodies others : List Body) (i : Inv w)
      → Spared entry.id w.pool q
      → bodies ≡ (body entry i.left ∷ others)
      → All (Apart entry.id) others
      → Inv (record { pool = q; bodies = bodies })
  Spared-Inv w q bodies others i s e apart = record {
    left = i.left;
    others = others;
    bodies = e;
    apart = apart;
    agrees = Spared-agrees i.left w.pool q s i.listed i.agrees;
    listed = elim i.listed [ inl nil ↦ inl nil | inr l ↦ inr (Spared-Listed entry w.pool q s l) ];
  }

  own-Inv :
      (r : Round) (rs : List Round) (after : List Body) (p : ExitPool)
      → Same entry.id (probe_entry parse_echo blocked entry (r ∷ rs) p) alone
      → Listed entry p
      → All (Apart entry.id) after
      → Inv (play parse_echo blocked [] after entry r rs p)
  unfolding play probe_entry
  own-Inv r rs after p h l apart =
      let verdict = verdict_of parse_echo blocked entry r in
      elim (Bool-cases (probe_round parse_echo blocked entry r verdict p).1) [
        | inl more ↦ record {
          left = rs;
          others = after;
          bodies = rw (more) refl;
          apart = apart;
          agrees = rw (more) at h;
          listed = inr (probe_round-Listed parse_echo blocked entry r p more l);
        }
        | inr stop ↦ record {
          left = [];
          others = after;
          bodies = rw (stop) refl;
          apart = apart;
          agrees = rw (stop) at h;
          listed = inl refl;
        }
      ]

  Move-Inv : {w v : World} → Move parse_echo blocked w v → Inv w → Inv v
  unfolding play
  Move-Inv {w} (plays [] after e r rs at) i =
      let both : body e (r ∷ rs) ∷ after ≡ body entry i.left ∷ i.others = sym at ∙ i.bodies in
      let first : body e (r ∷ rs) ≡ body entry i.left = cc in
      let others : i.others ≡ after = cc in
      let own : entry ≡ e = ap (λ (b : Body). b.entry) (sym first) in
      let rounds : i.left ≡ r ∷ rs = ap (λ (b : Body). b.left) (sym first) in
      subst (λ x. Inv (play parse_echo blocked [] after x r rs w.pool)) own
        (own-Inv r rs after w.pool
          (subst (λ xs. Same entry.id (probe_entry parse_echo blocked entry xs w.pool) alone) rounds
            i.agrees)
          (elim i.listed [ inl nil ↦ absurd (goes_on r rs (sym nil ∙ rounds)) | inr l ↦ l ])
          (subst (All (Apart entry.id)) others i.apart))
  Move-Inv {w} (plays (x ∷ before) after e r rs at) i =
      let both : x ∷ (before ++ (body e (r ∷ rs) ∷ after)) ≡ body entry i.left ∷ i.others =
        sym at ∙ i.bodies in
      let first : x ≡ body entry i.left = cc in
      let others : i.others ≡ before ++ (body e (r ∷ rs) ∷ after) = cc in
      let apart = subst (All (Apart entry.id)) others i.apart in
      let verdict = verdict_of parse_echo blocked e r in
      let (q, more) = probe_round parse_echo blocked e r verdict w.pool in
      let rest = body e (if more then rs else []) in
      let (other, kept) =
        All-at (Apart entry.id) before after (body e (r ∷ rs)) rest (λ a. a) apart in
      Spared-Inv w q (x ∷ (before ++ (rest ∷ after))) (before ++ (rest ∷ after)) i
        (probe_round-Spared parse_echo blocked e entry.id r w.pool other.0 free other.1)
        (ap (λ b. b ∷ (before ++ (rest ∷ after))) first) kept
  Move-Inv {w} (locks id) i =
      Spared-Inv w (take_probe_lock id w.pool).0 w.bodies i.others i
        (take_probe_lock-Spared id entry.id w.pool) i.bodies i.apart
  Move-Inv {w} (unlocks id) i =
      Spared-Inv w (release_probe_lock id w.pool) w.bodies i.others i
        (release_probe_lock-Spared id entry.id w.pool) i.bodies i.apart

  Moves-Inv : {w v : World} → Moves parse_echo blocked w v → Inv w → Inv v
  Moves-Inv here i = i
  Moves-Inv (next r s) i = Move-Inv s (Moves-Inv r i)

-- The task of one exit that is in the table, among any tasks of other exits, while nothing else
-- writes the table: however their rounds and the locks of the scheduler are interleaved, when it
-- has ended the exit has the health record, but for the lock, and the bans that its task makes
-- when it runs alone, so that it is usable for the same models at the same times. No id may hold
-- the code unit 0.
pub probe_entry-interleaved :
    (parse_echo : Text → Option EchoResponse) (blocked : Option (List Text)) (entry : ExitNode)
    (rounds : List Round) (others others' : List Body) (p : ExitPool) {h : ExitHealth} {w : World}
    → NulFree entry.id
    → All (Apart entry.id) others
    → node_of entry.id p ≡ some entry
    → health_of entry.id p ≡ some h
    → Moves parse_echo blocked (record { pool = p; bodies = body entry rounds ∷ others }) w
    → w.bodies ≡ (body entry [] ∷ others')
    → let alone = probe_entry parse_echo blocked entry rounds p in
      (unlocked (health_of entry.id w.pool) ≡ unlocked (health_of entry.id alone))
      × ((model : Text) → ban_of entry.id model w.pool ≡ ban_of entry.id model alone)
      × ((t : ℕ) (model : Text)
          → is_usable t entry.id model w.pool ≡ is_usable t entry.id model alone)
unfolding probe_entry
probe_entry-interleaved parse_echo blocked entry rounds others others' p {h} {w} free apart there
      known r done =
    let alone = probe_entry parse_echo blocked entry rounds p in
    let i = Moves-Inv parse_echo blocked entry free alone r (record {
      left = rounds;
      others = others;
      bodies = refl;
      apart = apart;
      agrees = Same-refl entry.id alone;
      listed = inr (entry, (h, (there, known, refl)));
    }) in
    let both : body entry i.left ∷ i.others ≡ body entry [] ∷ others' = sym i.bodies ∙ done in
    let first : body entry i.left ≡ body entry [] = cc in
    let ended : i.left ≡ [] = ap (λ (b : Body). b.left) first in
    let same : Same entry.id w.pool alone =
      subst (λ xs. Same entry.id (probe_entry parse_echo blocked entry xs w.pool) alone) ended
        i.agrees in
    (same.health, same.bans, λ t model. Same-is_usable entry.id w.pool alone t model same)
