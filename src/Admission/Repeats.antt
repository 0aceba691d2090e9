-- ===== src/Admission/Repeats.antt =====
-- packages/plugin/src/ip-pool.ts: the probe of an exit makes the same of two tables that agree on
-- the exit.
use dsh_opencode.Base.{
  ℕ, ◌≡◌, refl, sym, ◌∙◌, ap, inl, inr, Bool, true, false, List, [], ◌∷◌, Text, Option, none, some,
  arith, text_dec, Bool-cases, starts_with, ◌&&◌, ◌+◌, leb,
}
use dsh_opencode.Base.Maps.{
  lookup, insert, lookup-insert, lookup-insert_self, lookup-delete, lookup-drop_if_gone,
}
use mathlib.Core.Bool.{false≢true}
use dsh_opencode.Pool.Keys.{ban_key_own}
use dsh_opencode.Pool.Types.{
  ExitNode, ExitHealth, ExitPool, ModelBan, ban_prefix, ban_key, fresh_ban, node_of, health_of,
  ban_of,
}
use dsh_opencode.Pool.Table.{add, is_duplicate, remove, update_health}
use dsh_opencode.Pool.Signals.{
  is_free, mark_ok, mark_limited, mark_dead_strike, healed, cooled, struck, strike, backoff,
}
use dsh_opencode.Admission.Screen.{EchoResponse}
use dsh_opencode.Admission.Probing.{
  Round, entered, verdict_of, admit_entry, probe_round, probe_entry,
}
use dsh_opencode.Admission.Verdicts.{result_cases}
use dsh_opencode.Admission.Spares.{unlocked, Same, Same-refl, Same-sym, Same-trans, verdict_of-node}

-- The exit is in the table, from the kind of source that the task took it for.
abbrev pub Listed : ExitNode → ExitPool → Type 0
Listed entry p =
    (n : ExitNode) × ((h : ExitHealth) × ((node_of entry.id p ≡ some n)
        × (health_of entry.id p ≡ some h)
        × (is_free n.source ≡ is_free entry.source)))

module _ (entry : ExitNode) where
  add-own :
      (n : ExitNode) (p : ExitPool)
      → n.id ≡ entry.id
      → is_free n.source ≡ is_free entry.source
      → Listed entry p
      → Same entry.id (add n p).0 p × Listed entry (add n p).0
  unfolding add
  add-own n p e s (m, (h, (there, known, kind))) =
      let here : health_of n.id p ≡ some h = ap (λ j. health_of j p) e ∙ known in
      elim (Bool-cases (is_duplicate n p)) [
        | inl d ↦ rw (d) (Same-refl entry.id p, (m, (h, (there, known, kind))))
        | inr d ↦
            rw (d, here)
              (
                record {
                  health = refl;
                  bans = λ model. refl;
                  base = refl;
                  ceiling = refl;
                  evictions = refl;
                },
                (
                  n,
                  (
                    h,
                    (
                      ap (λ j. lookup text_dec j (insert text_dec n.id n p.nodes)) (sym e)
                          ∙ lookup-insert_self text_dec n.id n p.nodes,
                      known,
                      s,
                    ),
                  ),
                ),
              )
      ]

  no_ban : (p : ExitPool) (model : Text) → ban_of entry.id model (remove entry.id p) ≡ none
  unfolding remove
  no_ban p model =
      lookup-drop_if_gone text_dec (λ key _. starts_with (ban_prefix entry.id) key)
        (ban_key entry.id model) p.bans (λ _. ban_key_own entry.id model)

  -- One more health record on both sides.
  module _ (p q : ExitPool) (same : Same entry.id p q) where
    written-Same :
        (h k : ExitHealth)
        → record h { inflight = false } ≡ record k { inflight = false }
        → Same entry.id
            (record p { health = insert text_dec entry.id h p.health })
            (record q { health = insert text_dec entry.id k q.health })
    written-Same h k e = record {
      health =
          rw
            (
              lookup-insert_self text_dec entry.id h p.health,
              lookup-insert_self text_dec entry.id k q.health,
            )
            (ap some e);
      bans = same.bans;
      base = same.base;
      ceiling = same.ceiling;
      evictions = same.evictions;
    }

    mark_limited-Same :
        (now : ℕ)
        → Listed entry p
        → Listed entry q
        → Same entry.id (mark_limited now entry.id p).0 (mark_limited now entry.id q).0
    unfolding mark_limited backoff
    mark_limited-Same now (n, (h, (there, known, kind))) (m, (k, (there', known', kind'))) =
        let alike : unlocked (some h) ≡ unlocked (some k) =
          ap unlocked (sym known) ∙ same.health ∙ ap unlocked known' in
        rw (known, known', mark_limited)
          (written-Same (cooled p now h) (cooled q now k)
            (ground (arith, alike, same.base, same.ceiling)))

    healed-Same :
        (now : ℕ)
        → Listed entry p
        → Listed entry q
        → Same entry.id
            (update_health entry.id (healed now) p)
            (update_health entry.id (healed now) q)
    healed-Same now (n, (h, (there, known, kind))) (m, (k, (there', known', kind'))) =
        let alike : unlocked (some h) ≡ unlocked (some k) =
          ap unlocked (sym known) ∙ same.health ∙ ap unlocked known' in
        rw (known, known', update_health)
          (written-Same (healed now h) (healed now k) (ground (arith, alike)))

    banned-Same :
        (model : Text) (ban : ModelBan)
        → Same entry.id
            (record p { bans = insert text_dec (ban_key entry.id model) ban p.bans })
            (record q { bans = insert text_dec (ban_key entry.id model) ban q.bans })
    banned-Same model ban = record {
      health = same.health;
      bans = λ m. ground (
        arith,
        same.bans m,
        lookup-insert text_dec (ban_key entry.id model) (ban_key entry.id m) ban p.bans,
        lookup-insert text_dec (ban_key entry.id model) (ban_key entry.id m) ban q.bans,
      );
      base = same.base;
      ceiling = same.ceiling;
      evictions = same.evictions;
    }

    removed-Same : Same entry.id (remove entry.id p) (remove entry.id q)
    unfolding remove
    removed-Same = record {
      health = ap unlocked (
          ground (
            arith,
            lookup-delete text_dec entry.id entry.id p.health,
            lookup-delete text_dec entry.id entry.id q.health,
          ));
      bans = λ model. no_ban p model ∙ sym (no_ban q model);
      base = same.base;
      ceiling = same.ceiling;
      evictions = same.evictions;
    }

  -- A success writes the health record and the ban of the pairing.
  mark_ok-Same :
      (p q : ExitPool) (now : ℕ) (model : Text)
      → Same entry.id p q
      → Listed entry p
      → Listed entry q
      → Same entry.id (mark_ok now entry.id (some model) p) (mark_ok now entry.id (some model) q)
  unfolding mark_ok
  mark_ok-Same p q now model same l k =
      banned-Same (update_health entry.id (healed now) p) (update_health entry.id (healed now) q)
        (healed-Same p q same now l k) model fresh_ban

  strike-Same :
      (p q : ExitPool) (n m : ExitNode) (h k : ExitHealth)
      → Same entry.id p q
      → is_free n.source ≡ is_free m.source
      → unlocked (some h) ≡ unlocked (some k)
      → Same entry.id (strike entry.id n h p).0 (strike entry.id m k q).0
  unfolding strike
  strike-Same p q n m h k same kind alike =
      let hit = written-Same p q same (struck h) (struck k) (ground (arith, alike)) in
      let evicts : (is_free n.source && leb p.dead_evictions (h.dead_strikes + 1))
          ≡ (is_free m.source && leb q.dead_evictions (k.dead_strikes + 1)) =
        ground (arith, alike, kind, same.evictions) in
      elim (Bool-cases (is_free m.source && leb q.dead_evictions (k.dead_strikes + 1))) [
        | inl e ↦ rw (evicts, e) (removed-Same _ _ hit)
        | inr e ↦ rw (evicts, e) hit
      ]

  mark_dead_strike-Same :
      (p q : ExitPool)
      → Same entry.id p q
      → Listed entry p
      → Listed entry q
      → Same entry.id (mark_dead_strike entry.id p).0 (mark_dead_strike entry.id q).0
  unfolding mark_dead_strike
  mark_dead_strike-Same p q same (n, (h, (there, known, kind))) (m, (k, (there', known', kind'))) =
      let alike : unlocked (some h) ≡ unlocked (some k) =
        ap unlocked (sym known) ∙ same.health ∙ ap unlocked known' in
      rw (there, there', known, known', mark_dead_strike)
        (strike-Same p q n m h k same (kind ∙ sym kind') alike)

  -- The exit stays in the table while its probe goes on.
  mark_limited-Listed :
      (now : ℕ) (p : ExitPool) → Listed entry p → Listed entry (mark_limited now entry.id p).0
  unfolding mark_limited
  mark_limited-Listed now p (n, (h, (there, known, kind))) =
      rw (known, mark_limited)
        (
          n,
          (
            cooled p now h,
            (there, lookup-insert_self text_dec entry.id (cooled p now h) p.health, kind),
          ),
        )

  mark_ok-Listed :
      (now : ℕ) (model : Text) (p : ExitPool)
      → Listed entry p
      → Listed entry (mark_ok now entry.id (some model) p)
  unfolding mark_ok
  mark_ok-Listed now model p (n, (h, (there, known, kind))) =
      rw (known, update_health)
        (
          n,
          (
            healed now h,
            (there, lookup-insert_self text_dec entry.id (healed now h) p.health, kind),
          ),
        )

module _ (parse_echo : Text → Option EchoResponse) (blocked : Option (List Text))
    (entry : ExitNode) where
  abbrev Admits : ℕ → Text → ExitNode → Bool → ExitPool → ExitPool
  Admits now model node limited p = admit_entry parse_echo blocked now model entry node limited p

  admit_entry-Listed :
      (now : ℕ) (model : Text) (node : ExitNode) (limited : Bool) (p : ExitPool)
      → node.id ≡ entry.id
      → is_free node.source ≡ is_free entry.source
      → Listed entry p
      → Listed entry (Admits now model node limited p)
  admit_entry-Listed now model node true p e s l =
      mark_limited-Listed entry now _ (add-own entry (entered entry node) p e s l).1
  admit_entry-Listed now model node false p e s l =
      mark_ok-Listed entry now model _ (add-own entry (entered entry node) p e s l).1

  admit_entry-Same :
      (now : ℕ) (model : Text) (node : ExitNode) (limited : Bool) (p q : ExitPool)
      → node.id ≡ entry.id
      → is_free node.source ≡ is_free entry.source
      → Same entry.id p q
      → Listed entry p
      → Listed entry q
      → Same entry.id (Admits now model node limited p) (Admits now model node limited q)
  admit_entry-Same now model node limited p q e s same l k =
      let (kept, l') = add-own entry (entered entry node) p e s l in
      let (kept', k') = add-own entry (entered entry node) q e s k in
      let added =
        Same-trans entry.id _ p _ kept
          (Same-trans entry.id p q _ same (Same-sym entry.id _ q kept')) in
      elim limited as (λ b. Same entry.id (Admits now model node b p) (Admits now model node b q)) [
        | true ↦ mark_limited-Same entry _ _ added now l' k'
        | false ↦ mark_ok-Same entry _ _ now model added l' k'
      ]

  -- What a round leaves, while the task goes on.
  pub probe_round-Listed :
      (r : Round) (p : ExitPool)
      → (probe_round parse_echo blocked entry r (verdict_of parse_echo blocked entry r) p).1 ≡ true
      → Listed entry p
      → Listed entry
          (probe_round parse_echo blocked entry r (verdict_of parse_echo blocked entry r) p).0
  probe_round-Listed r p more l = elim (result_cases (verdict_of parse_echo blocked entry r)) [
    | inl (node, (limited, e)) ↦
        let (address, source) = verdict_of-node parse_echo blocked entry r node limited e in
        rw (e) (admit_entry-Listed r.now r.model node limited p address source l)
    | inr (m, e) ↦ elim (false≢true (rw (e) at more)) [ ]
  ]

  pub probe_entry-Same :
      (rs : List Round) (p q : ExitPool)
      → Same entry.id p q
      → Listed entry p
      → Listed entry q
      → Same entry.id
          (probe_entry parse_echo blocked entry rs p)
          (probe_entry parse_echo blocked entry rs q)
  unfolding probe_entry
  probe_entry-Same [] p q same l k = same
  probe_entry-Same (r ∷ rs) p q same l k =
      elim (result_cases (verdict_of parse_echo blocked entry r)) [
        | inl (node, (limited, e)) ↦
            let (address, source) = verdict_of-node parse_echo blocked entry r node limited e in
            let after = λ (t : ExitPool) (u : Listed entry t).
              admit_entry-Listed r.now r.model node limited t address source u in
            rw (e) (
              probe_entry-Same rs (Admits r.now r.model node limited p)
                (Admits r.now r.model node limited q)
                (admit_entry-Same r.now r.model node limited p q address source same l k)
                (after p l) (after q k))
        | inr (m, e) ↦ rw (e) (mark_dead_strike-Same entry p q same l k)
      ]
