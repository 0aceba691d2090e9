-- ===== src/Admission/Spares.antt =====
-- packages/plugin/src/ip-pool.ts: what the probe of one exit leaves alone, and what an admitted
-- node has of the exit that was probed.
use dsh_opencode.Base.{
  ℕ, ◌≡◌, refl, sym, ◌∙◌, ap, ◌≢◌, inl, inr, Bool, true, false, List, Text, Option, none, some,
  arith, text_dec, Bool-cases, Option-cases, ◌&&◌, ◌+◌, leb,
}
use dsh_opencode.Base.Maps.{insert, lookup-insert, lookup-insert_ne}
use dsh_opencode.Pool.Types.{
  ExitNode, ExitHealth, ExitPool, ExitSource, ModelBan, ban_key, fresh_ban, fresh_health, node_of,
  health_of, ban_of,
}
use dsh_opencode.Pool.Keys.{NulFree, ban_key_inj}
use dsh_opencode.Pool.Table.{
  add, is_duplicate, remove, update_health, take_probe_lock, release_probe_lock,
}
use dsh_opencode.Pool.Signals.{
  is_free, mark_ok, mark_limited, mark_dead_strike, healed, cooled, struck, strike,
}
use dsh_opencode.Pool.Removal.{remove_others}
use dsh_opencode.Admission.Screen.{EchoResponse, ScreenOptions}
use dsh_opencode.Admission.Admit.{
  Candidate, Previous, Wires, AdmissionResult, admit_candidate, admit_trusted, trust,
}
use dsh_opencode.Admission.Verdicts.{admit_candidate-admitted, result_cases}
use dsh_opencode.Admission.Probing.{
  Round, trusted_source, no_options, previous_of, entered, verdict_of, probe_round,
}

-- A health record but for the probe lock, which only the scheduler reads.
abbrev pub unlocked : Option ExitHealth → Option ExitHealth
unlocked none = none
unlocked (some h) = some (record h { inflight = false })

-- Two tables that agree on the health and the bans of one exit, and on the settings.
pub record Same (id : Text) (p q : ExitPool) : Type 0 where
  pub health : unlocked (health_of id p) ≡ unlocked (health_of id q)
  pub bans : (model : Text) → ban_of id model p ≡ ban_of id model q
  pub base : p.cooldown_base ≡ q.cooldown_base
  pub ceiling : p.cooldown_max ≡ q.cooldown_max
  pub evictions : p.dead_evictions ≡ q.dead_evictions

-- They have the same node of it, too.
abbrev pub Spared : Text → ExitPool → ExitPool → Type 0
Spared id p q = Same id p q × (node_of id p ≡ node_of id q)

pub Same-refl : (id : Text) (p : ExitPool) → Same id p p
Same-refl id p = record {
  health = refl;
  bans = λ model. refl;
  base = refl;
  ceiling = refl;
  evictions = refl;
}

pub Same-sym : (id : Text) (p q : ExitPool) → Same id p q → Same id q p
Same-sym id p q h = record {
  health = sym h.health;
  bans = λ model. sym (h.bans model);
  base = sym h.base;
  ceiling = sym h.ceiling;
  evictions = sym h.evictions;
}

pub Same-trans : (id : Text) (p q r : ExitPool) → Same id p q → Same id q r → Same id p r
Same-trans id p q r h k = record {
  health = h.health ∙ k.health;
  bans = λ model. h.bans model ∙ k.bans model;
  base = h.base ∙ k.base;
  ceiling = h.ceiling ∙ k.ceiling;
  evictions = h.evictions ∙ k.evictions;
}

Spared-trans : (id : Text) (p q r : ExitPool) → Spared id p q → Spared id q r → Spared id p r
Spared-trans id p q r h k = (Same-trans id p q r h.0 k.0, h.1 ∙ k.1)

-- The tables agree on all of the exit that the probes read.
module _ (id : Text) (p q : ExitPool) (base : p.cooldown_base ≡ q.cooldown_base)
    (ceiling : p.cooldown_max ≡ q.cooldown_max) (evictions : p.dead_evictions ≡ q.dead_evictions)
    (bans : (model : Text) → ban_of id model p ≡ ban_of id model q) where
  spared :
      node_of id p ≡ node_of id q
      → unlocked (health_of id p) ≡ unlocked (health_of id q)
      → Spared id p q
  spared node health = (
    record { health = health; bans = bans; base = base; ceiling = ceiling; evictions = evictions },
    node,
  )

set_lock-Spared :
    (j id : Text) (p : ExitPool) (b : Bool)
    → Spared id p (update_health j (λ h. record h { inflight = b }) p)
set_lock-Spared j id p b = elim (Option-cases (health_of j p)) [
  | inl e ↦ rw (e, update_health) (Same-refl id p, refl)
  | inr (h, e) ↦
      let locked : ExitHealth = record h { inflight = b } in
      let at = lookup-insert text_dec j id locked p.health in
      rw (e, update_health)
        (spared id p (record p { health = insert text_dec j locked p.health }) refl refl refl
          (λ model. refl) refl (ground (arith, e, at)))
]

pub release_probe_lock-Spared : (j id : Text) (p : ExitPool) → Spared id p (release_probe_lock j p)
unfolding release_probe_lock
release_probe_lock-Spared j id p = set_lock-Spared j id p false

pub take_probe_lock-Spared : (j id : Text) (p : ExitPool) → Spared id p (take_probe_lock j p).0
unfolding take_probe_lock
take_probe_lock-Spared j id p = elim (Option-cases (health_of j p)) [
  | inl e ↦ rw (e, take_probe_lock) (Same-refl id p, refl)
  | inr (h, e) ↦ elim (Bool-cases h.inflight) [
    | inl held ↦ rw (e, held, take_probe_lock) (Same-refl id p, refl)
    | inr free ↦
        let after = set_lock-Spared j id p true in
        rw (e, free, take_probe_lock) (rw (e, update_health) at after)
  ]
]

-- The methods that a probe calls, on another exit.
module _ (j id : Text) (ne : j ≢ id) where
  other_health :
      (p : ExitPool) (h : ExitHealth)
      → Spared id p (record p { health = insert text_dec j h p.health })
  other_health p h =
      spared id p (record p { health = insert text_dec j h p.health }) refl refl refl
        (λ model. refl) refl (ap unlocked (sym (lookup-insert_ne text_dec j id h p.health ne)))

  other_node :
      (p : ExitPool) (n : ExitNode) → Spared id p (record p { nodes = insert text_dec j n p.nodes })
  other_node p n =
      spared id p (record p { nodes = insert text_dec j n p.nodes }) refl refl refl (λ model. refl)
        (sym (lookup-insert_ne text_dec j id n p.nodes ne)) refl

  mark_limited-Spared : (now : ℕ) (p : ExitPool) → Spared id p (mark_limited now j p).0
  unfolding mark_limited
  mark_limited-Spared now p = elim (Option-cases (health_of j p)) [
    | inl e ↦ rw (e, mark_limited) (Same-refl id p, refl)
    | inr (h, e) ↦ rw (e, mark_limited) (other_health p (cooled p now h))
  ]

  healed-Spared : (now : ℕ) (p : ExitPool) → Spared id p (update_health j (healed now) p)
  healed-Spared now p = elim (Option-cases (health_of j p)) [
    | inl e ↦ rw (e, update_health) (Same-refl id p, refl)
    | inr (h, e) ↦ rw (e, update_health) (other_health p (healed now h))
  ]

  module _ (free_j : NulFree j) (free_id : NulFree id) where
    other_ban :
        (p : ExitPool) (model : Text) (ban : ModelBan)
        → Spared id p (record p { bans = insert text_dec (ban_key j model) ban p.bans })
    other_ban p model ban =
        spared id p (record p { bans = insert text_dec (ban_key j model) ban p.bans }) refl refl
          refl
          (λ m. sym (
            lookup-insert_ne text_dec (ban_key j model) (ban_key id m) ban p.bans
              (λ k. ne (ban_key_inj j id model m free_j free_id k).0)))
          refl refl

    mark_ok-Spared :
        (now : ℕ) (model : Text) (p : ExitPool) → Spared id p (mark_ok now j (some model) p)
    unfolding mark_ok
    mark_ok-Spared now model p =
        Spared-trans id p (update_health j (healed now) p) _ (healed-Spared now p)
          (other_ban (update_health j (healed now) p) model fresh_ban)

    remove-Spared : (p : ExitPool) → Spared id p (remove j p)
    unfolding remove
    remove-Spared p =
        let kept = remove_others j id p free_j free_id ne in
        spared id p (remove j p) refl refl refl (λ model. sym (kept.2 model)) (sym kept.0)
          (ap unlocked (sym kept.1))

    strike-Spared : (n : ExitNode) (h : ExitHealth) (p : ExitPool) → Spared id p (strike j n h p).0
    unfolding strike
    strike-Spared n h p =
        let hit : ExitPool = record p { health = insert text_dec j (struck h) p.health } in
        elim (Bool-cases (is_free n.source && leb p.dead_evictions (h.dead_strikes + 1))) [
          | inl e ↦
              rw (e) (
                Spared-trans id p hit (remove j hit) (other_health p (struck h))
                  (remove-Spared hit))
          | inr e ↦ rw (e) (other_health p (struck h))
        ]

    mark_dead_strike-Spared : (p : ExitPool) → Spared id p (mark_dead_strike j p).0
    unfolding mark_dead_strike
    mark_dead_strike-Spared p = elim (Option-cases (node_of j p)) [
      | inl e ↦ rw (e, mark_dead_strike) (Same-refl id p, refl)
      | inr (n, e) ↦ elim (Option-cases (health_of j p)) [
        | inl f ↦ rw (e, f, mark_dead_strike) (Same-refl id p, refl)
        | inr (h, f) ↦ rw (e, f, mark_dead_strike) (strike-Spared n h p)
      ]
    ]

add-Spared : (n : ExitNode) (id : Text) (p : ExitPool) → n.id ≢ id → Spared id p (add n p).0
unfolding add
add-Spared n id p ne =
    let placed : ExitPool = record p { nodes = insert text_dec n.id n p.nodes } in
    let there = other_node n.id id ne p n in
    elim (Bool-cases (is_duplicate n p)) [
      | inl d ↦ rw (d) (Same-refl id p, refl)
      | inr d ↦ elim (Option-cases (health_of n.id p)) [
        | inr (h, e) ↦ rw (d, e) there
        | inl e ↦
            rw (d, e)
              (Spared-trans id p placed _ there (other_health n.id id ne placed fresh_health))
      ]
    ]

trusted_source-not_free : (s : ExitSource) → is_free (trusted_source s) ≡ false
trusted_source-not_free ExitSource.manual = refl
trusted_source-not_free ExitSource.free = refl
trusted_source-not_free ExitSource.subscription = refl
trusted_source-not_free ExitSource.goproxy = refl

module _ (parse_echo : Text → Option EchoResponse) (blocked : Option (List Text)) where
  gate_node :
      (now : ℕ) (c : Candidate) (options : ScreenOptions) (w : Wires) (node : ExitNode)
      (limited : Bool)
      → admit_candidate parse_echo blocked now c options none w
        ≡ AdmissionResult.admitted node limited
      → (node.id ≡ c.address) × (node.source ≡ c.source)
  gate_node now c options w node limited h =
      let (_, (f, (_, passed))) =
        (admit_candidate-admitted parse_echo blocked now c options none w node limited).0 h in
      (ap (λ (n : ExitNode). n.id) passed.2, ap (λ (n : ExitNode). n.source) passed.2)

  trust_node :
      (now : ℕ) (c : Candidate) (pinned : Bool) (previous : Option Previous) (node : ExitNode)
      (limited : Bool) (r : AdmissionResult)
      → trust parse_echo blocked now c pinned previous r ≡ AdmissionResult.admitted node limited
      → ((n : ExitNode) (l : Bool)
          → r ≡ AdmissionResult.admitted n l
          → (n.id ≡ c.address) × (n.source ≡ c.source))
      → (node.id ≡ c.address) × (node.source ≡ c.source)
  trust_node now c pinned previous node limited (AdmissionResult.admitted n l) h g =
      let (address, source) = g n l refl in ground arith
  trust_node now c pinned none node limited (AdmissionResult.refused m) h g = ground arith
  trust_node now c pinned (some f) node limited (AdmissionResult.refused m) h g = ground arith

  trusted_node :
      (now : ℕ) (c : Candidate) (pinned : Bool) (previous : Option Previous) (w : Wires)
      (node : ExitNode) (limited : Bool)
      → admit_trusted parse_echo blocked now c pinned previous w
        ≡ AdmissionResult.admitted node limited
      → (node.id ≡ c.address) × (node.source ≡ c.source)
  unfolding admit_trusted
  trusted_node now c pinned previous w node limited h =
      let options : ScreenOptions = record {
        relaxed = false;
        pinned = pinned;
        timeout_ms = none;
      } in
      trust_node now c pinned previous node limited
        (admit_candidate parse_echo blocked now c options none w) h
        (λ n l e. gate_node now c options w n l e)

  -- The node that a probe is given has the address of its exit, and is free exactly if the exit is.
  pub verdict_of-node :
      (entry : ExitNode) (r : Round) (node : ExitNode) (limited : Bool)
      → verdict_of parse_echo blocked entry r ≡ AdmissionResult.admitted node limited
      → (node.id ≡ entry.id) × (is_free node.source ≡ is_free entry.source)
  unfolding verdict_of
  verdict_of-node entry r node limited h = elim (Bool-cases (is_free entry.source)) [
    | inl f ↦
        let c : Candidate = record {
          address = entry.id;
          protocol = entry.protocol;
          source = ExitSource.free;
        } in
        let g = gate_node r.now c no_options r.wires node limited (rw (f, verdict_of) at h) in
        (g.0, ap is_free g.1 ∙ sym f)
    | inr f ↦
        let c : Candidate = record {
          address = entry.id;
          protocol = entry.protocol;
          source = trusted_source entry.source;
        } in
        let g =
          trusted_node r.now c entry.pinned (previous_of entry) r.wires node limited
            (rw (f, verdict_of) at h) in
        (g.0, ap is_free g.1 ∙ trusted_source-not_free entry.source ∙ sym f)
  ]

  -- A round of the probe of one exit leaves another as it is.
  pub probe_round-Spared :
      (entry : ExitNode) (id : Text) (r : Round) (p : ExitPool)
      → NulFree entry.id
      → NulFree id
      → entry.id ≢ id
      → Spared id p
          (probe_round parse_echo blocked entry r (verdict_of parse_echo blocked entry r) p).0
  probe_round-Spared entry id r p free_j free_id ne =
      elim (result_cases (verdict_of parse_echo blocked entry r)) [
        | inl (node, (limited, e)) ↦
            let own = (verdict_of-node entry r node limited e).0 in
            let placed = add-Spared (entered entry node) id p (λ f. ne (sym own ∙ f)) in
            let q = (add (entered entry node) p).0 in
            elim (Bool-cases limited) [
              | inl l ↦
                  rw (e, l)
                    (Spared-trans id p q _ placed (mark_limited-Spared entry.id id ne r.now q))
              | inr l ↦
                  rw (e, l)
                    (Spared-trans id p q _ placed
                      (mark_ok-Spared entry.id id ne free_j free_id r.now r.model q))
            ]
        | inr (m, e) ↦ rw (e) (mark_dead_strike-Spared entry.id id ne free_j free_id p)
      ]
