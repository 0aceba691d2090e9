-- ===== src/Admission/Vouched.antt =====
-- packages/plugin/src/ip-pool.ts: what a probe makes of an exit that is not from a free list.
use dsh_opencode.Base.{
  ℕ, ◌≡◌, refl, inl, inr, Bool, true, false, List, [], ◌∷◌, Text, Option, none, some, arith,
  text_dec, Bool-cases, Option-cases, same,
}
use dsh_opencode.Base.Maps.{lookup-insert, lookup-insert_self}
use dsh_opencode.Pool.Types.{ExitNode, ExitState, ExitHealth, ExitPool, health_of, fresh_health}
use dsh_opencode.Pool.Table.{add, is_duplicate, update_health}
use dsh_opencode.Pool.Signals.{is_free, mark_ok, mark_limited, healed, cooled}
use dsh_opencode.Admission.Screen.{EchoResponse, ScreenOptions}
use dsh_opencode.Admission.Admit.{
  Candidate, Previous, AdmissionResult, admit_candidate, admit_trusted, trust,
}
use dsh_opencode.Admission.Probing.{
  Round, trusted_source, previous_of, entered, verdict_of, admit_entry, probe_entry,
}

abbrev pub HasHealth : Text → ExitPool → Type 0
HasHealth id p = (h : ExitHealth) × (health_of id p ≡ some h)

abbrev pub IsOk : Text → ExitPool → Type 0
IsOk id p = (h : ExitHealth) × ((health_of id p ≡ some h) × (h.state ≡ ExitState.ok))

add-HasHealth :
    (n : ExitNode) (id : Text) (p : ExitPool) → HasHealth id p → HasHealth id (add n p).0
unfolding add
add-HasHealth n id p (h, e) = elim (Bool-cases (is_duplicate n p)) [
  | inl d ↦ rw (d) (h, e)
  | inr d ↦ elim (Option-cases (health_of n.id p)) [
    | inr (g, f) ↦ rw (d, f) (h, e)
    | inl f ↦ elim (Bool-cases (same n.id id)) [
      | inl s ↦
          rw (d, f)
            (fresh_health, ground (arith, lookup-insert text_dec n.id id fresh_health p.health))
      | inr s ↦
          rw (d, f) (h, ground (arith, e, lookup-insert text_dec n.id id fresh_health p.health))
    ]
  ]
]

mark_ok-IsOk :
    (now : ℕ) (id : Text) (model : Text) (p : ExitPool)
    → HasHealth id p
    → IsOk id (mark_ok now id (some model) p)
unfolding mark_ok
mark_ok-IsOk now id model p (h, e) =
    rw (e, update_health)
      (healed now h, (lookup-insert_self text_dec id (healed now h) p.health, refl))

mark_limited-IsOk :
    (now : ℕ) (id : Text) (p : ExitPool) → HasHealth id p → IsOk id (mark_limited now id p).0
unfolding mark_limited
mark_limited-IsOk now id p (h, e) =
    rw (e, mark_limited)
      (cooled p now h, (lookup-insert_self text_dec id (cooled p now h) p.health, refl))

module _ (parse_echo : Text → Option EchoResponse) (blocked : Option (List Text)) where
  trust_admits :
      (now : ℕ) (c : Candidate) (pinned : Bool) (previous : Option Previous) (r : AdmissionResult)
      → (node : ExitNode) × ((limited : Bool) × (trust parse_echo blocked now c pinned previous r
            ≡ AdmissionResult.admitted node limited))
  trust_admits now c pinned previous (AdmissionResult.admitted node limited) =
      (node, (limited, refl))
  trust_admits now c pinned previous (AdmissionResult.refused m) = (_, (_, refl))

  trusted_admits :
      (entry : ExitNode) (r : Round)
      → is_free entry.source ≡ false
      → (node : ExitNode) × ((limited : Bool) × (verdict_of parse_echo blocked entry r
            ≡ AdmissionResult.admitted node limited))
  unfolding verdict_of admit_trusted
  trusted_admits entry r e =
      let candidate : Candidate = record {
        address = entry.id;
        protocol = entry.protocol;
        source = trusted_source entry.source;
      } in
      let options : ScreenOptions = record {
        relaxed = false;
        pinned = entry.pinned;
        timeout_ms = none;
      } in
      let gate = admit_candidate parse_echo blocked r.now candidate options none r.wires in
      rw (e, verdict_of) (trust_admits r.now candidate entry.pinned (previous_of entry) gate)

  admit_entry-IsOk :
      (now : ℕ) (model : Text) (entry node : ExitNode) (limited : Bool) (p : ExitPool)
      → HasHealth entry.id p
      → IsOk entry.id (admit_entry parse_echo blocked now model entry node limited p)
  admit_entry-IsOk now model entry node true p h =
      mark_limited-IsOk now entry.id _ (add-HasHealth (entered entry node) entry.id p h)
  admit_entry-IsOk now model entry node false p h =
      mark_ok-IsOk now entry.id model _ (add-HasHealth (entered entry node) entry.id p h)

  -- A probe over at least one model leaves an exit that is not from a free list in state `ok`,
  -- whatever its requests bring: also where every one of them failed.
  pub probe_entry-IsOk :
      (entry : ExitNode) (r : Round) (rs : List Round) (p : ExitPool)
      → is_free entry.source ≡ false
      → HasHealth entry.id p
      → IsOk entry.id (probe_entry parse_echo blocked entry (r ∷ rs) p)
  unfolding probe_entry
  probe_entry-IsOk entry r [] p e h =
      let (node, (limited, v)) = trusted_admits entry r e in
      rw (v) (admit_entry-IsOk r.now r.model entry node limited p h)
  probe_entry-IsOk entry r (s ∷ rs) p e h =
      let (node, (limited, v)) = trusted_admits entry r e in
      let (g, (f, ok)) = admit_entry-IsOk r.now r.model entry node limited p h in
      rw (v) (probe_entry-IsOk entry s rs _ e (g, f))
