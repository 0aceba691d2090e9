-- ===== src/Pool/Outcomes.antt =====
-- packages/plugin/src/pool/pool.ts: what the outcome of a real request does to the table.
use dsh_opencode.Base.{ℕ, ◌+◌, ◌≤◌, ◌<◌, ◌≡◌, refl, ◌≢◌, ◌⊎◌, Bool, true, Text, arith, text_dec}
use dsh_opencode.Base.Maps.{lookup, lookup-insert_self}
use dsh_opencode.Pool.Types.{ExitPool, or_else, no_passive}
use dsh_opencode.Pool.Passive
use dsh_opencode.Pool.Passive.{PassiveKind}
use dsh_opencode.Pool.Selection.{is_usable}
use dsh_opencode.Pool.Table

passive_kind-dead :
    (status : ℕ)
    → (status < 200) ⊎ (300 ≤ status)
    → status ≢ 401
    → status ≢ 403
    → status ≢ 429
    → Passive.passive_kind status ≡ PassiveKind.dead
unfolding Passive.passive_kind
passive_kind-dead status range a b c = ground arith

-- A real request answered with a code outside 2xx, 401, 403 and 429 (a 5xx among them) is counted
-- as dead, and changes neither the usability nor the node of any exit.
pub record_passive-server_error :
    (now t : ℕ) (id : Text) (status : ℕ) (model : Text) (blocked : Bool) (p : ExitPool)
    → (status < 200) ⊎ (300 ≤ status)
    → status ≢ 401
    → status ≢ 403
    → status ≢ 429
    → Table.has_exit id p ≡ true
    → let (q, kind) = Passive.record_passive now id status model blocked p in
      (kind ≡ PassiveKind.dead)
      × ((Passive.passive_stats id q).dead ≡ (Passive.passive_stats id p).dead + 1)
      × (q.nodes ≡ p.nodes)
      × ((j other : Text) → is_usable t j other q ≡ is_usable t j other p)
unfolding Passive.record_passive Passive.passive_stats is_usable
record_passive-server_error now t id status model blocked p range a b c known =
    let kind = passive_kind-dead status range a b c in
    let counted =
      lookup-insert_self text_dec id
        (Passive.bump PassiveKind.dead (or_else (lookup text_dec id p.passive) no_passive))
        p.passive in
    rw (known, kind, Passive.record_passive) (refl, ground (arith, counted), refl, λ j other. refl)
