-- ===== src/Bridge/Rows.antt =====
-- packages/plugin/src/ip-pool-settings/bridge.ts: the view that `buildStatusView` makes is there,
-- and has a row for each exit.
use dsh_opencode.Base.{
  ℕ, suc, ◌≡◌, refl, ap, ◌∙◌, Bool, true, List, [], ◌∷◌, Text, some, arith, length, text_dec, All,
}
use dsh_opencode.Base.Maps.{has, lookup, lookup_of_has}
use dsh_opencode.Pool.Types.{ExitNode, ExitPool}
use dsh_opencode.Pool.Listing.{Entry, entries, list, model_bans}
use dsh_opencode.Pool.Capacity.{snapshot}
use dsh_opencode.Pool.Passive.{passive_stats}
use dsh_opencode.Pool.Invariant.{IsConsistent}
use dsh_opencode.Assembly.{Runtime, RefillLoop}
use dsh_opencode.Bridge.Status.{
  PoolStatusView, ExitRowView, exit_row, exit_rows, with_rows, live_view, build_status_view,
}

abbrev Known : List (Text × ExitNode) → List (Text × ExitNode) → Type 0
Known m xs = All (λ e. has text_dec e.0 m ≡ true) xs

Known-cons : (f : Text × ExitNode) (m xs : List (Text × ExitNode)) → Known m xs → Known (f ∷ m) xs
unfolding has lookup
Known-cons f m [] h = tt
Known-cons f m (e ∷ xs) h = (ground (arith, h.0), Known-cons f m xs h.1)

Known-self : (m : List (Text × ExitNode)) → Known m m
unfolding has lookup
Known-self [] = tt
Known-self (e ∷ m) = (ground arith, Known-cons e m m (Known-self m))

rows_of :
    (now : ℕ) (p : ExitPool) (m : List (Text × ExitNode))
    → IsConsistent p
    → Known p.nodes m
    → (rows : List ExitRowView) × (exit_rows now p (entries m p) ≡ some rows)
      × (length rows ≡ length m)
unfolding exit_rows entries
rows_of now p [] c k = ([], refl, refl)
rows_of now p ((id, n) ∷ m) c k =
    let (rest, made, count) = rows_of now p m c k.1 in
    let (h, there) = lookup_of_has text_dec id p.health (c.with_health id ∙ k.0) in
    let e : Entry = record { node = n; health = some h; bans = model_bans id p.bans } in
    (exit_row now (passive_stats n.id p) e h ∷ rest, rw (there, made) refl, ap (λ l. suc l) count)

-- Where the table is consistent, the view is made, and has as many rows as there are exits in it.
pub build_status_view_lem :
    {RefillView : Type 0}
    → (refill_view : RefillLoop → RefillView) (now : ℕ) (r : Runtime) (strict : Bool)
      (proxy_hosts : List Text)
    → IsConsistent r.prober.pool
    → (v : PoolStatusView RefillView) × (build_status_view refill_view now
          (some r)
          strict
          proxy_hosts
        ≡ some v)
      × (length v.exits ≡ v.total)
unfolding build_status_view list snapshot
build_status_view_lem refill_view now r strict proxy_hosts c =
    let p = r.prober.pool in
    let (rows, made, count) = rows_of now p p.nodes c (Known-self p.nodes) in
    (
      live_view refill_view now r strict proxy_hosts rows,
      ap (with_rows refill_view now r strict proxy_hosts) made,
      count,
    )
