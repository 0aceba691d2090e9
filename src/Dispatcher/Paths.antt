-- ===== src/Dispatcher/Paths.antt =====
-- packages/plugin/src/pool/dispatcher.ts: when a request goes through an exit, and when not.
use dsh_opencode.Base.{
  ℕ, ◌≡◌, ◌≢◌, refl, Bool, true, false, Text, codes, Option, none, some, arith, text_dec,
  Option-cases, Bool-cases, inl, inr, All, ◌⊎◌,
}
use dsh_opencode.Base.Maps.{keys}
use dsh_opencode.Pool.Types.{ExitPool, or_else}
use dsh_opencode.Pool.Selection.{pick, is_usable}
use dsh_opencode.Pool.Choice.{pick-is_usable, pick-eq-none}
use dsh_opencode.Dispatcher.Hosts.{normalize_host, is_loopback, lower, has_scheme, strip_port}
use dsh_opencode.Sources.Lines.{trim, trim_start, is_space}
use dsh_opencode.Dispatcher.Agents.{Dispatcher, agent_for}
use dsh_opencode.Dispatcher.Routing.{
  Route, RoutingContext, includes, is_proxied, dispatch, route_picked,
}

abbrev pub model_of : RoutingContext → Text
model_of context = or_else context.model (codes "default")

abbrev pub session_of : RoutingContext → Text
session_of context = or_else context.session (codes "default")

module _ {Agent : Type 0} (build : Text → Option Agent) (hostname : Text → Option Text)
    (coin : Text → Text → Bool) where
  abbrev pub picked : ℕ → RoutingContext → Dispatcher Agent → ExitPool × Option Text
  picked now context d = pick coin now (session_of context) (model_of context) d.pool

  route_picked-via :
      (now : ℕ) (origin : Text) (context : RoutingContext) (d : Dispatcher Agent) {a : Agent}
      {id model session : Text}
      → (route_picked build hostname coin
          (model_of context)
          (session_of context)
          d
          (picked now context d)).1
        ≡ Route.via a id model session
      → (model ≡ model_of context) × (is_usable now id model d.pool ≡ true)
  route_picked-via now origin context d {a} {id} {model} {session} e =
      elim (Option-cases (picked now context d).1) [
        | inl none_left ↦ ground (arith, none_left)
        | inr (chosen, is_chosen) ↦
            let found = agent_for build chosen (record d { pool = (picked now context d).0 }) in
            elim (Option-cases found.1) [
              | inl failed ↦ ground (arith, is_chosen, failed)
              | inr (b, given) ↦
                  let usable =
                    pick-is_usable coin now (session_of context) (model_of context) d.pool
                      is_chosen in
                  ground (arith, is_chosen, given, usable)
            ]
      ]

  -- A request goes through an exit only while the dispatcher is open, to a proxied host, and
  -- through an exit that is usable for the request's model at that time.
  pub dispatch-via :
      (now : ℕ) (origin : Text) (context : RoutingContext) (d : Dispatcher Agent) {a : Agent}
      {id model session : Text}
      → (dispatch build hostname coin now origin context d).1 ≡ Route.via a id model session
      → (d.closed ≡ false)
        × (is_proxied hostname origin d ≡ true)
        × (model ≡ model_of context)
        × (is_usable now id model d.pool ≡ true)
  unfolding dispatch
  dispatch-via now origin context d {a} {id} {model} {session} e = elim (Bool-cases d.closed) [
    | inl closed ↦ ground (arith, closed)
    | inr alive ↦ elim (Bool-cases (is_proxied hostname origin d)) [
      | inr away ↦ ground (arith, alive, away)
      | inl proxied ↦
          let rest =
            route_picked-via now origin context d {a = a} {id = id} {session = session}
              (ground (arith, alive, proxied)) in
          (alive, proxied, rest.0, rest.1)
    ]
  ]

  route_picked-direct :
      (now : ℕ) (context : RoutingContext) (d : Dispatcher Agent)
      → (route_picked build hostname coin
          (model_of context)
          (session_of context)
          d
          (picked now context d)).1
        ≡ Route.direct
      → All (λ id. is_usable now id (model_of context) d.pool ≡ false) (keys d.pool.nodes)
        ⊎ ((id : Text) × ((picked now context d).1 ≡ some id)
            × ((agent_for build id (record d { pool = (picked now context d).0 })).1 ≡ none))
  route_picked-direct now context d e = elim (Option-cases (picked now context d).1) [
    | inl none_left ↦
        inl (pick-eq-none coin now (session_of context) (model_of context) d.pool none_left)
    | inr (chosen, is_chosen) ↦
        let found = agent_for build chosen (record d { pool = (picked now context d).0 }) in
        elim (Option-cases found.1) [
          | inl failed ↦ inr (chosen, is_chosen, failed)
          | inr (b, given) ↦ ground (arith, is_chosen, given)
        ]
  ]

  not_refused :
      (now : ℕ) (origin : Text) (context : RoutingContext) (d : Dispatcher Agent)
      → d.closed ≡ false
      → is_proxied hostname origin d ≡ true
      → (dispatch build hostname coin now origin context d).1 ≢ Route.refused
  unfolding dispatch
  not_refused now origin context d alive proxied e = elim (Option-cases (picked now context d).1) [
    | inl none_left ↦ ground (arith, alive, proxied, none_left)
    | inr (chosen, is_chosen) ↦
        let found = agent_for build chosen (record d { pool = (picked now context d).0 }) in
        elim (Option-cases found.1) [
          | inl failed ↦ ground (arith, alive, proxied, is_chosen, failed)
          | inr (b, given) ↦ ground (arith, alive, proxied, is_chosen, given)
        ]
  ]

  -- An open dispatcher refuses nothing. It sends a request to a proxied host past the pool only if
  -- no exit is usable for the model, or the agent of the chosen exit cannot be built.
  pub dispatch-direct :
      (now : ℕ) (origin : Text) (context : RoutingContext) (d : Dispatcher Agent)
      → d.closed ≡ false
      → is_proxied hostname origin d ≡ true
      → ((dispatch build hostname coin now origin context d).1 ≢ Route.refused)
        × ((dispatch build hostname coin now origin context d).1 ≡ Route.direct
            → All (λ id. is_usable now id (model_of context) d.pool ≡ false) (keys d.pool.nodes)
              ⊎ ((id : Text) × ((picked now context d).1 ≡ some id)
                  × ((agent_for build id (record d { pool = (picked now context d).0 })).1 ≡ none)))
  unfolding dispatch
  dispatch-direct now origin context d alive proxied = (
    not_refused now origin context d alive proxied,
    λ e. route_picked-direct now context d (ground (arith, alive, proxied)),
  )

v6_is_no_loopback : (hostname : Text → Option Text) → is_loopback hostname (codes "::1") ≡ false
unfolding is_loopback normalize_host trim is_space lower has_scheme strip_port text_dec trim_start
v6_is_no_loopback hostname = refl

-- The host ::1 is not taken for a loopback: a list of proxied hosts that names it sends its traffic
-- to the pool, since the second normalization strips `:1` as if it were a port.
pub is_proxied-v6 :
    {Agent : Type 0} (hostname : Text → Option Text) (origin : Text) (d : Dispatcher Agent)
    → normalize_host hostname origin ≡ codes "::1"
    → includes d.proxy_hosts (codes "::1") ≡ true
    → is_proxied hostname origin d ≡ true
unfolding is_proxied
is_proxied-v6 hostname origin d e listed = ground (arith, v6_is_no_loopback hostname, e, listed)
