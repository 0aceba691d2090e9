-- ===== src/Dispatcher/Lru.antt =====
-- packages/plugin/src/pool/dispatcher.ts: the LRU order of the proxy agents.
use dsh_opencode.Base.{
  ℕ, ◌+◌, ◌-◌, ◌≤◌, ◌<◌, ◌≡◌, refl, ap, subst, ◌∙◌, Bool, true, false, List, [], ◌∷◌, ◌++◌, Text,
  Option, none, some, arith, ltb, length, length-append, count_if, text_dec, same, Option-cases,
  Bool-cases, inl, inr,
}
use dsh_opencode.Base.Maps.{
  lookup, insert, has, lookup-insert, lookup-insert_self, lookup-delete, has-insert, has-delete,
  has_of_lookup,
}
use dsh_opencode.Pool.Types.{ExitNode, node_of}
use dsh_opencode.Dispatcher.Agents.{
  Dispatcher, take_out, evict_first, trim_cache, remember_agent, touch, build_agent, agent_for,
}
use dsh_opencode.Dispatcher.Hosts.{exit_proxy_uri}

abbrev pub once_if : Bool → ℕ
once_if true = 1
once_if false = 0

-- The order names each cached agent once and nothing else, within the cap.
pub record IsLru {Agent : Type 0} (d : Dispatcher Agent) : Type 0 where
  pub named :
      (k : Text) → count_if (λ x. same k x) d.agents_order ≡ once_if (has text_dec k d.agents)
  pub within : length d.agents_order ≤ d.agent_lru_cap

abbrev pub times : Text → List Text → ℕ
times k xs = count_if (λ x. same k x) xs

times-push :
    (k id : Text) (xs : List Text) → times k (xs ++ (id ∷ [])) ≡ times k xs + once_if (same k id)
unfolding count_if
times-push k id [] = ground arith
times-push k id (x ∷ xs) = ground (arith, times-push k id xs)

times-take_out :
    (k id : Text) (xs : List Text)
    → times id xs ≡ 1
    → times k (take_out id xs) + once_if (same k id) ≡ times k xs
unfolding count_if take_out
times-take_out k id [] h = ground arith
times-take_out k id (x ∷ xs) h = ground (arith, times-take_out k id xs)

length-take_out :
    (id : Text) (xs : List Text) → times id xs ≡ 1 → length (take_out id xs) + 1 ≡ length xs
unfolding count_if take_out
length-take_out id [] h = ground arith
length-take_out id (x ∷ xs) h = ground (arith, length-take_out id xs)

module _ {Agent : Type 0} where
  evict_first-named :
      (k : Text) (order : List Text) (d : Dispatcher Agent)
      → d.agents_order ≡ order
      → ((j : Text) → times j order ≡ once_if (has text_dec j d.agents))
      → times k (evict_first order d).agents_order
        ≡ once_if (has text_dec k (evict_first order d).agents)
  unfolding evict_first count_if
  evict_first-named k [] d e h = ground (arith, h k)
  evict_first-named k (old ∷ rest) d e h =
      ground (arith, h k, h old, has-delete text_dec old k d.agents)

  touch-IsLru :
      (id : Text) (d : Dispatcher Agent) {a : Agent}
      → IsLru d
      → lookup text_dec id d.agents ≡ some a
      → IsLru (touch id d)
  touch-IsLru id d {a} h e =
      let there = has_of_lookup text_dec id d.agents e in
      let once = h.named id ∙ ap once_if there in
      record {
        named = λ k. omega (
          arith,
          h.named k,
          times-push k id (take_out id d.agents_order),
          times-take_out k id d.agents_order once,
        );
        within = omega (
          arith,
          h.within,
          length-append (take_out id d.agents_order) (id ∷ []),
          length-take_out id d.agents_order once,
        );
      }

  remember_agent-named :
      (id k : Text) (a : Agent) (d : Dispatcher Agent)
      → IsLru d
      → has text_dec id d.agents ≡ false
      → times k (remember_agent id a d).agents_order
        ≡ once_if (has text_dec k (remember_agent id a d).agents)
  remember_agent-named id k a d h e =
      let pushed = times-push k id d.agents_order in
      ground (arith, pushed, h.named k, has-insert text_dec id k a d.agents)

  evict_first-length :
      (order : List Text) (d : Dispatcher Agent)
      → d.agents_order ≡ order
      → (length (evict_first order d).agents_order ≡ length order - 1)
        × ((evict_first order d).agent_lru_cap ≡ d.agent_lru_cap)
  unfolding evict_first
  evict_first-length [] d e = (rw e refl, refl)
  evict_first-length (old ∷ rest) d e = (omega arith, refl)

  trim_cache-IsLru :
      (d : Dispatcher Agent)
      → ((k : Text) → times k d.agents_order ≡ once_if (has text_dec k d.agents))
      → length d.agents_order ≤ d.agent_lru_cap + 1
      → IsLru (trim_cache d)
  unfolding trim_cache
  trim_cache-IsLru d named within =
      elim (Bool-cases (ltb d.agent_lru_cap (length d.agents_order))) [
        | inl full ↦
            let short = evict_first-length d.agents_order d refl in
            rw (full, trim_cache)
              (record {
                named = λ k. evict_first-named k d.agents_order d refl named;
                within = omega (arith, within, short.0, short.1);
              })
        | inr room ↦ rw (room, trim_cache) (record { named = named; within = ground (arith, room) })
      ]

module _ {Agent : Type 0} (build : Text → Option Agent) where
  build_agent-IsLru :
      (id : Text) (node : ExitNode) (d : Dispatcher Agent)
      → IsLru d
      → lookup text_dec id d.agents ≡ none
      → IsLru (build_agent build id node d).0
  unfolding has
  build_agent-IsLru id node d h e =
      elim (Option-cases (build (exit_proxy_uri node.id node.protocol))) [
        | inl failed ↦ rw (failed, build_agent) h
        | inr (a, built) ↦
            rw (built, build_agent)
              (trim_cache-IsLru (remember_agent id a d)
                (λ k. remember_agent-named id k a d h (rw (e, has) refl))
                (omega (arith, h.within, length-append d.agents_order (id ∷ []))))
      ]

  agent_for-IsLru : (id : Text) (d : Dispatcher Agent) → IsLru d → IsLru (agent_for build id d).0
  unfolding agent_for
  agent_for-IsLru id d h = elim (Option-cases (lookup text_dec id d.agents)) [
    | inr (a, cached) ↦ rw (cached, agent_for) (touch-IsLru id d h cached)
    | inl absent ↦ elim (Option-cases (node_of id d.pool)) [
      | inl gone ↦ rw (absent, gone, agent_for) h
      | inr (node, there) ↦ rw (absent, there, agent_for) (build_agent-IsLru id node d h absent)
    ]
  ]

-- The agent of an exit is cached and the last in the order.
abbrev pub IsNewest : {Agent : Type 0} → Text → Agent → Dispatcher Agent → Type 0
IsNewest id a d =
    (lookup text_dec id d.agents ≡ some a) × ((ys : List Text) × (d.agents_order ≡ ys ++ (id ∷ [])))

module _ {Agent : Type 0} where
  touch-IsNewest :
      (id : Text) (d : Dispatcher Agent) {a : Agent}
      → lookup text_dec id d.agents ≡ some a
      → IsNewest id a (touch id d)
  touch-IsNewest id d e = (e, (take_out id d.agents_order, refl))

  evict_first-IsNewest :
      (id : Text) (order : List Text) (a : Agent) (d : Dispatcher Agent)
      → d.agents_order ≡ order
      → IsLru d
      → has text_dec id d.agents ≡ false
      → 0 < length order
      → IsNewest id a (evict_first (order ++ (id ∷ [])) (remember_agent id a d))
  unfolding evict_first count_if
  evict_first-IsNewest id [] a d e h absent long = ground arith
  evict_first-IsNewest id (old ∷ rest) a d e h absent long =
      let others =
        subst (λ xs. times old xs ≡ once_if (has text_dec old d.agents)) e (h.named old) in
      (
        ground (
          arith,
          others,
          lookup-delete text_dec old id (insert text_dec id a d.agents),
          lookup-insert text_dec id id a d.agents,
        ),
        (rest, refl),
      )

  trim_cache-IsNewest :
      (id : Text) (a : Agent) (d : Dispatcher Agent)
      → IsLru d
      → 0 < d.agent_lru_cap
      → has text_dec id d.agents ≡ false
      → IsNewest id a (trim_cache (remember_agent id a d))
  unfolding trim_cache
  trim_cache-IsNewest id a d h room absent =
      let longer = length-append d.agents_order (id ∷ []) in
      elim (Bool-cases (ltb d.agent_lru_cap (length (d.agents_order ++ (id ∷ []))))) [
        | inl full ↦
            rw (full, trim_cache)
              (evict_first-IsNewest id d.agents_order a d refl h absent
                (ground (arith, longer, full)))
        | inr fits ↦
            rw (fits, trim_cache)
              (lookup-insert_self text_dec id a d.agents, (d.agents_order, refl))
      ]

module _ {Agent : Type 0} (build : Text → Option Agent) where
  build_agent-IsNewest :
      (id : Text) (node : ExitNode) (d : Dispatcher Agent) {a : Agent}
      → IsLru d
      → 0 < d.agent_lru_cap
      → lookup text_dec id d.agents ≡ none
      → (build_agent build id node d).1 ≡ some a
      → IsNewest id a (build_agent build id node d).0
  unfolding has
  build_agent-IsNewest id node d {a} h room absent e =
      elim (Option-cases (build (exit_proxy_uri node.id node.protocol))) [
        | inl failed ↦ ground (arith, failed)
        | inr (b, built) ↦
            let newest = trim_cache-IsNewest id b d h room (rw (absent, has) refl) in
            let the_same : b ≡ a = ground (arith, built) in
            rw (built, build_agent)
              (subst (λ x. IsNewest id x (trim_cache (remember_agent id b d))) the_same newest)
      ]

  agent_for-IsNewest :
      (id : Text) (d : Dispatcher Agent) {a : Agent}
      → IsLru d
      → 0 < d.agent_lru_cap
      → (agent_for build id d).1 ≡ some a
      → IsNewest id a (agent_for build id d).0
  unfolding agent_for
  agent_for-IsNewest id d {a} h room e = elim (Option-cases (lookup text_dec id d.agents)) [
    | inr (b, cached) ↦
        let the_same : b ≡ a = ground (arith, cached) in
        rw (cached, agent_for)
          (subst (λ x. IsNewest id x (touch id d)) the_same (touch-IsNewest id d cached))
    | inl absent ↦ elim (Option-cases (node_of id d.pool)) [
      | inl gone ↦ ground (arith, absent, gone)
      | inr (node, there) ↦
          rw (absent, there, agent_for)
            (build_agent-IsNewest id node d h room absent (ground (arith, absent, there)))
    ]
  ]

  -- Where the order of the agents is that of the cache, without repetitions and within the cap, it
  -- stays so whichever exit is asked for and whether or not its agent can be built. With a positive
  -- cap, the agent that is given is then cached under its exit and the last in line for eviction.
  pub agent_for_lem :
      (id : Text) (d : Dispatcher Agent)
      → IsLru d
      → let (after, given) = agent_for build id d in
        IsLru after × ((a : Agent) → 0 < d.agent_lru_cap → given ≡ some a → IsNewest id a after)
  agent_for_lem id d h =
      (agent_for-IsLru build id d h, λ a room e. agent_for-IsNewest id d h room e)
