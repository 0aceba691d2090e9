-- ===== src/Singbox/Wiring.antt =====
-- packages/plugin/src/pool/singbox.ts: the ports of the generated configuration.
use dsh_opencode.Base.{
  ℕ, suc, ◌+◌, ◌≤◌, ◌<◌, ◌≡◌, refl, sym, ap, ◌∙◌, Bool, true, List, [], ◌∷◌, ◌++◌, map, Text,
  Option, none, some, arith, ◌==◌, ◌||◌, text_dec, exists, All, length, length-append, subst,
}
use dsh_opencode.Base.Maps.{insert, delete, All-insert, All-delete}
use dsh_opencode.Base.Json.{Json, Fields, Number}
use dsh_opencode.Singbox.Outbound.{ParsedNode}
use dsh_opencode.Singbox.Config.{
  Inbound, Rule, GeneratedConfig, node_key_of, in_tag, out_tag, direct, take_node, add_nodes,
  generate_config,
}

-- Strictly ascending ports, all of them in a range.
abbrev pub Ascending : ℕ → List Inbound → ℕ → Type 0
Ascending low [] high = low ≤ high
Ascending low (i ∷ is) high = (low < i.listen_port) × Ascending i.listen_port is high

abbrev pub listens : ℕ → List Inbound → Bool
listens port is = exists (λ i. i.listen_port == port) is

-- Every port of the map has an inbound, every inbound its rule, no two inbounds share a port, and
-- there are some more outbounds than rules.
abbrev pub IsWired : ℕ → ℕ → ℕ → GeneratedConfig → Type 0
IsWired more low high g =
    Ascending low g.inbounds high
    × (map (λ r. r.inbound) g.rules ≡ map (λ i. i.tag) g.inbounds)
    × (length g.outbounds ≡ more + length g.rules)
    × All (λ e. listens e.1 g.inbounds ≡ true) g.port_map

Ascending-append :
    (low high : ℕ) (is : List Inbound) (i : Inbound)
    → Ascending low is high
    → i.listen_port ≡ suc high
    → Ascending low (is ++ (i ∷ [])) (suc high)
Ascending-append low high [] i h e = (omega (arith, h, e), omega (arith, e))
Ascending-append low high (j ∷ is) i h e = (h.0, Ascending-append j.listen_port high is i h.1 e)

Ascending-more :
    (low high : ℕ) (is : List Inbound) → Ascending low is high → Ascending low is (suc high)
Ascending-more low high [] h = omega (arith, h)
Ascending-more low high (j ∷ is) h = (h.0, Ascending-more j.listen_port high is h.1)

map-append :
    {A : Type 0}
    → (f : A → Text) (xs : List A) (x : A) → map f (xs ++ (x ∷ [])) ≡ map f xs ++ (f x ∷ [])
map-append f [] x = refl
map-append f (y ∷ xs) x = ap (λ ts. f y ∷ ts) (map-append f xs x)

rules-append :
    (rs : List Rule) (is : List Inbound) (r : Rule) (i : Inbound)
    → map (λ r. r.inbound) rs ≡ map (λ i. i.tag) is
    → r.inbound ≡ i.tag
    → map (λ r. r.inbound) (rs ++ (r ∷ [])) ≡ map (λ i. i.tag) (is ++ (i ∷ []))
rules-append rs is r i h e =
    map-append (λ r. r.inbound) rs r
    ∙ ap (λ ts. ts ++ (r.inbound ∷ [])) h
    ∙ ap (λ t. map (λ i. i.tag) is ++ (t ∷ [])) e
    ∙ sym (map-append (λ i. i.tag) is i)

listens-append :
    (port : ℕ) (is : List Inbound) (i : Inbound)
    → listens port (is ++ (i ∷ [])) ≡ (listens port is || (i.listen_port == port))
unfolding exists
listens-append port [] i = ground arith
listens-append port (j ∷ is) i = ground (arith, listens-append port is i)

All-delete-insert :
    (P : Text × ℕ → Type 0) (k : Text) (v : ℕ) (m : List (Text × ℕ))
    → All P m
    → All P (delete text_dec k (insert text_dec k v m))
unfolding insert delete
All-delete-insert P k v [] h = ground arith
All-delete-insert P k v ((j, w) ∷ m) h =
    ground (arith, h.0, All-delete text_dec P k m h.1, All-delete-insert P k v m h.1)

All-more :
    (is : List Inbound) (i : Inbound) (m : List (Text × ℕ))
    → All (λ e. listens e.1 is ≡ true) m
    → All (λ e. listens e.1 (is ++ (i ∷ [])) ≡ true) m
All-more is i [] h = tt
All-more is i (e ∷ m) h = (ground (arith, h.0, listens-append e.1 is i), All-more is i m h.1)

length-append_one : {A : Type 0} → (xs : List A) (x : A) → length (xs ++ (x ∷ [])) ≡ suc (length xs)
length-append_one xs x = omega (arith, length-append xs (x ∷ []))

module _ (to_number : Option Json → Option Number) where
  take_node-IsWired :
      (low high index : ℕ) (node : ParsedNode) (o : Option Fields) (g : GeneratedConfig)
      → IsWired 0 low high g
      → IsWired 0 low (suc high) (take_node to_number index (suc high) node o g)
  take_node-IsWired low high index node none g (a, r, o, m) = (
    Ascending-more low high g.inbounds a,
    r,
    o,
    All-delete-insert (λ e. listens e.1 g.inbounds ≡ true) (node_key_of node) (suc high) g.port_map
        m,
  )
  take_node-IsWired low high index node (some out) g (a, r, o, m) =
      let i : Inbound = record { tag = in_tag index; listen_port = suc high } in
      let rule : Rule = record { inbound = in_tag index; outbound = out_tag index } in
      (
        Ascending-append low high g.inbounds i a refl,
        rules-append g.rules g.inbounds rule i r refl,
        omega (arith, o, length-append_one g.outbounds out, length-append_one g.rules rule),
        All-insert text_dec (λ e. listens e.1 (g.inbounds ++ (i ∷ [])) ≡ true) (node_key_of node)
            (suc high) g.port_map (All-more g.inbounds i g.port_map m)
            (ground (arith, listens-append (suc high) g.inbounds i)),
      )

  add_nodes-IsWired :
      (low high index : ℕ) (nodes : List ParsedNode) (g : GeneratedConfig)
      → IsWired 0 low high g
      → IsWired 0 low (length nodes + high) (add_nodes to_number index high nodes g)
  unfolding add_nodes
  add_nodes-IsWired low high index [] g h = subst (λ n. IsWired 0 low n g) (omega arith) h
  add_nodes-IsWired low high index (node ∷ nodes) g h =
      subst (λ n. IsWired 0 low n (add_nodes to_number index high (node ∷ nodes) g)) (omega arith)
        (add_nodes-IsWired low (suc high) (suc index) nodes _
          (take_node-IsWired low high index node _ g h))

  -- In the generated configuration the inbounds listen on ascending ports above the base, so on no
  -- port twice, and on at most one for each node; each has one rule, and there is one
  -- outbound more than rules, the direct one; and every port that the map gives out is one that an inbound listens on.
  pub generate_config-IsWired :
      (base_port : ℕ) (nodes : List ParsedNode)
      → IsWired 1 base_port (length nodes + base_port) (generate_config to_number base_port nodes)
  unfolding generate_config
  generate_config-IsWired base_port nodes =
      let empty : GeneratedConfig = record {
        inbounds = [];
        outbounds = [];
        rules = [];
        port_map = [];
      } in
      let g = add_nodes to_number 0 base_port nodes empty in
      let (a, r, o, m) =
        add_nodes-IsWired base_port base_port 0 nodes empty (omega arith, refl, omega arith, tt) in
      (a, r, omega (arith, o, length-append_one g.outbounds (direct to_number)), m)
