-- ===== src/Refill/Collect.antt =====
-- packages/plugin/src/pool/refill.ts: the candidates that a round collects. The rows of a source
-- come shuffled; the shuffle is left to the caller.
use dsh_opencode.Base.{
  ℕ, ◌+◌, ◌≤◌, ◌≡◌, refl, Bool, true, false, ◌||◌, List, [], ◌∷◌, ◌++◌, Text, arith, leb,
  if◌then◌else◌, length, length-append, exists, same, count_if, Bool-cases, inl, inr,
}
use dsh_opencode.Pool.Types.{Protocol, PoolState}
use dsh_opencode.Sources.Breaker.{SourceBreaker, can_use}
use dsh_opencode.Sources.Lists.{FreeSource}

pub record Candidate : Type 0 where
  pub address : Text
  pub host : Text
  pub port : ℕ

pub record Collected : Type 0 where
  pub seen : List Text
  pub candidates : List Candidate
  pub from_this_source : ℕ

abbrev pub candidate_cap : ℕ
candidate_cap = 20000

abbrev pub per_source_cap : ℕ
per_source_cap = 5000

abbrev pub is_http : Protocol → Bool
is_http Protocol.http = true
is_http Protocol.socks5 = false

abbrev pub is_seen : Text → List Text → Bool
is_seen address seen = exists (λ a. same a address) seen

-- One row that is neither past a cap nor seen before.
abbrev pub keep_row : Protocol → Candidate → Collected → Collected
keep_row Protocol.socks5 row c = record c { seen = row.address ∷ c.seen }
keep_row Protocol.http row c = record {
  seen = row.address ∷ c.seen;
  candidates = c.candidates ++ (row ∷ []);
  from_this_source = c.from_this_source + 1;
}

abbrev pub take_row : Protocol → Candidate → Collected → Collected
take_row protocol row c = if is_seen row.address c.seen then c else keep_row protocol row c

-- The loop over the rows of one source, whose breaks are the caps.
unfoldable pub collect_rows : Protocol → List Candidate → Collected → Collected
unfolding exists
collect_rows protocol [] c = c
collect_rows protocol (row ∷ rows) c =
    let rest = collect_rows protocol rows (take_row protocol row c) in
    if leb candidate_cap (length c.candidates) || leb per_source_cap c.from_this_source
    then c
    else rest

-- The sources of a round: by the state, and but for an emergency those that the breaker allows.
unfoldable pub round_sources :
    ℕ → PoolState → SourceBreaker → List FreeSource → SourceBreaker × List FreeSource
unfolding can_use
round_sources now PoolState.emergency b sources = (b, sources)
round_sources now state b [] = (b, [])
round_sources now state b (s ∷ ss) =
    let (tried, usable) = can_use now s.url b in
    let (after, rest) = round_sources now state tried ss in
    (after, if usable then s ∷ rest else rest)

-- Each candidate's address has been seen, and none stands twice.
abbrev pub occurrences : Text → List Candidate → ℕ
occurrences a cs = count_if (λ c. same c.address a) cs

abbrev pub once_if_seen : Bool → ℕ
once_if_seen true = 1
once_if_seen false = 0

pub record IsTidy (c : Collected) : Type 0 where
  pub once : (a : Text) → occurrences a c.candidates ≤ once_if_seen (is_seen a c.seen)
  pub within : length c.candidates ≤ candidate_cap
  pub share : c.from_this_source ≤ per_source_cap

occurrences-push :
    (a : Text) (row : Candidate) (cs : List Candidate)
    → occurrences a (cs ++ (row ∷ [])) ≡ occurrences a cs + once_if_seen (same row.address a)
unfolding count_if
occurrences-push a row [] = ground arith
occurrences-push a row (c ∷ cs) = ground (arith, occurrences-push a row cs)

keep_row-once :
    (protocol : Protocol) (row : Candidate) (c : Collected) (a : Text)
    → IsTidy c
    → is_seen row.address c.seen ≡ false
    → occurrences a (keep_row protocol row c).candidates
      ≤ once_if_seen (is_seen a (keep_row protocol row c).seen)
unfolding exists
keep_row-once Protocol.socks5 row c a h new = ground (arith, h.once a, h.once row.address)
keep_row-once Protocol.http row c a h new =
    ground (arith, h.once a, h.once row.address, occurrences-push a row c.candidates)

keep_row-caps :
    (protocol : Protocol) (row : Candidate) (c : Collected)
    → IsTidy c
    → (leb candidate_cap (length c.candidates) || leb per_source_cap c.from_this_source) ≡ false
    → (length (keep_row protocol row c).candidates ≤ candidate_cap)
      × ((keep_row protocol row c).from_this_source ≤ per_source_cap)
keep_row-caps Protocol.socks5 row c h room = (h.within, h.share)
keep_row-caps Protocol.http row c h room =
    (ground (arith, length-append c.candidates (row ∷ []), room), ground (arith, room))

take_row-IsTidy :
    (protocol : Protocol) (row : Candidate) (c : Collected)
    → IsTidy c
    → (leb candidate_cap (length c.candidates) || leb per_source_cap c.from_this_source) ≡ false
    → IsTidy (take_row protocol row c)
take_row-IsTidy protocol row c h room = elim (Bool-cases (is_seen row.address c.seen)) [
  | inl old ↦ rw (old, take_row) h
  | inr new ↦
      rw (new, take_row)
        (record {
          once = λ a. keep_row-once protocol row c a h new;
          within = (keep_row-caps protocol row c h room).0;
          share = (keep_row-caps protocol row c h room).1;
        })
]

collect_rows-IsTidy :
    (protocol : Protocol) (rows : List Candidate) (c : Collected)
    → IsTidy c
    → IsTidy (collect_rows protocol rows c)
unfolding collect_rows
collect_rows-IsTidy protocol [] c h = h
collect_rows-IsTidy protocol (row ∷ rows) c h =
    elim (Bool-cases
      (leb candidate_cap (length c.candidates) || leb per_source_cap c.from_this_source)) [
        | inl full ↦ rw (full, collect_rows) h
        | inr room ↦
            rw (room, collect_rows)
              (collect_rows-IsTidy protocol rows (take_row protocol row c)
                (take_row-IsTidy protocol row c h room))
      ]

take_row-old :
    (protocol : Protocol) (row : Candidate) (c : Collected) (a : Text)
    → is_seen a c.seen ≡ true
    → (is_seen a (take_row protocol row c).seen ≡ true)
      × (occurrences a (take_row protocol row c).candidates ≡ occurrences a c.candidates)
unfolding exists
take_row-old Protocol.socks5 row c a e = ground arith
take_row-old Protocol.http row c a e = ground (arith, occurrences-push a row c.candidates)

collect_rows-old :
    (protocol : Protocol) (rows : List Candidate) (c : Collected) (a : Text)
    → is_seen a c.seen ≡ true
    → occurrences a (collect_rows protocol rows c).candidates ≡ occurrences a c.candidates
unfolding collect_rows
collect_rows-old protocol [] c a e = refl
collect_rows-old protocol (row ∷ rows) c a e =
    let (still, same_count) = take_row-old protocol row c a e in
    ground (arith, collect_rows-old protocol rows (take_row protocol row c) a still, same_count)

-- However many rows a source has, the candidates keep each address at most once and within the two
-- caps, and an address that the pool or an earlier row has is not collected again.
pub collect_rows_lem :
    (protocol : Protocol) (rows : List Candidate) (c : Collected)
    → IsTidy c
    → IsTidy (collect_rows protocol rows c)
      × ((a : Text)
          → is_seen a c.seen ≡ true
          → occurrences a (collect_rows protocol rows c).candidates ≡ occurrences a c.candidates)
collect_rows_lem protocol rows c h =
    (collect_rows-IsTidy protocol rows c h, λ a e. collect_rows-old protocol rows c a e)
