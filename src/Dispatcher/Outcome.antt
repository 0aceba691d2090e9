-- ===== src/Dispatcher/Outcome.antt =====
-- packages/plugin/src/pool/dispatcher.ts: a request is charged to its exit once, by the first
-- signal that decides it.
use dsh_opencode.Base.{
  ℕ, ◌≡◌, ◌∙◌, refl, Bool, true, false, List, [], ◌∷◌, ◌++◌, Text, Option, none, some, arith,
  if◌then◌else◌, Option-cases, inl, inr,
}
use dsh_opencode.Pool.Types.{ExitPool}
use dsh_opencode.Dispatcher.Observer.{
  Signal, Observer, silence_error, forwards, arm_sentinel, observe, status_outcome,
  transport_outcome, classify, classify_transport, handle, handle_all,
}

pub data Outcome : Type 0 where
  by_status : ℕ → ℕ → Outcome
  by_transport : Outcome

-- The first signal that decides a request, from whether the silence timer is set.
unfoldable pub first_outcome : Bool → List (ℕ × Signal) → Option Outcome
first_outcome armed [] = none
first_outcome armed ((now, Signal.request_start) ∷ rest) = first_outcome true rest
first_outcome armed ((now, Signal.request_upgrade status) ∷ rest) = first_outcome false rest
first_outcome armed ((now, Signal.response_start status) ∷ rest) = some (by_status now status)
first_outcome armed ((now, Signal.response_data) ∷ rest) = first_outcome armed rest
first_outcome armed ((now, Signal.response_end) ∷ rest) = first_outcome false rest
first_outcome armed ((now, Signal.response_error) ∷ rest) = some by_transport
first_outcome armed ((now, Signal.response_started) ∷ rest) = first_outcome false rest
first_outcome armed ((now, Signal.body_sent) ∷ rest) = first_outcome armed rest
first_outcome armed ((now, Signal.request_sent) ∷ rest) = first_outcome armed rest
first_outcome armed ((now, Signal.silence) ∷ rest) =
    let later = first_outcome false rest in if armed then some by_transport else later

unfoldable pub charge : Text → Text → Text → Option Outcome → ExitPool → ExitPool
charge exit_id model session none pool = pool
charge exit_id model session (some (by_status now status)) pool =
    status_outcome now exit_id model session status pool
charge exit_id model session (some by_transport) pool = transport_outcome exit_id session pool

abbrev pub is_set : Option ℕ → Bool
is_set none = false
is_set (some window) = true

handle-classified :
    (now : ℕ) (s : Signal) (o : Observer)
    → o.classified ≡ true
    → ((handle now s o).pool ≡ o.pool) × ((handle now s o).classified ≡ true)
unfolding handle arm_sentinel classify classify_transport
handle-classified now s o h = elim s [
  | Signal.silence ↦ elim (Option-cases o.armed) [
    | inl off ↦ ground arith
    | inr (w, on) ↦ ground arith
  ]
  | _ ↦ ground arith
]

handle_all-classified :
    (ss : List (ℕ × Signal)) (o : Observer) → o.classified ≡ true → (handle_all ss o).pool ≡ o.pool
unfolding handle_all
handle_all-classified [] o h = refl
handle_all-classified ((now, s) ∷ rest) o h =
    let step = handle-classified now s o h in
    handle_all-classified rest (handle now s o) step.1 ∙ step.0

handle_all-open :
    (ss : List (ℕ × Signal)) (o : Observer)
    → o.classified ≡ false
    → (handle_all ss o).pool
      ≡ charge o.exit_id o.model o.session (first_outcome (is_set o.armed) ss) o.pool
unfolding handle_all first_outcome charge handle arm_sentinel classify classify_transport
handle_all-open [] o h = refl
handle_all-open ((now, Signal.request_start) ∷ rest) o h =
    handle_all-open rest (handle now Signal.request_start o) h
handle_all-open ((now, Signal.request_upgrade status) ∷ rest) o h =
    handle_all-open rest (handle now (Signal.request_upgrade status) o) h
handle_all-open ((now, Signal.response_start status) ∷ rest) o h =
    ground (arith, handle_all-classified rest (handle now (Signal.response_start status) o))
handle_all-open ((now, Signal.response_data) ∷ rest) o h =
    handle_all-open rest (handle now Signal.response_data o) h
handle_all-open ((now, Signal.response_end) ∷ rest) o h =
    handle_all-open rest (handle now Signal.response_end o) h
handle_all-open ((now, Signal.response_error) ∷ rest) o h =
    ground (arith, handle_all-classified rest (handle now Signal.response_error o))
handle_all-open ((now, Signal.response_started) ∷ rest) o h =
    handle_all-open rest (handle now Signal.response_started o) h
handle_all-open ((now, Signal.body_sent) ∷ rest) o h =
    handle_all-open rest (handle now Signal.body_sent o) h
handle_all-open ((now, Signal.request_sent) ∷ rest) o h =
    handle_all-open rest (handle now Signal.request_sent o) h
handle_all-open ((now, Signal.silence) ∷ rest) o h = elim (Option-cases o.armed) [
  | inl off ↦ ground (arith, handle_all-open rest o h)
  | inr (w, on) ↦ ground (arith, handle_all-classified rest (handle now Signal.silence o))
]

-- Whatever signals arrive and in whatever order, the table is charged for the first of these
-- alone: a response line, a transport error, or a silence while the timer is set. Later signals
-- change nothing, and without such a signal the table stays as it was.
pub handle_all-observe :
    (ss : List (ℕ × Signal)) (exit_id model session : Text) (sentinel headers : ℕ) (pool : ExitPool)
    → (handle_all ss (observe exit_id model session sentinel headers pool)).pool
      ≡ charge exit_id model session (first_outcome true ss) pool
unfolding observe arm_sentinel
handle_all-observe ss exit_id model session sentinel headers pool =
    handle_all-open ss (observe exit_id model session sentinel headers pool) refl

-- A transport error before any verdict reaches the downstream handler as two errors, first one
-- about silence and then its own; after a verdict it reaches it once.
pub response_error_lem :
    (now : ℕ) (o : Observer)
    → (o.classified ≡ false
        → (handle now Signal.response_error o).passed
          ≡ (o.passed ++ (silence_error ∷ [])) ++ (forwards Signal.response_error ∷ []))
      × (o.classified ≡ true
          → (handle now Signal.response_error o).passed
            ≡ o.passed ++ (forwards Signal.response_error ∷ []))
unfolding handle classify_transport
response_error_lem now o = ((λ fresh. ground arith), (λ decided. ground arith))
