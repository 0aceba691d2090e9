-- ===== src/Admission/Batch.antt =====
-- packages/plugin/src/pool/admission.ts: `coarseScreenBatch`. The workers share one queue; the end of
-- a screening is a step, in any order, after which its worker takes the next candidate.
use dsh_opencode.Base.{
  ℕ, zero, suc, ◌+◌, ◌≤◌, ◌≡◌, refl, min, max, List, [], ◌∷◌, ◌++◌, Text, Option, none, some, arith,
  length, length-append, text_dec,
}
use dsh_opencode.Base.Maps.{insert}
use dsh_opencode.Admission.Screen.{EchoFacts, Screened}

pub record Batch : Type 0 where
  pub queue : List Text
  pub screening : List Text
  pub finished : ℕ
  pub results : List (Text × EchoFacts)

-- A worker's turn at the queue: it takes a candidate, or ends.
abbrev pub taken : List Text → Batch → Batch
taken [] b = b
taken (address ∷ queue) b = record b { queue = queue; screening = b.screening ++ (address ∷ []) }

unfoldable pub take_candidate : Batch → Batch
take_candidate b = taken b.queue b

unfoldable pub start_workers : ℕ → Batch → Batch
unfolding take_candidate
start_workers zero b = b
start_workers (suc n) b = start_workers n (take_candidate b)

abbrev pub fanout_of : Option ℕ → ℕ
fanout_of none = 300
fanout_of (some n) = max 1 n

unfoldable pub new_batch : Option ℕ → List Text → Batch
unfolding start_workers
new_batch fanout candidates =
    start_workers (min (fanout_of fanout) (length candidates))
      (record { queue = candidates; screening = []; finished = 0; results = [] })

abbrev pub put_back : Text → Option (Text × List Text) → Option (Text × List Text)
put_back x none = none
put_back x (some (y, ys)) = some (y, x ∷ ys)

-- The candidate at a position of those that are screened, and the others.
unfoldable pub pull_out : ℕ → List Text → Option (Text × List Text)
pull_out i [] = none
pull_out zero (x ∷ xs) = some (x, xs)
pull_out (suc i) (x ∷ xs) = put_back x (pull_out i xs)

abbrev pub recorded : Text → Screened → List (Text × EchoFacts) → List (Text × EchoFacts)
recorded address (Screened.rejected reason) results = results
recorded address (Screened.facts found) results = insert text_dec address found results

abbrev pub finish_pulled : Screened → Option (Text × List Text) → Batch → Batch
finish_pulled verdict none b = b
finish_pulled verdict (some (address, others)) b = take_candidate (record b {
  screening = others;
  finished = suc b.finished;
  results = recorded address verdict b.results;
})

unfoldable pub finish_screening : ℕ → Screened → Batch → Batch
unfolding pull_out take_candidate insert
finish_screening i verdict b = finish_pulled verdict (pull_out i b.screening) b

unfoldable pub finish_all : List (ℕ × Screened) → Batch → Batch
unfolding finish_screening
finish_all [] b = b
finish_all ((i, verdict) ∷ steps) b = finish_all steps (finish_screening i verdict b)

-- No more than the fan-out are screened at once, every candidate is in one place, and none waits
-- while nothing is screened.
abbrev pub IsBounded : ℕ → ℕ → Batch → Type 0
IsBounded fanout total b =
    (length b.screening ≤ fanout)
    × (b.finished + length b.screening + length b.queue ≡ total)
    × (length b.screening ≡ 0 → length b.queue ≡ 0)

put_back-length :
    (x : Text) (o : Option (Text × List Text)) (n : ℕ)
    → ((y : Text) (ys : List Text) → o ≡ some (y, ys) → n ≡ suc (length ys))
    → (y : Text) (ys : List Text) → put_back x o ≡ some (y, ys)
    → suc n ≡ suc (length ys)
put_back-length x none n h y ys e = absurd (cc)
put_back-length x (some (z, zs)) n h y ys e = ground (arith, h z zs refl, e)

pull_out-length :
    (i : ℕ) (xs : List Text) (y : Text) (ys : List Text)
    → pull_out i xs ≡ some (y, ys)
    → length xs ≡ suc (length ys)
unfolding pull_out
pull_out-length i [] y ys e = absurd (cc)
pull_out-length zero (x ∷ xs) y ys e = ground (arith, e)
pull_out-length (suc i) (x ∷ xs) y ys e =
    put_back-length x (pull_out i xs) (length xs) (pull_out-length i xs) y ys e

taken-length :
    (queue : List Text) (b : Batch) → length (taken queue b).screening ≤ suc (length b.screening)
taken-length [] b = omega arith
taken-length (address ∷ queue) b = omega (arith, length-append b.screening (address ∷ []))

module _ (fanout total : ℕ) where
  taken-IsBounded :
      (queue : List Text) (b : Batch)
      → b.queue ≡ queue
      → suc (length b.screening) ≤ fanout
      → b.finished + length b.screening + length queue ≡ total
      → IsBounded fanout total (taken queue b)
  taken-IsBounded [] b e room sum = (omega (arith, room), rw e sum, λ idle. rw e refl)
  taken-IsBounded (address ∷ queue) b e room sum =
      let more = length-append b.screening (address ∷ []) in
      (
        omega (arith, room, more),
        omega (arith, sum, more),
        λ idle. absurd (omega (arith, idle, more)),
      )

  start_workers-IsBounded :
      (n : ℕ) (b : Batch)
      → n + length b.screening ≤ fanout
      → IsBounded fanout total b
      → IsBounded fanout total (start_workers n b)
  unfolding start_workers take_candidate
  start_workers-IsBounded zero b room h = h
  start_workers-IsBounded (suc n) b room h =
      start_workers-IsBounded n (take_candidate b) (omega (arith, room, taken-length b.queue b))
        (taken-IsBounded b.queue b refl (omega (arith, room)) h.1)

  start_first-IsBounded :
      (n : ℕ) (b : Batch)
      → 1 ≤ n
      → n + length b.screening ≤ fanout
      → b.finished + length b.screening + length b.queue ≡ total
      → IsBounded fanout total (start_workers n b)
  unfolding start_workers take_candidate
  start_first-IsBounded zero b some_one room sum = absurd (omega (arith, some_one))
  start_first-IsBounded (suc n) b some_one room sum =
      start_workers-IsBounded n (take_candidate b) (omega (arith, room, taken-length b.queue b))
        (taken-IsBounded b.queue b refl (omega (arith, room)) sum)

  finish_pulled-IsBounded :
      (verdict : Screened) (pulled : Option (Text × List Text)) (b : Batch)
      → ((y : Text) (ys : List Text) → pulled ≡ some (y, ys) → length b.screening ≡ suc (length ys))
      → IsBounded fanout total b
      → IsBounded fanout total (finish_pulled verdict pulled b)
  unfolding take_candidate
  finish_pulled-IsBounded verdict none b found h = h
  finish_pulled-IsBounded verdict (some (y, ys)) b found h =
      let one_less = found y ys refl in
      taken-IsBounded b.queue _ refl (omega (arith, h.0, one_less)) (omega (arith, h.1, one_less))

  finish_all-IsBounded :
      (steps : List (ℕ × Screened)) (b : Batch)
      → IsBounded fanout total b
      → IsBounded fanout total (finish_all steps b)
  unfolding finish_all finish_screening
  finish_all-IsBounded [] b h = h
  finish_all-IsBounded ((i, verdict) ∷ steps) b h =
      finish_all-IsBounded steps (finish_screening i verdict b) (
        finish_pulled-IsBounded verdict (pull_out i b.screening) b (pull_out-length i b.screening)
          h)

fanout_of-positive : (fanout : Option ℕ) → 1 ≤ fanout_of fanout
fanout_of-positive none = omega arith
fanout_of-positive (some n) = omega arith

new_batch-IsBounded :
    (fanout : Option ℕ) (candidates : List Text)
    → IsBounded (fanout_of fanout) (length candidates) (new_batch fanout candidates)
unfolding new_batch start_workers
new_batch-IsBounded fanout [] =
    start_workers-IsBounded (fanout_of fanout) 0 (min (fanout_of fanout) 0)
      (record { queue = []; screening = []; finished = 0; results = [] }) (omega arith)
      (omega arith, omega arith, λ idle. refl)
new_batch-IsBounded fanout (x ∷ xs) =
    start_first-IsBounded (fanout_of fanout) (length (x ∷ xs))
      (min (fanout_of fanout) (length (x ∷ xs)))
      (record { queue = x ∷ xs; screening = []; finished = 0; results = [] })
      (omega (arith, fanout_of-positive fanout)) (omega arith) (omega arith)

-- In whatever order the screenings end and whatever they find, no more of them than the fan-out run
-- at once, each candidate waits, is screened or is finished, and none waits while none is screened:
-- when the last screening has ended, every candidate has been screened.
pub finish_all-new_batch :
    (fanout : Option ℕ) (candidates : List Text) (steps : List (ℕ × Screened))
    → let b = finish_all steps (new_batch fanout candidates) in
      (length b.screening ≤ fanout_of fanout)
      × (b.finished + length b.screening + length b.queue ≡ length candidates)
      × (length b.screening ≡ 0 → b.finished ≡ length candidates)
finish_all-new_batch fanout candidates steps =
    let b = finish_all steps (new_batch fanout candidates) in
    let (bound, sum, none_waits) =
      finish_all-IsBounded (fanout_of fanout) (length candidates) steps
        (new_batch fanout candidates) (new_batch-IsBounded fanout candidates) in
    (bound, sum, λ idle. omega (arith, sum, idle, none_waits idle))
