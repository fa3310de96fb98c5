-- ===== src/Tests/Batches.antt =====
-- The batches at concrete inputs, and a run of the goroutines.
use sample_arc_autoshift_kar.Base.{
  ℕ, ◌<◌, ◌≤◌, true, false, none, some, List, [], ◌∷◌, ◌≡◌, refl, ◌↔◌, All, arith, String,
}
use sample_arc_autoshift_kar.Batch.{max_concurrent_batches, batches}
use sample_arc_autoshift_kar.Batch.Partition.{flatten-batches}
use sample_arc_autoshift_kar.Batch.Pool.{
  Pool, Step, Reach, IsFinished, returned, spawned, waiting, finished, send, enter, refuse, go,
  here, next,
}
use sample_arc_autoshift_kar.Batch.Bounds.{holds, failed, total, concurrency_limit}
use sample_arc_autoshift_kar.Batch.Progress.{rank, no_deadlock, returned-eq-none}
use mathlib.Core.List.{flatten}

abbrev items : List ℕ
items = 1 ∷ 2 ∷ 3 ∷ 4 ∷ 5 ∷ 6 ∷ 7 ∷ 8 ∷ 9 ∷ 10 ∷ 11 ∷ 12 ∷ []

twelve_items :
    batches items ≡ (1 ∷ 2 ∷ 3 ∷ 4 ∷ 5 ∷ []) ∷ (6 ∷ 7 ∷ 8 ∷ 9 ∷ 10 ∷ []) ∷ (11 ∷ 12 ∷ []) ∷ []
unfolding batches
twelve_items = refl

flatten-batches_example : flatten (batches items) ≡ items
flatten-batches_example = flatten-batches items

-- Two batches: the first waits for the semaphore.
abbrev one_waits : Pool String
one_waits = record {
  shared = record { tokens = 0; cancelled = false; errors = [] };
  phases = waiting ∷ spawned ∷ [];
}

one_waits-Reach : Reach 2 "context canceled" false one_waits
one_waits-Reach = next here (go [] (spawned ∷ []) refl (enter refl))

one_waits-working : ¬ All IsFinished one_waits.phases
one_waits-working h = h.0

concurrency_limit_example : total holds one_waits.phases ≤ max_concurrent_batches
concurrency_limit_example = concurrency_limit one_waits-Reach

no_deadlock_example :
    (t : Pool String) × Step 2 "context canceled" one_waits t
    × (total rank t.phases < total rank one_waits.phases)
no_deadlock_example = no_deadlock one_waits-Reach one_waits-working

-- A context that is cancelled before the first goroutine starts.
abbrev refused : Pool String
refused = record {
  shared = record { tokens = 0; cancelled = true; errors = "context canceled" ∷ [] };
  phases = finished (some "context canceled") ∷ spawned ∷ [];
}

refused-Reach : Reach 2 "context canceled" true refused
unfolding send
refused-Reach = next here (go [] (spawned ∷ []) refl (refuse refl (omega arith)))

returned-eq-none_example : (returned refused ≡ none) ↔ (total failed refused.phases ≡ 0)
returned-eq-none_example = returned-eq-none refused-Reach
