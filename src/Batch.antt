-- ===== src/Batch.antt =====
-- app/pkg/utils/batch.go: items processed in batches, a goroutine for each.
pub mod Partition
pub mod Pool
pub mod Bounds
pub mod Progress
use sample_arc_autoshift_kar.Base.{
  ℕ, zero, suc, ◌+◌, ◌-◌, ◌*◌, ◌/◌, List, [], ◌∷◌, length, take, drop, ltb, if◌then◌else◌, Option,
  none, some,
}

abbrev pub batch_size : ℕ
batch_size = 5

abbrev pub max_concurrent_batches : ℕ
max_concurrent_batches = 20

unfoldable pub batch_count : ℕ → ℕ
batch_count total_items = (total_items + batch_size - 1) / batch_size

-- `end` of the batch that begins at `start`.
unfoldable pub batch_end : ℕ → ℕ → ℕ
batch_end total_items start =
    let stop = start + batch_size in if ltb total_items stop then total_items else stop

module _ {ℓ} {A : Type ℓ} where
  -- `items[start:end]`
  abbrev pub slice : List A → ℕ → ℕ → List A
  slice items start stop = take (stop - start) (drop start items)

  -- The rounds of the loop from `i` on.
  unfoldable pub batches_from : List A → ℕ → ℕ → List (List A)
  unfolding batch_end
  batches_from items zero i = []
  batches_from items (suc rounds) i =
      let start = i * batch_size in
      slice items start (batch_end (length items) start) ∷ batches_from items rounds (i + 1)

  -- The batches that `BatchProcessor` hands to its goroutines, in the order in which it starts them.
  unfoldable pub batches : List A → List (List A)
  unfolding batches_from batch_count
  batches items = batches_from items (batch_count (length items)) 0

-- `processFn` on each batch, in the order in which the scheduler lets the goroutines run. The first
-- error is returned, after all batches have run.
module _ {ℓ κ μ} {A : Type ℓ} {S : Type κ} {Err : Type μ}
    (process : List A → S → Option Err × S) where
  unfoldable pub run_batches : List (List A) → S → Option Err × S
  run_batches [] s = (none, s)
  run_batches (b ∷ bs) s =
      let (e, s') = process b s in
      let (rest, s'') = run_batches bs s' in (elim e [ none ↦ rest | some e' ↦ some e' ], s'')

  unfoldable pub batch_processor : (List (List A) → List (List A)) → List A → S → Option Err × S
  unfolding run_batches
  batch_processor schedule [] s = (none, s)
  batch_processor schedule (x ∷ xs) s = run_batches (schedule (batches (x ∷ xs))) s
