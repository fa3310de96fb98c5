-- ===== src/Batch/Partition.antt =====
-- The batches cut the items into consecutive pieces.
use Prim.Native.Nat.add
use mathlib.Core.List.{flatten}
use sample_arc_autoshift_kar.Base.{
  ℕ, zero, suc, ◌+◌, ◌-◌, ◌*◌, ◌≤◌, ◌<◌, ◌≡◌, refl, sym, ap, ◌⊎◌, inl, inr, List, [], ◌∷◌, ◌++◌,
  length, take, drop, All, arith,
}
use sample_arc_autoshift_kar.Batch.{
  batch_size, batch_count, batch_end, slice, batches_from, batches,
}

module _ {ℓ} {A : Type ℓ} where
  length-take-drop : (n k : ℕ) (xs : List A) → n + k ≤ length xs → length (take n (drop k xs)) ≡ n
  length-take-drop zero k xs h = refl
  length-take-drop (suc n) zero [] h = absurd (omega arith)
  length-take-drop (suc n) zero (x ∷ xs) h = omega (arith, length-take-drop n zero xs (omega arith))
  length-take-drop (suc n) (suc k) [] h = absurd (omega arith)
  length-take-drop (suc n) (suc k) (x ∷ xs) h = length-take-drop (suc n) k xs (omega arith)

  drop-eq-nil : (k : ℕ) (xs : List A) → length xs ≤ k → drop k xs ≡ []
  drop-eq-nil zero [] h = refl
  drop-eq-nil zero (x ∷ xs) h = absurd (omega arith)
  drop-eq-nil (suc k) [] h = refl
  drop-eq-nil (suc k) (x ∷ xs) h = drop-eq-nil k xs (omega arith)

  drop-nil : (k : ℕ) → drop {A = A} k [] ≡ []
  drop-nil zero = refl
  drop-nil (suc k) = refl

  take-append-drop : (n : ℕ) (xs : List A) → take n xs ++ drop n xs ≡ xs
  take-append-drop zero xs = refl
  take-append-drop (suc n) [] = refl
  take-append-drop (suc n) (x ∷ xs) = rw (take-append-drop n xs)

  drop-drop : (k n : ℕ) (xs : List A) → drop n (drop k xs) ≡ drop (k + n) xs
  drop-drop zero n xs = rw (add.zero n)
  drop-drop (suc k) n [] = rw (drop-nil n, drop-nil (suc k + n))
  drop-drop (suc k) n (x ∷ xs) = rw (add.suc k n) (drop-drop k n xs)

  take-append-drop_at :
      (start stop : ℕ) (xs : List A)
      → start ≤ stop
      → slice xs start stop ++ drop stop xs ≡ drop start xs
  take-append-drop_at start stop xs h =
      let n : ℕ = stop - start in
      let e : start + n ≡ stop = omega arith in
      let cut : take n (drop start xs) ++ drop (start + n) xs ≡ drop start xs =
        rw (← drop-drop start n xs) (take-append-drop n (drop start xs)) in
      rw e at cut

batch_end_bounds :
    (total start : ℕ)
    → start < total
    → (start < batch_end total start)
      × (batch_end total start ≤ start + batch_size)
      × (batch_end total start ≤ total)
      × ((batch_end total start ≡ start + batch_size)
          ⊎ ((batch_end total start ≡ total) × (total ≤ start + batch_size)))
unfolding batch_end
batch_end_bounds total start h = ground arith

batch_count_bounds : (n i : ℕ) → i < batch_count n → i * batch_size < n
unfolding batch_count
batch_count_bounds n i h = omega arith

batch_count_covers : (n : ℕ) → n ≤ batch_count n * batch_size
unfolding batch_count
batch_count_covers n = omega arith

module _ {ℓ} {A : Type ℓ} where
  drop-batch_end :
      (start : ℕ) (xs : List A)
      → start < length xs
      → drop (batch_end (length xs) start) xs ≡ drop (start + batch_size) xs
  drop-batch_end start xs h = elim (batch_end_bounds (length xs) start h).3 [
    | inl e ↦ rw e
    | inr (e, le) ↦
        rw (e, drop-eq-nil (length xs) xs (omega arith), drop-eq-nil (start + batch_size) xs le)
  ]

  -- The batches from round `i` on hold the items from `i * batch_size` on.
  flatten-batches_from :
      (xs : List A) (rounds i : ℕ)
      → i + rounds ≡ batch_count (length xs)
      → flatten (batches_from xs rounds i) ≡ drop (i * batch_size) xs
  unfolding batches_from flatten
  flatten-batches_from xs zero i h =
      sym (drop-eq-nil (i * batch_size) xs (omega (arith, batch_count_covers (length xs))))
  flatten-batches_from xs (suc rounds) i h =
      let below : i * batch_size < length xs = batch_count_bounds (length xs) i (omega arith) in
      let next : (i + 1) * batch_size ≡ i * batch_size + batch_size = omega arith in
      rw
        (
          flatten-batches_from xs rounds (i + 1) (omega arith),
          next,
          ← drop-batch_end (i * batch_size) xs below,
        )
        (take-append-drop_at (i * batch_size) (batch_end (length xs) (i * batch_size)) xs
          (omega (arith, batch_end_bounds (length xs) (i * batch_size) below)))

  -- Nothing is lost, repeated or reordered: the batches in a row are the items.
  pub flatten-batches : (xs : List A) → flatten (batches xs) ≡ xs
  unfolding batches
  flatten-batches xs = flatten-batches_from xs (batch_count (length xs)) 0 (omega arith)

  length-batches_from : (xs : List A) (rounds i : ℕ) → length (batches_from xs rounds i) ≡ rounds
  unfolding batches_from
  length-batches_from xs zero i = refl
  length-batches_from xs (suc rounds) i = ap suc (length-batches_from xs rounds (i + 1))

  length-slice :
      (xs : List A) (start stop : ℕ)
      → start ≤ stop
      → stop ≤ length xs
      → length (slice xs start stop) ≡ stop - start
  length-slice xs start stop h k = length-take-drop (stop - start) start xs (omega arith)

  abbrev pub IsBatch : List A → Type 0
  IsBatch b = (1 ≤ length b) × (length b ≤ batch_size)

  batches_from-IsBatch :
      (xs : List A) (rounds i : ℕ)
      → i + rounds ≡ batch_count (length xs)
      → All IsBatch (batches_from xs rounds i)
  unfolding batches_from
  batches_from-IsBatch xs zero i h = tt
  batches_from-IsBatch xs (suc rounds) i h =
      let start : ℕ = i * batch_size in
      let below : start < length xs = batch_count_bounds (length xs) i (omega arith) in
      let bounds = batch_end_bounds (length xs) start below in
      let size =
        length-slice xs start (batch_end (length xs) start) (omega (arith, bounds)) bounds.2 in
      (
        (omega (arith, size, bounds), omega (arith, size, bounds)),
        batches_from-IsBatch xs rounds (i + 1) (omega arith),
      )

  -- There are as many batches as the code computes, and each has from one item to `batch_size`.
  pub batches_sizes :
      (xs : List A) → (length (batches xs) ≡ batch_count (length xs)) × All IsBatch (batches xs)
  unfolding batches
  batches_sizes xs = (
    length-batches_from xs (batch_count (length xs)) 0,
    batches_from-IsBatch xs (batch_count (length xs)) 0 (omega arith),
  )
