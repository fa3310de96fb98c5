-- ===== src/Batch/Bounds.antt =====
-- What holds in every state that the goroutines can reach.
use sample_arc_autoshift_kar.Base.{
  ℕ, zero, suc, ◌+◌, ◌≤◌, ◌<◌, ◌≡◌, ◌∙◌, Bool, none, some, List, [], ◌∷◌, ◌++◌, length, arith,
  length-append,
}
use sample_arc_autoshift_kar.Batch.{max_concurrent_batches}
use sample_arc_autoshift_kar.Batch.Pool.{
  Phase, Shared, Pool, Move, Step, Reach, launch, holding, running, leaving, finished, send, enter,
  refuse, acquire, give_up, start, abandon, succeed, fail, drop_error, release, go, cancel, here,
  next,
}

module _ {Err : Type 0} where
  -- 1 for a goroutine that holds a token of the semaphore.
  abbrev pub holds : Phase Err → ℕ
  holds holding = 1
  holds running = 1
  holds (leaving _) = 1
  holds _ = 0

  -- 1 for a goroutine that has reported an error.
  abbrev pub failed : Phase Err → ℕ
  failed (leaving (some _)) = 1
  failed (finished (some _)) = 1
  failed _ = 0

  unfoldable pub total : (Phase Err → ℕ) → List (Phase Err) → ℕ
  total w [] = 0
  total w (p ∷ ps) = w p + total w ps

  pub total-append_cons :
      (w : Phase Err → ℕ) (xs : List (Phase Err)) (p : Phase Err) (ys : List (Phase Err))
      → total w (xs ++ p ∷ ys) ≡ total w xs + w p + total w ys
  unfolding total
  total-append_cons w [] p ys = omega arith
  total-append_cons w (x ∷ xs) p ys = omega (arith, total-append_cons w xs p ys)

  total-le :
      (w : Phase Err → ℕ)
      → ((p : Phase Err) → w p ≤ 1)
      → (ps : List (Phase Err)) → total w ps ≤ length ps
  unfolding total
  total-le w small [] = omega arith
  total-le w small (p ∷ ps) = omega (arith, small p, total-le w small ps)

  failed-le : (p : Phase Err) → failed p ≤ 1
  failed-le (leaving r) = ground arith
  failed-le (finished r) = ground arith
  failed-le _ = ground arith

  pub record Inv (n : ℕ) (m : Shared Err) (ps : List (Phase Err)) : Type 0 where
    pub count : length ps ≡ n
    pub tokens : m.tokens ≡ total holds ps
    pub limited : m.tokens ≤ max_concurrent_batches
    pub reported : length m.errors ≡ total failed ps

  length-send : (e : Err) (m : Shared Err) → length (send e m).errors ≡ length m.errors + 1
  unfolding send
  length-send e m = ground (arith, length-append m.errors (e ∷ []))

  -- The part of the invariant that speaks of one goroutine, `h` tokens and `f` errors of the others.
  record Local (n h f : ℕ) (m : Shared Err) (p : Phase Err) : Type 0 where
    tokens : m.tokens ≡ h + holds p
    limited : m.tokens ≤ max_concurrent_batches
    reported : length m.errors ≡ f + failed p

  Move-Local :
      {n : ℕ} {done : Err} {m m' : Shared Err} {p p' : Phase Err} (h f : ℕ)
      → Move n done m p m' p'
      → f < n
      → Local n h f m p
      → Local n h f m' p'
  unfolding send
  Move-Local h f (enter c) l i = omega arith
  Move-Local {done = d} {m} h f (refuse c q) l i = omega (arith, length-send d m)
  Move-Local h f (acquire q) l i = omega arith
  Move-Local {done = d} {m} h f (give_up c q) l i = omega (arith, length-send d m)
  Move-Local h f (start c) l i = omega arith
  Move-Local {done = d} {m} h f (abandon c q) l i = omega (arith, length-send d m)
  Move-Local h f succeed l i = omega arith
  Move-Local {m} h f (fail e q) l i = omega (arith, length-send e m)
  Move-Local h f (drop_error e q) l i = absurd (omega arith)
  Move-Local h f (release {r = none}) l i = omega arith
  Move-Local h f (release {r = some e}) l i = omega arith

  -- The invariant of the pool and that of one goroutine say the same of it.
  Inv-Local :
      {n : ℕ} {m : Shared Err} (xs ys : List (Phase Err)) (p : Phase Err)
      → Inv n m (xs ++ p ∷ ys)
      → Local n (total holds xs + total holds ys) (total failed xs + total failed ys) m p
  Inv-Local xs ys p v =
      omega (arith, total-append_cons holds xs p ys, total-append_cons failed xs p ys)

  Local-Inv :
      {n : ℕ} {m : Shared Err} (xs ys : List (Phase Err)) (p : Phase Err)
      → length (xs ++ p ∷ ys) ≡ n
      → Local n (total holds xs + total holds ys) (total failed xs + total failed ys) m p
      → Inv n m (xs ++ p ∷ ys)
  Local-Inv xs ys p e v =
      omega (arith, total-append_cons holds xs p ys, total-append_cons failed xs p ys)

  others-lt :
      {n : ℕ} (xs ys : List (Phase Err)) (p : Phase Err)
      → length (xs ++ p ∷ ys) ≡ n
      → total failed xs + total failed ys < n
  others-lt xs ys p e =
      omega (
        arith,
        length-append xs (p ∷ ys),
        total-le failed failed-le xs,
        total-le failed failed-le ys,
      )

  length-replace :
      (xs ys : List (Phase Err)) (p p' : Phase Err) → length (xs ++ p' ∷ ys) ≡ length (xs ++ p ∷ ys)
  length-replace xs ys p p' = omega (arith, length-append xs (p ∷ ys), length-append xs (p' ∷ ys))

  pub Step-Inv :
      {n : ℕ} {done : Err} {s t : Pool Err}
      → Step n done s t
      → Inv n s.shared s.phases
      → Inv n t.shared t.phases
  Step-Inv (go xs ys {p} {p'} e mv) v =
      let v' : Inv _ _ (xs ++ p ∷ ys) = rw e at v in
      Local-Inv xs ys p' (length-replace xs ys p p' ∙ v'.count)
        (Move-Local _ _ mv (others-lt xs ys p v'.count) (Inv-Local xs ys p v'))
  Step-Inv cancel v = record {
    count = v.count;
    tokens = v.tokens;
    limited = v.limited;
    reported = v.reported;
  }

  launch-Inv : (n : ℕ) (c : Bool) → Inv n (launch n c).shared (launch n c).phases
  unfolding total
  launch-Inv zero c = omega arith
  launch-Inv (suc n) c = omega (arith, launch-Inv n c)

  pub Reach-Inv :
      {n : ℕ} {done : Err} {c : Bool} {s : Pool Err} → Reach n done c s → Inv n s.shared s.phases
  Reach-Inv {n} {c} here = launch-Inv n c
  Reach-Inv (next r st) = Step-Inv st (Reach-Inv r)

  -- At no time are more than `max_concurrent_batches` batches between the acquisition of the
  -- semaphore and its release, however the goroutines are scheduled and whenever the context is
  -- cancelled.
  pub concurrency_limit :
      {n : ℕ} {done : Err} {c : Bool} {s : Pool Err}
      → Reach n done c s
      → total holds s.phases ≤ max_concurrent_batches
  concurrency_limit r = omega (arith, Reach-Inv r)

  -- The error channel always has room for the error of a goroutine that has not reported one, so
  -- that no send blocks and no error is dropped.
  pub channel_room :
      {n : ℕ} {done : Err} {c : Bool} {s : Pool Err}
      → Reach n done c s
      → (xs ys : List (Phase Err)) (p : Phase Err) → s.phases ≡ xs ++ p ∷ ys
      → failed p ≡ 0
      → length s.shared.errors < n
  channel_room r xs ys p e f =
      let v = Reach-Inv r in
      let v' : Inv _ _ (xs ++ p ∷ ys) = rw e at v in
      omega (arith, others-lt xs ys p v'.count, Inv-Local xs ys p v')
