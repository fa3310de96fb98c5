-- ===== src/Batch/Progress.antt =====
-- The goroutines never block one another for good, and what `BatchProcessor` then returns.
use native.Mathlib.Decide.{dec_lt}
use sample_arc_autoshift_kar.Base.{
  ℕ, zero, suc, ◌<◌, ◌≡◌, refl, ap, ◌↔◌, ◌⊎◌, inl, inr, Bool, none, List, [], ◌∷◌, ◌++◌, length,
  All, arith, Bool-cases,
}
use sample_arc_autoshift_kar.Batch.{max_concurrent_batches}
use sample_arc_autoshift_kar.Batch.Pool.{
  Phase, Shared, Pool, Move, Step, Reach, IsFinished, returned, spawned, waiting, holding, running,
  leaving, finished, enter, refuse, acquire, start, abandon, succeed, release, go, cancel, next,
}
use sample_arc_autoshift_kar.Batch.Bounds.{
  holds, failed, total, total-append_cons, Reach-Inv, channel_room,
}

module _ {Err : Type 0} where
  -- The steps that a goroutine has left, at most.
  abbrev pub rank : Phase Err → ℕ
  rank spawned = 5
  rank waiting = 4
  rank holding = 3
  rank running = 2
  rank (leaving _) = 1
  rank (finished _) = 0

  Move-rank :
      {n : ℕ} {done : Err} {m m' : Shared Err} {p p' : Phase Err}
      → Move n done m p m' p'
      → rank p' < rank p
  Move-rank (enter c) = omega arith
  Move-rank mv = omega arith

  -- A goroutine's step leaves the pool with less to do; cancellation moves no goroutine.
  pub Step-rank :
      {n : ℕ} {done : Err} {s t : Pool Err}
      → Step n done s t
      → (total rank t.phases < total rank s.phases) ⊎ (t.phases ≡ s.phases)
  Step-rank {s} (go xs ys {p} {p'} e mv) = inl (
      omega (
        arith,
        Move-rank mv,
        ap (total rank) e,
        total-append_cons rank xs p ys,
        total-append_cons rank xs p' ys,
      ))
  Step-rank cancel = inr refl

  -- A goroutine of positive weight.
  record Pick (w : Phase Err → ℕ) (ps : List (Phase Err)) : Type 0 where
    before : List (Phase Err)
    after : List (Phase Err)
    phase : Phase Err
    split : ps ≡ before ++ phase ∷ after
    weighs : 0 < w phase

  pick : (w : Phase Err → ℕ) (ps : List (Phase Err)) → 0 < total w ps → Pick w ps
  unfolding total
  pick w [] h = absurd (omega arith)
  pick w (p ∷ ps) h = elim (dec_lt 0 (w p)) [
    | yes q ↦ record { before = []; after = ps; phase = p; split = refl; weighs = q }
    | no q ↦
        let r : Pick w ps = pick w ps (omega arith) in
        record {
          before = p ∷ r.before;
          after = r.after;
          phase = r.phase;
          split = ap (λ l. p ∷ l) r.split;
          weighs = r.weighs;
        }
  ]

  -- A step of some goroutine.
  record Next (n : ℕ) (done : Err) (s : Pool Err) : Type 0 where
    state : Pool Err
    step : Step n done s state
    falls : total rank state.phases < total rank s.phases

  Move-Next :
      {n : ℕ} {done : Err} {s : Pool Err} {w : Phase Err → ℕ} (k : Pick w s.phases) {m : Shared Err}
      {p' : Phase Err}
      → Move n done s.shared k.phase m p'
      → Next n done s
  Move-Next {s} k {p'} mv = record {
    state = _;
    step = go k.before k.after k.split mv;
    falls = omega (
      arith,
      Move-rank mv,
      ap (total rank) k.split,
      total-append_cons rank k.before k.phase k.after,
      total-append_cons rank k.before p' k.after,
    );
  }

  -- A goroutine that holds a token can always move.
  holder-Move :
      (n : ℕ) (done : Err) (m : Shared Err) (p : Phase Err)
      → 0 < holds p
      → (failed p ≡ 0 → length m.errors < n)
      → (m' : Shared Err) × (p' : Phase Err) × Move n done m p m' p'
  holder-Move n done m spawned h room = absurd (omega arith)
  holder-Move n done m waiting h room = absurd (omega arith)
  holder-Move n done m holding h room = elim (Bool-cases m.cancelled) [
    | inl c ↦ (_, _, abandon c (room refl))
    | inr c ↦ (_, _, start c)
  ]
  holder-Move n done m running h room = (_, _, succeed)
  holder-Move n done m (leaving r) h room = (_, _, release)
  holder-Move n done m (finished r) h room = absurd (omega arith)

  -- With a token free, every goroutine that has not finished can move.
  free-Move :
      (n : ℕ) (done : Err) (m : Shared Err) (p : Phase Err)
      → 0 < rank p
      → m.tokens < max_concurrent_batches
      → (failed p ≡ 0 → length m.errors < n)
      → (m' : Shared Err) × (p' : Phase Err) × Move n done m p m' p'
  free-Move n done m spawned h free room = elim (Bool-cases m.cancelled) [
    | inl c ↦ (_, _, refuse c (room refl))
    | inr c ↦ (_, _, enter c)
  ]
  free-Move n done m waiting h free room = (_, _, acquire free)
  free-Move n done m (finished r) h free room = absurd (omega arith)
  free-Move n done m p h free room = holder-Move n done m p (omega arith) room

  Reach-Next :
      {n : ℕ} {done : Err} {c : Bool} {s : Pool Err}
      → Reach n done c s
      → 0 < total rank s.phases
      → Next n done s
  Reach-Next {n} {done} {s} r h = elim (dec_lt s.shared.tokens max_concurrent_batches) [
    | yes free ↦
        let k : Pick rank s.phases = pick rank s.phases h in
        let (m, p, mv) =
          free-Move n done s.shared k.phase k.weighs free
            (channel_room r k.before k.after k.phase k.split) in
        Move-Next k mv
    | no full ↦
        let k : Pick holds s.phases = pick holds s.phases (omega (arith, Reach-Inv r)) in
        let (m, p, mv) =
          holder-Move n done s.shared k.phase k.weighs
            (channel_room r k.before k.after k.phase k.split) in
        Move-Next k mv
  ]

  All-IsFinished : (ps : List (Phase Err)) → total rank ps ≡ 0 → All IsFinished ps
  unfolding total
  All-IsFinished [] h = tt
  All-IsFinished (finished r ∷ ps) h = (tt, All-IsFinished ps (omega arith))
  All-IsFinished (spawned ∷ ps) h = absurd (omega arith)
  All-IsFinished (waiting ∷ ps) h = absurd (omega arith)
  All-IsFinished (holding ∷ ps) h = absurd (omega arith)
  All-IsFinished (running ∷ ps) h = absurd (omega arith)
  All-IsFinished (leaving r ∷ ps) h = absurd (omega arith)

  completes_within :
      (fuel n : ℕ) (done : Err) (c : Bool) (s : Pool Err)
      → Reach n done c s
      → total rank s.phases < fuel
      → (t : Pool Err) × Reach n done c t × All IsFinished t.phases
  completes_within zero n done c s r h = absurd (omega arith)
  completes_within (suc fuel) n done c s r h = elim (dec_lt 0 (total rank s.phases)) [
    | yes more ↦
        let k : Next n done s = Reach-Next r more in
        completes_within fuel n done c k.state (next r k.step) (omega (arith, k.falls))
    | no over ↦ (s, r, All-IsFinished s.phases (omega arith))
  ]

  -- No deadlock: in every reachable state in which some goroutine has not finished, some goroutine
  -- can move, and so that less is left to do.
  pub no_deadlock :
      {n : ℕ} {done : Err} {c : Bool} {s : Pool Err}
      → Reach n done c s
      → ¬ All IsFinished s.phases
      → (t : Pool Err) × Step n done s t × (total rank t.phases < total rank s.phases)
  no_deadlock {s} r h = elim (dec_lt 0 (total rank s.phases)) [
    | yes more ↦ let k : Next _ _ s = Reach-Next r more in (k.state, k.step, k.falls)
    | no over ↦ absurd (h (All-IsFinished s.phases (omega arith)))
  ]

  -- From every reachable state the goroutines can all finish, upon which `wg.Wait` returns.
  pub completes :
      {n : ℕ} {done : Err} {c : Bool} {s : Pool Err}
      → Reach n done c s
      → (t : Pool Err) × Reach n done c t × All IsFinished t.phases
  completes {n} {done} {c} {s} r =
      completes_within (suc (total rank s.phases)) n done c s r (omega arith)

  -- In every reachable state `errChan` is empty, so that the caller gets no error, exactly when no
  -- goroutine has failed.
  pub returned-eq-none :
      {n : ℕ} {done : Err} {c : Bool} {s : Pool Err}
      → Reach n done c s
      → (returned s ≡ none) ↔ (total failed s.phases ≡ 0)
  unfolding returned
  returned-eq-none {s} r =
      (λ h. ground (arith, (Reach-Inv r).reported), λ h. ground (arith, (Reach-Inv r).reported))
