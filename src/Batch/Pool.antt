-- ===== src/Batch/Pool.antt =====
-- The goroutines of `BatchProcessor`, interleaved in any order: the semaphore, the context, the
-- error channel and `wg.Wait`.
use sample_arc_autoshift_kar.Base.{
  ℕ, zero, suc, ◌+◌, ◌-◌, ◌<◌, ◌≡◌, Bool, true, false, Option, none, some, List, [], ◌∷◌, ◌++◌,
  length,
}
use sample_arc_autoshift_kar.Batch.{max_concurrent_batches}

-- Where the goroutine of a batch stands. The last two carry the error that it reported.
pub data Phase (Err : Type 0) : Type 0 where
  spawned : Phase Err  -- before `ctx.Err()`
  waiting : Phase Err  -- at the `select` that acquires the semaphore
  holding : Phase Err  -- at the `select` before `processFn`
  running : Phase Err  -- in `processFn`
  leaving : Option Err → Phase Err  -- before the deferred release of the semaphore
  finished : Option Err → Phase Err  -- after `wg.Done()`

-- What the goroutines share: the tokens in `semaphore`, `ctx.Done()`, and `errChan`, oldest first.
pub record Shared (Err : Type 0) : Type 0 where
  pub tokens : ℕ
  pub cancelled : Bool
  pub errors : List Err

pub record Pool (Err : Type 0) : Type 0 where
  pub shared : Shared Err
  pub phases : List (Phase Err)

module _ {Err : Type 0} where
  unfoldable pub send : Err → Shared Err → Shared Err
  send e m = record m { errors = m.errors ++ e ∷ [] }

-- One step of one goroutine, where `room` is the capacity of `errChan` and `done` is the value of
-- `ctx.Err()` once the context is cancelled. A blocking send waits until the channel has room.
pub data Move {Err : Type 0} (room : ℕ) (done : Err) (m : Shared Err)
    : Phase Err → Shared Err → Phase Err → Type 0 where
  enter : m.cancelled ≡ false → Move room done m spawned m waiting
  refuse :
      m.cancelled ≡ true
      → length m.errors < room
      → Move room done m spawned (send done m) (finished (some done))
  acquire :
      m.tokens < max_concurrent_batches
      → Move room done m waiting (record m { tokens = m.tokens + 1 }) holding
  give_up :
      m.cancelled ≡ true
      → length m.errors < room
      → Move room done m waiting (send done m) (finished (some done))
  start : m.cancelled ≡ false → Move room done m holding m running
  abandon :
      m.cancelled ≡ true
      → length m.errors < room
      → Move room done m holding (send done m) (leaving (some done))
  succeed : Move room done m running m (leaving none)
  fail : (e : Err) → length m.errors < room → Move room done m running (send e m) (leaving (some e))
  drop_error :
      (e : Err) → ¬ (length m.errors < room) → Move room done m running m (leaving (some e))
  release :
      {r : Option Err}
      → Move room done m (leaving r) (record m { tokens = m.tokens - 1 }) (finished r)

-- One goroutine moves, or the context is cancelled.
pub data Step {Err : Type 0} (room : ℕ) (done : Err) (s : Pool Err) : Pool Err → Type 0 where
  go :
      (before after : List (Phase Err)) {p p' : Phase Err} {m : Shared Err}
      → s.phases ≡ before ++ p ∷ after
      → Move room done s.shared p m p'
      → Step room done s (record { shared = m; phases = before ++ p' ∷ after })
  cancel : Step room done s (record s { shared = record s.shared { cancelled = true } })

module _ {Err : Type 0} where
  abbrev pub all_spawned : ℕ → List (Phase Err)
  all_spawned zero = []
  all_spawned (suc n) = Phase.spawned ∷ all_spawned n

  -- `n` batches, each with its goroutine, and a context that may already be cancelled.
  abbrev pub launch : ℕ → Bool → Pool Err
  launch n cancelled = record {
    shared = record { tokens = 0; cancelled = cancelled; errors = [] };
    phases = all_spawned n;
  }

  -- `wg.Wait()` returns when every goroutine has called `wg.Done()`.
  abbrev pub IsFinished : Phase Err → Type 0
  IsFinished (Phase.finished _) = Unit
  IsFinished _ = ⊥

  -- The value that `BatchProcessor` returns from the closed channel.
  unfoldable pub returned : Pool Err → Option Err
  returned s = elim s.shared.errors [ [] ↦ none | e ∷ _ ↦ some e ]

-- The states that `BatchProcessor` can reach with `n` batches; the channel has room for `n` errors.
pub data Reach {Err : Type 0} (n : ℕ) (done : Err) (c : Bool) : Pool Err → Type 0 where
  here : Reach n done c (launch n c)
  next : {s t : Pool Err} → Reach n done c s → Step n done s t → Reach n done c t
