-- ===== src/Restore/Frame.antt =====
-- The requests of the end of a shift, seen from whatever they leave alone.
use sample_arc_autoshift_kar.Base.{String, none, List, [], ◌∷◌, ◌++◌, arith}
use sample_arc_autoshift_kar.Pools.{
  Requirement, PoolItem, Request, spec_patch, annotation_patch, patch,
}
use sample_arc_autoshift_kar.Pools.Api.{PoolApi}
use sample_arc_autoshift_kar.Update.{send_only}
use sample_arc_autoshift_kar.Restore.{
  send_restored, restore_requirements, restore_pool, restore_standard,
}

-- `P` is kept by every request.
module _ {S : Type 0} (api : PoolApi S) (P : S → Type 0)
    (sends : (r : Request) (s : S) → P s → P (send_only api r s)) where
  send_restored-frame :
      (pool : PoolItem) (reqs : List Requirement) (s : S) → P s → P (send_restored api pool reqs s)
  unfolding send_restored
  send_restored-frame pool reqs s h =
      sends (patch pool.name (annotation_patch none)) _
        (sends (patch pool.name (spec_patch reqs none)) s h)

  restore_requirements-frame :
      (pool : PoolItem) (away : String) (before reqs : List Requirement) (s : S)
      → P s
      → P (restore_requirements api pool away before reqs s)
  unfolding restore_requirements
  restore_requirements-frame pool away before [] s h = h
  restore_requirements-frame pool away before (req ∷ reqs) s h =
      let restored = record req { values = req.values ++ away ∷ [] } in
      ground (
        arith,
        h,
        send_restored-frame pool (before ++ restored ∷ reqs) s h,
        restore_requirements-frame pool away (before ++ restored ∷ []) reqs s h,
        restore_requirements-frame pool away (before ++ req ∷ []) reqs s h,
      )

  restore_pool-frame :
      (away : String) (pool : PoolItem) (s : S) → P s → P (restore_pool api away pool s)
  unfolding restore_pool
  restore_pool-frame away pool s h =
      ground (arith, h, restore_requirements-frame pool away [] pool.requirements s h)

  -- What every request for a pool keeps, the restoring of the pools in standard mode keeps.
  pub restore_standard-frame :
      (away : String) (pools : List PoolItem) (s : S) → P s → P (restore_standard api away pools s)
  unfolding restore_standard
  restore_standard-frame away [] s h = h
  restore_standard-frame away (pool ∷ pools) s h =
      restore_standard-frame away pools _ (restore_pool-frame away pool s h)
