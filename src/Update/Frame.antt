-- ===== src/Update/Frame.antt =====
-- The requests for the pools, seen from whatever they leave alone.
use sample_arc_autoshift_kar.Base.{String, Bool, true, false, some, List, [], ◌∷◌, ◌++◌, arith}
use sample_arc_autoshift_kar.Event.{Event, away_from}
use sample_arc_autoshift_kar.Zones.{get_zone_name_from_zone_id, other_zones}
use sample_arc_autoshift_kar.Nodes.Api.{NodeApi}
use sample_arc_autoshift_kar.Pools.{
  Requirement, PoolItem, Request, spec_patch, annotation_patch, patch, zone_key,
}
use sample_arc_autoshift_kar.Pools.Api.{PoolApi}
use sample_arc_autoshift_kar.Update.{
  Globals, Mode, standard_mode, send_only, annotate_pool, patch_pool, filter_requirements,
  update_pool, update_standard_pool, update_standard,
}

-- `P` is kept by every request.
module _ {S : Type 0} (api : PoolApi S) (P : S → Type 0)
    (sends : (r : Request) (s : S) → P s → P (send_only api r s)) where
  module _ (mode : Mode) (pool : PoolItem) (name away : String) where
    annotate_pool-frame : (s : S) → P s → P (annotate_pool api mode pool name away s).1
    unfolding annotate_pool
    annotate_pool-frame s h =
        ground (arith, h, sends (patch pool.name (annotation_patch (some away))) s h)

    patch_pool-frame :
        (reqs : List Requirement) (s : S) → P s → P (patch_pool api mode pool name away reqs s).1
    unfolding patch_pool
    patch_pool-frame reqs s h =
        let spec = patch pool.name (spec_patch reqs (some pool.disruption)) in
        ground (arith, h, annotate_pool-frame (send_only api spec s) (sends spec s h))

    filter_requirements-frame :
        (before reqs : List Requirement) (exists : Bool) (s : S)
        → P s
        → P (filter_requirements api mode pool name away before reqs exists s).1
    unfolding filter_requirements
    filter_requirements-frame before [] exists s h = h
    filter_requirements-frame before (req ∷ reqs) exists s h =
        let filtered = record req { values = other_zones name req.values } in
        let patched = patch_pool-frame (before ++ filtered ∷ reqs) s h in
        ground (
          arith,
          h,
          patched,
          filter_requirements-frame (before ++ req ∷ []) reqs exists s h,
          filter_requirements-frame (before ++ filtered ∷ []) reqs true _ patched,
        )

  update_pool-frame :
      (mode : Mode) (g : Globals) (event : Event) (zones : List String) (pool : PoolItem) (s : S)
      → P s
      → P (update_pool api mode g event zones pool s)
  unfolding update_pool
  update_pool-frame mode g event zones pool s h =
      let away = away_from event in
      let name = get_zone_name_from_zone_id g.zone_mapping away in
      let added : Requirement = record { key = zone_key; operator = "In"; values = zones } in
      let filtered = filter_requirements-frame mode pool name away [] pool.requirements false s h in
      ground (
        arith,
        filtered,
        patch_pool-frame mode pool name away (pool.requirements ++ added ∷ []) _ filtered,
      )

  module _ (nodes : NodeApi S) (g : Globals) (event : Event) where
    update_standard_pool-frame :
        (zones : List String) (pool : PoolItem) (s : S)
        → P s
        → P (update_standard_pool api nodes g event zones pool s)
    unfolding update_standard_pool
    update_standard_pool-frame [] pool s h = h
    update_standard_pool-frame (zone ∷ zones) pool s h =
        update_pool-frame standard_mode g event (zone ∷ zones) pool s h

    -- What every request for a pool keeps, the update of the pools in standard mode keeps.
    pub update_standard-frame :
        (pools : List PoolItem) (s : S) → P s → P (update_standard api nodes g event pools s)
    unfolding update_standard
    update_standard-frame [] s h = h
    update_standard-frame (pool ∷ pools) s h =
        update_standard-frame pools _ (update_standard_pool-frame _ pool s h)
