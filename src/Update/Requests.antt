-- ===== src/Update/Requests.antt =====
-- What the requests of a pool's update can do when any of them may fail.
use sample_arc_autoshift_kar.Base.{
  String, true, false, Option, none, some, List, ◌==◌, eq_iff, ◌≡◌, arith, ◌⊎◌, Option-cases, inl,
  inr,
}
use sample_arc_autoshift_kar.Event.{Event, away_from}
use sample_arc_autoshift_kar.Zones.{get_zone_name_from_zone_id}
use sample_arc_autoshift_kar.Nodes.Api.{Node, NodeApi}
use sample_arc_autoshift_kar.Pools.{
  Requirement, PoolItem, Payload, spec_patch, annotation_patch, patch,
}
use sample_arc_autoshift_kar.Pools.Api.{PoolApi, IsPoolApi, applied}
use sample_arc_autoshift_kar.Update.{Globals, Mode, annotate_pool, patch_pool, update_pool}
use sample_arc_autoshift_kar.Update.Pool.{marked, respecced, update_pool_lem}

-- How far the update of the pool `p` to the requirements `reqs` may have come: not at all, to the
-- new requirements alone, to the annotation alone, or to both.
abbrev pub Reached : String → PoolItem → List Requirement → Option PoolItem → Type 0
Reached away p reqs o =
    (o ≡ some p)
    ⊎ ((o ≡ some (record p { requirements = reqs }))
        ⊎ ((o ≡ some (marked away p))
            ⊎ (o ≡ some (marked away (record p { requirements = reqs })))))

-- The same of a pool that may need no update.
abbrev pub UpdateReached : String → PoolItem → Option (List Requirement) → Option PoolItem → Type 0
UpdateReached away p none o = o ≡ some p
UpdateReached away p (some reqs) o = Reached away p reqs o

module _ {S : Type 0} {api : PoolApi S} {nodes : NodeApi S} {pool_at : String → S → Option PoolItem}
    {node_at : String → S → Option Node} (laws : IsPoolApi api nodes pool_at node_at) where
  -- A patch of one pool changes no other.
  pub patch-keeps :
      (name : String) (payload : Payload) (k : String) (s : S)
      → (name == k) ≡ false
      → pool_at k (api.send (patch name payload) s).1 ≡ pool_at k s
  unfolding applied
  patch-keeps name payload k s apart =
      ground (arith, laws.send_applies (patch name payload) k s, apart)

  module _ (mode : Mode) (pool : PoolItem) (name away : String) (reqs : List Requirement)
      (k : String) (s : S) where
    pub patch_pool-keeps :
        (pool.name == k) ≡ false
        → pool_at k (patch_pool api mode pool name away reqs s).1 ≡ pool_at k s
    unfolding patch_pool annotate_pool
    patch_pool-keeps apart =
        let spec = spec_patch reqs (some pool.disruption) in
        ground (
          arith,
          apart,
          patch-keeps pool.name spec k s,
          patch-keeps pool.name (annotation_patch (some away)) k
              (api.send (patch pool.name spec) s).1,
        )

    pub patch_pool-Reached :
        pool.name ≡ k
        → pool_at k s ≡ some pool
        → Reached away pool reqs (pool_at k (patch_pool api mode pool name away reqs s).1)
    unfolding patch_pool annotate_pool marked applied
    patch_pool-Reached named h =
        let spec = patch pool.name (spec_patch reqs (some pool.disruption)) in
        let note = patch pool.name (annotation_patch (some away)) in
        ground (
          arith,
          h,
          named,
          eq_iff pool.name k,
          laws.send_applies spec k s,
          laws.send_applies note k (api.send spec s).1,
        )

  module _ (marshalled : (p : Payload) → api.marshals p ≡ true) (mode : Mode) (g : Globals)
      (event : Event) (zones : List String) (pool : PoolItem) (k : String) (s : S) where
    pub update_pool-keeps :
        (pool.name == k) ≡ false
        → pool_at k (update_pool api mode g event zones pool s) ≡ pool_at k s
    update_pool-keeps apart =
        let away = away_from event in
        let name = get_zone_name_from_zone_id g.zone_mapping away in
        let run = update_pool_lem api marshalled mode g event zones pool s in
        elim (Option-cases (respecced name zones pool)) [
          | inl e ↦ ground (arith, e, run)
          | inr (reqs, e) ↦
              ground (arith, e, run, patch_pool-keeps mode pool name away reqs k s apart)
        ]

    pub update_pool-Reached :
        pool.name ≡ k
        → pool_at k s ≡ some pool
        → UpdateReached
            (away_from event)
            pool
            (respecced (get_zone_name_from_zone_id g.zone_mapping (away_from event)) zones pool)
            (pool_at k (update_pool api mode g event zones pool s))
    update_pool-Reached named h =
        let away = away_from event in
        let name = get_zone_name_from_zone_id g.zone_mapping away in
        let run = update_pool_lem api marshalled mode g event zones pool s in
        elim (Option-cases (respecced name zones pool)) [
          | inl e ↦ rw (run, e) h
          | inr (reqs, e) ↦ rw (run, e) (patch_pool-Reached mode pool name away reqs k s named h)
        ]
