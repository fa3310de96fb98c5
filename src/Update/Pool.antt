-- ===== src/Update/Pool.antt =====
-- What the start of a shift does to one pool that is updated in place.
use mathlib.Core.List.{append_assoc}
use sample_arc_autoshift_kar.Base.{
  String, Bool, true, false, Option, none, some, List, [], ◌∷◌, ◌++◌, ◌==◌, eq_iff, if◌then◌else◌,
  ◌≡◌, refl, arith, contains, Bool-cases, Option-cases, inl, inr,
}
use sample_arc_autoshift_kar.Base.Dict.{insert}
use sample_arc_autoshift_kar.Event.{Event, away_from}
use sample_arc_autoshift_kar.Zones.{get_zone_name_from_zone_id, other_zones}
use sample_arc_autoshift_kar.Zones.Updated.{length-other_zones}
use sample_arc_autoshift_kar.Nodes.Api.{Node, NodeApi}
use sample_arc_autoshift_kar.Pools.{
  Requirement, PoolItem, Payload, spec_patch, annotation_patch, Request, patch, zone_key,
  away_zones,
}
use sample_arc_autoshift_kar.Pools.Api.{PoolApi, IsPoolApi, IsAvailable, applied}
use sample_arc_autoshift_kar.Update.{
  Globals, Mode, annotate_pool, patch_pool, filter_requirements, update_pool,
}

-- The values of the first requirement on the zone.
unfoldable pub zone_values : List Requirement → Option (List String)
zone_values [] = none
zone_values (req ∷ reqs) = if req.key == zone_key then some req.values else zone_values reqs

-- The requirements with other values in the first one on the zone.
unfoldable pub set_zone_values : List String → List Requirement → List Requirement
set_zone_values zones [] = []
set_zone_values zones (req ∷ reqs) =
    if req.key == zone_key
    then record req { values = zones } ∷ reqs
    else req ∷ set_zone_values zones reqs

-- A pool with the annotation that names the impaired zone.
unfoldable pub marked : String → PoolItem → PoolItem
marked away p = record p {
  annotations = some (insert away_zones away (elim p.annotations [ none ↦ [] | some m ↦ m ]));
}

-- What the start of a shift should make of a pool: without the impaired zone, or with a new
-- requirement on the zones that are left, and annotated; untouched if it does not name the zone.
unfoldable pub shifted : String → String → List String → PoolItem → PoolItem
unfolding zone_values set_zone_values marked
shifted away_zone_name away updated_zones p = elim (zone_values p.requirements) [
  | none ↦ marked away (record p {
    requirements =
        p.requirements ++ record { key = zone_key; operator = "In"; values = updated_zones } ∷ [];
  })
  | some zones ↦
      if contains away_zone_name zones
      then marked away (record p {
        requirements = set_zone_values (other_zones away_zone_name zones) p.requirements;
      })
      else p
]

-- The requirements that the patch of a pool sends, if it is patched at all.
unfoldable pub respecced : String → List String → PoolItem → Option (List Requirement)
unfolding zone_values set_zone_values
respecced away_zone_name updated_zones p = elim (zone_values p.requirements) [
  | none ↦
      some
        (p.requirements ++ record { key = zone_key; operator = "In"; values = updated_zones } ∷ [])
  | some zones ↦
      if contains away_zone_name zones
      then some (set_zone_values (other_zones away_zone_name zones) p.requirements)
      else none
]

pub shifted-respecced :
    (name away : String) (zones : List String) (p : PoolItem)
    → shifted name away zones p ≡ (elim (respecced name zones p) [
      | none ↦ p
      | some reqs ↦ marked away (record p { requirements = reqs })
    ])
unfolding shifted respecced
shifted-respecced name away zones p = ground arith

-- A pool is patched once at most, where the payloads can be marshalled.
module _ {S : Type 0} (api : PoolApi S) (marshalled : (p : Payload) → api.marshals p ≡ true) where
  module _ (mode : Mode) (pool : PoolItem) (name away : String) where
    patch_pool-left :
        (reqs : List Requirement) (s : S) → (patch_pool api mode pool name away reqs s).0 ≡ true
    unfolding patch_pool annotate_pool
    patch_pool-left reqs s = ground (
      arith,
      marshalled (spec_patch reqs (some pool.disruption)),
      marshalled (annotation_patch (some away)),
    )

    filter_requirements-lem :
        (before reqs : List Requirement) (exists : Bool) (s : S)
        → filter_requirements api mode pool name away before reqs exists s
          ≡ (elim (zone_values reqs) [
            | none ↦ (exists, s)
            | some zones ↦
                if contains name zones
                then (
                  true,
                  (patch_pool api mode pool name away
                      (before ++ set_zone_values (other_zones name zones) reqs)
                      s).1,
                )
                else (true, s)
          ])
    unfolding filter_requirements zone_values set_zone_values
    filter_requirements-lem before [] exists s = refl
    filter_requirements-lem before (req ∷ reqs) exists s = elim (Bool-cases (req.key == zone_key)) [
      | inl here ↦
          let filtered : Requirement = record req { values = other_zones name req.values } in
          ground (
            arith,
            here,
            length-other_zones name req.values,
            patch_pool-left (before ++ filtered ∷ reqs) s,
          )
      | inr later ↦
          let ih = filter_requirements-lem (before ++ req ∷ []) reqs exists s in
          elim (Option-cases (zone_values reqs)) [
            | inl e ↦ ground (arith, later, e, ih)
            | inr (zones, e) ↦
                let rest = set_zone_values (other_zones name zones) reqs in
                ground (arith, later, e, ih, append_assoc before (req ∷ []) rest)
          ]
    ]

  pub update_pool_lem :
      (mode : Mode) (g : Globals) (event : Event) (zones : List String) (pool : PoolItem) (s : S)
      → update_pool api mode g event zones pool s
        ≡ (elim (respecced
            (get_zone_name_from_zone_id g.zone_mapping (away_from event))
            zones
            pool) [
              | none ↦ s
              | some reqs ↦
                  (patch_pool api mode pool
                    (get_zone_name_from_zone_id g.zone_mapping (away_from event))
                    (away_from event)
                    reqs
                    s).1
            ])
  unfolding update_pool respecced
  update_pool_lem mode g event zones pool s =
      let away = away_from event in
      let name = get_zone_name_from_zone_id g.zone_mapping away in
      ground (arith, filter_requirements-lem mode pool name away [] pool.requirements false s)

module _ {S : Type 0} {api : PoolApi S} {nodes : NodeApi S} {pool_at : String → S → Option PoolItem}
    {node_at : String → S → Option Node} (laws : IsPoolApi api nodes pool_at node_at)
    (available : IsAvailable api) where
  -- One request that succeeds.
  pub pool_at-send :
      (r : Request) (k : String) (s : S) → pool_at k (api.send r s).1 ≡ applied r k (pool_at k s)
  pool_at-send r k s = rw (laws.send_applies r k s, available.succeeds r s)

  pub patch_pool-effect :
      (mode : Mode) (pool : PoolItem) (name away : String) (reqs : List Requirement) (k : String)
      (s : S)
      → pool_at pool.name s ≡ some pool
      → pool_at k (patch_pool api mode pool name away reqs s).1 ≡ (
          if pool.name == k
          then some (marked away (record pool { requirements = reqs }))
          else pool_at k s)
  unfolding patch_pool annotate_pool marked
  patch_pool-effect mode pool name away reqs k s h =
      let spec = spec_patch reqs (some pool.disruption) in
      let note = annotation_patch (some away) in
      let s' = (api.send (patch pool.name spec) s).1 in
      unfold applied in
      ground (
        arith,
        available.marshalled spec,
        available.marshalled note,
        eq_iff pool.name k,
        pool_at-send (patch pool.name spec) k s,
        pool_at-send (patch pool.name note) k s',
      )

  -- In either mode, and in an available cluster that holds the pool as it was listed, the update
  -- makes of the pool what it should, and leaves all others alone.
  pub update_pool-effect :
      (mode : Mode) (g : Globals) (event : Event) (updated_zones : List String) (pool : PoolItem)
      (k : String) (s : S)
      → pool_at pool.name s ≡ some pool
      → pool_at k (update_pool api mode g event updated_zones pool s) ≡ (
          if pool.name == k
          then some (
              shifted
                (get_zone_name_from_zone_id g.zone_mapping (away_from event))
                (away_from event)
                updated_zones
                pool)
          else pool_at k s)
  update_pool-effect mode g event updated_zones pool k s h =
      let away = away_from event in
      let name = get_zone_name_from_zone_id g.zone_mapping away in
      elim (Option-cases (respecced name updated_zones pool)) [
        | inl e ↦ ground (
          arith,
          e,
          h,
          eq_iff pool.name k,
          update_pool_lem api available.marshalled mode g event updated_zones pool s,
          shifted-respecced name away updated_zones pool,
        )
        | inr (reqs, e) ↦ ground (
          arith,
          e,
          update_pool_lem api available.marshalled mode g event updated_zones pool s,
          shifted-respecced name away updated_zones pool,
          patch_pool-effect mode pool name away reqs k s h,
        )
      ]
