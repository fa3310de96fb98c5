-- ===== src/Restore/Pools.antt =====
-- What the end of a shift does to every node pool of the cluster.
use mathlib.Core.Option
use mathlib.Core.List.{append_assoc}
use sample_arc_autoshift_kar.Base.{true}
use sample_arc_autoshift_kar.Base.{
  String, false, Option, none, some, List, [], ◌∷◌, ◌++◌, ◌==◌, eq_iff, if◌then◌else◌, ◌≡◌, refl,
  ◌∙◌, arith, Bool-cases, Option-cases, inl, inr,
}
use sample_arc_autoshift_kar.Base.Dict.{delete}
use sample_arc_autoshift_kar.Event.{Event}
use sample_arc_autoshift_kar.Store.{NodeInfo}
use sample_arc_autoshift_kar.Nodes.Api.{Node, NodeApi}
use sample_arc_autoshift_kar.Nodes.Frame.{remove_protection_from_nodes-keeps}
use sample_arc_autoshift_kar.Pools.{
  Payload, PoolItem, Requirement, spec_patch, annotation_patch, patch, zone_key, away_zones,
}
use sample_arc_autoshift_kar.Pools.Api.{
  PoolApi, IsPoolApi, IsAvailable, find_pool, IsUnique, applied,
}
use sample_arc_autoshift_kar.Update.{Globals, list_installed_crds}
use sample_arc_autoshift_kar.Update.Pool.{zone_values, set_zone_values, pool_at-send}
use sample_arc_autoshift_kar.Update.Pools.{IsFresh, IsFresh-list, loop_effect}
use sample_arc_autoshift_kar.Restore.{
  away_zone_name, is_annotated, send_restored, restore_requirements, restore_pool, restore_standard,
  unprotect_first, restore_pools, restore_karpenter_node_pool,
}

-- A pool without the away-zones annotation.
unfoldable pub unmarked : PoolItem → PoolItem
unmarked p = record p {
  annotations = elim p.annotations [ none ↦ none | some m ↦ some (delete away_zones m) ];
}

-- What the end of a shift should make of a pool: the zone comes back at the end of the first
-- requirement on zones of an annotated pool, and the annotation goes.
unfoldable pub restored_with : String → PoolItem → PoolItem
unfolding unmarked zone_values set_zone_values is_annotated
restored_with away p =
    if is_annotated p
    then (elim (zone_values p.requirements) [
      | none ↦ p
      | some zones ↦
          unmarked (record p { requirements = set_zone_values (zones ++ away ∷ []) p.requirements })
    ])
    else p

module _ {S : Type 0} (api : PoolApi S) (marshalled : (p : Payload) → api.marshals p ≡ true) where
  -- The loop over the requirements sends one update at most, for the first requirement on zones.
  pub restore_requirements-lem :
      (pool : PoolItem) (away : String) (before reqs : List Requirement) (s : S)
      → restore_requirements api pool away before reqs s ≡ (elim (zone_values reqs) [
        | none ↦ s
        | some zones ↦
            send_restored api pool (before ++ set_zone_values (zones ++ away ∷ []) reqs) s
      ])
  unfolding restore_requirements zone_values set_zone_values
  restore_requirements-lem pool away before [] s = refl
  restore_requirements-lem pool away before (req ∷ reqs) s =
      elim (Bool-cases (req.key == zone_key)) [
        | inl here ↦
            let restored : Requirement = record req { values = req.values ++ away ∷ [] } in
            ground (arith, here, marshalled (spec_patch (before ++ restored ∷ reqs) none))
        | inr later ↦
            let ih = restore_requirements-lem pool away (before ++ req ∷ []) reqs s in
            elim (Option-cases (zone_values reqs)) [
              | inl e ↦ ground (arith, later, e, ih)
              | inr (zones, e) ↦
                  let rest = set_zone_values (zones ++ away ∷ []) reqs in
                  ground (arith, later, e, ih, append_assoc before (req ∷ []) rest)
            ]
      ]

module _ {S : Type 0} {api : PoolApi S} {nodes : NodeApi S} {pool_at : String → S → Option PoolItem}
    {node_at : String → S → Option Node} (laws : IsPoolApi api nodes pool_at node_at) where
  pub unprotect_first-keeps_pools :
      (schedule : List (List NodeInfo) → List (List NodeInfo)) (g : Globals) (event : Event)
      (k : String) (s : S)
      → pool_at k (unprotect_first api nodes schedule g event s) ≡ pool_at k s
  unfolding unprotect_first
  unprotect_first-keeps_pools schedule g event k s = elim (Option-cases g.node_store) [
    | inl e ↦ ground (arith, e)
    | inr (store, e) ↦ ground (
      arith,
      e,
      remove_protection_from_nodes-keeps nodes (λ t. pool_at k t ≡ pool_at k s)
          (λ n t h. laws.update_keeps_pools n k t ∙ h) schedule (away_zone_name g event) store s
          refl,
    )
  ]

module _ {S : Type 0} {api : PoolApi S} {nodes : NodeApi S} {pool_at : String → S → Option PoolItem}
    {node_at : String → S → Option Node} (laws : IsPoolApi api nodes pool_at node_at)
    (available : IsAvailable api) where
  send_restored-effect :
      (pool : PoolItem) (reqs : List Requirement) (k : String) (s : S)
      → pool_at pool.name s ≡ some pool
      → pool_at k (send_restored api pool reqs s) ≡ (
          if pool.name == k
          then some (unmarked (record pool { requirements = reqs }))
          else pool_at k s)
  unfolding send_restored unmarked
  send_restored-effect pool reqs k s h =
      let spec = patch pool.name (spec_patch reqs none) in
      let note = patch pool.name (annotation_patch none) in
      let s' = (api.send spec s).1 in
      unfold applied in
      ground (
        arith,
        eq_iff pool.name k,
        pool_at-send laws available spec k s,
        pool_at-send laws available note k s',
      )

  pub restore_pool-effect :
      (away : String) (pool : PoolItem) (s : S)
      → pool_at pool.name s ≡ some pool
      → (k : String)
      → pool_at k (restore_pool api away pool s)
        ≡ (if pool.name == k then some (restored_with away pool) else pool_at k s)
  unfolding restore_pool restored_with
  restore_pool-effect away pool s h k =
      let reqs = pool.requirements in
      let loop = restore_requirements-lem api available.marshalled pool away [] reqs s in
      elim (Option-cases (zone_values reqs)) [
        | inl e ↦ ground (arith, e, h, eq_iff pool.name k, loop)
        | inr (zones, e) ↦
            let rest = set_zone_values (zones ++ away ∷ []) reqs in
            ground (arith, e, h, eq_iff pool.name k, loop, send_restored-effect pool rest k s h)
      ]

  restore_standard-effect :
      (away : String) (ps : List PoolItem) (s : S)
      → IsUnique ps
      → IsFresh pool_at s ps
      → (k : String)
      → pool_at k (restore_standard api away ps s)
        ≡ (elim (find_pool k ps) [ none ↦ pool_at k s | some p ↦ some (restored_with away p) ])
  unfolding restore_standard
  restore_standard-effect away =
      loop_effect pool_at (λ p. some (restored_with away p)) (restore_standard api away)
        (restore_pool api away) (λ s. refl) (λ p ps s. refl) (restore_pool-effect away)

  -- In standard mode, with an available API, the end of a shift adds the impaired zone to the first
  -- zone requirement of every annotated pool of the cluster that has one, and takes its annotation
  -- away; it leaves every other pool as it was, and creates and removes none.
  pub restore_karpenter_node_pool-standard :
      (schedule : List (List NodeInfo) → List (List NodeInfo)) (g : Globals) (event : Event) (s : S)
      → list_installed_crds api s ≡ false
      → (k : String)
      → pool_at k (restore_karpenter_node_pool api nodes schedule g event s)
        ≡ Option.map (restored_with (away_zone_name g event)) (pool_at k s)
  restore_karpenter_node_pool-standard schedule g event s standard k =
      let s' = unprotect_first api nodes schedule g event s in
      let (ps, listed) = available.lists s' in
      let (unique, reads) = laws.list_reads s' ps listed in
      let fresh = IsFresh-list pool_at s' ps ps reads (λ j q h. h) unique in
      let away = away_zone_name g event in
      let run : restore_karpenter_node_pool api nodes schedule g event s
          ≡ restore_standard api away ps s' =
        unfold restore_karpenter_node_pool restore_pools in
        ground (arith, available.configured, available.connected, listed, standard) in
      rw run (
        ground (
          arith,
          restore_standard-effect away ps s' unique fresh k,
          reads k,
          unprotect_first-keeps_pools laws schedule g event k s,
        ))
