-- ===== src/Restore.antt =====
-- `restoreKarpenterNodePool` of app/main.go: what the end of a zonal shift does to the node pools
-- and the nodes.
pub mod Pools
pub mod Auto
pub mod Frame
pub mod Partial
pub mod Requirements
pub mod Roundtrip
use sample_arc_autoshift_kar.Base.{
  String, Bool, true, false, not, ◌||◌, ◌&&◌, Option, none, some, List, [], ◌∷◌, ◌++◌, ◌==◌,
  if◌then◌else◌,
}
use sample_arc_autoshift_kar.Base.Dict.{Dict, lookup}
use sample_arc_autoshift_kar.Event.{Event, away_from}
use sample_arc_autoshift_kar.Zones.{get_zone_name_from_zone_id}
use sample_arc_autoshift_kar.Store.{NodeInfo, NodeStore}
use sample_arc_autoshift_kar.Nodes.Api.{NodeApi}
use sample_arc_autoshift_kar.Nodes.{remove_protection_from_nodes, remove_taint_from_nodes}
use sample_arc_autoshift_kar.Pools.{
  Requirement, PoolItem, Payload, spec_patch, annotation_patch, Request, patch, delete_pool,
  zone_key, away_zones,
}
use sample_arc_autoshift_kar.Pools.Api.{PoolApi}
use sample_arc_autoshift_kar.Update.{Globals, list_installed_crds, send_only}

-- An unknown zone is taken by its id.
unfoldable pub away_zone_name : Globals → Event → String
away_zone_name g event =
    let away = away_from event in
    let name = get_zone_name_from_zone_id g.zone_mapping away in if name == "" then away else name

-- Whether the pool has the away-zones annotation.
unfoldable pub is_annotated : PoolItem → Bool
is_annotated pool = elim pool.annotations [
  | none ↦ false
  | some annotations ↦ elim (lookup away_zones annotations) [ none ↦ false | some _ ↦ true ]
]

module _ {S : Type 0} (api : PoolApi S) where
  -- The patch of the spec, and then that which removes the annotation. `json.Marshal`'s error is
  -- ignored for the second.
  unfoldable pub send_restored : PoolItem → List Requirement → S → S
  send_restored pool requirements s =
      send_only api (patch pool.name (annotation_patch none))
        (send_only api (patch pool.name (spec_patch requirements none)) s)

  -- The loop over the requirements: `before` are those of the earlier rounds, as they now stand. A
  -- patch that cannot be marshalled is skipped, and the loop goes on.
  unfoldable pub restore_requirements :
      PoolItem → String → List Requirement → List Requirement → S → S
  unfolding send_restored
  restore_requirements pool away before [] s = s
  restore_requirements pool away before (req ∷ reqs) s =
      let restored = record req { values = req.values ++ away ∷ [] } in
      let again = restore_requirements pool away (before ++ restored ∷ []) reqs s in
      let next = restore_requirements pool away (before ++ req ∷ []) reqs s in
      let requirements = before ++ restored ∷ reqs in
      if req.key == zone_key
      then (if api.marshals (spec_patch requirements none)
          then send_restored pool requirements s
          else again)
      else next

  -- A pool that is not annotated is left alone.
  unfoldable pub restore_pool : String → PoolItem → S → S
  unfolding is_annotated restore_requirements
  restore_pool away pool s =
      if is_annotated pool then restore_requirements pool away [] pool.requirements s else s

  -- A pool in auto mode: a copy is deleted, another one is restored.
  unfoldable pub restore_auto_pool : String → PoolItem → S → S
  unfolding restore_pool
  restore_auto_pool away pool s =
      if pool.name == "general-purpose-kss" || pool.name == "system-kss"
      then send_only api (delete_pool pool.name) s
      else restore_pool away pool s

  unfoldable pub restore_auto : String → List PoolItem → S → S
  unfolding restore_auto_pool
  restore_auto away [] s = s
  restore_auto away (pool ∷ pools) s = restore_auto away pools (restore_auto_pool away pool s)

  unfoldable pub restore_standard : String → List PoolItem → S → S
  unfolding restore_pool
  restore_standard away [] s = s
  restore_standard away (pool ∷ pools) s = restore_standard away pools (restore_pool away pool s)

  module _ (nodes : NodeApi S) where
    unfoldable pub unprotect_first :
        (List (List NodeInfo) → List (List NodeInfo)) → Globals → Event → S → S
    unfolding away_zone_name
    unprotect_first schedule g event s =
        if g.do_not_disrupt_enabled
        then (elim g.node_store [
          | none ↦ s
          | some store ↦
              (remove_protection_from_nodes nodes schedule (away_zone_name g event) store s).1
        ])
        else s

    -- The taint comes off only where it was put on: with the do-not-disrupt feature off.
    unfoldable pub untaint_first : Globals → Event → S → S
    unfolding away_zone_name
    untaint_first g event s = if g.do_not_disrupt_enabled then s else (elim g.node_store [
      | none ↦ s
      | some store ↦ remove_taint_from_nodes nodes (away_zone_name g event) store s
    ])

    unfoldable pub restore_pools : Bool → Globals → Event → List PoolItem → S → S
    unfolding restore_auto restore_standard untaint_first away_zone_name
    restore_pools auto g event pools s =
        if auto
        then restore_auto (away_zone_name g event) pools (untaint_first g event s)
        else restore_standard (away_zone_name g event) pools s

    unfoldable pub restore_karpenter_node_pool :
        (List (List NodeInfo) → List (List NodeInfo)) → Globals → Event → S → S
    unfolding unprotect_first restore_pools list_installed_crds
    restore_karpenter_node_pool schedule g event s =
        if api.config_ok && api.clientset_ok
        then (let s' = unprotect_first schedule g event s in
            elim (api.list_pools s') [
              | none ↦ s'
              | some pools ↦ restore_pools (list_installed_crds api s) g event pools s'
            ])
        else s
