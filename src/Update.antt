-- ===== src/Update.antt =====
-- `updateKarpenterNodePool` of app/main.go: what the start of a zonal shift does to the node pools
-- and the nodes.
pub mod Pool
pub mod Frame
pub mod Requests
pub mod Loop
pub mod Pools
pub mod Auto
pub mod Copies
pub mod Partial
use Prim.Native.String.{◌++◌ as append}
use sample_arc_autoshift_kar.Base.{
  ℕ, String, Bool, true, false, not, ◌||◌, ◌&&◌, Option, none, some, List, [], ◌∷◌, ◌++◌, ◌==◌,
  if◌then◌else◌, length, nat_eq,
}
use sample_arc_autoshift_kar.Base.Dict.{Dict}
use sample_arc_autoshift_kar.Event.{Event, away_from}
use sample_arc_autoshift_kar.Zones.{get_zone_name_from_zone_id, other_zones, get_updated_zones}
use sample_arc_autoshift_kar.Store.{NodeInfo, NodeStore}
use sample_arc_autoshift_kar.Nodes.Api.{NodeApi}
use sample_arc_autoshift_kar.Nodes.{annotate_and_cordon_nodes, taint_nodes_in_az}
use sample_arc_autoshift_kar.Pools.{
  Requirement, Disruption, PoolItem, NodePool, Payload, spec_patch, annotation_patch, node_pool,
  Request, patch, post, zone_key, away_zones,
}
use sample_arc_autoshift_kar.Pools.Api.{PoolApi}

-- The globals of the program: the cached zones, the flag, and the node store of
-- `globalNodeController`, `none` where that is nil.
pub record Globals : Type 0 where
  pub zone_mapping : Dict String
  pub cluster_zones : List String
  pub do_not_disrupt_enabled : Bool
  pub node_store : Option NodeStore

-- The two copies of the code for pools that are updated in place differ in one point: where the
-- annotation cannot be marshalled, auto mode leaves the loop and standard mode goes on with it.
pub data Mode : Type 0 where
  auto_mode standard_mode : Mode

unfoldable pub is_auto_mode : List String → Bool
is_auto_mode [] = false
is_auto_mode (crd ∷ crds) =
    if crd == "nodeclasses.eks.amazonaws.com" then true else is_auto_mode crds

module _ {S : Type 0} (api : PoolApi S) where
  -- A cluster whose CRDs cannot be listed is not in auto mode.
  unfoldable pub list_installed_crds : S → Bool
  unfolding is_auto_mode
  list_installed_crds s = elim (api.list_crds s) [ none ↦ false | some crds ↦ is_auto_mode crds ]

  -- The response of a request is only logged.
  abbrev pub send_only : Request → S → S
  send_only r s = (api.send r s).1

  module _ (mode : Mode) (pool : PoolItem) (away_zone_name away : String) where
    -- The annotation patch after the patch of the spec, and whether the loop is left.
    unfoldable pub annotate_pool : S → Bool × S
    annotate_pool s =
        if api.marshals (annotation_patch (some away))
        then (true, send_only (patch pool.name (annotation_patch (some away))) s)
        else (elim mode [ auto_mode ↦ true | standard_mode ↦ false ], s)

    -- The patch of the spec and then the annotation; nothing if the patch cannot be marshalled.
    unfoldable pub patch_pool : List Requirement → S → Bool × S
    unfolding annotate_pool
    patch_pool requirements s =
        let payload = spec_patch requirements (some pool.disruption) in
        if api.marshals payload
        then annotate_pool (send_only (patch pool.name payload) s)
        else (false, s)

    -- The loop over the requirements: `before` are those of the earlier rounds, as they now stand.
    -- The result is `zoneRequirementExists`.
    unfoldable pub filter_requirements : List Requirement → List Requirement → Bool → S → Bool × S
    unfolding patch_pool other_zones
    filter_requirements before [] exists s = (exists, s)
    filter_requirements before (req ∷ reqs) exists s =
        let filtered_zones = other_zones away_zone_name req.values in
        let filtered = record req { values = filtered_zones } in
        let patched = patch_pool (before ++ filtered ∷ reqs) s in
        let next = filter_requirements (before ++ req ∷ []) reqs exists s in
        let again = filter_requirements (before ++ filtered ∷ []) reqs true patched.1 in
        if req.key == zone_key
        then (if nat_eq (length filtered_zones) (length req.values)
            then (true, s)
            else if patched.0
            then (true, patched.1)
            else again)
        else next

  -- A pool that is updated in place: its zone requirement is filtered, or one is added.
  unfoldable pub update_pool : Mode → Globals → Event → List String → PoolItem → S → S
  unfolding filter_requirements
  update_pool mode g event updated_zones pool s =
      let away = away_from event in
      let away_zone_name = get_zone_name_from_zone_id g.zone_mapping away in
      let (exists, s') =
        filter_requirements mode pool away_zone_name away [] pool.requirements false s in
      let zone_requirement : Requirement = record {
        key = zone_key;
        operator = "In";
        values = updated_zones;
      } in
      if exists
      then s'
      else (patch_pool mode pool away_zone_name away (pool.requirements ++ zone_requirement ∷ [])
          s').1

  -- `Budgets[0]` of the source's pool, if it has one.
  abbrev pub first_budget : List String → List String
  first_budget [] = []
  first_budget (budget ∷ _) = budget ∷ []

  -- The copy of one of auto mode's own pools, with the zones that are left.
  unfoldable pub copy_of : PoolItem → String → List String → NodePool
  copy_of pool away updated_zones = record {
    api_version = pool.api_version;
    kind = pool.kind;
    name = append pool.name "-kss";
    namespace = "default";
    annotations = (away_zones, away) ∷ [];
    weight = some 50;
    disruption = record {
      budgets = first_budget pool.disruption.budgets;
      consolidate_after = pool.disruption.consolidate_after;
      consolidation_policy = pool.disruption.consolidation_policy;
    };
    requirements =
        pool.requirements
        ++ record { key = zone_key; operator = "In"; values = updated_zones } ∷ [];
    taints = if pool.name == "system" then pool.taints else [];
    node_class_ref = pool.node_class_ref;
  }

  -- `CreateNodePool`: makes a configuration and a client of its own, which may fail though the
  -- caller's did not. Its error is only logged.
  unfoldable pub create_node_pool : NodePool → S → S
  create_node_pool n s =
      if api.create_config_ok s && api.create_clientset_ok s then send_only (post n) s else s

  module _ (nodes : NodeApi S) where
    -- A pool `general-purpose` or `system`: it is copied, and the nodes of the zone are tainted
    -- unless the do-not-disrupt feature is on.
    unfoldable pub copy_pool : Globals → Event → List String → PoolItem → S → S
    unfolding copy_of create_node_pool
    copy_pool g event updated_zones pool s =
        let away = away_from event in
        let n = copy_of pool away updated_zones in
        let s' = create_node_pool n s in
        let away_zone_name = get_zone_name_from_zone_id g.zone_mapping away in
        if not (api.marshals (node_pool n)) || g.do_not_disrupt_enabled || away_zone_name == ""
        then (if api.marshals (node_pool n) then s' else s)
        else (elim g.node_store [
          | none ↦ s'
          | some store ↦ taint_nodes_in_az nodes away_zone_name store s'
        ])

    -- The loop over the pools in auto mode.
    unfoldable pub update_auto : Globals → Event → List String → List PoolItem → S → S
    unfolding copy_pool update_pool
    update_auto g event updated_zones [] s = s
    update_auto g event updated_zones (pool ∷ pools) s = update_auto g event updated_zones pools (
        if pool.name == "general-purpose" || pool.name == "system"
        then copy_pool g event updated_zones pool s
        else update_pool auto_mode g event updated_zones pool s)

    -- The body of the loop in standard mode: no pool is touched where no zone is left.
    unfoldable pub update_standard_pool : Globals → Event → List String → PoolItem → S → S
    unfolding update_pool
    update_standard_pool g event [] pool s = s
    update_standard_pool g event (zone ∷ zones) pool s =
        update_pool standard_mode g event (zone ∷ zones) pool s

    -- The loop over the pools in standard mode.
    unfoldable pub update_standard : Globals → Event → List PoolItem → S → S
    unfolding update_standard_pool
    update_standard g event [] s = s
    update_standard g event (pool ∷ pools) s = update_standard g event pools (
        update_standard_pool g event (get_updated_zones g.zone_mapping g.cluster_zones event) pool
          s)

    -- The nodes of the zone are protected first, if the feature is on. An unknown zone is taken by
    -- its id.
    unfoldable pub protect_first :
        (List (List NodeInfo) → List (List NodeInfo)) → Globals → Event → S → S
    protect_first schedule g event s =
        let away = away_from event in
        let name = get_zone_name_from_zone_id g.zone_mapping away in
        let away_zone_name = if name == "" then away else name in
        if g.do_not_disrupt_enabled
        then (elim g.node_store [
          | none ↦ s
          | some store ↦ (annotate_and_cordon_nodes nodes schedule away_zone_name store s).1
        ])
        else s

    -- The pools, once the list has been read.
    unfoldable pub update_pools : Bool → Globals → Event → List PoolItem → S → S
    unfolding update_auto update_standard
    update_pools auto g event pools s =
        if auto
        then (elim (get_updated_zones g.zone_mapping g.cluster_zones event) [
          | [] ↦ s
          | zone ∷ zones ↦ update_auto g event (zone ∷ zones) pools s
        ])
        else update_standard g event pools s

    unfoldable pub update_karpenter_node_pool :
        (List (List NodeInfo) → List (List NodeInfo)) → Globals → Event → S → S
    unfolding protect_first update_pools list_installed_crds
    update_karpenter_node_pool schedule g event s =
        if api.config_ok && api.clientset_ok
        then (let s' = protect_first schedule g event s in
            elim (api.list_pools s') [
              | none ↦ s'
              | some pools ↦ update_pools (list_installed_crds s) g event pools s'
            ])
        else s
