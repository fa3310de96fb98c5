-- ===== src/Tests/Auto.antt =====
-- The start of a shift at a concrete cluster in auto mode.
use mathlib.Core.Option
use sample_arc_autoshift_kar.Base.{true, false, none, some, [], ◌∷◌, ◌≡◌, ◌≢◌, refl}
use sample_arc_autoshift_kar.Zones.{get_updated_zones}
use sample_arc_autoshift_kar.Zones.Updated.{get_updated_zones-ne_nil}
use sample_arc_autoshift_kar.Update.{list_installed_crds, update_karpenter_node_pool}
use sample_arc_autoshift_kar.Update.Copies.{IsCopy, update_karpenter_node_pool-copies}
use sample_arc_autoshift_kar.Event.{away_from}
use sample_arc_autoshift_kar.Pools.{PoolItem}
use sample_arc_autoshift_kar.Pools.Api.{find_pool}
use sample_arc_autoshift_kar.Restore.{is_annotated, restore_karpenter_node_pool}
use sample_arc_autoshift_kar.Restore.Roundtrip.{SamePool}
use sample_arc_autoshift_kar.Shift.Auto.{restore-update_own, restore-update_auto}
use sample_arc_autoshift_kar.Update.Auto.{
  is_own, auto_shift, is_copy_name, update_karpenter_node_pool-auto,
}
use sample_arc_autoshift_kar.Tests.World.{
  World, pool_at, world_nodes, auto_pools, auto-IsPoolApi, auto-IsAvailable,
}
use sample_arc_autoshift_kar.Tests.Data.{
  pool_of, arch_requirement, zoned_pool, world, started_a, globals,
}
use sample_arc_autoshift_kar.Tests.Store.{zones_exist, zone_names, mapped_a, named_a}
use sample_arc_autoshift_kar.Tests.Pools.{holds_zoned, zoned_plain, zoned_values, names-IsOnce}
use sample_arc_autoshift_kar.Tests.Nodes.{in_order}

before_in_auto_mode : list_installed_crds auto_pools world ≡ true
unfolding list_installed_crds
before_in_auto_mode = refl

pub zones_left : get_updated_zones globals.zone_mapping globals.cluster_zones started_a ≢ []
zones_left =
    get_updated_zones-ne_nil globals.zone_mapping globals.cluster_zones started_a zones_exist

zoned_not_copy : is_copy_name "zoned" ≡ false
zoned_not_copy = refl

update_karpenter_node_pool-auto_example :
    pool_at "zoned"
      (update_karpenter_node_pool auto_pools world_nodes in_order globals started_a world)
    ≡ Option.map (auto_shift globals started_a) (pool_at "zoned" world)
update_karpenter_node_pool-auto_example =
    update_karpenter_node_pool-auto auto-IsPoolApi auto-IsAvailable in_order globals started_a world
      before_in_auto_mode zones_left "zoned" zoned_not_copy

-- A cluster in auto mode with one of auto mode's own pools.
abbrev system_pool : PoolItem
system_pool = pool_of "system" (arch_requirement ∷ [])

abbrev own_world : World
own_world = record { nodes = world.nodes; pools = system_pool ∷ zoned_pool ∷ [] }

is_auto : (s : World) → list_installed_crds auto_pools s ≡ true
unfolding list_installed_crds
is_auto s = refl

system_own : is_own "system" ≡ true
system_own = refl

zoned_not_own : is_own "zoned" ≡ false
zoned_not_own = refl

holds_system : pool_at "system" own_world ≡ some system_pool
unfolding find_pool
holds_system = refl

no_copy : pool_at "system-kss" own_world ≡ none
unfolding find_pool
no_copy = refl

system_plain : is_annotated system_pool ≡ false
unfolding is_annotated
system_plain = refl

abbrev updated_auto : World → World
updated_auto = update_karpenter_node_pool auto_pools world_nodes in_order globals started_a

abbrev restored_auto : World → World
restored_auto = restore_karpenter_node_pool auto_pools world_nodes in_order globals started_a

update_karpenter_node_pool-copies_example :
    (q : PoolItem) × (pool_at "system-kss" (updated_auto own_world) ≡ some q)
    × IsCopy
        (away_from started_a)
        (get_updated_zones globals.zone_mapping globals.cluster_zones started_a)
        q
        system_pool
update_karpenter_node_pool-copies_example =
    update_karpenter_node_pool-copies auto-IsPoolApi auto-IsAvailable globals started_a "system"
      system_own in_order own_world system_pool (is_auto own_world) zones_left holds_system no_copy

restore-update_own_example :
    (pool_at "system" (restored_auto (updated_auto own_world)) ≡ some system_pool)
    × (pool_at "system-kss" (restored_auto (updated_auto own_world)) ≡ none)
restore-update_own_example =
    restore-update_own auto-IsPoolApi auto-IsAvailable is_auto in_order globals started_a zones_left
      own_world "system" system_pool system_own holds_system system_plain

restore-update_auto_example :
    (q : PoolItem) × (pool_at "zoned" (restored_auto (updated_auto world)) ≡ some q)
    × SamePool zone_names q zoned_pool
restore-update_auto_example =
    restore-update_auto auto-IsPoolApi auto-IsAvailable is_auto in_order globals started_a
      zones_left world "us-east-1a" "zoned" zoned_pool zone_names mapped_a named_a zoned_not_own
      zoned_not_copy holds_zoned zoned_plain zoned_values names-IsOnce
