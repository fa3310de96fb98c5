-- ===== src/Tests/Failing.antt =====
-- The start of a shift at a cluster that refuses to change the specs of its pools.
use sample_arc_autoshift_kar.Base.{
  Bool, true, false, not, some, [], ◌∷◌, ◌++◌, ◌≡◌, refl, arith, if◌then◌else◌, contains,
}
use sample_arc_autoshift_kar.Pools.{
  PoolItem, spec_patch, annotation_patch, node_pool, Request, patch, post, delete_pool, away_zones,
}
use sample_arc_autoshift_kar.Pools.Api.{PoolApi, IsPoolApi, find_pool}
use sample_arc_autoshift_kar.Update.{list_installed_crds, update_karpenter_node_pool}
use sample_arc_autoshift_kar.Update.Pool.{zone_values}
use sample_arc_autoshift_kar.Update.Partial.{PoolReached, update_karpenter_node_pool-Reached}
use sample_arc_autoshift_kar.Base.Dict.{lookup}
use sample_arc_autoshift_kar.Restore.Pools.{unmarked}
use sample_arc_autoshift_kar.Restore.Partial.{PoolRestored, restore_karpenter_node_pool-Restored}
use sample_arc_autoshift_kar.Shift.Lost.{zone_lost_by_failure}
use sample_arc_autoshift_kar.Restore.{away_zone_name, is_annotated, restore_karpenter_node_pool}
use sample_arc_autoshift_kar.Shift.Doubled.{AnnotatesOnly, zone_doubled}
use sample_arc_autoshift_kar.Tests.World.{
  World, node_at, pool_at, listed, answer, answer_lem, world_nodes, world_pools, world-IsPoolApi,
  world-IsAvailable,
}
use sample_arc_autoshift_kar.Tests.Data.{zoned_pool, world, started_a, globals}
use sample_arc_autoshift_kar.Tests.Store.{zone_names}
use sample_arc_autoshift_kar.Tests.Nodes.{in_order}
use sample_arc_autoshift_kar.Tests.Pools.{is_standard, holds_zoned, zoned_values, IsKnown-a}

abbrev is_spec : Request → Bool
is_spec (patch name (spec_patch reqs d)) = true
is_spec (patch name (annotation_patch v)) = false
is_spec (patch name (node_pool n)) = false
is_spec (post n) = false
is_spec (delete_pool name) = false

abbrev refusing : PoolApi World
refusing = record world_pools {
  send = λ r w. (not (is_spec r), if is_spec r then w else answer r w);
}

refusing-IsPoolApi : IsPoolApi refusing world_nodes pool_at node_at
refusing-IsPoolApi = record {
  list_reads = world-IsPoolApi.list_reads;
  send_applies = λ r k s. ground (arith, answer_lem r k s);
  send_keeps_nodes = λ r k s. ground arith;
  update_keeps_pools = world-IsPoolApi.update_keeps_pools;
}

refusing_is_standard : (s : World) → list_installed_crds refusing s ≡ false
unfolding list_installed_crds
refusing_is_standard s = refl

refusing-AnnotatesOnly : AnnotatesOnly refusing "zoned"
refusing-AnnotatesOnly = record {
  configured = refl;
  connected = refl;
  standard = refusing_is_standard;
  lists = λ s. (listed s.pools, refl);
  marshalled = λ p. refl;
  spec_fails = λ reqs d s. refl;
  annotation_succeeds = λ v s. refl;
}

has_a : contains "us-east-1a" zone_names ≡ true
unfolding contains
has_a = refl

update_karpenter_node_pool-Reached_example : PoolReached globals started_a (pool_at "zoned" world) (
    pool_at "zoned"
      (update_karpenter_node_pool refusing world_nodes in_order globals started_a world))
update_karpenter_node_pool-Reached_example =
    update_karpenter_node_pool-Reached refusing-IsPoolApi (λ p. refl) globals started_a in_order
      world (refusing_is_standard world) "zoned"

zone_doubled_example :
    (q : PoolItem) × (pool_at "zoned" (
        restore_karpenter_node_pool world_pools world_nodes in_order globals started_a
          (update_karpenter_node_pool refusing world_nodes in_order globals started_a world))
      ≡ some q)
    × (zone_values q.requirements ≡ some (zone_names ++ "us-east-1a" ∷ []))
zone_doubled_example =
    zone_doubled refusing-IsPoolApi "zoned" refusing-AnnotatesOnly globals started_a "us-east-1a"
      "us-east-1b" IsKnown-a zoned_pool zone_names zoned_values has_a world-IsPoolApi
      world-IsAvailable is_standard in_order world holds_zoned

-- The same cluster during a shift.
abbrev annotated_pool : PoolItem
annotated_pool = record zoned_pool { annotations = some ((away_zones, "use1-az1") ∷ []) }

abbrev annotated_world : World
annotated_world = record { nodes = world.nodes; pools = annotated_pool ∷ [] }

holds_annotated : pool_at "zoned" annotated_world ≡ some annotated_pool
unfolding find_pool
holds_annotated = refl

has_annotation : is_annotated annotated_pool ≡ true
unfolding is_annotated lookup
has_annotation = refl

abbrev restore_refused : World → World
restore_refused = restore_karpenter_node_pool refusing world_nodes in_order globals started_a

restore_karpenter_node_pool-Restored_example :
    PoolRestored
      (away_zone_name globals started_a)
      (pool_at "zoned" annotated_world)
      (pool_at "zoned" (restore_refused annotated_world))
restore_karpenter_node_pool-Restored_example =
    restore_karpenter_node_pool-Restored refusing-IsPoolApi (λ p. refl) globals started_a in_order
      annotated_world (refusing_is_standard annotated_world) "zoned"

zone_lost_by_failure_example :
    pool_at "zoned" (
      restore_karpenter_node_pool world_pools world_nodes in_order globals started_a
        (restore_refused annotated_world))
    ≡ some (unmarked annotated_pool)
zone_lost_by_failure_example =
    zone_lost_by_failure refusing-IsPoolApi "zoned" refusing-AnnotatesOnly globals started_a
      annotated_pool has_annotation zone_names zoned_values world-IsPoolApi world-IsAvailable
      is_standard in_order annotated_world holds_annotated
