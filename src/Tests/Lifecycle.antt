-- ===== src/Tests/Lifecycle.antt =====
-- The program from its start to the end of a shift at a concrete cluster.
use mathlib.Core.Option
use sample_arc_autoshift_kar.Base.{String, Bool, false, some, List, [], ◌∷◌, ◌≡◌, refl}
use sample_arc_autoshift_kar.Base.Dict.{Dict, lookup, insert}
use sample_arc_autoshift_kar.Event.{away_from}
use sample_arc_autoshift_kar.Zones.{load_zone_mapping, map_zone}
use sample_arc_autoshift_kar.Nodes.Shift.{normal}
use sample_arc_autoshift_kar.Pools.{PoolItem}
use sample_arc_autoshift_kar.Update.{list_installed_crds, is_auto_mode}
use sample_arc_autoshift_kar.Restore.Roundtrip.{SamePool}
use sample_arc_autoshift_kar.Process.{ok}
use sample_arc_autoshift_kar.Discovery.{
  vpc_id_of, get_eks_cluster_vpc_id, next_filters, choose_filters, is_empty, find_subnets, can_log,
  get_eks_cluster_zones, initialize_zone_mapping,
}
use sample_arc_autoshift_kar.Startup.{asks_health, pod_name_of, Candidate, no_globals, prepare}
use sample_arc_autoshift_kar.Lifecycle.{running, handle_all, handle_all-running}
use sample_arc_autoshift_kar.Tests.World.{
  World, node_at, pool_at, world_nodes, world_pools, world-IsNodeApi, world-IsReliable,
  world-IsPoolApi, world-IsAvailable,
}
use sample_arc_autoshift_kar.Tests.Data.{zoned_pool, world, started_a}
use sample_arc_autoshift_kar.Tests.Store.{zone_names, named_a}
use sample_arc_autoshift_kar.Tests.Nodes.{in_order, in_order-Perm, node_a-IsPristine}
use sample_arc_autoshift_kar.Tests.Pools.{
  is_standard, holds_zoned, zoned_plain, zoned_values, names-IsOnce,
}
use sample_arc_autoshift_kar.Tests.Events.{flat, labelled}
use sample_arc_autoshift_kar.Tests.Startup.{world_aws, env, host}
use sample_arc_autoshift_kar.Tests.System.{
  completed_a, started_a-Starts, completed_a-Finishes, same_zone,
}

abbrev arguments : List String
arguments = "app" ∷ "-enable-do-not-disrupt" ∷ []

abbrev candidate : Candidate
candidate = record { pod_name = "pod-1"; namespace = "default"; queue_url = "https://sqs/queue" }

abbrev claims : List (Dict String × Bool)
claims = (labelled, false) ∷ []

reached :
    (prepare world_aws world_pools host env arguments
      (record { globals = no_globals; world = world })).0
    ≡ ok candidate
unfolding prepare pod_name_of asks_health initialize_zone_mapping list_installed_crds is_auto_mode
    get_eks_cluster_zones get_eks_cluster_vpc_id vpc_id_of find_subnets choose_filters next_filters
    is_empty can_log
reached = refl

known :
    lookup
      (away_from started_a)
      (running world_aws world_pools host env flat arguments world claims).zone_mapping
    ≡ some "us-east-1a"
unfolding running prepare pod_name_of asks_health initialize_zone_mapping list_installed_crds
    is_auto_mode get_eks_cluster_zones get_eks_cluster_vpc_id vpc_id_of find_subnets choose_filters
    next_filters is_empty can_log load_zone_mapping map_zone lookup insert away_from
known = refl

abbrev handled : World
handled =
    handle_all world_pools world_nodes in_order
      (running world_aws world_pools host env flat arguments world claims)
      (started_a ∷ completed_a ∷ []) world

handle_all-running_example :
    (Option.map normal (node_at "node-a" handled) ≡ Option.map normal (node_at "node-a" world))
    × ((q : PoolItem) × (pool_at "zoned" handled ≡ some q) × SamePool zone_names q zoned_pool)
handle_all-running_example =
    handle_all-running world_aws world_pools world_nodes host env flat in_order world-IsPoolApi
      world-IsAvailable is_standard world-IsNodeApi world-IsReliable in_order-Perm arguments world
      candidate claims started_a completed_a world "us-east-1a" "node-a" "zoned" zoned_pool
      zone_names reached refl same_zone started_a-Starts completed_a-Finishes known named_a
      node_a-IsPristine holds_zoned zoned_plain zoned_values names-IsOnce
