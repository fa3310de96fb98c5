-- ===== src/Tests/System.antt =====
-- Whole shifts and interleaved goroutines at a concrete cluster.
use sample_arc_autoshift_kar.Base.{ℕ, ◌≡◌, refl, contains}
use sample_arc_autoshift_kar.Event.{Event, away_from}
use sample_arc_autoshift_kar.Batch.{batches}
use sample_arc_autoshift_kar.Store.{get_nodes_by_az}
use sample_arc_autoshift_kar.Nodes.{annotate_and_cordon_nodes}
use sample_arc_autoshift_kar.Nodes.Calls.{Running, Reach, here, done, protect_calls, started}
use sample_arc_autoshift_kar.Nodes.Calls.Interleaving.{interleaved-annotate_and_cordon_nodes}
use sample_arc_autoshift_kar.Nodes.Calls.Completion.{calls_complete}
use sample_arc_autoshift_kar.Update.{update_karpenter_node_pool}
use sample_arc_autoshift_kar.Restore.{restore_karpenter_node_pool}
use sample_arc_autoshift_kar.Handler.{handle_event}
use sample_arc_autoshift_kar.Shift.Handled.{Starts, Finishes}
use sample_arc_autoshift_kar.Shift.Whole.{handle-finish_and_start}
use sample_arc_autoshift_kar.Tests.World.{
  World, node_at, pool_at, world_nodes, world_pools, world-IsNodeApi, world-IsReliable,
  world-IsPoolApi, world-IsAvailable,
}
use sample_arc_autoshift_kar.Tests.Data.{zoned_pool, tracked, world, shift_of, started_a, globals}
use sample_arc_autoshift_kar.Tests.Store.{tracked-IsValid}
use sample_arc_autoshift_kar.Tests.Nodes.{in_order, in_order-Perm}
use sample_arc_autoshift_kar.Tests.Pools.{is_standard, holds_zoned, zoned_plain}

abbrev pub completed_a : Event
completed_a = shift_of "Autoshift Completed" "use1-az1"

abbrev handle : Event → World → World
handle =
    handle_event (update_karpenter_node_pool world_pools world_nodes in_order globals)
      (restore_karpenter_node_pool world_pools world_nodes in_order globals)

pub started_a-Starts : Starts started_a
unfolding contains
started_a-Starts = refl

pub completed_a-Finishes : Finishes completed_a
unfolding contains
completed_a-Finishes = (refl, refl)

pub same_zone : away_from started_a ≡ away_from completed_a
unfolding away_from
same_zone = refl

handle-finish_and_start_example :
    pool_at "zoned" (handle started_a (handle completed_a world))
    ≡ pool_at "zoned" (handle started_a world)
handle-finish_and_start_example =
    handle-finish_and_start world-IsPoolApi world-IsAvailable is_standard in_order globals started_a
      completed_a world "zoned" zoned_pool started_a-Starts completed_a-Finishes holds_zoned
      zoned_plain

abbrev begun : Running World
begun = started protect_calls (batches (get_nodes_by_az "us-east-1a" tracked)) world

ended : (t : Running World) × Reach world_nodes begun t × ((i : ℕ) → t.left i ≡ done)
ended =
    calls_complete world_nodes protect_calls (batches (get_nodes_by_az "us-east-1a" tracked)) world
      begun here

interleaved-annotate_and_cordon_nodes_example :
    node_at "node-a" ended.0.cluster
    ≡ node_at "node-a" (annotate_and_cordon_nodes world_nodes in_order "us-east-1a" tracked world).1
interleaved-annotate_and_cordon_nodes_example =
    interleaved-annotate_and_cordon_nodes world-IsNodeApi world-IsReliable in_order in_order-Perm
      "us-east-1a" tracked tracked-IsValid world ended.0 ended.1 ended.2 "node-a"
