-- ===== src/Tests/Unread.antt =====
-- A shift of a cluster whose pool has settings that the program does not read.
use sample_arc_autoshift_kar.Base.{String, true, Option, [], ◌∷◌, ◌≡◌, refl, false, contains}
use sample_arc_autoshift_kar.Event.{Event}
use sample_arc_autoshift_kar.Nodes.Api.{Node, NodeApi}
use sample_arc_autoshift_kar.Pools.{PoolItem}
use sample_arc_autoshift_kar.Pools.Api.{PoolApi, IsPoolApi, IsAvailable, applied}
use sample_arc_autoshift_kar.Pools.Unread.{Unread, nothing_unread, KeepsUnread, unread_applied}
use sample_arc_autoshift_kar.Update.{list_installed_crds, update_karpenter_node_pool}
use sample_arc_autoshift_kar.Update.Pool.{zone_values}
use sample_arc_autoshift_kar.Restore.{restore_karpenter_node_pool}
use sample_arc_autoshift_kar.Shift.Unread.{is_touched, settings_lost}
use sample_arc_autoshift_kar.Tests.World.{
  World, node_at, pool_at, world_nodes, world_pools, world-IsPoolApi, world-IsAvailable,
}
use sample_arc_autoshift_kar.Tests.Data.{zoned_pool, world, started_a, globals}
use sample_arc_autoshift_kar.Tests.Nodes.{in_order}
use sample_arc_autoshift_kar.Tests.Pools.{holds_zoned, IsKnown-a}

-- A cluster, and the settings of its pools.
record Whole : Type 0 where
  seen : World
  unread : String → Unread

abbrev unread_at : String → Whole → Unread
unread_at k w = w.unread k

abbrev whole_nodes : NodeApi Whole
whole_nodes = record {
  get = λ k w. node_at k w.seen;
  update = λ n w.
      let (done, seen) = world_nodes.update n w.seen in
      (done, record { seen = seen; unread = w.unread });
}

abbrev whole_pools : PoolApi Whole
whole_pools = record {
  config_ok = true;
  clientset_ok = true;
  create_config_ok = λ w. true;
  create_clientset_ok = λ w. true;
  list_crds = λ w. world_pools.list_crds w.seen;
  list_pools = λ w. world_pools.list_pools w.seen;
  send = λ r w.
      let (done, seen) = world_pools.send r w.seen in
      (done, record { seen = seen; unread = λ k. unread_applied r k (w.unread k) });
  marshals = λ payload. true;
}

abbrev pool_seen : String → Whole → Option PoolItem
pool_seen k w = pool_at k w.seen

abbrev node_seen : String → Whole → Option Node
node_seen k w = node_at k w.seen

whole-IsPoolApi : IsPoolApi whole_pools whole_nodes pool_seen node_seen
whole-IsPoolApi = record {
  list_reads = λ w ps listed. world-IsPoolApi.list_reads w.seen ps listed;
  send_applies = λ r k w. world-IsPoolApi.send_applies r k w.seen;
  send_keeps_nodes = λ r k w. world-IsPoolApi.send_keeps_nodes r k w.seen;
  update_keeps_pools = λ n k w. world-IsPoolApi.update_keeps_pools n k w.seen;
}

whole-IsAvailable : IsAvailable whole_pools
whole-IsAvailable = record {
  configured = refl;
  connected = refl;
  create_configured = λ w. refl;
  create_connected = λ w. refl;
  lists = λ w. world-IsAvailable.lists w.seen;
  succeeds = λ r w. refl;
  marshalled = λ payload. refl;
}

whole-KeepsUnread : KeepsUnread whole_pools whole_nodes unread_at
whole-KeepsUnread = record { send_unread = λ r k w. refl; update_unread = λ n k w. refl }

whole-standard : (w : Whole) → list_installed_crds whole_pools w ≡ false
unfolding applied list_installed_crds
whole-standard w = refl

-- The pool has a minimum of instance types, and a budget for the nights.
abbrev settings : String → Unread
settings k = record {
  min_values = ("node.kubernetes.io/instance-type", 3) ∷ [];
  windows = record { schedule = "0 22 * * *"; duration = "8h"; reasons = "Drifted" ∷ [] } ∷ [];
}

abbrev before : Whole
before = record { seen = world; unread = settings }

abbrev after : Event → Whole → Whole
after = update_karpenter_node_pool whole_pools whole_nodes in_order globals

abbrev ended : Event → Whole → Whole
ended = restore_karpenter_node_pool whole_pools whole_nodes in_order globals

zoned_touched : is_touched "us-east-1a" zoned_pool ≡ true
unfolding is_touched zone_values contains
zoned_touched = refl

settings_lost_example :
    (unread_at "zoned" (after started_a before) ≡ nothing_unread)
    × (unread_at "zoned" (ended started_a (after started_a before)) ≡ nothing_unread)
settings_lost_example =
    settings_lost whole-KeepsUnread whole-IsAvailable "zoned" whole-IsPoolApi whole-standard
      in_order globals started_a started_a "us-east-1a" "us-east-1b" before zoned_pool IsKnown-a
      holds_zoned zoned_touched
