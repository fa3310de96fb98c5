-- ===== src/Tests/Nodes.antt =====
-- The node operations at a concrete cluster.
use mathlib.Core.List.{Perm}
use mathlib.Core.List.Perm
use mathlib.Core.Option
use sample_arc_autoshift_kar.Base.{true, false, some, List, ◌≡◌, refl, arith, if◌then◌else◌}
use sample_arc_autoshift_kar.Base.Dict.{lookup}
use sample_arc_autoshift_kar.Store.{NodeInfo}
use sample_arc_autoshift_kar.Nodes.{
  annotate_and_cordon_nodes, remove_protection_from_nodes, taint_nodes_in_az,
}
use sample_arc_autoshift_kar.Nodes.Api.{Node}
use sample_arc_autoshift_kar.Nodes.Visits.{is_tracked}
use sample_arc_autoshift_kar.Nodes.Protection.{protected}
use sample_arc_autoshift_kar.Nodes.Taints.{tainted}
use sample_arc_autoshift_kar.Nodes.Partial.{Protects, annotate_and_cordon_nodes-Protects}
use sample_arc_autoshift_kar.Nodes.Shift.{
  IsPristine, node_at-annotate_and_cordon_nodes, node_at-taint_nodes_in_az,
  remove_protection_uncordons,
}
use sample_arc_autoshift_kar.Tests.World.{node_at, world_nodes, world-IsNodeApi, world-IsReliable}
use sample_arc_autoshift_kar.Tests.Data.{node_a, node_b, tracked, world}
use sample_arc_autoshift_kar.Tests.Store.{tracked-IsValid}

abbrev pub in_order : List (List NodeInfo) → List (List NodeInfo)
in_order bs = bs

pub in_order-Perm : (bs : List (List NodeInfo)) → Perm (in_order bs) bs
in_order-Perm bs = Perm.refl bs

holds_node_a : node_at "node-a" world ≡ some node_a
unfolding lookup
holds_node_a = refl

holds_node_b : node_at "node-b" world ≡ some node_b
unfolding lookup
holds_node_b = refl

tracks_node_b : is_tracked "us-east-1b" tracked "node-b" ≡ true
unfolding lookup
tracks_node_b = refl

node_at-annotate_and_cordon_nodes_example :
    node_at "node-a" (annotate_and_cordon_nodes world_nodes in_order "us-east-1a" tracked world).1
    ≡ (if is_tracked "us-east-1a" tracked "node-a"
        then Option.map protected (node_at "node-a" world)
        else node_at "node-a" world)
node_at-annotate_and_cordon_nodes_example =
    node_at-annotate_and_cordon_nodes world-IsNodeApi world-IsReliable in_order in_order-Perm
      "us-east-1a" tracked tracked-IsValid "node-a" world

node_at-taint_nodes_in_az_example :
    node_at "node-a" (taint_nodes_in_az world_nodes "us-east-1a" tracked world) ≡ (
      if is_tracked "us-east-1a" tracked "node-a"
      then Option.map (tainted "us-east-1a") (node_at "node-a" world)
      else node_at "node-a" world)
node_at-taint_nodes_in_az_example =
    node_at-taint_nodes_in_az world-IsNodeApi world-IsReliable in_order in_order-Perm "us-east-1a"
      tracked tracked-IsValid "node-a" world

pub node_a-IsPristine : (n : Node) → node_at "node-a" world ≡ some n → IsPristine n
unfolding lookup
node_a-IsPristine n h = record {
  unmarked = ground (arith, h, holds_node_a);
  schedulable = ground (arith, h, holds_node_a);
}

remove_protection_uncordons_example :
    (m : Node) × (node_at "node-b"
        (remove_protection_from_nodes world_nodes in_order "us-east-1b" tracked
          (annotate_and_cordon_nodes world_nodes in_order "us-east-1b" tracked world).1).1
      ≡ some m)
    × (m.unschedulable ≡ false)
remove_protection_uncordons_example =
    remove_protection_uncordons world-IsNodeApi world-IsReliable in_order in_order-Perm "us-east-1b"
      tracked tracked-IsValid "node-b" world node_b holds_node_b tracks_node_b

annotate_and_cordon_nodes-Protects_example :
    Protects (is_tracked "us-east-1a" tracked "node-a") (node_at "node-a" world) (
      node_at "node-a"
        (annotate_and_cordon_nodes world_nodes in_order "us-east-1a" tracked world).1)
annotate_and_cordon_nodes-Protects_example =
    annotate_and_cordon_nodes-Protects world-IsNodeApi in_order in_order-Perm "us-east-1a" tracked
      "node-a" world tracked-IsValid
