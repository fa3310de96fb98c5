-- ===== src/Nodes/Cluster.antt =====
-- A cluster that is a map of nodes: an API for which the assumptions of `Api` hold.
use sample_arc_autoshift_kar.Base.{
  String, true, Option, none, some, refl, ◌==◌, eq_iff, if◌then◌else◌, arith,
}
use sample_arc_autoshift_kar.Base.Dict.{Dict, lookup, insert, lookup-insert}
use sample_arc_autoshift_kar.Nodes.Api.{Node, NodeApi, IsNodeApi, IsReliable}

-- A key holds the node of that name.
abbrev pub read_node : String → Dict Node → Option Node
read_node k s = elim (lookup k s) [ none ↦ none | some n ↦ if n.name == k then some n else none ]

abbrev pub cluster_api : NodeApi (Dict Node)
cluster_api = record { get = read_node; update = λ n s. (true, insert n.name n s) }

pub cluster_api-IsNodeApi : IsNodeApi cluster_api read_node
cluster_api-IsNodeApi = record {
  named = λ k s n h. ground (arith, eq_iff n.name k, h);
  get_reads = λ k s n h. h;
  update_writes =
      λ n k s. ground (arith, lookup-insert n.name k n s, eq_iff n.name k, eq_iff n.name n.name);
}

pub cluster_api-IsReliable : IsReliable cluster_api read_node
cluster_api-IsReliable = record { get_ok = λ k s. refl; update_ok = λ n s. refl }
