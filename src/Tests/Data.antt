-- ===== src/Tests/Data.antt =====
-- The objects of the tests: two zones with a node each, three pools, and the two events of a shift.
use sample_arc_autoshift_kar.Base.{String, true, false, none, some, List, [], ◌∷◌}
use sample_arc_autoshift_kar.Store.{NodeInfo, NodeStore}
use sample_arc_autoshift_kar.Nodes.Api.{Node}
use sample_arc_autoshift_kar.Event.{Event}
use sample_arc_autoshift_kar.Pools.{Requirement, PoolItem}
use sample_arc_autoshift_kar.Update.{Globals}
use sample_arc_autoshift_kar.Tests.World.{World}

abbrev pub info_a : NodeInfo
info_a = record { node_name = "node-a"; availability_zone = "us-east-1a" }

abbrev pub info_b : NodeInfo
info_b = record { node_name = "node-b"; availability_zone = "us-east-1b" }

abbrev pub tracked : NodeStore
tracked = record { nodes = ("node-a", info_a) ∷ ("node-b", info_b) ∷ [] }

abbrev pub node_a : Node
node_a = record { name = "node-a"; annotations = none; unschedulable = false; taints = [] }

abbrev pub node_b : Node
node_b = record { name = "node-b"; annotations = some []; unschedulable = true; taints = [] }

abbrev pub zone_requirement : Requirement
zone_requirement = record {
  key = "topology.kubernetes.io/zone";
  operator = "In";
  values = "us-east-1a" ∷ "us-east-1b" ∷ [];
}

abbrev pub arch_requirement : Requirement
arch_requirement = record { key = "kubernetes.io/arch"; operator = "In"; values = "amd64" ∷ [] }

abbrev pub pool_of : String → List Requirement → PoolItem
pool_of name requirements = record {
  api_version = "karpenter.sh/v1";
  kind = "NodePool";
  name = name;
  annotations = none;
  disruption = record {
    budgets = "10%" ∷ [];
    consolidate_after = "30s";
    consolidation_policy = "WhenEmpty";
  };
  requirements = requirements;
  taints = [];
  node_class_ref = record { name = "default"; kind = "EC2NodeClass"; group = "karpenter.k8s.aws" };
}

abbrev pub zoned_pool : PoolItem
zoned_pool = pool_of "zoned" (arch_requirement ∷ zone_requirement ∷ [])

abbrev pub free_pool : PoolItem
free_pool = pool_of "free" (arch_requirement ∷ [])

abbrev pub world : World
world = record {
  nodes = ("node-a", node_a) ∷ ("node-b", node_b) ∷ [];
  pools = zoned_pool ∷ free_pool ∷ [];
}

-- As auto mode has it during a shift.
abbrev pub shifted_world : World
shifted_world = record {
  nodes = ("node-a", node_a) ∷ [];
  pools =
      pool_of "system" (arch_requirement ∷ [])
      ∷ pool_of "system-kss" (zone_requirement ∷ [])
      ∷ zoned_pool
      ∷ [];
}

abbrev pub shift_of : String → String → Event
shift_of detail_type zone_id = record {
  id = "1";
  detail_type = detail_type;
  region = "us-east-1";
  detail = record { away_from = ""; metadata = record { away_from = zone_id } };
}

abbrev pub started_a : Event
started_a = shift_of "Autoshift In Progress" "use1-az1"

abbrev pub started_b : Event
started_b = shift_of "Practice Run Started" "use1-az2"

abbrev pub started_unknown : Event
started_unknown = shift_of "Autoshift In Progress" "use1-az9"

abbrev pub globals : Globals
globals = record {
  zone_mapping = ("use1-az1", "us-east-1a") ∷ ("use1-az2", "us-east-1b") ∷ [];
  cluster_zones = "us-east-1a" ∷ "us-east-1b" ∷ [];
  do_not_disrupt_enabled = true;
  node_store = some tracked;
}
