-- ===== src/Pools.antt =====
-- Karpenter's node pools as app/main.go reads and writes them, and the requests that it sends.
pub mod Api
pub mod Unread
use sample_arc_autoshift_kar.Base.{
  ℕ, String, Bool, true, false, Option, none, some, List, [], ◌∷◌, ◌++◌, ◌==◌, if◌then◌else◌,
}
use sample_arc_autoshift_kar.Base.Dict.{Dict}
use sample_arc_autoshift_kar.Nodes.Api.{Taint}

-- `Values` that is a nil slice and one that is empty are both `[]`.
pub record Requirement : Type 0 where
  pub key : String
  pub operator : String
  pub values : List String

-- A budget is its `Nodes`.
pub record Disruption : Type 0 where
  pub budgets : List String
  pub consolidate_after : String
  pub consolidation_policy : String

pub record NodeClassRef : Type 0 where
  pub name : String
  pub kind : String
  pub group : String

-- An item of the list that the program reads: not all of a node pool, but the fields of the code's
-- struct. Restoring reads fewer of them. Pools/Unread has settings that the struct leaves out.
pub record PoolItem : Type 0 where
  pub api_version : String
  pub kind : String
  pub name : String
  pub annotations : Option (Dict String)
  pub disruption : Disruption
  pub requirements : List Requirement
  pub taints : List Taint
  pub node_class_ref : NodeClassRef

-- The node pool that the program creates. The fields that it leaves at their zero values (labels,
-- limits, `expireAfter`, `terminationGracePeriod`) are left out.
pub record NodePool : Type 0 where
  pub api_version : String
  pub kind : String
  pub name : String
  pub namespace : String
  pub annotations : Dict String
  pub weight : Option ℕ
  pub disruption : Disruption
  pub requirements : List Requirement
  pub taints : List Taint
  pub node_class_ref : NodeClassRef

-- What is marshalled to JSON: the body of a merge patch of the spec, with or without the disruption
-- settings; one of the away-zones annotation, set to a text or to null; a whole node pool.
pub data Payload : Type 0 where
  spec_patch : List Requirement → Option Disruption → Payload
  annotation_patch : Option String → Payload
  node_pool : NodePool → Payload

pub data Request : Type 0 where
  patch : String → Payload → Request
  post : NodePool → Request
  delete_pool : String → Request

abbrev pub zone_key : String
zone_key = "topology.kubernetes.io/zone"

abbrev pub away_zones : String
away_zones = "zonal-autoshift.eks.amazonaws.com/away-zones"
