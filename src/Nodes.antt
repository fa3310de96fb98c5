-- ===== src/Nodes.antt =====
-- The node operations of app/pkg/controller/controller.go: annotations, cordons and taints, through
-- the Kubernetes API, for the tracked nodes of a zone.
pub mod Api
pub mod Cluster
pub mod Visits
pub mod Protection
pub mod Taints
pub mod Shift
pub mod Partial
pub mod Frame
pub mod Calls
use sample_arc_autoshift_kar.Base.{
  String, Bool, true, false, not, Option, none, some, List, [], ◌∷◌, ◌++◌, ◌==◌, if◌then◌else◌,
  length, ℕ, nat_eq,
}
use sample_arc_autoshift_kar.Base.Dict.{Dict, lookup, insert, delete}
use sample_arc_autoshift_kar.Store.{NodeInfo, NodeStore, get_nodes_by_az}
use sample_arc_autoshift_kar.Batch.{batch_processor}
use Api.{Taint, Node, NodeApi}

abbrev pub do_not_disrupt : String
do_not_disrupt = "karpenter.sh/do-not-disrupt"

abbrev pub zonal_shift_taint_key : String
zonal_shift_taint_key = "zonal-autoshift.eks.amazonaws.com/away-zone"

-- `fmt.Errorf("no nodes found in availability zone %s", az)`
pub data ControllerError : Type 0 where
  no_nodes : String → ControllerError

-- `node.Annotations == nil` becomes an empty map before the write.
abbrev pub annotations_of : Node → Dict String
annotations_of node = elim node.annotations [ none ↦ [] | some m ↦ m ]

unfoldable pub with_annotation : Node → Node
with_annotation node = record node {
  annotations = some (insert do_not_disrupt "true" (annotations_of node));
}

-- The scan for the taint, with its `break`.
unfoldable pub has_taint : List Taint → Bool
has_taint [] = false
has_taint (t ∷ ts) = if t.key == zonal_shift_taint_key then true else has_taint ts

-- The loop that builds `newTaints`.
unfoldable pub other_taints : List Taint → List Taint
other_taints [] = []
other_taints (t ∷ ts) =
    if t.key == zonal_shift_taint_key then other_taints ts else t ∷ other_taints ts

abbrev pub zone_taint : String → Taint
zone_taint az = record { key = zonal_shift_taint_key; value = az; effect = "NoExecute" }

-- `for _, node := range nodes { if node.NodeName == "" { continue }; … }`
unfoldable pub for_each_node {ℓ} : {S : Type ℓ} → (String → S → S) → List NodeInfo → S → S
for_each_node visit [] s = s
for_each_node visit (node ∷ nodes) s =
    for_each_node visit nodes (if node.node_name == "" then s else visit node.node_name s)

-- The frame that `AnnotateAndCordonNodes` and `RemoveProtectionFromNodes` share. `schedule` is the
-- order in which the scheduler lets the batches run.
module _ {S : Type 0} (process : List NodeInfo → S → Option ControllerError × S)
    (schedule : List (List NodeInfo) → List (List NodeInfo)) where
  unfoldable pub in_batches : String → NodeStore → S → Option ControllerError × S
  in_batches az store s = elim (get_nodes_by_az az store) [
    | [] ↦ (some (no_nodes az), s)
    | node ∷ nodes ↦ batch_processor process schedule (node ∷ nodes) s
  ]

-- The methods return whether they succeeded (`err == nil`), and the new state of the cluster.
module _ {S : Type 0} (api : NodeApi S) where
  unfoldable pub annotate_node : String → S → Bool × S
  unfolding with_annotation
  annotate_node node_name s = elim (api.get node_name s) [
    | none ↦ (false, s)
    | some node ↦ api.update (with_annotation node) s
  ]

  unfoldable pub cordon_node : String → S → Bool × S
  cordon_node node_name s = elim (api.get node_name s) [
    | none ↦ (false, s)
    | some node ↦ api.update (record node { unschedulable = true }) s
  ]

  -- A node without the annotation is left alone.
  unfoldable pub drop_annotation : Node → Dict String → S → Bool × S
  drop_annotation node annotations s = elim (lookup do_not_disrupt annotations) [
    | none ↦ (true, s)
    | some _ ↦ api.update (record node { annotations = some (delete do_not_disrupt annotations) }) s
  ]

  unfoldable pub remove_annotation : String → S → Bool × S
  remove_annotation node_name s = elim (api.get node_name s) [
    | none ↦ (false, s)
    | some node ↦ elim node.annotations [
      | none ↦ (true, s)
      | some annotations ↦ drop_annotation node annotations s
    ]
  ]

  unfoldable pub uncordon_node : String → S → Bool × S
  uncordon_node node_name s = elim (api.get node_name s) [
    | none ↦ (false, s)
    | some node ↦
        if node.unschedulable
        then api.update (record node { unschedulable = false }) s
        else (true, s)
  ]

  -- The body of the loop in `AnnotateAndCordonNodes`: the second step only after the first.
  unfoldable pub protect_node : String → S → S
  unfolding annotate_node cordon_node
  protect_node node_name s =
      let (done, s') = annotate_node node_name s in
      if done then (cordon_node node_name s').1 else s'

  -- The body of the loop in `RemoveProtectionFromNodes`.
  unfoldable pub unprotect_node : String → S → S
  unfolding remove_annotation uncordon_node
  unprotect_node node_name s =
      let (done, s') = remove_annotation node_name s in
      if done then (uncordon_node node_name s').1 else s'

  -- The body of the loop in `TaintNodesInAZ`.
  unfoldable pub taint_node : String → String → S → S
  unfolding has_taint
  taint_node az node_name s = elim (api.get node_name s) [
    | none ↦ s
    | some node ↦
        if has_taint node.taints
        then s
        else (api.update (record node { taints = node.taints ++ zone_taint az ∷ [] }) s).1
  ]

  -- The body of the loop in `RemoveTaintFromNodes`.
  unfoldable pub untaint_node : String → S → S
  unfolding other_taints
  untaint_node node_name s = elim (api.get node_name s) [
    | none ↦ s
    | some node ↦
        let new_taints = other_taints node.taints in
        if nat_eq (length new_taints) (length node.taints)
        then s
        else (api.update (record node { taints = new_taints }) s).1
  ]

  -- `processFn`: errors of single nodes are logged, and the batch goes on.
  unfoldable pub protect_batch : List NodeInfo → S → Option ControllerError × S
  protect_batch batch s = (none, for_each_node protect_node batch s)

  unfoldable pub unprotect_batch : List NodeInfo → S → Option ControllerError × S
  unprotect_batch batch s = (none, for_each_node unprotect_node batch s)

  module _ (schedule : List (List NodeInfo) → List (List NodeInfo)) where
    unfoldable pub annotate_and_cordon_nodes : String → NodeStore → S → Option ControllerError × S
    unfolding in_batches protect_batch
    annotate_and_cordon_nodes = in_batches protect_batch schedule

    unfoldable pub remove_protection_from_nodes :
        String → NodeStore → S → Option ControllerError × S
    unfolding in_batches unprotect_batch
    remove_protection_from_nodes = in_batches unprotect_batch schedule

  -- An empty result and an empty loop do the same, and both return nil.
  unfoldable pub taint_nodes_in_az : String → NodeStore → S → S
  taint_nodes_in_az az store s = for_each_node (taint_node az) (get_nodes_by_az az store) s

  unfoldable pub remove_taint_from_nodes : String → NodeStore → S → S
  remove_taint_from_nodes az store s = for_each_node untaint_node (get_nodes_by_az az store) s
