-- ===== src/Nodes/Api.antt =====
-- The part of the Kubernetes API that the controller uses for nodes (client-go's `Nodes()`), as an
-- interface: its operations, and what its documentation says of them.
use sample_arc_autoshift_kar.Base.{
  String, Bool, true, Option, some, List, ◌≡◌, ◌==◌, ◌&&◌, if◌then◌else◌,
}
use sample_arc_autoshift_kar.Base.Dict.{Dict}

pub record Taint : Type 0 where
  pub key : String
  pub value : String
  pub effect : String

-- The fields of a `corev1.Node` that the controller reads or writes. A missing annotation map is
-- `none`.
pub record Node : Type 0 where
  pub name : String
  pub annotations : Option (Dict String)
  pub unschedulable : Bool
  pub taints : List Taint

-- `S` is the state of the cluster. A failed call of `Get` is `none`; `Update` tells whether it
-- succeeded.
pub record NodeApi (S : Type 0) : Type 0 where
  pub get : String → S → Option Node
  pub update : Node → S → Bool × S

-- What the API promises, with `node_at` for the node that the cluster holds under a name: a `Get`
-- that succeeds reads it, an `Update` that succeeds writes the node under its name, and an `Update`
-- that fails writes nothing.
pub record IsNodeApi {S : Type 0} (api : NodeApi S) (node_at : String → S → Option Node)
    : Type 0 where
  pub named : (k : String) (s : S) (n : Node) → node_at k s ≡ some n → n.name ≡ k
  pub get_reads : (k : String) (s : S) (n : Node) → api.get k s ≡ some n → node_at k s ≡ some n
  pub update_writes :
      (n : Node) (k : String) (s : S)
      → node_at k (api.update n s).1
        ≡ (if (api.update n s).0 && n.name == k then some n else node_at k s)

-- No call fails for another reason than that the node is missing.
pub record IsReliable {S : Type 0} (api : NodeApi S) (node_at : String → S → Option Node)
    : Type 0 where
  pub get_ok : (k : String) (s : S) → api.get k s ≡ node_at k s
  pub update_ok : (n : Node) (s : S) → (api.update n s).0 ≡ true
