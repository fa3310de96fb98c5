-- ===== src/Client.antt =====
-- app/pkg/client: how the NodeClaims are read, and the client that is made in or outside a cluster.
use sample_arc_autoshift_kar.Base.{
  String, Bool, Option, none, some, List, [], ◌∷◌, ◌++◌, ◌==◌, if◌then◌else◌,
}
use sample_arc_autoshift_kar.Claims.{NodeClaim, ◌>>=◌}
use sample_arc_autoshift_kar.Process.{Environment}

-- `from_unstructured` is the converter of apimachinery, `none` where it fails.
module _ {Obj : Type 0} (from_unstructured : Obj → Option NodeClaim) where
  unfoldable pub convert_to_node_claim : Obj → Option NodeClaim
  convert_to_node_claim obj = from_unstructured obj

  -- The loop over the items; the claims so far are lost where one cannot be converted.
  unfoldable pub convert_items : List Obj → List NodeClaim → Option (List NodeClaim)
  unfolding convert_to_node_claim
  convert_items [] node_claims = some node_claims
  convert_items (item ∷ items) node_claims = do
    node_claim ← convert_to_node_claim item
    convert_items items (node_claims ++ node_claim ∷ [])

  -- `answer` is the list of the dynamic client, `none` where the request fails.
  unfoldable pub list_node_claims : Option (List Obj) → Option (List NodeClaim)
  unfolding convert_items
  list_node_claims answer = do items ← answer; convert_items items []

  unfoldable pub get_node_claim : Option Obj → Option NodeClaim
  unfolding convert_to_node_claim
  get_node_claim answer = do result ← answer; convert_to_node_claim result

-- What client-go and the file paths give: the configuration of a pod, that of a kubeconfig file, the
-- home directory (empty where there is none), and whether a client can be made.
pub record Configs (Config : Type 0) : Type 0 where
  pub in_cluster : Option Config
  pub from_flags : String → Option Config
  pub home_dir : String
  pub join : String → String → String → String
  pub clientset : Config → Bool

module _ {Config : Type 0} (c : Configs Config) (env : Environment) where
  unfoldable pub kubeconfig_path : String
  kubeconfig_path =
      let kubeconfig = env "KUBECONFIG" in
      if kubeconfig == ""
      then (if c.home_dir == "" then kubeconfig else c.join c.home_dir ".kube" "config")
      else kubeconfig

  unfoldable pub create_clientset : Option Config
  unfolding kubeconfig_path
  create_clientset = do
    config ← elim c.in_cluster [ some config ↦ some config | none ↦ c.from_flags kubeconfig_path ]
    if c.clientset config then some config else none
