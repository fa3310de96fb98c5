-- ===== src/Pools/Api.antt =====
-- The rest of the Kubernetes API that app/main.go uses, and encoding/json, as an interface: the
-- operations, and what their documentation says of them.
use sample_arc_autoshift_kar.Base.{
  String, Bool, true, Option, none, some, List, [], ◌∷◌, ◌≡◌, ◌==◌, if◌then◌else◌,
}
use sample_arc_autoshift_kar.Base.Dict.{insert, delete}
use sample_arc_autoshift_kar.Nodes.Api.{Node, NodeApi}
use sample_arc_autoshift_kar.Pools.{
  PoolItem, NodePool, Payload, spec_patch, annotation_patch, node_pool, Request, patch, post,
  delete_pool, away_zones,
}

-- `config_ok` and `clientset_ok` tell whether the configuration and the client can be made, and the
-- next two whether `CreateNodePool`, which makes its own later, can make them then. The list
-- operations are `none` where the request fails or its body does not parse. `send` tells whether the
-- request succeeded, and `marshals` whether `json.Marshal` does.
pub record PoolApi (S : Type 0) : Type 0 where
  pub config_ok : Bool
  pub clientset_ok : Bool
  pub create_config_ok : S → Bool
  pub create_clientset_ok : S → Bool
  pub list_crds : S → Option (List String)
  pub list_pools : S → Option (List PoolItem)
  pub send : Request → S → Bool × S
  pub marshals : Payload → Bool

-- A merge patch of the spec replaces the requirements, and the disruption settings where it has
-- them; one of the annotation sets it, in a map that is made if it is missing, or removes it.
unfoldable pub patched : Payload → PoolItem → PoolItem
patched (spec_patch requirements none) p = record p { requirements = requirements }
patched (spec_patch requirements (some disruption)) p = record p {
  requirements = requirements;
  disruption = disruption;
}
patched (annotation_patch (some v)) p = record p {
  annotations =
      some (elim p.annotations [ none ↦ insert away_zones v [] | some m ↦ insert away_zones v m ]);
}
patched (annotation_patch none) p = record p {
  annotations = elim p.annotations [ none ↦ none | some m ↦ some (delete away_zones m) ];
}
patched (node_pool _) p = p

-- A created pool, as a list shows it.
unfoldable pub created : NodePool → PoolItem
created n = record {
  api_version = n.api_version;
  kind = n.kind;
  name = n.name;
  annotations = some n.annotations;
  disruption = n.disruption;
  requirements = n.requirements;
  taints = n.taints;
  node_class_ref = n.node_class_ref;
}

-- What a request that succeeds does to the pool of name `k`.
unfoldable pub applied : Request → String → Option PoolItem → Option PoolItem
unfolding patched created
applied (patch name payload) k o =
    if name == k then (elim o [ none ↦ none | some p ↦ some (patched payload p) ]) else o
applied (post n) k o = if n.name == k then some (created n) else o
applied (delete_pool name) k o = if name == k then none else o

unfoldable pub find_pool : String → List PoolItem → Option PoolItem
find_pool k [] = none
find_pool k (p ∷ ps) = if p.name == k then some p else find_pool k ps

-- No name stands twice.
abbrev pub IsUnique : List PoolItem → Type 0
IsUnique [] = Unit
IsUnique (p ∷ ps) = (find_pool p.name ps ≡ none) × IsUnique ps

-- What the API promises, with `pool_at` for the part that the program reads of the pool that the
-- cluster holds under a name: a list
-- that succeeds shows every pool once, a request that succeeds has its effect and one that fails has
-- none, and requests for nodes and for pools do not touch one another's objects.
pub record IsPoolApi {S : Type 0} (api : PoolApi S) (nodes : NodeApi S)
    (pool_at : String → S → Option PoolItem) (node_at : String → S → Option Node) : Type 0 where
  pub list_reads :
      (s : S) (ps : List PoolItem)
      → api.list_pools s ≡ some ps
      → IsUnique ps × ((k : String) → find_pool k ps ≡ pool_at k s)
  pub send_applies :
      (r : Request) (k : String) (s : S)
      → pool_at k (api.send r s).1
        ≡ (if (api.send r s).0 then applied r k (pool_at k s) else pool_at k s)
  pub send_keeps_nodes :
      (r : Request) (k : String) (s : S) → node_at k (api.send r s).1 ≡ node_at k s
  pub update_keeps_pools :
      (n : Node) (k : String) (s : S) → pool_at k (nodes.update n s).1 ≡ pool_at k s

-- No call fails: the client can be made, requests succeed, and `json.Marshal`, which refuses only
-- types that the program does not use, accepts every payload.
pub record IsAvailable {S : Type 0} (api : PoolApi S) : Type 0 where
  pub configured : api.config_ok ≡ true
  pub connected : api.clientset_ok ≡ true
  pub create_configured : (s : S) → api.create_config_ok s ≡ true
  pub create_connected : (s : S) → api.create_clientset_ok s ≡ true
  pub lists : (s : S) → (ps : List PoolItem) × (api.list_pools s ≡ some ps)
  pub succeeds : (r : Request) (s : S) → (api.send r s).0 ≡ true
  pub marshalled : (p : Payload) → api.marshals p ≡ true
