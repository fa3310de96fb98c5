-- ===== src/Claims.antt =====
-- The NodeClaim events of app/pkg/controller/controller.go, from which the node store is kept.
pub mod Tracking
pub mod Agreement
pub mod Listing
use sample_arc_autoshift_kar.Base.{
  ℕ, zero, suc, String, Bool, true, false, Option, none, some, List, [], ◌∷◌, ◌==◌, if◌then◌else◌,
}
use sample_arc_autoshift_kar.Base.Dict.{Dict, lookup}
use sample_arc_autoshift_kar.Store.{NodeStore, add_node, remove_node}

-- What the code uses of the unstructured objects of apimachinery: the object behind an interface
-- value, if it is one; `NestedMap`, `none` where it is not found or fails; and a field as a string,
-- `none` where it is missing or is not one.
pub record Unstructured (Obj Fields : Type 0) : Type 0 where
  pub as_unstructured : Obj → Option Fields
  pub nested_map : Fields → String → Option Fields
  pub get_string : Fields → String → Option String

abbrev pub zone_label : String
zone_label = "topology.kubernetes.io/zone"

abbrev pub legacy_zone_label : String
legacy_zone_label = "failure-domain.beta.kubernetes.io/zone"

infixl 5 ◌>>=◌
abbrev pub ◌>>=◌ : {A B : Type 0} → Option A → (A → Option B) → Option B
none >>= f = none
some a >>= f = f a

abbrev pub or_empty : Option String → String
or_empty none = ""
or_empty (some s) = s

module _ {Obj Fields : Type 0} (u : Unstructured Obj Fields) where
  -- The zone label, or the legacy one where that is missing or empty; empty where both are.
  unfoldable pub zone_of : Fields → String
  zone_of labels =
      let az = or_empty (u.get_string labels zone_label) in
      if az == "" then or_empty (u.get_string labels legacy_zone_label) else az

  -- The early returns of `processNodeClaim`: the node's name and zone, if nothing is missing.
  unfoldable pub claim_node : Obj → Option (String × String)
  unfolding zone_of
  claim_node obj = do
    fields ← u.as_unstructured obj
    metadata ← u.nested_map fields "metadata"
    status ← u.nested_map fields "status"
    node_name ← u.get_string status "nodeName"
    labels ← if node_name == "" then none else u.nested_map metadata "labels"
    some (node_name, zone_of labels)

  unfoldable pub process_node_claim : Obj → Bool → NodeStore → NodeStore
  unfolding claim_node
  process_node_claim obj is_delete s = elim (claim_node obj) [
    | none ↦ s
    | some (node_name, az) ↦ if is_delete then remove_node node_name s else add_node node_name az s
  ]

  -- The informer's calls, one after the other.
  unfoldable pub process_events : List (Obj × Bool) → NodeStore → NodeStore
  unfolding process_node_claim
  process_events [] s = s
  process_events ((obj, is_delete) ∷ events) s =
      process_events events (process_node_claim obj is_delete s)

-- What the code reads of a `models.NodeClaim`.
pub record NodeClaim : Type 0 where
  pub labels : Dict String
  pub node_name : String

-- The zone of a listed claim: the legacy label counts only where the zone label is missing.
unfoldable pub listed_zone : Dict String → String
listed_zone labels = elim (lookup zone_label labels) [
  | some az ↦ az
  | none ↦ elim (lookup legacy_zone_label labels) [ some az ↦ az | none ↦ "" ]
]

-- The loop over the listed claims in `initializeStore`.
unfoldable pub store_claims : List NodeClaim → NodeStore → NodeStore
unfolding listed_zone
store_claims [] s = s
store_claims (claim ∷ claims) s =
    store_claims claims
      (if claim.node_name == "" then s else add_node claim.node_name (listed_zone claim.labels) s)

-- `wait.ExponentialBackoff` asks for the list until it succeeds, `steps` times at most; `list` gives
-- the answers to come.
unfoldable pub initialize_store : ℕ → (ℕ → Option (List NodeClaim)) → NodeStore → NodeStore
unfolding store_claims
initialize_store zero list s = s
initialize_store (suc steps) list s = elim (list zero) [
  | none ↦ initialize_store steps (λ i. list (suc i)) s
  | some claims ↦ store_claims claims s
]
