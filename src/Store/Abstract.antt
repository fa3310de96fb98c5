-- ===== src/Store/Abstract.antt =====
-- What the node store promises, apart from how it is kept: a map from names to zones.
use sample_arc_autoshift_kar.Base.{
  String, Option, none, some, List, [], ◌∷◌, ◌||◌, ◌==◌, eq_iff, if◌then◌else◌, ◌≡◌, refl, ◌∙◌,
  arith, Option-cases, inl, inr,
}
use sample_arc_autoshift_kar.Base.Dict.{lookup, lookup-insert, lookup-delete}
use sample_arc_autoshift_kar.Store.{
  NodeInfo, NodeStore, new_node_store, add_node, remove_node, get_nodes_by_az,
}
use sample_arc_autoshift_kar.Store.Validity.{
  IsValid, IsValid-new_node_store, add_node-IsValid, remove_node-IsValid,
}
use sample_arc_autoshift_kar.Store.Queries.{
  find_info, IsUnique, find_info-get_nodes_by_az, IsUnique-get_nodes_by_az,
}

-- The calls that change the store.
pub data Operation : Type 0 where
  add : (node_name az : String) → Operation
  remove : (node_name : String) → Operation

unfoldable pub run_operations : List Operation → NodeStore → NodeStore
run_operations [] s = s
run_operations (add node_name az ∷ ops) s = run_operations ops (add_node node_name az s)
run_operations (remove node_name ∷ ops) s = run_operations ops (remove_node node_name s)

-- The zone of every tracked node.
abbrev pub Tracked : Type 0
Tracked = String → Option String

abbrev pub nothing_tracked : Tracked
nothing_tracked k = none

-- The operations on the map alone: the last call for a name decides.
unfoldable pub track : List Operation → Tracked → Tracked
track [] t = t
track (add node_name az ∷ ops) t = track ops (λ k. if node_name == k then some az else t k)
track (remove node_name ∷ ops) t = track ops (λ k. if node_name == k then none else t k)

-- What a query for the zone `az` shows of the node `k`, if that is in the zone `o`.
abbrev pub shown : String → String → Option String → Option NodeInfo
shown az k none = none
shown az k (some z) =
    if az == "" || z == az then some (record { node_name = k; availability_zone = z }) else none

-- The store holds what the map says.
record Implements (s : NodeStore) (t : Tracked) : Type 0 where
  valid : IsValid s
  holds :
      (k : String)
      → lookup k s.nodes ≡ (elim (t k) [
        | none ↦ none
        | some z ↦ some (record { node_name = k; availability_zone = z })
      ])

new_node_store-Implements : Implements new_node_store nothing_tracked
unfolding new_node_store lookup
new_node_store-Implements = record { valid = IsValid-new_node_store; holds = λ k. refl }

add_node-Implements :
    (n az : String) (s : NodeStore) (t : Tracked)
    → Implements s t
    → Implements (add_node n az s) (λ k. if n == k then some az else t k)
add_node-Implements n az s t i = record {
  valid = add_node-IsValid n az s i.valid;
  holds = λ k.
      unfold add_node in
      ground (
        arith,
        eq_iff n k,
        i.holds k,
        lookup-insert n k (record { node_name = n; availability_zone = az }) s.nodes,
      );
}

remove_node-Implements :
    (n : String) (s : NodeStore) (t : Tracked)
    → Implements s t
    → Implements (remove_node n s) (λ k. if n == k then none else t k)
remove_node-Implements n s t i = record {
  valid = remove_node-IsValid n s i.valid;
  holds = λ k. unfold remove_node in ground (arith, i.holds k, lookup-delete n k s.nodes);
}

run_operations-Implements :
    (ops : List Operation) (s : NodeStore) (t : Tracked)
    → Implements s t
    → Implements (run_operations ops s) (track ops t)
unfolding run_operations track
run_operations-Implements [] s t i = i
run_operations-Implements (add n az ∷ ops) s t i =
    run_operations-Implements ops (add_node n az s) (λ k. if n == k then some az else t k)
      (add_node-Implements n az s t i)
run_operations-Implements (remove n ∷ ops) s t i =
    run_operations-Implements ops (remove_node n s) (λ k. if n == k then none else t k)
      (remove_node-Implements n s t i)

-- After any calls of `AddNode` and `RemoveNode` on a new store, in any order, a query shows every
-- node at most once, and exactly those that the map from names to zones holds in the zone of the
-- query, each with its zone; a query for the empty zone shows all.
pub get_nodes_by_az-run_operations :
    (ops : List Operation) (az : String)
    → IsUnique (get_nodes_by_az az (run_operations ops new_node_store))
      × ((k : String)
          → find_info k (get_nodes_by_az az (run_operations ops new_node_store))
            ≡ shown az k (track ops nothing_tracked k))
get_nodes_by_az-run_operations ops az =
    let i =
      run_operations-Implements ops new_node_store nothing_tracked new_node_store-Implements in
    let s = run_operations ops new_node_store in
    (
      IsUnique-get_nodes_by_az az s i.valid,
      λ k.
          find_info-get_nodes_by_az az k s i.valid
          ∙ rw (i.holds k) (elim (Option-cases (track ops nothing_tracked k)) [
            | inl e ↦ rw e refl
            | inr (z, e) ↦ rw e refl
          ]),
    )
