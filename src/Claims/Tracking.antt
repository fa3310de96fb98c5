-- ===== src/Claims/Tracking.antt =====
-- What the node store holds after any sequence of NodeClaim events.
use sample_arc_autoshift_kar.Base.{
  ℕ, zero, suc, ◌<◌, String, Bool, true, false, Option, none, some, List, [], ◌∷◌, ◌==◌, eq_iff,
  if◌then◌else◌, ◌≡◌, ◌≢◌, refl, ap, ◌∙◌, arith,
}
use sample_arc_autoshift_kar.Base.Dict.{lookup, lookup-insert, lookup-delete}
use sample_arc_autoshift_kar.Store.{NodeInfo, NodeStore, add_node, remove_node}
use sample_arc_autoshift_kar.Store.Validity.{IsValid, add_node-IsValid, remove_node-IsValid}
use sample_arc_autoshift_kar.Claims.{
  Unstructured, claim_node, process_node_claim, process_events, NodeClaim, store_claims,
  initialize_store,
}

-- A valid store in which no node has an empty name.
pub record IsTracking (s : NodeStore) : Type 0 where
  pub valid : IsValid s
  pub no_empty : lookup "" s.nodes ≡ none

lookup-add_node :
    (n az j : String) (s : NodeStore)
    → lookup j (add_node n az s).nodes ≡ (
        if n == j
        then some (record { node_name = n; availability_zone = az })
        else lookup j s.nodes)
unfolding add_node
lookup-add_node n az j s = lookup-insert n j _ s.nodes

lookup-remove_node :
    (n j : String) (s : NodeStore)
    → lookup j (remove_node n s).nodes ≡ (if n == j then none else lookup j s.nodes)
unfolding remove_node
lookup-remove_node n j s = lookup-delete n j s.nodes

add_node-IsTracking :
    (n az : String) (s : NodeStore) → n ≢ "" → IsTracking s → IsTracking (add_node n az s)
add_node-IsTracking n az s named t = record {
  valid = add_node-IsValid n az s t.valid;
  no_empty = rw (lookup-add_node n az "" s) (ground (arith, eq_iff n "", named, t.no_empty));
}

remove_node-IsTracking : (n : String) (s : NodeStore) → IsTracking s → IsTracking (remove_node n s)
remove_node-IsTracking n s t = record {
  valid = remove_node-IsValid n s t.valid;
  no_empty = rw (lookup-remove_node n "" s) (ground (arith, t.no_empty));
}

module _ {Obj Fields : Type 0} (u : Unstructured Obj Fields) where
  claim_node-named : (obj : Obj) (n az : String) → claim_node u obj ≡ some (n, az) → n ≢ ""
  unfolding claim_node
  claim_node-named obj n az h e = ground (arith, eq_iff n "")

  -- What one event says of the node `j`, of which `o` is known.
  abbrev pub told : String → Option (String × String) → Bool → Option NodeInfo → Option NodeInfo
  told j none is_delete o = o
  told j (some (n, az)) true o = if n == j then none else o
  told j (some (n, az)) false o =
      if n == j then some (record { node_name = n; availability_zone = az }) else o

  -- What the last event about the node `j` leaves of it.
  unfoldable pub last_told : String → List (Obj × Bool) → Option NodeInfo → Option NodeInfo
  last_told j [] o = o
  last_told j ((obj, is_delete) ∷ events) o =
      last_told j events (told j (claim_node u obj) is_delete o)

  -- The two properties of one event, by what it says.
  told_lem :
      (obj : Obj) (is_delete : Bool) (s : NodeStore) (c : Option (String × String))
      → claim_node u obj ≡ c
      → IsTracking s
      → IsTracking (process_node_claim u obj is_delete s)
        × ((j : String)
            → lookup j (process_node_claim u obj is_delete s).nodes
              ≡ told j c is_delete (lookup j s.nodes))
  unfolding process_node_claim
  told_lem obj is_delete s none e t = rw (e, process_node_claim) (t, λ j. refl)
  told_lem obj true s (some (n, az)) e t =
      rw (e, process_node_claim) (remove_node-IsTracking n s t, λ j. lookup-remove_node n j s)
  told_lem obj false s (some (n, az)) e t =
      rw (e, process_node_claim)
        (add_node-IsTracking n az s (claim_node-named obj n az e) t, λ j. lookup-add_node n az j s)

  -- Whatever events come, in any order, the store stays valid and tracks no node without a name, and
  -- under every name it holds what the last complete event about that node says: nothing after a
  -- deletion, the node with its zone after any other.
  pub process_events-IsTracking :
      (events : List (Obj × Bool)) (s : NodeStore)
      → IsTracking s
      → IsTracking (process_events u events s)
        × ((j : String)
            → lookup j (process_events u events s).nodes ≡ last_told j events (lookup j s.nodes))
  unfolding process_events last_told
  process_events-IsTracking [] s t = (t, λ j. refl)
  process_events-IsTracking ((obj, is_delete) ∷ events) s t =
      let (t', one) = told_lem obj is_delete s (claim_node u obj) refl t in
      let (t'', rest) =
        process_events-IsTracking events (process_node_claim u obj is_delete s) t' in
      (t'', λ j. rest j ∙ ap (last_told j events) (one j))

-- The listed claims are stored at the first attempt that succeeds, if that is among the `steps`
-- attempts.
pub initialize_store_lem :
    (steps : ℕ) (list : ℕ → Option (List NodeClaim)) (s : NodeStore) (i : ℕ)
    (claims : List NodeClaim)
    → i < steps
    → ((j : ℕ) → j < i → list j ≡ none)
    → list i ≡ some claims
    → initialize_store steps list s ≡ store_claims claims s
unfolding initialize_store
initialize_store_lem zero list s i claims lt h e = absurd (omega arith)
initialize_store_lem (suc steps) list s zero claims lt h e = ground (arith, e)
initialize_store_lem (suc steps) list s (suc i) claims lt h e = ground (
  arith,
  h 0 (omega arith),
  initialize_store_lem steps (λ j. list (suc j)) s i claims (omega arith)
      (λ j l. h (suc j) (omega arith)) e,
)
