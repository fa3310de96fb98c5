-- ===== src/Claims/Listing.antt =====
-- The listing of the NodeClaims at the start: what it fails on, and what it does to nodes that have
-- gone in the meantime.
use sample_arc_autoshift_kar.Base.{
  ℕ, zero, suc, ◌<◌, true, Option, none, some, List, [], ◌∷◌, ◌++◌, eq_iff, eq_refl, ◌≡◌, ◌≢◌, ◌⊎◌,
  inl, inr, refl, arith, Option-cases,
}
use sample_arc_autoshift_kar.Base.Dict.{lookup, lookup-insert, lookup-delete, delete}
use sample_arc_autoshift_kar.Store.{NodeInfo, NodeStore, add_node, remove_node}
use sample_arc_autoshift_kar.Claims.{
  Unstructured, process_node_claim, NodeClaim, listed_zone, store_claims, initialize_store,
}
use sample_arc_autoshift_kar.Claims.Agreement.{Describes, claim_node-Describes}
use sample_arc_autoshift_kar.Client.{convert_items, list_node_claims}

module _ {Obj : Type 0} (from_unstructured : Obj → Option NodeClaim) where
  -- Some item cannot be converted.
  abbrev pub HasUnreadable : List Obj → Type 0
  HasUnreadable [] = ⊥
  HasUnreadable (item ∷ items) = (from_unstructured item ≡ none) ⊎ HasUnreadable items

  -- The request fails, or its answer has an item that cannot be converted.
  abbrev pub IsUnreadable : Option (List Obj) → Type 0
  IsUnreadable none = Unit
  IsUnreadable (some items) = HasUnreadable items

  convert_items-none :
      (items : List Obj) (claims : List NodeClaim)
      → HasUnreadable items
      → convert_items from_unstructured items claims ≡ none
  unfolding convert_items
  convert_items-none [] claims h = absurd h
  convert_items-none (item ∷ items) claims (inl bad) = ground (arith, bad)
  convert_items-none (item ∷ items) claims (inr h) = elim (Option-cases (from_unstructured item)) [
    | inl e ↦ ground (arith, e)
    | inr (claim, e) ↦ ground (arith, e, convert_items-none items (claims ++ claim ∷ []) h)
  ]

  list_node_claims-none :
      (answer : Option (List Obj))
      → IsUnreadable answer
      → list_node_claims from_unstructured answer ≡ none
  unfolding list_node_claims
  list_node_claims-none none h = refl
  list_node_claims-none (some items) h = convert_items-none items [] h

  -- If every attempt fails or is answered with some claim that cannot be converted, the store is
  -- left as it was: one such claim keeps all the others from being stored.
  pub initialize_store-unreadable :
      (steps : ℕ) (answers : ℕ → Option (List Obj)) (s : NodeStore)
      → ((i : ℕ) → i < steps → IsUnreadable (answers i))
      → initialize_store steps (λ i. list_node_claims from_unstructured (answers i)) s ≡ s
  unfolding initialize_store
  initialize_store-unreadable zero answers s h = refl
  initialize_store-unreadable (suc steps) answers s h = ground (
    arith,
    list_node_claims-none (answers 0) (h 0 (omega arith)),
    initialize_store-unreadable steps (λ i. answers (suc i)) s (λ i l. h (suc i) (omega arith)),
  )

module _ {Obj Fields : Type 0} (u : Unstructured Obj Fields) (obj : Obj) (claim : NodeClaim)
    (d : Describes u obj claim) where
  -- The informer's event of a deletion takes the node out of the store. The claim, which was listed
  -- before its deletion, brings the node back if it is stored after the event. The claim names a node,
  -- and has a status and labels.
  pub store_claims-process_node_claim :
      (s : NodeStore)
      → claim.node_name ≢ ""
      → (lookup claim.node_name (process_node_claim u obj true s).nodes ≡ none)
        × (lookup claim.node_name
              (store_claims (claim ∷ []) (process_node_claim u obj true s)).nodes
            ≡ some (record {
              node_name = claim.node_name;
              availability_zone = listed_zone claim.labels;
            }))
  unfolding store_claims add_node process_node_claim remove_node
  store_claims-process_node_claim s named =
      let k = claim.node_name in
      let info : NodeInfo = record {
        node_name = k;
        availability_zone = listed_zone claim.labels;
      } in
      let gone : process_node_claim u obj true s ≡ remove_node k s =
        ground (arith, claim_node-Describes u obj claim d, eq_iff k "", named) in
      (
        rw (gone, lookup-delete k k s.nodes, eq_refl) refl,
        rw gone (
            ground
              (arith, eq_iff k "", named, eq_iff k k, lookup-insert k k info (delete k s.nodes))),
      )
