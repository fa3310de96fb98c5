-- ===== src/Claims/Agreement.antt =====
-- Whether a listed claim and the informer's event for it put the same node into the store.
use sample_arc_autoshift_kar.Base.{
  String, false, none, some, [], ◌∷◌, ◌==◌, eq_iff, if◌then◌else◌, ◌≡◌, ◌≢◌, arith, Option-cases,
  Bool-cases, inl, inr,
}
use sample_arc_autoshift_kar.Base.Dict.{lookup}
use sample_arc_autoshift_kar.Store.{NodeStore, add_node}
use sample_arc_autoshift_kar.Claims.{
  Unstructured, zone_label, legacy_zone_label, zone_of, claim_node, process_node_claim, NodeClaim,
  listed_zone, store_claims,
}

module _ {Obj Fields : Type 0} (u : Unstructured Obj Fields) where
  -- The object and the typed claim are the same NodeClaim, with status and labels.
  pub record Describes (obj : Obj) (claim : NodeClaim) : Type 0 where
    pub fields : Fields
    pub metadata : Fields
    pub status : Fields
    pub labels : Fields
    pub is_unstructured : u.as_unstructured obj ≡ some fields
    pub has_metadata : u.nested_map fields "metadata" ≡ some metadata
    pub has_status : u.nested_map fields "status" ≡ some status
    pub has_labels : u.nested_map metadata "labels" ≡ some labels
    pub same_name : u.get_string status "nodeName" ≡ some claim.node_name
    pub same_labels : (k : String) → u.get_string labels k ≡ lookup k claim.labels

  module _ (obj : Obj) (claim : NodeClaim) (d : Describes obj claim) where
    pub claim_node-Describes :
        claim_node u obj
        ≡ (if claim.node_name == "" then none else some (claim.node_name, zone_of u d.labels))
    unfolding claim_node
    claim_node-Describes =
        ground (arith, d.is_unstructured, d.has_metadata, d.has_status, d.has_labels, d.same_name)

    zone_of-Describes :
        lookup zone_label claim.labels ≢ some "" → zone_of u d.labels ≡ listed_zone claim.labels
    unfolding zone_of listed_zone
    zone_of-Describes ne = elim (Option-cases (lookup zone_label claim.labels)) [
      | inl e ↦ elim (Option-cases (lookup legacy_zone_label claim.labels)) [
        | inl l ↦
            rw (
              d.same_labels zone_label,
              d.same_labels legacy_zone_label,
              e,
              l,
              zone_of,
              listed_zone,
            )
        | inr (az, l) ↦
            rw (
              d.same_labels zone_label,
              d.same_labels legacy_zone_label,
              e,
              l,
              zone_of,
              listed_zone,
            )
      ]
      | inr (az, e) ↦ elim (Bool-cases (az == "")) [
        | inl empty ↦ absurd (ne (ground (arith, e, eq_iff az "", empty)))
        | inr full ↦ ground (arith, e, d.same_labels zone_label, full)
      ]
    ]

    -- The event of a claim and its listing do the same to the store, if the claim's object has metadata,
    -- labels and a status, and its zone label is not present and empty.
    pub process-eq-store :
        (s : NodeStore)
        → lookup zone_label claim.labels ≢ some ""
        → process_node_claim u obj false s ≡ store_claims (claim ∷ []) s
    unfolding process_node_claim store_claims
    process-eq-store s ne = ground (arith, claim_node-Describes, zone_of-Describes ne)

    -- They disagree on a claim with a node whose zone label is present and empty and that has a legacy
    -- zone label, its object having metadata, labels and a status: the event gives the node the legacy
    -- zone, the listing none.
    pub process-ne-store :
        (s : NodeStore) (az : String)
        → lookup zone_label claim.labels ≡ some ""
        → lookup legacy_zone_label claim.labels ≡ some az
        → claim.node_name ≢ ""
        → (process_node_claim u obj false s ≡ add_node claim.node_name az s)
          × (store_claims (claim ∷ []) s ≡ add_node claim.node_name "" s)
    unfolding process_node_claim store_claims zone_of listed_zone
    process-ne-store s az present legacy named =
        let zone : zone_of u d.labels ≡ az =
          rw (d.same_labels zone_label, present, d.same_labels legacy_zone_label, legacy) in
        (
          ground (arith, claim_node-Describes, zone, eq_iff claim.node_name "", named),
          ground (arith, present, eq_iff claim.node_name "", named),
        )
