-- ===== src/Nodes/Shift.antt =====
-- What the four zone-wide operations do to every node of the cluster, and that those of a completed
-- shift undo those of its start.
use mathlib.Core.Option
use mathlib.Core.List.{Perm}
use sample_arc_autoshift_kar.Base.{
  String, true, false, Option, none, some, List, [], ◌∷◌, eq_refl, if◌then◌else◌, ◌≡◌, refl, ◌∙◌,
  arith, Option-cases, inl, inr,
}
use sample_arc_autoshift_kar.Base.Dict.{Dict, lookup, insert, delete}
use sample_arc_autoshift_kar.Store.{NodeInfo, NodeStore, get_nodes_by_az}
use sample_arc_autoshift_kar.Store.Validity.{IsValid}
use sample_arc_autoshift_kar.Nodes.Api.{Node, NodeApi, IsNodeApi, IsReliable}
use sample_arc_autoshift_kar.Nodes.{
  do_not_disrupt, annotations_of, has_taint, protect_node, unprotect_node,
  annotate_and_cordon_nodes, remove_protection_from_nodes, taint_nodes_in_az,
  remove_taint_from_nodes,
}
use sample_arc_autoshift_kar.Nodes.Visits.{
  is_tracked, in_batches-Visits, for_each_node-Visits, visits-get_nodes_by_az,
}
use sample_arc_autoshift_kar.Nodes.Protection.{
  protected, unprotected, protected-protected, unprotected-unprotected, protect_node-Visits,
  unprotect_node-Visits,
}
use sample_arc_autoshift_kar.Nodes.Taints.{
  tainted, untainted, tainted-tainted, untainted-untainted, untainted-tainted, taint_node-Visits,
  untaint_node-Visits,
}

-- A missing annotation map read as an empty one, as the API writes it.
abbrev pub normal : Node → Node
normal n = record n { annotations = some (annotations_of n) }

-- Neither annotated for the feature nor cordoned.
pub record IsPristine (n : Node) : Type 0 where
  pub unmarked : lookup do_not_disrupt (annotations_of n) ≡ none
  pub schedulable : n.unschedulable ≡ false

delete-insert : (k v : String) (m : Dict String) → lookup k m ≡ none → delete k (insert k v m) ≡ m
unfolding lookup insert delete
delete-insert k v [] h = rw eq_refl
delete-insert k v ((j, w) ∷ m) h = ground (arith, delete-insert k v m)

pub normal-unprotected-protected :
    (n : Node) → IsPristine n → normal (unprotected (protected n)) ≡ normal n
unfolding protected unprotected
normal-unprotected-protected n h =
    ground
      (arith, delete-insert do_not_disrupt "true" (annotations_of n), h.unmarked, h.schedulable)

module _ {S : Type 0} {api : NodeApi S} {node_at : String → S → Option Node}
    (laws : IsNodeApi api node_at) (reliable : IsReliable api node_at)
    (schedule : List (List NodeInfo) → List (List NodeInfo))
    (perm : (bs : List (List NodeInfo)) → Perm (schedule bs) bs) (az : String) (store : NodeStore)
    (valid : IsValid store) (j : String) (s : S) where
  -- With a reliable API and whatever order of the batches, `annotate_and_cordon_nodes` gives every
  -- node that is tracked in the zone the annotation and the cordon, and leaves every other node of
  -- the cluster as it was. The node store is valid.
  pub node_at-annotate_and_cordon_nodes :
      node_at j (annotate_and_cordon_nodes api schedule az store s).1
      ≡ (if is_tracked az store j then Option.map protected (node_at j s) else node_at j s)
  unfolding annotate_and_cordon_nodes
  node_at-annotate_and_cordon_nodes =
      in_batches-Visits node_at protected (protect_node api) protected-protected
        (protect_node-Visits laws reliable) schedule perm az store j s valid

  -- With a reliable API and whatever order of the batches, `remove_protection_from_nodes` takes the
  -- annotation and the cordon off the nodes that are tracked in the zone, and leaves every other
  -- node as it was. The node store is valid.
  pub node_at-remove_protection_from_nodes :
      node_at j (remove_protection_from_nodes api schedule az store s).1
      ≡ (if is_tracked az store j then Option.map unprotected (node_at j s) else node_at j s)
  unfolding remove_protection_from_nodes
  node_at-remove_protection_from_nodes =
      in_batches-Visits node_at unprotected (unprotect_node api) unprotected-unprotected
        (unprotect_node-Visits laws reliable) schedule perm az store j s valid

  -- With a reliable API `taint_nodes_in_az` gives every node that is tracked in the zone the taint,
  -- unless it has one of the same key, and leaves every other node as it was. The node store is
  -- valid.
  pub node_at-taint_nodes_in_az :
      node_at j (taint_nodes_in_az api az store s)
      ≡ (if is_tracked az store j then Option.map (tainted az) (node_at j s) else node_at j s)
  unfolding taint_nodes_in_az
  node_at-taint_nodes_in_az =
      for_each_node-Visits node_at (tainted az) _ (tainted-tainted az)
        (taint_node-Visits laws reliable az) (get_nodes_by_az az store) j s
      ∙ rw (visits-get_nodes_by_az az j store valid)

  -- With a reliable API `remove_taint_from_nodes` takes every taint of the zonal shift key off the
  -- nodes that are tracked in the zone, and leaves every other node as it was. The node store is
  -- valid.
  pub node_at-remove_taint_from_nodes :
      node_at j (remove_taint_from_nodes api az store s)
      ≡ (if is_tracked az store j then Option.map untainted (node_at j s) else node_at j s)
  unfolding remove_taint_from_nodes
  node_at-remove_taint_from_nodes =
      for_each_node-Visits node_at untainted _ untainted-untainted
        (untaint_node-Visits laws reliable) (get_nodes_by_az az store) j s
      ∙ rw (visits-get_nodes_by_az az j store valid)

module _ {S : Type 0} {api : NodeApi S} {node_at : String → S → Option Node}
    (laws : IsNodeApi api node_at) (reliable : IsReliable api node_at)
    (schedule : List (List NodeInfo) → List (List NodeInfo))
    (perm : (bs : List (List NodeInfo)) → Perm (schedule bs) bs) (az : String) (store : NodeStore)
    (valid : IsValid store) (j : String) (s : S) where
  abbrev protected_state : S
  protected_state = (annotate_and_cordon_nodes api schedule az store s).1

  -- Protecting the nodes of a zone and then removing the protection gives a node back as it was (a
  -- missing annotation map read as empty), if before it was neither annotated nor cordoned. The API
  -- is reliable, and the same nodes are tracked both times. The node store is valid.
  pub remove_protection-annotate_and_cordon :
      ((n : Node) → node_at j s ≡ some n → IsPristine n)
      → Option.map normal (
          node_at j
            (remove_protection_from_nodes api schedule az store
              (annotate_and_cordon_nodes api schedule az store s).1).1)
        ≡ Option.map normal (node_at j s)
  remove_protection-annotate_and_cordon pristine =
      rw
        (node_at-remove_protection_from_nodes laws reliable schedule perm az store valid j
          protected_state)
        (rw (node_at-annotate_and_cordon_nodes laws reliable schedule perm az store valid j s)
          (elim (Option-cases (node_at j s)) [
            | inl e ↦ rw e (ground arith)
            | inr (n, e) ↦ rw e (ground (arith, normal-unprotected-protected n (pristine n e)))
          ]))

  -- The protection is not remembered node by node: a tracked node that was cordoned before the
  -- shift is schedulable after it. The API is reliable, and the node store is valid.
  pub remove_protection_uncordons :
      (n : Node)
      → node_at j s ≡ some n
      → is_tracked az store j ≡ true
      → (m : Node) × (node_at j
            (remove_protection_from_nodes api schedule az store
              (annotate_and_cordon_nodes api schedule az store s).1).1
          ≡ some m)
        × (m.unschedulable ≡ false)
  remove_protection_uncordons n e t = (
    unprotected (protected n),
    rw
        (node_at-remove_protection_from_nodes laws reliable schedule perm az store valid j
          protected_state)
        (rw (node_at-annotate_and_cordon_nodes laws reliable schedule perm az store valid j s)
          (rw (t, e))),
    unfold unprotected in refl,
  )

  -- Tainting the nodes of a zone and then removing the taint leaves a node exactly as it was, if it
  -- had no taint of that key before. The API is reliable, and the same nodes are tracked both
  -- times. The node store is valid.
  pub remove_taint-taint :
      ((n : Node) → node_at j s ≡ some n → has_taint n.taints ≡ false)
      → node_at j (remove_taint_from_nodes api az store (taint_nodes_in_az api az store s))
        ≡ node_at j s
  remove_taint-taint clean =
      rw
        (node_at-remove_taint_from_nodes laws reliable schedule perm az store valid j
          (taint_nodes_in_az api az store s))
        (rw (node_at-taint_nodes_in_az laws reliable schedule perm az store valid j s)
          (elim (Option-cases (node_at j s)) [
            | inl e ↦ rw e (ground arith)
            | inr (n, e) ↦ rw e (ground (arith, untainted-tainted az n (clean n e)))
          ]))
