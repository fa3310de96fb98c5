-- ===== src/Nodes/Frame.antt =====
-- The node operations change the cluster by updates of nodes alone: what every update keeps, they
-- keep.
use sample_arc_autoshift_kar.Base.{
  String, Bool, true, false, Option, List, [], ◌∷◌, ◌==◌, if◌then◌else◌, ◌≡◌, refl, length, nat_eq,
  Bool-cases, Option-cases, inl, inr,
}
use sample_arc_autoshift_kar.Base.Dict.{Dict, lookup}
use sample_arc_autoshift_kar.Store.{NodeInfo, NodeStore, get_nodes_by_az}
use sample_arc_autoshift_kar.Batch.{batches, run_batches, batch_processor}
use sample_arc_autoshift_kar.Nodes.Api.{Node, NodeApi}
use sample_arc_autoshift_kar.Nodes.{
  ControllerError, for_each_node, in_batches, annotate_node, cordon_node, drop_annotation,
  remove_annotation, uncordon_node, protect_node, unprotect_node, taint_node, untaint_node,
  protect_batch, unprotect_batch, annotate_and_cordon_nodes, remove_protection_from_nodes,
  taint_nodes_in_az, remove_taint_from_nodes, has_taint, other_taints,
}

-- A choice between two states that both have the property.
keeps_if : {S : Type 0} (Q : S → Type 0) (b : Bool) (s t : S) → Q s → Q t → Q (if b then s else t)
keeps_if Q true s t hs ht = hs
keeps_if Q false s t hs ht = ht

module _ {S : Type 0} (api : NodeApi S) (Q : S → Type 0)
    (keeps : (n : Node) (s : S) → Q s → Q (api.update n s).1) where
  annotate_node-keeps : (k : String) (s : S) → Q s → Q (annotate_node api k s).1
  annotate_node-keeps k s h = elim (Option-cases (api.get k s)) [
    | inl e ↦ unfold annotate_node in rw (e, annotate_node) h
    | inr (n, e) ↦ unfold annotate_node in rw (e, annotate_node) (keeps _ s h)
  ]

  cordon_node-keeps : (k : String) (s : S) → Q s → Q (cordon_node api k s).1
  cordon_node-keeps k s h = elim (Option-cases (api.get k s)) [
    | inl e ↦ unfold cordon_node in rw (e, cordon_node) h
    | inr (n, e) ↦ unfold cordon_node in rw (e, cordon_node) (keeps _ s h)
  ]

  drop_annotation-keeps :
      (n : Node) (m : Dict String) (s : S) → Q s → Q (drop_annotation api n m s).1
  drop_annotation-keeps n m s h = elim (Option-cases (lookup "karpenter.sh/do-not-disrupt" m)) [
    | inl e ↦ unfold drop_annotation in rw (e, drop_annotation) h
    | inr (v, e) ↦ unfold drop_annotation in rw (e, drop_annotation) (keeps _ s h)
  ]

  protect_node-keeps : (k : String) (s : S) → Q s → Q (protect_node api k s)
  unfolding protect_node
  protect_node-keeps k s h =
      let h' = annotate_node-keeps k s h in
      keeps_if Q (annotate_node api k s).0 _ _ (cordon_node-keeps k _ h') h'

  for_each_node-keeps :
      (visit : String → S → S)
      → ((k : String) (s : S) → Q s → Q (visit k s))
      → (l : List NodeInfo) (s : S) → Q s
      → Q (for_each_node visit l s)
  unfolding for_each_node
  for_each_node-keeps visit v [] s h = h
  for_each_node-keeps visit v (info ∷ l) s h =
      for_each_node-keeps visit v l _
        (keeps_if Q (info.node_name == "") _ _ h (v info.node_name s h))

  run_batches-keeps :
      (process : List NodeInfo → S → Option ControllerError × S)
      → ((b : List NodeInfo) (s : S) → Q s → Q (process b s).1)
      → (bs : List (List NodeInfo)) (s : S) → Q s
      → Q (run_batches process bs s).1
  unfolding run_batches
  run_batches-keeps process v [] s h = h
  run_batches-keeps process v (b ∷ bs) s h = run_batches-keeps process v bs _ (v b s h)

  in_batches-keeps :
      (process : List NodeInfo → S → Option ControllerError × S)
      → ((b : List NodeInfo) (s : S) → Q s → Q (process b s).1)
      → (schedule : List (List NodeInfo) → List (List NodeInfo)) (az : String) (store : NodeStore)
        (s : S)
      → Q s
      → Q (in_batches process schedule az store s).1
  in_batches-keeps process v schedule az store s h = go (get_nodes_by_az az store) refl
    where
      go :
          (l : List NodeInfo)
          → get_nodes_by_az az store ≡ l
          → Q (in_batches process schedule az store s).1
      go [] e = unfold in_batches in rw (e, in_batches) h
      go (x ∷ xs) e =
          unfold in_batches batch_processor in
          rw (e, in_batches) (run_batches-keeps process v (schedule (batches (x ∷ xs))) s h)

  pub annotate_and_cordon_nodes-keeps :
      (schedule : List (List NodeInfo) → List (List NodeInfo)) (az : String) (store : NodeStore)
      (s : S)
      → Q s
      → Q (annotate_and_cordon_nodes api schedule az store s).1
  unfolding annotate_and_cordon_nodes
  annotate_and_cordon_nodes-keeps = in_batches-keeps (protect_batch api) (λ b s h.
      unfold protect_batch in for_each_node-keeps (protect_node api) protect_node-keeps b s h)

  remove_annotation-keeps : (k : String) (s : S) → Q s → Q (remove_annotation api k s).1
  remove_annotation-keeps k s h = elim (Option-cases (api.get k s)) [
    | inl e ↦ unfold remove_annotation in rw (e, remove_annotation) h
    | inr (n, e) ↦ elim (Option-cases n.annotations) [
      | inl a ↦ unfold remove_annotation in rw (e, remove_annotation) (rw a h)
      | inr (m, a) ↦
          unfold remove_annotation in
          rw (e, remove_annotation) (rw a (drop_annotation-keeps n m s h))
    ]
  ]

  uncordon_node-keeps : (k : String) (s : S) → Q s → Q (uncordon_node api k s).1
  uncordon_node-keeps k s h = elim (Option-cases (api.get k s)) [
    | inl e ↦ unfold uncordon_node in rw (e, uncordon_node) h
    | inr (n, e) ↦ elim (Bool-cases n.unschedulable) [
      | inl c ↦ unfold uncordon_node in rw (e, uncordon_node, c) (keeps _ s h)
      | inr c ↦ unfold uncordon_node in rw (e, uncordon_node, c) h
    ]
  ]

  unprotect_node-keeps : (k : String) (s : S) → Q s → Q (unprotect_node api k s)
  unfolding unprotect_node
  unprotect_node-keeps k s h =
      let h' = remove_annotation-keeps k s h in
      keeps_if Q (remove_annotation api k s).0 _ _ (uncordon_node-keeps k _ h') h'

  pub remove_protection_from_nodes-keeps :
      (schedule : List (List NodeInfo) → List (List NodeInfo)) (az : String) (store : NodeStore)
      (s : S)
      → Q s
      → Q (remove_protection_from_nodes api schedule az store s).1
  unfolding remove_protection_from_nodes
  remove_protection_from_nodes-keeps = in_batches-keeps (unprotect_batch api) (λ b s h.
      unfold unprotect_batch in for_each_node-keeps (unprotect_node api) unprotect_node-keeps b s h)

  taint_node-keeps : (az k : String) (s : S) → Q s → Q (taint_node api az k s)
  taint_node-keeps az k s h = elim (Option-cases (api.get k s)) [
    | inl e ↦ unfold taint_node in rw (e, taint_node) h
    | inr (n, e) ↦
        unfold taint_node in
        rw (e, taint_node) (keeps_if Q (has_taint n.taints) _ _ h (keeps _ s h))
  ]

  untaint_node-keeps : (k : String) (s : S) → Q s → Q (untaint_node api k s)
  untaint_node-keeps k s h = elim (Option-cases (api.get k s)) [
    | inl e ↦ unfold untaint_node in rw (e, untaint_node) h
    | inr (n, e) ↦
        unfold untaint_node in
        rw (e, untaint_node)
          (keeps_if Q (nat_eq (length (other_taints n.taints)) (length n.taints)) _ _ h
            (keeps _ s h))
  ]

  pub taint_nodes_in_az-keeps :
      (az : String) (store : NodeStore) (s : S) → Q s → Q (taint_nodes_in_az api az store s)
  unfolding taint_nodes_in_az
  taint_nodes_in_az-keeps az store = for_each_node-keeps (taint_node api az) (taint_node-keeps az) _

  pub remove_taint_from_nodes-keeps :
      (az : String) (store : NodeStore) (s : S) → Q s → Q (remove_taint_from_nodes api az store s)
  unfolding remove_taint_from_nodes
  remove_taint_from_nodes-keeps az store =
      for_each_node-keeps (untaint_node api) untaint_node-keeps _
