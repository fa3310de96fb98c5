-- ===== src/Nodes/Partial.antt =====
-- What `AnnotateAndCordonNodes` guarantees when any of its calls to the API may fail.
use mathlib.Core.Option
use mathlib.Core.List.{Perm, flatten}
use sample_arc_autoshift_kar.Base.{
  String, Bool, true, false, not, ◌&&◌, ◌||◌, Option, none, some, List, [], ◌∷◌, ◌==◌, eq_iff,
  if◌then◌else◌, ◌≡◌, ◌⊎◌, refl, ◌∙◌, ap, arith, Bool-cases, Option-cases, inl, inr,
}
use sample_arc_autoshift_kar.Store.{NodeInfo, NodeStore, get_nodes_by_az}
use sample_arc_autoshift_kar.Store.Validity.{IsValid}
use sample_arc_autoshift_kar.Batch.{batches, run_batches, batch_processor}
use sample_arc_autoshift_kar.Batch.Partition.{flatten-batches}
use sample_arc_autoshift_kar.Nodes.Api.{Node, NodeApi, IsNodeApi}
use sample_arc_autoshift_kar.Nodes.{
  with_annotation, for_each_node, in_batches, annotate_node, cordon_node, protect_node,
  protect_batch, annotate_and_cordon_nodes,
}
use sample_arc_autoshift_kar.Nodes.Visits.{
  visits, visits-append, visits-perm, is_tracked, visits-get_nodes_by_az,
}
use sample_arc_autoshift_kar.Nodes.Protection.{protected, protected-protected, insert-insert}

-- How far the protection of a node may have come: not at all for a node that is not visited; else
-- not at all, to the annotation, or to the end.
abbrev pub Protects : Bool → Option Node → Option Node → Type 0
Protects false o o' = o' ≡ o
Protects true o o' =
    (o' ≡ o) ⊎ ((o' ≡ Option.map with_annotation o) ⊎ (o' ≡ Option.map protected o))

with_annotation-with_annotation :
    (n : Node) → with_annotation (with_annotation n) ≡ with_annotation n
unfolding with_annotation
with_annotation-with_annotation n = rw insert-insert

with_annotation-protected : (n : Node) → with_annotation (protected n) ≡ protected n
unfolding protected
with_annotation-protected n = rw insert-insert

protected-with_annotation : (n : Node) → protected (with_annotation n) ≡ protected n
unfolding protected
protected-with_annotation n = rw insert-insert

map_eq :
    (f g h : Node → Node)
    → ((n : Node) → f (g n) ≡ h n)
    → (o : Option Node) → Option.map f (Option.map g o) ≡ Option.map h o
map_eq f g h e none = refl
map_eq f g h e (some n) = ap some (e n)

Protects-trans :
    (b c : Bool) (x y z : Option Node) → Protects b x y → Protects c y z → Protects (b || c) x z
Protects-trans true true x y z p q = ground (
  arith,
  map_eq with_annotation with_annotation with_annotation with_annotation-with_annotation x,
  map_eq with_annotation protected protected with_annotation-protected x,
  map_eq protected with_annotation protected protected-with_annotation x,
  map_eq protected protected protected protected-protected x,
)
Protects-trans true false x y z p q = ground arith
Protects-trans false true x y z p q = ground arith
Protects-trans false false x y z p q = q ∙ p

cordoned : Node → Node
cordoned n = record n { unschedulable = true }

module _ {S : Type 0} {api : NodeApi S} {node_at : String → S → Option Node}
    (laws : IsNodeApi api node_at) where
  -- An update of a node that was read either writes the change or fails and writes nothing.
  update_effect :
      (f : Node → Node) (k j : String) (s : S) (n : Node)
      → api.get k s ≡ some n
      → (f n).name ≡ n.name
      → ((api.update (f n) s).0 ≡ true)
          × (node_at j (api.update (f n) s).1
              ≡ (if k == j then Option.map f (node_at j s) else node_at j s))
        ⊎ ((api.update (f n) s).0 ≡ false) × (node_at j (api.update (f n) s).1 ≡ node_at j s)
  update_effect f k j s n e m =
      let r = laws.get_reads k s n e in
      ground (arith, laws.update_writes (f n) j s, r, laws.named k s n r, eq_iff k j)

  annotate_node_effect :
      (k j : String) (s : S)
      → ((annotate_node api k s).0 ≡ true)
          × (node_at j (annotate_node api k s).1
              ≡ (if k == j then Option.map with_annotation (node_at j s) else node_at j s))
        ⊎ ((annotate_node api k s).0 ≡ false) × (node_at j (annotate_node api k s).1 ≡ node_at j s)
  unfolding annotate_node
  annotate_node_effect k j s = elim (Option-cases (api.get k s)) [
    | inl e ↦ rw (e, annotate_node) (inr (refl, refl))
    | inr (n, e) ↦ rw (e, annotate_node) (update_effect with_annotation k j s n e refl)
  ]

  cordon_node_effect :
      (k j : String) (s : S)
      → (node_at j (cordon_node api k s).1
          ≡ (if k == j then Option.map cordoned (node_at j s) else node_at j s))
        ⊎ (node_at j (cordon_node api k s).1 ≡ node_at j s)
  unfolding cordon_node cordoned
  cordon_node_effect k j s = elim (Option-cases (api.get k s)) [
    | inl e ↦ rw (e, cordon_node) (inr refl)
    | inr (n, e) ↦
        rw (e, cordon_node)
          (elim (update_effect cordoned k j s n e refl) [ inl h ↦ inl h.1 | inr h ↦ inr h.1 ])
  ]

  protect_node-Protects :
      (k j : String) (s : S) → Protects (k == j) (node_at j s) (node_at j (protect_node api k s))
  unfolding protect_node
  protect_node-Protects k j s =
      let s' = (annotate_node api k s).1 in
      let both =
        map_eq cordoned with_annotation protected (λ n. unfold cordoned protected in refl)
          (node_at j s) in
      ground (arith, annotate_node_effect k j s, cordon_node_effect k j s', both)

  -- The body of the loop, which skips a node without a name.
  visit-Protects :
      (k j : String) (s : S)
      → Protects
          (not (j == "") && k == j)
          (node_at j s)
          (node_at j (if k == "" then s else protect_node api k s))
  visit-Protects k j s = elim (Bool-cases (k == "")) [
    | inl e ↦
        let skipped : (not (j == "") && k == j) ≡ false =
          ground (arith, eq_iff k "", eq_iff j "", eq_iff k j) in
        rw (skipped, e) refl
    | inr e ↦
        let same : (not (j == "") && k == j) ≡ (k == j) =
          ground (arith, eq_iff k "", eq_iff j "", eq_iff k j) in
        rw (same, e) (protect_node-Protects k j s)
  ]

  for_each_node-Protects :
      (l : List NodeInfo) (j : String) (s : S)
      → Protects (visits j l) (node_at j s) (node_at j (for_each_node (protect_node api) l s))
  unfolding for_each_node visits
  for_each_node-Protects [] j s = refl
  for_each_node-Protects (info ∷ l) j s =
      let s' : S = if info.node_name == "" then s else protect_node api info.node_name s in
      Protects-trans (not (j == "") && info.node_name == j) (visits j l) _ (node_at j s') _
        (visit-Protects info.node_name j s) (for_each_node-Protects l j s')

  run_batches-Protects :
      (bs : List (List NodeInfo)) (j : String) (s : S)
      → Protects
          (visits j (flatten bs))
          (node_at j s)
          (node_at j (run_batches (protect_batch api) bs s).1)
  unfolding run_batches flatten visits protect_batch
  run_batches-Protects [] j s = refl
  run_batches-Protects (b ∷ bs) j s =
      let s' : S = for_each_node (protect_node api) b s in
      rw (visits-append j b (flatten bs)) (
        Protects-trans (visits j b) (visits j (flatten bs)) _ (node_at j s') _
          (for_each_node-Protects b j s) (run_batches-Protects bs j s'))

  module _ (schedule : List (List NodeInfo) → List (List NodeInfo))
      (perm : (bs : List (List NodeInfo)) → Perm (schedule bs) bs) where
    batch_processor-Protects :
        (l : List NodeInfo) (j : String) (s : S)
        → Protects
            (visits j l)
            (node_at j s)
            (node_at j (batch_processor (protect_batch api) schedule l s).1)
    unfolding batch_processor
    batch_processor-Protects [] j s = unfold visits in refl
    batch_processor-Protects (x ∷ xs) j s =
        let bs = batches (x ∷ xs) in
        let same : visits j (flatten (schedule bs)) ≡ visits j (x ∷ xs) =
          visits-perm j (perm bs) ∙ ap (visits j) (flatten-batches (x ∷ xs)) in
        rw same at (run_batches-Protects (schedule bs) j s)

    annotate_and_cordon-Protects :
        (l : List NodeInfo) (az : String) (store : NodeStore) (j : String) (s : S)
        → get_nodes_by_az az store ≡ l
        → Protects
            (visits j l)
            (node_at j s)
            (node_at j (annotate_and_cordon_nodes api schedule az store s).1)
    unfolding annotate_and_cordon_nodes in_batches
    annotate_and_cordon-Protects [] az store j s e =
        rw (e, annotate_and_cordon_nodes, in_batches) (unfold visits in refl)
    annotate_and_cordon-Protects (x ∷ xs) az store j s e =
        rw (e, annotate_and_cordon_nodes, in_batches) (batch_processor-Protects (x ∷ xs) j s)

    -- Whatever calls to the API fail, and whatever the order of the batches: a node that is not
    -- tracked in the zone stays as it was, and one that is stays as it was, or gets the annotation,
    -- or the annotation and the cordon. The node store is valid.
    pub annotate_and_cordon_nodes-Protects :
        (az : String) (store : NodeStore) (j : String) (s : S)
        → IsValid store
        → Protects
            (is_tracked az store j)
            (node_at j s)
            (node_at j (annotate_and_cordon_nodes api schedule az store s).1)
    annotate_and_cordon_nodes-Protects az store j s v =
        rw (visits-get_nodes_by_az az j store v) at
          (annotate_and_cordon-Protects (get_nodes_by_az az store) az store j s refl)
