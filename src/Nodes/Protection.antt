-- ===== src/Nodes/Protection.antt =====
-- The do-not-disrupt feature: the annotation and the cordon, put on and taken off.
use mathlib.Core.Option
use sample_arc_autoshift_kar.Base.{
  String, true, false, Option, none, some, [], ◌∷◌, ◌==◌, eq_iff, eq_refl, if◌then◌else◌, ◌≡◌, refl,
  ap, arith, Option-cases, inl, inr,
}
use sample_arc_autoshift_kar.Base.Dict.{Dict, lookup, insert, delete}
use sample_arc_autoshift_kar.Nodes.Api.{Node, NodeApi, IsNodeApi, IsReliable}
use sample_arc_autoshift_kar.Nodes.{
  do_not_disrupt, with_annotation, annotate_node, cordon_node, drop_annotation, remove_annotation,
  uncordon_node, protect_node, unprotect_node,
}
use sample_arc_autoshift_kar.Nodes.Visits.{Visits}

-- A node with the annotation and the cordon.
unfoldable pub protected : Node → Node
unfolding with_annotation
protected n = record (with_annotation n) { unschedulable = true }

-- A node without either. A missing annotation map stays missing.
unfoldable pub unprotected : Node → Node
unprotected n = record n {
  annotations = Option.map (delete do_not_disrupt) n.annotations;
  unschedulable = false;
}

pub insert-insert : (k v : String) (m : Dict String) → insert k v (insert k v m) ≡ insert k v m
unfolding insert
insert-insert k v [] = rw eq_refl
insert-insert k v ((j, w) ∷ m) = ground (arith, eq_iff j k, eq_iff k k, insert-insert k v m)

delete-delete : (k : String) (m : Dict String) → delete k (delete k m) ≡ delete k m
unfolding delete
delete-delete k [] = refl
delete-delete k ((j, w) ∷ m) = ground (arith, delete-delete k m)

pub delete-eq_of_absent : (k : String) (m : Dict String) → lookup k m ≡ none → delete k m ≡ m
unfolding lookup delete
delete-eq_of_absent k [] h = refl
delete-eq_of_absent k ((i, w) ∷ m) h = ground (arith, delete-eq_of_absent k m)

pub protected-protected : (n : Node) → protected (protected n) ≡ protected n
unfolding protected
protected-protected n = rw insert-insert

map-delete-delete :
    (k : String) (o : Option (Dict String))
    → Option.map (delete k) (Option.map (delete k) o) ≡ Option.map (delete k) o
map-delete-delete k none = refl
map-delete-delete k (some m) = ap some (delete-delete k m)

pub unprotected-unprotected : (n : Node) → unprotected (unprotected n) ≡ unprotected n
unfolding unprotected
unprotected-unprotected n = rw map-delete-delete

-- A node without the annotation.
abbrev stripped : Node → Node
stripped n = record n { annotations = Option.map (delete do_not_disrupt) n.annotations }

stripped_absent :
    (n : Node) (m : Dict String)
    → n.annotations ≡ some m
    → lookup do_not_disrupt m ≡ none
    → stripped n ≡ n
stripped_absent n m e h = ground (arith, delete-eq_of_absent do_not_disrupt m h)

module _ {S : Type 0} {api : NodeApi S} {node_at : String → S → Option Node}
    (laws : IsNodeApi api node_at) (reliable : IsReliable api node_at) where
  annotate_node-some :
      (k j : String) (s : S) (n : Node)
      → node_at k s ≡ some n
      → ((annotate_node api k s).0 ≡ true)
        × (node_at j (annotate_node api k s).1
            ≡ (if k == j then some (with_annotation n) else node_at j s))
  unfolding annotate_node
  annotate_node-some k j s n e =
      let m = with_annotation n in
      (
        rw (reliable.get_ok k s, e, annotate_node) (reliable.update_ok m s),
        rw (reliable.get_ok k s, e, annotate_node)
            (ground (arith, reliable.update_ok m s, laws.update_writes m j s, laws.named k s n e)),
      )

  cordon_node-some :
      (k j : String) (s : S) (n : Node)
      → node_at k s ≡ some n
      → node_at j (cordon_node api k s).1
        ≡ (if k == j then some (record n { unschedulable = true }) else node_at j s)
  unfolding cordon_node
  cordon_node-some k j s n e =
      let m : Node = record n { unschedulable = true } in
      rw (reliable.get_ok k s, e, cordon_node)
        (ground (arith, reliable.update_ok m s, laws.update_writes m j s, laws.named k s n e))

  pub protect_node-Visits : Visits node_at protected (protect_node api)
  unfolding protect_node protected
  protect_node-Visits k j s = elim (Option-cases (node_at k s)) [
    | inl e ↦ unfold annotate_node in ground (arith, reliable.get_ok k s, eq_iff k j)
    | inr (n, e) ↦
        let s' : S = (annotate_node api k s).1 in
        ground (
          arith,
          e,
          eq_iff k j,
          eq_refl k,
          annotate_node-some k j s n e,
          annotate_node-some k k s n e,
          cordon_node-some k j s' (with_annotation n),
        )
  ]

  drop_annotation-some :
      (k j : String) (s : S) (n : Node) (m : Dict String)
      → node_at k s ≡ some n
      → n.annotations ≡ some m
      → ((drop_annotation api n m s).0 ≡ true)
        × (node_at j (drop_annotation api n m s).1
            ≡ (if k == j then some (stripped n) else node_at j s))
  unfolding drop_annotation
  drop_annotation-some k j s n m e a = elim (Option-cases (lookup do_not_disrupt m)) [
    | inl h ↦ rw (h, drop_annotation) ((refl, ground (arith, stripped_absent n m a h, eq_iff k j)))
    | inr (v, h) ↦
        let n' : Node = record n { annotations = some (delete do_not_disrupt m) } in
        rw (h, drop_annotation)
          ((
            reliable.update_ok n' s,
            ground (arith, reliable.update_ok n' s, laws.update_writes n' j s, laws.named k s n e),
          ))
  ]

  remove_annotation-some :
      (k j : String) (s : S) (n : Node)
      → node_at k s ≡ some n
      → ((remove_annotation api k s).0 ≡ true)
        × (node_at j (remove_annotation api k s).1
            ≡ (if k == j then some (stripped n) else node_at j s))
  unfolding remove_annotation
  remove_annotation-some k j s n e = elim (Option-cases n.annotations) [
    | inl a ↦ (
      ground (arith, reliable.get_ok k s, e, a),
      ground (arith, reliable.get_ok k s, e, a, eq_iff k j),
    )
    | inr (m, a) ↦
        let drop = drop_annotation-some k j s n m e a in
        (
          ground (arith, reliable.get_ok k s, e, a, drop.0),
          ground (arith, reliable.get_ok k s, e, a, drop.1),
        )
  ]

  uncordon_node-some :
      (k j : String) (s : S) (n : Node)
      → node_at k s ≡ some n
      → node_at j (uncordon_node api k s).1
        ≡ (if k == j then some (record n { unschedulable = false }) else node_at j s)
  unfolding uncordon_node
  uncordon_node-some k j s n e =
      let m : Node = record n { unschedulable = false } in
      rw (reliable.get_ok k s, e, uncordon_node)
        (ground
          (arith, reliable.update_ok m s, laws.update_writes m j s, laws.named k s n e, eq_iff k j))

  pub unprotect_node-Visits : Visits node_at unprotected (unprotect_node api)
  unfolding unprotect_node unprotected
  unprotect_node-Visits k j s = elim (Option-cases (node_at k s)) [
    | inl e ↦ unfold remove_annotation in ground (arith, reliable.get_ok k s, eq_iff k j)
    | inr (n, e) ↦
        let s' : S = (remove_annotation api k s).1 in
        ground (
          arith,
          e,
          eq_iff k j,
          eq_refl k,
          remove_annotation-some k j s n e,
          remove_annotation-some k k s n e,
          uncordon_node-some k j s' (stripped n),
        )
  ]
