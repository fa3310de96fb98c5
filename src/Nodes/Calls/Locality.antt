-- ===== src/Nodes/Calls/Locality.antt =====
-- A goroutine reads and writes the nodes of its own batch alone.
use sample_arc_autoshift_kar.Base.{
  String, Bool, true, false, Option, none, some, List, [], ◌∷◌, ◌==◌, eq_iff, eq_refl, ◌≡◌, refl,
  sym, ◌∙◌, if◌then◌else◌, arith, Bool-cases, Option-cases, inl, inr,
}
use sample_arc_autoshift_kar.Base.Dict.{lookup}
use sample_arc_autoshift_kar.Store.{NodeInfo}
use sample_arc_autoshift_kar.Nodes.Api.{Node, NodeApi, IsNodeApi, IsReliable}
use sample_arc_autoshift_kar.Nodes.{
  do_not_disrupt, with_annotation, annotate_node, cordon_node, drop_annotation, remove_annotation,
  uncordon_node, protect_node, unprotect_node, for_each_node,
}
use sample_arc_autoshift_kar.Nodes.Visits.{visits}
use sample_arc_autoshift_kar.Nodes.Calls.{
  Calls, done, get, update, annotate_calls, cordon_calls, remove_annotation_calls, uncordon_calls,
  protect_calls, unprotect_calls, batch_calls, finish, Call, reads, writes, annotate_read,
  cordon_read, remove_read, uncordon_read, protect_next, unprotect_next,
}

-- All nodes that the calls name are in `P`, if the API answers with the node that was asked for.
abbrev pub Within : (String → Type 0) → Calls → Type 0
Within P done = Unit
Within P (get k f) =
    P k × ((o : Option Node) → ((n : Node) → o ≡ some n → n.name ≡ k) → Within P (f o))
Within P (update n f) = P n.name × ((b : Bool) → Within P (f b))

module _ (P : String → Type 0) (k : String) (p : P k) where
  -- What follows a `Get` of `k`.
  abbrev Follows : (Option Node → Calls) → Type 0
  Follows f = (o : Option Node) → ((n : Node) → o ≡ some n → n.name ≡ k) → Within P (f o)

  name-P : (n : Node) → ((n' : Node) → some n ≡ some n' → n'.name ≡ k) → P n.name
  name-P n named = rw (named n refl) p

  annotate_read-Within :
      (rest : Bool → Calls) → ((b : Bool) → Within P (rest b)) → Follows (annotate_read rest)
  annotate_read-Within rest w none named = w false
  annotate_read-Within rest w (some n) named = unfold with_annotation in (name-P n named, w)

  cordon_read-Within : (rest : Calls) → Within P rest → Follows (cordon_read rest)
  cordon_read-Within rest w none named = w
  cordon_read-Within rest w (some n) named = (name-P n named, λ b. w)

  remove_read-Within :
      (rest : Bool → Calls) → ((b : Bool) → Within P (rest b)) → Follows (remove_read rest)
  remove_read-Within rest w none named = w false
  remove_read-Within rest w (some n) named = elim (Option-cases n.annotations) [
    | inl e ↦ rw e (w true)
    | inr (m, e) ↦ elim (Option-cases (lookup do_not_disrupt m)) [
      | inl a ↦ rw e (rw a (w true))
      | inr (v, a) ↦ rw e (rw a ((name-P n named, w)))
    ]
  ]

  uncordon_read-Within : (rest : Calls) → Within P rest → Follows (uncordon_read rest)
  uncordon_read-Within rest w none named = w
  uncordon_read-Within rest w (some n) named = elim (Bool-cases n.unschedulable) [
    | inl e ↦ rw e ((name-P n named, λ b. w))
    | inr e ↦ rw e w
  ]

  pub protect_calls-Within : (rest : Calls) → Within P rest → Within P (protect_calls k rest)
  unfolding protect_calls
  protect_calls-Within rest w = (p, annotate_read-Within (protect_next k rest) next)
    where
      next : (b : Bool) → Within P (protect_next k rest b)
      next false = w
      next true = (p, cordon_read-Within rest w)

  pub unprotect_calls-Within : (rest : Calls) → Within P rest → Within P (unprotect_calls k rest)
  unfolding unprotect_calls
  unprotect_calls-Within rest w = (p, remove_read-Within (unprotect_next k rest) next)
    where
      next : (b : Bool) → Within P (unprotect_next k rest b)
      next false = w
      next true = (p, uncordon_read-Within rest w)

pub batch_calls-Within :
    (P : String → Type 0) (body : String → Calls → Calls)
    → ((k : String) → P k → (rest : Calls) → Within P rest → Within P (body k rest))
    → (b : List NodeInfo) → ((k : String) → visits k b ≡ true → P k)
    → Within P (batch_calls body b)
unfolding batch_calls visits
batch_calls-Within P body step [] own = tt
batch_calls-Within P body step (info ∷ b) own =
    let rest = batch_calls-Within P body step b (λ k h. own k (ground (arith, h))) in
    elim (Bool-cases (info.node_name == "")) [
      | inl e ↦ rw e rest
      | inr e ↦ rw e (
          step info.node_name (own info.node_name (ground (arith, e, eq_refl info.node_name))) _
            rest)
    ]

module _ {S : Type 0} (api : NodeApi S) where
  finish-annotate_calls :
      (k : String) (rest : Bool → Calls) (s : S)
      → finish api (annotate_calls k rest) s
        ≡ finish api (rest (annotate_node api k s).0) (annotate_node api k s).1
  unfolding finish annotate_calls annotate_node
  finish-annotate_calls k rest s = go (api.get k s) refl
    where
      go :
          (o : Option Node)
          → api.get k s ≡ o
          → finish api (annotate_read rest o) s
            ≡ finish api (rest (annotate_node api k s).0) (annotate_node api k s).1
      go none e = rw (e, annotate_node)
      go (some n) e = rw (e, annotate_node)

  finish-cordon_calls :
      (k : String) (rest : Calls) (s : S)
      → finish api (cordon_calls k rest) s ≡ finish api rest (cordon_node api k s).1
  unfolding finish cordon_calls cordon_node
  finish-cordon_calls k rest s = go (api.get k s) refl
    where
      go :
          (o : Option Node)
          → api.get k s ≡ o
          → finish api (cordon_read rest o) s ≡ finish api rest (cordon_node api k s).1
      go none e = rw (e, cordon_node)
      go (some n) e = rw (e, cordon_node)

  finish-remove_annotation_calls :
      (k : String) (rest : Bool → Calls) (s : S)
      → finish api (remove_annotation_calls k rest) s
        ≡ finish api (rest (remove_annotation api k s).0) (remove_annotation api k s).1
  unfolding finish remove_annotation_calls remove_annotation drop_annotation
  finish-remove_annotation_calls k rest s = go (api.get k s) refl
    where
      go :
          (o : Option Node)
          → api.get k s ≡ o
          → finish api (remove_read rest o) s
            ≡ finish api (rest (remove_annotation api k s).0) (remove_annotation api k s).1
      go none e = rw (e, remove_annotation)
      go (some n) e = elim (Option-cases n.annotations) [
        | inl a ↦ rw (e, remove_annotation, a)
        | inr (m, a) ↦ elim (Option-cases (lookup do_not_disrupt m)) [
          | inl l ↦ rw (e, remove_annotation, a, drop_annotation, l)
          | inr (v, l) ↦ rw (e, remove_annotation, a, drop_annotation, l)
        ]
      ]

  finish-uncordon_calls :
      (k : String) (rest : Calls) (s : S)
      → finish api (uncordon_calls k rest) s ≡ finish api rest (uncordon_node api k s).1
  unfolding finish uncordon_calls uncordon_node
  finish-uncordon_calls k rest s = go (api.get k s) refl
    where
      go :
          (o : Option Node)
          → api.get k s ≡ o
          → finish api (uncordon_read rest o) s ≡ finish api rest (uncordon_node api k s).1
      go none e = rw (e, uncordon_node)
      go (some n) e = elim (Bool-cases n.unschedulable) [
        | inl h ↦ rw (e, uncordon_node, h)
        | inr h ↦ rw (e, uncordon_node, h)
      ]

  pub finish-protect_calls :
      (k : String) (rest : Calls) (s : S)
      → finish api (protect_calls k rest) s ≡ finish api rest (protect_node api k s)
  unfolding protect_calls protect_node
  finish-protect_calls k rest s =
      finish-annotate_calls k (protect_next k rest) s
      ∙ next (annotate_node api k s).0 (annotate_node api k s).1
    where
      next :
          (b : Bool) (s' : S)
          → finish api (protect_next k rest b) s'
            ≡ finish api rest (if b then (cordon_node api k s').1 else s')
      next false s' = refl
      next true s' = finish-cordon_calls k rest s'

  pub finish-unprotect_calls :
      (k : String) (rest : Calls) (s : S)
      → finish api (unprotect_calls k rest) s ≡ finish api rest (unprotect_node api k s)
  unfolding unprotect_calls unprotect_node
  finish-unprotect_calls k rest s =
      finish-remove_annotation_calls k (unprotect_next k rest) s
      ∙ next (remove_annotation api k s).0 (remove_annotation api k s).1
    where
      next :
          (b : Bool) (s' : S)
          → finish api (unprotect_next k rest b) s'
            ≡ finish api rest (if b then (uncordon_node api k s').1 else s')
      next false s' = refl
      next true s' = finish-uncordon_calls k rest s'

  -- The calls of a batch, made in a row, are the loop over the batch.
  pub finish-batch_calls :
      (body : String → Calls → Calls) (visit : String → S → S)
      → ((k : String) (rest : Calls) (s : S)
          → finish api (body k rest) s ≡ finish api rest (visit k s))
      → (b : List NodeInfo) (s : S) → finish api (batch_calls body b) s ≡ for_each_node visit b s
  unfolding finish batch_calls for_each_node
  finish-batch_calls body visit step [] s = refl
  finish-batch_calls body visit step (info ∷ b) s = elim (Bool-cases (info.node_name == "")) [
    | inl e ↦ rw e (finish-batch_calls body visit step b s)
    | inr e ↦ rw e (
        step info.node_name (batch_calls body b) s
        ∙ finish-batch_calls body visit step b (visit info.node_name s))
  ]

module _ {S : Type 0} {api : NodeApi S} {node_at : String → S → Option Node}
    (laws : IsNodeApi api node_at) (reliable : IsReliable api node_at) (P : String → Type 0) where
  -- Two clusters look alike to a goroutine.
  abbrev Agree : S → S → Type 0
  Agree s t = (k : String) → P k → node_at k s ≡ node_at k t

  node_at-update :
      (n : Node) (k : String) (s : S)
      → node_at k (api.update n s).1 ≡ (if n.name == k then some n else node_at k s)
  node_at-update n k s = ground (arith, laws.update_writes n k s, reliable.update_ok n s)

  update-Agree : (n : Node) (s t : S) → Agree s t → Agree (api.update n s).1 (api.update n t).1
  update-Agree n s t h k p = ground (arith, node_at-update n k s, node_at-update n k t, h k p)

  get-named : (k : String) (s : S) (n : Node) → api.get k s ≡ some n → n.name ≡ k
  get-named k s n e = laws.named k s n (laws.get_reads k s n e)

  -- What a goroutine does to its nodes depends on them alone.
  pub finish-Agree :
      (t : Calls) → Within P t → (s s' : S) → Agree s s' → Agree (finish api t s) (finish api t s')
  unfolding finish
  finish-Agree done w s s' h = h
  finish-Agree (get k f) w s s' h =
      let same : api.get k s ≡ api.get k s' =
        reliable.get_ok k s ∙ h k w.0 ∙ sym (reliable.get_ok k s') in
      rw same (finish-Agree (f (api.get k s')) (w.1 (api.get k s') (get-named k s')) s s' h)
  finish-Agree (update n f) w s s' h =
      rw (reliable.update_ok n s, reliable.update_ok n s')
        (finish-Agree (f true) (w.1 true) _ _ (update-Agree n s s' h))

  pub Call-Within :
      {t : Calls} {s : S} {t' : Calls} {s' : S} → Call api t s t' s' → Within P t → Within P t'
  Call-Within {s} (reads {k}) w = w.1 _ (get-named k s)
  Call-Within (writes) w = w.1 _

  -- A call leaves the nodes of the other goroutines as they are.
  pub Call-keeps :
      {t : Calls} {s : S} {t' : Calls} {s' : S}
      → Call api t s t' s'
      → Within P t
      → (k : String) → ¬ P k
      → node_at k s' ≡ node_at k s
  Call-keeps reads w k other = refl
  Call-keeps {s} (writes {n}) w k other = elim (Bool-cases (n.name == k)) [
    | inl e ↦ absurd (other (rw (← (eq_iff n.name k).0 e) w.0))
    | inr e ↦ ground (arith, node_at-update n k s, e)
  ]

  pub Call-finish :
      {t : Calls} {s : S} {t' : Calls} {s' : S}
      → Call api t s t' s'
      → finish api t' s' ≡ finish api t s
  unfolding finish
  Call-finish reads = refl
  Call-finish writes = refl
