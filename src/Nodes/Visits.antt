-- ===== src/Nodes/Visits.antt =====
-- What a loop over the nodes of a zone does to the cluster, from what it does to one node.
use mathlib.Core.Option
use mathlib.Core.List.{Perm, Permᴰ, flatten}
use mathlib.Core.Logic.{∥∥₁_elim}
use sample_arc_autoshift_kar.Base.{
  String, Bool, true, false, not, ◌&&◌, ◌||◌, Option, none, some, List, [], ◌∷◌, ◌++◌, ◌==◌, eq_iff,
  if◌then◌else◌, ◌≡◌, refl, ◌∙◌, ap, arith,
}
use sample_arc_autoshift_kar.Base.Dict.{lookup}
use sample_arc_autoshift_kar.Store.{NodeInfo, NodeStore, get_nodes_by_az}
use sample_arc_autoshift_kar.Store.Validity.{IsValid}
use sample_arc_autoshift_kar.Store.Queries.{find_info, in_zone, find_info-get_nodes_by_az}
use sample_arc_autoshift_kar.Batch.{batches, run_batches, batch_processor}
use sample_arc_autoshift_kar.Batch.Partition.{flatten-batches}
use sample_arc_autoshift_kar.Nodes.Api.{Node}
use sample_arc_autoshift_kar.Nodes.{ControllerError, no_nodes, for_each_node, in_batches}

-- Whether the loops visit a node of that name: those with an empty name are skipped.
unfoldable pub visits : String → List NodeInfo → Bool
visits j [] = false
visits j (info ∷ l) = not (j == "") && info.node_name == j || visits j l

-- Whether the node is tracked in the zone (in any zone, if `az` is empty).
abbrev pub is_tracked : String → NodeStore → String → Bool
is_tracked az store j =
    not (j == "") && (elim (lookup j store.nodes) [ none ↦ false | some info ↦ in_zone az info ])

pub visits-find_info :
    (j : String) (l : List NodeInfo)
    → visits j l ≡ (not (j == "") && (elim (find_info j l) [ none ↦ false | some _ ↦ true ]))
unfolding visits find_info
visits-find_info j [] = ground arith
visits-find_info j (info ∷ l) = ground (arith, visits-find_info j l)

pub visits-get_nodes_by_az :
    (az j : String) (store : NodeStore)
    → IsValid store
    → visits j (get_nodes_by_az az store) ≡ is_tracked az store j
visits-get_nodes_by_az az j store v =
    rw (visits-find_info j (get_nodes_by_az az store), find_info-get_nodes_by_az az j store v)
      (ground arith)

pub visits-append :
    (j : String) (l m : List NodeInfo) → visits j (l ++ m) ≡ (visits j l || visits j m)
unfolding visits
visits-append j [] m = ground arith
visits-append j (x ∷ l) m = ground (arith, visits-append j l m)

visits-permᴰ :
    (j : String) {l m : List (List NodeInfo)}
    → Permᴰ l m
    → visits j (flatten l) ≡ visits j (flatten m)
unfolding visits flatten
visits-permᴰ j Permᴰ.nil = refl
visits-permᴰ j (Permᴰ.cons {a} {b} {l₁ = l} {l₂ = m} e p) =
    ground (arith, visits-permᴰ j p, visits-append j a (flatten l), visits-append j b (flatten m))
visits-permᴰ j (Permᴰ.swap {a} {b} {a'} {b'} {l} e e') =
    let x = flatten l in
    ground (
      arith,
      ap (visits j) e,
      ap (visits j) e',
      visits-append j a (b ++ x),
      visits-append j b x,
      visits-append j a' (b' ++ x),
      visits-append j b' x,
    )
visits-permᴰ j (Permᴰ.trans p q) = visits-permᴰ j p ∙ visits-permᴰ j q

pub visits-perm :
    (j : String) {l m : List (List NodeInfo)}
    → Perm l m
    → visits j (flatten l) ≡ visits j (flatten m)
visits-perm j p = ∥∥₁_elim p (hlevel) (visits-permᴰ j)

module _ {S : Type 0} (node_at : String → S → Option Node) (f : Node → Node)
    (visit : String → S → S) where
  -- Visiting `k` applies `f` to the node of that name, and to no other.
  abbrev pub Visits : Type 0
  Visits =
      (k j : String) (s : S)
      → node_at j (visit k s) ≡ (if k == j then Option.map f (node_at j s) else node_at j s)

  module _ (idem : (n : Node) → f (f n) ≡ f n) (effect : Visits) where
    map_idem : (o : Option Node) → Option.map f (Option.map f o) ≡ Option.map f o
    map_idem none = refl
    map_idem (some n) = ap some (idem n)

    pub for_each_node-Visits :
        (l : List NodeInfo) (j : String) (s : S)
        → node_at j (for_each_node visit l s)
          ≡ (if visits j l then Option.map f (node_at j s) else node_at j s)
    unfolding for_each_node visits
    for_each_node-Visits [] j s = refl
    for_each_node-Visits (info ∷ l) j s =
        rw (for_each_node-Visits l j (if info.node_name == "" then s else visit info.node_name s)) (
          ground (
            arith,
            effect info.node_name j s,
            eq_iff info.node_name "",
            eq_iff j "",
            eq_iff info.node_name j,
            map_idem (node_at j s),
          ))

    -- `processFn` of a batch, which reports no error.
    abbrev process : List NodeInfo → S → Option ControllerError × S
    process batch s = (none, for_each_node visit batch s)

    run_batches-Visits :
        (bs : List (List NodeInfo)) (j : String) (s : S)
        → ((run_batches process bs s).0 ≡ none)
          × (node_at j (run_batches process bs s).1
              ≡ (if visits j (flatten bs) then Option.map f (node_at j s) else node_at j s))
    unfolding run_batches flatten visits
    run_batches-Visits [] j s = (refl, refl)
    run_batches-Visits (b ∷ bs) j s =
        let s' : S = for_each_node visit b s in
        let ih = run_batches-Visits bs j s' in
        (
          ih.0,
          ih.1
              ∙ ground (
                arith,
                for_each_node-Visits b j s,
                visits-append j b (flatten bs),
                map_idem (node_at j s),
              ),
        )

    module _ (schedule : List (List NodeInfo) → List (List NodeInfo))
        (perm : (bs : List (List NodeInfo)) → Perm (schedule bs) bs) where
      batch_processor-Visits :
          (l : List NodeInfo) (j : String) (s : S)
          → ((batch_processor process schedule l s).0 ≡ none)
            × (node_at j (batch_processor process schedule l s).1
                ≡ (if visits j l then Option.map f (node_at j s) else node_at j s))
      unfolding batch_processor
      batch_processor-Visits [] j s = unfold visits in (refl, refl)
      batch_processor-Visits (x ∷ xs) j s =
          let bs = batches (x ∷ xs) in
          let r = run_batches-Visits (schedule bs) j s in
          (
            r.0,
            r.1 ∙ ground (arith, visits-perm j (perm bs), ap (visits j) (flatten-batches (x ∷ xs))),
          )

      in_batches-visits :
          (l : List NodeInfo) (az : String) (store : NodeStore) (j : String) (s : S)
          → get_nodes_by_az az store ≡ l
          → ((in_batches process schedule az store s).0
              ≡ (elim l [ [] ↦ some (no_nodes az) | _ ∷ _ ↦ none ]))
            × (node_at j (in_batches process schedule az store s).1
                ≡ (if visits j l then Option.map f (node_at j s) else node_at j s))
      unfolding in_batches
      in_batches-visits [] az store j s e = rw (e, in_batches) (unfold visits in (refl, refl))
      in_batches-visits (x ∷ xs) az store j s e =
          rw (e, in_batches) (batch_processor-Visits (x ∷ xs) j s)

      -- Whatever the order of the batches, exactly the tracked nodes of the zone are changed.
      pub in_batches-Visits :
          (az : String) (store : NodeStore) (j : String) (s : S)
          → IsValid store
          → node_at j (in_batches process schedule az store s).1
            ≡ (if is_tracked az store j then Option.map f (node_at j s) else node_at j s)
      in_batches-Visits az store j s v =
          (in_batches-visits (get_nodes_by_az az store) az store j s refl).1
          ∙ rw (visits-get_nodes_by_az az j store v)
