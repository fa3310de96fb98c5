-- ===== src/Nodes/Calls/Interleaving.antt =====
-- However the calls of the goroutines interleave, they do what the batches do one after the other.
use mathlib.Core.Option
use mathlib.Core.List.{Perm, flatten}
use std.Path.{subst}
use sample_arc_autoshift_kar.Base.{
  ℕ, zero, suc, String, true, false, Option, List, [], ◌∷◌, ◌++◌, eq_iff, ◌≡◌, refl, sym, ap, ◌∙◌,
  if◌then◌else◌, arith, Bool-cases, inl, inr, nat_eq,
}
use sample_arc_autoshift_kar.Store.{NodeInfo, NodeStore, get_nodes_by_az}
use sample_arc_autoshift_kar.Store.Validity.{IsValid}
use sample_arc_autoshift_kar.Store.Queries.{IsUnique, IsUnique-get_nodes_by_az}
use sample_arc_autoshift_kar.Batch.{batches}
use sample_arc_autoshift_kar.Batch.Partition.{flatten-batches}
use sample_arc_autoshift_kar.Nodes.Api.{Node, NodeApi, IsNodeApi, IsReliable}
use sample_arc_autoshift_kar.Nodes.{
  protect_node, unprotect_node, annotate_and_cordon_nodes, remove_protection_from_nodes,
}
use sample_arc_autoshift_kar.Nodes.Visits.{
  visits, visits-append, visits-find_info, visits-get_nodes_by_az, is_tracked, Visits,
  for_each_node-Visits,
}
use sample_arc_autoshift_kar.Nodes.Protection.{
  protected, unprotected, protected-protected, unprotected-unprotected, protect_node-Visits,
  unprotect_node-Visits,
}
use sample_arc_autoshift_kar.Nodes.Shift.{
  node_at-annotate_and_cordon_nodes, node_at-remove_protection_from_nodes,
}
use sample_arc_autoshift_kar.Nodes.Calls.{
  Calls, done, protect_calls, unprotect_calls, batch_of, finish, Running, at, Call, Reach, here,
  next, started,
}
use sample_arc_autoshift_kar.Nodes.Calls.Locality.{
  Within, protect_calls-Within, unprotect_calls-Within, batch_calls-Within, finish-protect_calls,
  finish-unprotect_calls, finish-batch_calls, finish-Agree, Call-Within, Call-keeps, Call-finish,
}

-- The goroutine whose batch has the node.
owner : List (List NodeInfo) → String → ℕ
owner [] k = 0
owner (b ∷ bs) k = if visits k b then 0 else suc (owner bs k)

visits-owner :
    (bs : List (List NodeInfo)) (k : String)
    → visits k (batch_of bs (owner bs k)) ≡ visits k (flatten bs)
unfolding owner batch_of visits flatten
visits-owner [] k = refl
visits-owner (b ∷ bs) k = elim (Bool-cases (visits k b)) [
  | inl e ↦ rw (visits-append k b (flatten bs), e) e
  | inr e ↦ rw (visits-append k b (flatten bs), e) (visits-owner bs k)
]

visits-batch_of :
    (bs : List (List NodeInfo)) (k : String) (i : ℕ)
    → visits k (batch_of bs i) ≡ true
    → visits k (flatten bs) ≡ true
unfolding batch_of visits flatten
visits-batch_of [] k i h = h
visits-batch_of (b ∷ bs) k zero h = rw (visits-append k b (flatten bs), h)
visits-batch_of (b ∷ bs) k (suc i) h =
    rw (visits-append k b (flatten bs), visits-batch_of bs k i h) (ground arith)

visits_once :
    (k : String) (l m : List NodeInfo) → IsUnique (l ++ m) → visits k l ≡ true → visits k m ≡ false
unfolding visits
visits_once k [] m u h = cc
visits_once k (info ∷ l) m u h = ground (
  arith,
  eq_iff info.node_name k,
  u.0,
  visits-find_info k (l ++ m),
  visits-append k l m,
  visits_once k l m u.1,
)

IsUnique-tail : (l m : List NodeInfo) → IsUnique (l ++ m) → IsUnique m
IsUnique-tail [] m u = u
IsUnique-tail (info ∷ l) m u = IsUnique-tail l m u.1

owner_eq :
    (bs : List (List NodeInfo)) (k : String) (i : ℕ)
    → IsUnique (flatten bs)
    → visits k (batch_of bs i) ≡ true
    → owner bs k ≡ i
unfolding owner batch_of visits flatten
owner_eq [] k i u h = cc
owner_eq (b ∷ bs) k zero u h = rw h
owner_eq (b ∷ bs) k (suc i) u h = elim (Bool-cases (visits k b)) [
  | inl e ↦ absurd (cc (visits_once k b (flatten bs) u e, visits-batch_of bs k i h))
  | inr e ↦ rw e (ap suc (owner_eq bs k i (IsUnique-tail b (flatten bs) u) h))
]

module _ {S : Type 0} {api : NodeApi S} {node_at : String → S → Option Node}
    (laws : IsNodeApi api node_at) (reliable : IsReliable api node_at) where
  -- Each goroutine keeps to the nodes that it owns, and what its remaining calls will make of them
  -- is settled.
  record Inv (own : String → ℕ) (fate : String → Option Node) (r : Running S) : Type 0 where
    within : (i : ℕ) → Within (λ k. own k ≡ i) (r.left i)
    settled : (k : String) → node_at k (finish api (r.left (own k)) r.cluster) ≡ fate k

  module _ (own : String → ℕ) (fate : String → Option Node) where
    Call-Inv :
        (r : Running S) (i : ℕ) (t : Calls) (s : S)
        → Call api (r.left i) r.cluster t s
        → Inv own fate r
        → Inv own fate (record { cluster = s; left = at r.left i t })
    Call-Inv r i t s call v = record {
      within = λ j. elim (Bool-cases (nat_eq i j)) [
        | inl e ↦ rw e (
            subst (λ x. Within (λ k. own k ≡ x) t) (ground (arith, e))
              (Call-Within laws reliable (λ k. own k ≡ i) call (v.within i)))
        | inr e ↦ rw e (v.within j)
      ];
      settled = λ k. elim (Bool-cases (nat_eq i (own k))) [
        | inl e ↦
            let p : i ≡ own k = ground (arith, e) in
            rw e (
              ap (node_at k) (Call-finish laws reliable (λ j. own j ≡ i) call)
              ∙ subst (λ x. node_at k (finish api (r.left x) r.cluster) ≡ fate k) (sym p)
                  (v.settled k))
        | inr e ↦ rw e (
            finish-Agree laws reliable (λ j. own j ≡ own k) (r.left (own k)) (v.within (own k)) s
              r.cluster
              (λ j same.
                Call-keeps laws reliable (λ j'. own j' ≡ i) call (v.within i) j
                  (λ mine. absurd (ground (arith, e, same, mine))))
              k refl
            ∙ v.settled k)
      ];
    }

    Reach-Inv : {from r : Running S} → Inv own fate from → Reach api from r → Inv own fate r
    Reach-Inv v here = v
    Reach-Inv v (next i reach call) = Call-Inv _ i _ _ call (Reach-Inv v reach)

  module _ (body : String → Calls → Calls) (visit : String → S → S) (f : Node → Node)
      (local : (P : String → Type 0) (k : String)
        → P k
        → (rest : Calls) → Within P rest
        → Within P (body k rest))
      (alone : (k : String) (rest : Calls) (s : S)
        → finish api (body k rest) s ≡ finish api rest (visit k s))
      (idem : (n : Node) → f (f n) ≡ f n) (effect : Visits node_at f visit) where
    started-Inv :
        (bs : List (List NodeInfo)) (s : S)
        → IsUnique (flatten bs)
        → Inv
            (owner bs)
            (λ k. if visits k (flatten bs) then Option.map f (node_at k s) else node_at k s)
            (started body bs s)
    started-Inv bs s u = record {
      within = λ i.
          batch_calls-Within (λ k. owner bs k ≡ i) body (local (λ k. owner bs k ≡ i))
            (batch_of bs i) (λ k h. owner_eq bs k i u h);
      settled = λ k. rw (
        finish-batch_calls api body visit alone (batch_of bs (owner bs k)) s,
        for_each_node-Visits node_at f visit idem effect (batch_of bs (owner bs k)) k s,
        visits-owner bs k,
      );
    }

    -- The outcome for each node, when the goroutines have made all their calls.
    interleaved :
        (az : String) (store : NodeStore) (s : S) (r : Running S)
        → IsValid store
        → Reach api (started body (batches (get_nodes_by_az az store)) s) r
        → ((i : ℕ) → r.left i ≡ done)
        → (j : String)
        → node_at j r.cluster
          ≡ (if is_tracked az store j then Option.map f (node_at j s) else node_at j s)
    interleaved az store s r v reach over j =
        let l = get_nodes_by_az az store in
        let bs = batches l in
        let all : flatten bs ≡ l = flatten-batches l in
        let u : IsUnique (flatten bs) = rw all (IsUnique-get_nodes_by_az az store v) in
        let fate = λ (k : String).
          if visits k (flatten bs) then Option.map f (node_at k s) else node_at k s in
        let inv = Reach-Inv (owner bs) fate (started-Inv bs s u) reach in
        let last : node_at j (finish api (r.left (owner bs j)) r.cluster) ≡ fate j =
          inv.settled j in
        let last_done : node_at j (finish api done r.cluster) ≡ fate j =
          rw (over (owner bs j)) at last in
        unfold finish in (last_done ∙ rw (all, visits-get_nodes_by_az az j store v))

  module _ (schedule : List (List NodeInfo) → List (List NodeInfo))
      (perm : (bs : List (List NodeInfo)) → Perm (schedule bs) bs) (az : String) (store : NodeStore)
      (valid : IsValid store) (s : S) (r : Running S) where
    -- However the goroutines of `AnnotateAndCordonNodes` interleave their calls to the API: when all
    -- have ended, the cluster holds the nodes that the batches leave one after the other, in any
    -- order of the batches. The API is reliable, and the node store is valid.
    pub interleaved-annotate_and_cordon_nodes :
        Reach api (started protect_calls (batches (get_nodes_by_az az store)) s) r
        → ((i : ℕ) → r.left i ≡ done)
        → (j : String)
        → node_at j r.cluster ≡ node_at j (annotate_and_cordon_nodes api schedule az store s).1
    interleaved-annotate_and_cordon_nodes reach over j =
        interleaved protect_calls (protect_node api) protected protect_calls-Within
          (finish-protect_calls api) protected-protected (protect_node-Visits laws reliable) az
          store s r valid reach over j
        ∙ sym (node_at-annotate_and_cordon_nodes laws reliable schedule perm az store valid j s)

    -- The same of the goroutines of `RemoveProtectionFromNodes`, whose calls leave the nodes as its
    -- batches do one after the other. The API is reliable, and the node store is valid.
    pub interleaved-remove_protection_from_nodes :
        Reach api (started unprotect_calls (batches (get_nodes_by_az az store)) s) r
        → ((i : ℕ) → r.left i ≡ done)
        → (j : String)
        → node_at j r.cluster ≡ node_at j (remove_protection_from_nodes api schedule az store s).1
    interleaved-remove_protection_from_nodes reach over j =
        interleaved unprotect_calls (unprotect_node api) unprotected unprotect_calls-Within
          (finish-unprotect_calls api) unprotected-unprotected (unprotect_node-Visits laws reliable)
          az store s r valid reach over j
        ∙ sym (node_at-remove_protection_from_nodes laws reliable schedule perm az store valid j s)
