-- ===== src/Update/Partial.antt =====
-- What `updateKarpenterNodePool` guarantees of the node pools, in standard mode, when any of its
-- requests may fail.
use sample_arc_autoshift_kar.Base.{
  String, true, false, ◌&&◌, Option, none, some, List, [], ◌∷◌, ◌==◌, ◌≡◌, refl, Bool-cases,
  Option-cases, inl, inr,
}
use sample_arc_autoshift_kar.Event.{Event, away_from}
use sample_arc_autoshift_kar.Zones.{get_zone_name_from_zone_id, get_updated_zones}
use sample_arc_autoshift_kar.Store.{NodeInfo}
use sample_arc_autoshift_kar.Nodes.Api.{Node, NodeApi}
use sample_arc_autoshift_kar.Pools.{Requirement, PoolItem, Payload}
use sample_arc_autoshift_kar.Pools.Api.{PoolApi, IsPoolApi, find_pool, IsUnique}
use sample_arc_autoshift_kar.Update.{
  Globals, standard_mode, update_standard_pool, update_standard, protect_first, update_pools,
  update_karpenter_node_pool, list_installed_crds,
}
use sample_arc_autoshift_kar.Update.Pool.{respecced}
use sample_arc_autoshift_kar.Update.Pools.{protect_first-keeps_pools}
use sample_arc_autoshift_kar.Update.Requests.{UpdateReached, update_pool-keeps, update_pool-Reached}
use sample_arc_autoshift_kar.Update.Loop.{Outcome, loop-Outcome}

-- How far the update of a pool may have come, with the zones that are left.
abbrev pub StandardReached : Globals → Event → List String → PoolItem → Option PoolItem → Type 0
StandardReached g event [] p o = o ≡ some p
StandardReached g event (zone ∷ zones) p o =
    UpdateReached (away_from event) p
      (respecced (get_zone_name_from_zone_id g.zone_mapping (away_from event)) (zone ∷ zones) p) o

-- The same of the pool that the cluster holds under a name: none is made, and none is removed.
abbrev pub PoolReached : Globals → Event → Option PoolItem → Option PoolItem → Type 0
PoolReached g event before after =
    Outcome (StandardReached g event (get_updated_zones g.zone_mapping g.cluster_zones event))
      before before after

UpdateReached-refl :
    (away : String) (p : PoolItem) (o : Option (List Requirement)) → UpdateReached away p o (some p)
UpdateReached-refl away p none = refl
UpdateReached-refl away p (some reqs) = inl refl

StandardReached-refl :
    (g : Globals) (event : Event) (zones : List String) (p : PoolItem)
    → StandardReached g event zones p (some p)
StandardReached-refl g event [] p = refl
StandardReached-refl g event (zone ∷ zones) p =
    UpdateReached-refl _ p (respecced _ (zone ∷ zones) p)

PoolReached-refl : (g : Globals) (event : Event) (o : Option PoolItem) → PoolReached g event o o
PoolReached-refl g event none = refl
PoolReached-refl g event (some p) = StandardReached-refl g event _ p

module _ {S : Type 0} {api : PoolApi S} {nodes : NodeApi S} {pool_at : String → S → Option PoolItem}
    {node_at : String → S → Option Node} (laws : IsPoolApi api nodes pool_at node_at)
    (marshalled : (p : Payload) → api.marshals p ≡ true) (g : Globals) (event : Event) where
  update_standard_pool-keeps :
      (zones : List String) (p : PoolItem) (k : String) (s : S)
      → (p.name == k) ≡ false
      → pool_at k (update_standard_pool api nodes g event zones p s) ≡ pool_at k s
  unfolding update_standard_pool
  update_standard_pool-keeps [] p k s apart = refl
  update_standard_pool-keeps (zone ∷ zones) p k s apart =
      update_pool-keeps laws marshalled standard_mode g event (zone ∷ zones) p k s apart

  update_standard_pool-Reached :
      (zones : List String) (p : PoolItem) (k : String) (s : S)
      → p.name ≡ k
      → pool_at k s ≡ some p
      → StandardReached g event zones p
          (pool_at k (update_standard_pool api nodes g event zones p s))
  unfolding update_standard_pool
  update_standard_pool-Reached [] p k s named h = h
  update_standard_pool-Reached (zone ∷ zones) p k s named h =
      update_pool-Reached laws marshalled standard_mode g event (zone ∷ zones) p k s named h

  update_standard-Outcome :
      (k : String) (ps : List PoolItem) (s : S)
      → find_pool k ps ≡ pool_at k s
      → IsUnique ps
      → PoolReached g event (pool_at k s) (pool_at k (update_standard api nodes g event ps s))
  unfolding update_standard
  update_standard-Outcome k ps s shown unique =
      let zones = get_updated_zones g.zone_mapping g.cluster_zones event in
      let run =
        loop-Outcome pool_at k (StandardReached g event zones) (update_standard api nodes g event)
          (update_standard_pool api nodes g event zones) (λ t. refl) (λ p qs t. refl)
          (λ p t. update_standard_pool-keeps zones p k t)
          (λ p t. update_standard_pool-Reached zones p k t) ps s unique (inr shown) in
      rw shown at run

  -- Whatever requests fail, in standard mode, the start of a shift makes and removes no pool, and
  -- leaves each pool of the cluster as it was, with the new requirements alone, with the annotation
  -- alone, or with both; a pool that needs no update stays as it was.
  pub update_karpenter_node_pool-Reached :
      (schedule : List (List NodeInfo) → List (List NodeInfo)) (s : S)
      → list_installed_crds api s ≡ false
      → (k : String)
      → PoolReached g event
          (pool_at k s)
          (pool_at k (update_karpenter_node_pool api nodes schedule g event s))
  update_karpenter_node_pool-Reached schedule s standard k =
      let s' = protect_first api nodes schedule g event s in
      let kept : pool_at k s' ≡ pool_at k s = protect_first-keeps_pools laws schedule g event k s in
      elim (Bool-cases (api.config_ok && api.clientset_ok)) [
        | inl ok ↦ elim (Option-cases (api.list_pools s')) [
          | inl e ↦
              unfold update_karpenter_node_pool in
              rw (ok, e, kept) (PoolReached-refl g event (pool_at k s))
          | inr (ps, e) ↦
              let (unique, reads) = laws.list_reads s' ps e in
              unfold update_karpenter_node_pool update_pools in
              rw (ok, e, standard, ← kept) (update_standard-Outcome k ps s' (reads k) unique)
        ]
        | inr bad ↦
            unfold update_karpenter_node_pool in rw bad (PoolReached-refl g event (pool_at k s))
      ]
