-- ===== src/Update/Pools.antt =====
-- What the start of a shift does to every node pool of the cluster, in standard mode.
use mathlib.Core.Option
use sample_arc_autoshift_kar.Base.{
  String, false, Option, none, some, List, [], ◌∷◌, ◌==◌, eq_iff, eq_refl, if◌then◌else◌, ◌≡◌, refl,
  ap, ◌∙◌, sym, arith, All, Option-cases, inl, inr,
}
use sample_arc_autoshift_kar.Event.{Event, away_from}
use sample_arc_autoshift_kar.Zones.{get_zone_name_from_zone_id, get_updated_zones}
use sample_arc_autoshift_kar.Store.{NodeInfo}
use sample_arc_autoshift_kar.Nodes.Api.{Node, NodeApi}
use sample_arc_autoshift_kar.Nodes.Frame.{annotate_and_cordon_nodes-keeps}
use sample_arc_autoshift_kar.Pools.{PoolItem}
use sample_arc_autoshift_kar.Pools.Api.{PoolApi, IsPoolApi, IsAvailable, find_pool, IsUnique}
use sample_arc_autoshift_kar.Update.{
  Globals, standard_mode, update_standard_pool, update_standard, protect_first, update_pools,
  update_karpenter_node_pool, list_installed_crds,
}
use sample_arc_autoshift_kar.Update.Pool.{shifted, update_pool-effect}

-- What the start of a shift should make of a pool in standard mode, with the zones that are left.
unfoldable pub shifted_to : Globals → Event → List String → PoolItem → PoolItem
shifted_to g event [] p = p
shifted_to g event (zone ∷ zones) p =
    shifted (get_zone_name_from_zone_id g.zone_mapping (away_from event)) (away_from event)
      (zone ∷ zones) p

abbrev pub standard_shift : Globals → Event → PoolItem → PoolItem
standard_shift g event = shifted_to g event (get_updated_zones g.zone_mapping g.cluster_zones event)

-- The pools that remain to be visited are as they were listed.
abbrev pub IsFresh : {S : Type 0} → (String → S → Option PoolItem) → S → List PoolItem → Type 0
IsFresh pool_at s = All (λ p. pool_at p.name s ≡ some p)

pub name-find_pool :
    (k : String) (ps : List PoolItem) (p : PoolItem) → find_pool k ps ≡ some p → p.name ≡ k
unfolding find_pool
name-find_pool k [] p h = cc
name-find_pool k (q ∷ ps) p h = ground (arith, eq_iff q.name k, name-find_pool k ps p)

module _ {S : Type 0} (pool_at : String → S → Option PoolItem) where
  -- Listed pools are as the list shows them.
  pub IsFresh-list :
      (s : S) (ps qs : List PoolItem)
      → ((k : String) → find_pool k ps ≡ pool_at k s)
      → ((k : String) (q : PoolItem) → find_pool k qs ≡ some q → find_pool k ps ≡ some q)
      → IsUnique qs
      → IsFresh pool_at s qs
  unfolding find_pool
  IsFresh-list s ps [] reads sub u = tt
  IsFresh-list s ps (q ∷ qs) reads sub u = (
    sym (reads q.name) ∙ sub q.name q (rw eq_refl),
    IsFresh-list s ps qs reads (λ k r h. sub k r (ground (arith, h, u.0, eq_iff q.name k))) u.1,
  )

  -- A step that changes one pool at most leaves the others fresh.
  IsFresh-step :
      (o : Option PoolItem) (p : PoolItem) (s t : S) (qs : List PoolItem)
      → ((k : String) → pool_at k t ≡ (if p.name == k then o else pool_at k s))
      → find_pool p.name qs ≡ none
      → IsFresh pool_at s qs
      → IsFresh pool_at t qs
  unfolding find_pool
  IsFresh-step o p s t [] step apart fresh = tt
  IsFresh-step o p s t (q ∷ qs) step apart fresh = (
    ground (arith, step q.name, fresh.0, eq_iff p.name q.name, eq_iff q.name p.name),
    IsFresh-step o p s t qs step (ground arith) fresh.1,
  )

  -- A loop over the pools of a list, each of which it maps by `f` or removes.
  pub loop_effect :
      (f : PoolItem → Option PoolItem) (loop : List PoolItem → S → S) (body : PoolItem → S → S)
      → ((s : S) → loop [] s ≡ s)
      → ((p : PoolItem) (ps : List PoolItem) (s : S) → loop (p ∷ ps) s ≡ loop ps (body p s))
      → ((p : PoolItem) (s : S)
          → pool_at p.name s ≡ some p
          → (k : String) → pool_at k (body p s) ≡ (if p.name == k then f p else pool_at k s))
      → (ps : List PoolItem) (s : S) → IsUnique ps
      → IsFresh pool_at s ps
      → (k : String)
      → pool_at k (loop ps s) ≡ (elim (find_pool k ps) [ none ↦ pool_at k s | some p ↦ f p ])
  unfolding find_pool
  loop_effect f loop body base next effect [] s u fresh k = ap (pool_at k) (base s)
  loop_effect f loop body base next effect (p ∷ ps) s u fresh k =
      let step = effect p s fresh.0 in
      let later = IsFresh-step (f p) p s (body p s) ps step u.0 fresh.1 in
      let ih = loop_effect f loop body base next effect ps (body p s) u.1 later k in
      ground (arith, ap (pool_at k) (next p ps s), ih, step k, u.0, eq_iff p.name k)

module _ {S : Type 0} {api : PoolApi S} {nodes : NodeApi S} {pool_at : String → S → Option PoolItem}
    {node_at : String → S → Option Node} (laws : IsPoolApi api nodes pool_at node_at) where
  -- Protecting the nodes of the zone changes no pool.
  pub protect_first-keeps_pools :
      (schedule : List (List NodeInfo) → List (List NodeInfo)) (g : Globals) (event : Event)
      (k : String) (s : S)
      → pool_at k (protect_first api nodes schedule g event s) ≡ pool_at k s
  unfolding protect_first
  protect_first-keeps_pools schedule g event k s = elim (Option-cases g.node_store) [
    | inl e ↦ ground (arith, e)
    | inr (store, e) ↦
        let keep = λ (az : String).
          annotate_and_cordon_nodes-keeps nodes (λ t. pool_at k t ≡ pool_at k s)
            (λ n t h. laws.update_keeps_pools n k t ∙ h) schedule az store s refl in
        let away = away_from event in
        ground (arith, e, keep away, keep (get_zone_name_from_zone_id g.zone_mapping away))
  ]

module _ {S : Type 0} {api : PoolApi S} {nodes : NodeApi S} {pool_at : String → S → Option PoolItem}
    {node_at : String → S → Option Node} (laws : IsPoolApi api nodes pool_at node_at)
    (available : IsAvailable api) where
  update_standard_pool-effect :
      (g : Globals) (event : Event) (zones : List String) (p : PoolItem) (s : S)
      → pool_at p.name s ≡ some p
      → (k : String)
      → pool_at k (update_standard_pool api nodes g event zones p s)
        ≡ (if p.name == k then some (shifted_to g event zones p) else pool_at k s)
  unfolding update_standard_pool shifted_to
  update_standard_pool-effect g event [] p s h k = ground (arith, eq_iff p.name k, h)
  update_standard_pool-effect g event (zone ∷ zones) p s h k =
      update_pool-effect laws available standard_mode g event (zone ∷ zones) p k s h

  update_standard-effect :
      (g : Globals) (event : Event) (ps : List PoolItem) (s : S)
      → IsUnique ps
      → IsFresh pool_at s ps
      → (k : String)
      → pool_at k (update_standard api nodes g event ps s)
        ≡ (elim (find_pool k ps) [ none ↦ pool_at k s | some p ↦ some (standard_shift g event p) ])
  unfolding update_standard
  update_standard-effect g event =
      let zones = get_updated_zones g.zone_mapping g.cluster_zones event in
      loop_effect pool_at (λ p. some (standard_shift g event p)) (update_standard api nodes g event)
        (update_standard_pool api nodes g event zones) (λ s. refl) (λ p ps s. refl)
        (update_standard_pool-effect g event zones)

  -- In standard mode, with an available API, the start of a shift takes the impaired zone out of the
  -- first zone requirement of every pool of the cluster, or gives it a requirement with the zones that
  -- are left where it has none, and annotates the pools that it changes; it changes none where no zone
  -- is left, and creates and removes none. What the node store holds and whether the do-not-disrupt
  -- feature is on do not matter for the pools.
  pub update_karpenter_node_pool-standard :
      (schedule : List (List NodeInfo) → List (List NodeInfo)) (g : Globals) (event : Event) (s : S)
      → list_installed_crds api s ≡ false
      → (k : String)
      → pool_at k (update_karpenter_node_pool api nodes schedule g event s)
        ≡ Option.map (standard_shift g event) (pool_at k s)
  update_karpenter_node_pool-standard schedule g event s standard k =
      let s' = protect_first api nodes schedule g event s in
      let (ps, listed) = available.lists s' in
      let (unique, reads) = laws.list_reads s' ps listed in
      let fresh = IsFresh-list pool_at s' ps ps reads (λ j q h. h) unique in
      let run : update_karpenter_node_pool api nodes schedule g event s
          ≡ update_standard api nodes g event ps s' =
        unfold update_karpenter_node_pool update_pools in
        ground (arith, available.configured, available.connected, listed, standard) in
      rw run (
        ground (
          arith,
          update_standard-effect g event ps s' unique fresh k,
          reads k,
          protect_first-keeps_pools laws schedule g event k s,
        ))
