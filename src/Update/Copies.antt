-- ===== src/Update/Copies.antt =====
-- The copies that the start of a shift makes of auto mode's own pools.
use Prim.Native.String.{◌++◌ as append}
use sample_arc_autoshift_kar.Base.{
  String, true, false, Option, none, some, List, [], ◌∷◌, ◌++◌, take, ◌==◌, eq_iff, if◌then◌else◌,
  ◌≡◌, ◌≢◌, refl, ◌∙◌, arith, Bool-cases, inl, inr,
}
use sample_arc_autoshift_kar.Event.{Event, away_from}
use sample_arc_autoshift_kar.Zones.{get_updated_zones}
use sample_arc_autoshift_kar.Store.{NodeInfo}
use sample_arc_autoshift_kar.Nodes.Api.{Node, NodeApi}
use sample_arc_autoshift_kar.Pools.{PoolItem}
use sample_arc_autoshift_kar.Pools.Api.{
  PoolApi, IsPoolApi, IsAvailable, find_pool, IsUnique, created,
}
use sample_arc_autoshift_kar.Update.{
  Globals, auto_mode, first_budget, copy_of, update_auto, protect_first, update_pools,
  update_karpenter_node_pool, list_installed_crds,
}
use sample_arc_autoshift_kar.Update.Requests.{update_pool-keeps}
use sample_arc_autoshift_kar.Update.Pools.{protect_first-keeps_pools}
use sample_arc_autoshift_kar.Update.Auto.{is_own, auto_body, copy_pool-effect}

-- Two of auto mode's own pools have the same copy only if they are the same.
copy_name_eq :
    (a b : String)
    → is_own a ≡ true
    → is_own b ≡ true
    → (append a "-kss" == append b "-kss") ≡ (a == b)
copy_name_eq a b own_a own_b = elim (Bool-cases (a == "general-purpose")) [
  | inl e ↦ elim (Bool-cases (b == "general-purpose")) [
    | inl h ↦ rw ((eq_iff a "general-purpose").0 e, (eq_iff b "general-purpose").0 h)
    | inr h ↦
        let there : b ≡ "system" = ground (arith, h, own_b, eq_iff b "system") in
        rw ((eq_iff a "general-purpose").0 e, there)
  ]
  | inr e ↦
      let here : a ≡ "system" = ground (arith, e, own_a, eq_iff a "system") in
      elim (Bool-cases (b == "general-purpose")) [
        | inl h ↦ rw (here, (eq_iff b "general-purpose").0 h)
        | inr h ↦
            let there : b ≡ "system" = ground (arith, h, own_b, eq_iff b "system") in
            rw (here, there)
      ]
]

-- `q` is a copy of the pool `p` for the zones `left`, made while `away` is impaired.
pub record IsCopy (away : String) (left : List String) (q p : PoolItem) : Type 0 where
  pub api_version : q.api_version ≡ p.api_version
  pub kind : q.kind ≡ p.kind
  pub name : q.name ≡ append p.name "-kss"
  pub annotations :
      q.annotations ≡ some (("zonal-autoshift.eks.amazonaws.com/away-zones", away) ∷ [])
  pub requirements :
      q.requirements
      ≡ p.requirements
        ++ record { key = "topology.kubernetes.io/zone"; operator = "In"; values = left } ∷ []
  pub budgets : q.disruption.budgets ≡ take 1 p.disruption.budgets
  pub consolidate_after : q.disruption.consolidate_after ≡ p.disruption.consolidate_after
  pub consolidation_policy : q.disruption.consolidation_policy ≡ p.disruption.consolidation_policy
  pub taints : q.taints ≡ (if p.name == "system" then p.taints else [])
  pub node_class_ref : q.node_class_ref ≡ p.node_class_ref

first_budget-eq-take :
    {S : Type 0} (api : PoolApi S) (budgets : List String)
    → first_budget api budgets ≡ take 1 budgets
first_budget-eq-take api [] = refl
first_budget-eq-take api (budget ∷ budgets) = refl

copy_of-IsCopy :
    {S : Type 0} (api : PoolApi S) (p : PoolItem) (away : String) (left : List String)
    → IsCopy away left (created (copy_of api p away left)) p
unfolding copy_of created
copy_of-IsCopy api p away left = record {
  api_version = refl;
  kind = refl;
  name = refl;
  annotations = refl;
  requirements = refl;
  budgets = first_budget-eq-take api p.disruption.budgets;
  consolidate_after = refl;
  consolidation_policy = refl;
  taints = refl;
  node_class_ref = refl;
}

module _ {S : Type 0} {api : PoolApi S} {nodes : NodeApi S} {pool_at : String → S → Option PoolItem}
    {node_at : String → S → Option Node} (laws : IsPoolApi api nodes pool_at node_at)
    (available : IsAvailable api) (g : Globals) (event : Event) (name : String)
    (own : is_own name ≡ true) where
  abbrev copy_at : S → Option PoolItem
  copy_at = pool_at (append name "-kss")

  abbrev copy : PoolItem → PoolItem
  copy p =
      created
        (copy_of api p (away_from event) (get_updated_zones g.zone_mapping g.cluster_zones event))

  auto_body-copies :
      (p : PoolItem) (s : S)
      → (p.name == append name "-kss") ≡ false
      → copy_at (auto_body laws available g event p s)
        ≡ (if p.name == name then some (copy p) else copy_at s)
  auto_body-copies p s apart =
      let zones = get_updated_zones g.zone_mapping g.cluster_zones event in
      let k = append name "-kss" in
      elim (Bool-cases (is_own p.name)) [
        | inl mine ↦ rw mine (
            ground (
              arith,
              copy_pool-effect laws available g event zones p k s,
              copy_name_eq p.name name mine own,
            ))
        | inr not_mine ↦ rw not_mine (
            ground (
              arith,
              own,
              not_mine,
              eq_iff p.name name,
              update_pool-keeps laws available.marshalled auto_mode g event zones p k s apart,
            ))
      ]

  update_auto-copies :
      (ps : List PoolItem) (s : S)
      → IsUnique ps
      → find_pool (append name "-kss") ps ≡ none
      → copy_at (
          update_auto api nodes g event
            (get_updated_zones g.zone_mapping g.cluster_zones event)
            ps
            s)
        ≡ (elim (find_pool name ps) [ none ↦ copy_at s | some p ↦ some (copy p) ])
  unfolding update_auto find_pool
  update_auto-copies [] s unique new = refl
  update_auto-copies (p ∷ ps) s unique new =
      let apart : (p.name == append name "-kss") ≡ false = ground (arith, new) in
      update_auto-copies ps (auto_body laws available g event p s) unique.1 (ground (arith, new))
      ∙ ground (arith, auto_body-copies p s apart, unique.0, eq_iff p.name name)

  -- The copy as the code makes it.
  update_karpenter_node_pool-created :
      (schedule : List (List NodeInfo) → List (List NodeInfo)) (s : S) (p : PoolItem)
      → list_installed_crds api s ≡ true
      → get_updated_zones g.zone_mapping g.cluster_zones event ≢ []
      → pool_at name s ≡ some p
      → pool_at (append name "-kss") s ≡ none
      → pool_at (append name "-kss") (update_karpenter_node_pool api nodes schedule g event s)
        ≡ some (
            created (
              copy_of api p
                (away_from event)
                (get_updated_zones g.zone_mapping g.cluster_zones event)))
  update_karpenter_node_pool-created schedule s p auto left held new =
      let s' = protect_first api nodes schedule g event s in
      let (ps, listed) = available.lists s' in
      let (unique, reads) = laws.list_reads s' ps listed in
      let zones = get_updated_zones g.zone_mapping g.cluster_zones event in
      let kept = λ (k : String). reads k ∙ protect_first-keeps_pools laws schedule g event k s in
      let run : update_karpenter_node_pool api nodes schedule g event s
          ≡ update_auto api nodes g event zones ps s' =
        unfold update_karpenter_node_pool update_pools in
        ground (arith, available.configured, available.connected, listed, auto, left) in
      rw (run, update_auto-copies ps s' unique (kept (append name "-kss") ∙ new), kept name, held)

  -- In auto mode, with an available API and some zone left, the start of a shift makes a copy of each
  -- of auto mode's own pools that the cluster holds, if the cluster holds no pool of the copy's name,
  -- which is the pool's with "-kss" after it. The copy has the pool's requirements and then one for the zones that are left, the annotation with
  -- the impaired zone and no other, the first budget at most and the other disruption settings of the
  -- pool, its node class, and its taints if the pool is `system`, else none.
  pub update_karpenter_node_pool-copies :
      (schedule : List (List NodeInfo) → List (List NodeInfo)) (s : S) (p : PoolItem)
      → list_installed_crds api s ≡ true
      → get_updated_zones g.zone_mapping g.cluster_zones event ≢ []
      → pool_at name s ≡ some p
      → pool_at (append name "-kss") s ≡ none
      → (q : PoolItem) × (pool_at
            (append name "-kss")
            (update_karpenter_node_pool api nodes schedule g event s)
          ≡ some q)
        × IsCopy (away_from event) (get_updated_zones g.zone_mapping g.cluster_zones event) q p
  update_karpenter_node_pool-copies schedule s p auto left held new = (
    copy p,
    update_karpenter_node_pool-created schedule s p auto left held new,
    copy_of-IsCopy api p (away_from event) (get_updated_zones g.zone_mapping g.cluster_zones event),
  )
