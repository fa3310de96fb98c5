-- ===== src/Update/Auto.antt =====
-- What the start of a shift does to the node pools of a cluster in auto mode.
use mathlib.Core.Option
use Prim.Native.String.{◌++◌ as append}
use sample_arc_autoshift_kar.Base.{
  String, Bool, true, false, ◌||◌, Option, some, List, [], ◌==◌, eq_iff, if◌then◌else◌, ◌≡◌, ◌≢◌,
  refl, ◌∙◌, arith, Bool-cases, Option-cases, inl, inr,
}
use sample_arc_autoshift_kar.Event.{Event, away_from}
use sample_arc_autoshift_kar.Zones.{get_zone_name_from_zone_id, get_updated_zones}
use sample_arc_autoshift_kar.Store.{NodeInfo}
use sample_arc_autoshift_kar.Nodes.Api.{Node, NodeApi}
use sample_arc_autoshift_kar.Nodes.Frame.{taint_nodes_in_az-keeps}
use sample_arc_autoshift_kar.Pools.{node_pool, PoolItem, post}
use sample_arc_autoshift_kar.Pools.Api.{
  PoolApi, IsPoolApi, IsAvailable, find_pool, IsUnique, applied, created,
}
use sample_arc_autoshift_kar.Update.{
  Globals, auto_mode, update_pool, copy_of, create_node_pool, copy_pool, update_auto, protect_first,
  update_pools, update_karpenter_node_pool, list_installed_crds,
}
use sample_arc_autoshift_kar.Update.Pool.{shifted, pool_at-send, update_pool-effect}
use sample_arc_autoshift_kar.Update.Requests.{update_pool-keeps}
use sample_arc_autoshift_kar.Update.Loop.{Outcome-map, loop-Outcome}
use sample_arc_autoshift_kar.Update.Pools.{protect_first-keeps_pools}

-- The names of auto mode's own pools, and those of their copies.
abbrev pub is_own : String → Bool
is_own name = name == "general-purpose" || name == "system"

abbrev pub is_copy_name : String → Bool
is_copy_name name = name == "general-purpose-kss" || name == "system-kss"

-- What the start of a shift makes of a pool in auto mode: its own pools stay as they are.
unfoldable pub auto_shift : Globals → Event → PoolItem → PoolItem
auto_shift g event p =
    if is_own p.name
    then p
    else shifted (get_zone_name_from_zone_id g.zone_mapping (away_from event)) (away_from event)
        (get_updated_zones g.zone_mapping g.cluster_zones event) p

copy_name :
    (k : String) (name : String)
    → is_copy_name k ≡ false
    → is_own name ≡ true
    → (append name "-kss" == k) ≡ false
copy_name k name other own = elim (Bool-cases (name == "general-purpose")) [
  | inl e ↦
      let path : name ≡ "general-purpose" = ground (arith, e, eq_iff name "general-purpose") in
      rw path
        (ground (arith, other, eq_iff "general-purpose-kss" k, eq_iff k "general-purpose-kss"))
  | inr e ↦
      let path : name ≡ "system" = ground (arith, e, own, eq_iff name "system") in
      rw path (ground (arith, other, eq_iff "system-kss" k, eq_iff k "system-kss"))
]

module _ {S : Type 0} {api : PoolApi S} {nodes : NodeApi S} {pool_at : String → S → Option PoolItem}
    {node_at : String → S → Option Node} (laws : IsPoolApi api nodes pool_at node_at)
    (available : IsAvailable api) where
  -- The copy is made, and nothing else happens to the pools.
  pub copy_pool-effect :
      (g : Globals) (event : Event) (zones : List String) (pool : PoolItem) (k : String) (s : S)
      → pool_at k (copy_pool api nodes g event zones pool s) ≡ (
          if append pool.name "-kss" == k
          then some (created (copy_of api pool (away_from event) zones))
          else pool_at k s)
  unfolding copy_pool create_node_pool
  copy_pool-effect g event zones pool k s =
      let away = away_from event in
      let name = get_zone_name_from_zone_id g.zone_mapping away in
      let n = copy_of api pool away zones in
      let s' = (api.send (post n) s).1 in
      let sent : pool_at k s'
          ≡ (if append pool.name "-kss" == k then some (created n) else pool_at k s) =
        pool_at-send laws available (post n) k s ∙ (unfold applied copy_of in refl) in
      elim (Option-cases g.node_store) [
        | inl e ↦ ground (
          arith,
          e,
          sent,
          available.create_configured s,
          available.create_connected s,
          available.marshalled (node_pool n),
        )
        | inr (store, e) ↦ ground (
          arith,
          e,
          sent,
          available.create_configured s,
          available.create_connected s,
          available.marshalled (node_pool n),
          taint_nodes_in_az-keeps nodes (λ t. pool_at k t ≡ pool_at k s')
              (λ m t h. laws.update_keeps_pools m k t ∙ h) name store s' refl,
        )
      ]

  copy_pool-keeps :
      (g : Globals) (event : Event) (zones : List String) (pool : PoolItem) (k : String) (s : S)
      → is_copy_name k ≡ false
      → is_own pool.name ≡ true
      → pool_at k (copy_pool api nodes g event zones pool s) ≡ pool_at k s
  copy_pool-keeps g event zones pool k s other own =
      ground (arith, copy_pool-effect g event zones pool k s, copy_name k pool.name other own)

  -- What the loop does with one pool.
  abbrev pub auto_body : Globals → Event → PoolItem → S → S
  auto_body g event pool s =
      let zones = get_updated_zones g.zone_mapping g.cluster_zones event in
      if is_own pool.name
      then copy_pool api nodes g event zones pool s
      else update_pool api auto_mode g event zones pool s

  auto_body-keeps :
      (g : Globals) (event : Event) (k : String)
      → is_copy_name k ≡ false
      → (p : PoolItem) (s : S) → (p.name == k) ≡ false
      → pool_at k (auto_body g event p s) ≡ pool_at k s
  auto_body-keeps g event k other p s apart =
      let zones = get_updated_zones g.zone_mapping g.cluster_zones event in
      ground (
        arith,
        copy_pool-keeps g event zones p k s other,
        update_pool-keeps laws available.marshalled auto_mode g event zones p k s apart,
      )

  auto_body-effect :
      (g : Globals) (event : Event) (k : String)
      → is_copy_name k ≡ false
      → (p : PoolItem) (s : S) → p.name ≡ k
      → pool_at k s ≡ some p
      → pool_at k (auto_body g event p s) ≡ some (auto_shift g event p)
  unfolding auto_shift
  auto_body-effect g event k other p s named held =
      let zones = get_updated_zones g.zone_mapping g.cluster_zones event in
      ground (
        arith,
        named,
        held,
        eq_iff p.name k,
        copy_pool-keeps g event zones p k s other,
        update_pool-effect laws available auto_mode g event zones p k s,
      )

  update_auto-effect :
      (g : Globals) (event : Event) (k : String)
      → is_copy_name k ≡ false
      → (ps : List PoolItem) (s : S) → IsUnique ps
      → find_pool k ps ≡ pool_at k s
      → pool_at k (
          update_auto api nodes g event
            (get_updated_zones g.zone_mapping g.cluster_zones event)
            ps
            s)
        ≡ Option.map (auto_shift g event) (pool_at k s)
  unfolding update_auto
  update_auto-effect g event k other ps s unique shown =
      let run =
        loop-Outcome pool_at k (λ p o. o ≡ some (auto_shift g event p))
          (update_auto api nodes g event (get_updated_zones g.zone_mapping g.cluster_zones event))
          (auto_body g event) (λ t. refl) (λ p qs t. refl) (auto_body-keeps g event k other)
          (auto_body-effect g event k other) ps s unique (inr shown) in
      Outcome-map (auto_shift g event) (pool_at k s) (pool_at k s) _ (rw shown at run) refl

  -- In auto mode, with an available API and some zone left, the start of a shift leaves auto mode's
  -- own pools as they are, and takes the impaired zone out of every other pool as in standard mode. It
  -- is not stated what becomes of pools with the names of copies.
  pub update_karpenter_node_pool-auto :
      (schedule : List (List NodeInfo) → List (List NodeInfo)) (g : Globals) (event : Event) (s : S)
      → list_installed_crds api s ≡ true
      → get_updated_zones g.zone_mapping g.cluster_zones event ≢ []
      → (k : String) → is_copy_name k ≡ false
      → pool_at k (update_karpenter_node_pool api nodes schedule g event s)
        ≡ Option.map (auto_shift g event) (pool_at k s)
  update_karpenter_node_pool-auto schedule g event s auto left k other =
      let s' = protect_first api nodes schedule g event s in
      let (ps, listed) = available.lists s' in
      let (unique, reads) = laws.list_reads s' ps listed in
      let zones = get_updated_zones g.zone_mapping g.cluster_zones event in
      let run : update_karpenter_node_pool api nodes schedule g event s
          ≡ update_auto api nodes g event zones ps s' =
        unfold update_karpenter_node_pool update_pools in
        ground (arith, available.configured, available.connected, listed, auto, left) in
      rw run (
        ground (
          arith,
          update_auto-effect g event k other ps s' unique (reads k),
          reads k,
          protect_first-keeps_pools laws schedule g event k s,
        ))
