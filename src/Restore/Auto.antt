-- ===== src/Restore/Auto.antt =====
-- What the end of a shift does to every node pool of a cluster in auto mode.
use mathlib.Core.Option
use sample_arc_autoshift_kar.Base.{
  String, Bool, true, ◌||◌, Option, none, some, List, ◌==◌, if◌then◌else◌, ◌≡◌, refl, sym, ◌∙◌,
  arith, Option-cases, inl, inr,
}
use sample_arc_autoshift_kar.Event.{Event}
use sample_arc_autoshift_kar.Store.{NodeInfo}
use sample_arc_autoshift_kar.Nodes.Api.{Node, NodeApi}
use sample_arc_autoshift_kar.Nodes.Frame.{remove_taint_from_nodes-keeps}
use sample_arc_autoshift_kar.Pools.{PoolItem, delete_pool}
use sample_arc_autoshift_kar.Pools.Api.{
  PoolApi, IsPoolApi, IsAvailable, find_pool, IsUnique, applied,
}
use sample_arc_autoshift_kar.Update.{Globals, list_installed_crds}
use sample_arc_autoshift_kar.Update.Pool.{pool_at-send}
use sample_arc_autoshift_kar.Update.Pools.{IsFresh, IsFresh-list, loop_effect, name-find_pool}
use sample_arc_autoshift_kar.Restore.{
  away_zone_name, restore_auto_pool, restore_auto, unprotect_first, untaint_first, restore_pools,
  restore_karpenter_node_pool,
}
use sample_arc_autoshift_kar.Restore.Pools.{
  restored_with, restore_pool-effect, unprotect_first-keeps_pools,
}

-- The names of the copies of auto mode's own pools.
abbrev pub is_copy : String → Bool
is_copy name = name == "general-purpose-kss" || name == "system-kss"

module _ {S : Type 0} {api : PoolApi S} {nodes : NodeApi S} {pool_at : String → S → Option PoolItem}
    {node_at : String → S → Option Node} (laws : IsPoolApi api nodes pool_at node_at)
    (available : IsAvailable api) where
  restore_auto_pool-effect :
      (away : String) (pool : PoolItem) (s : S)
      → pool_at pool.name s ≡ some pool
      → (k : String)
      → pool_at k (restore_auto_pool api away pool s) ≡ (
          if pool.name == k
          then (if is_copy pool.name then none else some (restored_with away pool))
          else pool_at k s)
  unfolding restore_auto_pool applied
  restore_auto_pool-effect away pool s h k = ground (
    arith,
    pool_at-send laws available (delete_pool pool.name) k s,
    restore_pool-effect laws available away pool s h k,
  )

  untaint_first-keeps_pools :
      (g : Globals) (event : Event) (k : String) (s : S)
      → pool_at k (untaint_first api nodes g event s) ≡ pool_at k s
  unfolding untaint_first
  untaint_first-keeps_pools g event k s = elim (Option-cases g.node_store) [
    | inl e ↦ ground (arith, e)
    | inr (store, e) ↦ ground (
      arith,
      e,
      remove_taint_from_nodes-keeps nodes (λ t. pool_at k t ≡ pool_at k s)
          (λ n t h. laws.update_keeps_pools n k t ∙ h) (away_zone_name g event) store s refl,
    )
  ]

  restore_auto-effect :
      (away : String) (ps : List PoolItem) (s : S)
      → IsUnique ps
      → IsFresh pool_at s ps
      → (k : String)
      → pool_at k (restore_auto api away ps s) ≡ (elim (find_pool k ps) [
        | none ↦ pool_at k s
        | some p ↦ if is_copy p.name then none else some (restored_with away p)
      ])
  unfolding restore_auto
  restore_auto-effect away =
      loop_effect pool_at (λ p. if is_copy p.name then none else some (restored_with away p))
        (restore_auto api away) (restore_auto_pool api away) (λ s. refl) (λ p ps s. refl)
        (restore_auto_pool-effect away)

  -- In auto mode, with an available API, the end of a shift deletes the copies of auto mode's own
  -- pools, does to every other pool of the cluster what it does in standard mode, and creates none.
  pub restore_karpenter_node_pool-auto :
      (schedule : List (List NodeInfo) → List (List NodeInfo)) (g : Globals) (event : Event) (s : S)
      → list_installed_crds api s ≡ true
      → (k : String)
      → pool_at k (restore_karpenter_node_pool api nodes schedule g event s) ≡ (
          if is_copy k
          then none
          else Option.map (restored_with (away_zone_name g event)) (pool_at k s))
  restore_karpenter_node_pool-auto schedule g event s auto k =
      let s' = unprotect_first api nodes schedule g event s in
      let t = untaint_first api nodes g event s' in
      let (ps, listed) = available.lists s' in
      let (unique, reads) = laws.list_reads s' ps listed in
      let reads_later = λ (j : String). reads j ∙ sym (untaint_first-keeps_pools g event j s') in
      let fresh = IsFresh-list pool_at t ps ps reads_later (λ j q h. h) unique in
      let away = away_zone_name g event in
      let run : restore_karpenter_node_pool api nodes schedule g event s
          ≡ restore_auto api away ps t =
        unfold restore_karpenter_node_pool restore_pools in
        ground (arith, available.configured, available.connected, listed, auto) in
      rw (run, restore_auto-effect away ps t unique fresh k)
        (elim (Option-cases (find_pool k ps)) [
          | inl e ↦ ground (
            arith,
            e,
            reads k,
            untaint_first-keeps_pools g event k s',
            unprotect_first-keeps_pools laws schedule g event k s,
          )
          | inr (p, e) ↦ ground (
            arith,
            e,
            reads k,
            name-find_pool k ps p e,
            unprotect_first-keeps_pools laws schedule g event k s,
          )
        ])
