-- ===== src/Shift/Repeated.antt =====
-- Shifts that are announced twice.
use mathlib.Core.Option
use sample_arc_autoshift_kar.Base.{
  String, false, Option, none, some, List, eq_refl, ◌≡◌, refl, ap, ◌∙◌, arith, contains, Bool-cases,
  Option-cases, inl, inr,
}
use sample_arc_autoshift_kar.Event.{Event, away_from}
use sample_arc_autoshift_kar.Zones.{other_zones}
use sample_arc_autoshift_kar.Zones.Updated.{contains-other_zones}
use sample_arc_autoshift_kar.Store.{NodeInfo}
use sample_arc_autoshift_kar.Nodes.Api.{Node, NodeApi}
use sample_arc_autoshift_kar.Pools.{PoolItem}
use sample_arc_autoshift_kar.Pools.Api.{PoolApi, IsPoolApi, IsAvailable}
use sample_arc_autoshift_kar.Shift.Evacuation.{
  IsKnown, updated_without, standard_shift-known, zone_values-shifted,
}
use sample_arc_autoshift_kar.Update.{Globals, list_installed_crds, update_karpenter_node_pool}
use sample_arc_autoshift_kar.Update.Pool.{zone_values, shifted}
use sample_arc_autoshift_kar.Update.Pools.{standard_shift, update_karpenter_node_pool-standard}
use sample_arc_autoshift_kar.Restore.{away_zone_name, is_annotated, restore_karpenter_node_pool}
use sample_arc_autoshift_kar.Restore.Pools.{restored_with, restore_karpenter_node_pool-standard}
use sample_arc_autoshift_kar.Restore.Requirements.{
  is_annotated-unmarked, shifted-unnamed, restored_with-annotated, restored_with-plain,
  restored_with-free,
}

shifted-shifted :
    (name away : String) (updated : List String) (p : PoolItem)
    → contains name updated ≡ false
    → shifted name away updated (shifted name away updated p) ≡ shifted name away updated p
shifted-shifted name away updated p out = elim (Option-cases (zone_values p.requirements)) [
  | inl e ↦
      shifted-unnamed name away updated updated (shifted name away updated p)
        (ground (arith, zone_values-shifted name away updated p, e)) out
  | inr (zones, e) ↦
      shifted-unnamed name away updated (other_zones name zones) (shifted name away updated p)
        (ground (arith, zone_values-shifted name away updated p, e))
        (ground (arith, contains-other_zones name name zones, eq_refl name))
]

restored_with-restored_with :
    (away : String) (p : PoolItem)
    → restored_with away (restored_with away p) ≡ restored_with away p
restored_with-restored_with away p = elim (Bool-cases (is_annotated p)) [
  | inl a ↦ elim (Option-cases (zone_values p.requirements)) [
    | inl e ↦ rw (restored_with-free away p e) (restored_with-free away p e)
    | inr (zones, e) ↦
        rw (restored_with-annotated away zones p a e)
          (restored_with-plain away _ (is_annotated-unmarked _))
  ]
  | inr a ↦ rw (restored_with-plain away p a) (restored_with-plain away p a)
]

map_idem :
    (f : PoolItem → PoolItem)
    → ((p : PoolItem) → f (f p) ≡ f p)
    → (o : Option PoolItem) → Option.map f (Option.map f o) ≡ Option.map f o
map_idem f idem none = refl
map_idem f idem (some p) = ap some (idem p)

module _ {S : Type 0} {api : PoolApi S} {nodes : NodeApi S} {pool_at : String → S → Option PoolItem}
    {node_at : String → S → Option Node} (laws : IsPoolApi api nodes pool_at node_at)
    (available : IsAvailable api) (standard : (s : S) → list_installed_crds api s ≡ false)
    (schedule : List (List NodeInfo) → List (List NodeInfo)) (g : Globals) (event : Event) where
  -- Announcing the start of a shift once more changes no pool. The impaired zone is known by name,
  -- and the cluster has another zone. The cluster is in standard mode, and its API is available.
  pub update-update :
      (name other : String) (k : String) (s : S)
      → IsKnown g event name other
      → pool_at k (
          update_karpenter_node_pool api nodes schedule g event
            (update_karpenter_node_pool api nodes schedule g event s))
        ≡ pool_at k (update_karpenter_node_pool api nodes schedule g event s)
  update-update name other k s known =
      let s' = update_karpenter_node_pool api nodes schedule g event s in
      rw (update_karpenter_node_pool-standard laws available schedule g event s' (standard s') k) (
        rw (update_karpenter_node_pool-standard laws available schedule g event s (standard s) k)
          (map_idem (standard_shift g event) idem (pool_at k s)))
    where
      idem :
          (p : PoolItem)
          → standard_shift g event (standard_shift g event p) ≡ standard_shift g event p
      idem p =
          standard_shift-known g event name other (standard_shift g event p) known
          ∙ rw (standard_shift-known g event name other p known) (
              shifted-shifted name (away_from event) _ p (updated_without g event name other known))

  -- Announcing the end of a shift once more changes no pool. The cluster is in standard mode, and
  -- its API is available.
  pub restore-restore :
      (k : String) (s : S)
      → pool_at k (
          restore_karpenter_node_pool api nodes schedule g event
            (restore_karpenter_node_pool api nodes schedule g event s))
        ≡ pool_at k (restore_karpenter_node_pool api nodes schedule g event s)
  restore-restore k s =
      let s' = restore_karpenter_node_pool api nodes schedule g event s in
      rw (restore_karpenter_node_pool-standard laws available schedule g event s' (standard s') k) (
        rw (restore_karpenter_node_pool-standard laws available schedule g event s (standard s) k) (
          map_idem (restored_with (away_zone_name g event))
            (restored_with-restored_with (away_zone_name g event)) (pool_at k s)))
