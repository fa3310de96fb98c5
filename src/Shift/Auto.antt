-- ===== src/Shift/Auto.antt =====
-- A whole shift in a cluster in auto mode.
use mathlib.Core.Option
use Prim.Native.String.{◌++◌ as append}
use sample_arc_autoshift_kar.Base.{
  String, true, false, Option, none, some, List, [], ◌==◌, eq_iff, ◌≡◌, ◌≢◌, ◌∙◌, ap, arith,
  Bool-cases, inl, inr,
}
use sample_arc_autoshift_kar.Base.Dict.{lookup}
use sample_arc_autoshift_kar.Event.{Event, away_from}
use sample_arc_autoshift_kar.Zones.{get_updated_zones}
use sample_arc_autoshift_kar.Zones.Updated.{IsOnce, get_zone_name_known}
use sample_arc_autoshift_kar.Store.{NodeInfo}
use sample_arc_autoshift_kar.Nodes.Api.{Node, NodeApi}
use sample_arc_autoshift_kar.Pools.{PoolItem}
use sample_arc_autoshift_kar.Pools.Api.{PoolApi, IsPoolApi, IsAvailable}
use sample_arc_autoshift_kar.Update.{Globals, update_karpenter_node_pool, list_installed_crds}
use sample_arc_autoshift_kar.Update.Pool.{zone_values, shifted}
use sample_arc_autoshift_kar.Update.Pools.{name-find_pool}
use sample_arc_autoshift_kar.Update.Auto.{
  is_own, is_copy_name, auto_shift, update_karpenter_node_pool-auto,
}
use sample_arc_autoshift_kar.Restore.{away_zone_name, is_annotated, restore_karpenter_node_pool}
use sample_arc_autoshift_kar.Restore.Pools.{restored_with}
use sample_arc_autoshift_kar.Restore.Requirements.{restored_with-plain}
use sample_arc_autoshift_kar.Restore.Roundtrip.{SamePool, SamePool-shifted, away_zone_name-known}
use sample_arc_autoshift_kar.Restore.Auto.{restore_karpenter_node_pool-auto}

own-eq-not_copy : (k : String) → is_own k ≡ true → is_copy_name k ≡ false
own-eq-not_copy k own = elim (Bool-cases (k == "general-purpose")) [
  | inl e ↦ rw ((eq_iff k "general-purpose").0 e)
  | inr e ↦ let there : k ≡ "system" = ground (arith, e, own, eq_iff k "system") in rw there
]

copy-eq-true : (k : String) → is_own k ≡ true → is_copy_name (append k "-kss") ≡ true
copy-eq-true k own = elim (Bool-cases (k == "general-purpose")) [
  | inl e ↦ rw ((eq_iff k "general-purpose").0 e)
  | inr e ↦ let there : k ≡ "system" = ground (arith, e, own, eq_iff k "system") in rw there
]

module _ {S : Type 0} {api : PoolApi S} {nodes : NodeApi S} {pool_at : String → S → Option PoolItem}
    {node_at : String → S → Option Node} (laws : IsPoolApi api nodes pool_at node_at)
    (available : IsAvailable api) (auto : (s : S) → list_installed_crds api s ≡ true)
    (schedule : List (List NodeInfo) → List (List NodeInfo)) (g : Globals) (event : Event)
    (left : get_updated_zones g.zone_mapping g.cluster_zones event ≢ []) (s : S) where
  abbrev after : S
  after =
      restore_karpenter_node_pool api nodes schedule g event
        (update_karpenter_node_pool api nodes schedule g event s)

  pool_at-after :
      (k : String)
      → is_copy_name k ≡ false
      → pool_at k after
        ≡ Option.map
            (restored_with (away_zone_name g event))
            (Option.map (auto_shift g event) (pool_at k s))
  pool_at-after k other =
      let s' = update_karpenter_node_pool api nodes schedule g event s in
      rw (
        restore_karpenter_node_pool-auto laws available schedule g event s' (auto s') k,
        other,
        update_karpenter_node_pool-auto laws available schedule g event s (auto s) left k other,
      )

  held_name : (k : String) (p : PoolItem) → pool_at k s ≡ some p → p.name ≡ k
  held_name k p held =
      let (ps, listed) = available.lists s in
      let (unique, reads) = laws.list_reads s ps listed in name-find_pool k ps p (reads k ∙ held)

  auto_shift-own :
      (k : String) (p : PoolItem)
      → is_own k ≡ true
      → pool_at k s ≡ some p
      → auto_shift g event p ≡ p
  unfolding auto_shift
  auto_shift-own k p own held = ground (arith, ap is_own (held_name k p held), own)

  -- In auto mode a whole shift leaves each of auto mode's own pools exactly as it was, if it was not
  -- annotated, and no pool under the name of its copy. The API is available, and some zone is left.
  pub restore-update_own :
      (k : String) (p : PoolItem)
      → is_own k ≡ true
      → pool_at k s ≡ some p
      → is_annotated p ≡ false
      → (pool_at k (
            restore_karpenter_node_pool api nodes schedule g event
              (update_karpenter_node_pool api nodes schedule g event s))
          ≡ some p)
        × (pool_at (append k "-kss") (
              restore_karpenter_node_pool api nodes schedule g event
                (update_karpenter_node_pool api nodes schedule g event s))
            ≡ none)
  restore-update_own k p own held plain =
      let s' = update_karpenter_node_pool api nodes schedule g event s in
      (
        rw (pool_at-after k (own-eq-not_copy k own), held, auto_shift-own k p own held)
            (ap some (restored_with-plain (away_zone_name g event) p plain)),
        rw (
          restore_karpenter_node_pool-auto laws available schedule g event s' (auto s')
              (append k "-kss"),
          copy-eq-true k own,
        ),
      )

  -- In auto mode a whole shift gives back every other pool that had a requirement on zones, was not
  -- annotated, and named no zone twice: with the zones of its first such requirement in some order,
  -- and all else that the program reads of pools as it was, a missing annotation map read as empty.
  -- The impaired zone is known by name, the API is available, and some zone
  -- is left.
  pub restore-update_auto :
      (name : String) (k : String) (p : PoolItem) (zones : List String)
      → lookup (away_from event) g.zone_mapping ≡ some name
      → name ≢ ""
      → is_own k ≡ false
      → is_copy_name k ≡ false
      → pool_at k s ≡ some p
      → is_annotated p ≡ false
      → zone_values p.requirements ≡ some zones
      → IsOnce zones
      → (q : PoolItem) × (pool_at k (
            restore_karpenter_node_pool api nodes schedule g event
              (update_karpenter_node_pool api nodes schedule g event s))
          ≡ some q)
        × SamePool zones q p
  unfolding auto_shift
  restore-update_auto name k p zones known named other not_copy held plain first once =
      let updated = get_updated_zones g.zone_mapping g.cluster_zones event in
      (
        restored_with name (shifted name (away_from event) updated p),
        rw (
          pool_at-after k not_copy,
          held,
          held_name k p held,
          other,
          away_zone_name-known g event name known named,
          get_zone_name_known g.zone_mapping (away_from event) name known,
        ),
        SamePool-shifted name (away_from event) updated zones p plain first once,
      )
