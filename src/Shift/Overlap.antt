-- ===== src/Shift/Overlap.antt =====
-- Shifts of two zones that overlap in time.
use sample_arc_autoshift_kar.Base.{
  String, true, false, ◌||◌, Option, some, List, [], ◌∷◌, ◌++◌, eq_iff, eq_refl, ◌≡◌, ◌≢◌, refl, ap,
  ◌∙◌, arith, contains,
}
use sample_arc_autoshift_kar.Event.{Event, away_from}
use sample_arc_autoshift_kar.Zones.{other_zones, get_updated_zones}
use sample_arc_autoshift_kar.Zones.Updated.{contains-other_zones}
use sample_arc_autoshift_kar.Store.{NodeInfo}
use sample_arc_autoshift_kar.Nodes.Api.{Node, NodeApi}
use sample_arc_autoshift_kar.Pools.{PoolItem}
use sample_arc_autoshift_kar.Pools.Api.{PoolApi, IsPoolApi, IsAvailable}
use sample_arc_autoshift_kar.Shift.Evacuation.{IsKnown, standard_shift-known, zone_values-shifted}
use sample_arc_autoshift_kar.Update.{Globals, list_installed_crds, update_karpenter_node_pool}
use sample_arc_autoshift_kar.Update.Pool.{zone_values, set_zone_values, marked, shifted}
use sample_arc_autoshift_kar.Update.Pools.{standard_shift, update_karpenter_node_pool-standard}
use sample_arc_autoshift_kar.Restore.{away_zone_name, restore_karpenter_node_pool}
use sample_arc_autoshift_kar.Restore.Pools.{
  unmarked, restored_with, restore_karpenter_node_pool-standard,
}
use sample_arc_autoshift_kar.Restore.Roundtrip.{away_zone_name-known}
use sample_arc_autoshift_kar.Restore.Requirements.{
  zone_values-set_zone_values, is_annotated-marked, is_annotated-unmarked, shifted-named,
  restored_with-annotated, restored_with-plain, requirements-unmarked,
}

contains-append :
    (z : String) (xs ys : List String) → contains z (xs ++ ys) ≡ (contains z xs || contains z ys)
unfolding contains
contains-append z [] ys = refl
contains-append z (x ∷ xs) ys = ground (arith, contains-append z xs ys)

-- Two zones go, one after the other, and the end of the first shift takes the only annotation away.
module _ (one two : String) (a b : String) (u v : List String) (p : PoolItem) (zones : List String)
    (first : zone_values p.requirements ≡ some zones) (has_two : contains two zones ≡ true)
    (apart : two ≢ one) where
  abbrev after_one : PoolItem
  after_one = shifted one a u p

  abbrev left_by_one : List String
  left_by_one = other_zones one zones

  values_after_one : zone_values after_one.requirements ≡ some left_by_one
  values_after_one = zone_values-shifted one a u p ∙ ground (arith, first)

  abbrev after_two : PoolItem
  after_two = shifted two b v after_one

  after_two-marked :
      after_two
      ≡ marked b (record after_one {
        requirements = set_zone_values (other_zones two left_by_one) after_one.requirements;
      })
  after_two-marked =
      shifted-named two b v left_by_one after_one values_after_one
        (ground (arith, contains-other_zones one two zones, has_two, apart, eq_iff two one))

  values_after_two : zone_values after_two.requirements ≡ some (other_zones two left_by_one)
  values_after_two = zone_values-shifted two b v after_one ∙ ground (arith, values_after_one)

  abbrev restored_one : PoolItem
  restored_one = unmarked (record after_two {
    requirements = set_zone_values (other_zones two left_by_one ++ one ∷ []) after_two.requirements;
  })

  restored_one-eq : restored_with one after_two ≡ restored_one
  restored_one-eq =
      restored_with-annotated one (other_zones two left_by_one) after_two
        (rw after_two-marked (is_annotated-marked b _)) values_after_two

  restored_both : restored_with two (restored_with one after_two) ≡ restored_one
  restored_both =
      rw restored_one-eq (restored_with-plain two restored_one (is_annotated-unmarked _))

  values_at_the_end :
      zone_values restored_one.requirements ≡ some (other_zones two left_by_one ++ one ∷ [])
  values_at_the_end = rw requirements-unmarked (
      zone_values-set_zone_values _ (other_zones two left_by_one) after_two.requirements
        values_after_two)

  zone_lost : contains two (other_zones two left_by_one ++ one ∷ []) ≡ false
  unfolding contains
  zone_lost = ground (
    arith,
    contains-append two (other_zones two left_by_one) (one ∷ []),
    contains-other_zones two two left_by_one,
    eq_refl two,
    apart,
    eq_iff one two,
  )

module _ {S : Type 0} {api : PoolApi S} {nodes : NodeApi S} {pool_at : String → S → Option PoolItem}
    {node_at : String → S → Option Node} (laws : IsPoolApi api nodes pool_at node_at)
    (available : IsAvailable api) (standard : (s : S) → list_installed_crds api s ≡ false)
    (schedule : List (List NodeInfo) → List (List NodeInfo)) (g : Globals)
    (first second : Event) where
  abbrev shift_both : S → S
  shift_both s = restore_karpenter_node_pool api nodes schedule g second (
      restore_karpenter_node_pool api nodes schedule g first (
        update_karpenter_node_pool api nodes schedule g second
          (update_karpenter_node_pool api nodes schedule g first s)))

  pool_at-shift_both :
      (k : String) (s : S) (p : PoolItem)
      → pool_at k s ≡ some p
      → pool_at k (shift_both s)
        ≡ some (
            restored_with (away_zone_name g second) (
              restored_with
                (away_zone_name g first)
                (standard_shift g second (standard_shift g first p))))
  pool_at-shift_both k s p h =
      let started_one = update_karpenter_node_pool api nodes schedule g first s in
      let started_two = update_karpenter_node_pool api nodes schedule g second started_one in
      let ended_one = restore_karpenter_node_pool api nodes schedule g first started_two in
      rw
        (restore_karpenter_node_pool-standard laws available schedule g second ended_one
          (standard ended_one) k)
        (rw
          (restore_karpenter_node_pool-standard laws available schedule g first started_two
            (standard started_two) k)
          (rw
            (update_karpenter_node_pool-standard laws available schedule g second started_one
              (standard started_one) k)
            (rw
              (update_karpenter_node_pool-standard laws available schedule g first s (standard s) k)
              (rw h))))

  -- Where a second shift starts before the first one has ended, and the first ends first, a pool
  -- that named the zone of the second shift does not get it back, although both shifts have ended.
  -- The two zones differ and are known by name, and for each the cluster has another zone. The
  -- cluster is in standard mode, and its API is available.
  pub zone_lost_by_overlap :
      (one two other_one other_two : String) (k : String) (s : S) (p : PoolItem)
      (zones : List String)
      → IsKnown g first one other_one
      → IsKnown g second two other_two
      → two ≢ one
      → pool_at k s ≡ some p
      → zone_values p.requirements ≡ some zones
      → contains two zones ≡ true
      → (q : PoolItem) × (left : List String) × (pool_at k (
            restore_karpenter_node_pool api nodes schedule g second (
              restore_karpenter_node_pool api nodes schedule g first (
                update_karpenter_node_pool api nodes schedule g second
                  (update_karpenter_node_pool api nodes schedule g first s))))
          ≡ some q)
        × (zone_values q.requirements ≡ some left)
        × (contains two left ≡ false)
  zone_lost_by_overlap one two other_one other_two k s p zones known_one known_two apart held named
        has_two =
      let a = away_from first in
      let b = away_from second in
      let u = get_updated_zones g.zone_mapping g.cluster_zones first in
      let v = get_updated_zones g.zone_mapping g.cluster_zones second in
      (
        restored_one one two a b u v p zones named has_two apart,
        other_zones two (other_zones one zones) ++ one ∷ [],
        pool_at-shift_both k s p held
            ∙ rw
                (
                  away_zone_name-known g first one known_one.mapped known_one.named,
                  away_zone_name-known g second two known_two.mapped known_two.named,
                  standard_shift-known g first one other_one p known_one,
                  standard_shift-known g second two other_two (shifted one a u p) known_two,
                )
                (ap some (restored_both one two a b u v p zones named has_two apart)),
        values_at_the_end one two a b u v p zones named has_two apart,
        zone_lost one two a b u v p zones named has_two apart,
      )
