-- ===== src/Tests/Pools.antt =====
-- The start and the end of a shift at a concrete cluster.
use mathlib.Core.Option
use sample_arc_autoshift_kar.Base.{
  if◌then◌else◌, String, Bool, true, false, none, some, List, [], ◌∷◌, ◌++◌, ◌≡◌, refl, arith, ◌==◌,
  eq_iff, contains, not, ◌&&◌,
}
use sample_arc_autoshift_kar.Base.Dict.{lookup}
use sample_arc_autoshift_kar.Event.{Event, away_from}
use sample_arc_autoshift_kar.Zones.{get_updated_zones}
use sample_arc_autoshift_kar.Zones.Updated.{IsOnce}
use sample_arc_autoshift_kar.Pools.{PoolItem, zone_key}
use sample_arc_autoshift_kar.Pools.Api.{find_pool}
use sample_arc_autoshift_kar.Update.{list_installed_crds, update_karpenter_node_pool}
use sample_arc_autoshift_kar.Update.Pool.{zone_values}
use sample_arc_autoshift_kar.Update.Pools.{standard_shift, update_karpenter_node_pool-standard}
use sample_arc_autoshift_kar.Restore.{away_zone_name, is_annotated, restore_karpenter_node_pool}
use sample_arc_autoshift_kar.Restore.Pools.{restored_with, restore_karpenter_node_pool-standard}
use sample_arc_autoshift_kar.Restore.Auto.{is_copy, restore_karpenter_node_pool-auto}
use sample_arc_autoshift_kar.Restore.Roundtrip.{
  SamePool, restore-update, restore-update_free, restore-update_unknown,
}
use sample_arc_autoshift_kar.Shift.Evacuation.{IsKnown, evacuated, not_in_opened}
use sample_arc_autoshift_kar.Shift.Operators.{IsAdmits, names_allowed, usable}
use sample_arc_autoshift_kar.Shift.Overlap.{zone_lost_by_overlap}
use sample_arc_autoshift_kar.Tests.World.{
  World, auto_pools, auto-IsPoolApi, auto-IsAvailable, pool_at, world_nodes, world_pools,
  world-IsPoolApi, world-IsAvailable,
}
use sample_arc_autoshift_kar.Tests.Data.{
  zoned_pool, free_pool, world, shifted_world, started_a, started_b, started_unknown, globals,
}
use sample_arc_autoshift_kar.Tests.Store.{
  zone_names, mapped_a, named_a, other_there, others_differ, unmapped, zones_exist,
}
use sample_arc_autoshift_kar.Tests.Nodes.{in_order}

pub is_standard : (s : World) → list_installed_crds world_pools s ≡ false
unfolding list_installed_crds
is_standard s = refl

abbrev update : Event → World → World
update = update_karpenter_node_pool world_pools world_nodes in_order globals

abbrev restore : Event → World → World
restore = restore_karpenter_node_pool world_pools world_nodes in_order globals

pub holds_zoned : pool_at "zoned" world ≡ some zoned_pool
unfolding find_pool
holds_zoned = refl

holds_free : pool_at "free" world ≡ some free_pool
unfolding find_pool
holds_free = refl

pub zoned_plain : is_annotated zoned_pool ≡ false
unfolding is_annotated
zoned_plain = refl

free_plain : is_annotated free_pool ≡ false
unfolding is_annotated
free_plain = refl

pub zoned_values : zone_values zoned_pool.requirements ≡ some zone_names
unfolding zone_values
zoned_values = refl

free_values : zone_values free_pool.requirements ≡ none
unfolding zone_values
free_values = refl

pub names-IsOnce : IsOnce zone_names
unfolding contains
names-IsOnce = (refl, (refl, tt))

pub IsKnown-a : IsKnown globals started_a "us-east-1a" "us-east-1b"
IsKnown-a = record {
  mapped = mapped_a;
  named = named_a;
  there = other_there;
  differs = others_differ;
}

IsKnown-b : IsKnown globals started_b "us-east-1b" "us-east-1a"
unfolding lookup away_from contains
IsKnown-b = record {
  mapped = refl;
  named = ground (arith, eq_iff "us-east-1b" "");
  there = refl;
  differs = ground (arith, eq_iff "us-east-1a" "us-east-1b");
}

left_a : get_updated_zones globals.zone_mapping globals.cluster_zones started_a ≡ "us-east-1b" ∷ []
unfolding get_updated_zones lookup
left_a = refl

has_b : contains "us-east-1b" zone_names ≡ true
has_b = other_there

update_karpenter_node_pool-standard_example :
    pool_at "zoned" (update started_a world)
    ≡ Option.map (standard_shift globals started_a) (pool_at "zoned" world)
update_karpenter_node_pool-standard_example =
    update_karpenter_node_pool-standard world-IsPoolApi world-IsAvailable in_order globals started_a
      world (is_standard world) "zoned"

restore_karpenter_node_pool-standard_example :
    pool_at "zoned" (restore started_a (update started_a world))
    ≡ Option.map
        (restored_with (away_zone_name globals started_a))
        (pool_at "zoned" (update started_a world))
restore_karpenter_node_pool-standard_example =
    restore_karpenter_node_pool-standard world-IsPoolApi world-IsAvailable in_order globals
      started_a (update started_a world) (is_standard (update started_a world)) "zoned"

restore-update_example :
    (q : PoolItem) × (pool_at "zoned" (restore started_a (update started_a world)) ≡ some q)
    × SamePool zone_names q zoned_pool
restore-update_example =
    restore-update world-IsPoolApi world-IsAvailable is_standard in_order globals started_a
      "us-east-1a" "zoned" world zoned_pool zone_names mapped_a named_a holds_zoned zoned_plain
      zoned_values names-IsOnce

restore-update_free_example :
    (q : PoolItem) × (pool_at "free" (restore started_a (update started_a world)) ≡ some q)
    × (zone_values q.requirements
        ≡ some ("us-east-1b" ∷ [] ++ away_zone_name globals started_a ∷ []))
restore-update_free_example =
    restore-update_free world-IsPoolApi world-IsAvailable is_standard in_order globals started_a
      "free" world free_pool "us-east-1b" [] left_a holds_free free_plain free_values

restore-update_unknown_example :
    (q : PoolItem) × (pool_at "free" (restore started_unknown (update started_unknown world))
      ≡ some q)
    × (zone_values q.requirements ≡ some (globals.cluster_zones ++ away_from started_unknown ∷ []))
restore-update_unknown_example =
    restore-update_unknown world-IsPoolApi world-IsAvailable is_standard in_order globals
      started_unknown "free" world free_pool unmapped zones_exist holds_free free_plain free_values

-- How the test's Karpenter reads an operator; it admits nothing by one that it does not know.
abbrev reads : String → List String → String → Bool
reads operator values z =
    if operator == "In"
    then contains z values
    else if operator == "NotIn"
    then not (contains z values)
    else false

reads-IsAdmits : IsAdmits reads
reads-IsAdmits = record {
  admits_in = λ values z. ground arith;
  admits_not_in = λ values z. ground (arith, eq_iff "NotIn" "In");
}

zoned_allowed : names_allowed zoned_pool.requirements ≡ true
unfolding names_allowed
zoned_allowed = refl

evacuated_example :
    (q : PoolItem) × (pool_at "zoned" (update started_a world) ≡ some q)
    × ((z : String)
        → usable reads globals q z ≡ (usable reads globals zoned_pool z && not (z == "us-east-1a")))
evacuated_example =
    evacuated reads-IsAdmits world-IsPoolApi world-IsAvailable is_standard in_order globals
      started_a "us-east-1a" "us-east-1b" "zoned" world zoned_pool IsKnown-a holds_zoned
      zoned_allowed

-- A pool that keeps off one zone.
abbrev avoiding_pool : PoolItem
avoiding_pool = record zoned_pool {
  name = "avoiding";
  requirements = record { key = zone_key; operator = "NotIn"; values = "us-east-1a" ∷ [] } ∷ [];
}

abbrev avoiding_world : World
avoiding_world = record world { pools = avoiding_pool ∷ [] }

real_a : contains "us-east-1a" globals.cluster_zones ≡ true
unfolding contains
real_a = refl

holds_avoiding : pool_at "avoiding" avoiding_world ≡ some avoiding_pool
unfolding find_pool
holds_avoiding = refl

no_zones : zone_values [] ≡ none
unfolding zone_values
no_zones = refl

avoids_a : contains "us-east-1a" ("us-east-1a" ∷ []) ≡ true
unfolding contains
avoids_a = refl

not_in_opened_example :
    (usable reads globals avoiding_pool "us-east-1a" ≡ false)
    × ((q : PoolItem) × (pool_at "avoiding" (update started_a avoiding_world) ≡ some q)
        × (usable reads globals q "us-east-1a" ≡ true))
not_in_opened_example =
    not_in_opened reads-IsAdmits world-IsPoolApi world-IsAvailable is_standard in_order globals
      started_a "us-east-1a" "us-east-1b" "avoiding" avoiding_world avoiding_pool [] []
      ("us-east-1a" ∷ []) IsKnown-a real_a holds_avoiding refl no_zones no_zones avoids_a

zone_lost_by_overlap_example :
    (q : PoolItem) × (left : List String) × (pool_at "zoned"
        (restore started_b (restore started_a (update started_b (update started_a world))))
      ≡ some q)
    × (zone_values q.requirements ≡ some left)
    × (contains "us-east-1b" left ≡ false)
zone_lost_by_overlap_example =
    zone_lost_by_overlap world-IsPoolApi world-IsAvailable is_standard in_order globals started_a
      started_b "us-east-1a" "us-east-1b" "us-east-1b" "us-east-1a" "zoned" world zoned_pool
      zone_names IsKnown-a IsKnown-b others_differ holds_zoned zoned_values has_b

in_auto_mode : list_installed_crds auto_pools shifted_world ≡ true
unfolding list_installed_crds
in_auto_mode = refl

restore_karpenter_node_pool-auto_example :
    pool_at "system-kss"
      (restore_karpenter_node_pool auto_pools world_nodes in_order globals started_a shifted_world)
    ≡ (if is_copy "system-kss"
        then none
        else Option.map
            (restored_with (away_zone_name globals started_a))
            (pool_at "system-kss" shifted_world))
restore_karpenter_node_pool-auto_example =
    restore_karpenter_node_pool-auto auto-IsPoolApi auto-IsAvailable in_order globals started_a
      shifted_world in_auto_mode "system-kss"
