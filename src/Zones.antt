-- ===== src/Zones.antt =====
-- The zones of app/main.go: the cached mapping from zone ids to zone names, the zones of the cluster,
-- and those that are left when one is impaired.
pub mod Updated
use sample_arc_autoshift_kar.Base.{
  String, Bool, true, false, not, Option, none, some, List, [], ◌∷◌, ◌==◌, if◌then◌else◌,
}
use sample_arc_autoshift_kar.Base.Dict.{Dict, lookup, insert}
use sample_arc_autoshift_kar.Event.{Event, away_from}

-- What EC2 reports of an availability zone; a nil pointer is `none`.
pub record AvailabilityZone : Type 0 where
  pub zone_id : Option String
  pub zone_name : Option String

-- `if az.ZoneId != nil && az.ZoneName != nil { zoneMapping[*az.ZoneId] = *az.ZoneName }`
unfoldable pub map_zone : Option String → Option String → Dict String → Dict String
map_zone (some zone_id) (some zone_name) m = insert zone_id zone_name m
map_zone _ _ m = m

-- The loop of `initializeZoneMapping`.
unfoldable pub load_zone_mapping : List AvailabilityZone → Dict String → Dict String
unfolding map_zone
load_zone_mapping [] m = m
load_zone_mapping (az ∷ azs) m = load_zone_mapping azs (map_zone az.zone_id az.zone_name m)

-- The empty text stands for an unknown zone.
unfoldable pub get_zone_name_from_zone_id : Dict String → String → String
get_zone_name_from_zone_id zone_mapping zone_id = elim (lookup zone_id zone_mapping) [
  | none ↦ ""
  | some zone_name ↦ zone_name
]

-- `zoneSet[*subnet.AvailabilityZone] = true` for each subnet that has a zone.
unfoldable pub zone_set : List (Option String) → Dict Bool → Dict Bool
zone_set [] m = m
zone_set (subnet ∷ subnets) m =
    zone_set subnets (elim subnet [ none ↦ m | some zone ↦ insert zone true m ])

-- `for zone := range zoneSet { zones = append(zones, zone) }`
unfoldable pub keys : Dict Bool → List String
keys [] = []
keys ((zone, _) ∷ m) = zone ∷ keys m

-- The end of `getEKSClusterZones`: the zones of the subnets, each once.
unfoldable pub zones_of_subnets : List (Option String) → List String
unfolding zone_set keys
zones_of_subnets subnets = keys (zone_set subnets [])

-- The loops that keep the zones other than the impaired one.
unfoldable pub other_zones : String → List String → List String
other_zones away_zone_name [] = []
other_zones away_zone_name (zone ∷ zones) =
    if zone == away_zone_name
    then other_zones away_zone_name zones
    else zone ∷ other_zones away_zone_name zones

unfoldable pub get_updated_zones : Dict String → List String → Event → List String
unfolding get_zone_name_from_zone_id other_zones away_from
get_updated_zones zone_mapping cluster_zones event =
    let away_zone_name = get_zone_name_from_zone_id zone_mapping (away_from event) in
    if away_zone_name == ""
    then cluster_zones
    else (elim (other_zones away_zone_name cluster_zones) [
      | [] ↦ cluster_zones
      | zone ∷ zones ↦ zone ∷ zones
    ])
