-- ===== src/Zones/Updated.antt =====
-- What the zones that are left have to do with those of the cluster.
use sample_arc_autoshift_kar.Base.{
  ◌≤◌, ◌<◌, String, Bool, true, false, not, ◌&&◌, ◌||◌, Option, none, some, List, [], ◌∷◌, ◌==◌,
  eq_iff, ◌≡◌, ◌≢◌, refl, arith, contains, length, inl, inr, ◌⊎◌, Option-cases,
}
use sample_arc_autoshift_kar.Base.Dict.{
  Dict, lookup, insert, lookup-insert, Distinct, insert-Distinct,
}
use sample_arc_autoshift_kar.Event.{Event, away_from}
use sample_arc_autoshift_kar.Zones.{
  get_zone_name_from_zone_id, zone_set, keys, zones_of_subnets, other_zones, get_updated_zones,
}

pub contains-other_zones :
    (away z : String) (zones : List String)
    → contains z (other_zones away zones) ≡ (contains z zones && not (z == away))
unfolding contains other_zones
contains-other_zones away z [] = refl
contains-other_zones away z (x ∷ xs) =
    ground (arith, eq_iff x z, eq_iff x away, eq_iff z away, contains-other_zones away z xs)

pub length-other_zones-le :
    (away : String) (zones : List String) → length (other_zones away zones) ≤ length zones
unfolding other_zones
length-other_zones-le away [] = omega arith
length-other_zones-le away (x ∷ xs) = ground (arith, length-other_zones-le away xs)

-- The code's test of whether anything was filtered out: the lengths differ exactly if the zone was
-- there.
pub length-other_zones :
    (away : String) (zones : List String)
    → (length (other_zones away zones) ≡ length zones)
        × (other_zones away zones ≡ zones)
        × (contains away zones ≡ false)
      ⊎ (length (other_zones away zones) < length zones) × (contains away zones ≡ true)
unfolding other_zones contains
length-other_zones away [] = inl (refl, refl, refl)
length-other_zones away (x ∷ xs) =
    ground (arith, eq_iff x away, length-other_zones away xs, length-other_zones-le away xs)

-- The zones that are left are none only if the cluster has none.
pub get_updated_zones-ne_nil :
    (m : Dict String) (zones : List String) (event : Event)
    → zones ≢ []
    → get_updated_zones m zones event ≢ []
unfolding get_updated_zones
get_updated_zones-ne_nil m zones event h = ground arith

pub get_zone_name_known :
    (m : Dict String) (id name : String)
    → lookup id m ≡ some name
    → get_zone_name_from_zone_id m id ≡ name
unfolding get_zone_name_from_zone_id
get_zone_name_known m id name h = ground (arith, h)

pub get_zone_name_unknown :
    (m : Dict String) (id : String) → lookup id m ≡ none → get_zone_name_from_zone_id m id ≡ ""
unfolding get_zone_name_from_zone_id
get_zone_name_unknown m id h = ground (arith, h)

updated-eq-others :
    (m : Dict String) (zones : List String) (event : Event) (name other : String)
    → lookup (away_from event) m ≡ some name
    → name ≢ ""
    → contains other (other_zones name zones) ≡ true
    → get_updated_zones m zones event ≡ other_zones name zones
unfolding get_updated_zones contains
updated-eq-others m zones event name other known named there = ground (arith, known, eq_iff name "")

-- Where the impaired zone is known by name and the cluster has another zone, the zones that are left
-- are exactly those of the cluster other than the impaired one.
pub contains-get_updated_zones :
    (m : Dict String) (zones : List String) (event : Event) (name other z : String)
    → lookup (away_from event) m ≡ some name
    → name ≢ ""
    → contains other zones ≡ true
    → other ≢ name
    → contains z (get_updated_zones m zones event) ≡ (contains z zones && not (z == name))
contains-get_updated_zones m zones event name other z known named there differs =
    let e =
      updated-eq-others m zones event name other known named
        (rw contains-other_zones (ground (arith, there, eq_iff other name))) in
    rw e (contains-other_zones name z zones)

others-eq-nil :
    (name : String) (zones : List String)
    → ((z : String) → contains z zones ≡ true → name ≡ z)
    → other_zones name zones ≡ []
unfolding other_zones contains
others-eq-nil name [] only = refl
others-eq-nil name (x ∷ xs) only =
    let head : name ≡ x = only x (ground (arith, eq_iff x x)) in
    let rest = others-eq-nil name xs (λ z h. only z (ground (arith, h))) in
    ground (arith, head, eq_iff x name, rest)

some-injective_at : (o : Option String) (a b : String) → o ≡ some a → o ≡ some b → a ≡ b
some-injective_at o a b p q = cc

-- Where the impaired zone is unknown, or the cluster has no other zone, all zones are left.
pub get_updated_zones-eq_all :
    (m : Dict String) (zones : List String) (event : Event)
    → (lookup (away_from event) m ≡ none)
      ⊎ ((z : String) → contains z zones ≡ true → lookup (away_from event) m ≡ some z)
    → get_updated_zones m zones event ≡ zones
unfolding get_updated_zones
get_updated_zones-eq_all m zones event (inl unknown) =
    rw (get_zone_name_unknown m (away_from event) unknown, get_updated_zones)
get_updated_zones-eq_all m zones event (inr only) =
    elim (Option-cases (lookup (away_from event) m)) [
      | inl e ↦ rw (get_zone_name_unknown m (away_from event) e, get_updated_zones)
      | inr (name, e) ↦
          let none_left =
            others-eq-nil name zones (λ z h. some-injective_at _ name z e (only z h)) in
          rw (get_zone_name_known m (away_from event) name e, get_updated_zones)
            (ground (arith, none_left))
    ]

contains-keys :
    (z : String) (s : Dict Bool)
    → contains z (keys s) ≡ (elim (lookup z s) [ none ↦ false | some _ ↦ true ])
unfolding keys contains lookup
contains-keys z [] = refl
contains-keys z ((k, b) ∷ s) = ground (arith, contains-keys z s)

-- Whether a subnet of the list is in the zone.
unfoldable pub has_subnet : String → List (Option String) → Bool
has_subnet z [] = false
has_subnet z (none ∷ subnets) = has_subnet z subnets
has_subnet z (some zone ∷ subnets) = zone == z || has_subnet z subnets

lookup-zone_set :
    (z : String) (subnets : List (Option String)) (s : Dict Bool)
    → (elim (lookup z (zone_set subnets s)) [ none ↦ false | some _ ↦ true ])
      ≡ (has_subnet z subnets || (elim (lookup z s) [ none ↦ false | some _ ↦ true ]))
unfolding zone_set has_subnet
lookup-zone_set z [] s = refl
lookup-zone_set z (none ∷ subnets) s = lookup-zone_set z subnets s
lookup-zone_set z (some zone ∷ subnets) s =
    rw (lookup-zone_set z subnets (insert zone true s))
      (ground (arith, lookup-insert zone z true s))

zone_set-Distinct :
    (subnets : List (Option String)) (s : Dict Bool) → Distinct s → Distinct (zone_set subnets s)
unfolding zone_set
zone_set-Distinct [] s d = d
zone_set-Distinct (none ∷ subnets) s d = zone_set-Distinct subnets s d
zone_set-Distinct (some zone ∷ subnets) s d =
    zone_set-Distinct subnets (insert zone true s) (insert-Distinct zone true s d)

-- No zone stands twice in the list.
abbrev pub IsOnce : List String → Type 0
IsOnce [] = Unit
IsOnce (z ∷ zones) = (contains z zones ≡ false) × IsOnce zones

keys-IsOnce : (s : Dict Bool) → Distinct s → IsOnce (keys s)
unfolding keys
keys-IsOnce [] d = tt
keys-IsOnce ((k, b) ∷ s) d = (rw contains-keys (ground (arith, d.0)), keys-IsOnce s d.1)

-- The cluster's zones are exactly those of its subnets, and each stands once.
pub zones_of_subnets_lem :
    (subnets : List (Option String))
    → ((z : String) → contains z (zones_of_subnets subnets) ≡ has_subnet z subnets)
      × IsOnce (zones_of_subnets subnets)
zones_of_subnets_lem subnets = (
  λ z.
      unfold zones_of_subnets lookup in
      rw (contains-keys z (zone_set subnets [])) (ground (arith, lookup-zone_set z subnets [])),
  unfold zones_of_subnets in keys-IsOnce (zone_set subnets []) (zone_set-Distinct subnets [] tt),
)
