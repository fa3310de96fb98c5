-- ===== src/Shift/Operators.antt =====
-- Which zones the requirements of a pool permit. Karpenter reads them, by the operator of each, which
-- the code of app/main.go never looks at.
use sample_arc_autoshift_kar.Base.{
  String, Bool, true, not, ◌&&◌, none, some, List, [], ◌∷◌, ◌++◌, ◌==◌, eq_iff, if◌then◌else◌, ◌≡◌,
  refl, arith, contains,
}
use sample_arc_autoshift_kar.Zones.{other_zones}
use sample_arc_autoshift_kar.Zones.Updated.{contains-other_zones}
use sample_arc_autoshift_kar.Pools.{PoolItem, Requirement, zone_key}
use sample_arc_autoshift_kar.Update.{Globals}
use sample_arc_autoshift_kar.Update.Pool.{zone_values, set_zone_values}

-- Whether a requirement with this operator and these values admits a value.
abbrev pub Admits : Type 0
Admits = String → List String → String → Bool

-- What Karpenter documents of two of the operators.
pub record IsAdmits (admits : Admits) : Type 0 where
  pub admits_in : (values : List String) (z : String) → admits "In" values z ≡ contains z values
  pub admits_not_in :
      (values : List String) (z : String) → admits "NotIn" values z ≡ not (contains z values)

-- Whether the first requirement on zones, if there is one, lists the zones that are allowed.
unfoldable pub names_allowed : List Requirement → Bool
names_allowed [] = true
names_allowed (req ∷ reqs) =
    if req.key == zone_key then req.operator == "In" else names_allowed reqs

module _ (admits : Admits) where
  -- Whether every requirement on zones admits the zone.
  unfoldable pub permits : List Requirement → String → Bool
  permits [] z = true
  permits (req ∷ reqs) z =
      (if req.key == zone_key then admits req.operator req.values z else true) && permits reqs z

  -- Whether a pool may launch nodes in a zone of the cluster.
  abbrev pub usable : Globals → PoolItem → String → Bool
  usable g p z = permits p.requirements z && contains z g.cluster_zones

  pub permits-append :
      (before after : List Requirement) (z : String)
      → permits (before ++ after) z ≡ (permits before z && permits after z)
  unfolding permits
  permits-append [] after z = refl
  permits-append (req ∷ reqs) after z = ground (arith, permits-append reqs after z)

  -- Requirements on other things permit every zone.
  pub permits-free :
      (reqs : List Requirement) (z : String) → zone_values reqs ≡ none → permits reqs z ≡ true
  unfolding permits zone_values
  permits-free [] z free = refl
  permits-free (req ∷ reqs) z free = ground (arith, permits-free reqs z)

  -- A zone that is taken off the first requirement is no longer permitted, if that requirement lists
  -- the zones that are allowed.
  pub permits-set_zone_values :
      IsAdmits admits
      → (name : String) (zones : List String) (reqs : List Requirement) (z : String)
      → names_allowed reqs ≡ true
      → zone_values reqs ≡ some zones
      → permits (set_zone_values (other_zones name zones) reqs) z
        ≡ (permits reqs z && not (z == name))
  unfolding permits zone_values set_zone_values names_allowed
  permits-set_zone_values laws name zones [] z allowed first = cc
  permits-set_zone_values laws name zones (req ∷ reqs) z allowed first = ground (
    arith,
    eq_iff req.operator "In",
    laws.admits_in zones z,
    laws.admits_in (other_zones name zones) z,
    contains-other_zones name z zones,
    permits-set_zone_values laws name zones reqs z,
  )

-- The first requirement on zones stands after requirements on other things.
pub zone_values-after :
    (before after : List Requirement) (req : Requirement)
    → zone_values before ≡ none
    → req.key ≡ zone_key
    → zone_values (before ++ req ∷ after) ≡ some req.values
unfolding zone_values
zone_values-after [] after req free here = ground (arith, eq_iff req.key zone_key)
zone_values-after (r ∷ rs) after req free here =
    ground (arith, here, zone_values-after rs after req)

pub set_zone_values-after :
    (zones : List String) (before after : List Requirement) (req : Requirement)
    → zone_values before ≡ none
    → req.key ≡ zone_key
    → set_zone_values zones (before ++ req ∷ after)
      ≡ before ++ record req { values = zones } ∷ after
unfolding zone_values set_zone_values
set_zone_values-after zones [] after req free here = ground (arith, eq_iff req.key zone_key)
set_zone_values-after zones (r ∷ rs) after req free here =
    ground (arith, here, set_zone_values-after zones rs after req)
