-- ===== src/Restore/Requirements.antt =====
-- The first requirement on zones, read and written, and what the two shifts make of it.
use mathlib.Core.List.{Perm, perm_append_singleton}
use mathlib.Core.List.Perm
use sample_arc_autoshift_kar.Base.{
  String, true, false, none, some, List, [], ◌∷◌, ◌++◌, ◌==◌, eq_iff, eq_refl, ◌≡◌, refl, ap, ◌∙◌,
  sym, arith, contains, Bool-cases, Option-cases, inl, inr,
}
use sample_arc_autoshift_kar.Base.Dict.{Dict, insert, delete, lookup, lookup-insert, lookup-delete}
use sample_arc_autoshift_kar.Zones.{other_zones}
use sample_arc_autoshift_kar.Zones.Updated.{IsOnce}
use sample_arc_autoshift_kar.Pools.{PoolItem, Requirement, zone_key, away_zones}
use sample_arc_autoshift_kar.Update.Pool.{zone_values, set_zone_values, marked, shifted}
use sample_arc_autoshift_kar.Restore.{is_annotated}
use sample_arc_autoshift_kar.Restore.Pools.{unmarked, restored_with}

pub zone_values-set_zone_values :
    (vs zones : List String) (reqs : List Requirement)
    → zone_values reqs ≡ some zones
    → zone_values (set_zone_values vs reqs) ≡ some vs
unfolding zone_values set_zone_values
zone_values-set_zone_values vs zones [] h = cc
zone_values-set_zone_values vs zones (r ∷ rs) h =
    ground (arith, zone_values-set_zone_values vs zones rs)

pub set_zone_values-set_zone_values :
    (vs ws : List String) (reqs : List Requirement)
    → set_zone_values vs (set_zone_values ws reqs) ≡ set_zone_values vs reqs
unfolding set_zone_values
set_zone_values-set_zone_values vs ws [] = refl
set_zone_values-set_zone_values vs ws (r ∷ rs) =
    ground (arith, set_zone_values-set_zone_values vs ws rs)

pub set_zone_values_self :
    (zones : List String) (reqs : List Requirement)
    → zone_values reqs ≡ some zones
    → set_zone_values zones reqs ≡ reqs
unfolding zone_values set_zone_values
set_zone_values_self zones [] h = refl
set_zone_values_self zones (r ∷ rs) h = ground (arith, set_zone_values_self zones rs)

pub zone_values-append :
    (r : Requirement) (reqs : List Requirement)
    → zone_values reqs ≡ none
    → r.key ≡ zone_key
    → zone_values (reqs ++ r ∷ []) ≡ some r.values
unfolding zone_values
zone_values-append r [] h k = ground (arith, k, eq_iff r.key zone_key)
zone_values-append r (q ∷ qs) h k = ground (arith, zone_values-append r qs)

pub is_annotated-marked : (away : String) (p : PoolItem) → is_annotated (marked away p) ≡ true
unfolding is_annotated marked
is_annotated-marked away p = ground (
  arith,
  eq_refl away_zones,
  lookup-insert away_zones away_zones away (elim p.annotations [ none ↦ [] | some m ↦ m ]),
)

pub is_annotated-unmarked : (p : PoolItem) → is_annotated (unmarked p) ≡ false
unfolding is_annotated unmarked
is_annotated-unmarked p = elim (Option-cases p.annotations) [
  | inl e ↦ ground (arith, e)
  | inr (m, e) ↦ ground (arith, e, eq_refl away_zones, lookup-delete away_zones away_zones m)
]

pub other_zones-eq_of_absent :
    (name : String) (zones : List String)
    → contains name zones ≡ false
    → other_zones name zones ≡ zones
unfolding contains other_zones
other_zones-eq_of_absent name [] h = refl
other_zones-eq_of_absent name (z ∷ zs) h = ground (arith, other_zones-eq_of_absent name zs)

other_zones_here :
    (name z : String) (zs : List String)
    → IsOnce (z ∷ zs)
    → (z == name) ≡ true
    → other_zones name (z ∷ zs) ++ name ∷ [] ≡ zs ++ z ∷ []
unfolding other_zones
other_zones_here name z zs u e = ground (
  arith,
  eq_iff z name,
  ap (λ y. contains y zs) ((eq_iff z name).0 e),
  u.0,
  other_zones-eq_of_absent name zs,
)

other_zones_later :
    (name z : String) (zs : List String)
    → (z == name) ≡ false
    → (other_zones name (z ∷ zs) ≡ z ∷ other_zones name zs)
      × (contains name (z ∷ zs) ≡ contains name zs)
unfolding other_zones contains
other_zones_later name z zs e = ground arith

-- A zone that is taken out and put back stands last.
pub perm-other_zones :
    (name : String) (zones : List String)
    → IsOnce zones
    → contains name zones ≡ true
    → Perm (other_zones name zones ++ name ∷ []) zones
perm-other_zones name [] u h = unfold contains in absurd (cc h)
perm-other_zones name (z ∷ zs) u h = elim (Bool-cases (z == name)) [
  | inl e ↦ rw (other_zones_here name z zs u e) (perm_append_singleton z zs)
  | inr e ↦
      let (rest, same) = other_zones_later name z zs e in
      rw rest (Perm.cons z (perm-other_zones name zs u.1 (sym same ∙ h)))
]

-- What the start of a shift makes of a pool, by its first requirement on zones.
pub shifted-named :
    (name away : String) (updated zones : List String) (p : PoolItem)
    → zone_values p.requirements ≡ some zones
    → contains name zones ≡ true
    → shifted name away updated p
      ≡ marked away
          (record p { requirements = set_zone_values (other_zones name zones) p.requirements })
unfolding shifted
shifted-named name away updated zones p h c = ground (arith, h, c)

pub shifted-unnamed :
    (name away : String) (updated zones : List String) (p : PoolItem)
    → zone_values p.requirements ≡ some zones
    → contains name zones ≡ false
    → shifted name away updated p ≡ p
unfolding shifted
shifted-unnamed name away updated zones p h c = ground (arith, h, c)

pub shifted-free :
    (name away : String) (updated : List String) (p : PoolItem)
    → zone_values p.requirements ≡ none
    → shifted name away updated p
      ≡ marked away (record p {
        requirements =
            p.requirements ++ record { key = zone_key; operator = "In"; values = updated } ∷ [];
      })
unfolding shifted
shifted-free name away updated p h = ground (arith, h)

pub restored_with-annotated :
    (away : String) (zones : List String) (p : PoolItem)
    → is_annotated p ≡ true
    → zone_values p.requirements ≡ some zones
    → restored_with away p
      ≡ unmarked (record p { requirements = set_zone_values (zones ++ away ∷ []) p.requirements })
unfolding restored_with
restored_with-annotated away zones p a h = ground (arith, a, h)

pub restored_with-plain :
    (away : String) (p : PoolItem) → is_annotated p ≡ false → restored_with away p ≡ p
unfolding restored_with
restored_with-plain away p a = ground (arith, a)

pub restored_with-free :
    (away : String) (p : PoolItem) → zone_values p.requirements ≡ none → restored_with away p ≡ p
unfolding restored_with
restored_with-free away p h = ground (arith, h)

-- Marking a pool leaves its requirements alone.
pub requirements-marked :
    (away : String) (p : PoolItem) → (marked away p).requirements ≡ p.requirements
unfolding marked
requirements-marked away p = refl

pub requirements-unmarked : (p : PoolItem) → (unmarked p).requirements ≡ p.requirements
unfolding unmarked
requirements-unmarked p = refl

-- A pool, as far as the program reads it, as it is but for its requirements, a missing annotation map read as an empty one.
pub record SameElse (p q : PoolItem) : Type 0 where
  pub api_version : p.api_version ≡ q.api_version
  pub kind : p.kind ≡ q.kind
  pub name : p.name ≡ q.name
  pub disruption : p.disruption ≡ q.disruption
  pub taints : p.taints ≡ q.taints
  pub node_class_ref : p.node_class_ref ≡ q.node_class_ref
  pub annotations :
      (elim p.annotations [ none ↦ [] | some m ↦ m ])
      ≡ (elim q.annotations [ none ↦ [] | some m ↦ m ])

delete-insert : (k v : String) (m : Dict String) → lookup k m ≡ none → delete k (insert k v m) ≡ m
unfolding lookup insert delete
delete-insert k v [] h = rw eq_refl
delete-insert k v ((j, w) ∷ m) h = ground (arith, delete-insert k v m)

delete-insert_nil : (k v : String) → delete k (insert k v []) ≡ []
unfolding lookup
delete-insert_nil k v = delete-insert k v [] refl

delete_absent : (k : String) (m : Dict String) → lookup k m ≡ none → delete k m ≡ m
unfolding lookup delete
delete_absent k [] h = refl
delete_absent k ((j, w) ∷ m) h = ground (arith, delete_absent k m)

pub unmarked-marked :
    (away : String) (p : PoolItem) (rs ts : List Requirement)
    → is_annotated p ≡ false
    → SameElse
        (unmarked (record (marked away (record p { requirements = rs })) { requirements = ts }))
        p
unfolding unmarked marked is_annotated
unmarked-marked away p rs ts a = elim (Option-cases p.annotations) [
  | inl e ↦ ground (arith, e, delete-insert_nil away_zones away)
  | inr (m, e) ↦ ground (arith, e, a, delete-insert away_zones away m)
]
