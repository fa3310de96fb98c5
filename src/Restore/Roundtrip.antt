-- ===== src/Restore/Roundtrip.antt =====
-- What the pools of a cluster in standard mode are after the start and the end of a shift.
use mathlib.Core.Option
use mathlib.Core.List.{Perm}
use mathlib.Core.List.Perm
use sample_arc_autoshift_kar.Base.{
  String, true, false, Option, none, some, List, [], ◌∷◌, ◌++◌, eq_iff, ◌≡◌, ◌≢◌, refl, sym, arith,
  contains, Bool-cases, inl, inr,
}
use sample_arc_autoshift_kar.Base.Dict.{lookup}
use sample_arc_autoshift_kar.Event.{Event, away_from}
use sample_arc_autoshift_kar.Zones.{get_zone_name_from_zone_id, other_zones, get_updated_zones}
use sample_arc_autoshift_kar.Zones.Updated.{
  IsOnce, get_zone_name_known, get_zone_name_unknown, get_updated_zones-eq_all,
}
use sample_arc_autoshift_kar.Store.{NodeInfo}
use sample_arc_autoshift_kar.Nodes.Api.{Node, NodeApi}
use sample_arc_autoshift_kar.Pools.{PoolItem, Requirement, zone_key}
use sample_arc_autoshift_kar.Pools.Api.{PoolApi, IsPoolApi, IsAvailable}
use sample_arc_autoshift_kar.Update.{Globals, list_installed_crds, update_karpenter_node_pool}
use sample_arc_autoshift_kar.Update.Pool.{zone_values, set_zone_values, marked, shifted}
use sample_arc_autoshift_kar.Update.Pools.{
  shifted_to, standard_shift, update_karpenter_node_pool-standard,
}
use sample_arc_autoshift_kar.Restore.{away_zone_name, is_annotated, restore_karpenter_node_pool}
use sample_arc_autoshift_kar.Restore.Pools.{
  unmarked, restored_with, restore_karpenter_node_pool-standard,
}
use sample_arc_autoshift_kar.Restore.Requirements.{
  zone_values-set_zone_values, set_zone_values-set_zone_values, set_zone_values_self,
  zone_values-append, is_annotated-marked, perm-other_zones, shifted-named, shifted-unnamed,
  shifted-free, restored_with-annotated, restored_with-plain, requirements-marked,
  requirements-unmarked, SameElse, unmarked-marked,
}

-- `q` is the pool `p`, as far as the program reads pools, with the zones of its first zone requirement
-- in some order, and a missing annotation map read as an empty one.
pub record SamePool (zones : List String) (q p : PoolItem) : Type 0 where
  pub values : List String
  pub order : Perm values zones
  pub requirements : q.requirements ≡ set_zone_values values p.requirements
  pub else_same : SameElse q p

SameElse-refl : (p : PoolItem) → SameElse p p
SameElse-refl p = record {
  api_version = refl;
  kind = refl;
  name = refl;
  disruption = refl;
  taints = refl;
  node_class_ref = refl;
  annotations = refl;
}

module _ (name away : String) (updated zones : List String) (p : PoolItem)
    (plain : is_annotated p ≡ false) (first : zone_values p.requirements ≡ some zones)
    (once : IsOnce zones) where
  untouched : restored_with name p ≡ p
  untouched = restored_with-plain name p plain

  SamePool-untouched : SamePool zones p p
  SamePool-untouched = record {
    values = zones;
    order = Perm.refl zones;
    requirements = sym (set_zone_values_self zones p.requirements first);
    else_same = SameElse-refl p;
  }

  -- The pool between the two.
  abbrev between : PoolItem
  between =
      marked away
        (record p { requirements = set_zone_values (other_zones name zones) p.requirements })

  restored-between :
      restored_with name between
      ≡ unmarked (record between {
        requirements = set_zone_values (other_zones name zones ++ name ∷ []) between.requirements;
      })
  restored-between =
      restored_with-annotated name (other_zones name zones) between (is_annotated-marked away _) (
        rw requirements-marked
          (zone_values-set_zone_values (other_zones name zones) zones p.requirements first))

  SamePool-restored : contains name zones ≡ true → SamePool zones (restored_with name between) p
  SamePool-restored there = record {
    values = other_zones name zones ++ name ∷ [];
    order = perm-other_zones name zones once there;
    requirements =
        rw (restored-between, requirements-unmarked, requirements-marked)
          (set_zone_values-set_zone_values (other_zones name zones ++ name ∷ [])
            (other_zones name zones) p.requirements);
    else_same = rw restored-between (unmarked-marked away p _ _ plain);
  }

  pub SamePool-shifted : SamePool zones (restored_with name (shifted name away updated p)) p
  SamePool-shifted = elim (Bool-cases (contains name zones)) [
    | inl there ↦ rw (shifted-named name away updated zones p first there) (SamePool-restored there)
    | inr gone ↦
        rw (shifted-unnamed name away updated zones p first gone, untouched) SamePool-untouched
  ]

SamePool-shifted_to :
    (name : String) (zones : List String) (p : PoolItem)
    → is_annotated p ≡ false
    → zone_values p.requirements ≡ some zones
    → IsOnce zones
    → (g : Globals) (event : Event)
    → get_zone_name_from_zone_id g.zone_mapping (away_from event) ≡ name
    → (updated : List String) → SamePool zones (restored_with name (shifted_to g event updated p)) p
unfolding shifted_to
SamePool-shifted_to name zones p plain first once g event named [] =
    rw (restored_with-plain name p plain)
      (SamePool-untouched name (away_from event) [] zones p plain first once)
SamePool-shifted_to name zones p plain first once g event named (zone ∷ left) =
    rw named (SamePool-shifted name (away_from event) (zone ∷ left) zones p plain first once)

-- The requirement that a pool was given stays, with the zone put back.
free-restored :
    (back name away : String) (updated : List String) (p : PoolItem)
    → zone_values p.requirements ≡ none
    → zone_values (restored_with back (shifted name away updated p)).requirements
      ≡ some (updated ++ back ∷ [])
free-restored back name away updated p free =
    let added : Requirement = record { key = zone_key; operator = "In"; values = updated } in
    let q : PoolItem = record p { requirements = p.requirements ++ added ∷ [] } in
    let first : zone_values q.requirements ≡ some updated =
      zone_values-append added p.requirements free refl in
    let back_in =
      restored_with-annotated back updated (marked away q) (is_annotated-marked away q)
        (rw requirements-marked first) in
    rw (shifted-free name away updated p free, back_in, requirements-unmarked, requirements-marked)
      (zone_values-set_zone_values (updated ++ back ∷ []) updated q.requirements first)

free-shifted_to :
    (back : String) (g : Globals) (event : Event) (updated : List String) (p : PoolItem)
    → zone_values p.requirements ≡ none
    → updated ≢ []
    → zone_values (restored_with back (shifted_to g event updated p)).requirements
      ≡ some (updated ++ back ∷ [])
unfolding shifted_to
free-shifted_to back g event [] p free some_zone = absurd (some_zone refl)
free-shifted_to back g event (zone ∷ zones) p free some_zone =
    free-restored back _ (away_from event) (zone ∷ zones) p free

pub away_zone_name-known :
    (g : Globals) (event : Event) (name : String)
    → lookup (away_from event) g.zone_mapping ≡ some name
    → name ≢ ""
    → away_zone_name g event ≡ name
unfolding away_zone_name
away_zone_name-known g event name known named =
    ground (arith, get_zone_name_known g.zone_mapping (away_from event) name known, eq_iff name "")

away_zone_name-unknown :
    (g : Globals) (event : Event)
    → lookup (away_from event) g.zone_mapping ≡ none
    → away_zone_name g event ≡ away_from event
unfolding away_zone_name
away_zone_name-unknown g event unknown =
    rw (get_zone_name_unknown g.zone_mapping (away_from event) unknown, away_zone_name)

module _ {S : Type 0} {api : PoolApi S} {nodes : NodeApi S} {pool_at : String → S → Option PoolItem}
    {node_at : String → S → Option Node} (laws : IsPoolApi api nodes pool_at node_at)
    (available : IsAvailable api) (standard : (s : S) → list_installed_crds api s ≡ false)
    (schedule : List (List NodeInfo) → List (List NodeInfo)) (g : Globals) (event : Event) where
  pool_at-restore-update :
      (k : String) (s : S)
      → pool_at k (
          restore_karpenter_node_pool api nodes schedule g event
            (update_karpenter_node_pool api nodes schedule g event s))
        ≡ Option.map
            (λ p. restored_with (away_zone_name g event) (standard_shift g event p))
            (pool_at k s)
  pool_at-restore-update k s =
      let s' = update_karpenter_node_pool api nodes schedule g event s in
      rw (restore_karpenter_node_pool-standard laws available schedule g event s' (standard s') k) (
        rw (update_karpenter_node_pool-standard laws available schedule g event s (standard s) k)
          (Option.map-map _ _ (pool_at k s)))

  -- The end of a shift gives back a pool that had a requirement on zones, was not annotated, and
  -- named no zone twice: with the zones of its first such requirement in some order, and all else
  -- that the program reads of pools as it was, a missing annotation map read as empty. The impaired zone is known by name. The cluster is in standard mode, and its API is
  -- available.
  pub restore-update :
      (name : String) (k : String) (s : S) (p : PoolItem) (zones : List String)
      → lookup (away_from event) g.zone_mapping ≡ some name
      → name ≢ ""
      → pool_at k s ≡ some p
      → is_annotated p ≡ false
      → zone_values p.requirements ≡ some zones
      → IsOnce zones
      → (q : PoolItem) × (pool_at k (
            restore_karpenter_node_pool api nodes schedule g event
              (update_karpenter_node_pool api nodes schedule g event s))
          ≡ some q)
        × SamePool zones q p
  restore-update name k s p zones known named held plain first once = (
    restored_with (away_zone_name g event) (standard_shift g event p),
    rw (pool_at-restore-update k s) (rw held),
    rw (away_zone_name-known g event name known named) (
        SamePool-shifted_to name zones p plain first once g event
          (get_zone_name_known g.zone_mapping (away_from event) name known)
          (get_updated_zones g.zone_mapping g.cluster_zones event)),
  )

  -- A pool that had no requirement on zones and was not annotated does not lose the one that the
  -- start of the shift gave it: after the end of the shift it has the zones that were left and the
  -- impaired one, under the name that the restoring code uses for it. Some zone was left. The
  -- cluster is in standard mode, and its API is available.
  pub restore-update_free :
      (k : String) (s : S) (p : PoolItem) (zone : String) (zones : List String)
      → get_updated_zones g.zone_mapping g.cluster_zones event ≡ zone ∷ zones
      → pool_at k s ≡ some p
      → is_annotated p ≡ false
      → zone_values p.requirements ≡ none
      → (q : PoolItem) × (pool_at k (
            restore_karpenter_node_pool api nodes schedule g event
              (update_karpenter_node_pool api nodes schedule g event s))
          ≡ some q)
        × (zone_values q.requirements ≡ some (zone ∷ zones ++ away_zone_name g event ∷ []))
  restore-update_free k s p zone zones left held plain free = (
    restored_with (away_zone_name g event) (standard_shift g event p),
    rw (pool_at-restore-update k s) (rw held),
    rw left (free-shifted_to (away_zone_name g event) g event (zone ∷ zones) p free (λ e. cc)),
  )

  -- Where the impaired zone is not in the zone mapping, a pool that had no requirement on zones and
  -- was not annotated ends with a zone id among its zone names: with all zones of the cluster, and
  -- then the id of the event. The cluster is in standard mode, and its API is available.
  pub restore-update_unknown :
      (k : String) (s : S) (p : PoolItem)
      → lookup (away_from event) g.zone_mapping ≡ none
      → g.cluster_zones ≢ []
      → pool_at k s ≡ some p
      → is_annotated p ≡ false
      → zone_values p.requirements ≡ none
      → (q : PoolItem) × (pool_at k (
            restore_karpenter_node_pool api nodes schedule g event
              (update_karpenter_node_pool api nodes schedule g event s))
          ≡ some q)
        × (zone_values q.requirements ≡ some (g.cluster_zones ++ away_from event ∷ []))
  restore-update_unknown k s p unknown some_zone held plain free = (
    restored_with (away_zone_name g event) (standard_shift g event p),
    rw (pool_at-restore-update k s) (rw held),
    rw
        (
          get_updated_zones-eq_all g.zone_mapping g.cluster_zones event (inl unknown),
          away_zone_name-unknown g event unknown,
        )
        (free-shifted_to (away_from event) g event g.cluster_zones p free some_zone),
  )
