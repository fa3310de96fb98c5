-- ===== src/Shift/Evacuation.antt =====
-- Which zones the pools may use after the start of a shift, as Karpenter reads their requirements.
use sample_arc_autoshift_kar.Base.{
  String, true, false, not, ◌&&◌, Option, none, some, List, [], ◌∷◌, ◌++◌, ◌==◌, eq_iff, eq_refl,
  ◌≡◌, ◌≢◌, refl, ap, sym, arith, contains, Bool-cases, Option-cases, inl, inr,
}
use sample_arc_autoshift_kar.Base.Dict.{lookup}
use sample_arc_autoshift_kar.Event.{Event, away_from}
use sample_arc_autoshift_kar.Zones.{other_zones, get_updated_zones}
use sample_arc_autoshift_kar.Zones.Updated.{
  contains-other_zones, contains-get_updated_zones, get_zone_name_known,
}
use sample_arc_autoshift_kar.Store.{NodeInfo}
use sample_arc_autoshift_kar.Nodes.Api.{Node, NodeApi}
use sample_arc_autoshift_kar.Pools.{PoolItem, Requirement, zone_key}
use sample_arc_autoshift_kar.Pools.Api.{PoolApi, IsPoolApi, IsAvailable}
use sample_arc_autoshift_kar.Update.{Globals, list_installed_crds, update_karpenter_node_pool}
use sample_arc_autoshift_kar.Update.Pool.{zone_values, set_zone_values, shifted}
use sample_arc_autoshift_kar.Shift.Operators.{
  Admits, IsAdmits, names_allowed, permits, usable, permits-append, permits-free,
  permits-set_zone_values, zone_values-after, set_zone_values-after,
}
use sample_arc_autoshift_kar.Update.Pools.{
  shifted_to, standard_shift, update_karpenter_node_pool-standard,
}
use sample_arc_autoshift_kar.Restore.Requirements.{
  zone_values-set_zone_values, zone_values-append, set_zone_values_self, shifted-named,
  shifted-unnamed, shifted-free, requirements-marked, other_zones-eq_of_absent,
}

-- What the start of a shift leaves of the zones of a pool.
pub zone_values-shifted :
    (name away : String) (updated : List String) (p : PoolItem)
    → zone_values (shifted name away updated p).requirements ≡ (elim (zone_values p.requirements) [
      | none ↦ some updated
      | some zones ↦ some (other_zones name zones)
    ])
zone_values-shifted name away updated p = elim (Option-cases (zone_values p.requirements)) [
  | inl free ↦
      let added : Requirement = record { key = zone_key; operator = "In"; values = updated } in
      rw (shifted-free name away updated p free, requirements-marked, free)
        (zone_values-append added p.requirements free refl)
  | inr (zones, first) ↦ elim (Bool-cases (contains name zones)) [
    | inl there ↦
        rw (shifted-named name away updated zones p first there, requirements-marked, first)
          (zone_values-set_zone_values (other_zones name zones) zones p.requirements first)
    | inr gone ↦
        rw (shifted-unnamed name away updated zones p first gone, first)
          (ap some (sym (other_zones-eq_of_absent name zones gone)))
  ]
]

-- The impaired zone is known by name, and the cluster has another zone.
pub record IsKnown (g : Globals) (event : Event) (name other : String) : Type 0 where
  pub mapped : lookup (away_from event) g.zone_mapping ≡ some name
  pub named : name ≢ ""
  pub there : contains other g.cluster_zones ≡ true
  pub differs : other ≢ name

pub updated_without :
    (g : Globals) (event : Event) (name other : String)
    → IsKnown g event name other
    → contains name (get_updated_zones g.zone_mapping g.cluster_zones event) ≡ false
updated_without g event name other k = ground (
  arith,
  eq_refl name,
  contains-get_updated_zones g.zone_mapping g.cluster_zones event name other name k.mapped k.named
      k.there k.differs,
)

-- Some zone is left, and so the pools are updated.
pub standard_shift-known :
    (g : Globals) (event : Event) (name other : String) (p : PoolItem)
    → IsKnown g event name other
    → standard_shift g event p
      ≡ shifted name (away_from event) (get_updated_zones g.zone_mapping g.cluster_zones event) p
standard_shift-known g event name other p k =
    go (get_updated_zones g.zone_mapping g.cluster_zones event) (
      contains-get_updated_zones g.zone_mapping g.cluster_zones event name other other k.mapped
        k.named k.there k.differs)
  where
    go :
        (updated : List String)
        → contains other updated ≡ (contains other g.cluster_zones && not (other == name))
        → shifted_to g event updated p ≡ shifted name (away_from event) updated p
    go [] h = unfold contains in ground (arith, h, k.there, k.differs, eq_iff other name)
    go (z ∷ zs) h =
        unfold shifted_to in rw (get_zone_name_known g.zone_mapping (away_from event) name k.mapped)

-- The requirements that a shifted pool has, in one form for the pools that it patches and those that
-- it leaves.
shifted-requirements :
    (name away : String) (updated zones : List String) (p : PoolItem)
    → zone_values p.requirements ≡ some zones
    → (shifted name away updated p).requirements
      ≡ set_zone_values (other_zones name zones) p.requirements
shifted-requirements name away updated zones p first = elim (Bool-cases (contains name zones)) [
  | inl there ↦ rw (shifted-named name away updated zones p first there, requirements-marked) refl
  | inr gone ↦
      rw
        (
          shifted-unnamed name away updated zones p first gone,
          other_zones-eq_of_absent name zones gone,
          set_zone_values_self zones p.requirements first,
        )
        refl
]

module _ {admits : Admits} (reads : IsAdmits admits) where
  -- A pool without requirements on zones is limited to those that are left.
  usable-free :
      (g : Globals) (event : Event) (name other z : String) (p : PoolItem)
      → IsKnown g event name other
      → zone_values p.requirements ≡ none
      → usable admits g
          (shifted name
            (away_from event)
            (get_updated_zones g.zone_mapping g.cluster_zones event)
            p)
          z
        ≡ (usable admits g p z && not (z == name))
  unfolding permits contains
  usable-free g event name other z p k free =
      let updated = get_updated_zones g.zone_mapping g.cluster_zones event in
      let added : Requirement = record { key = zone_key; operator = "In"; values = updated } in
      rw
        (
          shifted-free name (away_from event) updated p free,
          requirements-marked,
          permits-append admits p.requirements (added ∷ []) z,
          permits-free admits p.requirements z free,
          reads.admits_in updated z,
          contains-get_updated_zones g.zone_mapping g.cluster_zones event name other z k.mapped
              k.named k.there k.differs,
        )
        (ground (arith, eq_refl zone_key))

  usable-named :
      (g : Globals) (name away z : String) (updated zones : List String) (p : PoolItem)
      → names_allowed p.requirements ≡ true
      → zone_values p.requirements ≡ some zones
      → usable admits g (shifted name away updated p) z ≡ (usable admits g p z && not (z == name))
  usable-named g name away z updated zones p allowed first =
      rw
        (
          shifted-requirements name away updated zones p first,
          permits-set_zone_values admits reads name zones p.requirements z allowed first,
        )
        (ground arith)

  permits-not_in :
      (name : String) (zones : List String) (before after : List Requirement)
      → permits admits
          (before ++ record { key = zone_key; operator = "NotIn"; values = zones } ∷ after)
          name
        ≡ (permits admits before name && (not (contains name zones) && permits admits after name))
  unfolding permits
  permits-not_in name zones before after =
      rw (permits-append admits before _ name)
        (ground (arith, reads.admits_not_in zones name, eq_refl zone_key))

  module _ {S : Type 0} {api : PoolApi S} {nodes : NodeApi S}
      {pool_at : String → S → Option PoolItem} {node_at : String → S → Option Node}
      (laws : IsPoolApi api nodes pool_at node_at) (available : IsAvailable api)
      (standard : (s : S) → list_installed_crds api s ≡ false)
      (schedule : List (List NodeInfo) → List (List NodeInfo)) (g : Globals) (event : Event) where
    -- After the start of a shift every pool of the cluster whose first requirement on zones, if it has
    -- one, is an "In", may use exactly the zones of the cluster that it could use before, without the
    -- impaired one, which is known by name, while the cluster has another zone. A pool may use a zone
    -- if all its requirements on zones admit it, the operators being read as Karpenter documents "In"
    -- and "NotIn", and others in any way. The cluster is in standard mode, and its API is available.
    pub evacuated :
        (name other : String) (k : String) (s : S) (p : PoolItem)
        → IsKnown g event name other
        → pool_at k s ≡ some p
        → names_allowed p.requirements ≡ true
        → (q : PoolItem) × (pool_at k (update_karpenter_node_pool api nodes schedule g event s)
            ≡ some q)
          × ((z : String) → usable admits g q z ≡ (usable admits g p z && not (z == name)))
    evacuated name other k s p known h allowed =
        let updated = get_updated_zones g.zone_mapping g.cluster_zones event in
        let away = away_from event in
        (
          shifted name away updated p,
          rw (update_karpenter_node_pool-standard laws available schedule g event s (standard s) k)
              (rw h (ap some (standard_shift-known g event name other p known))),
          λ z. elim (Option-cases (zone_values p.requirements)) [
            | inl free ↦ usable-free g event name other z p known free
            | inr (zones, first) ↦ usable-named g name away z updated zones p allowed first
          ],
        )

    -- A pool that keeps off the impaired zone by a requirement "NotIn", its only one on zones, may not
    -- use that zone before the shift, and its requirements permit it after the start: the code takes
    -- the zone off the values, whatever the operator. The zone is known by name and the cluster's, which
    -- has another one, is in standard mode and has an available API.
    pub not_in_opened :
        (name other : String) (k : String) (s : S) (p : PoolItem) (before after : List Requirement)
        (zones : List String)
        → IsKnown g event name other
        → contains name g.cluster_zones ≡ true
        → pool_at k s ≡ some p
        → p.requirements
          ≡ before ++ record { key = zone_key; operator = "NotIn"; values = zones } ∷ after
        → zone_values before ≡ none
        → zone_values after ≡ none
        → contains name zones ≡ true
        → (usable admits g p name ≡ false)
          × ((q : PoolItem) × (pool_at k (update_karpenter_node_pool api nodes schedule g event s)
                ≡ some q)
              × (usable admits g q name ≡ true))
    not_in_opened name other k s p before after zones known real h shape free_before free_after
          there =
        let updated = get_updated_zones g.zone_mapping g.cluster_zones event in
        let away = away_from event in
        let req : Requirement = record { key = zone_key; operator = "NotIn"; values = zones } in
        (
          rw (shape, permits-not_in name zones before after) (ground (arith, there)),
          (
            shifted name away updated p,
            rw
                (update_karpenter_node_pool-standard laws available schedule g event s (standard s)
                  k)
                (rw h (ap some (standard_shift-known g event name other p known))),
            rw
                (
                  shifted-requirements name away updated zones p
                      (rw shape (zone_values-after before after req free_before refl)),
                  shape,
                  set_zone_values-after (other_zones name zones) before after req free_before refl,
                  permits-not_in name (other_zones name zones) before after,
                  permits-free admits before name free_before,
                  permits-free admits after name free_after,
                  contains-other_zones name name zones,
                )
                (ground (arith, real, eq_refl name)),
          ),
        )
