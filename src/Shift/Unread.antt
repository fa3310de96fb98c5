-- ===== src/Shift/Unread.antt =====
-- What a shift leaves of the settings of a pool that the code of app/main.go does not read.
use sample_arc_autoshift_kar.Base.{
  String, Bool, true, false, Option, none, some, List, [], ◌∷◌, ◌==◌, eq_iff, ◌≡◌, refl, ◌∙◌, arith,
  contains, Bool-cases, not, ◌&&◌, Option-cases, inl, inr,
}
use sample_arc_autoshift_kar.Event.{Event, away_from}
use sample_arc_autoshift_kar.Zones.{get_zone_name_from_zone_id, get_updated_zones}
use sample_arc_autoshift_kar.Zones.Updated.{get_zone_name_known, contains-get_updated_zones}
use sample_arc_autoshift_kar.Store.{NodeInfo}
use sample_arc_autoshift_kar.Nodes.Api.{Node, NodeApi}
use sample_arc_autoshift_kar.Nodes.Frame.{remove_protection_from_nodes-keeps}
use sample_arc_autoshift_kar.Pools.{
  PoolItem, Requirement, Request, patch, spec_patch, annotation_patch,
}
use sample_arc_autoshift_kar.Pools.Api.{PoolApi, IsPoolApi, IsAvailable, find_pool}
use sample_arc_autoshift_kar.Pools.Unread.{
  Unread, nothing_unread, KeepsUnread, unread_applied, unread_applied-nothing,
}
use sample_arc_autoshift_kar.Update.{
  Globals, Mode, standard_mode, send_only, patch_pool, annotate_pool, update_standard_pool,
  update_standard, update_pools, protect_first, update_karpenter_node_pool, list_installed_crds,
}
use sample_arc_autoshift_kar.Update.Frame.{update_standard-frame}
use sample_arc_autoshift_kar.Update.Pool.{zone_values, respecced, update_pool_lem}
use sample_arc_autoshift_kar.Update.Pools.{protect_first-keeps_pools}
use sample_arc_autoshift_kar.Restore.{
  away_zone_name, restore_standard, unprotect_first, restore_pools, restore_karpenter_node_pool,
}
use sample_arc_autoshift_kar.Restore.Frame.{restore_standard-frame}
use sample_arc_autoshift_kar.Shift.Evacuation.{IsKnown}

-- Whether the start of a shift changes the pool.
unfoldable pub is_touched : String → PoolItem → Bool
is_touched name p = elim (zone_values p.requirements) [
  | none ↦ true
  | some zones ↦ contains name zones
]

respecced-is_touched :
    (name : String) (updated : List String) (p : PoolItem)
    → is_touched name p ≡ true
    → (reqs : List Requirement) × (respecced name updated p ≡ some reqs)
unfolding is_touched respecced
respecced-is_touched name updated p touched = elim (Option-cases (respecced name updated p)) [
  | inl e ↦ ground arith
  | inr found ↦ found
]

-- Another zone of the cluster is left.
some_left :
    (g : Globals) (event : Event) (name other : String)
    → IsKnown g event name other
    → (zone : String) × (zones : List String) × (get_updated_zones g.zone_mapping g.cluster_zones
          event
        ≡ zone ∷ zones)
some_left g event name other known = go (get_updated_zones g.zone_mapping g.cluster_zones event) (
    contains-get_updated_zones g.zone_mapping g.cluster_zones event name other other known.mapped
      known.named known.there known.differs)
  where
    go :
        (updated : List String)
        → contains other updated ≡ (contains other g.cluster_zones && not (other == name))
        → (zone : String) × (zones : List String) × (updated ≡ zone ∷ zones)
    go [] h = unfold contains in ground (arith, h, known.there, known.differs, eq_iff other name)
    go (z ∷ zs) h = (z, zs, refl)

module _ {S : Type 0} {api : PoolApi S} {nodes : NodeApi S} {unread_at : String → S → Unread}
    (keeps : KeepsUnread api nodes unread_at) (available : IsAvailable api) (k : String) where
  abbrev IsBare : S → Type 0
  IsBare s = unread_at k s ≡ nothing_unread

  -- What is gone stays gone.
  send_only-IsBare : (r : Request) (s : S) → IsBare s → IsBare (send_only api r s)
  send_only-IsBare r s bare =
      rw (keeps.send_unread r k s, bare) (ground (arith, unread_applied-nothing r k))

  -- One patch of the spec, with the disruption settings, is enough.
  patch_pool-IsBare :
      (mode : Mode) (pool : PoolItem) (name away : String) (reqs : List Requirement) (s : S)
      → pool.name ≡ k
      → IsBare (patch_pool api mode pool name away reqs s).1
  unfolding patch_pool annotate_pool unread_applied
  patch_pool-IsBare mode pool name away reqs s here =
      let spec = patch pool.name (spec_patch reqs (some pool.disruption)) in
      let note = patch pool.name (annotation_patch (some away)) in
      let bare : IsBare (send_only api spec s) =
        ground (arith, keeps.send_unread spec k s, available.succeeds spec s, eq_iff pool.name k) in
      ground (
        arith,
        bare,
        available.marshalled (spec_patch reqs (some pool.disruption)),
        available.marshalled (annotation_patch (some away)),
        available.succeeds spec s,
        send_only-IsBare note (send_only api spec s) bare,
      )

  update_standard_pool-IsBare :
      (g : Globals) (event : Event) (zone : String) (zones : List String) (p : PoolItem) (s : S)
      → p.name ≡ k
      → is_touched (get_zone_name_from_zone_id g.zone_mapping (away_from event)) p ≡ true
      → IsBare (update_standard_pool api nodes g event (zone ∷ zones) p s)
  unfolding update_standard_pool
  update_standard_pool-IsBare g event zone zones p s here touched =
      let name = get_zone_name_from_zone_id g.zone_mapping (away_from event) in
      let (reqs, e) = respecced-is_touched name (zone ∷ zones) p touched in
      rw (update_pool_lem api available.marshalled standard_mode g event (zone ∷ zones) p s, e)
        (patch_pool-IsBare standard_mode p name (away_from event) reqs s here)

  update_standard-IsBare :
      (g : Globals) (event : Event) (zone : String) (zones : List String) (p : PoolItem)
      (ps : List PoolItem) (s : S)
      → get_updated_zones g.zone_mapping g.cluster_zones event ≡ zone ∷ zones
      → find_pool k ps ≡ some p
      → is_touched (get_zone_name_from_zone_id g.zone_mapping (away_from event)) p ≡ true
      → IsBare (update_standard api nodes g event ps s)
  unfolding update_standard find_pool
  update_standard-IsBare g event zone zones p [] s left found touched = cc
  update_standard-IsBare g event zone zones p (q ∷ ps) s left found touched =
      elim (Bool-cases (q.name == k)) [
        | inl here ↦
            let same : q ≡ p = ground (arith, here, found) in
            update_standard-frame api IsBare send_only-IsBare nodes g event ps _ (
              rw left (
                update_standard_pool-IsBare g event zone zones q s
                  (ground (arith, here, eq_iff q.name k)) (rw same touched)))
        | inr later ↦
            update_standard-IsBare g event zone zones p ps _ left (ground (arith, later, found))
              touched
      ]

  module _ {pool_at : String → S → Option PoolItem} {node_at : String → S → Option Node}
      (laws : IsPoolApi api nodes pool_at node_at)
      (standard : (s : S) → list_installed_crds api s ≡ false)
      (schedule : List (List NodeInfo) → List (List NodeInfo)) (g : Globals) where
    unprotect_first-IsBare :
        (event : Event) (s : S) → IsBare s → IsBare (unprotect_first api nodes schedule g event s)
    unfolding unprotect_first
    unprotect_first-IsBare event s bare = elim (Option-cases g.node_store) [
      | inl e ↦ ground (arith, e, bare)
      | inr (store, e) ↦ ground (
        arith,
        e,
        bare,
        remove_protection_from_nodes-keeps nodes IsBare (λ n t h. keeps.update_unread n k t ∙ h)
            schedule (away_zone_name g event) store s bare,
      )
    ]

    restore-IsBare :
        (event : Event) (s : S)
        → IsBare s
        → IsBare (restore_karpenter_node_pool api nodes schedule g event s)
    restore-IsBare event s bare =
        let s' = unprotect_first api nodes schedule g event s in
        let (ps, listed) = available.lists s' in
        let away = away_zone_name g event in
        let run : restore_karpenter_node_pool api nodes schedule g event s
            ≡ restore_standard api away ps s' =
          unfold restore_karpenter_node_pool restore_pools in
          ground (arith, available.configured, available.connected, listed, standard s) in
        rw run (
          restore_standard-frame api IsBare send_only-IsBare away ps s'
            (unprotect_first-IsBare event s bare))

    update-IsBare :
        (event : Event) (zone : String) (zones : List String) (s : S) (p : PoolItem)
        → get_updated_zones g.zone_mapping g.cluster_zones event ≡ zone ∷ zones
        → pool_at k s ≡ some p
        → is_touched (get_zone_name_from_zone_id g.zone_mapping (away_from event)) p ≡ true
        → IsBare (update_karpenter_node_pool api nodes schedule g event s)
    update-IsBare event zone zones s p left held touched =
        let s' = protect_first api nodes schedule g event s in
        let (ps, listed) = available.lists s' in
        let (_, reads) = laws.list_reads s' ps listed in
        let run : update_karpenter_node_pool api nodes schedule g event s
            ≡ update_standard api nodes g event ps s' =
          unfold update_karpenter_node_pool update_pools in
          ground (arith, available.configured, available.connected, listed, standard s) in
        rw run (
          update_standard-IsBare g event zone zones p ps s' left
            (reads k ∙ (protect_first-keeps_pools laws schedule g event k s ∙ held)) touched)

    -- Whatever `minValues` and budget windows a pool has, none is left once the start of a shift has
    -- changed the pool, which it does where the pool has no requirement on zones or the first one
    -- names the impaired zone; and none comes back at the end of a shift. The zone is known by name,
    -- and the cluster, which has another one, is in standard mode and has an available API.
    pub settings_lost :
        (start finish : Event) (name other : String) (s : S) (p : PoolItem)
        → IsKnown g start name other
        → pool_at k s ≡ some p
        → is_touched name p ≡ true
        → (unread_at k (update_karpenter_node_pool api nodes schedule g start s) ≡ nothing_unread)
          × (unread_at k (
                restore_karpenter_node_pool api nodes schedule g finish
                  (update_karpenter_node_pool api nodes schedule g start s))
              ≡ nothing_unread)
    settings_lost start finish name other s p known held touched =
        let away = away_from start in
        let (zone, zones, left) = some_left g start name other known in
        let bare =
          update-IsBare start zone zones s p left held
            (rw (get_zone_name_known g.zone_mapping away name known.mapped) touched) in
        (bare, restore-IsBare finish _ bare)
