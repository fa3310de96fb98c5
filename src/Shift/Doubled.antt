-- ===== src/Shift/Doubled.antt =====
-- A shift whose patch of the spec fails while that of the annotation succeeds.
use sample_arc_autoshift_kar.Base.{
  String, true, false, Option, some, List, [], ◌∷◌, ◌++◌, ◌==◌, eq_refl, ◌≡◌, ◌≢◌, refl, ap, ◌∙◌,
  arith, contains, inr,
}
use sample_arc_autoshift_kar.Event.{Event, away_from}
use sample_arc_autoshift_kar.Zones.{get_updated_zones, get_zone_name_from_zone_id, other_zones}
use sample_arc_autoshift_kar.Zones.Updated.{get_zone_name_known, get_updated_zones-ne_nil}
use sample_arc_autoshift_kar.Store.{NodeInfo}
use sample_arc_autoshift_kar.Nodes.Api.{Node, NodeApi}
use sample_arc_autoshift_kar.Pools.{
  Requirement, Disruption, PoolItem, Payload, spec_patch, annotation_patch, patch,
}
use sample_arc_autoshift_kar.Pools.Api.{
  PoolApi, IsPoolApi, IsAvailable, applied, find_pool, IsUnique,
}
use sample_arc_autoshift_kar.Shift.Evacuation.{IsKnown}
use sample_arc_autoshift_kar.Update.{
  Globals, standard_mode, annotate_pool, patch_pool, update_pool, update_standard,
  update_standard_pool, update_pools, protect_first, list_installed_crds,
  update_karpenter_node_pool,
}
use sample_arc_autoshift_kar.Update.Pool.{
  zone_values, set_zone_values, marked, respecced, update_pool_lem,
}
use sample_arc_autoshift_kar.Update.Pools.{protect_first-keeps_pools}
use sample_arc_autoshift_kar.Update.Requests.{update_pool-keeps}
use sample_arc_autoshift_kar.Update.Loop.{Outcome, loop-Outcome}
use sample_arc_autoshift_kar.Restore.{restore_karpenter_node_pool}
use sample_arc_autoshift_kar.Restore.Pools.{restored_with, restore_karpenter_node_pool-standard}
use sample_arc_autoshift_kar.Restore.Roundtrip.{away_zone_name-known}
use sample_arc_autoshift_kar.Restore.Requirements.{
  zone_values-set_zone_values, is_annotated-marked, restored_with-annotated, requirements-marked,
  requirements-unmarked,
}

-- An API that answers, but refuses to change the spec of the pool `k`.
pub record AnnotatesOnly {S : Type 0} (api : PoolApi S) (k : String) : Type 0 where
  pub configured : api.config_ok ≡ true
  pub connected : api.clientset_ok ≡ true
  pub standard : (s : S) → list_installed_crds api s ≡ false
  pub lists : (s : S) → (ps : List PoolItem) × (api.list_pools s ≡ some ps)
  pub marshalled : (p : Payload) → api.marshals p ≡ true
  pub spec_fails :
      (reqs : List Requirement) (d : Option Disruption) (s : S)
      → (api.send (patch k (spec_patch reqs d)) s).0 ≡ false
  pub annotation_succeeds :
      (v : Option String) (s : S) → (api.send (patch k (annotation_patch v)) s).0 ≡ true

module _ {S : Type 0} {api : PoolApi S} {nodes : NodeApi S} {pool_at : String → S → Option PoolItem}
    {node_at : String → S → Option Node} (laws : IsPoolApi api nodes pool_at node_at) (k : String)
    (refuses : AnnotatesOnly api k) (g : Globals) (event : Event) (name other : String)
    (known : IsKnown g event name other) (p : PoolItem) (zones : List String)
    (first : zone_values p.requirements ≡ some zones) (there : contains name zones ≡ true) where
  abbrev updated : List String
  updated = get_updated_zones g.zone_mapping g.cluster_zones event

  -- The pool that is meant ends with the annotation alone.
  abbrev Annotated : PoolItem → Option PoolItem → Type 0
  Annotated q o = q ≡ p → o ≡ some (marked (away_from event) p)

  patch_pool-annotates :
      (reqs : List Requirement) (s : S)
      → p.name ≡ k
      → pool_at k s ≡ some p
      → pool_at k (patch_pool api standard_mode p name (away_from event) reqs s).1
        ≡ some (marked (away_from event) p)
  unfolding patch_pool annotate_pool marked applied
  patch_pool-annotates reqs s named held =
      let spec = patch k (spec_patch reqs (some p.disruption)) in
      let note = patch k (annotation_patch (some (away_from event))) in
      ground (
        arith,
        named,
        held,
        eq_refl k,
        refuses.marshalled (spec_patch reqs (some p.disruption)),
        refuses.marshalled (annotation_patch (some (away_from event))),
        refuses.spec_fails reqs (some p.disruption) s,
        refuses.annotation_succeeds (some (away_from event)) (api.send spec s).1,
        laws.send_applies spec k s,
        laws.send_applies note k (api.send spec s).1,
      )

  update_pool-annotates :
      (left : List String) (q : PoolItem) (s : S)
      → q.name ≡ k
      → pool_at k s ≡ some q
      → Annotated q (pool_at k (update_pool api standard_mode g event left q s))
  update_pool-annotates left q s named held same =
      let id : get_zone_name_from_zone_id g.zone_mapping (away_from event) ≡ name =
        get_zone_name_known g.zone_mapping (away_from event) name known.mapped in
      let reqs = set_zone_values (other_zones name zones) p.requirements in
      let sent : respecced name left p ≡ some reqs =
        unfold respecced in ground (arith, first, there) in
      rw (same, update_pool_lem api refuses.marshalled standard_mode g event left p s, id, sent, id)
        (patch_pool-annotates reqs s (ground (arith, same, named)) (held ∙ ap some same))

  update_standard_pool-annotates :
      (left : List String) (q : PoolItem) (s : S)
      → left ≢ []
      → q.name ≡ k
      → pool_at k s ≡ some q
      → Annotated q (pool_at k (update_standard_pool api nodes g event left q s))
  unfolding update_standard_pool
  update_standard_pool-annotates [] q s some_left named held = absurd (some_left refl)
  update_standard_pool-annotates (z ∷ zs) q s some_left named held =
      update_pool-annotates (z ∷ zs) q s named held

  update_standard_pool-keeps :
      (left : List String) (q : PoolItem) (s : S)
      → (q.name == k) ≡ false
      → pool_at k (update_standard_pool api nodes g event left q s) ≡ pool_at k s
  unfolding update_standard_pool
  update_standard_pool-keeps [] q s apart = refl
  update_standard_pool-keeps (z ∷ zs) q s apart =
      update_pool-keeps laws refuses.marshalled standard_mode g event (z ∷ zs) q k s apart

  some_zone : g.cluster_zones ≢ []
  some_zone e = unfold contains in cc (ap (contains other) e, known.there)

  loop_annotates :
      (ps : List PoolItem) (s : S)
      → IsUnique ps
      → find_pool k ps ≡ pool_at k s
      → Outcome Annotated
          (find_pool k ps)
          (pool_at k s)
          (pool_at k (update_standard api nodes g event ps s))
  unfolding update_standard
  loop_annotates ps s unique shown =
      loop-Outcome pool_at k Annotated (update_standard api nodes g event)
        (update_standard_pool api nodes g event updated) (λ t. refl) (λ q qs t. refl)
        (λ q t. update_standard_pool-keeps updated q t)
        (λ q t.
          update_standard_pool-annotates updated q t
            (get_updated_zones-ne_nil g.zone_mapping g.cluster_zones event some_zone))
        ps s unique (inr shown)

  -- After the start of the shift the pool has the annotation, and the zones that it had.
  annotated_only :
      (schedule : List (List NodeInfo) → List (List NodeInfo)) (s : S)
      → pool_at k s ≡ some p
      → pool_at k (update_karpenter_node_pool api nodes schedule g event s)
        ≡ some (marked (away_from event) p)
  annotated_only schedule s held =
      let s' = protect_first api nodes schedule g event s in
      let (ps, listed) = refuses.lists s' in
      let (unique, reads) = laws.list_reads s' ps listed in
      let run : update_karpenter_node_pool api nodes schedule g event s
          ≡ update_standard api nodes g event ps s' =
        unfold update_karpenter_node_pool update_pools in
        ground (arith, refuses.configured, refuses.connected, listed, refuses.standard s) in
      let found : find_pool k ps ≡ some p =
        reads k ∙ protect_first-keeps_pools laws schedule g event k s ∙ held in
      let last : Outcome Annotated (some p) (pool_at k s')
          (pool_at k (update_standard api nodes g event ps s')) =
        rw found at (loop_annotates ps s' unique (reads k)) in
      rw run (last refl)

  -- Where the patch of the spec fails and that of the annotation succeeds, the code annotates a pool
  -- that still names the impaired zone; the end of the shift, with an available API, adds the zone
  -- once more, so that the pool ends with all its zones and the impaired one a second time. The
  -- cluster is in standard mode, and the zone is known by name and not its only one.
  pub zone_doubled :
      {later : PoolApi S}
      → IsPoolApi later nodes pool_at node_at
      → IsAvailable later
      → ((s : S) → list_installed_crds later s ≡ false)
      → (schedule : List (List NodeInfo) → List (List NodeInfo)) (s : S) → pool_at k s ≡ some p
      → (q : PoolItem) × (pool_at k (
            restore_karpenter_node_pool later nodes schedule g event
              (update_karpenter_node_pool api nodes schedule g event s))
          ≡ some q)
        × (zone_values q.requirements ≡ some (zones ++ name ∷ []))
  zone_doubled {later} later_laws available standard schedule s held =
      let away = away_from event in
      let s' = update_karpenter_node_pool api nodes schedule g event s in
      let back =
        restored_with-annotated name zones (marked away p) (is_annotated-marked away p)
          (rw requirements-marked first) in
      (
        restored_with name (marked away p),
        rw (
          restore_karpenter_node_pool-standard later_laws available schedule g event s'
              (standard s') k,
          annotated_only schedule s held,
          away_zone_name-known g event name known.mapped known.named,
        ),
        rw (back, requirements-unmarked, requirements-marked)
            (zone_values-set_zone_values (zones ++ name ∷ []) zones p.requirements first),
      )
