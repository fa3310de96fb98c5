-- ===== src/Shift/Lost.antt =====
-- The end of a shift at a cluster that refuses to change the spec of a pool.
use sample_arc_autoshift_kar.Base.{
  String, true, false, Option, none, some, List, [], ◌∷◌, ◌++◌, eq_refl, ◌≡◌, refl, ap, ◌∙◌, arith,
  inr,
}
use sample_arc_autoshift_kar.Event.{Event}
use sample_arc_autoshift_kar.Store.{NodeInfo}
use sample_arc_autoshift_kar.Nodes.Api.{Node, NodeApi}
use sample_arc_autoshift_kar.Pools.{Requirement, PoolItem, spec_patch, annotation_patch, patch}
use sample_arc_autoshift_kar.Pools.Api.{
  PoolApi, IsPoolApi, IsAvailable, IsUnique, find_pool, applied,
}
use sample_arc_autoshift_kar.Update.{Globals, list_installed_crds}
use sample_arc_autoshift_kar.Update.Pool.{zone_values, set_zone_values}
use sample_arc_autoshift_kar.Update.Loop.{Outcome, loop-Outcome}
use sample_arc_autoshift_kar.Restore.{
  away_zone_name, is_annotated, send_restored, restore_pool, restore_standard, restore_pools,
  unprotect_first, restore_karpenter_node_pool,
}
use sample_arc_autoshift_kar.Restore.Pools.{
  unmarked, unprotect_first-keeps_pools, restore_karpenter_node_pool-standard,
}
use sample_arc_autoshift_kar.Restore.Partial.{restore_pool-keeps, restore_pool_lem}
use sample_arc_autoshift_kar.Restore.Requirements.{is_annotated-unmarked, restored_with-plain}
use sample_arc_autoshift_kar.Shift.Doubled.{AnnotatesOnly}

module _ {S : Type 0} {api : PoolApi S} {nodes : NodeApi S} {pool_at : String → S → Option PoolItem}
    {node_at : String → S → Option Node} (laws : IsPoolApi api nodes pool_at node_at) (k : String)
    (refuses : AnnotatesOnly api k) (g : Globals) (event : Event) (p : PoolItem)
    (annotated : is_annotated p ≡ true) (zones : List String)
    (first : zone_values p.requirements ≡ some zones) where
  -- The pool that is meant ends with its annotation gone, and nothing else changed.
  abbrev Unmarked : PoolItem → Option PoolItem → Type 0
  Unmarked q o = q ≡ p → o ≡ some (unmarked p)

  send_restored-unmarks :
      (reqs : List Requirement) (s : S)
      → p.name ≡ k
      → pool_at k s ≡ some p
      → pool_at k (send_restored api p reqs s) ≡ some (unmarked p)
  unfolding send_restored unmarked applied
  send_restored-unmarks reqs s named held =
      let spec = patch k (spec_patch reqs none) in
      let note = patch k (annotation_patch none) in
      ground (
        arith,
        named,
        held,
        eq_refl k,
        refuses.spec_fails reqs none s,
        refuses.annotation_succeeds none (api.send spec s).1,
        laws.send_applies spec k s,
        laws.send_applies note k (api.send spec s).1,
      )

  restore_pool-unmarks :
      (q : PoolItem) (s : S)
      → q.name ≡ k
      → pool_at k s ≡ some q
      → Unmarked q (pool_at k (restore_pool api (away_zone_name g event) q s))
  restore_pool-unmarks q s named held same =
      let away = away_zone_name g event in
      rw (same, restore_pool_lem laws refuses.marshalled away p zones s annotated first)
        (send_restored-unmarks (set_zone_values (zones ++ away ∷ []) p.requirements) s
          (ground (arith, same, named)) (held ∙ ap some same))

  loop_unmarks :
      (ps : List PoolItem) (s : S)
      → IsUnique ps
      → find_pool k ps ≡ pool_at k s
      → Outcome Unmarked
          (find_pool k ps)
          (pool_at k s)
          (pool_at k (restore_standard api (away_zone_name g event) ps s))
  unfolding restore_standard
  loop_unmarks ps s unique shown =
      let away = away_zone_name g event in
      loop-Outcome pool_at k Unmarked (restore_standard api away) (restore_pool api away)
        (λ t. refl) (λ q qs t. refl) (λ q t. restore_pool-keeps laws refuses.marshalled away q k t)
        (λ q t. restore_pool-unmarks q t) ps s unique (inr shown)

  unmarked_only :
      (schedule : List (List NodeInfo) → List (List NodeInfo)) (s : S)
      → pool_at k s ≡ some p
      → pool_at k (restore_karpenter_node_pool api nodes schedule g event s) ≡ some (unmarked p)
  unmarked_only schedule s held =
      let s' = unprotect_first api nodes schedule g event s in
      let (ps, listed) = refuses.lists s' in
      let (unique, reads) = laws.list_reads s' ps listed in
      let away = away_zone_name g event in
      let run : restore_karpenter_node_pool api nodes schedule g event s
          ≡ restore_standard api away ps s' =
        unfold restore_karpenter_node_pool restore_pools in
        ground (arith, refuses.configured, refuses.connected, listed, refuses.standard s) in
      let found : find_pool k ps ≡ some p =
        reads k ∙ unprotect_first-keeps_pools laws schedule g event k s ∙ held in
      let last : Outcome Unmarked (some p) (pool_at k s')
          (pool_at k (restore_standard api away ps s')) =
        rw found at (loop_unmarks ps s' unique (reads k)) in
      rw run (last refl)

  -- Where at the end of a shift the patch of the spec fails and that of the annotation succeeds, the
  -- pool keeps its zones as the shift left them, and loses the annotation, so that a later event of
  -- the end, with an available API, does not put the zone back either. The cluster is in standard
  -- mode, and the pool is annotated and has a requirement on zones.
  pub zone_lost_by_failure :
      {later : PoolApi S}
      → IsPoolApi later nodes pool_at node_at
      → IsAvailable later
      → ((s : S) → list_installed_crds later s ≡ false)
      → (schedule : List (List NodeInfo) → List (List NodeInfo)) (s : S) → pool_at k s ≡ some p
      → pool_at k (
          restore_karpenter_node_pool later nodes schedule g event
            (restore_karpenter_node_pool api nodes schedule g event s))
        ≡ some (unmarked p)
  zone_lost_by_failure {later} later_laws available standard schedule s held =
      let s' = restore_karpenter_node_pool api nodes schedule g event s in
      rw
        (
          restore_karpenter_node_pool-standard later_laws available schedule g event s'
              (standard s') k,
          unmarked_only schedule s held,
        )
        (ap some
          (restored_with-plain (away_zone_name g event) (unmarked p) (is_annotated-unmarked p)))
