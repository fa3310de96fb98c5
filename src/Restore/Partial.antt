-- ===== src/Restore/Partial.antt =====
-- What the end of a shift leaves of the pools when any requests fail, in standard mode.
use sample_arc_autoshift_kar.Base.{
  String, Bool, true, false, ◌&&◌, Option, none, some, List, [], ◌∷◌, ◌++◌, ◌==◌, eq_iff, ◌≡◌, refl,
  ◌∙◌, arith, ◌⊎◌, Bool-cases, Option-cases, inl, inr,
}
use sample_arc_autoshift_kar.Event.{Event}
use sample_arc_autoshift_kar.Store.{NodeInfo}
use sample_arc_autoshift_kar.Nodes.Api.{Node, NodeApi}
use sample_arc_autoshift_kar.Pools.{
  Requirement, PoolItem, Payload, spec_patch, annotation_patch, patch,
}
use sample_arc_autoshift_kar.Pools.Api.{PoolApi, IsPoolApi, IsUnique, find_pool, applied}
use sample_arc_autoshift_kar.Update.{Globals, list_installed_crds}
use sample_arc_autoshift_kar.Update.Pool.{zone_values, set_zone_values}
use sample_arc_autoshift_kar.Update.Requests.{patch-keeps}
use sample_arc_autoshift_kar.Update.Loop.{Outcome, loop-Outcome}
use sample_arc_autoshift_kar.Restore.{
  away_zone_name, is_annotated, send_restored, restore_pool, restore_standard, restore_pools,
  unprotect_first, restore_karpenter_node_pool,
}
use sample_arc_autoshift_kar.Restore.Pools.{
  unmarked, restore_requirements-lem, unprotect_first-keeps_pools,
}

-- How far the restoring of the pool `p` to the requirements `reqs` may have come: not at all, to the
-- new requirements alone, to the loss of the annotation alone, or to both.
abbrev pub SentReached : PoolItem → List Requirement → Option PoolItem → Type 0
SentReached p reqs o =
    (o ≡ some p)
    ⊎ ((o ≡ some (record p { requirements = reqs }))
        ⊎ ((o ≡ some (unmarked p)) ⊎ (o ≡ some (unmarked (record p { requirements = reqs })))))

-- A pool that has no requirement on zones stays as it was.
abbrev pub ZonesReached : String → PoolItem → Option (List String) → Option PoolItem → Type 0
ZonesReached away p none o = o ≡ some p
ZonesReached away p (some zones) o =
    SentReached p (set_zone_values (zones ++ away ∷ []) p.requirements) o

-- And so does one that is not annotated.
abbrev pub RestoreReached : String → PoolItem → Bool → Option PoolItem → Type 0
RestoreReached away p false o = o ≡ some p
RestoreReached away p true o = ZonesReached away p (zone_values p.requirements) o

ZonesReached-refl :
    (away : String) (p : PoolItem) (o : Option (List String)) → ZonesReached away p o (some p)
ZonesReached-refl away p none = refl
ZonesReached-refl away p (some zones) = inl refl

RestoreReached-refl : (away : String) (p : PoolItem) (b : Bool) → RestoreReached away p b (some p)
RestoreReached-refl away p false = refl
RestoreReached-refl away p true = ZonesReached-refl away p (zone_values p.requirements)

-- The same of the pool that the cluster holds under a name.
abbrev pub PoolRestored : String → Option PoolItem → Option PoolItem → Type 0
PoolRestored away before after =
    Outcome (λ p o. RestoreReached away p (is_annotated p) o) before before after

PoolRestored-refl : (away : String) (o : Option PoolItem) → PoolRestored away o o
PoolRestored-refl away none = refl
PoolRestored-refl away (some p) = RestoreReached-refl away p (is_annotated p)

module _ {S : Type 0} {api : PoolApi S} {nodes : NodeApi S} {pool_at : String → S → Option PoolItem}
    {node_at : String → S → Option Node} (laws : IsPoolApi api nodes pool_at node_at)
    (marshalled : (p : Payload) → api.marshals p ≡ true) (away : String) where
  send_restored-keeps :
      (p : PoolItem) (reqs : List Requirement) (k : String) (s : S)
      → (p.name == k) ≡ false
      → pool_at k (send_restored api p reqs s) ≡ pool_at k s
  unfolding send_restored
  send_restored-keeps p reqs k s apart =
      let spec = spec_patch reqs none in
      patch-keeps laws p.name (annotation_patch none) k (api.send (patch p.name spec) s).1 apart
      ∙ patch-keeps laws p.name spec k s apart

  send_restored-Reached :
      (p : PoolItem) (reqs : List Requirement) (k : String) (s : S)
      → p.name ≡ k
      → pool_at k s ≡ some p
      → SentReached p reqs (pool_at k (send_restored api p reqs s))
  unfolding send_restored unmarked applied
  send_restored-Reached p reqs k s named h =
      let spec = patch p.name (spec_patch reqs none) in
      let note = patch p.name (annotation_patch none) in
      ground (
        arith,
        h,
        named,
        eq_iff p.name k,
        laws.send_applies spec k s,
        laws.send_applies note k (api.send spec s).1,
      )

  pub restore_pool-keeps :
      (p : PoolItem) (k : String) (s : S)
      → (p.name == k) ≡ false
      → pool_at k (restore_pool api away p s) ≡ pool_at k s
  unfolding restore_pool
  restore_pool-keeps p k s apart =
      let run = restore_requirements-lem api marshalled p away [] p.requirements s in
      elim (Option-cases (zone_values p.requirements)) [
        | inl e ↦ ground (arith, e, run)
        | inr (zones, e) ↦ ground (
          arith,
          e,
          run,
          send_restored-keeps p (set_zone_values (zones ++ away ∷ []) p.requirements) k s apart,
        )
      ]

  -- What an annotated pool with a requirement on zones is sent.
  pub restore_pool_lem :
      (p : PoolItem) (zones : List String) (s : S)
      → is_annotated p ≡ true
      → zone_values p.requirements ≡ some zones
      → restore_pool api away p s
        ≡ send_restored api p (set_zone_values (zones ++ away ∷ []) p.requirements) s
  unfolding restore_pool
  restore_pool_lem p zones s annotated e =
      ground
        (arith, annotated, e, restore_requirements-lem api marshalled p away [] p.requirements s)

  restore_pool-Reached :
      (p : PoolItem) (k : String) (s : S)
      → p.name ≡ k
      → pool_at k s ≡ some p
      → RestoreReached away p (is_annotated p) (pool_at k (restore_pool api away p s))
  restore_pool-Reached p k s named h = elim (Bool-cases (is_annotated p)) [
    | inl annotated ↦ elim (Option-cases (zone_values p.requirements)) [
      | inl e ↦
          let run = restore_requirements-lem api marshalled p away [] p.requirements s in
          let same : restore_pool api away p s ≡ s =
            unfold restore_pool in ground (arith, e, run) in
          rw (annotated, e, same) h
      | inr (zones, e) ↦
          rw (annotated, e, restore_pool_lem p zones s annotated e)
            (send_restored-Reached p (set_zone_values (zones ++ away ∷ []) p.requirements) k s named
              h)
    ]
    | inr plain ↦
        let same : restore_pool api away p s ≡ s = unfold restore_pool in ground (arith, plain) in
        rw (plain, same) h
  ]

  restore_standard-Outcome :
      (k : String) (ps : List PoolItem) (s : S)
      → find_pool k ps ≡ pool_at k s
      → IsUnique ps
      → PoolRestored away (pool_at k s) (pool_at k (restore_standard api away ps s))
  unfolding restore_standard
  restore_standard-Outcome k ps s shown unique =
      let run =
        loop-Outcome pool_at k (λ p o. RestoreReached away p (is_annotated p) o)
          (restore_standard api away) (restore_pool api away) (λ t. refl) (λ p qs t. refl)
          (λ p t. restore_pool-keeps p k t) (λ p t. restore_pool-Reached p k t) ps s unique
          (inr shown) in
      rw shown at run

module _ {S : Type 0} {api : PoolApi S} {nodes : NodeApi S} {pool_at : String → S → Option PoolItem}
    {node_at : String → S → Option Node} (laws : IsPoolApi api nodes pool_at node_at)
    (marshalled : (p : Payload) → api.marshals p ≡ true) (g : Globals) (event : Event) where
  -- Whatever requests fail, in standard mode, the end of a shift makes and removes no pool, and
  -- leaves each pool as it was, with the zone put back alone, without the annotation alone, or with
  -- both; one that is not annotated or has no requirement on zones stays as it was.
  pub restore_karpenter_node_pool-Restored :
      (schedule : List (List NodeInfo) → List (List NodeInfo)) (s : S)
      → list_installed_crds api s ≡ false
      → (k : String)
      → PoolRestored
          (away_zone_name g event)
          (pool_at k s)
          (pool_at k (restore_karpenter_node_pool api nodes schedule g event s))
  restore_karpenter_node_pool-Restored schedule s standard k =
      let s' = unprotect_first api nodes schedule g event s in
      let kept : pool_at k s' ≡ pool_at k s =
        unprotect_first-keeps_pools laws schedule g event k s in
      let away = away_zone_name g event in
      elim (Bool-cases (api.config_ok && api.clientset_ok)) [
        | inl ok ↦ elim (Option-cases (api.list_pools s')) [
          | inl e ↦
              unfold restore_karpenter_node_pool in
              rw (ok, e, kept) (PoolRestored-refl away (pool_at k s))
          | inr (ps, e) ↦
              let (unique, reads) = laws.list_reads s' ps e in
              unfold restore_karpenter_node_pool restore_pools in
              rw (ok, e, standard, ← kept)
                (restore_standard-Outcome laws marshalled away k ps s' (reads k) unique)
        ]
        | inr bad ↦
            unfold restore_karpenter_node_pool in rw bad (PoolRestored-refl away (pool_at k s))
      ]
