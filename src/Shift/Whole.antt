-- ===== src/Shift/Whole.antt =====
-- A whole shift as the program handles it: the event of its start and that of its end, the nodes and
-- the pools together.
use mathlib.Core.Option
use mathlib.Core.List.{Perm}
use sample_arc_autoshift_kar.Base.{
  String, true, false, Option, some, List, if◌then◌else◌, ◌≡◌, ◌≢◌, refl, ap, ◌∙◌, arith,
  Option-cases, inl, inr,
}
use sample_arc_autoshift_kar.Base.Dict.{lookup}
use sample_arc_autoshift_kar.Event.{Event, away_from}
use sample_arc_autoshift_kar.Zones.Updated.{IsOnce}
use sample_arc_autoshift_kar.Store.{NodeInfo, NodeStore}
use sample_arc_autoshift_kar.Store.Validity.{IsValid}
use sample_arc_autoshift_kar.Nodes.Api.{Node, NodeApi, IsNodeApi, IsReliable}
use sample_arc_autoshift_kar.Nodes.Visits.{is_tracked}
use sample_arc_autoshift_kar.Nodes.Protection.{protected, unprotected}
use sample_arc_autoshift_kar.Nodes.Shift.{
  normal, IsPristine, normal-unprotected-protected, node_at-annotate_and_cordon_nodes,
  node_at-remove_protection_from_nodes,
}
use sample_arc_autoshift_kar.Pools.{PoolItem}
use sample_arc_autoshift_kar.Pools.Api.{PoolApi, IsPoolApi, IsAvailable}
use sample_arc_autoshift_kar.Update.{
  Globals, list_installed_crds, protect_first, update_karpenter_node_pool,
}
use sample_arc_autoshift_kar.Update.Pool.{zone_values}
use sample_arc_autoshift_kar.Update.Pools.{standard_shift, update_karpenter_node_pool-standard}
use sample_arc_autoshift_kar.Restore.{
  away_zone_name, is_annotated, unprotect_first, restore_karpenter_node_pool,
}
use sample_arc_autoshift_kar.Restore.Pools.{restore_karpenter_node_pool-standard}
use sample_arc_autoshift_kar.Restore.Requirements.{restored_with-plain}
use sample_arc_autoshift_kar.Restore.Roundtrip.{SamePool, restore-update}
use sample_arc_autoshift_kar.Handler.{handle_event}
use sample_arc_autoshift_kar.Shift.Handled.{
  Starts, Finishes, handle_event-Starts, handle_event-Finishes, node_at-update, node_at-restore,
}

away_zone_name-same :
    (g : Globals) (start finish : Event)
    → away_from start ≡ away_from finish
    → away_zone_name g finish ≡ away_zone_name g start
unfolding away_zone_name
away_zone_name-same g start finish same = rw same refl

module _ {S : Type 0} {api : PoolApi S} {nodes : NodeApi S} {pool_at : String → S → Option PoolItem}
    {node_at : String → S → Option Node} (laws : IsPoolApi api nodes pool_at node_at)
    (available : IsAvailable api) (standard : (s : S) → list_installed_crds api s ≡ false)
    (node_laws : IsNodeApi nodes node_at) (reliable : IsReliable nodes node_at)
    (schedule : List (List NodeInfo) → List (List NodeInfo))
    (perm : (bs : List (List NodeInfo)) → Perm (schedule bs) bs) (g : Globals) (store : NodeStore)
    (tracked : g.node_store ≡ some store) (valid : IsValid store)
    (enabled : g.do_not_disrupt_enabled ≡ true) where
  node_at-protect_first :
      (event : Event) (j : String) (s : S)
      → node_at j (protect_first api nodes schedule g event s) ≡ (
          if is_tracked (away_zone_name g event) store j
          then Option.map protected (node_at j s)
          else node_at j s)
  unfolding protect_first away_zone_name
  node_at-protect_first event j s =
      rw (enabled, tracked)
        (node_at-annotate_and_cordon_nodes node_laws reliable schedule perm (away_zone_name g event)
          store valid j s)

  node_at-unprotect_first :
      (event : Event) (j : String) (s : S)
      → node_at j (unprotect_first api nodes schedule g event s) ≡ (
          if is_tracked (away_zone_name g event) store j
          then Option.map unprotected (node_at j s)
          else node_at j s)
  unfolding unprotect_first away_zone_name
  node_at-unprotect_first event j s =
      rw (enabled, tracked)
        (node_at-remove_protection_from_nodes node_laws reliable schedule perm
          (away_zone_name g event) store valid j s)

  module _ (start finish : Event) (same : away_from start ≡ away_from finish) (s : S) where
    abbrev between : S
    between = update_karpenter_node_pool api nodes schedule g start s

    nodes_restored :
        (j : String)
        → ((n : Node) → node_at j s ≡ some n → IsPristine n)
        → Option.map normal
            (node_at j (restore_karpenter_node_pool api nodes schedule g finish between))
          ≡ Option.map normal (node_at j s)
    nodes_restored j pristine =
        rw
          (
            node_at-restore laws available standard schedule g finish j between,
            node_at-unprotect_first finish j between,
            ap (λ az. is_tracked az store j) (away_zone_name-same g start finish same),
            node_at-update laws available standard schedule g start j s,
            node_at-protect_first start j s,
          )
          (elim (Option-cases (node_at j s)) [
            | inl e ↦ rw e (ground arith)
            | inr (n, e) ↦ rw e (ground (arith, normal-unprotected-protected n (pristine n e)))
          ])

    -- The pools do not tell the event of the end from one of the start's text.
    pools_restored :
        (k : String)
        → pool_at k (restore_karpenter_node_pool api nodes schedule g finish between)
          ≡ pool_at k (restore_karpenter_node_pool api nodes schedule g start between)
    pools_restored k =
        rw
          (
            restore_karpenter_node_pool-standard laws available schedule g finish between
                (standard between) k,
            restore_karpenter_node_pool-standard laws available schedule g start between
                (standard between) k,
            away_zone_name-same g start finish same,
          )
          refl

    -- When the event of a shift's start is handled and then that of its end, for the same zone, with
    -- nothing in between, every node is as it was (a missing annotation map read as empty) if it was
    -- neither annotated nor cordoned, and every pool that had a requirement on zones, was not
    -- annotated and named no zone twice, has the zones of its first such requirement in some order
    -- and all else that the program reads of pools as it was, a missing annotation map read as empty.
    -- The impaired zone is known by name, the do-not-disrupt feature is on,
    -- the node store is valid, the cluster is in standard mode, and no call of its API fails.
    pub handle-start_and_finish :
        (name j k : String) (p : PoolItem) (zones : List String)
        → Starts start
        → Finishes finish
        → lookup (away_from start) g.zone_mapping ≡ some name
        → name ≢ ""
        → ((n : Node) → node_at j s ≡ some n → IsPristine n)
        → pool_at k s ≡ some p
        → is_annotated p ≡ false
        → zone_values p.requirements ≡ some zones
        → IsOnce zones
        → (Option.map normal (
              node_at j (
                handle_event
                  (update_karpenter_node_pool api nodes schedule g)
                  (restore_karpenter_node_pool api nodes schedule g)
                  finish
                  (handle_event
                    (update_karpenter_node_pool api nodes schedule g)
                    (restore_karpenter_node_pool api nodes schedule g)
                    start
                    s)))
            ≡ Option.map normal (node_at j s))
          × ((q : PoolItem) × (pool_at k (
                  handle_event
                    (update_karpenter_node_pool api nodes schedule g)
                    (restore_karpenter_node_pool api nodes schedule g)
                    finish
                    (handle_event
                      (update_karpenter_node_pool api nodes schedule g)
                      (restore_karpenter_node_pool api nodes schedule g)
                      start
                      s))
                ≡ some q)
              × SamePool zones q p)
    handle-start_and_finish name j k p zones starts finishes known named pristine held plain first
          once =
        let update = update_karpenter_node_pool api nodes schedule g in
        let restore = restore_karpenter_node_pool api nodes schedule g in
        let (q, after, same_pool) =
          restore-update laws available standard schedule g start name k s p zones known named held
            plain first once in
        rw
          (
            handle_event-Starts update restore start s starts,
            handle_event-Finishes update restore finish between finishes,
          )
          (nodes_restored j pristine, (q, pools_restored k ∙ after, same_pool))

module _ {S : Type 0} {api : PoolApi S} {nodes : NodeApi S} {pool_at : String → S → Option PoolItem}
    {node_at : String → S → Option Node} (laws : IsPoolApi api nodes pool_at node_at)
    (available : IsAvailable api) (standard : (s : S) → list_installed_crds api s ≡ false)
    (schedule : List (List NodeInfo) → List (List NodeInfo)) (g : Globals) (start finish : Event)
    (s : S) where
  -- When the event of the end is handled before that of the start, which the goroutines of the two
  -- do not rule out, a pool that was not annotated is left as the start alone leaves it: the end has
  -- no effect. The cluster is in standard mode, and its API is available.
  pub handle-finish_and_start :
      (k : String) (p : PoolItem)
      → Starts start
      → Finishes finish
      → pool_at k s ≡ some p
      → is_annotated p ≡ false
      → pool_at k (
          handle_event
            (update_karpenter_node_pool api nodes schedule g)
            (restore_karpenter_node_pool api nodes schedule g)
            start
            (handle_event
              (update_karpenter_node_pool api nodes schedule g)
              (restore_karpenter_node_pool api nodes schedule g)
              finish
              s))
        ≡ pool_at k (
            handle_event
              (update_karpenter_node_pool api nodes schedule g)
              (restore_karpenter_node_pool api nodes schedule g)
              start
              s)
  handle-finish_and_start k p starts finishes held plain =
      let update = update_karpenter_node_pool api nodes schedule g in
      let restore = restore_karpenter_node_pool api nodes schedule g in
      let t = restore finish s in
      let kept : pool_at k t ≡ pool_at k s =
        rw
          (
            restore_karpenter_node_pool-standard laws available schedule g finish s (standard s) k,
            held,
          )
          (ap some (restored_with-plain (away_zone_name g finish) p plain)) in
      rw
        (
          handle_event-Finishes update restore finish s finishes,
          handle_event-Starts update restore start t starts,
          handle_event-Starts update restore start s starts,
          update_karpenter_node_pool-standard laws available schedule g start t (standard t) k,
          update_karpenter_node_pool-standard laws available schedule g start s (standard s) k,
        )
        (ap (Option.map (standard_shift g start)) kept)
