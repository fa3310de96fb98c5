-- ===== src/Shift/Handled.antt =====
-- What the handler does with the events of a shift, and what of it reaches the nodes.
use sample_arc_autoshift_kar.Base.{
  String, true, false, Option, List, ◌≡◌, refl, ◌∙◌, arith, contains,
}
use sample_arc_autoshift_kar.Event.{Event}
use sample_arc_autoshift_kar.Store.{NodeInfo}
use sample_arc_autoshift_kar.Nodes.Api.{Node, NodeApi}
use sample_arc_autoshift_kar.Pools.{PoolItem}
use sample_arc_autoshift_kar.Pools.Api.{PoolApi, IsPoolApi, IsAvailable}
use sample_arc_autoshift_kar.Update.{
  Globals, list_installed_crds, protect_first, update_pools, update_karpenter_node_pool,
}
use sample_arc_autoshift_kar.Update.Frame.{update_standard-frame}
use sample_arc_autoshift_kar.Restore.{
  away_zone_name, unprotect_first, restore_pools, restore_karpenter_node_pool,
}
use sample_arc_autoshift_kar.Restore.Frame.{restore_standard-frame}
use sample_arc_autoshift_kar.Handler.{handle_event, routed_types}
use sample_arc_autoshift_kar.Handler.Dispatch.{start_types}

-- The event announces the start of a shift.
abbrev pub Starts : Event → Type 0
Starts event = contains event.detail_type start_types ≡ true

-- The event is routed to the queue, and announces no start.
abbrev pub Finishes : Event → Type 0
Finishes event =
    (contains event.detail_type routed_types ≡ true)
    × (contains event.detail_type start_types ≡ false)

pub handle_event-Starts :
    {S : Type 0} (update restore : Event → S → S) (event : Event) (s : S)
    → Starts event
    → handle_event update restore event s ≡ update event s
unfolding handle_event contains
handle_event-Starts update restore event s h = ground (arith, h)

pub handle_event-Finishes :
    {S : Type 0} (update restore : Event → S → S) (event : Event) (s : S)
    → Finishes event
    → handle_event update restore event s ≡ restore event s
unfolding handle_event contains
handle_event-Finishes update restore event s (routed, no_start) = ground (arith, routed, no_start)

module _ {S : Type 0} {api : PoolApi S} {nodes : NodeApi S} {pool_at : String → S → Option PoolItem}
    {node_at : String → S → Option Node} (laws : IsPoolApi api nodes pool_at node_at)
    (available : IsAvailable api) (standard : (s : S) → list_installed_crds api s ≡ false)
    (schedule : List (List NodeInfo) → List (List NodeInfo)) (g : Globals) (event : Event)
    (j : String) (s : S) where
  -- In standard mode only the protection touches the nodes.
  pub node_at-update :
      node_at j (update_karpenter_node_pool api nodes schedule g event s)
      ≡ node_at j (protect_first api nodes schedule g event s)
  unfolding update_karpenter_node_pool update_pools
  node_at-update =
      let s' = protect_first api nodes schedule g event s in
      let (ps, listed) = available.lists s' in
      let frame =
        update_standard-frame api (λ t. node_at j t ≡ node_at j s')
          (λ r t h. laws.send_keeps_nodes r j t ∙ h) nodes g event ps s' refl in
      ground (arith, available.configured, available.connected, listed, standard s, frame)

  pub node_at-restore :
      node_at j (restore_karpenter_node_pool api nodes schedule g event s)
      ≡ node_at j (unprotect_first api nodes schedule g event s)
  unfolding restore_karpenter_node_pool restore_pools
  node_at-restore =
      let s' = unprotect_first api nodes schedule g event s in
      let (ps, listed) = available.lists s' in
      let frame =
        restore_standard-frame api (λ t. node_at j t ≡ node_at j s')
          (λ r t h. laws.send_keeps_nodes r j t ∙ h) (away_zone_name g event) ps s' refl in
      ground (arith, available.configured, available.connected, listed, standard s, frame)
