-- ===== src/Lifecycle.antt =====
-- The program from its start to the end of a shift: `main` of app/main.go, the events of NodeClaims
-- that the controller is told, and the events of a shift.
use mathlib.Core.Option
use mathlib.Core.List.{Perm}
use sample_arc_autoshift_kar.Base.{
  String, Bool, true, false, Option, some, List, [], ◌∷◌, ◌≡◌, ◌≢◌, refl, arith,
}
use sample_arc_autoshift_kar.Base.Dict.{lookup}
use sample_arc_autoshift_kar.Event.{Event, away_from}
use sample_arc_autoshift_kar.Zones.Updated.{IsOnce}
use sample_arc_autoshift_kar.Store.{NodeInfo, new_node_store}
use sample_arc_autoshift_kar.Store.Validity.{IsValid-new_node_store}
use sample_arc_autoshift_kar.Claims.{Unstructured, process_events}
use sample_arc_autoshift_kar.Claims.Tracking.{IsTracking, process_events-IsTracking}
use sample_arc_autoshift_kar.Nodes.Api.{Node, NodeApi, IsNodeApi, IsReliable}
use sample_arc_autoshift_kar.Nodes.Shift.{normal, IsPristine}
use sample_arc_autoshift_kar.Pools.{PoolItem}
use sample_arc_autoshift_kar.Pools.Api.{PoolApi, IsPoolApi, IsAvailable}
use sample_arc_autoshift_kar.Update.{Globals, list_installed_crds, update_karpenter_node_pool}
use sample_arc_autoshift_kar.Update.Pool.{zone_values}
use sample_arc_autoshift_kar.Restore.{is_annotated, restore_karpenter_node_pool}
use sample_arc_autoshift_kar.Restore.Roundtrip.{SamePool}
use sample_arc_autoshift_kar.Handler.{handle_event}
use sample_arc_autoshift_kar.Shift.Handled.{Starts, Finishes}
use sample_arc_autoshift_kar.Shift.Whole.{handle-start_and_finish}
use sample_arc_autoshift_kar.Process.{ok, Environment}
use sample_arc_autoshift_kar.Discovery.{AwsApi}
use sample_arc_autoshift_kar.Startup.{Candidate, Host, no_globals, prepare}
use sample_arc_autoshift_kar.Startup.Ready.{prepare-IsReady}

new_node_store-IsTracking : IsTracking new_node_store
unfolding new_node_store lookup
new_node_store-IsTracking = record { valid = IsValid-new_node_store; no_empty = refl }

-- The globals after the start and some events of NodeClaims.
unfoldable pub running :
    {S Obj Fields : Type 0}
    → AwsApi S
    → PoolApi S
    → Host
    → Environment
    → Unstructured Obj Fields
    → List String
    → S
    → List (Obj × Bool)
    → Globals
running aws api host env u arguments world claims =
    record (prepare aws api host env arguments
      (record { globals = no_globals; world = world })).1.globals {
        node_store = some (process_events u claims new_node_store);
      }

module _ {S : Type 0} (api : PoolApi S) (nodes : NodeApi S)
    (schedule : List (List NodeInfo) → List (List NodeInfo)) where
  -- The events of the queue, handled one after the other.
  unfoldable pub handle_all : Globals → List Event → S → S
  handle_all g [] s = s
  handle_all g (event ∷ events) s = handle_all g events (
      handle_event (update_karpenter_node_pool api nodes schedule g)
        (restore_karpenter_node_pool api nodes schedule g) event s)

module _ {S Obj Fields : Type 0} (aws : AwsApi S) (api : PoolApi S) (nodes : NodeApi S)
    (host : Host) (env : Environment) (u : Unstructured Obj Fields)
    (schedule : List (List NodeInfo) → List (List NodeInfo)) where
  module _ {pool_at : String → S → Option PoolItem} {node_at : String → S → Option Node}
      (laws : IsPoolApi api nodes pool_at node_at) (available : IsAvailable api)
      (standard : (s : S) → list_installed_crds api s ≡ false) (node_laws : IsNodeApi nodes node_at)
      (reliable : IsReliable nodes node_at)
      (perm : (bs : List (List NodeInfo)) → Perm (schedule bs) bs) where
    -- When the program has reached its election with the do-not-disrupt feature on, and has been
    -- told any events of NodeClaims, then handling the event of a shift's start and that of its end
    -- gives back every node (a missing annotation map read as empty) that was neither annotated nor
    -- cordoned; and of every pool that had a requirement on zones, was not annotated and named no zone
    -- twice, the zones of its first such requirement in some order, and all else that the program
    -- reads of pools (a missing annotation map read as empty here too), which is not all that the
    -- cluster's pool may say. The two events are about one zone, which the program has found the name of; the cluster is in
    -- standard mode, and no call of its API fails.
    pub handle_all-running :
        (arguments : List String) (world : S) (c : Candidate) (claims : List (Obj × Bool))
        (start finish : Event) (s : S) (name j k : String) (p : PoolItem) (zones : List String)
        → (prepare aws api host env arguments (record { globals = no_globals; world = world })).0
          ≡ ok c
        → host.parse_flags arguments ≡ some true
        → away_from start ≡ away_from finish
        → Starts start
        → Finishes finish
        → lookup (away_from start) (running aws api host env u arguments world claims).zone_mapping
          ≡ some name
        → name ≢ ""
        → ((n : Node) → node_at j s ≡ some n → IsPristine n)
        → pool_at k s ≡ some p
        → is_annotated p ≡ false
        → zone_values p.requirements ≡ some zones
        → IsOnce zones
        → (Option.map normal (
              node_at j (
                handle_all api nodes schedule
                  (running aws api host env u arguments world claims)
                  (start ∷ finish ∷ [])
                  s))
            ≡ Option.map normal (node_at j s))
          × ((q : PoolItem) × (pool_at k (
                  handle_all api nodes schedule
                    (running aws api host env u arguments world claims)
                    (start ∷ finish ∷ [])
                    s)
                ≡ some q)
              × SamePool zones q p)
    unfolding running handle_all
    handle_all-running arguments world c claims start finish s name j k p zones reached parsed same
          starts finishes known named pristine held plain first once =
        let ready = prepare-IsReady aws api host env arguments world c reached in
        let (tracking, _) =
          process_events-IsTracking u claims new_node_store new_node_store-IsTracking in
        handle-start_and_finish laws available standard node_laws reliable schedule perm
          (running aws api host env u arguments world claims)
          (process_events u claims new_node_store) refl tracking.valid
          (ground (arith, ready.flag, parsed)) start finish same s name j k p zones starts finishes
          known named pristine held plain first once
