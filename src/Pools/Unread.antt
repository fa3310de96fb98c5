-- ===== src/Pools/Unread.antt =====
-- The settings of a node pool that app/main.go does not read, and that stand in the arrays which its
-- merge patches replace.
use sample_arc_autoshift_kar.Base.{ℕ, String, none, some, List, [], ◌≡◌, ◌==◌, if◌then◌else◌, arith}
use sample_arc_autoshift_kar.Nodes.Api.{Node, NodeApi}
use sample_arc_autoshift_kar.Pools.{
  Payload, spec_patch, annotation_patch, node_pool, Request, patch, post, delete_pool,
}
use sample_arc_autoshift_kar.Pools.Api.{PoolApi}

-- What a disruption budget says besides its `nodes`.
pub record Window : Type 0 where
  pub schedule : String
  pub duration : String
  pub reasons : List String

-- The `minValues` of the requirements, each with the key, and the windows of the budgets, of those
-- that have any.
pub record Unread : Type 0 where
  pub min_values : List (String × ℕ)
  pub windows : List Window

abbrev pub nothing_unread : Unread
nothing_unread = record { min_values = []; windows = [] }

-- JSON Merge Patch (RFC 7396) replaces an array as a whole, and the payloads have none of these
-- settings.
unfoldable pub unread_patched : Payload → Unread → Unread
unread_patched (spec_patch requirements none) u = record u { min_values = [] }
unread_patched (spec_patch requirements (some disruption)) u = nothing_unread
unread_patched (annotation_patch v) u = u
unread_patched (node_pool n) u = u

-- What a request that succeeds does to these settings of the pool of name `k`. A pool that is created
-- or missing has none.
unfoldable pub unread_applied : Request → String → Unread → Unread
unfolding unread_patched
unread_applied (patch name payload) k u = if name == k then unread_patched payload u else u
unread_applied (post n) k u = if n.name == k then nothing_unread else u
unread_applied (delete_pool name) k u = if name == k then nothing_unread else u

-- What the API promises of them.
pub record KeepsUnread {S : Type 0} (api : PoolApi S) (nodes : NodeApi S)
    (unread_at : String → S → Unread) : Type 0 where
  pub send_unread :
      (r : Request) (k : String) (s : S)
      → unread_at k (api.send r s).1
        ≡ (if (api.send r s).0 then unread_applied r k (unread_at k s) else unread_at k s)
  pub update_unread :
      (n : Node) (k : String) (s : S) → unread_at k (nodes.update n s).1 ≡ unread_at k s

pub unread_applied-nothing :
    (r : Request) (k : String) → unread_applied r k nothing_unread ≡ nothing_unread
unfolding unread_applied
unread_applied-nothing (patch name (spec_patch requirements none)) k = ground arith
unread_applied-nothing (patch name (spec_patch requirements (some disruption))) k = ground arith
unread_applied-nothing (patch name (annotation_patch v)) k = ground arith
unread_applied-nothing (patch name (node_pool n)) k = ground arith
unread_applied-nothing (post n) k = ground arith
unread_applied-nothing (delete_pool name) k = ground arith
