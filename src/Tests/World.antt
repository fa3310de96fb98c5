-- ===== src/Tests/World.antt =====
-- A cluster of nodes and pools whose API never fails: the assumptions on the API hold for it.
use std.Path.{subst}
use sample_arc_autoshift_kar.Base.{
  String, true, Option, none, some, List, [], ◌∷◌, ◌≡◌, refl, ◌==◌, eq_iff, eq_refl, if◌then◌else◌,
  arith, Option-cases, inl, inr,
}
use sample_arc_autoshift_kar.Base.Dict.{Dict, insert, lookup-insert}
use sample_arc_autoshift_kar.Nodes.Api.{Node, NodeApi, IsNodeApi, IsReliable}
use sample_arc_autoshift_kar.Nodes.Cluster.{read_node}
use sample_arc_autoshift_kar.Pools.{
  PoolItem, Payload, spec_patch, annotation_patch, node_pool, Request, patch, post, delete_pool,
}
use sample_arc_autoshift_kar.Pools.Api.{
  PoolApi, patched, created, applied, find_pool, IsUnique, IsPoolApi, IsAvailable,
}

pub record World : Type 0 where
  pub nodes : Dict Node
  pub pools : List PoolItem

abbrev pub node_at : String → World → Option Node
node_at k w = read_node k w.nodes

abbrev pub pool_at : String → World → Option PoolItem
pool_at k w = find_pool k w.pools

abbrev pub without : String → List PoolItem → List PoolItem
without k [] = []
without k (p ∷ ps) = if p.name == k then without k ps else p ∷ without k ps

-- The first pool of each name.
abbrev pub listed : List PoolItem → List PoolItem
listed [] = []
listed (p ∷ ps) = p ∷ without p.name (listed ps)

abbrev pub write : String → Option PoolItem → List PoolItem → List PoolItem
write k o ps = elim o [ none ↦ without k ps | some p ↦ p ∷ without k ps ]

abbrev pub target : Request → String
target (patch name payload) = name
target (post n) = n.name
target (delete_pool name) = name

abbrev pub answer : Request → World → World
answer r w = record w {
  pools = write (target r) (applied r (target r) (find_pool (target r) w.pools)) w.pools;
}

abbrev pub world_nodes : NodeApi World
world_nodes = record {
  get = node_at;
  update = λ n w. (true, record w { nodes = insert n.name n w.nodes });
}

abbrev pub world_pools : PoolApi World
world_pools = record {
  config_ok = true;
  clientset_ok = true;
  create_config_ok = λ w. true;
  create_clientset_ok = λ w. true;
  list_crds = λ w. some ("nodepools.karpenter.sh" ∷ []);
  list_pools = λ w. some (listed w.pools);
  send = λ r w. (true, answer r w);
  marshals = λ payload. true;
}

find_pool-without :
    (n k : String) (ps : List PoolItem)
    → find_pool k (without n ps) ≡ (if n == k then none else find_pool k ps)
unfolding find_pool
find_pool-without n k [] = ground arith
find_pool-without n k (p ∷ ps) =
    ground (arith, eq_iff n k, eq_iff p.name k, eq_iff p.name n, find_pool-without n k ps)

without-IsUnique : (n : String) (ps : List PoolItem) → IsUnique ps → IsUnique (without n ps)
unfolding find_pool
without-IsUnique n [] u = tt
without-IsUnique n (p ∷ ps) u =
    ground (arith, find_pool-without n p.name ps, without-IsUnique n ps u.1)

listed-IsUnique : (ps : List PoolItem) → IsUnique (listed ps)
unfolding find_pool
listed-IsUnique [] = tt
listed-IsUnique (p ∷ ps) = (
  ground (arith, find_pool-without p.name p.name (listed ps), eq_refl p.name),
  without-IsUnique p.name (listed ps) (listed-IsUnique ps),
)

find_pool-listed : (k : String) (ps : List PoolItem) → find_pool k (listed ps) ≡ find_pool k ps
unfolding find_pool
find_pool-listed k [] = refl
find_pool-listed k (p ∷ ps) =
    ground (arith, find_pool-without p.name k (listed ps), find_pool-listed k ps)

find_pool-named :
    (k : String) (ps : List PoolItem) (p : PoolItem) → find_pool k ps ≡ some p → p.name ≡ k
unfolding find_pool
find_pool-named k [] p h = ground (arith, h)
find_pool-named k (q ∷ ps) p h = ground (arith, h, eq_iff q.name k, find_pool-named k ps p)

patched-name : (payload : Payload) (p : PoolItem) → (patched payload p).name ≡ p.name
unfolding patched
patched-name (spec_patch requirements none) p = refl
patched-name (spec_patch requirements (some disruption)) p = refl
patched-name (annotation_patch (some v)) p = refl
patched-name (annotation_patch none) p = refl
patched-name (node_pool n) p = refl

pub answer_lem :
    (r : Request) (k : String) (w : World) → pool_at k (answer r w) ≡ applied r k (pool_at k w)
unfolding applied find_pool created
answer_lem (patch name payload) k w = elim (Option-cases (find_pool name w.pools)) [
  | inl e ↦ ground (arith, e, eq_iff name k, eq_refl name, find_pool-without name k w.pools)
  | inr (p, e) ↦ ground (
    arith,
    e,
    eq_iff name k,
    eq_refl name,
    find_pool-without name k w.pools,
    patched-name payload p,
    find_pool-named name w.pools p e,
  )
]
answer_lem (post n) k w =
    ground (arith, eq_iff n.name k, eq_refl n.name, find_pool-without n.name k w.pools)
answer_lem (delete_pool name) k w =
    ground (arith, eq_iff name k, eq_refl name, find_pool-without name k w.pools)

listed-eq : (ps qs : List PoolItem) → some (listed ps) ≡ some qs → listed ps ≡ qs
listed-eq ps qs h = cc

pub world-IsNodeApi : IsNodeApi world_nodes node_at
world-IsNodeApi = record {
  named = λ k s n h. ground (arith, eq_iff n.name k, h);
  get_reads = λ k s n h. h;
  update_writes = λ n k s.
      ground (arith, lookup-insert n.name k n s.nodes, eq_iff n.name k, eq_iff n.name n.name);
}

pub world-IsReliable : IsReliable world_nodes node_at
world-IsReliable = record { get_ok = λ k s. refl; update_ok = λ n s. refl }

pub world-IsPoolApi : IsPoolApi world_pools world_nodes pool_at node_at
world-IsPoolApi = record {
  list_reads = λ s ps h.
      subst (λ qs. IsUnique qs × ((k : String) → find_pool k qs ≡ pool_at k s))
        (listed-eq s.pools ps h) (listed-IsUnique s.pools, λ k. find_pool-listed k s.pools);
  send_applies = λ r k s. answer_lem r k s;
  send_keeps_nodes = λ r k s. refl;
  update_keeps_pools = λ n k s. refl;
}

pub world-IsAvailable : IsAvailable world_pools
world-IsAvailable = record {
  configured = refl;
  connected = refl;
  create_configured = λ s. refl;
  create_connected = λ s. refl;
  lists = λ s. (listed s.pools, refl);
  succeeds = λ r s. refl;
  marshalled = λ p. refl;
}

-- The same cluster in auto mode.
abbrev pub auto_pools : PoolApi World
auto_pools = record world_pools { list_crds = λ w. some ("nodeclasses.eks.amazonaws.com" ∷ []) }

pub auto-IsPoolApi : IsPoolApi auto_pools world_nodes pool_at node_at
auto-IsPoolApi = record {
  list_reads = world-IsPoolApi.list_reads;
  send_applies = world-IsPoolApi.send_applies;
  send_keeps_nodes = world-IsPoolApi.send_keeps_nodes;
  update_keeps_pools = world-IsPoolApi.update_keeps_pools;
}

pub auto-IsAvailable : IsAvailable auto_pools
auto-IsAvailable = record {
  configured = refl;
  connected = refl;
  create_configured = λ s. refl;
  create_connected = λ s. refl;
  lists = λ s. (listed s.pools, refl);
  succeeds = λ r s. refl;
  marshalled = λ p. refl;
}
