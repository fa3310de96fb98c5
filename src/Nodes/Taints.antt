-- ===== src/Nodes/Taints.antt =====
-- The NoExecute taint of an impaired zone, put on one node and taken off.
use sample_arc_autoshift_kar.Base.{
  ◌≤◌, String, true, false, Option, List, [], ◌∷◌, ◌++◌, eq_iff, if◌then◌else◌, ◌≡◌, refl, arith,
  Bool-cases, Option-cases, inl, inr, length,
}
use sample_arc_autoshift_kar.Nodes.Api.{Taint, Node, NodeApi, IsNodeApi, IsReliable}
use sample_arc_autoshift_kar.Nodes.{zone_taint, has_taint, other_taints, taint_node, untaint_node}
use sample_arc_autoshift_kar.Nodes.Visits.{Visits}

-- A node with the taint of its zone, unless it has one of that key.
unfoldable pub tainted : String → Node → Node
unfolding has_taint
tainted az n =
    if has_taint n.taints then n else record n { taints = n.taints ++ zone_taint az ∷ [] }

-- A node without taints of that key.
unfoldable pub untainted : Node → Node
unfolding other_taints
untainted n = record n { taints = other_taints n.taints }

has_taint-append : (az : String) (ts : List Taint) → has_taint (ts ++ zone_taint az ∷ []) ≡ true
unfolding has_taint
has_taint-append az [] = refl
has_taint-append az (t ∷ ts) = ground (arith, has_taint-append az ts)

pub tainted-tainted : (az : String) (n : Node) → tainted az (tainted az n) ≡ tainted az n
unfolding tainted
tainted-tainted az n = elim (Bool-cases (has_taint n.taints)) [
  | inl h ↦ rw (h, h)
  | inr h ↦ rw (h, has_taint-append)
]

pub has_taint-other_taints : (ts : List Taint) → has_taint (other_taints ts) ≡ false
unfolding has_taint other_taints
has_taint-other_taints [] = refl
has_taint-other_taints (t ∷ ts) = ground (arith, has_taint-other_taints ts)

pub other_taints-eq_of_none : (ts : List Taint) → has_taint ts ≡ false → other_taints ts ≡ ts
unfolding has_taint other_taints
other_taints-eq_of_none [] h = refl
other_taints-eq_of_none (t ∷ ts) h = ground (arith, other_taints-eq_of_none ts)

other_taints-append :
    (az : String) (ts : List Taint) → other_taints (ts ++ zone_taint az ∷ []) ≡ other_taints ts
unfolding other_taints
other_taints-append az [] = refl
other_taints-append az (t ∷ ts) = ground (arith, other_taints-append az ts)

length-other_taints-le : (ts : List Taint) → length (other_taints ts) ≤ length ts
unfolding other_taints
length-other_taints-le [] = omega arith
length-other_taints-le (t ∷ ts) = ground (arith, length-other_taints-le ts)

-- The code's test of whether anything was filtered out.
other_taints-eq_of_length :
    (ts : List Taint) → length (other_taints ts) ≡ length ts → other_taints ts ≡ ts
unfolding other_taints
other_taints-eq_of_length [] h = refl
other_taints-eq_of_length (t ∷ ts) h =
    ground (arith, other_taints-eq_of_length ts, length-other_taints-le ts)

pub untainted-untainted : (n : Node) → untainted (untainted n) ≡ untainted n
unfolding untainted
untainted-untainted n =
    rw (other_taints-eq_of_none (other_taints n.taints) (has_taint-other_taints n.taints))

-- Taking the taint off undoes putting it on, where no taint of that key was there before.
pub untainted-tainted :
    (az : String) (n : Node) → has_taint n.taints ≡ false → untainted (tainted az n) ≡ n
unfolding tainted untainted
untainted-tainted az n h =
    rw h (rw (other_taints-append az n.taints, other_taints-eq_of_none n.taints h))

module _ {S : Type 0} {api : NodeApi S} {node_at : String → S → Option Node}
    (laws : IsNodeApi api node_at) (reliable : IsReliable api node_at) where
  pub taint_node-Visits : (az : String) → Visits node_at (tainted az) (taint_node api az)
  unfolding taint_node
  taint_node-Visits az k j s = elim (Option-cases (node_at k s)) [
    | inl e ↦ ground (arith, reliable.get_ok k s, eq_iff k j)
    | inr (n, e) ↦
        let m : Node = record n { taints = n.taints ++ zone_taint az ∷ [] } in
        unfold tainted in
        ground (
          arith,
          reliable.get_ok k s,
          e,
          reliable.update_ok m s,
          laws.update_writes m j s,
          laws.named k s n e,
          eq_iff k j,
        )
  ]

  pub untaint_node-Visits : Visits node_at untainted (untaint_node api)
  unfolding untaint_node
  untaint_node-Visits k j s = elim (Option-cases (node_at k s)) [
    | inl e ↦ ground (arith, reliable.get_ok k s, eq_iff k j)
    | inr (n, e) ↦
        let m : Node = record n { taints = other_taints n.taints } in
        unfold untainted in
        ground (
          arith,
          reliable.get_ok k s,
          e,
          reliable.update_ok m s,
          laws.update_writes m j s,
          laws.named k s n e,
          eq_iff k j,
          other_taints-eq_of_length n.taints,
        )
  ]
