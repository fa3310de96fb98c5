-- ===== src/Store/Queries.antt =====
-- What a query by zone returns, in terms of the map.
use mathlib.Core.List.{Perm, filter_map}
use mathlib.Core.List.Perm
use sample_arc_autoshift_kar.Base.{
  String, List, [], ◌∷◌, Option, none, some, ◌≡◌, arith, ◌==◌, eq_iff, if◌then◌else◌, Bool, ◌||◌,
}
use sample_arc_autoshift_kar.Base.Dict.{Dict, Distinct, lookup, lookup-insert, lookup-delete}
use sample_arc_autoshift_kar.Base.Dict.Order.{perm-of-lookup}
use sample_arc_autoshift_kar.Store.{
  NodeInfo, NodeStore, add_node, remove_node, all_infos, infos_in, get_nodes_by_az,
}
use sample_arc_autoshift_kar.Store.Validity.{
  IsKeyed, IsValid, add_node-IsValid, remove_node-IsValid,
}

-- The first node of that name.
unfoldable pub find_info : String → List NodeInfo → Option NodeInfo
find_info n [] = none
find_info n (info ∷ l) = if info.node_name == n then some info else find_info n l

-- The zone filter: an empty zone lets every node through.
abbrev pub in_zone : String → NodeInfo → Bool
in_zone az info = az == "" || info.availability_zone == az

abbrev pub keep_zone : String → Option NodeInfo → Option NodeInfo
keep_zone az none = none
keep_zone az (some info) = if in_zone az info then some info else none

-- No name stands twice in a list of nodes.
abbrev pub IsUnique : List NodeInfo → Type 0
IsUnique [] = Unit
IsUnique (info ∷ l) = (find_info info.node_name l ≡ none) × IsUnique l

infos : String → Dict NodeInfo → List NodeInfo
infos az m = if az == "" then all_infos m else infos_in az m

infos-cons :
    (az k : String) (info : NodeInfo) (m : Dict NodeInfo)
    → infos az ((k, info) ∷ m) ≡ (if in_zone az info then info ∷ infos az m else infos az m)
unfolding infos all_infos infos_in
infos-cons az k info m = ground arith

find_info-infos :
    (az n : String) (m : Dict NodeInfo)
    → IsKeyed m
    → Distinct m
    → find_info n (infos az m) ≡ keep_zone az (lookup n m)
unfolding find_info lookup
find_info-infos az n [] h d = unfold infos all_infos infos_in in ground arith
find_info-infos az n ((k, info) ∷ m) h d =
    rw infos-cons
      (ground (arith, eq_iff k n, eq_iff info.node_name n, find_info-infos az n m h.1 d.1))

IsUnique-infos : (az : String) (m : Dict NodeInfo) → IsKeyed m → Distinct m → IsUnique (infos az m)
IsUnique-infos az [] h d = unfold infos all_infos infos_in in ground arith
IsUnique-infos az ((k, info) ∷ m) h d = rw infos-cons (
    ground (
      arith,
      h.0,
      find_info-infos az k m h.1 d.1,
      find_info-infos az info.node_name m h.1 d.1,
      IsUnique-infos az m h.1 d.1,
    ))

keep_entry : String → String × NodeInfo → Option NodeInfo
keep_entry az e = keep_zone az (some e.1)

infos-eq-filter_map : (az : String) (m : Dict NodeInfo) → infos az m ≡ filter_map (keep_entry az) m
unfolding filter_map keep_entry
infos-eq-filter_map az [] = unfold infos all_infos infos_in in ground arith
infos-eq-filter_map az ((k, info) ∷ m) = rw infos-cons (ground (arith, infos-eq-filter_map az m))

infos-perm : (az : String) {m n : Dict NodeInfo} → Perm m n → Perm (infos az m) (infos az n)
infos-perm az {m} {n} p =
    rw (infos-eq-filter_map az m, infos-eq-filter_map az n) (Perm.filter_map (keep_entry az) p)

-- In a valid store, a query for a zone finds a name exactly if the map has that name with a node
-- of that zone (any zone, if the query's is empty), and returns what the map holds.
pub find_info-get_nodes_by_az :
    (az n : String) (s : NodeStore)
    → IsValid s
    → find_info n (get_nodes_by_az az s) ≡ keep_zone az (lookup n s.nodes)
unfolding get_nodes_by_az
find_info-get_nodes_by_az az n s v = unfold infos in find_info-infos az n s.nodes v.keyed v.distinct

-- In a valid store no query returns a name twice.
pub IsUnique-get_nodes_by_az :
    (az : String) (s : NodeStore) → IsValid s → IsUnique (get_nodes_by_az az s)
unfolding get_nodes_by_az
IsUnique-get_nodes_by_az az s v = unfold infos in IsUnique-infos az s.nodes v.keyed v.distinct

-- The order in which Go visits a map is of no account: for two valid stores that hold the same
-- node under every name, the results of a query are permutations of one another.
pub get_nodes_by_az-perm :
    (az : String) (s t : NodeStore)
    → IsValid s
    → IsValid t
    → ((k : String) → lookup k s.nodes ≡ lookup k t.nodes)
    → Perm (get_nodes_by_az az s) (get_nodes_by_az az t)
unfolding get_nodes_by_az
get_nodes_by_az-perm az s t v w h =
    unfold infos in infos-perm az (perm-of-lookup s.nodes t.nodes v.distinct w.distinct h)

-- After `add_node n az`, in a valid store, a query for any zone finds under `n` the new node and
-- its zone, if that passes the query's zone, and under any other name what it found before.
pub find_info-add_node :
    (q n az j : String) (s : NodeStore)
    → IsValid s
    → find_info j (get_nodes_by_az q (add_node n az s)) ≡ (
        if n == j
        then keep_zone q (some (record { node_name = n; availability_zone = az }))
        else find_info j (get_nodes_by_az q s))
find_info-add_node q n az j s v =
    rw
      (
        find_info-get_nodes_by_az q j (add_node n az s) (add_node-IsValid n az s v),
        find_info-get_nodes_by_az q j s v,
      )
      (unfold add_node in rw lookup-insert (ground arith))

-- After `remove_node n`, in a valid store, no query finds `n`, and every other name is found as
-- before.
pub find_info-remove_node :
    (q n j : String) (s : NodeStore)
    → IsValid s
    → find_info j (get_nodes_by_az q (remove_node n s))
      ≡ (if n == j then none else find_info j (get_nodes_by_az q s))
find_info-remove_node q n j s v =
    rw
      (
        find_info-get_nodes_by_az q j (remove_node n s) (remove_node-IsValid n s v),
        find_info-get_nodes_by_az q j s v,
      )
      (unfold remove_node in rw lookup-delete (ground arith))
