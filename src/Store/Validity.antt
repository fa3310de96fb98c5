-- ===== src/Store/Validity.antt =====
-- The invariant of the node store: the key of an entry is the name of its node, and no name is
-- tracked twice.
use sample_arc_autoshift_kar.Base.{String, [], ◌∷◌, ◌≡◌, refl, arith, All}
use sample_arc_autoshift_kar.Base.Dict.{
  Dict, Distinct, insert, delete, insert-Distinct, delete-Distinct,
}
use sample_arc_autoshift_kar.Store.{NodeInfo, NodeStore, new_node_store, add_node, remove_node}

abbrev pub IsKeyed : Dict NodeInfo → Type 0
IsKeyed = All (λ e. e.1.node_name ≡ e.0)

pub record IsValid (s : NodeStore) : Type 0 where
  pub distinct : Distinct s.nodes
  pub keyed : IsKeyed s.nodes

insert-IsKeyed :
    (k : String) (info : NodeInfo) (m : Dict NodeInfo)
    → info.node_name ≡ k
    → IsKeyed m
    → IsKeyed (insert k info m)
unfolding insert
insert-IsKeyed k info [] e h = (e, tt)
insert-IsKeyed k info ((j, w) ∷ m) e h = ground (arith, insert-IsKeyed k info m e h.1)

delete-IsKeyed : (k : String) (m : Dict NodeInfo) → IsKeyed m → IsKeyed (delete k m)
unfolding delete
delete-IsKeyed k [] h = tt
delete-IsKeyed k ((j, w) ∷ m) h = ground (arith, delete-IsKeyed k m h.1)

pub IsValid-new_node_store : IsValid new_node_store
unfolding new_node_store
IsValid-new_node_store = record { distinct = tt; keyed = tt }

pub add_node-IsValid : (n az : String) (s : NodeStore) → IsValid s → IsValid (add_node n az s)
unfolding add_node
add_node-IsValid n az s v = record {
  distinct = insert-Distinct n _ s.nodes v.distinct;
  keyed = insert-IsKeyed n _ s.nodes refl v.keyed;
}

pub remove_node-IsValid : (n : String) (s : NodeStore) → IsValid s → IsValid (remove_node n s)
unfolding remove_node
remove_node-IsValid n s v = record {
  distinct = delete-Distinct n s.nodes v.distinct;
  keyed = delete-IsKeyed n s.nodes v.keyed;
}
