-- ===== src/Store.antt =====
-- app/pkg/models/node.go: the nodes that the controller tracks, by name.
pub mod Validity
pub mod Queries
pub mod Abstract
use sample_arc_autoshift_kar.Base.{String, List, [], ◌∷◌, ◌==◌, if◌then◌else◌}
use sample_arc_autoshift_kar.Base.Dict.{Dict, insert, delete}

pub record NodeInfo : Type 0 where
  pub node_name : String
  pub availability_zone : String

-- The mutex is left out: every method holds it from its first line to its return, so that the
-- methods of concurrent callers follow one another.
pub record NodeStore : Type 0 where
  pub nodes : Dict NodeInfo

unfoldable pub new_node_store : NodeStore
new_node_store = record { nodes = [] }

unfoldable pub add_node : String → String → NodeStore → NodeStore
add_node node_name az s = record {
  nodes = insert node_name (record { node_name = node_name; availability_zone = az }) s.nodes;
}

unfoldable pub remove_node : String → NodeStore → NodeStore
remove_node node_name s = record { nodes = delete node_name s.nodes }

-- `for _, info := range s.nodes { result = append(result, info) }`
unfoldable pub all_infos : Dict NodeInfo → List NodeInfo
all_infos [] = []
all_infos ((_, info) ∷ m) = info ∷ all_infos m

-- The loop that filters by zone.
unfoldable pub infos_in : String → Dict NodeInfo → List NodeInfo
infos_in az [] = []
infos_in az ((_, info) ∷ m) =
    if info.availability_zone == az then info ∷ infos_in az m else infos_in az m

unfoldable pub get_nodes_by_az : String → NodeStore → List NodeInfo
unfolding all_infos infos_in
get_nodes_by_az az s = if az == "" then all_infos s.nodes else infos_in az s.nodes

unfoldable pub get_all_nodes : NodeStore → List NodeInfo
unfolding get_nodes_by_az
get_all_nodes s = get_nodes_by_az "" s
