-- ===== src/Tests/Store.antt =====
-- The store, its queries, the claims and the zones at concrete inputs.
use sample_arc_autoshift_kar.Base.{
  String, true, none, some, List, [], ◌∷◌, ◌≡◌, ◌≢◌, refl, arith, eq_iff, contains,
}
use sample_arc_autoshift_kar.Base.Dict.{lookup}
use sample_arc_autoshift_kar.Store.{get_nodes_by_az}
use sample_arc_autoshift_kar.Store.Validity.{IsValid}
use sample_arc_autoshift_kar.Store.Queries.{find_info, IsUnique}
use sample_arc_autoshift_kar.Store.{new_node_store}
use sample_arc_autoshift_kar.Store.Abstract.{
  Operation, add, remove, run_operations, nothing_tracked, track, shown,
  get_nodes_by_az-run_operations,
}
use sample_arc_autoshift_kar.Event.{away_from}
use sample_arc_autoshift_kar.Tests.Data.{
  info_a, info_b, tracked, started_a, started_unknown, globals,
}

pub tracked-IsValid : IsValid tracked
unfolding lookup
tracked-IsValid = record { distinct = (refl, (refl, tt)); keyed = (refl, (refl, tt)) }

abbrev pub zone_names : List String
zone_names = "us-east-1a" ∷ "us-east-1b" ∷ []

query_a : get_nodes_by_az "us-east-1a" tracked ≡ info_a ∷ []
unfolding get_nodes_by_az
query_a = refl

query_all : get_nodes_by_az "" tracked ≡ info_a ∷ info_b ∷ []
unfolding get_nodes_by_az
query_all = refl

pub mapped_a : lookup (away_from started_a) globals.zone_mapping ≡ some "us-east-1a"
unfolding lookup away_from
mapped_a = refl

pub named_a : ◌≢◌ {A = String} "us-east-1a" ""
named_a = ground (arith, eq_iff "us-east-1a" "")

pub other_there : contains "us-east-1b" zone_names ≡ true
unfolding contains
other_there = refl

pub others_differ : ◌≢◌ {A = String} "us-east-1b" "us-east-1a"
others_differ = ground (arith, eq_iff "us-east-1b" "us-east-1a")

pub unmapped : lookup (away_from started_unknown) globals.zone_mapping ≡ none
unfolding lookup away_from
unmapped = refl

pub zones_exist : zone_names ≢ []
zones_exist = ground arith

-- A node that moves, and one that goes.
abbrev operations : List Operation
operations =
    add "node-a" "us-east-1a"
    ∷ add "node-b" "us-east-1b"
    ∷ add "node-a" "us-east-1b"
    ∷ remove "node-b"
    ∷ []

get_nodes_by_az-run_operations_example :
    IsUnique (get_nodes_by_az "us-east-1b" (run_operations operations new_node_store))
    × ((k : String)
        → find_info k (get_nodes_by_az "us-east-1b" (run_operations operations new_node_store))
          ≡ shown "us-east-1b" k (track operations nothing_tracked k))
get_nodes_by_az-run_operations_example = get_nodes_by_az-run_operations operations "us-east-1b"

moved : track operations nothing_tracked "node-a" ≡ some "us-east-1b"
unfolding track
moved = refl
