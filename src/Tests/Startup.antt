-- ===== src/Tests/Startup.antt =====
-- The start of the program in an environment that is set up.
use sample_arc_autoshift_kar.Base.{
  String, Bool, true, false, Option, none, some, List, [], ◌∷◌, ◌≡◌, refl, inl, arith, ◌==◌, eq_iff,
  ◌≢◌, map, contains, if◌then◌else◌,
}
use sample_arc_autoshift_kar.Base.Dict.{lookup}
use sample_arc_autoshift_kar.Zones.Updated.{has_subnet}
use sample_arc_autoshift_kar.Update.{list_installed_crds}
use sample_arc_autoshift_kar.Zones.{AvailabilityZone}
use sample_arc_autoshift_kar.Process.{ok, Process, Environment}
use sample_arc_autoshift_kar.Discovery.{
  Filter, Subnet, can_log, vpc_id_of, availability_zone_of, AwsApi, find_subnets,
  initialize_zone_mapping,
}
use sample_arc_autoshift_kar.Discovery.Loading.{
  IsAnswering, last_named, initialize_zone_mapping-loads,
}
use sample_arc_autoshift_kar.Discovery.Subnets.{first_found, searches, find_subnets-first_found}
use sample_arc_autoshift_kar.Startup.{asks_health, Candidate, Host, no_globals, prepare}
use sample_arc_autoshift_kar.Startup.Ready.{IsPrepared, RefusesHealth, prepare-IsPrepared}
use sample_arc_autoshift_kar.Startup.Serving.{IsServing}
use sample_arc_autoshift_kar.Startup.Elected.{IsDeployed, prepare-eq-ok}
use sample_arc_autoshift_kar.Tests.World.{World, world_pools}
use sample_arc_autoshift_kar.Tests.Data.{world}

abbrev zones_of_region : List AvailabilityZone
zones_of_region =
    record { zone_id = some "use1-az1"; zone_name = some "us-east-1a" }
    ∷ record { zone_id = some "use1-az2"; zone_name = none }
    ∷ []

abbrev a_subnet : Subnet
a_subnet = record { subnet_id = some "subnet-1"; availability_zone = some "us-east-1a" }

-- No subnet has a tag, so that a tag's filters, which have a `tag:` name first, find none.
abbrev subnets_for : List Filter → List Subnet
subnets_for [] = []
subnets_for (filter ∷ filters) = if filter.name == "vpc-id" then a_subnet ∷ [] else []

abbrev pub world_aws : AwsApi World
world_aws = record {
  load_config = λ region w. (true, w);
  describe_availability_zones = λ region w. (some zones_of_region, w);
  describe_cluster = λ region name w.
      (some (some (record { resources_vpc_config = some (record { vpc_id = some "vpc-1" }) })), w);
  describe_subnets = λ region filters w. (some (subnets_for filters), w);
}

abbrev pub env : Environment
env k =
    if k == "CLUSTER_NAME"
    then "prod"
    else if k == "SQS_QUEUE_URL"
    then "https://sqs/queue"
    else if k == "POD_NAME"
    then "pod-1"
    else ""

-- Refuses `-health`, and takes any other first argument for `-enable-do-not-disrupt`.
abbrev parse_flags : List String → Option Bool
parse_flags [] = some false
parse_flags (program ∷ []) = some false
parse_flags (program ∷ argument ∷ rest) = if argument == "-health" then none else some true

abbrev pub host : Host
host = record { parse_flags = parse_flags; hostname = none; dynamic_ok = true }

refuses_health : RefusesHealth world_aws world_pools host env
refuses_health undeclared program rest = refl

abbrev begun : Process World
begun = record { globals = no_globals; world = world }

find_subnets-first_found_example :
    find_subnets world_aws "us-west-2" true "prod" "vpc-1" begun
    ≡ (ok (first_found subnets_for (searches true "prod" "vpc-1")), begun)
find_subnets-first_found_example =
    find_subnets-first_found world_aws "us-west-2" "prod" "vpc-1" subnets_for (λ filters w. refl)
      true begun

subnets_log : (filters : List Filter) → can_log (subnets_for filters) ≡ true
unfolding can_log
subnets_log [] = refl
subnets_log (filter ∷ filters) = ground arith

vpc_found :
    vpc_id_of (some (record { resources_vpc_config = some (record { vpc_id = some "vpc-1" }) }))
    ≡ some "vpc-1"
unfolding vpc_id_of
vpc_found = refl

world_aws-IsAnswering : IsAnswering world_aws zones_of_region "vpc-1" subnets_for
world_aws-IsAnswering = record {
  configured = λ region w. refl;
  zones = λ region w. refl;
  cluster = some (record { resources_vpc_config = some (record { vpc_id = some "vpc-1" }) });
  has_vpc = vpc_found;
  clusters = λ region name w. refl;
  subnets = λ region filters w. refl;
  logs = subnets_log;
}

cluster_named : ◌≢◌ {A = String} (env "CLUSTER_NAME") ""
cluster_named = ground (arith, eq_iff "prod" "")

initialize_zone_mapping-loads_example :
    ((initialize_zone_mapping world_aws env world_pools begun).0 ≡ ok tt)
    × ((id : String)
        → lookup id (initialize_zone_mapping world_aws env world_pools begun).1.globals.zone_mapping
          ≡ last_named id zones_of_region none)
    × ((z : String)
        → contains z
            (initialize_zone_mapping world_aws env world_pools begun).1.globals.cluster_zones
          ≡ has_subnet z (
              map availability_zone_of (
                first_found subnets_for
                  (searches (list_installed_crds world_pools world) "prod" "vpc-1"))))
    × ((initialize_zone_mapping world_aws env world_pools begun).1.globals.do_not_disrupt_enabled
        ≡ false)
    × ((initialize_zone_mapping world_aws env world_pools begun).1.globals.node_store ≡ none)
unfolding lookup
initialize_zone_mapping-loads_example =
    initialize_zone_mapping-loads world_aws-IsAnswering env cluster_named world_pools refl begun

prepare-IsPrepared_example :
    IsPrepared
      (some true)
      (prepare world_aws world_pools host env ("app" ∷ "-enable-do-not-disrupt" ∷ []) begun)
prepare-IsPrepared_example =
    prepare-IsPrepared world_aws world_pools host env refuses_health
      ("app" ∷ "-enable-do-not-disrupt" ∷ []) world

world_aws-IsServing : IsServing world_aws
world_aws-IsServing = record {
  configured = λ region w. refl;
  zones = λ region w. (zones_of_region, refl);
  cluster = λ region name w. ("vpc-1", refl);
  subnets = λ region filters w. (subnets_for filters, refl, subnets_log filters);
}

host-IsDeployed : IsDeployed world_pools host env
host-IsDeployed = record {
  cluster_name = ground (arith, eq_iff "prod" "");
  queue_url = ground (arith, eq_iff "https://sqs/queue" "");
  pod_name = inl (ground (arith, eq_iff "pod-1" ""));
  configured = refl;
  connected = refl;
  dynamic = refl;
}

no_health_check : asks_health ("app" ∷ "-enable-do-not-disrupt" ∷ []) ≡ false
unfolding asks_health
no_health_check = refl

prepare-eq-ok_example :
    (c : Candidate) × ((prepare world_aws world_pools host env
        ("app" ∷ "-enable-do-not-disrupt" ∷ [])
        begun).0
      ≡ ok c)
    × (c.queue_url ≡ "https://sqs/queue")
prepare-eq-ok_example =
    prepare-eq-ok world_aws-IsServing host-IsDeployed ("app" ∷ "-enable-do-not-disrupt" ∷ []) true
      begun refl no_health_check
