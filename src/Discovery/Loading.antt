-- ===== src/Discovery/Loading.antt =====
-- What `initializeZoneMapping` loads into the globals from the answers of AWS.
use sample_arc_autoshift_kar.Base.{
  String, Bool, true, Option, none, some, List, [], ◌∷◌, map, ◌==◌, eq_iff, ◌≡◌, ◌≢◌, refl, ◌∙◌, ap,
  arith, contains, if◌then◌else◌,
}
use sample_arc_autoshift_kar.Base.Dict.{Dict, lookup, lookup-insert}
use sample_arc_autoshift_kar.Pools.Api.{PoolApi}
use sample_arc_autoshift_kar.Update.{Globals, list_installed_crds}
use sample_arc_autoshift_kar.Zones.{AvailabilityZone, map_zone, load_zone_mapping, zones_of_subnets}
use sample_arc_autoshift_kar.Zones.Updated.{has_subnet, zones_of_subnets_lem}
use sample_arc_autoshift_kar.Process.{Process, ok, Environment, or_default}
use sample_arc_autoshift_kar.Discovery.{
  Filter, Subnet, Cluster, AwsApi, vpc_id_of, can_log, availability_zone_of, get_eks_cluster_vpc_id,
  get_eks_cluster_zones, initialize_zone_mapping,
}
use sample_arc_autoshift_kar.Discovery.Subnets.{first_found, searches, find_subnets-first_found}

-- The name of the last zone of the list that has this id and a name, or else `earlier`.
unfoldable pub last_named : String → List AvailabilityZone → Option String → Option String
last_named id [] earlier = earlier
last_named id (az ∷ azs) earlier = last_named id azs (elim az.zone_id [
  | none ↦ earlier
  | some zone_id ↦
      if zone_id == id
      then (elim az.zone_name [ none ↦ earlier | some zone_name ↦ some zone_name ])
      else earlier
])

lookup-map_zone :
    (id : String) (zone_id zone_name : Option String) (m : Dict String)
    → lookup id (map_zone zone_id zone_name m) ≡ (elim zone_id [
      | none ↦ lookup id m
      | some i ↦
          if i == id
          then (elim zone_name [ none ↦ lookup id m | some name ↦ some name ])
          else lookup id m
    ])
unfolding map_zone
lookup-map_zone id none name m = refl
lookup-map_zone id (some i) none m = ground arith
lookup-map_zone id (some i) (some name) m = ground (arith, lookup-insert i id name m)

lookup-load_zone_mapping :
    (id : String) (azs : List AvailabilityZone) (m : Dict String)
    → lookup id (load_zone_mapping azs m) ≡ last_named id azs (lookup id m)
unfolding load_zone_mapping last_named
lookup-load_zone_mapping id [] m = refl
lookup-load_zone_mapping id (az ∷ azs) m =
    lookup-load_zone_mapping id azs (map_zone az.zone_id az.zone_name m)
    ∙ ap (last_named id azs) (lookup-map_zone id az.zone_id az.zone_name m)

-- AWS answers every request, alike each time and without a change to the world that it is asked in:
-- the zones of the region, the cluster with its VPC, and the subnets for some filters, which have ids
-- where they have zones.
pub record IsAnswering {S : Type 0} (aws : AwsApi S) (azs : List AvailabilityZone) (vpc_id : String)
    (answer : List Filter → List Subnet) : Type 0 where
  pub configured : (region : Option String) (s : S) → aws.load_config region s ≡ (true, s)
  pub zones : (region : String) (s : S) → aws.describe_availability_zones region s ≡ (some azs, s)
  pub cluster : Option Cluster
  pub has_vpc : vpc_id_of cluster ≡ some vpc_id
  pub clusters :
      (region name : String) (s : S) → aws.describe_cluster region name s ≡ (some cluster, s)
  pub subnets :
      (region : String) (filters : List Filter) (s : S)
      → aws.describe_subnets region filters s ≡ (some (answer filters), s)
  pub logs : (filters : List Filter) → can_log (answer filters) ≡ true

can_log-first_found :
    (answer : List Filter → List Subnet) (others : List (List Filter))
    → ((filters : List Filter) → can_log (answer filters) ≡ true)
    → can_log (first_found answer others) ≡ true
unfolding can_log
can_log-first_found answer [] logs = refl
can_log-first_found answer (filters ∷ others) logs =
    go (answer filters) (logs filters) (can_log-first_found answer others logs)
  where
    go :
        (found : List Subnet)
        → can_log found ≡ true
        → can_log (first_found answer others) ≡ true
        → can_log
            (elim found [ [] ↦ first_found answer others | subnet ∷ subnets ↦ subnet ∷ subnets ])
          ≡ true
    go [] h later = later
    go (subnet ∷ subnets) h later = h

module _ {S : Type 0} {aws : AwsApi S} {azs : List AvailabilityZone} {vpc_id : String}
    {answer : List Filter → List Subnet} (answers : IsAnswering aws azs vpc_id answer)
    (env : Environment) (named : env "CLUSTER_NAME" ≢ "") where
  vpc_id_found :
      (region : String) (p : Process S)
      → get_eks_cluster_vpc_id aws region (env "CLUSTER_NAME") p ≡ (ok vpc_id, p)
  unfolding get_eks_cluster_vpc_id
  vpc_id_found region p = ground (
    arith,
    answers.configured (some region) p.world,
    answers.clusters region (env "CLUSTER_NAME") p.world,
    answers.has_vpc,
  )

  abbrev pub subnets_found : Bool → List Subnet
  subnets_found auto = first_found answer (searches auto (env "CLUSTER_NAME") vpc_id)

  zones_found :
      (region : String) (auto : Bool) (p : Process S)
      → get_eks_cluster_zones aws env region auto p
        ≡ (ok (zones_of_subnets (map availability_zone_of (subnets_found auto))), p)
  unfolding get_eks_cluster_zones
  zones_found region auto p = ground (
    arith,
    named,
    eq_iff (env "CLUSTER_NAME") "",
    answers.configured (some region) p.world,
    vpc_id_found region p,
    find_subnets-first_found aws region (env "CLUSTER_NAME") vpc_id answer (answers.subnets region)
        auto p,
    can_log-first_found answer (searches auto (env "CLUSTER_NAME") vpc_id) answers.logs,
  )

  module _ (api : PoolApi S) (connected : api.config_ok ≡ true) (start : Process S) where
    abbrev loaded : Globals
    loaded = record start.globals {
      zone_mapping = load_zone_mapping azs start.globals.zone_mapping;
      cluster_zones =
          zones_of_subnets
            (map availability_zone_of (subnets_found (list_installed_crds api start.world)));
    }

    initialize_zone_mapping-loaded :
        initialize_zone_mapping aws env api start
        ≡ (ok tt, record { globals = loaded; world = start.world })
    unfolding initialize_zone_mapping
    initialize_zone_mapping-loaded =
        let region = or_default "us-west-2" (env "AWS_REGION") in
        let mapped : Process S = record {
          globals = record start.globals {
            zone_mapping = load_zone_mapping azs start.globals.zone_mapping;
          };
          world = start.world;
        } in
        ground (
          arith,
          named,
          connected,
          eq_iff (env "CLUSTER_NAME") "",
          answers.configured (some region) start.world,
          answers.zones region start.world,
          zones_found region (list_installed_crds api start.world) mapped,
        )

    -- Where AWS and the cluster answer, and `CLUSTER_NAME` is set, loading the zones succeeds: a zone
    -- id has the name that the last zone with this id and a name has, or else the one that it had
    -- before; the zones of the cluster are those of the subnets that are found, by the tags of the
    -- mode that the cluster is in; and the do-not-disrupt flag and the node store are as they were.
    -- AWS answers alike each time, and every subnet with a zone has an id.
    pub initialize_zone_mapping-loads :
        ((initialize_zone_mapping aws env api start).0 ≡ ok tt)
        × ((id : String)
            → lookup id (initialize_zone_mapping aws env api start).1.globals.zone_mapping
              ≡ last_named id azs (lookup id start.globals.zone_mapping))
        × ((z : String)
            → contains z (initialize_zone_mapping aws env api start).1.globals.cluster_zones
              ≡ has_subnet z
                  (map availability_zone_of (subnets_found (list_installed_crds api start.world))))
        × ((initialize_zone_mapping aws env api start).1.globals.do_not_disrupt_enabled
            ≡ start.globals.do_not_disrupt_enabled)
        × ((initialize_zone_mapping aws env api start).1.globals.node_store
            ≡ start.globals.node_store)
    initialize_zone_mapping-loads = rw initialize_zone_mapping-loaded (
      refl,
      λ id. lookup-load_zone_mapping id azs start.globals.zone_mapping,
      (zones_of_subnets_lem
          (map availability_zone_of (subnets_found (list_installed_crds api start.world)))).0,
      refl,
      refl,
    )
