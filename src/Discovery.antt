-- ===== src/Discovery.antt =====
-- `getEKSClusterVPCId`, `getEKSClusterZones` and `initializeZoneMapping` of app/main.go: how the
-- program finds the zones of its cluster.
pub mod Outcome
pub mod Cache
pub mod Subnets
pub mod Loading
use Prim.Native.String.{◌++◌ as append}
use sample_arc_autoshift_kar.Base.{
  String, Bool, true, false, not, ◌||◌, ◌&&◌, Option, none, some, List, [], ◌∷◌, map, ◌==◌,
  if◌then◌else◌,
}
use sample_arc_autoshift_kar.Zones.{AvailabilityZone, load_zone_mapping, zones_of_subnets}
use sample_arc_autoshift_kar.Pools.Api.{PoolApi}
use sample_arc_autoshift_kar.Update.{Globals, list_installed_crds}
use sample_arc_autoshift_kar.Process.{
  Exit, no_aws_config, no_availability_zones, no_cluster_name, no_cluster_config, no_cluster,
  no_vpc, no_subnets, nil_subnet_id, Result, ok, err, Process, Action, pure, raise, or_raise, ask,
  gets, ◌>>=◌, ◌>>◌, require, set_globals, Environment, or_default,
}

pub record Filter : Type 0 where
  pub name : String
  pub values : List String

-- What the code reads of a subnet; a nil pointer is `none`.
pub record Subnet : Type 0 where
  pub subnet_id : Option String
  pub availability_zone : Option String

pub record VpcConfig : Type 0 where
  pub vpc_id : Option String

pub record Cluster : Type 0 where
  pub resources_vpc_config : Option VpcConfig

-- The AWS SDK. `load_config` takes the region, if the code names one, and tells whether there is a
-- configuration. A request that fails is `none`; `describe_cluster` gives the output's `Cluster`.
pub record AwsApi (S : Type 0) : Type 0 where
  pub load_config : Option String → S → Bool × S
  pub describe_availability_zones : String → S → Option (List AvailabilityZone) × S
  pub describe_cluster : String → String → S → Option (Option Cluster) × S
  pub describe_subnets : String → List Filter → S → Option (List Subnet) × S

-- `*result.Cluster.ResourcesVpcConfig.VpcId`, if no pointer of it is nil.
unfoldable pub vpc_id_of : Option Cluster → Option String
vpc_id_of none = none
vpc_id_of (some cluster) = elim cluster.resources_vpc_config [
  | none ↦ none
  | some config ↦ config.vpc_id
]

abbrev vpc_filter : String → Filter
vpc_filter vpc_id = record { name = "vpc-id"; values = vpc_id ∷ [] }

abbrev pub cluster_tag_filters : String → String → List Filter
cluster_tag_filters cluster_name vpc_id =
    record {
      name = append "tag:kubernetes.io/cluster/" cluster_name;
      values = "owned" ∷ "shared" ∷ [];
    }
    ∷ vpc_filter vpc_id
    ∷ []

abbrev pub eks_tag_filters : String → String → List Filter
eks_tag_filters cluster_name vpc_id =
    record { name = "tag:eks.amazonaws.com/cluster"; values = cluster_name ∷ [] }
    ∷ vpc_filter vpc_id
    ∷ []

abbrev pub karpenter_tag_filters : String → String → List Filter
karpenter_tag_filters cluster_name vpc_id =
    record { name = "tag:karpenter.sh/discovery"; values = cluster_name ∷ [] }
    ∷ vpc_filter vpc_id
    ∷ []

abbrev pub all_subnets_filters : String → List Filter
all_subnets_filters vpc_id =
    vpc_filter vpc_id ∷ record { name = "state"; values = "available" ∷ [] } ∷ []

-- The filters of auto mode, after the answer to the first of them: another tag is tried only where
-- the first finds no subnet, and not where its request fails.
unfoldable pub next_filters : String → String → Option (List Subnet) → List Filter
next_filters cluster_name vpc_id (some []) = eks_tag_filters cluster_name vpc_id
next_filters cluster_name vpc_id _ = cluster_tag_filters cluster_name vpc_id

-- The loop over the subnets logs the id of each that has a zone, and a nil id panics.
unfoldable pub can_log : List Subnet → Bool
can_log [] = true
can_log (subnet ∷ subnets) =
    (elim subnet.availability_zone [
      | none ↦ true
      | some _ ↦ elim subnet.subnet_id [ none ↦ false | some _ ↦ true ]
    ])
    && can_log subnets

abbrev pub availability_zone_of : Subnet → Option String
availability_zone_of subnet = subnet.availability_zone

unfoldable pub is_empty : List Subnet → Bool
is_empty [] = true
is_empty (_ ∷ _) = false

module _ {S : Type 0} (aws : AwsApi S) where
  unfoldable pub get_eks_cluster_vpc_id : String → String → Action S String
  unfolding vpc_id_of
  get_eks_cluster_vpc_id region cluster_name = do
    require (← ask (aws.load_config (some region))) no_aws_config
    cluster ← or_raise (← ask (aws.describe_cluster region cluster_name)) no_cluster
    or_raise (vpc_id_of cluster) no_vpc

  unfoldable pub choose_filters : String → Bool → String → String → Action S (List Filter)
  unfolding next_filters
  choose_filters region true cluster_name vpc_id = do
    tagged ← ask (aws.describe_subnets region (cluster_tag_filters cluster_name vpc_id))
    pure (next_filters cluster_name vpc_id tagged)
  choose_filters region false cluster_name vpc_id = pure (karpenter_tag_filters cluster_name vpc_id)

  -- The requests for the subnets. In auto mode all of the VPC are taken where no tag finds any.
  unfoldable pub find_subnets : String → Bool → String → String → Action S (List Subnet)
  unfolding choose_filters is_empty
  find_subnets region auto cluster_name vpc_id = do
    filters ← choose_filters region auto cluster_name vpc_id
    subnets ← or_raise (← ask (aws.describe_subnets region filters)) no_subnets
    every ←
        if auto && is_empty subnets
        then ask (aws.describe_subnets region (all_subnets_filters vpc_id))
        else pure (some subnets)
    or_raise every no_subnets

  module _ (env : Environment) where
    unfoldable pub get_eks_cluster_zones : String → Bool → Action S (List String)
    unfolding get_eks_cluster_vpc_id find_subnets can_log
    get_eks_cluster_zones region auto = do
      require (← ask (aws.load_config (some region))) no_aws_config
      require (not (env "CLUSTER_NAME" == "")) no_cluster_name
      vpc_id ← get_eks_cluster_vpc_id region (env "CLUSTER_NAME")
      subnets ← find_subnets region auto (env "CLUSTER_NAME") vpc_id
      require (can_log subnets) nil_subnet_id
      pure (zones_of_subnets (map availability_zone_of subnets))

    -- The zone mapping is written before the checks that follow, and stays where one of them fails.
    unfoldable pub initialize_zone_mapping : PoolApi S → Action S Unit
    unfolding get_eks_cluster_zones
    initialize_zone_mapping api = do
      let region = or_default "us-west-2" (env "AWS_REGION")
      require (← ask (aws.load_config (some region))) no_aws_config
      azs ← or_raise (← ask (aws.describe_availability_zones region)) no_availability_zones
      set_globals (λ g. record g { zone_mapping = load_zone_mapping azs g.zone_mapping })
      require (not (env "CLUSTER_NAME" == "")) no_cluster_name
      require api.config_ok no_cluster_config
      auto ← gets (λ p. list_installed_crds api p.world)
      zones ← get_eks_cluster_zones region auto
      set_globals (λ g. record g { cluster_zones = zones })
