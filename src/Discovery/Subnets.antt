-- ===== src/Discovery/Subnets.antt =====
-- Which subnets the requests of `getEKSClusterZones` find.
use sample_arc_autoshift_kar.Base.{String, Bool, true, false, some, List, [], ◌∷◌, ◌≡◌, arith}
use sample_arc_autoshift_kar.Process.{ok, Process}
use sample_arc_autoshift_kar.Discovery.{
  Filter, Subnet, AwsApi, cluster_tag_filters, eks_tag_filters, karpenter_tag_filters,
  all_subnets_filters, find_subnets,
}

-- The subnets that the first of some searches to find any finds.
abbrev pub first_found : (List Filter → List Subnet) → List (List Filter) → List Subnet
first_found answer [] = []
first_found answer (filters ∷ others) = elim (answer filters) [
  | [] ↦ first_found answer others
  | subnet ∷ subnets ↦ subnet ∷ subnets
]

-- The searches of a mode, in order.
abbrev pub searches : Bool → String → String → List (List Filter)
searches true cluster_name vpc_id =
    cluster_tag_filters cluster_name vpc_id
    ∷ eks_tag_filters cluster_name vpc_id
    ∷ all_subnets_filters vpc_id
    ∷ []
searches false cluster_name vpc_id = karpenter_tag_filters cluster_name vpc_id ∷ []

module _ {S : Type 0} (aws : AwsApi S) (region : String) (cluster_name vpc_id : String) where
  -- Where every request for subnets is answered, and alike each time, the program finds those of the
  -- first search that finds any: in auto mode by the tag of the cluster, by that of EKS, and then all
  -- that are available in the VPC; in standard mode by the tag of Karpenter alone.
  pub find_subnets-first_found :
      (answer : List Filter → List Subnet)
      → ((filters : List Filter) (s : S)
          → aws.describe_subnets region filters s ≡ (some (answer filters), s))
      → (auto : Bool) (p : Process S)
      → find_subnets aws region auto cluster_name vpc_id p
        ≡ (ok (first_found answer (searches auto cluster_name vpc_id)), p)
  unfolding find_subnets
  find_subnets-first_found answer answers true p = ground (
    arith,
    answers (cluster_tag_filters cluster_name vpc_id) p.world,
    answers (eks_tag_filters cluster_name vpc_id) p.world,
    answers (all_subnets_filters vpc_id) p.world,
  )
  find_subnets-first_found answer answers false p =
      ground (arith, answers (karpenter_tag_filters cluster_name vpc_id) p.world)
