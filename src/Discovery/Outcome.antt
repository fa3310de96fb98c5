-- ===== src/Discovery/Outcome.antt =====
-- How the discovery of the zones ends, and what it leaves in the globals.
use sample_arc_autoshift_kar.Base.{
  String, Bool, not, some, List, map, ◌==◌, ◌≡◌, ◌≢◌, refl, ◌∙◌, arith,
}
use sample_arc_autoshift_kar.Zones.{zones_of_subnets}
use sample_arc_autoshift_kar.Zones.Updated.{IsOnce, zones_of_subnets_lem}
use sample_arc_autoshift_kar.Process.{
  Exit, healthy, nil_subnet_id, no_cluster_name, no_aws_config, Process, Action, pure, ◌>>=◌, ◌>>◌,
  require, Environment,
}
use sample_arc_autoshift_kar.Process.Logic.{Ends, bind-Ends, require-Ends}
use sample_arc_autoshift_kar.Discovery.{
  Subnet, availability_zone_of, can_log, AwsApi, get_eks_cluster_vpc_id, choose_filters,
  find_subnets, get_eks_cluster_zones,
}

abbrev pub SameGlobals : {S : Type 0} → Process S → Process S → Type 0
SameGlobals p q = q.globals ≡ p.globals

abbrev pub IsFailure : {S : Type 0} → Exit → Process S → Type 0
IsFailure e p = e ≢ healthy

module _ {S : Type 0} (aws : AwsApi S) where
  get_eks_cluster_vpc_id-Ends :
      (region cluster_name : String) (p : Process S)
      → Ends SameGlobals IsFailure
          (λ _ _. Unit)
          p
          (get_eks_cluster_vpc_id aws region cluster_name p)
  unfolding get_eks_cluster_vpc_id
  get_eks_cluster_vpc_id-Ends region cluster_name p = ground arith

  choose_filters-Ends :
      (region : String) (auto : Bool) (cluster_name vpc_id : String) (p : Process S)
      → Ends SameGlobals IsFailure
          (λ _ _. Unit)
          p
          (choose_filters aws region auto cluster_name vpc_id p)
  unfolding choose_filters
  choose_filters-Ends region auto cluster_name vpc_id p = ground arith

  find_subnets-Ends :
      (region : String) (auto : Bool) (cluster_name vpc_id : String) (p : Process S)
      → Ends SameGlobals IsFailure
          (λ _ _. Unit)
          p
          (find_subnets aws region auto cluster_name vpc_id p)
  unfolding find_subnets choose_filters
  find_subnets-Ends region auto cluster_name vpc_id p = ground arith

  module _ (env : Environment) where
    trans_globals : (p q r : Process S) → SameGlobals p q → SameGlobals q r → SameGlobals p r
    trans_globals p q r h k = k ∙ h

    abbrev pub zones_found : List Subnet → Action S (List String)
    zones_found subnets = do
      require (can_log subnets) nil_subnet_id
      pure (zones_of_subnets (map availability_zone_of subnets))

    zones_found-Ends :
        (subnets : List Subnet) (p : Process S)
        → Ends SameGlobals IsFailure (λ zones _. IsOnce zones) p (zones_found subnets p)
    zones_found-Ends subnets p =
        let zones = zones_of_subnets (map availability_zone_of subnets) in
        require-Ends SameGlobals IsFailure (λ q. refl) (λ zones _. IsOnce zones) p (can_log subnets)
          nil_subnet_id (pure zones) (λ e. cc)
          (refl, (zones_of_subnets_lem (map availability_zone_of subnets)).1)

    abbrev pub zones_in : String → Bool → String → Action S (List String)
    zones_in region auto vpc_id = do
      subnets ← find_subnets aws region auto (env "CLUSTER_NAME") vpc_id
      zones_found subnets

    abbrev pub zones_named : String → Bool → Action S (List String)
    zones_named region auto = do
      vpc_id ← get_eks_cluster_vpc_id aws region (env "CLUSTER_NAME")
      zones_in region auto vpc_id

    zones_in-Ends :
        (region : String) (auto : Bool) (vpc_id : String) (p : Process S)
        → Ends SameGlobals IsFailure (λ zones _. IsOnce zones) p (zones_in region auto vpc_id p)
    zones_in-Ends region auto vpc_id p =
        bind-Ends SameGlobals IsFailure trans_globals (λ _ _. Unit) (λ zones _. IsOnce zones) p
          (find_subnets aws region auto (env "CLUSTER_NAME") vpc_id) zones_found
          (find_subnets-Ends region auto (env "CLUSTER_NAME") vpc_id p)
          (λ subnets q _. zones_found-Ends subnets q)

    zones_named-Ends :
        (region : String) (auto : Bool) (p : Process S)
        → Ends SameGlobals IsFailure (λ zones _. IsOnce zones) p (zones_named region auto p)
    zones_named-Ends region auto p =
        bind-Ends SameGlobals IsFailure trans_globals (λ _ _. Unit) (λ zones _. IsOnce zones) p
          (get_eks_cluster_vpc_id aws region (env "CLUSTER_NAME")) (zones_in region auto)
          (get_eks_cluster_vpc_id-Ends region (env "CLUSTER_NAME") p)
          (λ vpc_id q _. zones_in-Ends region auto vpc_id q)

    pub get_eks_cluster_zones-Ends :
        (region : String) (auto : Bool) (p : Process S)
        → Ends SameGlobals IsFailure
            (λ zones _. IsOnce zones)
            p
            (get_eks_cluster_zones aws env region auto p)
    unfolding get_eks_cluster_zones
    get_eks_cluster_zones-Ends region auto p =
        let (configured, world) = aws.load_config (some region) p.world in
        let q : Process S = record { globals = p.globals; world = world } in
        let rest = zones_named-Ends region auto q in
        let named =
          require-Ends SameGlobals IsFailure (λ q. refl) (λ zones _. IsOnce zones) q
            (not (env "CLUSTER_NAME" == "")) no_cluster_name (zones_named region auto) (λ e. cc)
            rest in
        require-Ends SameGlobals IsFailure (λ q. refl) (λ zones _. IsOnce zones) q configured
          no_aws_config
          (require (not (env "CLUSTER_NAME" == "")) no_cluster_name >> zones_named region auto)
          (λ e. cc) named
