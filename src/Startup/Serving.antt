-- ===== src/Startup/Serving.antt =====
-- The program reaches its leader election where all that it needs is there.
use sample_arc_autoshift_kar.Base.{
  String, Bool, true, false, not, Option, none, some, List, ◌==◌, eq_iff, ◌≡◌, ◌≢◌, arith,
}
use sample_arc_autoshift_kar.Zones.{AvailabilityZone, load_zone_mapping}
use sample_arc_autoshift_kar.Pools.Api.{PoolApi}
use sample_arc_autoshift_kar.Update.{list_installed_crds}
use sample_arc_autoshift_kar.Process.{
  Exit, Result, ok, err, Process, Action, or_raise, ◌>>=◌, ◌>>◌, require, set_globals, Environment,
  no_aws_config, no_cluster_name, no_availability_zones, no_cluster_config,
}
use sample_arc_autoshift_kar.Discovery.{
  Filter, Subnet, AwsApi, cluster_tag_filters, karpenter_tag_filters, all_subnets_filters,
  next_filters, can_log, get_eks_cluster_vpc_id, find_subnets, get_eks_cluster_zones,
  initialize_zone_mapping,
}
use sample_arc_autoshift_kar.Discovery.Outcome.{zones_found, zones_in, zones_named}
use sample_arc_autoshift_kar.Discovery.Cache.{
  region, in_cluster, with_config, after_mapping, map_zones, with_zones,
}

-- Requests to AWS are answered, the cluster has a VPC, and subnets have ids.
pub record IsServing {S : Type 0} (aws : AwsApi S) : Type 0 where
  pub configured : (region : Option String) (s : S) → (aws.load_config region s).0 ≡ true
  pub zones :
      (region : String) (s : S)
      → (azs : List AvailabilityZone) × ((aws.describe_availability_zones region s).0 ≡ some azs)
  pub cluster :
      (region cluster_name : String) (s : S)
      → (vpc_id : String) × ((aws.describe_cluster region cluster_name s).0
          ≡ some (some (record { resources_vpc_config = some (record { vpc_id = some vpc_id }) })))
  pub subnets :
      (region : String) (filters : List Filter) (s : S)
      → (found : List Subnet) × ((aws.describe_subnets region filters s).0 ≡ some found)
        × (can_log found ≡ true)

-- The action gives a result, of which `Q` holds.
abbrev pub Gives : {S A : Type 0} → (A → Type 0) → Result A × Process S → Type 0
Gives Q (ok a, p) = Q a
Gives Q (err e, p) = ⊥

module _ {S : Type 0} {aws : AwsApi S} (serving : IsServing aws) where
  get_eks_cluster_vpc_id-Gives :
      (region cluster_name : String) (p : Process S)
      → Gives (λ _. Unit {0}) (get_eks_cluster_vpc_id aws region cluster_name p)
  unfolding get_eks_cluster_vpc_id
  get_eks_cluster_vpc_id-Gives region cluster_name p =
      let (configured, world) = aws.load_config (some region) p.world in
      let (vpc_id, e) = serving.cluster region cluster_name world in
      ground (arith, serving.configured (some region) p.world, e)

  find_subnets-Gives :
      (region : String) (auto : Bool) (cluster_name vpc_id : String) (p : Process S)
      → Gives (λ found. can_log found ≡ true) (find_subnets aws region auto cluster_name vpc_id p)
  unfolding find_subnets
  find_subnets-Gives region true cluster_name vpc_id p =
      let (tagged, w₁) =
        aws.describe_subnets region (cluster_tag_filters cluster_name vpc_id) p.world in
      let filters = next_filters cluster_name vpc_id tagged in
      let (found, e, logs) = serving.subnets region filters w₁ in
      let w₂ = (aws.describe_subnets region filters w₁).1 in
      let (every, e', logs') = serving.subnets region (all_subnets_filters vpc_id) w₂ in
      ground (arith, e, logs, e', logs')
  find_subnets-Gives region false cluster_name vpc_id p =
      let (found, e, logs) =
        serving.subnets region (karpenter_tag_filters cluster_name vpc_id) p.world in
      ground (arith, e, logs)

module _ {S A : Type 0} (Q : A → Type 0) where
  of_result-Gives :
      {B : Type 0} (P : B → Type 0) (x : Result B × Process S) (f : B → Action S A)
      → Gives P x
      → ((b : B) (q : Process S) → P b → Gives Q (f b q))
      → Gives {S = S} Q (elim x.0 [ ok b ↦ f b x.1 | err e ↦ (err e, x.1) ])
  of_result-Gives P (ok b, q) f gives next = next b q gives
  of_result-Gives P (err e, q) f gives next = absurd gives

  pub bind-Gives :
      {B : Type 0} (P : B → Type 0) (m : Action S B) (f : B → Action S A) (p : Process S)
      → Gives P (m p)
      → ((b : B) (q : Process S) → P b → Gives Q (f b q))
      → Gives Q ((m >>= f) p)
  bind-Gives P m f p gives next = of_result-Gives P (m p) f gives next

  pub require-Gives :
      (c : Bool) (e : Exit) (m : Action S A) (p : Process S)
      → c ≡ true
      → Gives Q (m p)
      → Gives Q ((require c e >> m) p)
  require-Gives true e m p holds gives = gives
  require-Gives false e m p holds gives = cc

module _ {S A B : Type 0} (Q : A → Type 0) where
  pub or_raise-Gives :
      (o : Option B) (b : B) (e : Exit) (f : B → Action S A) (p : Process S)
      → o ≡ some b
      → Gives Q (f b p)
      → Gives Q ((or_raise o e >>= f) p)
  or_raise-Gives none b e f p here gives = cc
  or_raise-Gives (some c) b e f p here gives = let same : c ≡ b = cc in rw same gives

abbrev pub Anything : {A : Type 0} → A → Type 0
Anything a = Unit {0}

module _ {S : Type 0} {aws : AwsApi S} (serving : IsServing aws) (env : Environment)
    (named : env "CLUSTER_NAME" ≢ "") where
  has_name : not (env "CLUSTER_NAME" == "") ≡ true
  has_name = ground (arith, named, eq_iff (env "CLUSTER_NAME") "")

  get_eks_cluster_zones-Gives :
      (region : String) (auto : Bool) (p : Process S)
      → Gives Anything (get_eks_cluster_zones aws env region auto p)
  unfolding get_eks_cluster_zones
  get_eks_cluster_zones-Gives region auto p =
      let (configured, world) = aws.load_config (some region) p.world in
      let q : Process S = record { globals = p.globals; world = world } in
      let zones =
        bind-Gives Anything Anything (get_eks_cluster_vpc_id aws region (env "CLUSTER_NAME"))
          (zones_in aws env region auto) q
          (get_eks_cluster_vpc_id-Gives serving region (env "CLUSTER_NAME") q)
          (λ vpc_id r _.
            bind-Gives Anything (λ found. can_log found ≡ true)
              (find_subnets aws region auto (env "CLUSTER_NAME") vpc_id) (zones_found aws env) r
              (find_subnets-Gives serving region auto (env "CLUSTER_NAME") vpc_id r)
              (λ subnets t logs. rw logs tt)) in
      require-Gives Anything configured no_aws_config
        (require (not (env "CLUSTER_NAME" == "")) no_cluster_name
          >> zones_named aws env region auto)
        q (serving.configured (some region) p.world)
        (require-Gives Anything (not (env "CLUSTER_NAME" == "")) no_cluster_name
          (zones_named aws env region auto) q has_name zones)

  module _ (api : PoolApi S) (configured : api.config_ok ≡ true) where
    pub initialize_zone_mapping-Gives :
        (p : Process S) → Gives Anything (initialize_zone_mapping aws env api p)
    unfolding initialize_zone_mapping
    initialize_zone_mapping-Gives p =
        let at = region aws env api p in
        let w₁ = (aws.load_config (some at) p.world).1 in
        let p₁ : Process S = record { globals = p.globals; world = w₁ } in
        let (azs, e) = serving.zones at w₁ in
        let w₂ = (aws.describe_availability_zones at w₁).1 in
        let p₂ : Process S = record { globals = p.globals; world = w₂ } in
        let q : Process S = record {
          globals = record p.globals {
            zone_mapping = load_zone_mapping azs p.globals.zone_mapping;
          };
          world = w₂;
        } in
        let auto = list_installed_crds api w₂ in
        let last : Gives Anything (in_cluster aws env api p q) =
          bind-Gives Anything Anything (get_eks_cluster_zones aws env at auto)
            (λ zones. set_globals (λ g. record g { cluster_zones = zones })) q
            (get_eks_cluster_zones-Gives at auto q) (λ zones r _. tt) in
        let checked : Gives Anything (after_mapping aws env api p q) =
          require-Gives Anything (not (env "CLUSTER_NAME" == "")) no_cluster_name
            (with_config aws env api p) q has_name
            (require-Gives Anything api.config_ok no_cluster_config (in_cluster aws env api p) q
              configured last) in
        let found : Gives Anything (with_zones aws env api p p₁) =
          or_raise-Gives Anything (aws.describe_availability_zones at w₁).0 azs
            no_availability_zones (map_zones aws env api p) p₂ e checked in
        require-Gives Anything (aws.load_config (some at) p.world).0 no_aws_config
          (with_zones aws env api p) p₁ (serving.configured (some at) p.world) found
