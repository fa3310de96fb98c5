-- ===== src/Discovery/Cache.antt =====
-- What `initializeZoneMapping` leaves in the globals, where it fails too.
use sample_arc_autoshift_kar.Base.{
  String, not, Option, none, some, List, [], ◌∷◌, ◌==◌, ◌≡◌, ◌≢◌, refl, ap, ◌∙◌,
}
use sample_arc_autoshift_kar.Base.Dict.{Dict, Distinct, insert-Distinct}
use sample_arc_autoshift_kar.Pools.Api.{PoolApi}
use sample_arc_autoshift_kar.Update.{list_installed_crds}
use sample_arc_autoshift_kar.Zones.{AvailabilityZone, map_zone, load_zone_mapping}
use sample_arc_autoshift_kar.Zones.Updated.{IsOnce}
use sample_arc_autoshift_kar.Process.{
  Exit, healthy, no_aws_config, no_availability_zones, no_cluster_name, no_cluster_config, Result,
  ok, err, Process, Action, or_raise, ask, gets, ◌>>=◌, ◌>>◌, require, set_globals, Environment,
  or_default,
}
use sample_arc_autoshift_kar.Process.Logic.{Ends, Ends-trans, require-Ends, or_raise-Ends}
use sample_arc_autoshift_kar.Discovery.{AwsApi, get_eks_cluster_zones, initialize_zone_mapping}
use sample_arc_autoshift_kar.Discovery.Outcome.{SameGlobals, IsFailure, get_eks_cluster_zones-Ends}

-- Of the globals only the zones may differ, and no zone id stands twice in the mapping if none did.
pub record Keeps {S : Type 0} (p q : Process S) : Type 0 where
  pub feature : q.globals.do_not_disrupt_enabled ≡ p.globals.do_not_disrupt_enabled
  pub store : q.globals.node_store ≡ p.globals.node_store
  pub mapping : Distinct p.globals.zone_mapping → Distinct q.globals.zone_mapping

Keeps-SameGlobals : {S : Type 0} (p q : Process S) → SameGlobals p q → Keeps p q
Keeps-SameGlobals p q same = record {
  feature = ap (λ g. g.do_not_disrupt_enabled) same;
  store = ap (λ g. g.node_store) same;
  mapping = λ d. rw same d;
}

Keeps-refl : {S : Type 0} (p : Process S) → Keeps p p
Keeps-refl p = Keeps-SameGlobals p p refl

Keeps-trans : {S : Type 0} (p q r : Process S) → Keeps p q → Keeps q r → Keeps p r
Keeps-trans p q r h k = record {
  feature = k.feature ∙ h.feature;
  store = k.store ∙ h.store;
  mapping = λ d. k.mapping (h.mapping d);
}

map_zone-Distinct :
    (id name : Option String) (m : Dict String) → Distinct m → Distinct (map_zone id name m)
unfolding map_zone
map_zone-Distinct none name m d = d
map_zone-Distinct (some id) none m d = d
map_zone-Distinct (some id) (some name) m d = insert-Distinct id name m d

load_zone_mapping-Distinct :
    (azs : List AvailabilityZone) (m : Dict String)
    → Distinct m
    → Distinct (load_zone_mapping azs m)
unfolding load_zone_mapping
load_zone_mapping-Distinct [] m d = d
load_zone_mapping-Distinct (az ∷ azs) m d =
    load_zone_mapping-Distinct azs _ (map_zone-Distinct az.zone_id az.zone_name m d)

abbrev pub NoZones : {S : Type 0} → Process S → Exit → Process S → Type 0
NoZones start e q = (q.globals.cluster_zones ≡ start.globals.cluster_zones) × (e ≢ healthy)

abbrev pub HasZones : {S : Type 0} → Unit {0} → Process S → Type 0
HasZones _ q = IsOnce q.globals.cluster_zones

module _ {S : Type 0} (start : Process S) where
  -- The last step, after the zones have been asked for.
  abbrev set_zones : List String → Action S Unit
  set_zones zones = set_globals (λ g. record g { cluster_zones = zones })

  set_zones-Ends :
      (p : Process S) (m : Action S (List String))
      → p.globals.cluster_zones ≡ start.globals.cluster_zones
      → Ends SameGlobals IsFailure (λ zones _. IsOnce zones) p (m p)
      → Ends Keeps (NoZones start) HasZones p ((m >>= set_zones) p)
  set_zones-Ends p m same ends = of_result (m p) ends
    where
      of_result :
          (x : Result (List String) × Process S)
          → Ends SameGlobals IsFailure (λ zones _. IsOnce zones) p x
          → Ends Keeps
              (NoZones start)
              HasZones
              p
              (elim x.0 [ ok zones ↦ set_zones zones x.1 | err e ↦ (err e, x.1) ])
      of_result (ok zones, q) (step, once) =
          let kept = Keeps-SameGlobals p q step in
          (record { feature = kept.feature; store = kept.store; mapping = kept.mapping }, once)
      of_result (err e, q) (step, bad) =
          (Keeps-SameGlobals p q step, (ap (λ g. g.cluster_zones) step ∙ same, bad))

module _ {S : Type 0} (aws : AwsApi S) (env : Environment) (api : PoolApi S)
    (start : Process S) where
  abbrev pub region : String
  region = or_default "us-west-2" (env "AWS_REGION")

  -- From the checks that follow the zone mapping to the end, last step first.
  abbrev pub in_cluster : Action S Unit
  in_cluster = do
    auto ← gets (λ p. list_installed_crds api p.world)
    zones ← get_eks_cluster_zones aws env region auto
    set_globals (λ g. record g { cluster_zones = zones })

  abbrev pub with_config : Action S Unit
  with_config = do require api.config_ok no_cluster_config; in_cluster

  abbrev pub after_mapping : Action S Unit
  after_mapping = do require (not (env "CLUSTER_NAME" == "")) no_cluster_name; with_config

  after_mapping-Ends :
      (p : Process S)
      → p.globals.cluster_zones ≡ start.globals.cluster_zones
      → Ends Keeps (NoZones start) HasZones p (after_mapping p)
  after_mapping-Ends p same =
      let auto = list_installed_crds api p.world in
      let found : Ends Keeps (NoZones start) HasZones p (in_cluster p) =
        set_zones-Ends start p (get_eks_cluster_zones aws env region auto) same
          (get_eks_cluster_zones-Ends aws env region auto p) in
      require-Ends Keeps (NoZones start) Keeps-refl HasZones p (not (env "CLUSTER_NAME" == ""))
        no_cluster_name with_config (same, λ e. cc)
        (require-Ends Keeps (NoZones start) Keeps-refl HasZones p api.config_ok no_cluster_config
          in_cluster (same, λ e. cc) found)

  abbrev pub map_zones : List AvailabilityZone → Action S Unit
  map_zones azs = do
    set_globals (λ g. record g { zone_mapping = load_zone_mapping azs g.zone_mapping })
    after_mapping

  map_zones-Ends :
      (azs : List AvailabilityZone) (p : Process S)
      → p.globals.cluster_zones ≡ start.globals.cluster_zones
      → Ends Keeps (NoZones start) HasZones p (map_zones azs p)
  map_zones-Ends azs p same =
      let q : Process S = record {
        globals = record p.globals { zone_mapping = load_zone_mapping azs p.globals.zone_mapping };
        world = p.world;
      } in
      Ends-trans Keeps (NoZones start) Keeps-trans HasZones p q (after_mapping q)
        (record {
          feature = refl;
          store = refl;
          mapping = load_zone_mapping-Distinct azs p.globals.zone_mapping;
        })
        (after_mapping-Ends q same)

  abbrev pub with_zones : Action S Unit
  with_zones = do
    azs ← or_raise (← ask (aws.describe_availability_zones region)) no_availability_zones
    map_zones azs

  initialize_zone_mapping-Ends :
      Ends Keeps (NoZones start) HasZones start (initialize_zone_mapping aws env api start)
  unfolding initialize_zone_mapping
  initialize_zone_mapping-Ends =
      let (configured, w₁) = aws.load_config (some region) start.world in
      let p₁ : Process S = record { globals = start.globals; world = w₁ } in
      let (answer, w₂) = aws.describe_availability_zones region w₁ in
      let p₂ : Process S = record { globals = start.globals; world = w₂ } in
      let rest =
        or_raise-Ends Keeps (NoZones start) Keeps-refl HasZones p₂ answer no_availability_zones
          map_zones (refl, λ e. cc) (λ azs. map_zones-Ends azs p₂ refl) in
      let ends =
        require-Ends Keeps (NoZones start) Keeps-refl HasZones p₁ configured no_aws_config
          with_zones (refl, λ e. cc)
          (Ends-trans Keeps (NoZones start) Keeps-trans HasZones p₁ p₂
            ((or_raise answer no_availability_zones >>= map_zones) p₂)
            (Keeps-SameGlobals p₁ p₂ refl) rest) in
      Ends-trans Keeps (NoZones start) Keeps-trans HasZones start p₁
        ((require configured no_aws_config >> with_zones) p₁) (Keeps-SameGlobals start p₁ refl) ends

  -- Either the zones are found, each once, or those from before stand and the error is not the exit
  -- of the health check.
  abbrev pub IsFound : Result (Unit {0}) → Process S → Type 0
  IsFound (ok u) q = HasZones u q
  IsFound (err e) q = NoZones start e q

  -- Loading the zones, with whatever answers of AWS and of the cluster, leaves the do-not-disrupt flag
  -- and the node store alone and keeps the zone ids of the mapping distinct. Where it succeeds no zone
  -- of the cluster stands twice; where it fails, with an error other than the health check's exit, the
  -- list of the cluster's zones is as it was, though the mapping may already be loaded. The ids of the
  -- mapping are distinct before.
  pub initialize_zone_mapping_lem :
      Distinct start.globals.zone_mapping
      → ((initialize_zone_mapping aws env api start).1.globals.do_not_disrupt_enabled
          ≡ start.globals.do_not_disrupt_enabled)
        × ((initialize_zone_mapping aws env api start).1.globals.node_store
            ≡ start.globals.node_store)
        × Distinct (initialize_zone_mapping aws env api start).1.globals.zone_mapping
        × IsFound
            (initialize_zone_mapping aws env api start).0
            (initialize_zone_mapping aws env api start).1
  initialize_zone_mapping_lem d =
      of_ends (initialize_zone_mapping aws env api start) initialize_zone_mapping-Ends
    where
      of_ends :
          (x : Result (Unit {0}) × Process S)
          → Ends Keeps (NoZones start) HasZones start x
          → (x.1.globals.do_not_disrupt_enabled ≡ start.globals.do_not_disrupt_enabled)
            × (x.1.globals.node_store ≡ start.globals.node_store)
            × Distinct x.1.globals.zone_mapping
            × IsFound x.0 x.1
      of_ends (ok _, q) (kept, once) = (kept.feature, kept.store, kept.mapping d, once)
      of_ends (err e, q) (kept, bad) = (kept.feature, kept.store, kept.mapping d, bad)
