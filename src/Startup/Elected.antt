-- ===== src/Startup/Elected.antt =====
-- The program reaches its leader election.
use sample_arc_autoshift_kar.Base.{
  String, Bool, true, false, not, none, some, List, ◌==◌, eq_iff, ◌≡◌, ◌≢◌, ◌⊎◌, inl, inr, refl,
  arith,
}
use sample_arc_autoshift_kar.Pools.Api.{PoolApi}
use sample_arc_autoshift_kar.Process.{
  Result, ok, err, Process, Environment, bad_arguments, healthy, no_queue_url, no_aws_config,
  no_cluster_config, no_clientset, no_dynamic_client,
}
use sample_arc_autoshift_kar.Discovery.{AwsApi, initialize_zone_mapping}
use sample_arc_autoshift_kar.Startup.{asks_health, Candidate, Host, pod_name_of, prepare}
use sample_arc_autoshift_kar.Startup.Steps.{
  with_controller, with_dynamic, with_clientset, with_zones, with_aws, with_queue, with_pod_name,
  with_flag, with_arguments,
}
use sample_arc_autoshift_kar.Startup.Serving.{
  IsServing, Gives, Anything, bind-Gives, require-Gives, or_raise-Gives,
  initialize_zone_mapping-Gives,
}

-- The environment, the cluster and the host have what the program asks for.
pub record IsDeployed {S : Type 0} (api : PoolApi S) (host : Host) (env : Environment)
    : Type 0 where
  pub cluster_name : env "CLUSTER_NAME" ≢ ""
  pub queue_url : env "SQS_QUEUE_URL" ≢ ""
  pub pod_name : (env "POD_NAME" ≢ "") ⊎ (host.hostname ≢ none)
  pub configured : api.config_ok ≡ true
  pub connected : api.clientset_ok ≡ true
  pub dynamic : host.dynamic_ok ≡ true

module _ {S : Type 0} {aws : AwsApi S} (serving : IsServing aws) {api : PoolApi S} {host : Host}
    {env : Environment} (deployed : IsDeployed api host env) where
  -- The candidate polls the queue of the environment.
  abbrev Polls : Candidate → Type 0
  Polls c = c.queue_url ≡ env "SQS_QUEUE_URL"

  with_zones-Gives :
      (pod_name : String) (p : Process S) → Gives Polls (with_zones aws api host env pod_name p)
  with_zones-Gives pod_name p =
      let dynamic =
        require-Gives Polls host.dynamic_ok no_dynamic_client
          (with_controller aws api host env pod_name) p deployed.dynamic refl in
      let clientset =
        require-Gives Polls api.clientset_ok no_clientset (with_dynamic aws api host env pod_name) p
          deployed.connected dynamic in
      require-Gives Polls api.config_ok no_cluster_config (with_clientset aws api host env pod_name)
        p deployed.configured clientset

  with_pod_name-Gives :
      (pod_name : String) (p : Process S) → Gives Polls (with_pod_name aws api host env pod_name p)
  with_pod_name-Gives pod_name p =
      let (configured, world) = aws.load_config none p.world in
      let q : Process S = record { globals = p.globals; world = world } in
      let zones =
        bind-Gives Polls Anything (initialize_zone_mapping aws env api)
          (λ _. with_zones aws api host env pod_name) q
          (initialize_zone_mapping-Gives serving env deployed.cluster_name api deployed.configured
            q)
          (λ _ r _. with_zones-Gives pod_name r) in
      let has_url : not (env "SQS_QUEUE_URL" == "") ≡ true =
        ground (arith, deployed.queue_url, eq_iff (env "SQS_QUEUE_URL") "") in
      require-Gives Polls (not (env "SQS_QUEUE_URL" == "")) no_queue_url
        (with_queue aws api host env pod_name) p has_url
        (require-Gives Polls configured no_aws_config (with_aws aws api host env pod_name) q
          (serving.configured none p.world) zones)

  pod_name_of-Gives : (p : Process S) → Gives Anything (pod_name_of aws api host env p)
  unfolding pod_name_of
  pod_name_of-Gives p = elim deployed.pod_name [
    | inl h ↦ ground (arith, h, eq_iff (env "POD_NAME") "")
    | inr h ↦ ground (arith, h)
  ]

  with_flag-Gives :
      (enabled : Bool) (p : Process S) → Gives Polls (with_flag aws api host env enabled p)
  with_flag-Gives enabled p =
      let q : Process S = record {
        globals = record p.globals { do_not_disrupt_enabled = enabled };
        world = p.world;
      } in
      bind-Gives Polls Anything (pod_name_of aws api host env)
        (λ pod_name. with_pod_name aws api host env pod_name) q (pod_name_of-Gives q)
        (λ pod_name r _. with_pod_name-Gives pod_name r)

  result_of :
      (x : Result Candidate × Process S)
      → Gives Polls x
      → (c : Candidate) × (x.0 ≡ ok c) × (c.queue_url ≡ env "SQS_QUEUE_URL")
  result_of (ok c, p) gives = (c, refl, gives)
  result_of (err e, p) gives = absurd gives

  -- Where the environment is set, the clients can be made and every request to AWS is answered,
  -- with a VPC for the cluster and ids for the subnets, the program reaches its leader election, and
  -- with the queue of its environment. The flags are taken, and the health check is not asked for.
  pub prepare-eq-ok :
      (arguments : List String) (enabled : Bool) (p : Process S)
      → host.parse_flags arguments ≡ some enabled
      → asks_health arguments ≡ false
      → (c : Candidate) × ((prepare aws api host env arguments p).0 ≡ ok c)
        × (c.queue_url ≡ env "SQS_QUEUE_URL")
  unfolding prepare
  prepare-eq-ok arguments enabled p parsed no_health =
      let rest =
        require-Gives Polls (not (asks_health arguments)) healthy
          (with_flag aws api host env enabled) p (rw no_health refl) (with_flag-Gives enabled p) in
      result_of (prepare aws api host env arguments p) (
        or_raise-Gives Polls (host.parse_flags arguments) enabled bad_arguments
          (with_arguments aws api host env arguments) p parsed rest)
