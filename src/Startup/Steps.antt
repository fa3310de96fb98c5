-- ===== src/Startup/Steps.antt =====
-- `main` of app/main.go cut into its steps, so that each can be proved about by itself.
use sample_arc_autoshift_kar.Base.{String, Bool, not, none, some, List, ◌==◌}
use sample_arc_autoshift_kar.Pools.Api.{PoolApi}
use sample_arc_autoshift_kar.Process.{
  healthy, no_queue_url, no_cluster_config, no_clientset, no_dynamic_client, no_aws_config, Action,
  pure, ask, ◌>>=◌, ◌>>◌, require, set_globals, Environment, or_default,
}
use sample_arc_autoshift_kar.Discovery.{AwsApi, initialize_zone_mapping}
use sample_arc_autoshift_kar.Startup.{
  asks_health, Candidate, new_node_claim_controller, Host, pod_name_of,
}

module _ {S : Type 0} (aws : AwsApi S) (api : PoolApi S) (host : Host) (env : Environment) where
  -- The steps of `prepare`, the last ones first.
  abbrev pub with_controller : String → Action S Candidate
  with_controller pod_name = do
    set_globals (λ g. record g { node_store = some new_node_claim_controller })
    pure (record {
      pod_name = pod_name;
      namespace = or_default "default" (env "POD_NAMESPACE");
      queue_url = env "SQS_QUEUE_URL";
    })

  abbrev pub with_dynamic : String → Action S Candidate
  with_dynamic pod_name = do require host.dynamic_ok no_dynamic_client; with_controller pod_name

  abbrev pub with_clientset : String → Action S Candidate
  with_clientset pod_name = do require api.clientset_ok no_clientset; with_dynamic pod_name

  abbrev pub with_zones : String → Action S Candidate
  with_zones pod_name = do require api.config_ok no_cluster_config; with_clientset pod_name

  abbrev pub with_aws : String → Action S Candidate
  with_aws pod_name = do initialize_zone_mapping aws env api; with_zones pod_name

  abbrev pub with_queue : String → Action S Candidate
  with_queue pod_name = do require (← ask (aws.load_config none)) no_aws_config; with_aws pod_name

  abbrev pub with_pod_name : String → Action S Candidate
  with_pod_name pod_name = do
    require (not (env "SQS_QUEUE_URL" == "")) no_queue_url
    with_queue pod_name

  abbrev pub with_flag : Bool → Action S Candidate
  with_flag enabled = do
    set_globals (λ g. record g { do_not_disrupt_enabled = enabled })
    pod_name ← pod_name_of aws api host env
    with_pod_name pod_name

  abbrev pub with_arguments : List String → Bool → Action S Candidate
  with_arguments arguments enabled = do
    require (not (asks_health arguments)) healthy
    with_flag enabled
