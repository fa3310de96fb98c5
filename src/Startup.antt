-- ===== src/Startup.antt =====
-- `main` of app/main.go up to the leader election, and the flags that it parses.
pub mod Steps
pub mod Ready
pub mod Serving
pub mod Elected
use sample_arc_autoshift_kar.Base.{
  String, Bool, true, false, not, ◌||◌, Option, none, some, List, [], ◌∷◌, ◌==◌, if◌then◌else◌,
}
use sample_arc_autoshift_kar.Store.{NodeStore, new_node_store}
use sample_arc_autoshift_kar.Pools.Api.{PoolApi}
use sample_arc_autoshift_kar.Update.{Globals}
use sample_arc_autoshift_kar.Process.{
  Exit, healthy, bad_arguments, no_hostname, no_queue_url, no_aws_config, no_cluster_config,
  no_clientset, no_dynamic_client, Result, ok, err, Process, Action, pure, raise, or_raise, ask,
  ◌>>=◌, ◌>>◌, require, set_globals, Environment, or_default,
}
use sample_arc_autoshift_kar.Discovery.{AwsApi, initialize_zone_mapping}

-- The names under which the program declares flags with the `flag` package.
abbrev pub declared_flags : List String
declared_flags = "kube-client-qps" ∷ "kube-client-burst" ∷ "enable-do-not-disrupt" ∷ []

-- `len(os.Args) > 1 && os.Args[1] == "-health"`; the arguments include the program's name.
unfoldable pub asks_health : List String → Bool
asks_health (program ∷ argument ∷ _) = argument == "-health"
asks_health _ = false

-- What the election and the polling are given.
pub record Candidate : Type 0 where
  pub pod_name : String
  pub namespace : String
  pub queue_url : String

-- The globals before `main` sets any.
abbrev pub no_globals : Globals
no_globals = record {
  zone_mapping = [];
  cluster_zones = [];
  do_not_disrupt_enabled = false;
  node_store = none;
}

-- `NewNodeClaimController`: the controller has an empty store.
unfoldable pub new_node_claim_controller : NodeStore
new_node_claim_controller = new_node_store

-- What `main` uses besides AWS and the API of the pools: `flag.Parse`, which gives the value of
-- `enable-do-not-disrupt`, or `none` where it leaves the process with status 2; `os.Hostname`; and
-- whether `dynamic.NewForConfig` makes a client.
pub record Host : Type 0 where
  pub parse_flags : List String → Option Bool
  pub hostname : Option String
  pub dynamic_ok : Bool

module _ {S : Type 0} (aws : AwsApi S) (api : PoolApi S) (host : Host) (env : Environment) where
  unfoldable pub pod_name_of : Action S String
  pod_name_of =
      if env "POD_NAME" == "" then or_raise host.hostname no_hostname else pure (env "POD_NAME")

  -- The goroutine that runs the controller is left out: it changes the node store, and is modelled
  -- with the claims.
  unfoldable pub prepare : List String → Action S Candidate
  unfolding pod_name_of asks_health initialize_zone_mapping new_node_claim_controller
  prepare arguments = do
    enabled ← or_raise (host.parse_flags arguments) bad_arguments
    require (not (asks_health arguments)) healthy
    set_globals (λ g. record g { do_not_disrupt_enabled = enabled })
    pod_name ← pod_name_of
    require (not (env "SQS_QUEUE_URL" == "")) no_queue_url
    require (← ask (aws.load_config none)) no_aws_config
    initialize_zone_mapping aws env api
    require api.config_ok no_cluster_config
    require api.clientset_ok no_clientset
    require host.dynamic_ok no_dynamic_client
    set_globals (λ g. record g { node_store = some new_node_claim_controller })
    pure (record {
      pod_name = pod_name;
      namespace = or_default "default" (env "POD_NAMESPACE");
      queue_url = env "SQS_QUEUE_URL";
    })
