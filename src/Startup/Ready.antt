-- ===== src/Startup/Ready.antt =====
-- What holds when the program reaches its leader election, and how it ends where it does not.
use std.Path.{subst}
use sample_arc_autoshift_kar.Base.{contains}
use sample_arc_autoshift_kar.Base.{
  String, Bool, true, false, not, Option, none, some, List, [], ◌∷◌, ◌==◌, eq_iff, ◌≡◌, ◌≢◌, refl,
  sym, ◌∙◌, arith, Bool-cases, Option-cases, ◌⊎◌, inl, inr,
}
use sample_arc_autoshift_kar.Base.Dict.{Distinct}
use sample_arc_autoshift_kar.Store.{new_node_store}
use sample_arc_autoshift_kar.Pools.Api.{PoolApi}
use sample_arc_autoshift_kar.Update.{Globals}
use sample_arc_autoshift_kar.Zones.Updated.{IsOnce}
use sample_arc_autoshift_kar.Process.{
  Exit, healthy, bad_arguments, no_hostname, no_queue_url, no_cluster_config, no_clientset,
  no_dynamic_client, no_aws_config, Result, ok, err, Process, Action, or_raise, ◌>>=◌, ◌>>◌,
  require, Environment, or_default,
}
use sample_arc_autoshift_kar.Discovery.{AwsApi, initialize_zone_mapping}
use sample_arc_autoshift_kar.Discovery.Cache.{IsFound, initialize_zone_mapping_lem}
use sample_arc_autoshift_kar.Startup.{
  declared_flags, asks_health, Candidate, no_globals, new_node_claim_controller, Host, pod_name_of,
  prepare,
}
use sample_arc_autoshift_kar.Startup.Steps.{
  with_controller, with_dynamic, with_clientset, with_zones, with_aws, with_queue, with_pod_name,
  with_flag, with_arguments,
}

-- The globals are set up, and the election has what it needs.
pub record IsReady (enabled : Option Bool) (c : Candidate) (g : Globals) : Type 0 where
  pub flag : enabled ≡ some g.do_not_disrupt_enabled
  pub store : g.node_store ≡ some new_node_store
  pub mapping : Distinct g.zone_mapping
  pub zones : IsOnce g.cluster_zones
  pub queue : c.queue_url ≢ ""
  pub namespace : c.namespace ≢ ""

-- Ready, or ended, and not as healthy.
abbrev pub IsPrepared : {S : Type 0} → Option Bool → Result Candidate × Process S → Type 0
IsPrepared enabled (ok c, q) = IsReady enabled c q.globals
IsPrepared enabled (err e, q) = e ≢ healthy

module _ {S : Type 0} (enabled : Option Bool) (p : Process S) where
  require-IsPrepared :
      (c : Bool) (e : Exit) (m : Action S Candidate)
      → e ≢ healthy
      → (c ≡ true → IsPrepared enabled (m p))
      → IsPrepared enabled ((require c e >> m) p)
  require-IsPrepared true e m bad next = next refl
  require-IsPrepared false e m bad next = bad

  or_raise-IsPrepared :
      {A : Type 0} (o : Option A) (e : Exit) (f : A → Action S Candidate)
      → e ≢ healthy
      → ((a : A) → o ≡ some a → IsPrepared enabled (f a p))
      → IsPrepared enabled ((or_raise o e >>= f) p)
  or_raise-IsPrepared none e f bad next = bad
  or_raise-IsPrepared (some a) e f bad next = next a refl

default-ne : (default value : String) → default ≢ "" → or_default default value ≢ ""
default-ne default value named = ground (arith, named, eq_iff value "")

module _ {S : Type 0} (aws : AwsApi S) (api : PoolApi S) (host : Host) (env : Environment) where
  module _ (enabled : Bool) (pod_name : String) where
    with_zones-IsPrepared :
        (p : Process S)
        → p.globals.do_not_disrupt_enabled ≡ enabled
        → Distinct p.globals.zone_mapping
        → IsOnce p.globals.cluster_zones
        → env "SQS_QUEUE_URL" ≢ ""
        → IsPrepared (some enabled) (with_zones aws api host env pod_name p)
    unfolding new_node_claim_controller
    with_zones-IsPrepared p flag mapping zones queue =
        let ready : IsPrepared (some enabled) (with_controller aws api host env pod_name p) =
          record {
            flag = rw flag refl;
            store = refl;
            mapping = mapping;
            zones = zones;
            queue = queue;
            namespace =
                default-ne "default" (env "POD_NAMESPACE") (ground (arith, eq_iff "default" ""));
          } in
        require-IsPrepared (some enabled) p api.config_ok no_cluster_config
          (with_clientset aws api host env pod_name) (λ e. cc)
          (λ _.
            require-IsPrepared (some enabled) p api.clientset_ok no_clientset
              (with_dynamic aws api host env pod_name) (λ e. cc)
              (λ _.
                require-IsPrepared (some enabled) p host.dynamic_ok no_dynamic_client
                  (with_controller aws api host env pod_name) (λ e. cc) (λ _. ready)))

    with_aws-IsPrepared :
        (p : Process S)
        → p.globals.do_not_disrupt_enabled ≡ enabled
        → Distinct p.globals.zone_mapping
        → env "SQS_QUEUE_URL" ≢ ""
        → IsPrepared (some enabled) (with_aws aws api host env pod_name p)
    with_aws-IsPrepared p flag mapping queue =
        let (same, _, distinct, found) = initialize_zone_mapping_lem aws env api p mapping in
        then_zones (initialize_zone_mapping aws env api p) (same ∙ flag) distinct found
      where
        then_zones :
            (x : Result (Unit {0}) × Process S)
            → x.1.globals.do_not_disrupt_enabled ≡ enabled
            → Distinct x.1.globals.zone_mapping
            → IsFound aws env api p x.0 x.1
            → IsPrepared {S = S} (some enabled) (elim x.0 [
              | ok _ ↦ with_zones aws api host env pod_name x.1
              | err e ↦ (err e, x.1)
            ])
        then_zones (ok _, q) same distinct once = with_zones-IsPrepared q same distinct once queue
        then_zones (err e, q) same distinct (_, bad) = bad

    with_pod_name-IsPrepared :
        (p : Process S)
        → p.globals.do_not_disrupt_enabled ≡ enabled
        → Distinct p.globals.zone_mapping
        → IsPrepared (some enabled) (with_pod_name aws api host env pod_name p)
    with_pod_name-IsPrepared p flag mapping =
        let (configured, world) = aws.load_config none p.world in
        let q : Process S = record { globals = p.globals; world = world } in
        require-IsPrepared (some enabled) p (not (env "SQS_QUEUE_URL" == "")) no_queue_url
          (with_queue aws api host env pod_name) (λ e. cc)
          (λ named.
            require-IsPrepared (some enabled) q configured no_aws_config
              (with_aws aws api host env pod_name) (λ e. cc)
              (λ _.
                with_aws-IsPrepared q flag mapping
                  (ground (arith, named, eq_iff (env "SQS_QUEUE_URL") ""))))

  pod_name_of-cases :
      (p : Process S)
      → ((name : String) × (pod_name_of aws api host env p ≡ (ok name, p)))
        ⊎ (pod_name_of aws api host env p ≡ (err no_hostname, p))
  unfolding pod_name_of
  pod_name_of-cases p = elim (Bool-cases (env "POD_NAME" == "")) [
    | inl e ↦ elim (Option-cases host.hostname) [
      | inl h ↦ inr (rw (e, h) refl)
      | inr (name, h) ↦ inl (name, rw (e, h) refl)
    ]
    | inr e ↦ inl (env "POD_NAME", rw e refl)
  ]

  -- With the outcome of `pod_name_of`.
  abbrev named : Result String × Process S → Result Candidate × Process S
  named x = elim x.0 [ ok name ↦ with_pod_name aws api host env name x.1 | err e ↦ (err e, x.1) ]

  named-IsPrepared :
      (enabled : Bool) (q : Process S)
      → Distinct q.globals.zone_mapping
      → q.globals.do_not_disrupt_enabled ≡ enabled
      → ((name : String) × (pod_name_of aws api host env q ≡ (ok name, q)))
        ⊎ (pod_name_of aws api host env q ≡ (err no_hostname, q))
      → IsPrepared (some enabled) (named (pod_name_of aws api host env q))
  named-IsPrepared enabled q mapping flag (inl (name, e)) =
      subst (λ x. IsPrepared (some enabled) (named x)) (sym e)
        (with_pod_name-IsPrepared enabled name q flag mapping)
  named-IsPrepared enabled q mapping flag (inr e) =
      subst (λ x. IsPrepared (some enabled) (named x)) (sym e) (λ h. cc)

  with_flag-IsPrepared :
      (enabled : Bool) (p : Process S)
      → Distinct p.globals.zone_mapping
      → IsPrepared (some enabled) (with_flag aws api host env enabled p)
  with_flag-IsPrepared enabled p mapping =
      let q : Process S = record {
        globals = record p.globals { do_not_disrupt_enabled = enabled };
        world = p.world;
      } in
      named-IsPrepared enabled q mapping refl (pod_name_of-cases q)

  of_prepared-IsReady :
      (enabled : Option Bool) (c : Candidate) (x : Result Candidate × Process S)
      → IsPrepared enabled x
      → x.0 ≡ ok c
      → IsReady enabled c x.1.globals
  of_prepared-IsReady enabled c (ok d, q) ready here = let same : d ≡ c = cc in rw⁻¹ same ready
  of_prepared-IsReady enabled c (err e, q) bad here = cc

  -- Where the election is reached, the globals are set up.
  pub prepare-IsReady :
      (arguments : List String) (world : S) (c : Candidate)
      → (prepare aws api host env arguments (record { globals = no_globals; world = world })).0
        ≡ ok c
      → IsReady
          (host.parse_flags arguments)
          c
          (prepare aws api host env arguments
            (record { globals = no_globals; world = world })).1.globals
  unfolding prepare
  prepare-IsReady arguments world c reached =
      let p : Process S = record { globals = no_globals; world = world } in
      elim (Option-cases (host.parse_flags arguments)) [
        | inl e ↦ ground (arith, e, reached)
        | inr (enabled, e) ↦ elim (Bool-cases (asks_health arguments)) [
          | inl h ↦ ground (arith, e, h, reached)
          | inr h ↦
              let rest : IsPrepared (host.parse_flags arguments)
                  (prepare aws api host env arguments p) =
                rw (e, h) (with_flag-IsPrepared enabled p tt) in
              of_prepared-IsReady (host.parse_flags arguments) c
                (prepare aws api host env arguments p) rest reached
        ]
      ]

  -- What the documentation of `flag` says of `-health`: if no flag of that name is declared, the
  -- process is left, with status 2.
  abbrev pub RefusesHealth : Type 0
  RefusesHealth =
      contains "health" declared_flags ≡ false
      → (program : String) (rest : List String)
      → host.parse_flags (program ∷ "-health" ∷ rest) ≡ none

  module _ (refuses : RefusesHealth) where
    not_health :
        (arguments : List String) (enabled : Bool)
        → host.parse_flags arguments ≡ some enabled
        → not (asks_health arguments) ≡ true
    unfolding asks_health contains
    not_health [] enabled parsed = refl
    not_health (program ∷ []) enabled parsed = refl
    not_health (program ∷ argument ∷ rest) enabled parsed =
        elim (Bool-cases (argument == "-health")) [
          | inl e ↦
              let there : argument ≡ "-health" = (eq_iff argument "-health").0 e in
              let law : host.parse_flags (program ∷ argument ∷ rest) ≡ none =
                rw there (refuses refl program rest) in
              ground (arith, law, parsed)
          | inr e ↦ rw e refl
        ]

    -- If `-health` is refused where no flag of that name is declared, the program never ends in the
    -- exit of its health check, whatever its arguments, its environment and the answers it gets.
    -- Where it reaches the election, the flag is that of the arguments, the node store is empty, no
    -- zone id stands twice in the mapping and no zone in the list of the cluster's zones, and the
    -- queue's address and the namespace are not empty.
    pub prepare-IsPrepared :
        (arguments : List String) (world : S)
        → IsPrepared
            (host.parse_flags arguments)
            (prepare aws api host env arguments (record { globals = no_globals; world = world }))
    unfolding prepare
    prepare-IsPrepared arguments world =
        let p : Process S = record { globals = no_globals; world = world } in
        or_raise-IsPrepared (host.parse_flags arguments) p (host.parse_flags arguments)
          bad_arguments (with_arguments aws api host env arguments) (λ e. cc)
          (λ enabled parsed.
            let set : Process S = record {
              globals = record no_globals { do_not_disrupt_enabled = enabled };
              world = world;
            } in
            let rest = with_flag-IsPrepared enabled p tt in
            rw (not_health arguments enabled parsed, parsed) rest)
