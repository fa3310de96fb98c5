-- ===== src/Process.antt =====
-- The process of app/main.go: its globals and the world that its requests reach, and the code that
-- runs in it, which may end the process.
pub mod Logic
use sample_arc_autoshift_kar.Base.{
  ℕ, String, Bool, true, false, not, Option, none, some, List, ◌==◌, if◌then◌else◌,
}
use sample_arc_autoshift_kar.Update.{Globals}

-- What ends an operation, or the process: the health check; `flag.Parse`, which leaves with status 2
-- where it refuses the arguments; an error that is returned or given to `log.Fatalf`; and a nil
-- pointer.
pub data Exit : Type 0 where
  healthy bad_arguments no_hostname no_queue_url no_aws_config no_availability_zones : Exit
  no_cluster_name no_cluster_config no_cluster no_vpc no_subnets nil_subnet_id : Exit
  no_clientset no_dynamic_client : Exit

pub data Result (A : Type 0) : Type 0 where
  ok : A → Result A
  err : Exit → Result A

pub record Process (S : Type 0) : Type 0 where
  pub globals : Globals
  pub world : S

abbrev pub Action : Type 0 → Type 0 → Type 0
Action S A = Process S → Result A × Process S

module _ {S A : Type 0} where
  abbrev pub pure : A → Action S A
  pure a p = (ok a, p)

  abbrev pub raise : Exit → Action S A
  raise e p = (err e, p)

  abbrev pub or_raise : Option A → Exit → Action S A
  or_raise none e p = (err e, p)
  or_raise (some a) e p = (ok a, p)

  -- A request to the world.
  abbrev pub ask : (S → A × S) → Action S A
  ask request p =
      let (answer, world) = request p.world in
      (ok answer, record { globals = p.globals; world = world })

  abbrev pub gets : (Process S → A) → Action S A
  gets f p = (ok (f p), p)

infixl 5 ◌>>=◌ ◌>>◌
abbrev pub ◌>>=◌ : {S A B : Type 0} → Action S A → (A → Action S B) → Action S B
◌>>=◌ m f p = let (r, p') = m p in elim r [ ok a ↦ f a p' | err e ↦ (err e, p') ]

abbrev pub ◌>>◌ : {S A B : Type 0} → Action S A → Action S B → Action S B
m >> k = m >>= λ _. k

module _ {S : Type 0} where
  abbrev pub require : Bool → Exit → Action S Unit
  require c e p = (if c then ok tt else err e, p)

  abbrev pub set_globals : (Globals → Globals) → Action S Unit
  set_globals f p = (ok tt, record { globals = f p.globals; world = p.world })

-- `os.Getenv`, where the empty text stands for a variable that is not set.
abbrev pub Environment : Type 0
Environment = String → String

abbrev pub or_default : String → String → String
or_default default value = if value == "" then default else value
