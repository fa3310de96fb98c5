-- ===== src/Nodes/Calls.antt =====
-- The goroutines of `AnnotateAndCordonNodes` and `RemoveProtectionFromNodes` of
-- app/pkg/controller/controller.go, one call to the Kubernetes API at a time.
pub mod Locality
pub mod Interleaving
pub mod Completion
use sample_arc_autoshift_kar.Base.{
  ℕ, zero, suc, String, Bool, true, false, Option, none, some, List, [], ◌∷◌, ◌==◌, ◌≡◌,
  if◌then◌else◌, nat_eq,
}
use sample_arc_autoshift_kar.Base.Dict.{lookup, delete}
use sample_arc_autoshift_kar.Store.{NodeInfo}
use sample_arc_autoshift_kar.Nodes.Api.{Node, NodeApi}
use sample_arc_autoshift_kar.Nodes.{do_not_disrupt, with_annotation}

-- What a goroutine has left to do: a `Get` and how it goes on with the answer, or an `Update` and how
-- it goes on with its success.
pub data Calls : Type 0 where
  done : Calls
  get : String → (Option Node → Calls) → Calls
  update : Node → (Bool → Calls) → Calls

-- `annotateNode`
abbrev pub annotate_read : (Bool → Calls) → Option Node → Calls
annotate_read rest none = rest false
annotate_read rest (some node) = update (with_annotation node) rest

unfoldable pub annotate_calls : String → (Bool → Calls) → Calls
annotate_calls node_name rest = get node_name (annotate_read rest)

-- `cordonNode`, whose error is only logged.
abbrev pub cordon_read : Calls → Option Node → Calls
cordon_read rest none = rest
cordon_read rest (some node) = update (record node { unschedulable = true }) (λ _. rest)

unfoldable pub cordon_calls : String → Calls → Calls
cordon_calls node_name rest = get node_name (cordon_read rest)

-- `removeAnnotation`
abbrev pub remove_read : (Bool → Calls) → Option Node → Calls
remove_read rest none = rest false
remove_read rest (some node) = elim node.annotations [
  | none ↦ rest true
  | some annotations ↦ elim (lookup do_not_disrupt annotations) [
    | none ↦ rest true
    | some _ ↦ update (record node { annotations = some (delete do_not_disrupt annotations) }) rest
  ]
]

unfoldable pub remove_annotation_calls : String → (Bool → Calls) → Calls
remove_annotation_calls node_name rest = get node_name (remove_read rest)

-- `uncordonNode`, whose error is only logged.
abbrev pub uncordon_read : Calls → Option Node → Calls
uncordon_read rest none = rest
uncordon_read rest (some node) =
    if node.unschedulable then update (record node { unschedulable = false }) (λ _. rest) else rest

unfoldable pub uncordon_calls : String → Calls → Calls
uncordon_calls node_name rest = get node_name (uncordon_read rest)

abbrev pub protect_next : String → Calls → Bool → Calls
protect_next node_name rest false = rest
protect_next node_name rest true = cordon_calls node_name rest

-- The body of the loop in `AnnotateAndCordonNodes`.
unfoldable pub protect_calls : String → Calls → Calls
unfolding annotate_calls cordon_calls
protect_calls node_name rest = annotate_calls node_name (protect_next node_name rest)

abbrev pub unprotect_next : String → Calls → Bool → Calls
unprotect_next node_name rest false = rest
unprotect_next node_name rest true = uncordon_calls node_name rest

-- The body of the loop in `RemoveProtectionFromNodes`.
unfoldable pub unprotect_calls : String → Calls → Calls
unfolding remove_annotation_calls uncordon_calls
unprotect_calls node_name rest = remove_annotation_calls node_name (unprotect_next node_name rest)

-- The loop over the nodes of a batch, with the calls of its body.
unfoldable pub batch_calls : (String → Calls → Calls) → List NodeInfo → Calls
batch_calls body [] = done
batch_calls body (node ∷ nodes) =
    if node.node_name == ""
    then batch_calls body nodes
    else body node.node_name (batch_calls body nodes)

-- The batch of a goroutine; a goroutine that `BatchProcessor` does not start has none.
unfoldable pub batch_of : List (List NodeInfo) → ℕ → List NodeInfo
batch_of [] i = []
batch_of (b ∷ bs) zero = b
batch_of (b ∷ bs) (suc i) = batch_of bs i

-- The cluster, and what each goroutine has left to do.
pub record Running (S : Type 0) : Type 0 where
  pub cluster : S
  pub left : ℕ → Calls

-- Goroutine `i` goes on with `t`, the others stay where they are.
abbrev pub at : (ℕ → Calls) → ℕ → Calls → ℕ → Calls
at left i t k = if nat_eq i k then t else left k

module _ {S : Type 0} (api : NodeApi S) where
  -- The goroutine alone, to its end.
  unfoldable pub finish : Calls → S → S
  finish done s = s
  finish (get k f) s = finish (f (api.get k s)) s
  finish (update n f) s = finish (f (api.update n s).0) (api.update n s).1

-- One call.
pub data Call {S : Type 0} (api : NodeApi S) : Calls → S → Calls → S → Type 0 where
  reads : {k : String} {f : Option Node → Calls} {s : S} → Call api (get k f) s (f (api.get k s)) s
  writes :
      {n : Node} {f : Bool → Calls} {s : S}
      → Call api (update n f) s (f (api.update n s).0) (api.update n s).1

-- The states that the goroutines can reach, each call of any of them coming next. The semaphore lets
-- fewer of them run at once, and so allows no other states.
pub data Reach {S : Type 0} (api : NodeApi S) (from : Running S) : Running S → Type 0 where
  here : Reach api from from
  next :
      {r : Running S} {t : Calls} {s : S} (i : ℕ)
      → Reach api from r
      → Call api (r.left i) r.cluster t s
      → Reach api from (record { cluster = s; left = at r.left i t })

-- The goroutines of the batches, before their first calls.
abbrev pub started : {S : Type 0} → (String → Calls → Calls) → List (List NodeInfo) → S → Running S
started body bs s = record { cluster = s; left = λ i. batch_calls body (batch_of bs i) }
