-- ===== src/Tests/Events.antt =====
-- The claims, the dispatch of events and a poll of the queue at concrete inputs.
use sample_arc_autoshift_kar.Base.{
  ℕ, zero, suc, ◌<◌, String, Bool, true, false, Option, none, some, List, [], ◌∷◌, ◌≡◌, ◌≢◌, refl,
  inl, arith, eq_iff,
}
use sample_arc_autoshift_kar.Base.Dict.{Dict, lookup}
use sample_arc_autoshift_kar.Store.{new_node_store, add_node}
use sample_arc_autoshift_kar.Store.Validity.{IsValid-new_node_store}
use sample_arc_autoshift_kar.Event.{Event}
use sample_arc_autoshift_kar.Claims.{
  Unstructured, zone_label, legacy_zone_label, process_node_claim, process_events, NodeClaim,
  store_claims, initialize_store,
}
use sample_arc_autoshift_kar.Claims.Tracking.{IsTracking, last_told, process_events-IsTracking}
use sample_arc_autoshift_kar.Claims.Agreement.{Describes, process-eq-store, process-ne-store}
use sample_arc_autoshift_kar.Handler.{Message, Polled}
use sample_arc_autoshift_kar.Claims.{listed_zone}
use sample_arc_autoshift_kar.Claims.Listing.{
  IsUnreadable, initialize_store-unreadable, store_claims-process_node_claim,
}
use sample_arc_autoshift_kar.Client.{list_node_claims}
use sample_arc_autoshift_kar.Handler.{process_messages}
use sample_arc_autoshift_kar.Leader.{
  Pod, checking, receiving, Steps, answers, skips, starts, deletes, ends, stay, step,
}
use sample_arc_autoshift_kar.Leader.Bounds.{HandlesOnlyLeft, Steps-HandlesOnlyLeft}
use sample_arc_autoshift_kar.Tests.Data.{started_a, tracked}

-- Objects that are maps of texts: the maps that are nested in one are that map itself.
abbrev pub flat : Unstructured (Dict String) (Dict String)
flat = record {
  as_unstructured = λ obj. some obj;
  nested_map = λ fields name. some fields;
  get_string = λ fields name. lookup name fields;
}

abbrev pub labelled : Dict String
labelled = (zone_label, "us-east-1a") ∷ ("nodeName", "node-a") ∷ []

abbrev legacy_labelled : Dict String
legacy_labelled = (zone_label, "") ∷ (legacy_zone_label, "us-east-1a") ∷ ("nodeName", "node-a") ∷ []

abbrev claim_of : Dict String → NodeClaim
claim_of labels = record { labels = labels; node_name = "node-a" }

labelled-Describes : Describes flat labelled (claim_of labelled)
unfolding lookup
labelled-Describes = record {
  fields = labelled;
  metadata = labelled;
  status = labelled;
  labels = labelled;
  is_unstructured = refl;
  has_metadata = refl;
  has_status = refl;
  has_labels = refl;
  same_name = refl;
  same_labels = λ k. refl;
}

legacy_labelled-Describes : Describes flat legacy_labelled (claim_of legacy_labelled)
unfolding lookup
legacy_labelled-Describes = record {
  fields = legacy_labelled;
  metadata = legacy_labelled;
  status = legacy_labelled;
  labels = legacy_labelled;
  is_unstructured = refl;
  has_metadata = refl;
  has_status = refl;
  has_labels = refl;
  same_name = refl;
  same_labels = λ k. refl;
}

label_not_empty : lookup zone_label labelled ≢ some ""
unfolding lookup
label_not_empty = ground (arith, eq_iff "us-east-1a" "")

label_empty : lookup zone_label legacy_labelled ≡ some ""
unfolding lookup
label_empty = refl

legacy_label : lookup legacy_zone_label legacy_labelled ≡ some "us-east-1a"
unfolding lookup
legacy_label = refl

has_name : ◌≢◌ {A = String} "node-a" ""
has_name = ground (arith, eq_iff "node-a" "")

process-eq-store_example :
    process_node_claim flat labelled false new_node_store
    ≡ store_claims (claim_of labelled ∷ []) new_node_store
process-eq-store_example =
    process-eq-store flat labelled (claim_of labelled) labelled-Describes new_node_store
      label_not_empty

process-ne-store_example :
    (process_node_claim flat legacy_labelled false new_node_store
      ≡ add_node "node-a" "us-east-1a" new_node_store)
    × (store_claims (claim_of legacy_labelled ∷ []) new_node_store
        ≡ add_node "node-a" "" new_node_store)
process-ne-store_example =
    process-ne-store flat legacy_labelled (claim_of legacy_labelled) legacy_labelled-Describes
      new_node_store "us-east-1a" label_empty legacy_label has_name

new_node_store-IsTracking : IsTracking new_node_store
unfolding new_node_store lookup
new_node_store-IsTracking = record { valid = IsValid-new_node_store; no_empty = refl }

abbrev events : List (Dict String × Bool)
events = (labelled, false) ∷ (legacy_labelled, true) ∷ (labelled, false) ∷ []

process_events-IsTracking_example :
    IsTracking (process_events flat events new_node_store)
    × ((j : String)
        → lookup j (process_events flat events new_node_store).nodes
          ≡ last_told flat j events (lookup j new_node_store.nodes))
process_events-IsTracking_example =
    process_events-IsTracking flat events new_node_store new_node_store-IsTracking

abbrev parse : Bool → Option Event
parse true = some started_a
parse false = none

abbrev messages : List (Message Bool)
messages =
    record { receipt_handle = "r1"; body = false }
    ∷ record { receipt_handle = "r2"; body = true }
    ∷ []

abbrev nothing_polled : Polled
nothing_polled = record { started = []; deleted = [] }

-- The pod loses the leadership while it waits for a response, which then comes.
abbrev deposed : Pod Bool
deposed = record { is_leader = false; phase = receiving; polled = nothing_polled }

abbrev answered : Pod Bool
answered = record {
  is_leader = false;
  phase = checking;
  polled = process_messages parse messages nothing_polled;
}

last_response : Steps parse deposed answered
unfolding process_messages
last_response =
    step (answers messages refl (omega arith)) (
      step (skips refl refl)
        (step (starts refl refl) (step (deletes refl) (step (ends refl) stay))))

Steps-HandlesOnlyLeft_example : HandlesOnlyLeft parse deposed answered
Steps-HandlesOnlyLeft_example = Steps-HandlesOnlyLeft parse last_response refl

-- The first request fails, and every later answer has a claim that cannot be converted.
abbrev answers_at : ℕ → Option (List (Dict String))
answers_at zero = none
answers_at (suc i) = some (labelled ∷ [])

abbrev converts_nothing : Dict String → Option NodeClaim
converts_nothing obj = none

all-IsUnreadable : (i : ℕ) → i < 5 → IsUnreadable converts_nothing (answers_at i)
all-IsUnreadable zero lt = tt
all-IsUnreadable (suc i) lt = inl refl

initialize_store-unreadable_example :
    initialize_store 5 (λ i. list_node_claims converts_nothing (answers_at i)) new_node_store
    ≡ new_node_store
initialize_store-unreadable_example =
    initialize_store-unreadable converts_nothing 5 answers_at new_node_store all-IsUnreadable

store_claims-process_node_claim_example :
    (lookup "node-a" (process_node_claim flat labelled true tracked).nodes ≡ none)
    × (lookup "node-a"
          (store_claims
            (claim_of labelled ∷ [])
            (process_node_claim flat labelled true tracked)).nodes
        ≡ some (record { node_name = "node-a"; availability_zone = listed_zone labelled }))
store_claims-process_node_claim_example =
    store_claims-process_node_claim flat labelled (claim_of labelled) labelled-Describes tracked
      has_name
