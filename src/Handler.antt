-- ===== src/Handler.antt =====
-- `handleEvent` and the body of `pollSQS` of app/main.go, and the rule of event_rule_stack.py that
-- routes events to the queue.
pub mod Dispatch
pub mod Delivery
use sample_arc_autoshift_kar.Base.{
  String, Bool, true, false, Option, none, some, List, [], ◌∷◌, ◌++◌, ◌==◌, if◌then◌else◌,
}
use sample_arc_autoshift_kar.Event.{Event}

-- `update` and `restore` are what `updateKarpenterNodePool` and `restoreKarpenterNodePool` do.
unfoldable pub handle_event : {S : Type 0} → (Event → S → S) → (Event → S → S) → Event → S → S
handle_event update restore event s =
    let t = event.detail_type in
    if "Autoshift In Progress" == t
    then update event s
    else if "FIS Experiment Autoshift In Progress" == t
    then update event s
    else if "Practice Run Started" == t
    then update event s
    else if "Autoshift Completed" == t
    then restore event s
    else if "FIS Experiment Autoshift Canceled" == t
    then restore event s
    else if "FIS Experiment Autoshift Completed" == t
    then restore event s
    else if "Practice Run Succeeded" == t
    then restore event s
    else if "Practice Run Interrupted" == t
    then restore event s
    else if "Practice Run Failed" == t
    then restore event s
    else s

-- The detail types of the EventBridge rule.
abbrev pub routed_types : List String
routed_types =
    "Autoshift In Progress" ∷ "FIS Experiment Autoshift In Progress" ∷ "Autoshift Completed"
    ∷ "FIS Experiment Autoshift Canceled" ∷ "FIS Experiment Autoshift Completed"
    ∷ "Practice Run Started" ∷ "Practice Run Succeeded" ∷ "Practice Run Interrupted"
    ∷ "Practice Run Failed" ∷ []

-- A message of the queue. `Body` stands for the texts of message bodies.
pub record Message (Body : Type 0) : Type 0 where
  pub receipt_handle : String
  pub body : Body

-- What a poll has done: the events for which it has started a goroutine of `handleEvent`, and the
-- receipts of the messages that it has asked SQS to delete, each in order.
pub record Polled : Type 0 where
  pub started : List Event
  pub deleted : List String

module _ {Body : Type 0} (unmarshal : Body → Option Event) where
  -- The loop over the messages of one response. A body that does not parse is skipped, and its
  -- message stays in the queue.
  unfoldable pub process_messages : List (Message Body) → Polled → Polled
  process_messages [] p = p
  process_messages (message ∷ messages) p =
      process_messages messages (elim (unmarshal message.body) [
        | none ↦ p
        | some event ↦ record {
          started = p.started ++ event ∷ [];
          deleted = p.deleted ++ message.receipt_handle ∷ [];
        }
      ])

  -- One round of the loop of `pollSQS`; `received` is `none` where `ReceiveMessage` fails.
  unfoldable pub poll_round : Bool → Option (List (Message Body)) → Polled → Polled
  unfolding process_messages
  poll_round is_leader received p =
      if is_leader
      then (elim received [ none ↦ p | some messages ↦ process_messages messages p ])
      else p
