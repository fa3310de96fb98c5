-- ===== src/Handler/Delivery.antt =====
-- What becomes of the messages of a poll.
use mathlib.Core.List.{append-nil, append_assoc}
use sample_arc_autoshift_kar.Base.{
  String, Bool, true, false, Option, none, some, List, [], ◌∷◌, ◌++◌, if◌then◌else◌, ◌≡◌, refl,
  arith, Option-cases, inl, inr,
}
use sample_arc_autoshift_kar.Event.{Event}
use sample_arc_autoshift_kar.Handler.{Message, Polled, process_messages, poll_round}

module _ {Body : Type 0} (unmarshal : Body → Option Event) where
  -- The events of the messages that parse, and the receipts of those messages.
  unfoldable pub parsed_events : List (Message Body) → List Event
  parsed_events [] = []
  parsed_events (m ∷ ms) = elim (unmarshal m.body) [
    | none ↦ parsed_events ms
    | some e ↦ e ∷ parsed_events ms
  ]

  unfoldable pub parsed_receipts : List (Message Body) → List String
  parsed_receipts [] = []
  parsed_receipts (m ∷ ms) = elim (unmarshal m.body) [
    | none ↦ parsed_receipts ms
    | some e ↦ m.receipt_handle ∷ parsed_receipts ms
  ]

  process_messages_lem :
      (ms : List (Message Body)) (p : Polled)
      → process_messages unmarshal ms p ≡ record {
        started = p.started ++ parsed_events ms;
        deleted = p.deleted ++ parsed_receipts ms;
      }
  unfolding process_messages parsed_events parsed_receipts
  process_messages_lem [] p = rw (append-nil p.started, append-nil p.deleted)
  process_messages_lem (m ∷ ms) p = elim (Option-cases (unmarshal m.body)) [
    | inl e ↦ ground (arith, e, process_messages_lem ms p)
    | inr (v, e) ↦
        let q : Polled = record {
          started = p.started ++ v ∷ [];
          deleted = p.deleted ++ m.receipt_handle ∷ [];
        } in
        ground (
          arith,
          e,
          process_messages_lem ms q,
          append_assoc p.started (v ∷ []) (parsed_events ms),
          append_assoc p.deleted (m.receipt_handle ∷ []) (parsed_receipts ms),
        )
  ]

  -- In a round in which the pod leads and messages are received, every message that parses has its
  -- event handled once and is deleted, and one that does not parse is neither handled nor deleted.
  -- In any other round nothing is handled and nothing is deleted.
  pub poll_round_lem :
      (is_leader : Bool) (received : Option (List (Message Body))) (p : Polled)
      → poll_round unmarshal is_leader received p ≡ (
          if is_leader
          then (elim received [
            | none ↦ p
            | some ms ↦ record {
              started = p.started ++ parsed_events ms;
              deleted = p.deleted ++ parsed_receipts ms;
            }
          ])
          else p)
  unfolding poll_round
  poll_round_lem false received p = refl
  poll_round_lem true none p = refl
  poll_round_lem true (some ms) p = process_messages_lem ms p
