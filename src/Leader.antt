-- ===== src/Leader.antt =====
-- The leader flag of app/main.go and the loop of `pollSQS`, which reads it only before each request.
pub mod Bounds
use sample_arc_autoshift_kar.Base.{
  ℕ, ◌≤◌, String, Bool, true, false, Option, none, some, List, [], ◌∷◌, ◌++◌, length, ◌≡◌,
}
use sample_arc_autoshift_kar.Event.{Event}
use sample_arc_autoshift_kar.Handler.{Message, Polled}

-- Where the loop stands: before the check of the flag; waiting for the answer to a request, for 20
-- seconds at most; before the next of the messages that are left; or, having started the handler of
-- a message, before the request that deletes it.
pub data Phase (Body : Type 0) : Type 0 where
  checking receiving : Phase Body
  handling : List (Message Body) → Phase Body
  deleting : String → List (Message Body) → Phase Body

pub record Pod (Body : Type 0) : Type 0 where
  pub is_leader : Bool
  pub phase : Phase Body
  pub polled : Polled

-- `MaxNumberOfMessages` of the request.
abbrev pub max_messages : ℕ
max_messages = 10

-- `OnStartedLeading` and `OnStoppedLeading` set the flag at any time.
abbrev pub started_leading : {Body : Type 0} → Pod Body → Pod Body
started_leading p = record p { is_leader = true }

abbrev pub stopped_leading : {Body : Type 0} → Pod Body → Pod Body
stopped_leading p = record p { is_leader = false }

-- `go handleEvent(event)`
abbrev pub start_handler : Event → Polled → Polled
start_handler event p = record p { started = p.started ++ event ∷ [] }

abbrev pub ask_to_delete : String → Polled → Polled
ask_to_delete receipt p = record p { deleted = p.deleted ++ receipt ∷ [] }

module _ {Body : Type 0} (unmarshal : Body → Option Event) where
  -- What a pod that is not elected again does. The flag may be lost between any two steps.
  pub data Step : Pod Body → Pod Body → Type 0 where
    stops : {p : Pod Body} → Step p (stopped_leading p)
    waits : {p : Pod Body} → p.is_leader ≡ false → p.phase ≡ checking → Step p p
    requests :
        {p : Pod Body}
        → p.is_leader ≡ true
        → p.phase ≡ checking
        → Step p (record p { phase = receiving })
    fails : {p : Pod Body} → p.phase ≡ receiving → Step p (record p { phase = checking })
    answers :
        {p : Pod Body} (messages : List (Message Body))
        → p.phase ≡ receiving
        → length messages ≤ max_messages
        → Step p (record p { phase = handling messages })
    skips :
        {p : Pod Body} {m : Message Body} {ms : List (Message Body)}
        → p.phase ≡ handling (m ∷ ms)
        → unmarshal m.body ≡ none
        → Step p (record p { phase = handling ms })
    starts :
        {p : Pod Body} {m : Message Body} {ms : List (Message Body)} {event : Event}
        → p.phase ≡ handling (m ∷ ms)
        → unmarshal m.body ≡ some event
        → Step p (record p {
          phase = deleting m.receipt_handle ms;
          polled = start_handler event p.polled;
        })
    deletes :
        {p : Pod Body} {receipt : String} {ms : List (Message Body)}
        → p.phase ≡ deleting receipt ms
        → Step p (record p { phase = handling ms; polled = ask_to_delete receipt p.polled })
    ends : {p : Pod Body} → p.phase ≡ handling [] → Step p (record p { phase = checking })

  pub data Steps : Pod Body → Pod Body → Type 0 where
    stay : {p : Pod Body} → Steps p p
    step : {p q r : Pod Body} → Step p q → Steps q r → Steps p r
