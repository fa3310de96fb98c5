-- ===== src/Leader/Bounds.antt =====
-- What a pod still does after it has lost the leadership.
use std.Path.{subst}
use mathlib.Core.List.{append-nil, append_assoc}
use sample_arc_autoshift_kar.Base.{
  ◌≤◌, false, Option, List, [], ◌∷◌, ◌++◌, length, ◌≡◌, refl, sym, ap, ◌∙◌, arith,
}
use sample_arc_autoshift_kar.Event.{Event}
use sample_arc_autoshift_kar.Handler.{Message}
use sample_arc_autoshift_kar.Handler.Delivery.{parsed_events}
use sample_arc_autoshift_kar.Leader.{
  Phase, checking, receiving, handling, deleting, Pod, max_messages, stops, waits, requests, fails,
  answers, skips, starts, deletes, ends, Steps, stay, step,
}

-- The messages that a pod in this phase may still handle, without another request.
abbrev pub IsLeft : {Body : Type 0} → Phase Body → List (Message Body) → Type 0
IsLeft checking ms = ms ≡ []
IsLeft receiving ms = length ms ≤ max_messages
IsLeft (handling left) ms = ms ≡ left
IsLeft (deleting receipt left) ms = ms ≡ left

module _ {Body : Type 0} (unmarshal : Body → Option Event) where
  -- The handlers that have started since are those of the first of the messages that were left.
  pub record HandlesOnlyLeft (p q : Pod Body) : Type 0 where
    pub handled : List (Message Body)
    pub unhandled : List (Message Body)
    pub left : IsLeft p.phase (handled ++ unhandled)
    pub started : q.polled.started ≡ p.polled.started ++ parsed_events unmarshal handled

  abbrev none_yet : (phase : Phase Body) → (ms : List (Message Body)) × IsLeft phase ms
  none_yet checking = ([], refl)
  none_yet receiving = ([], omega arith)
  none_yet (handling left) = (left, refl)
  none_yet (deleting receipt left) = (left, refl)

  -- A step that starts no handler.
  quiet :
      (p p' q : Pod Body)
      → p'.polled.started ≡ p.polled.started
      → ((ms : List (Message Body)) → IsLeft p'.phase ms → IsLeft p.phase ms)
      → HandlesOnlyLeft p' q
      → HandlesOnlyLeft p q
  quiet p p' q same less h = record {
    handled = h.handled;
    unhandled = h.unhandled;
    left = less (h.handled ++ h.unhandled) h.left;
    started = h.started ∙ ap (λ es. es ++ parsed_events unmarshal h.handled) same;
  }

  in_phase :
      (p : Pod Body) {phase : Phase Body} (ms : List (Message Body))
      → p.phase ≡ phase
      → IsLeft phase ms
      → IsLeft p.phase ms
  in_phase p ms h left = subst (λ x. IsLeft x ms) (sym h) left

  -- Once a pod has lost the leadership, and until it is elected again, it starts the handlers of no
  -- messages but those that are left: of those that it is just going through, or, if it was waiting
  -- for a response when it lost the leadership, of one response of ten messages at most. It handles
  -- them in order, each once, and leaves out those that do not parse.
  pub Steps-HandlesOnlyLeft :
      {p q : Pod Body} → Steps unmarshal p q → p.is_leader ≡ false → HandlesOnlyLeft p q
  unfolding parsed_events
  Steps-HandlesOnlyLeft (stay {p = p}) stopped =
      let (ms, left) = none_yet p.phase in
      record {
        handled = [];
        unhandled = ms;
        left = left;
        started = sym (append-nil p.polled.started);
      }
  Steps-HandlesOnlyLeft {q = q} (step {p = p} stops rest) stopped =
      quiet p (record p { is_leader = false }) q refl (λ ms left. left)
        (Steps-HandlesOnlyLeft rest refl)
  Steps-HandlesOnlyLeft (step (waits _ _) rest) stopped = Steps-HandlesOnlyLeft rest stopped
  Steps-HandlesOnlyLeft (step (requests leads _) rest) stopped = cc
  Steps-HandlesOnlyLeft {q = q} (step {p = p} (fails here) rest) stopped =
      quiet p (record p { phase = checking }) q refl
        (λ ms left. in_phase p ms here (rw (ap length left) (omega arith)))
        (Steps-HandlesOnlyLeft rest stopped)
  Steps-HandlesOnlyLeft {q = q} (step {p = p} (answers messages here few) rest) stopped =
      quiet p (record p { phase = handling messages }) q refl
        (λ ms left. in_phase p ms here (rw (ap length left) few))
        (Steps-HandlesOnlyLeft rest stopped)
  Steps-HandlesOnlyLeft {q = q} (step {p = p} (skips {m = m} {ms = ms} here bad) rest) stopped =
      let h = Steps-HandlesOnlyLeft rest stopped in
      record {
        handled = m ∷ h.handled;
        unhandled = h.unhandled;
        left = in_phase p (m ∷ h.handled ++ h.unhandled) here (ap (λ xs. m ∷ xs) h.left);
        started = rw (parsed_events, bad) h.started;
      }
  Steps-HandlesOnlyLeft {q = q}
        (step {p = p} (starts {m = m} {ms = ms} {event = event} here good) rest) stopped =
      let h = Steps-HandlesOnlyLeft rest stopped in
      record {
        handled = m ∷ h.handled;
        unhandled = h.unhandled;
        left = in_phase p (m ∷ h.handled ++ h.unhandled) here (ap (λ xs. m ∷ xs) h.left);
        started =
            rw (parsed_events, good)
              (h.started
                ∙ append_assoc p.polled.started (event ∷ []) (parsed_events unmarshal h.handled));
      }
  Steps-HandlesOnlyLeft {q = q} (step {p = p} (deletes {receipt = r} {ms = ms} here) rest) stopped =
      quiet p
        (record p {
          phase = handling ms;
          polled = record p.polled { deleted = p.polled.deleted ++ r ∷ [] };
        })
        q refl (λ xs left. in_phase p xs here left) (Steps-HandlesOnlyLeft rest stopped)
  Steps-HandlesOnlyLeft {q = q} (step {p = p} (ends here) rest) stopped =
      quiet p (record p { phase = checking }) q refl (λ ms left. in_phase p ms here left)
        (Steps-HandlesOnlyLeft rest stopped)
