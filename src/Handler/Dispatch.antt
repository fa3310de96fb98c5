-- ===== src/Handler/Dispatch.antt =====
-- Which events start a shift and which end one.
use sample_arc_autoshift_kar.Base.{String, List, [], ◌∷◌, if◌then◌else◌, ◌≡◌, contains, arith}
use sample_arc_autoshift_kar.Event.{Event}
use sample_arc_autoshift_kar.Handler.{handle_event, routed_types}

abbrev pub start_types : List String
start_types =
    "Autoshift In Progress" ∷ "FIS Experiment Autoshift In Progress" ∷ "Practice Run Started" ∷ []

-- The handler acts exactly on the events that the rule routes to the queue: of those, it updates the
-- pools for one that announces the start of a shift and restores them for any other. An event that
-- is not routed changes nothing.
pub handle_event-routed_types :
    {S : Type 0} (update restore : Event → S → S) (event : Event) (s : S)
    → handle_event update restore event s ≡ (
        if contains event.detail_type routed_types
        then (if contains event.detail_type start_types then update event s else restore event s)
        else s)
unfolding handle_event contains
handle_event-routed_types update restore event s = ground arith
