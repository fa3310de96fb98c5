-- ===== src/Event.antt =====
-- The zonal shift events of app/main.go.
use sample_arc_autoshift_kar.Base.{String, ◌==◌, if◌then◌else◌}

pub record Metadata : Type 0 where
  pub away_from : String

-- The fields of the detail that the program never reads are left out.
pub record Detail : Type 0 where
  pub away_from : String
  pub metadata : Metadata

pub record Event : Type 0 where
  pub id : String
  pub detail_type : String
  pub region : String
  pub detail : Detail

-- The impaired zone's id: that of the metadata if there is one, else that of the detail.
unfoldable pub away_from : Event → String
away_from event =
    if event.detail.metadata.away_from == ""
    then event.detail.away_from
    else event.detail.metadata.away_from
