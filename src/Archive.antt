-- ===== src/Archive.antt =====
-- internal/archive: telemetry records kept as CSV objects, by organization, device and hour. The
-- formats of strconv and of the time package, and encoding/csv, are parameters.
pub mod Keys
pub mod Csv
pub mod Merge
pub mod Writer
pub mod Flushed
use iot_backend.Base.{String, Bool, List, Option}
use iot_backend.Models.{Uuid, Time, Float}
use iot_backend.Auth.{Platform}
use iot_backend.Telemetry.{Formats}

-- strconv.FormatFloat(f, 'f', -1, 64); Time.Format with the layouts RFC3339Nano, "2006-01-02" and
-- "15"; and time.Parse with the layout "2006-01-02 15".
pub record Printers : Type 0 where
  pub format_float : Float → String
  pub format_rfc3339_nano : Time → String
  pub format_date : Time → String
  pub format_hour : Time → String
  pub parse_date_hour : String → Option Time

-- encoding/csv: the text of some rows, which a Writer has passed on to its destination once it is
-- flushed; what it has passed on of that text before; and the rows that a Reader gives, with whether
-- it ends with an error.
pub record CsvFormat : Type 0 where
  pub print_rows : List (List String) → String
  pub early_rows : List (List String) → String
  pub read_rows : String → List (List String) × Bool

-- What the archive calls outside the repository.
pub record Outside : Type 0 where
  pub sys : Platform
  pub formats : Formats
  pub printers : Printers
  pub csv : CsvFormat

-- Query.
pub record Query : Type 0 where
  pub organization_id : Uuid
  pub device_ids : List String
  pub from_ts : Time
  pub to_ts : Time
