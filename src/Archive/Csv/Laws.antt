-- ===== src/Archive/Csv/Laws.antt =====
-- Rows of the archive, encoded and decoded.
use iot_backend.Base.{some, ◌≡◌, ◌≢◌}
use iot_backend.Text.{trim_space}
use iot_backend.Text.Split.{not_empty}
use iot_backend.Telemetry.{Record}
use iot_backend.Archive.{Outside}
use iot_backend.Archive.Csv.{encode_row, parse_ts, decode_row}

-- What the row of a record relies on: its texts are read back as what was printed, and neither the
-- printed identifier and instant nor the device's identifier have spaces around them.
pub record IsReadable (out : Outside) (r : Record) : Type 0 where
  pub uuid_trimmed :
      trim_space (out.sys.format_uuid r.organization_id) ≡ out.sys.format_uuid r.organization_id
  pub uuid_read :
      out.sys.parse_uuid (out.sys.format_uuid r.organization_id) ≡ some r.organization_id
  pub device_trimmed : trim_space r.device_identifier ≡ r.device_identifier
  pub device_named : r.device_identifier ≢ ""
  pub temperature_read :
      out.formats.parse_float (out.printers.format_float r.temperature) ≡ some r.temperature
  pub pressure_read :
      out.formats.parse_float (out.printers.format_float r.pressure) ≡ some r.pressure
  pub humidity_read :
      out.formats.parse_float (out.printers.format_float r.humidity) ≡ some r.humidity
  pub ts_trimmed :
      trim_space (out.printers.format_rfc3339_nano r.ts) ≡ out.printers.format_rfc3339_nano r.ts
  pub ts_read : out.formats.parse_rfc3339_nano (out.printers.format_rfc3339_nano r.ts) ≡ some r.ts

-- A record as the archive keeps it: the device's UUID is not in its row.
abbrev pub archived : Record → Record
archived r = record r { device_id = 0 }

module _ (out : Outside) (r : Record) where
  -- DecodeRow undoes EncodeRow, but for the device's UUID, which the row does not have.
  pub decode_row-encode_row :
      IsReadable out r → decode_row out (encode_row out r) ≡ some (archived r)
  unfolding decode_row encode_row parse_ts
  decode_row-encode_row h = rw (
    h.uuid_trimmed,
    h.uuid_read,
    h.device_trimmed,
    not_empty r.device_identifier h.device_named,
    h.temperature_read,
    h.pressure_read,
    h.humidity_read,
    h.ts_trimmed,
    h.ts_read,
  )
