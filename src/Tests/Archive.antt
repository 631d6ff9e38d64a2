-- ===== src/Tests/Archive.antt =====
-- The archive and the export worker over a store of objects in memory: two organizations, one device
-- of each, and one object of each.
use text.Mathlib.TextLemmas.{nil-append}
use iot_backend.Base.{
  sym, ◌==◌, String, true, false, List, [], ◌∷◌, Option, none, some, str_eq, if◌then◌else◌, map,
  All, ◌≡◌, refl, arith,
}
use iot_backend.Models.{Uuid, Time}
use iot_backend.Text.{◌<>◌, split, trim_space}
use iot_backend.Text.Split.{join, is_free-IsFree}
use iot_backend.Dict.{lookup, insert}
use iot_backend.Telemetry.{Record}
use iot_backend.Storage.{not_found, failed, Answer, done, refused, Objects}
use iot_backend.Archive.{Outside, Query}
use iot_backend.Archive.Keys.{
  partition_key, object_key, parse_object_key, matches_query, is_date, is_hour, slash, one_line,
  not_wanted,
}
use iot_backend.Archive.Keys.Laws.{IsPrinted, parse_object_key-object_key, matches_query-object_key}
use iot_backend.Archive.Csv.{Row, header, encode_row, decode_row}
use iot_backend.Archive.Csv.Laws.{IsReadable, archived, decode_row-encode_row}
use iot_backend.Archive.Merge.{
  flushed, text_of, merge_csv, list_matching, in_query, device_set, excluded,
}
use iot_backend.Archive.Merge.Rows.{IsAsked, merge_csv-IsAsked}
use iot_backend.Archive.Merge.Exact.{Holds, body_of, merge_csv-exact}
use Prim.Native.Char.{Char}
use iot_backend.Tests.{sys}

archives : Unit {0}
unfolding partition_key object_key parse_object_key matches_query encode_row decode_row merge_csv
    list_matching in_query join
archives = tt

-- Cells between commas and rows between semicolons.
abbrev comma : Char
comma = Prim.Native.String.char_at "," 0

abbrev semicolon : Char
semicolon = Prim.Native.String.char_at ";" 0

abbrev pub out : Outside
out = record {
  sys = record sys { format_uuid = λ id. if id == 7 then "o7" else "o8" };
  formats = record {
    parse_float = λ s. some 3;
    parse_rfc3339 = λ s. none;
    parse_rfc3339_nano = λ s. if str_eq s "t5" then some 5 else some 9;
  };
  printers = record {
    format_float = λ f. "1.5";
    format_rfc3339_nano = λ t. if t == 5 then "t5" else "t9";
    format_date = λ t. "2024-01-02";
    format_hour = λ t. "03";
    parse_date_hour = λ s. if str_eq s "2024-01-02 03" then some 0 else none;
  };
  csv = record {
    print_rows = λ rows. join semicolon (map (join comma) rows);
    early_rows = λ rows. "";
    read_rows = λ s. (map (split b',') (split b';' s), false);
  };
}

-- A map of texts, where a key "bad" cannot be written.
abbrev pub Files : Type 0
Files = List (String × String)

abbrev got : Option String → Files → Answer String × Files
got none s = (refused not_found, s)
got (some body) s = (done body, s)

abbrev pub files : Objects Files
files = record {
  put = λ key body s. if str_eq key "bad" then (some failed, s) else (none, insert key body s);
  get = λ key s. got (lookup key s) s;
  list = λ prefix s. (done (map (λ p. p.0) s), s);
}

-- A reading of the device t/5 of organization 7.
abbrev pub reading : Uuid → Time → Record
reading org_id ts = record {
  organization_id = org_id;
  device_id = 0;
  device_identifier = "t/5";
  temperature = 3;
  pressure = 3;
  humidity = 3;
  ts = ts;
}

abbrev pub r5 : Record
r5 = reading 7 5

key_tests :
    (object_key (partition_key out r5) "f" ≡ "org/o7/device/t/5/date=2024-01-02/hour=03/f.csv")
    × (parse_object_key out "org/o7/device/t/5/date=2024-01-02/hour=3/f.csv" ≡ none)
    × (parse_object_key out "org/o7/x/t/5/date=2024-01-02/hour=03/f.csv" ≡ none)
unfolding archives
key_tests = (refl, refl, refl)

r5-IsPrinted : IsPrinted out r5
r5-IsPrinted = record {
  uuid_level = λ e. cc e;
  uuid_free = is_free-IsFree slash "o7" refl;
  date_free = is_free-IsFree slash "2024-01-02" refl;
  date_shape = unfold is_date in refl;
  hour_free = is_free-IsFree slash "03" refl;
  hour_shape = unfold is_hour in refl;
  read_back = refl;
}

parse_object_key-object_key_example :
    parse_object_key out (object_key (partition_key out r5) "f")
    ≡ some (record { organization_id = "o7"; device_identifier = "t/5"; hour = 0 })
parse_object_key-object_key_example =
    parse_object_key-object_key out r5 "f" r5-IsPrinted (is_free-IsFree slash "f" refl) (λ e. cc e)
      (unfold one_line in refl)

matches_query-object_key_example :
    matches_query out (object_key (partition_key out r5) "f") 7 (some ("t/5" ∷ [])) 4 6 ≡ true
matches_query-object_key_example =
    matches_query-object_key out r5 "f" (some ("t/5" ∷ [])) 4 6 r5-IsPrinted
      (is_free-IsFree slash "f" refl) (λ e. cc e) (unfold one_line in refl)
      (unfold not_wanted in refl) (omega arith) (omega arith)

readable :
    (org_id : Uuid) (ts : Time)
    → trim_space (out.sys.format_uuid org_id) ≡ out.sys.format_uuid org_id
    → out.sys.parse_uuid (out.sys.format_uuid org_id) ≡ some org_id
    → trim_space (out.printers.format_rfc3339_nano ts) ≡ out.printers.format_rfc3339_nano ts
    → out.formats.parse_rfc3339_nano (out.printers.format_rfc3339_nano ts) ≡ some ts
    → IsReadable out (reading org_id ts)
readable org_id ts id_trimmed id_read ts_trimmed ts_read = record {
  uuid_trimmed = id_trimmed;
  uuid_read = id_read;
  device_trimmed = unfold trim_space in refl;
  device_named = λ e. cc e;
  temperature_read = refl;
  pressure_read = refl;
  humidity_read = refl;
  ts_trimmed = ts_trimmed;
  ts_read = ts_read;
}

pub r5-IsReadable : IsReadable out r5
unfolding trim_space
r5-IsReadable = readable 7 5 refl refl refl refl

r9-IsReadable : IsReadable out (reading 7 9)
unfolding trim_space
r9-IsReadable = readable 7 9 refl refl refl refl

decode_row-encode_row_example : decode_row out (encode_row out r5) ≡ some (archived r5)
decode_row-encode_row_example = decode_row-encode_row out r5 r5-IsReadable

-- Two objects of organization 7: the second has a reading that is later than the query asks for.
abbrev first_rows : List Record
first_rows = r5 ∷ []

abbrev later_rows : List Record
later_rows = reading 7 9 ∷ r5 ∷ []

abbrev pub stored : Files
stored = ("k1", body_of out first_rows) ∷ ("k2", body_of out later_rows) ∷ []

abbrev pub asked : Query
asked = record { organization_id = 7; device_ids = "t/5" ∷ []; from_ts = 4; to_ts = 6 }

k1-Holds : Holds out files stored "k1" first_rows
unfolding lookup join split encode_row
k1-Holds = record { got = refl; parsed = refl; readable = (r5-IsReadable, tt) }

k2-Holds : Holds out files stored "k2" later_rows
unfolding lookup join split encode_row
k2-Holds = record { got = refl; parsed = refl; readable = (r9-IsReadable, (r5-IsReadable, tt)) }

merge_csv-exact_example :
    merge_csv out asked files ("k1" ∷ "k2" ∷ []) stored
    ≡ (none, flushed (header ∷ map (encode_row out) (r5 ∷ r5 ∷ [])), stored)
unfolding in_query device_set excluded
merge_csv-exact_example =
    merge_csv-exact out asked files stored ("k1" ∷ "k2" ∷ []) (first_rows ∷ later_rows ∷ [])
      (k1-Holds, (k2-Holds, tt))

nothing_early :
    (rows : List Row)
    → (rest : String) × (out.csv.print_rows rows ≡ out.csv.early_rows rows <> rest)
nothing_early rows = (out.csv.print_rows rows, sym (nil-append (out.csv.print_rows rows)))

merge_csv-IsAsked_example :
    (rows : List Row) × All (IsAsked out asked) rows
    × ((rest : String) × (out.csv.print_rows (header ∷ rows)
          ≡ text_of out (merge_csv out asked files ("k1" ∷ "k3" ∷ []) stored).1 <> rest))
    × ((merge_csv out asked files ("k1" ∷ "k3" ∷ []) stored).0 ≡ none
        → (merge_csv out asked files ("k1" ∷ "k3" ∷ []) stored).1 ≡ flushed (header ∷ rows))
merge_csv-IsAsked_example =
    merge_csv-IsAsked out asked files ("k1" ∷ "k3" ∷ []) stored nothing_early
