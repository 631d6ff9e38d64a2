-- ===== src/Archive/Merge.antt =====
-- internal/archive/merge.go: one CSV of the rows that a query asks for. The context is never
-- cancelled, and writing rows to the destination does not fail.
pub mod Rows
pub mod Exact
use Prim.Native.String.{compare}
use Prim.Native.Nat.{Ordering}
use iot_backend.Base.{
  String, Bool, true, false, List, [], ◌∷◌, ◌++◌, Option, none, some, ◌||◌, ◌&&◌, not, ◌==◌, ltb,
  str_eq, if◌then◌else◌, any, filter,
}
use iot_backend.Models.{Uuid, Time}
use iot_backend.Repository.{order_by}
use iot_backend.Telemetry.{Record}
use iot_backend.Storage.{Error, failed, Answer, done, refused, Objects}
use iot_backend.Archive.{Outside, Query}
use iot_backend.Archive.Keys.{org_prefix, matches_query}
use iot_backend.Archive.Csv.{Row, header, is_header, encode_row, decode_row}

abbrev str_le : String → String → Bool
str_le a b = elim (compare a b) [ Ordering.gt ↦ false | _ ↦ true ]

-- deviceSet; `none` is the nil map.
unfoldable pub device_set : List String → Option (List String)
device_set [] = none
device_set (i ∷ is) = some (filter (λ j. not (str_eq j "")) (i ∷ is))

-- `want != nil` and the device is not in it.
unfoldable pub excluded : Option (List String) → String → Bool
excluded none identifier = false
excluded (some is) identifier = not (any (λ j. str_eq j identifier) is)

-- The tests of appendObject on a record.
unfoldable pub in_query : Query → Record → Bool
unfolding device_set excluded
in_query q r =
    if not (r.organization_id == q.organization_id)
    then false
    else if excluded (device_set q.device_ids) r.device_identifier
    then false
    else if ltb r.ts q.from_ts || ltb q.to_ts r.ts
    then false
    else true

-- `first && IsHeader(row)`.
unfoldable pub skip_header : List Row → List Row
unfolding is_header
skip_header [] = []
skip_header (row ∷ rows) = if is_header row then rows else row ∷ rows

-- The rows that the csv.Writer has been given, and whether it has been flushed: after an error it is
-- not, and the destination has only what the Writer has passed on by itself.
pub data Written : Type 0 where
  flushed : List Row → Written
  buffered : List Row → Written

-- The text that the destination has been given.
abbrev pub text_of : Outside → Written → String
text_of out (flushed rows) = out.csv.print_rows rows
text_of out (buffered rows) = out.csv.early_rows rows

module _ (out : Outside) (q : Query) where
  abbrev pub row_of : Option Record → List Row → List Row
  row_of none rest = rest
  row_of (some r) rest = if in_query q r then encode_row out r ∷ rest else rest

  -- The loop of appendObject, after the header.
  unfoldable pub append_rows : List Row → List Row
  unfolding in_query encode_row decode_row
  append_rows [] = []
  append_rows (row ∷ rows) = row_of (decode_row out row) (append_rows rows)

  abbrev pub appended : List Row × Bool → Option Error × List Row
  appended (rows, true) = (some failed, append_rows (skip_header rows))
  appended (rows, false) = (none, append_rows (skip_header rows))

  module _ {S : Type 0} (objects : Objects S) where
    abbrev pub append_read : Answer String × S → Option Error × List Row × S
    append_read (refused e, s) = (some e, [], s)
    append_read (done body, s) = let (e, rows) = appended (out.csv.read_rows body) in (e, rows, s)

    -- appendObject: its error, and the rows that it has given to the csv.Writer.
    unfoldable pub append_object : String → S → Option Error × List Row × S
    unfolding append_rows skip_header
    append_object key s = append_read (objects.get key s)

    abbrev pub next_object :
        Option Error × List Row × S
        → (S → Option Error × List Row × S)
        → Option Error × List Row × S
    next_object (some e, rows, s) rest = (some e, rows, s)
    next_object (none, rows, s) rest = let (e, more, s') = rest s in (e, rows ++ more, s')

    -- The loop of MergeCSV.
    unfoldable pub merge_objects : List String → S → Option Error × List Row × S
    unfolding append_object
    merge_objects [] s = (none, [], s)
    merge_objects (key ∷ keys) s = next_object (append_object key s) (merge_objects keys)

    -- The end of MergeCSV: an error returns before the flush.
    abbrev pub at_end : Option Error × List Row × S → Option Error × Written × S
    at_end (some e, rows, s) = (some e, buffered (header ∷ rows), s)
    at_end (none, rows, s) = (none, flushed (header ∷ rows), s)

    -- MergeCSV: its error, and what it has written.
    unfoldable pub merge_csv : List String → S → Option Error × Written × S
    unfolding merge_objects
    merge_csv keys s = at_end (merge_objects keys s)

    abbrev pub matching : Answer (List String) × S → Answer (List String) × S
    matching (refused e, s) = (refused e, s)
    matching (done keys, s) = (
      done (
          order_by str_le (
            filter
              (λ key.
                matches_query out key q.organization_id (device_set q.device_ids) q.from_ts q.to_ts)
              keys)),
      s,
    )

    -- ListMatching.
    unfoldable pub list_matching : S → Answer (List String) × S
    unfolding matches_query device_set org_prefix
    list_matching s = matching (objects.list (org_prefix out q.organization_id) s)
