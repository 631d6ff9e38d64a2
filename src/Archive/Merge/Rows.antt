-- ===== src/Archive/Merge/Rows.antt =====
-- Every row that MergeCSV writes is of the query.
use iot_backend.Base.{
  String, Bool, true, false, List, [], ◌∷◌, Option, none, some, ◌≤◌, All, All-append, ◌≡◌, inl, inr,
  refl, sym, arith, Bool-cases, Option-cases,
}
use text.Mathlib.TextLemmas.{append-nil}
use iot_backend.Text.{◌<>◌}
use iot_backend.Telemetry.{Record}
use iot_backend.Storage.{Error, Answer, done, refused, Objects}
use iot_backend.Archive.{Outside, Query}
use iot_backend.Archive.Csv.{Row, header, encode_row, decode_row}
use iot_backend.Archive.Merge.{
  in_query, excluded, device_set, appended, skip_header, append_rows, append_object, append_read,
  Written, flushed, buffered, text_of, at_end, next_object, merge_objects, merge_csv,
}

-- A record that the query asks for: of its organization, in its range, and of its devices where it
-- names any.
abbrev pub IsOf : Query → Record → Type 0
IsOf q r =
    (r.organization_id ≡ q.organization_id)
    × (q.from_ts ≤ r.ts)
    × (r.ts ≤ q.to_ts)
    × (excluded (device_set q.device_ids) r.device_identifier ≡ false)

in_query-IsOf : (q : Query) (r : Record) → in_query q r ≡ true → IsOf q r
unfolding in_query
in_query-IsOf q r h = ground arith

module _ (out : Outside) (q : Query) where
  -- The row of a record that the query asks for.
  abbrev pub IsAsked : Row → Type 0
  IsAsked row = (r : Record) × (row ≡ encode_row out r) × IsOf q r

  append_rows-IsAsked : (rows : List Row) → All IsAsked (append_rows out q rows)
  unfolding append_rows
  append_rows-IsAsked [] = tt
  append_rows-IsAsked (row ∷ rows) = elim (Option-cases (decode_row out row)) [
    | inl bad ↦ rw bad (append_rows-IsAsked rows)
    | inr (r, read) ↦ elim (Bool-cases (in_query q r)) [
      | inl asked ↦ rw (read, asked) ((r, refl, in_query-IsOf q r asked), append_rows-IsAsked rows)
      | inr other ↦ rw (read, other) (append_rows-IsAsked rows)
    ]
  ]

  module _ {S : Type 0} (objects : Objects S) where
    append_read-IsAsked : (a : Answer String × S) → All IsAsked (append_read out q objects a).1
    append_read-IsAsked (refused e, s) = tt
    append_read-IsAsked (done body, s) = at_read (out.csv.read_rows body)
      where
        at_read : (r : List Row × Bool) → All IsAsked (appended out q r).1
        at_read (rows, true) = append_rows-IsAsked (skip_header rows)
        at_read (rows, false) = append_rows-IsAsked (skip_header rows)

    next_object-IsAsked :
        (a : Option Error × List Row × S) (rest : S → Option Error × List Row × S)
        → All IsAsked a.1
        → ((s : S) → All IsAsked (rest s).1)
        → All IsAsked (next_object out q objects a rest).1
    next_object-IsAsked (some e, rows, s) rest h k = h
    next_object-IsAsked (none, rows, s) rest h k = All-append IsAsked rows (rest s).1 h (k s)

    merge_objects-IsAsked :
        (keys : List String) (s : S) → All IsAsked (merge_objects out q objects keys s).1
    unfolding merge_objects append_object
    merge_objects-IsAsked [] s = tt
    merge_objects-IsAsked (key ∷ keys) s =
        next_object-IsAsked (append_object out q objects key s) (merge_objects out q objects keys)
          (append_read-IsAsked (objects.get key s)) (merge_objects-IsAsked keys)

    -- What MergeCSV has given to the csv.Writer: the header, and rows of the query.
    pub record IsMerged (r : Option Error × Written × S) : Type 0 where
      pub rows : List Row
      pub asked : All IsAsked rows
      pub whole : r.0 ≡ none → r.1 ≡ flushed (header ∷ rows)
      pub partial : (e : Error) → r.0 ≡ some e → r.1 ≡ buffered (header ∷ rows)

    at_end-IsMerged :
        (r : Option Error × List Row × S) → All IsAsked r.1 → IsMerged (at_end out q objects r)
    at_end-IsMerged (none, all, s) h = record {
      rows = all;
      asked = h;
      whole = λ _. refl;
      partial = λ e f. cc f;
    }
    at_end-IsMerged (some e, all, s) h = record {
      rows = all;
      asked = h;
      whole = λ f. cc f;
      partial = λ e _. refl;
    }

    pub merge_csv-IsMerged :
        (keys : List String) (s : S) → IsMerged (merge_csv out q objects keys s)
    unfolding merge_csv
    merge_csv-IsMerged keys s =
        at_end-IsMerged (merge_objects out q objects keys s) (merge_objects-IsAsked keys s)

    -- Where a csv.Writer that is not flushed has passed on the front of the text of its rows: whatever
    -- the objects hold and whichever reads fail, what MergeCSV has written is the front of a CSV of the
    -- header and of rows of records of the query's organization, of its devices and in its range, and is
    -- the whole of that CSV where MergeCSV answers nil.
    pub merge_csv-IsAsked :
        (keys : List String) (s : S)
        → ((rows : List Row)
            → (rest : String) × (out.csv.print_rows rows ≡ out.csv.early_rows rows <> rest))
        → (rows : List Row) × All IsAsked rows
          × ((rest : String) × (out.csv.print_rows (header ∷ rows)
                ≡ text_of out (merge_csv out q objects keys s).1 <> rest))
          × ((merge_csv out q objects keys s).0 ≡ none
              → (merge_csv out q objects keys s).1 ≡ flushed (header ∷ rows))
    merge_csv-IsAsked keys s front =
        let h = merge_csv-IsMerged keys s in
        let rows = h.rows in
        (
          rows,
          h.asked,
          elim (Option-cases (merge_csv out q objects keys s).0) [
            | inl nil ↦
                ("", rw (h.whole nil) (sym (append-nil (out.csv.print_rows (header ∷ rows)))))
            | inr (e, err) ↦ rw (h.partial e err) (front (header ∷ rows))
          ],
          h.whole,
        )
