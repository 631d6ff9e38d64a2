-- ===== src/Archive/Merge/Exact.antt =====
-- MergeCSV of objects that the archive has written.
use iot_backend.Base.{
  String, false, List, [], ◌∷◌, ◌++◌, Option, none, All, map, filter, filter-append, ◌≡◌, refl, sym,
  ap, Bool-cases, inl, inr,
}
use mathlib.Core.List.{map-append}
use iot_backend.Text.{trim_space}
use iot_backend.Telemetry.{Record}
use iot_backend.Storage.{Error, done, Objects}
use iot_backend.Archive.{Outside, Query}
use iot_backend.Archive.Csv.{Row, header, is_header, encode_row}
use iot_backend.Archive.Csv.Laws.{IsReadable, decode_row-encode_row}
use iot_backend.Archive.Merge.{
  in_query, skip_header, append_rows, append_object, merge_objects, merge_csv, flushed,
}

abbrev pub concat {ℓ} : {A : Type ℓ} → List (List A) → List A
concat [] = []
concat (xs ∷ xss) = xs ++ concat xss

module _ (out : Outside) where
  -- The text of an object of the archive.
  abbrev pub body_of : List Record → String
  body_of rs = out.csv.print_rows (header ∷ map (encode_row out) rs)

  module _ {S : Type 0} (objects : Objects S) (s : S) where
    -- The object holds the records: it is read without a change of the store, and encoding/csv
    -- reads back the rows that it has printed.
    pub record Holds (key : String) (rs : List Record) : Type 0 where
      pub got : objects.get key s ≡ (done (body_of rs), s)
      pub parsed : out.csv.read_rows (body_of rs) ≡ (header ∷ map (encode_row out) rs, false)
      pub readable : All (IsReadable out) rs

    -- The objects that some keys name, with the records of each.
    abbrev pub AllHold : List String → List (List Record) → Type 0
    AllHold [] [] = Unit
    AllHold (key ∷ keys) (rs ∷ rss) = Holds key rs × AllHold keys rss
    AllHold _ _ = ⊥

module _ (out : Outside) (q : Query) where
  append_rows-encode_row :
      (rs : List Record)
      → All (IsReadable out) rs
      → append_rows out q (map (encode_row out) rs) ≡ map (encode_row out) (filter (in_query q) rs)
  unfolding append_rows in_query encode_row
  append_rows-encode_row [] h = refl
  append_rows-encode_row (r ∷ rs) (h, hs) = elim (Bool-cases (in_query q r)) [
    | inl asked ↦ rw (decode_row-encode_row out r h, asked, append_rows-encode_row rs hs)
    | inr other ↦ rw (decode_row-encode_row out r h, other, append_rows-encode_row rs hs)
  ]

  module _ {S : Type 0} (objects : Objects S) (s : S) where
    append_object-rows :
        (key : String) (rs : List Record)
        → Holds out objects s key rs
        → append_object out q objects key s
          ≡ (none, map (encode_row out) (filter (in_query q) rs), s)
    unfolding append_object skip_header is_header trim_space
    append_object-rows key rs h = rw (h.got, h.parsed, append_rows-encode_row rs h.readable)

    abbrev the_rows : List Row → Option Error × List Row × S
    the_rows rows = (none, rows, s)

    merge_objects-rows :
        (keys : List String) (rss : List (List Record))
        → AllHold out objects s keys rss
        → merge_objects out q objects keys s
          ≡ (none, map (encode_row out) (filter (in_query q) (concat rss)), s)
    unfolding merge_objects
    merge_objects-rows [] [] h = refl
    merge_objects-rows (key ∷ keys) (rs ∷ rss) (h, hs) =
        rw
          (
            append_object-rows key rs h,
            merge_objects-rows keys rss hs,
            filter-append (in_query q) rs (concat rss),
          )
          (ap (λ (rows : List Row). the_rows rows)
            (sym (
              map-append (encode_row out) (filter (in_query q) rs)
                (filter (in_query q) (concat rss)))))
    merge_objects-rows [] (rs ∷ rss) h = absurd h
    merge_objects-rows (key ∷ keys) [] h = absurd h

    -- Where the keys name objects that the archive has written, MergeCSV succeeds, and writes and
    -- flushes the header and then the row of every record that the query asks for, in the order of the keys and
    -- of each object, and no other row.
    pub merge_csv-exact :
        (keys : List String) (rss : List (List Record))
        → AllHold out objects s keys rss
        → merge_csv out q objects keys s
          ≡ (none, flushed (header ∷ map (encode_row out) (filter (in_query q) (concat rss))), s)
    unfolding merge_csv
    merge_csv-exact keys rss h = rw (merge_objects-rows keys rss h)
