-- ===== src/Tests/Writer.antt =====
-- The archive's writer on records of one device.
use iot_backend.Base.{String, true, false, List, [], ◌∷◌, none, ◌≡◌, refl, arith}
use iot_backend.Dict.{lookup, IsDict}
use iot_backend.Archive.Csv.{header, encode_row}
use iot_backend.Archive.Keys.{partition_key, object_key, slash}
use iot_backend.Archive.Writer.{Settings, World, flush_partition}
use iot_backend.Archive.Writer.Steps.{handle, begin, settle, Event, empty, run}
use iot_backend.Archive.Writer.Conservation.{tally, all_of, run-conserved}
use iot_backend.Archive.Writer.Bounds.{IsFlushed, flush_partition-IsFlushed}
use iot_backend.Archive.Writer.Fits.{IsFit, record_in, flush_all, call_all, call_all-IsFit}
use iot_backend.Tests.Archive.{out, Files, files, r5, r5-IsReadable, asked}
use iot_backend.Text.{split, trim_space}
use iot_backend.Text.Split.{join}
use iot_backend.Text.Search.{contains}
use iot_backend.Storage.Key.Plain.{IsName, any-bad_part}
use iot_backend.Storage.Memory.{Blob, memory}
use iot_backend.Archive.Merge.{flushed, merge_csv, in_query, device_set, excluded}
use iot_backend.Archive.Flushed.{flushed_key, flush_partition-merge_csv}

writers : Unit {0}
unfolding run flush_partition call_all encode_row partition_key
writers = tt

-- A cap of two rows, and no flush before the timer.
abbrev cfg : Settings
cfg = record { flush_rows = 5; max_rows = 2; new_id = λ n. "f" }

abbrev part : String
part = partition_key out r5

-- Two records come in, a flush begins, three more come in, and the flush fails.
abbrev events : List Event
events =
    handle r5 ∷ handle r5 ∷ begin part ∷ handle r5 ∷ handle r5 ∷ handle r5 ∷ settle 0 false ∷ []

-- The rows that are put back go beyond the cap; one has been dropped.
run_tests :
    (tally (λ k row. true) (run out cfg events empty).parts ≡ 4)
    × (tally (λ k row. true) (run out cfg events empty).dropped ≡ 1)
    × (tally (λ k row. true) (run out cfg events empty).stored ≡ 0)
unfolding writers
run_tests = (refl, refl, refl)

run-conserved_example :
    tally (λ k row. true) (run out cfg events empty).handled
    ≡ all_of (λ k row. true) (run out cfg events empty)
run-conserved_example = run-conserved out cfg (λ k row. true) events

abbrev world : World Files
world = record { parts = []; drawn = 0; objects = [] }

no_parts : IsFit 2 world.parts
unfolding lookup
no_parts = record { dict = tt; bounded = λ k. omega arith }

call_all-IsFit_example :
    IsFit 2
      (call_all cfg out files
        (record_in r5 ∷ record_in r5 ∷ record_in r5 ∷ flush_all ∷ record_in r5 ∷ [])
        world).parts
call_all-IsFit_example =
    call_all-IsFit cfg out files
      (record_in r5 ∷ record_in r5 ∷ record_in r5 ∷ flush_all ∷ record_in r5 ∷ []) world no_parts

abbrev full : World Files
full = record world { parts = (part, encode_row out r5 ∷ []) ∷ ("q", []) ∷ [] }

full-IsDict : IsDict full.parts
unfolding lookup partition_key
full-IsDict = (refl, (refl, tt))

flush_partition-IsFlushed_example : IsFlushed part full (flush_partition cfg out files part full)
flush_partition-IsFlushed_example = flush_partition-IsFlushed out cfg files part full full-IsDict

abbrev buffer : World Blob
buffer = record { parts = (part, encode_row out r5 ∷ []) ∷ []; drawn = 0; objects = [] }

key-IsName : IsName (flushed_key cfg out part buffer r5 [])
unfolding partition_key object_key split trim_space contains
key-IsName = record {
  trimmed = refl;
  plain = any-bad_part (split slash (flushed_key cfg out part buffer r5 [])) refl;
  no_backslash = refl;
  no_dots = refl;
}

flush_partition-merge_csv_example :
    ((flush_partition cfg out memory part buffer).0 ≡ none)
    × (merge_csv out asked memory
          (flushed_key cfg out part buffer r5 [] ∷ [])
          (flush_partition cfg out memory part buffer).1.objects
        ≡ (
          none,
          flushed (header ∷ encode_row out r5 ∷ []),
          (flush_partition cfg out memory part buffer).1.objects,
        ))
unfolding lookup partition_key encode_row join split in_query device_set excluded
flush_partition-merge_csv_example =
    flush_partition-merge_csv cfg out part buffer r5 [] asked refl key-IsName refl
      (r5-IsReadable, tt)
