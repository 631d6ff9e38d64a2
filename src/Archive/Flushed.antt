-- ===== src/Archive/Flushed.antt =====
-- The writer, an object store in memory and the merge together: internal/archive/writer.go,
-- internal/storage/memory.go and internal/archive/merge.go.
use mathlib.Core.List.{append-nil}
use iot_backend.Base.{
  String, false, List, [], ◌∷◌, none, some, if◌then◌else◌, eq_refl, map, filter, All, ◌≡◌, refl, ap,
  ◌∙◌, subst,
}
use iot_backend.Dict.{lookup, insert, lookup-insert}
use iot_backend.Telemetry.{Record}
use iot_backend.Storage.Key.Plain.{IsName, normalize_key-IsName}
use iot_backend.Storage.Memory.{Blob, memory, put, get}
use iot_backend.Archive.{Outside, Query}
use iot_backend.Archive.Keys.{object_key}
use iot_backend.Archive.Csv.{header, encode_row}
use iot_backend.Archive.Csv.Laws.{IsReadable}
use iot_backend.Archive.Merge.{in_query, flushed, merge_csv}
use iot_backend.Archive.Merge.Exact.{Holds, body_of, merge_csv-exact}
use iot_backend.Archive.Writer.{Settings, World, take, flush_partition}

module _ (cfg : Settings) (out : Outside) (part : String) (w : World Blob) (r : Record)
    (rs : List Record) where
  -- The name of the object that the flush writes.
  abbrev pub flushed_key : String
  flushed_key = object_key part (cfg.new_id w.drawn)

  flush-put :
      lookup part w.parts ≡ some (map (encode_row out) (r ∷ rs))
      → IsName flushed_key
      → ((flush_partition cfg out memory part w).0 ≡ none)
        × ((flush_partition cfg out memory part w).1.objects
            ≡ insert flushed_key (body_of out (r ∷ rs)) w.objects)
  unfolding flush_partition take put
  flush-put buffered named = rw (buffered, normalize_key-IsName flushed_key named) (refl, refl)

  put-Holds :
      (m : Blob)
      → m ≡ insert flushed_key (body_of out (r ∷ rs)) w.objects
      → IsName flushed_key
      → out.csv.read_rows (body_of out (r ∷ rs)) ≡ (header ∷ map (encode_row out) (r ∷ rs), false)
      → All (IsReadable out) (r ∷ rs)
      → Holds out memory m flushed_key (r ∷ rs)
  unfolding get
  put-Holds m e named parsed readable = record {
    got =
        let there : lookup flushed_key m ≡ some (body_of out (r ∷ rs)) =
          ap (lookup flushed_key) e
          ∙ lookup-insert flushed_key flushed_key (body_of out (r ∷ rs)) w.objects
          ∙ ap (λ b. if b then some (body_of out (r ∷ rs)) else lookup flushed_key w.objects)
              (eq_refl flushed_key) in
        rw (normalize_key-IsName flushed_key named, there) refl;
    parsed = parsed;
    readable = readable;
  }

  -- Where a partition's buffer holds the rows of some records, at least one, that can be read back,
  -- and the name of its next object is one that normalizeKey keeps: flushPartition into an object
  -- store in memory succeeds, and MergeCSV of that object then gives the rows of those records that
  -- the query asks for, in the order in which they were buffered.
  pub flush_partition-merge_csv :
      (q : Query)
      → lookup part w.parts ≡ some (map (encode_row out) (r ∷ rs))
      → IsName flushed_key
      → out.csv.read_rows (body_of out (r ∷ rs)) ≡ (header ∷ map (encode_row out) (r ∷ rs), false)
      → All (IsReadable out) (r ∷ rs)
      → ((flush_partition cfg out memory part w).0 ≡ none)
        × (merge_csv out q memory
              (flushed_key ∷ [])
              (flush_partition cfg out memory part w).1.objects
            ≡ (
              none,
              flushed (header ∷ map (encode_row out) (filter (in_query q) (r ∷ rs))),
              (flush_partition cfg out memory part w).1.objects,
            ))
  flush_partition-merge_csv q buffered named parsed readable =
      let (nil, after) = flush-put buffered named in
      let m = (flush_partition cfg out memory part w).1.objects in
      let holds = put-Holds m after named parsed readable in
      let exact = merge_csv-exact out q memory m (flushed_key ∷ []) ((r ∷ rs) ∷ []) (holds, tt) in
      (
        nil,
        subst
            (λ (all : List Record).
              merge_csv out q memory (flushed_key ∷ []) m
              ≡ (none, flushed (header ∷ map (encode_row out) (filter (in_query q) all)), m))
            (append-nil (r ∷ rs)) exact,
      )
