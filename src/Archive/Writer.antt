-- ===== src/Archive/Writer.antt =====
-- internal/archive/writer.go: records buffered by partition and flushed as CSV objects. Each part of
-- a method that holds the mutex is one function: `add`, `take`, `requeue`. `flush_rows` and
-- `max_rows` are positive, as NewWriter makes them; the objects are there, not nil.
pub mod Steps
pub mod Conservation
pub mod Bounds
pub mod Fits
use iot_backend.Base.{
  ℕ, ◌+◌, ◌-◌, String, Bool, true, false, List, [], ◌∷◌, ◌++◌, Option, none, some, leb, ltb,
  if◌then◌else◌, length, map, ℤ, positive_or, zero, suc,
}
use iot_backend.Dict.{lookup, insert, remove}
use iot_backend.Telemetry.{Record}
use iot_backend.Storage.{Error, Objects}
use iot_backend.Archive.{Outside}
use iot_backend.Archive.Keys.{partition_key, object_key}
use iot_backend.Archive.Csv.{Row, header, encode_row}

-- The map `parts`: the rows of each partition.
abbrev pub Parts : Type 0
Parts = List (String × List Row)

-- The settings of a Writer, and its source of file names: the n-th one drawn.
pub record Settings : Type 0 where
  pub flush_rows : ℕ
  pub max_rows : ℕ
  pub new_id : ℕ → String

-- NewWriter on WriterOptions.
unfoldable pub new_settings : ℤ → ℤ → (ℕ → String) → Settings
new_settings flush_rows max_rows new_id = record {
  flush_rows = positive_or 100 flush_rows;
  max_rows = positive_or 10000 max_rows;
  new_id = new_id;
}

abbrev pub drop {ℓ} : {A : Type ℓ} → ℕ → List A → List A
drop zero xs = xs
drop (suc n) [] = []
drop (suc n) (x ∷ xs) = drop n xs

abbrev pub rows_or : Option (List Row) → List Row
rows_or none = []
rows_or (some rows) = rows

-- `if len(buf.rows) > w.maxRows`: the oldest rows go.
unfoldable pub capped : ℕ → List Row → List Row
capped max rows = if ltb max (length rows) then drop (length rows - max) rows else rows

-- flushPartition, while it holds the mutex: the rows that it takes, if any.
abbrev pub taken : String → Option (List Row) → Parts → Option (List Row) × Parts
taken part none parts = (none, parts)
taken part (some []) parts = (none, parts)
taken part (some (row ∷ rows)) parts = (some (row ∷ rows), remove part parts)

unfoldable pub take : String → Parts → Option (List Row) × Parts
unfolding lookup remove
take part parts = taken part (lookup part parts) parts

-- requeue: the rows go back in front of those that have come since.
unfoldable pub requeue : String → List Row → Parts → Parts
unfolding lookup insert
requeue part rows parts = insert part (rows ++ rows_or (lookup part parts)) parts

-- The state of a Writer, with its object store and the number of file names drawn.
pub record World (S : Type 0) : Type 0 where
  pub parts : Parts
  pub drawn : ℕ
  pub objects : S

module _ (cfg : Settings) where
  -- HandleRecord, while it holds the mutex: the buffers, and whether to flush the partition.
  unfoldable pub add : String → Row → Parts → Bool × Parts
  unfolding lookup insert capped
  add part row parts =
      let rows = capped cfg.max_rows (rows_or (lookup part parts) ++ row ∷ []) in
      (leb cfg.flush_rows (length rows), insert part rows parts)

  module _ (out : Outside) {S : Type 0} (objects : Objects S) where
    abbrev pub body_of : List Row → String
    body_of rows = out.csv.print_rows (header ∷ rows)

    abbrev pub put_result :
        String → List Row → Parts → ℕ → Option Error × S → Option Error × World S
    put_result part rows parts drawn (none, s) =
        (none, record { parts = parts; drawn = drawn; objects = s })
    put_result part rows parts drawn (some e, s) =
        (some e, record { parts = requeue part rows parts; drawn = drawn; objects = s })

    abbrev pub flush_taken : String → Option (List Row) × Parts → World S → Option Error × World S
    flush_taken part (none, parts) w = (none, w)
    flush_taken part (some rows, parts) w =
        put_result part rows parts (w.drawn + 1)
          (objects.put (object_key part (cfg.new_id w.drawn)) (body_of rows) w.objects)

    -- flushPartition; WriteCSV to memory does not fail.
    unfoldable pub flush_partition : String → World S → Option Error × World S
    unfolding take requeue object_key
    flush_partition part w = flush_taken part (take part w.parts) w

    -- HandleRecord.
    unfoldable pub handle_record : Record → World S → Option Error × World S
    unfolding add flush_partition partition_key encode_row
    handle_record r w =
        let part = partition_key out r in
        let (full, parts) = add part (encode_row out r) w.parts in
        let w1 = record w { parts = parts } in if full then flush_partition part w1 else (none, w1)

    abbrev pub first_error : Option Error → Option Error → Option Error
    first_error none later = later
    first_error (some e) later = some e

    -- The loop of Flush over the partitions that it has listed.
    unfoldable pub flush_each : List String → World S → Option Error × World S
    unfolding flush_partition
    flush_each [] w = (none, w)
    flush_each (part ∷ rest) w =
        let (e, w1) = flush_partition part w in
        let (later, w2) = flush_each rest w1 in (first_error e later, w2)

    -- Flush.
    unfoldable pub flush : World S → Option Error × World S
    unfolding flush_each
    flush w = flush_each (map (λ p. p.0) w.parts) w
