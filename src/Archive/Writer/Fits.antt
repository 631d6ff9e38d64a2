-- ===== src/Archive/Writer/Fits.antt =====
-- The buffers of the writer stay within their cap where calls do not overlap.
use iot_backend.Base.{
  ℕ, ◌≤◌, String, List, [], ◌∷◌, ◌++◌, Option, none, some, str_eq, length, map, ◌≡◌, arith,
  Bool-cases, Option-cases, inl, inr, if-keeps, ◌⊎◌,
}
use iot_backend.Dict.{lookup, lookup-insert, IsDict, IsDict-insert}
use iot_backend.Telemetry.{Record}
use iot_backend.Storage.{Error, Objects}
use iot_backend.Archive.{Outside}
use iot_backend.Archive.Keys.{partition_key}
use iot_backend.Archive.Csv.{Row, encode_row}
use iot_backend.Archive.Writer.{
  Parts, Settings, World, rows_or, capped, add, flush_partition, handle_record, flush_each, flush,
}
use iot_backend.Archive.Writer.Bounds.{length-capped, IsFlushed, flush_partition-IsFlushed}

-- Each partition has one buffer, of no more rows than the cap.
pub record IsFit (max : ℕ) (parts : Parts) : Type 0 where
  pub dict : IsDict parts
  pub bounded : (k : String) → length (rows_or (lookup k parts)) ≤ max

-- A call of HandleRecord, or the timer's Flush.
pub data Call : Type 0 where
  record_in : Record → Call
  flush_all : Call

module _ (cfg : Settings) where
  add-IsFit :
      (part : String) (row : Row) (parts : Parts)
      → IsFit cfg.max_rows parts
      → IsFit cfg.max_rows (add cfg part row parts).1
  unfolding add
  add-IsFit part row parts h =
      let rows = capped cfg.max_rows (rows_or (lookup part parts) ++ row ∷ []) in
      record {
        dict = IsDict-insert part rows parts h.dict;
        bounded = λ k. elim (Bool-cases (str_eq part k)) [
          | inl here ↦ rw (lookup-insert part k rows parts, here) (length-capped cfg.max_rows _)
          | inr there ↦ rw (lookup-insert part k rows parts, there) (h.bounded k)
        ];
      }

  module _ (out : Outside) {S : Type 0} (objects : Objects S) where
    flushed-le :
        (part : String) (w : World S) (z : Option Error × World S)
        → IsFit cfg.max_rows w.parts
        → IsFlushed part w z
        → (k : String) → (z.0 ≡ none) ⊎ ((e : Error) × (z.0 ≡ some e))
        → length (rows_or (lookup k z.1.parts)) ≤ cfg.max_rows
    flushed-le part w z h f k (inr (e, failed)) = rw (f.kept e failed k) (h.bounded k)
    flushed-le part w z h f k (inl stored) = rw (f.emptied stored k) (
        if-keeps (λ (rows : List Row). length rows ≤ cfg.max_rows) (str_eq part k) _ _
          (λ _. omega arith) (λ _. h.bounded k))

    flush_partition-IsFit :
        (part : String) (w : World S)
        → IsFit cfg.max_rows w.parts
        → IsFit cfg.max_rows (flush_partition cfg out objects part w).1.parts
    flush_partition-IsFit part w h =
        let f = flush_partition-IsFlushed out cfg objects part w h.dict in
        record { dict = f.dict; bounded = λ k. flushed-le part w _ h f k (Option-cases _) }

    handle_record-IsFit :
        (r : Record) (w : World S)
        → IsFit cfg.max_rows w.parts
        → IsFit cfg.max_rows (handle_record cfg out objects r w).1.parts
    unfolding handle_record
    handle_record-IsFit r w h =
        let part = partition_key out r in
        let added = add cfg part (encode_row out r) w.parts in
        let w1 = record w { parts = added.1 } in
        let h1 = add-IsFit part (encode_row out r) w.parts h in
        if-keeps (λ (z : Option Error × World S). IsFit cfg.max_rows z.1.parts) added.0 _ _
          (λ _. flush_partition-IsFit part w1 h1) (λ _. h1)

    flush_each-IsFit :
        (ks : List String) (w : World S)
        → IsFit cfg.max_rows w.parts
        → IsFit cfg.max_rows (flush_each cfg out objects ks w).1.parts
    unfolding flush_each
    flush_each-IsFit [] w h = h
    flush_each-IsFit (k ∷ ks) w h =
        flush_each-IsFit ks (flush_partition cfg out objects k w).1 (flush_partition-IsFit k w h)

    -- One call, and many, each after the one before has returned.
    unfoldable pub call : Call → World S → World S
    unfolding handle_record flush
    call (record_in r) w = (handle_record cfg out objects r w).1
    call flush_all w = (flush cfg out objects w).1

    unfoldable pub call_all : List Call → World S → World S
    unfolding call
    call_all [] w = w
    call_all (c ∷ cs) w = call_all cs (call c w)

    -- Calls of HandleRecord and Flush that do not overlap keep every buffer within the cap of rows,
    -- whichever puts fail.
    pub call_all-IsFit :
        (cs : List Call) (w : World S)
        → IsFit cfg.max_rows w.parts
        → IsFit cfg.max_rows (call_all cs w).parts
    unfolding call_all flush
    call_all-IsFit [] w h = h
    call_all-IsFit (record_in r ∷ cs) w h =
        call_all-IsFit cs (call (record_in r) w) (handle_record-IsFit r w h)
    call_all-IsFit (flush_all ∷ cs) w h =
        call_all-IsFit cs (call flush_all w) (flush_each-IsFit (map (λ p. p.0) w.parts) w h)
