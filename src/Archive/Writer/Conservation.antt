-- ===== src/Archive/Writer/Conservation.antt =====
-- No row of the archive is lost, doubled or moved to another partition, but for those that the cap
-- of a buffer drops.
use iot_backend.Base.{
  ℕ, zero, suc, ◌+◌, ◌-◌, String, Bool, true, false, List, [], ◌∷◌, ◌++◌, some, ltb, str_eq, eq_iff,
  length, count, count-append, ◌≡◌, refl, arith, Bool-cases, Option-cases, inl, inr,
}
use iot_backend.Dict.{lookup, insert, remove}
use iot_backend.Archive.{Outside}
use iot_backend.Archive.Keys.{partition_key}
use iot_backend.Archive.Csv.{Row, encode_row}
use iot_backend.Archive.Writer.{Parts, Settings, drop, rows_or, capped, add, taken, take, requeue}
use iot_backend.Archive.Writer.Steps.{
  Event, handle, begin, settle, Machine, empty, front, cut_off, pick, begun, settled, step, run,
}

module _ (p : String → Row → Bool) where
  -- How many rows, with their partitions, pass a test.
  abbrev pub tally : Parts → ℕ
  tally [] = 0
  tally ((part, rows) ∷ parts) = count (p part) rows + tally parts

  tally-insert :
      (part : String) (rows : List Row) (parts : Parts)
      → tally (insert part rows parts) + count (p part) (rows_or (lookup part parts))
        ≡ tally parts + count (p part) rows
  unfolding insert lookup
  tally-insert part rows [] = omega arith
  tally-insert part rows ((q, old) ∷ parts) = elim (Bool-cases (str_eq q part)) [
    | inl here ↦ let same : q ≡ part = (eq_iff q part).0 here in rw (here, same) (omega arith)
    | inr there ↦ rw there (omega (arith, tally-insert part rows parts))
  ]

  tally-remove :
      (part : String) (rows : List Row) (parts : Parts)
      → lookup part parts ≡ some rows
      → tally (remove part parts) + count (p part) rows ≡ tally parts
  unfolding remove lookup
  tally-remove part rows [] found = cc
  tally-remove part rows ((q, old) ∷ parts) found = elim (Bool-cases (str_eq q part)) [
    | inl here ↦
        let same : q ≡ part = (eq_iff q part).0 here in
        let old_rows : old ≡ rows = cc (rw here at found) in rw (here, same, old_rows) (omega arith)
    | inr there ↦ rw there (omega (arith, tally-remove part rows parts (rw there at found)))
  ]

  tally-pick :
      (i : ℕ) (fs gs : Parts) (part : String) (rows : List Row)
      → pick i fs ≡ some ((part, rows), gs)
      → tally gs + count (p part) rows ≡ tally fs
  unfolding pick
  tally-pick i [] gs part rows e = cc
  tally-pick zero (f ∷ fs) gs part rows e =
      let first : f ≡ (part, rows) = cc e in
      let rest : fs ≡ gs = cc e in rw (first, rest) (omega arith)
  tally-pick (suc i) (f ∷ fs) gs part rows e = elim (Option-cases (pick i fs)) [
    | inl none_there ↦ cc (rw none_there at e)
    | inr (((q, olds), hs), found) ↦
        let e' : some ((q, olds), f ∷ hs) ≡ some ((part, rows), gs) = rw found at e in
        let part_same : q ≡ part = cc e' in
        let rows_same : olds ≡ rows = cc e' in
        let rest : f ∷ hs ≡ gs = cc e' in
        let later = tally-pick i fs hs q olds found in
        rw (← rest, ← part_same, ← rows_same) (omega (arith, later))
  ]

  count-front-drop :
      (q : Row → Bool) (n : ℕ) (rows : List Row)
      → count q (front n rows) + count q (drop n rows) ≡ count q rows
  count-front-drop q zero rows = omega arith
  count-front-drop q (suc n) [] = refl
  count-front-drop q (suc n) (r ∷ rows) = ground (arith, count-front-drop q n rows)

  -- What the cap keeps and what it cuts off are all the rows.
  count-capped :
      (q : Row → Bool) (max : ℕ) (rows : List Row)
      → count q (cut_off max rows) + count q (capped max rows) ≡ count q rows
  unfolding cut_off capped
  count-capped q max rows = elim (Bool-cases (ltb max (length rows))) [
    | inl over ↦ rw over (count-front-drop q (length rows - max) rows)
    | inr fits ↦ rw fits (omega arith)
  ]

  -- What has come in, and where it is.
  abbrev pub all_of : Machine → ℕ
  all_of m = tally m.parts + tally m.in_flight + tally m.stored + tally m.dropped

module _ (out : Outside) (cfg : Settings) (p : String → Row → Bool) where
  begun-keeps :
      (part : String) (m : Machine)
      → (all_of p (begun part (take part m.parts) m) ≡ all_of p m)
        × ((begun part (take part m.parts) m).handled ≡ m.handled)
  unfolding take
  begun-keeps part m = elim (Option-cases (lookup part m.parts)) [
    | inl none_there ↦ rw none_there (refl, refl)
    | inr (rows, found) ↦ at_rows rows found
  ]
    where
      at_rows :
          (rows : List Row)
          → lookup part m.parts ≡ some rows
          → (all_of p (begun part (taken part (lookup part m.parts) m.parts) m) ≡ all_of p m)
            × ((begun part (taken part (lookup part m.parts) m.parts) m).handled ≡ m.handled)
      at_rows [] found = rw found (refl, refl)
      at_rows (r ∷ rows) found =
          rw found (omega (arith, tally-remove p part (r ∷ rows) m.parts found), refl)

  settled-keeps :
      (i : ℕ) (b : Bool) (m : Machine)
      → (all_of p (settled b (pick i m.in_flight) m) ≡ all_of p m)
        × ((settled b (pick i m.in_flight) m).handled ≡ m.handled)
  unfolding requeue
  settled-keeps i true m = elim (Option-cases (pick i m.in_flight)) [
    | inl none_there ↦ rw none_there (refl, refl)
    | inr (((part, rows), fs), found) ↦
        let picked = tally-pick p i m.in_flight fs part rows found in
        rw found (omega (arith, picked), refl)
  ]
  settled-keeps i false m = elim (Option-cases (pick i m.in_flight)) [
    | inl none_there ↦ rw none_there (refl, refl)
    | inr (((part, rows), fs), found) ↦
        let picked = tally-pick p i m.in_flight fs part rows found in
        let old = rows_or (lookup part m.parts) in
        let back = tally-insert p part (rows ++ old) m.parts in
        rw found (omega (arith, picked, back, count-append (p part) rows old), refl)
  ]

  step-keeps :
      (e : Event) (m : Machine)
      → tally p m.handled ≡ all_of p m
      → tally p (step out cfg e m).handled ≡ all_of p (step out cfg e m)
  unfolding step add
  step-keeps (handle r) m h =
      let part = partition_key out r in
      let row = encode_row out r in
      let rows = rows_or (lookup part m.parts) ++ row ∷ [] in
      omega (
        arith,
        h,
        tally-insert p part (capped cfg.max_rows rows) m.parts,
        count-capped p (p part) cfg.max_rows rows,
        count-append (p part) (rows_or (lookup part m.parts)) (row ∷ []),
      )
  step-keeps (begin part) m h = let (kept, same) = begun-keeps part m in rw (kept, same) h
  step-keeps (settle i b) m h = let (kept, same) = settled-keeps i b m in rw (kept, same) h

  run-keeps :
      (es : List Event) (m : Machine)
      → tally p m.handled ≡ all_of p m
      → tally p (run out cfg es m).handled ≡ all_of p (run out cfg es m)
  unfolding run
  run-keeps [] m h = h
  run-keeps (e ∷ es) m h = run-keeps es (step out cfg e m) (step-keeps e m h)

  -- After any overlapping calls of HandleRecord and of flushes that succeed or fail, for every test
  -- on a partition and a row: of the rows that came in, as many are buffered, in flight, stored or
  -- dropped by the cap of their buffer together.
  pub run-conserved :
      (es : List Event) → tally p (run out cfg es empty).handled ≡ all_of p (run out cfg es empty)
  run-conserved es = run-keeps es empty refl
