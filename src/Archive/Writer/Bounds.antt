-- ===== src/Archive/Writer/Bounds.antt =====
-- How many rows a partition's buffer holds, and what a flush that fails leaves.
use iot_backend.Base.{
  ℕ, zero, suc, ◌+◌, ◌-◌, ◌≤◌, String, true, List, [], ◌∷◌, ◌++◌, Option, none, some, ltb, str_eq,
  eq_iff, if◌then◌else◌, length, ◌≡◌, refl, sym, ap, arith, Bool-cases, inl, inr,
}
use mathlib.Core.List.{append-nil}
use iot_backend.Dict.{
  lookup, remove, lookup-insert, lookup-remove, IsDict, IsDict-insert, IsDict-remove,
}
use iot_backend.Storage.{Error, Objects}
use iot_backend.Archive.{Outside}
use iot_backend.Archive.Csv.{Row}
use iot_backend.Archive.Writer.{
  Settings, World, drop, rows_or, capped, taken, take, requeue, put_result, flush_taken,
  flush_partition,
}

length-drop : (n : ℕ) (rows : List Row) → length (drop n rows) ≡ length rows - n
length-drop zero rows = omega arith
length-drop (suc n) [] = omega arith
length-drop (suc n) (r ∷ rows) = omega (arith, length-drop n rows)

pub length-capped : (max : ℕ) (rows : List Row) → length (capped max rows) ≤ max
unfolding capped
length-capped max rows = elim (Bool-cases (ltb max (length rows))) [
  | inl over ↦ rw over (omega (arith, length-drop (length rows - max) rows, ground_over over))
  | inr fits ↦ rw fits (ground (arith, fits))
]
  where
    ground_over : ltb max (length rows) ≡ true → max ≤ length rows
    ground_over over = ground arith

module _ {S : Type 0} where
  -- A flush of a partition that fails leaves every buffer as it was, and one that succeeds leaves
  -- that partition without rows and every other buffer as it was.
  pub record IsFlushed (part : String) (w : World S) (z : Option Error × World S) : Type 0 where
    pub dict : IsDict z.1.parts
    pub kept : (e : Error) → z.0 ≡ some e → (k : String) → lookup k z.1.parts ≡ lookup k w.parts
    pub emptied :
        z.0 ≡ none
        → (k : String)
        → rows_or (lookup k z.1.parts) ≡ (if str_eq part k then [] else rows_or (lookup k w.parts))

  module _ (out : Outside) (cfg : Settings) (objects : Objects S) where
    -- Nothing was there to flush.
    idle-IsFlushed :
        (part : String) (w : World S)
        → IsDict w.parts
        → rows_or (lookup part w.parts) ≡ []
        → IsFlushed part w (none, w)
    idle-IsFlushed part w h no_rows = record {
      dict = h;
      kept = λ e f. cc f;
      emptied = λ f k. elim (Bool-cases (str_eq part k)) [
        | inl here ↦ let same : part ≡ k = (eq_iff part k).0 here in rw here (rw same at no_rows)
        | inr there ↦ rw there
      ];
    }

    put-IsFlushed :
        (part : String) (rows : List Row) (w : World S) (r : Option Error × S)
        → IsDict w.parts
        → lookup part w.parts ≡ some rows
        → IsFlushed part w
            (put_result cfg out objects part rows (remove part w.parts) (w.drawn + 1) r)
    unfolding requeue
    put-IsFlushed part rows w (none, s) h found = record {
      dict = IsDict-remove part w.parts h;
      kept = λ e f. cc f;
      emptied = λ f k. elim (Bool-cases (str_eq part k)) [
        | inl here ↦ rw (lookup-remove part k w.parts h, here)
        | inr there ↦ rw (lookup-remove part k w.parts h, there)
      ];
    }
    put-IsFlushed part rows w (some e, s) h found =
        let gone : lookup part (remove part w.parts) ≡ none =
          rw (lookup-remove part part w.parts h, (eq_iff part part).1 refl) in
        let back : rows ++ rows_or (lookup part (remove part w.parts)) ≡ rows =
          rw gone (append-nil rows) in
        record {
          dict = IsDict-insert part _ (remove part w.parts) (IsDict-remove part w.parts h);
          kept = λ x f k. elim (Bool-cases (str_eq part k)) [
            | inl here ↦
                let same : part ≡ k = (eq_iff part k).0 here in
                rw (back, lookup-insert part k rows (remove part w.parts), here)
                  (sym (rw same at found))
            | inr there ↦ rw (
              back,
              lookup-insert part k rows (remove part w.parts),
              there,
              lookup-remove part k w.parts h,
              there,
            )
          ];
          emptied = λ f. cc f;
        }

    -- Where each partition has one buffer, a flush of a partition that fails leaves every buffer as it
    -- was, and one that succeeds leaves that partition without rows and every other buffer as it was.
    pub flush_partition-IsFlushed :
        (part : String) (w : World S)
        → IsDict w.parts
        → IsFlushed part w (flush_partition cfg out objects part w)
    unfolding flush_partition take
    flush_partition-IsFlushed part w h = at_rows (lookup part w.parts) refl
      where
        at_rows :
            (o : Option (List Row))
            → lookup part w.parts ≡ o
            → IsFlushed part w (flush_taken cfg out objects part (taken part o w.parts) w)
        at_rows none found = idle-IsFlushed part w h (ap rows_or found)
        at_rows (some []) found = idle-IsFlushed part w h (ap rows_or found)
        at_rows (some (row ∷ rows)) found = put-IsFlushed part (row ∷ rows) w _ h found
