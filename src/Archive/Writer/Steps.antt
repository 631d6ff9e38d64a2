-- ===== src/Archive/Writer/Steps.antt =====
-- The writer under calls that overlap: between the parts of its methods that hold the mutex, other
-- calls may run. `in_flight` holds the rows that a flush has taken and is putting; `stored` those of
-- the objects; `handled` and `dropped` record what has come in and what the cap has cut off.
use iot_backend.Base.{
  ℕ, zero, suc, ◌-◌, String, Bool, true, false, List, [], ◌∷◌, ◌++◌, Option, none, some, ltb,
  if◌then◌else◌, length,
}
use iot_backend.Dict.{lookup}
use iot_backend.Telemetry.{Record}
use iot_backend.Archive.{Outside}
use iot_backend.Archive.Keys.{partition_key}
use iot_backend.Archive.Csv.{Row, encode_row}
use iot_backend.Archive.Writer.{Parts, Settings, rows_or, add, take, requeue}

pub data Event : Type 0 where
  -- HandleRecord, up to the release of the mutex.
  handle : Record → Event
  -- flushPartition, up to the release of the mutex; HandleRecord and Flush call it.
  begin : (part : String) → Event
  -- Put of a flush has returned: `true` where it has stored the object.
  settle : (index : ℕ) → Bool → Event

pub record Machine : Type 0 where
  pub parts : Parts
  pub in_flight : Parts
  pub stored : Parts
  pub handled : Parts
  pub dropped : Parts

abbrev pub empty : Machine
empty = record { parts = []; in_flight = []; stored = []; handled = []; dropped = [] }

abbrev pub front {ℓ} : {A : Type ℓ} → ℕ → List A → List A
front zero xs = []
front (suc n) [] = []
front (suc n) (x ∷ xs) = x ∷ front n xs

-- The rows that `capped` cuts off.
unfoldable pub cut_off : ℕ → List Row → List Row
cut_off max rows = if ltb max (length rows) then front (length rows - max) rows else []

-- One of the flushes in flight, and the others.
abbrev pub push_back :
    String × List Row → Option ((String × List Row) × Parts) → Option ((String × List Row) × Parts)
push_back f none = none
push_back f (some (g, fs)) = some (g, f ∷ fs)

unfoldable pub pick : ℕ → Parts → Option ((String × List Row) × Parts)
pick i [] = none
pick zero (f ∷ fs) = some (f, fs)
pick (suc i) (f ∷ fs) = push_back f (pick i fs)

abbrev pub begun : String → Option (List Row) × Parts → Machine → Machine
begun part (none, parts) m = m
begun part (some rows, parts) m = record m { parts = parts; in_flight = (part, rows) ∷ m.in_flight }

abbrev pub settled : Bool → Option ((String × List Row) × Parts) → Machine → Machine
settled b none m = m
settled true (some (f, fs)) m = record m { in_flight = fs; stored = f ∷ m.stored }
settled false (some ((part, rows), fs)) m = record m {
  in_flight = fs;
  parts = requeue part rows m.parts;
}

module _ (out : Outside) (cfg : Settings) where
  unfoldable pub step : Event → Machine → Machine
  unfolding add take requeue partition_key encode_row cut_off pick
  step (handle r) m =
      let part = partition_key out r in
      let row = encode_row out r in
      record m {
        parts = (add cfg part row m.parts).1;
        handled = (part, row ∷ []) ∷ m.handled;
        dropped =
            (part, cut_off cfg.max_rows (rows_or (lookup part m.parts) ++ row ∷ [])) ∷ m.dropped;
      }
  step (begin part) m = begun part (take part m.parts) m
  step (settle i b) m = settled b (pick i m.in_flight) m

  unfoldable pub run : List Event → Machine → Machine
  unfolding step
  run [] m = m
  run (e ∷ es) m = run es (step e m)
