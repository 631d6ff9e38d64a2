-- ===== src/Storage/Memory.antt =====
-- internal/storage/memory.go: an object store in memory. The context is ignored, as the source ignores
-- it; the body is read without an error.
pub mod Refines
use iot_backend.Base.{
  true, false, String, Bool, List, Option, none, some, filter, map, ◌||◌, str_eq,
}
use iot_backend.Text.{trim_space}
use iot_backend.Text.Search.{has_prefix, text_le}
use iot_backend.Dict.{lookup, insert}
use iot_backend.Repository.{order_by}
use iot_backend.Storage.{Error, invalid_key, not_found, Answer, done, refused, Objects, Upload}
use iot_backend.Storage.Key.{normalize_key}

-- The map `blob`.
abbrev pub Blob : Type 0
Blob = List (String × String)

abbrev pub put_at : Option String → String → Blob → Option Error × Blob
put_at none body m = (some invalid_key, m)
put_at (some key) body m = (none, insert key body m)

-- Memory.Put.
unfoldable pub put : String → String → Blob → Option Error × Blob
unfolding insert normalize_key
put key body m = put_at (normalize_key key) body m

abbrev pub found : Option String → Answer String
found none = refused not_found
found (some body) = done body

abbrev pub get_at : Option String → Blob → Answer String
get_at none m = refused invalid_key
get_at (some key) m = found (lookup key m)

-- Memory.Get.
unfoldable pub get : String → Blob → Answer String × Blob
unfolding lookup normalize_key
get key m = (get_at (normalize_key key) m, m)

abbrev pub is_listed : String → String → Bool
is_listed prefix k = str_eq prefix "" || has_prefix k prefix

-- Memory.List.
unfoldable pub list : String → Blob → Answer (List String) × Blob
unfolding trim_space
list prefix m =
    (done (order_by text_le (filter (is_listed (trim_space prefix)) (map (λ p. p.0) m))), m)

-- Memory as a Store.
abbrev pub memory : Objects Blob
memory = record { put = put; get = get; list = list }

-- Memory.Put of a reader: a name that is not valid is refused before anything is read.
abbrev pub stream_at : Option String → String → Option Error → Blob → Upload × Blob
stream_at none text end m = (record { error = some invalid_key; read_all = false }, m)
stream_at (some key) text (some e) m = (record { error = some e; read_all = true }, m)
stream_at (some key) text none m = (record { error = none; read_all = true }, insert key text m)

unfoldable pub stream : String → String → Option Error → Blob → Upload × Blob
unfolding insert normalize_key
stream key text end m = stream_at (normalize_key key) text end m
