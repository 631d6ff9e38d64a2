-- ===== src/Storage/Key.antt =====
-- internal/storage/key.go, and normalizeListPrefix of filesystem.go: the names of objects.
pub mod Plain
use Prim.Native.Char.{Char}
use iot_backend.Base.{
  String, Bool, true, false, List, [], ◌∷◌, ◌++◌, Option, none, some, ◌||◌, ◌==◌, str_eq,
  if◌then◌else◌, any,
}
use iot_backend.Text.{◌<>◌, split, trim_space, trim_right}
use iot_backend.Text.Split.{join}
use iot_backend.Text.Search.{has_prefix, trim_prefix, contains}
use iot_backend.Archive.Keys.{slash, slash_char}

abbrev pub drop_last : List String → List String
drop_last [] = []
drop_last (p ∷ []) = []
drop_last (p ∷ q ∷ ps) = p ∷ drop_last (q ∷ ps)

-- path.Clean on a path that begins with a slash: the parts kept so far, and the next part.
abbrev pub clean_part : List String → String → List String
clean_part kept p =
    if str_eq p "" || str_eq p "."
    then kept
    else if str_eq p ".."
    then drop_last kept
    else kept ++ p ∷ []

unfoldable pub clean_parts : List String → List String → List String
clean_parts kept [] = kept
clean_parts kept (p ∷ ps) = clean_parts (clean_part kept p) ps

unfoldable pub clean_rooted : String → String
unfolding clean_parts split join
clean_rooted s = "/" <> join slash_char (clean_parts [] (split slash s))

-- A part that normalizeKey refuses.
abbrev pub bad_part : String → Bool
bad_part p = str_eq p ".." || str_eq p "." || str_eq p ""

abbrev pub checked : String → Option String
checked cleaned =
    if str_eq cleaned "." || str_eq cleaned ""
    then none
    else if any bad_part (split slash cleaned)
    then none
    else some cleaned

-- normalizeKey: `none` is ErrInvalidKey.
unfoldable pub normalize_key : String → Option String
unfolding trim_space trim_prefix contains clean_rooted split
normalize_key raw =
    let key = trim_prefix (trim_space raw) "/" in
    if str_eq key ""
    then none
    else if contains key "\\" || contains key ".."
    then none
    else checked (trim_prefix (clean_rooted ("/" <> key)) "/")
