-- ===== src/Storage/Filesystem.antt =====
-- internal/storage/filesystem.go: an object store in a directory. The operating system is a
-- parameter; filepath.Join, Rel and Dir are written out for clean paths that begin with a slash, as
-- filepath.Abs makes the root. The context is ignored, as the source ignores it.
pub mod Inside
pub mod Clean
pub mod Atomic
use Prim.Native.Char.{Char, code}
use Prim.Native.String.{[], ◌∷◌}
use iot_backend.Base.{
  String, Bool, true, false, List, [], ◌∷◌, ◌++◌, Option, none, some, ◌||◌, not, ◌==◌, str_eq,
  if◌then◌else◌, filter, map,
}
use iot_backend.Text.{◌<>◌, split, trim_space, trim_right}
use iot_backend.Text.Split.{join}
use iot_backend.Text.Search.{has_prefix, trim_prefix, text_le}
use iot_backend.Repository.{order_by}
use iot_backend.Archive.Keys.{slash, slash_char}
use iot_backend.Storage.{Error, not_found, invalid_key, failed, Answer, done, refused, Objects}
use iot_backend.Storage.Key.{clean_rooted, drop_last, normalize_key}
use iot_backend.Storage.Memory.{is_listed}

-- The parts of a clean path that begins with a slash.
abbrev pub segments : String → List String
segments p = filter (λ s. not (str_eq s "")) (split slash p)

abbrev pub parents : List String → List String
parents bs = map (λ b. "..") bs

unfoldable pub rel_parts : List String → List String → List String
rel_parts [] ts = ts
rel_parts (b ∷ bs) [] = parents (b ∷ bs)
rel_parts (b ∷ bs) (t ∷ ts) =
    let rest = rel_parts bs ts in if str_eq b t then rest else parents (b ∷ bs) ++ t ∷ ts

abbrev or_dot : String → String
or_dot p = if str_eq p "" then "." else p

-- filepath.Rel.
unfoldable pub rel : String → String → String
unfolding rel_parts split join
rel base target = or_dot (join slash_char (rel_parts (segments base) (segments target)))

-- filepath.Join of a path that begins with a slash and a name.
unfoldable pub join_path : String → String → String
unfolding clean_rooted
join_path root name = clean_rooted (root <> ("/" <> name))

-- filepath.Dir.
unfoldable pub dir : String → String
unfolding split join
dir p = let d = join slash_char (drop_last (split slash p)) in if str_eq d "" then "/" else d

abbrev pub kept_inside : String → String → Option String
kept_inside root full =
    let r = rel root full in if str_eq r ".." || has_prefix r "../" then none else some full

abbrev pub resolved : String → Option String → Option String
resolved root none = none
resolved root (some name) = kept_inside root (join_path root name)

-- Filesystem.resolve: `none` is ErrInvalidKey.
unfoldable pub resolve : String → String → Option String
unfolding normalize_key join_path rel has_prefix
resolve root key = resolved root (normalize_key key)

abbrev add_char : Char → Option String → Option String
add_char c none = none
add_char c (some s) = some (c ∷ s)

-- The text before a slash at its end; strings.HasSuffix and strings.TrimSuffix.
unfoldable pub before_slash : String → Option String
before_slash [] = none
before_slash (c ∷ []) = if code c == slash then some [] else none
before_slash (c ∷ d ∷ s) = add_char c (before_slash (d ∷ s))

abbrev with_slash : Option String → Option String
with_slash none = none
with_slash (some name) = some (name <> "/")

abbrev list_prefix_at : String → Option String → Option String
list_prefix_at prefix none = normalize_key prefix
list_prefix_at prefix (some base) =
    if str_eq base "" then some "" else with_slash (normalize_key base)

-- normalizeListPrefix: `none` is ErrInvalidKey.
unfoldable pub normalize_list_prefix : String → Option String
unfolding trim_space trim_prefix before_slash normalize_key
normalize_list_prefix raw =
    let prefix = trim_space raw in
    if str_eq prefix ""
    then some ""
    else (let rest = trim_prefix prefix "/" in list_prefix_at rest (before_slash rest))

-- What opening a file and reading it gives; a directory is `broken`: it opens, and reading it fails.
pub data Opened : Type 0 where
  file : String → Opened
  missing broken : Opened

-- The operating system on a state D. A call answers whether it has succeeded; `create_temp` gives
-- the name of a new file in a directory, and `walk` the files below a directory.
pub record Disk (D : Type 0) : Type 0 where
  pub mkdir_all : String → D → Bool × D
  pub create_temp : String → D → Option String × D
  pub copy_to : (name body : String) → D → Bool × D
  pub close : String → D → Bool × D
  pub rename : (from to : String) → D → Bool × D
  pub remove : String → D → D
  pub open_file : String → D → Opened
  pub walk : String → D → Option (List String)

module _ {D : Type 0} (disk : Disk D) where
  -- The deferred clean-up of an error.
  abbrev pub clean_up : String → D → Option Error × D
  clean_up tmp d = (some failed, disk.remove tmp d)

  -- The rest of Put after each call that may fail.
  abbrev pub after_rename : String → Bool × D → Option Error × D
  after_rename tmp (false, d) = clean_up tmp d
  after_rename tmp (true, d) = (none, d)

  abbrev pub after_close : String → String → Bool × D → Option Error × D
  after_close full tmp (false, d) = clean_up tmp d
  after_close full tmp (true, d) = after_rename tmp (disk.rename tmp full d)

  abbrev pub after_copy : String → String → Bool × D → Option Error × D
  after_copy full tmp (false, d) = clean_up tmp (disk.close tmp d).1
  after_copy full tmp (true, d) = after_close full tmp (disk.close tmp d)

  abbrev pub after_create : String → String → Option String × D → Option Error × D
  after_create full body (none, d) = (some failed, d)
  after_create full body (some tmp, d) = after_copy full tmp (disk.copy_to tmp body d)

  abbrev pub after_mkdir : String → String → Bool × D → Option Error × D
  after_mkdir full body (false, d) = (some failed, d)
  after_mkdir full body (true, d) = after_create full body (disk.create_temp (dir full) d)

  abbrev pub put_at : Option String → String → D → Option Error × D
  put_at none body d = (some invalid_key, d)
  put_at (some full) body d = after_mkdir full body (disk.mkdir_all (dir full) d)

  abbrev pub opened : Opened → Answer String
  opened (file body) = done body
  opened missing = refused not_found
  opened broken = refused failed

  abbrev pub get_at : Option String → D → Answer String
  get_at none d = refused invalid_key
  get_at (some full) d = opened (disk.open_file full d)

  module _ (root : String) where
    -- Filesystem.Put.
    unfoldable pub put : String → String → D → Option Error × D
    unfolding resolve dir
    put key body d = put_at (resolve root key) body d

    -- Filesystem.Get.
    unfoldable pub get : String → D → Answer String × D
    unfolding resolve
    get key d = (get_at (resolve root key) d, d)

    abbrev pub walked : String → Option (List String) → Answer (List String)
    walked prefix none = refused failed
    walked prefix (some paths) =
        done (order_by text_le (filter (is_listed prefix) (map (rel root) paths)))

    abbrev pub list_at : Option String → D → Answer (List String)
    list_at none d = refused invalid_key
    list_at (some prefix) d = walked prefix (disk.walk root d)

    -- Filesystem.List.
    unfoldable pub list : String → D → Answer (List String) × D
    unfolding normalize_list_prefix rel
    list prefix d = (list_at (normalize_list_prefix prefix) d, d)

    -- Filesystem as a Store.
    abbrev pub filesystem : Objects D
    filesystem = record { put = put; get = get; list = list }
