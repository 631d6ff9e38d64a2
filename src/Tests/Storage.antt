-- ===== src/Tests/Storage.antt =====
-- The object stores on small inputs.
use iot_backend.Base.{String, List, [], ◌∷◌, none, some, ◌≡◌, refl}
use iot_backend.Text.{split, trim_space}
use iot_backend.Text.Search.{contains}
use iot_backend.Dict.{lookup}
use iot_backend.Storage.{not_found, invalid_key, done, refused}
use iot_backend.Storage.Key.{normalize_key}
use iot_backend.Storage.Key.Plain.{IsPlain, normalize_key-IsName}
use iot_backend.Storage.Memory.{Blob}
use iot_backend.Storage.Memory.Refines.{
  Op, put_op, get_op, list_op, written, text, names, replies, IsTrace, replies-IsTrace,
}
use iot_backend.Storage.Filesystem.{resolve, normalize_list_prefix}
use iot_backend.Storage.Filesystem.Inside.{resolve-inside}

key_tests :
    (normalize_key " /a//b/./c/ " ≡ some "a/b/c")
    × (normalize_key "a/../b" ≡ none)
    × (normalize_key "/." ≡ none)
    × (normalize_key "/ a" ≡ some " a")
    × (normalize_list_prefix "/org/7/" ≡ some "org/7/")
unfolding normalize_key normalize_list_prefix
key_tests = (refl, refl, refl, refl, refl)

normalize_key-IsName_example : normalize_key "a/b" ≡ some "a/b"
unfolding split trim_space contains
normalize_key-IsName_example = normalize_key-IsName "a/b" (record {
  trimmed = refl;
  plain = ((λ e. cc e, λ e. cc e, λ e. cc e), ((λ e. cc e, λ e. cc e, λ e. cc e), tt));
  no_backslash = refl;
  no_dots = refl;
})

abbrev calls : List Op
calls =
    put_op "/a//b" "x"
    ∷ put_op "a/../c" "y"
    ∷ get_op "a/b"
    ∷ put_op "a/b" "z"
    ∷ get_op "a/b/"
    ∷ get_op "c"
    ∷ list_op " a/"
    ∷ []

memory_tests :
    replies calls []
    ≡ written none
      ∷ written (some invalid_key)
      ∷ text (done "x")
      ∷ written none
      ∷ text (done "z")
      ∷ text (refused not_found)
      ∷ names ("a/b" ∷ [])
      ∷ []
unfolding replies
memory_tests = refl

abbrev no_files : Blob
no_files = []

no_names : (k : String) → lookup k no_files ≡ none
unfolding lookup
no_names k = refl

replies-IsTrace_example : IsTrace calls (λ k. none) (replies calls [])
replies-IsTrace_example = replies-IsTrace calls no_files (λ k. none) no_names

root-IsPlain : IsPlain "srv/data"
unfolding split
root-IsPlain = ((λ e. cc e, λ e. cc e, λ e. cc e), ((λ e. cc e, λ e. cc e, λ e. cc e), tt))

resolve-inside_example : (resolve "/srv/data" "/a//b" ≡ some "/srv/data/a/b") × IsPlain "a/b"
unfolding normalize_key
resolve-inside_example = resolve-inside "srv/data" "/a//b" root-IsPlain

resolve_tests : resolve "/srv/data" "/a//b" ≡ some "/srv/data/a/b"
unfolding resolve
resolve_tests = refl
