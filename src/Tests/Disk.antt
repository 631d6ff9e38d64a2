-- ===== src/Tests/Disk.antt =====
-- Put of internal/storage/filesystem.go on an operating system that is a map from paths to files and
-- directories.
use iot_backend.Base.{
  String, Bool, true, false, Option, none, some, str_eq, eq_iff, if◌then◌else◌, ◌≡◌, ◌≢◌, refl,
  Bool-cases, inl, inr, ap, eq_refl, ◌∙◌, subst, if-keeps,
}
use iot_backend.Text.{◌<>◌, split}
use iot_backend.Text.Search.{has_prefix}
use iot_backend.Storage.{not_found, done, refused}
use iot_backend.Storage.Key.{clean_rooted}
use iot_backend.Storage.Filesystem.{Opened, file, missing, broken, Disk, resolve, put, get}
use iot_backend.Storage.Filesystem.Clean.{IsClean}
use iot_backend.Storage.Key.Plain.{IsPlain}
use iot_backend.Storage.Filesystem.Atomic.{text_in, Keeps, IsPosix, IsPut, IsNoTemp, put-IsPut}

-- A file system, as a map from paths to what stands there.
data Node : Type 0 where
  absent directory : Node
  text : String → Node

abbrev Tree : Type 0
Tree = String → Node

abbrev with_node : String → Node → Tree → Tree
with_node p n d q = if str_eq q p then n else d q

abbrev opened : Node → Opened
opened absent = missing
opened directory = broken
opened (text s) = file s

abbrev as_directory : Node → Node
as_directory absent = directory
as_directory n = n

-- The directories from the root down to a path, where they are absent.
abbrev with_directories : String → Tree → Tree
with_directories p d q = if has_prefix (p <> "/") (q <> "/") then as_directory (d q) else d q

abbrev mkdir_at : Node → String → Tree → Bool × Tree
mkdir_at (text s) p d = (false, d)
mkdir_at _ p d = (true, with_directories p d)

-- A temporary file, in a directory that is there.
abbrev made : Node → Node → Tree → Option String × Tree
made directory absent d = (some "/tmp", with_node "/tmp" (text "") d)
made _ _ d = (none, d)

abbrev copied_to : Node → String → String → Tree → Bool × Tree
copied_to (text s) t body d = (true, with_node t (text body) d)
copied_to _ t body d = (false, d)

-- A file takes the place of another one, and not of a directory.
abbrev moved : Node → Node → String → String → Tree → Bool × Tree
moved (text s) directory from to d = (false, d)
moved (text s) _ from to d = (true, with_node to (text s) (with_node from absent d))
moved _ _ from to d = (false, d)

abbrev removed : Node → String → Tree → Tree
removed (text s) t d = with_node t absent d
removed _ t d = d

abbrev disk : Disk Tree
disk = record {
  mkdir_all = λ p d. mkdir_at (d p) p d;
  create_temp = λ p d. made (d p) (d "/tmp") d;
  copy_to = λ t body d. copied_to (d t) t body d;
  close = λ t d. (true, d);
  rename = λ from to d. moved (d from) (d to) from to d;
  remove = λ t d. removed (d t) t d;
  open_file = λ p d. opened (d p);
  walk = λ p d. none;
}

abbrev read_at : String → Tree → Option String
read_at q d = text_in (opened (d q))

with_node-other : (p q : String) (n : Node) (d : Tree) → q ≢ p → with_node p n d q ≡ d q
with_node-other p q n d h = elim (Bool-cases (str_eq q p)) [
  | inl e ↦ absurd (h ((eq_iff q p).0 e))
  | inr e ↦ rw e refl
]

read-as_directory : (n : Node) → text_in (opened (as_directory n)) ≡ text_in (opened n)
read-as_directory absent = refl
read-as_directory directory = refl
read-as_directory (text s) = refl

read-with_directories : (p q : String) (d : Tree) → read_at q (with_directories p d) ≡ read_at q d
read-with_directories p q d =
    if-keeps (λ n. text_in (opened n) ≡ read_at q d) (has_prefix (p <> "/") (q <> "/")) _ _
      (λ _. read-as_directory (d q)) (λ _. refl)

mkdir-read : (n : Node) (p q : String) (d : Tree) → read_at q (mkdir_at n p d).1 ≡ read_at q d
mkdir-read absent p q d = read-with_directories p q d
mkdir-read directory p q d = read-with_directories p q d
mkdir-read (text s) p q d = refl

made-fails :
    (n o : Node) (q : String) (d : Tree)
    → (made n o d).0 ≡ none
    → read_at q (made n o d).1 ≡ read_at q d
made-fails directory absent q d e = cc e
made-fails directory directory q d e = refl
made-fails directory (text s) q d e = refl
made-fails absent o q d e = refl
made-fails (text s) o q d e = refl

temp-IsClean : IsClean "/tmp"
unfolding clean_rooted
temp-IsClean = refl

made-new :
    (n o : Node) (t : String) (d : Tree)
    → d "/tmp" ≡ o
    → (made n o d).0 ≡ some t
    → IsClean t
      × (read_at t d ≡ none)
      × (read_at t (made n o d).1 ≡ some "")
      × Keeps disk t d (made n o d).1
made-new directory absent t d free e =
    let same : "/tmp" ≡ t = cc e in
    subst
      (λ t.
        IsClean t
        × (read_at t d ≡ none)
        × (read_at t (made directory absent d).1 ≡ some "")
        × Keeps disk t d (made directory absent d).1)
      same
      (
        temp-IsClean,
        ap (λ n. text_in (opened n)) free,
        refl,
        λ q _ h. ap (λ n. text_in (opened n)) (with_node-other "/tmp" q (text "") d h),
      )
made-new directory directory t d free e = cc e
made-new directory (text s) t d free e = cc e
made-new absent o t d free e = cc e
made-new (text s) o t d free e = cc e

copied-other :
    (n : Node) (t body q : String) (d : Tree)
    → q ≢ t
    → read_at q (copied_to n t body d).1 ≡ read_at q d
copied-other absent t body q d h = refl
copied-other directory t body q d h = refl
copied-other (text s) t body q d h =
    ap (λ n. text_in (opened n)) (with_node-other t q (text body) d h)

copied-read :
    (n : Node) (t body : String) (d : Tree)
    → (copied_to n t body d).0 ≡ true
    → read_at t (copied_to n t body d).1 ≡ some body
copied-read absent t body d e = cc e
copied-read directory t body d e = cc e
copied-read (text s) t body d e = rw (eq_refl t) refl

moved-fails :
    (n o : Node) (from to q : String) (d : Tree)
    → (moved n o from to d).0 ≡ false
    → read_at q (moved n o from to d).1 ≡ read_at q d
moved-fails (text s) absent from to q d e = cc e
moved-fails (text s) (text r) from to q d e = cc e
moved-fails (text s) directory from to q d e = refl
moved-fails absent o from to q d e = refl
moved-fails directory o from to q d e = refl

moved-to :
    (n o : Node) (from to body : String) (d : Tree)
    → text_in (opened n) ≡ some body
    → (moved n o from to d).0 ≡ true
    → read_at to (moved n o from to d).1 ≡ some body
moved-to (text s) absent from to body d h e = rw (eq_refl to) h
moved-to (text s) (text r) from to body d h e = rw (eq_refl to) h
moved-to (text s) directory from to body d h e = cc e
moved-to absent o from to body d h e = cc h
moved-to directory o from to body d h e = cc h

two-other :
    (s from to q : String) (d : Tree)
    → q ≢ from
    → q ≢ to
    → read_at q (with_node to (text s) (with_node from absent d)) ≡ read_at q d
two-other s from to q d h k =
    ap (λ n. text_in (opened n))
      (with_node-other to q (text s) (with_node from absent d) k
        ∙ with_node-other from q absent d h)

moved-other :
    (n o : Node) (from to q : String) (d : Tree)
    → q ≢ from
    → q ≢ to
    → read_at q (moved n o from to d).1 ≡ read_at q d
moved-other (text s) absent from to q d h k = two-other s from to q d h k
moved-other (text s) (text r) from to q d h k = two-other s from to q d h k
moved-other (text s) directory from to q d h k = refl
moved-other absent o from to q d h k = refl
moved-other directory o from to q d h k = refl

removed-other :
    (n : Node) (t q : String) (d : Tree) → q ≢ t → read_at q (removed n t d) ≡ read_at q d
removed-other absent t q d h = refl
removed-other directory t q d h = refl
removed-other (text s) t q d h = ap (λ n. text_in (opened n)) (with_node-other t q absent d h)

disk-IsPosix : IsPosix disk
disk-IsPosix = record {
  mkdir_keeps = λ p d _ q _. mkdir-read (d p) p q d;
  create_fails = λ p d _ e q _. made-fails (d p) (d "/tmp") q d e;
  create_new = λ p t d _ e. made-new (d p) (d "/tmp") t d refl e;
  copy_keeps = λ t body d _ q _ h. copied-other (d t) t body q d h;
  close_keeps = λ t d _ q _ h. refl;
  copied = λ t body d _ _ e _. copied-read (d t) t body d e;
  rename_fails = λ t to body d _ _ _ e q _. moved-fails (d t) (d to) t to q d e;
  renamed = λ t to body d _ _ h e. moved-to (d t) (d to) t to body d h e;
  rename_keeps = λ t to body q d _ _ _ _ _ h k. moved-other (d t) (d to) t to q d h k;
  remove_keeps = λ t d _ q _ h. removed-other (d t) t q d h;
}

-- Only the root of the store is there.
abbrev root_only : Tree
root_only q = if str_eq q "/srv/data" then directory else absent

disk_tests :
    ((put disk "/srv/data" "a/b" "x" root_only).0 ≡ none)
    × ((put disk "/srv/data" "a/b" "x" root_only).1 "/srv/data/a" ≡ directory)
    × ((get disk "/srv/data" "/a//b" (put disk "/srv/data" "a/b" "x" root_only).1).0 ≡ done "x")
    × ((get disk "/srv/data" "c" (put disk "/srv/data" "a/b" "x" root_only).1).0
        ≡ refused not_found)
unfolding put get has_prefix
disk_tests = (refl, refl, refl, refl)

no_temp : IsNoTemp disk "/srv/data/a/b"
no_temp p t d = at_temp (d p) (d "/tmp")
  where
    at_temp : (n o : Node) → (made n o d).0 ≡ some t → "/srv/data/a/b" ≢ t
    at_temp directory absent e at = cc (e, at)
    at_temp directory directory e at = cc e
    at_temp directory (text s) e at = cc e
    at_temp absent o e at = cc e
    at_temp (text s) o e at = cc e

root-IsPlain : IsPlain "srv/data"
unfolding split
root-IsPlain = ((λ e. cc e, λ e. cc e, λ e. cc e), ((λ e. cc e, λ e. cc e, λ e. cc e), tt))

put-IsPut_example :
    IsPut disk "/srv/data/a/b" "x" root_only (put disk "/srv/data" "a/b" "x" root_only)
put-IsPut_example =
    put-IsPut disk "srv/data" "a/b" "x" "/srv/data/a/b" root_only root-IsPlain disk-IsPosix
      (unfold resolve in refl) no_temp
