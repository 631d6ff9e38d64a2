-- ===== src/Storage/Filesystem/Atomic.antt =====
-- Put of internal/storage/filesystem.go, on an operating system that keeps what is documented.
use iot_backend.Base.{String, Bool, true, false, Option, none, some, ◌≡◌, ◌≢◌, refl, sym, ◌∙◌, ap}
use iot_backend.Storage.{Error, failed}
use iot_backend.Text.{◌<>◌}
use iot_backend.Storage.Key.Plain.{IsPlain}
use iot_backend.Storage.Filesystem.Clean.{IsClean, resolve-IsClean}
use iot_backend.Storage.Filesystem.{
  Opened, file, missing, broken, Disk, dir, resolve, clean_up, after_rename, after_close,
  after_copy, after_create, after_mkdir, put,
}

-- The text of a file; a directory, or a file that cannot be read, has none.
abbrev pub text_in : Opened → Option String
text_in (file body) = some body
text_in missing = none
text_in broken = none

module _ {D : Type 0} (disk : Disk D) where
  abbrev pub content : String → D → Option String
  content q d = text_in (disk.open_file q d)

  -- Every path but `t` is a file with the same text after as before, or no file either time.
  abbrev pub Keeps : String → D → D → Type 0
  Keeps t d d' = (q : String) → IsClean q → q ≢ t → content q d' ≡ content q d

  abbrev pub KeepsAll : D → D → Type 0
  KeepsAll d d' = (q : String) → IsClean q → content q d' ≡ content q d

  -- What the calls document, where no path goes through a link: they touch the file they name, and
  -- MkdirAll makes directories only; a temporary file is a new and empty one, which is given the
  -- text and closed; a rename of a file moves it, or fails and does nothing.
  pub record IsPosix : Type 0 where
    pub mkdir_keeps : (p : String) (d : D) → IsClean p → KeepsAll d (disk.mkdir_all p d).1
    pub create_fails :
        (p : String) (d : D)
        → IsClean p
        → (disk.create_temp p d).0 ≡ none
        → KeepsAll d (disk.create_temp p d).1
    pub create_new :
        (p t : String) (d : D)
        → IsClean p
        → (disk.create_temp p d).0 ≡ some t
        → IsClean t
          × (content t d ≡ none)
          × (content t (disk.create_temp p d).1 ≡ some "")
          × Keeps t d (disk.create_temp p d).1
    pub copy_keeps : (t body : String) (d : D) → IsClean t → Keeps t d (disk.copy_to t body d).1
    pub close_keeps : (t : String) (d : D) → IsClean t → Keeps t d (disk.close t d).1
    pub copied :
        (t body : String) (d : D)
        → IsClean t
        → content t d ≡ some ""
        → (disk.copy_to t body d).0 ≡ true
        → (disk.close t (disk.copy_to t body d).1).0 ≡ true
        → content t (disk.close t (disk.copy_to t body d).1).1 ≡ some body
    pub rename_fails :
        (t to body : String) (d : D)
        → IsClean t
        → IsClean to
        → content t d ≡ some body
        → (disk.rename t to d).0 ≡ false
        → KeepsAll d (disk.rename t to d).1
    pub renamed :
        (t to body : String) (d : D)
        → IsClean t
        → IsClean to
        → content t d ≡ some body
        → (disk.rename t to d).0 ≡ true
        → content to (disk.rename t to d).1 ≡ some body
    pub rename_keeps :
        (t to body q : String) (d : D)
        → IsClean t
        → IsClean to
        → content t d ≡ some body
        → (disk.rename t to d).0 ≡ true
        → IsClean q
        → q ≢ t
        → q ≢ to
        → content q (disk.rename t to d).1 ≡ content q d
    pub remove_keeps : (t : String) (d : D) → IsClean t → Keeps t d (disk.remove t d)

  -- A put that succeeds has written the text, one that fails has left the file, or its absence, as it
  -- was, and either way the other files that were there are as before.
  pub record IsPut (full body : String) (d : D) (r : Option Error × D) : Type 0 where
    pub written : r.0 ≡ none → content full r.1 ≡ some body
    pub as_before : (e : Error) → r.0 ≡ some e → content full r.1 ≡ content full d
    pub others :
        (q : String) → IsClean q → q ≢ full → content q d ≢ none → content q r.1 ≡ content q d

  -- No temporary file has the name.
  abbrev pub IsNoTemp : String → Type 0
  IsNoTemp full = (p t : String) (d : D) → (disk.create_temp p d).0 ≡ some t → full ≢ t

  KeepsAll-IsPut :
      (full body : String) (e : Error) (d d' : D)
      → IsClean full
      → KeepsAll d d'
      → IsPut full body d (some e, d')
  KeepsAll-IsPut full body e d d' clean same = record {
    written = λ nil. cc nil;
    as_before = λ e _. same full clean;
    others = λ q cq _ _. same q cq;
  }

  module _ (posix : IsPosix) (full body : String) (clean : IsClean full) (d : D) (t : String)
      (clean_t : IsClean t) (new : content t d ≡ none) (other : full ≢ t) where
    -- A file that was there is not the temporary one.
    was_there : (q : String) → content q d ≢ none → q ≢ t
    was_there q there e = there (ap (λ q. content q d) e ∙ new)

    clean_up-IsPut : (d' : D) → Keeps t d d' → IsPut full body d (clean_up disk t d')
    clean_up-IsPut d' same =
        let all : Keeps t d (disk.remove t d') =
          λ q cq h. posix.remove_keeps t d' clean_t q cq h ∙ same q cq h in
        record {
          written = λ nil. cc nil;
          as_before = λ e _. all full clean other;
          others = λ q cq _ there. all q cq (was_there q there);
        }

    after_rename-IsPut :
        (d3 : D) (r : Bool × D)
        → Keeps t d d3
        → content t d3 ≡ some body
        → disk.rename t full d3 ≡ r
        → IsPut full body d (after_rename disk t r)
    after_rename-IsPut d3 (false, d4) same text moved = clean_up-IsPut d4 (λ q cq h.
        let failed_ = ap (λ (r : Bool × D). r.0) moved in
        let still = posix.rename_fails t full body d3 clean_t clean text failed_ q cq in
        ap (λ (r : Bool × D). content q r.1) (sym moved) ∙ still ∙ same q cq h)
    after_rename-IsPut d3 (true, d4) same text moved =
        let done_ = ap (λ (r : Bool × D). r.0) moved in
        record {
          written = λ _.
              ap (λ (r : Bool × D). content full r.1) (sym moved)
              ∙ posix.renamed t full body d3 clean_t clean text done_;
          as_before = λ e err. cc err;
          others = λ q cq far there.
              ap (λ (r : Bool × D). content q r.1) (sym moved)
              ∙ posix.rename_keeps t full body q d3 clean_t clean text done_ cq (was_there q there)
                  far
              ∙ same q cq (was_there q there);
        }

    after_close-IsPut :
        (r : Bool × D)
        → Keeps t d r.1
        → (r.0 ≡ true → content t r.1 ≡ some body)
        → IsPut full body d (after_close disk full t r)
    after_close-IsPut (false, d3) same text = clean_up-IsPut d3 same
    after_close-IsPut (true, d3) same text =
        after_rename-IsPut d3 (disk.rename t full d3) same (text refl) refl

    after_copy-IsPut :
        (r : Bool × D)
        → Keeps t d r.1
        → (r.0 ≡ true → (disk.close t r.1).0 ≡ true → content t (disk.close t r.1).1 ≡ some body)
        → IsPut full body d (after_copy disk full t r)
    after_copy-IsPut (false, d2) same text =
        clean_up-IsPut (disk.close t d2).1
          (λ q cq h. posix.close_keeps t d2 clean_t q cq h ∙ same q cq h)
    after_copy-IsPut (true, d2) same text =
        after_close-IsPut (disk.close t d2)
          (λ q cq h. posix.close_keeps t d2 clean_t q cq h ∙ same q cq h) (text refl)

  module _ (posix : IsPosix) (full body : String) (clean : IsClean full)
      (clean_dir : IsClean (dir full)) (named : IsNoTemp full) where
    after_create-IsPut :
        (d d1 : D) (r : Option String × D)
        → KeepsAll d d1
        → disk.create_temp (dir full) d1 ≡ r
        → IsPut full body d (after_create disk full body r)
    after_create-IsPut d d1 (none, d2) same made =
        KeepsAll-IsPut full body failed d d2 clean (λ q cq.
          let no_temp = ap (λ (r : Option String × D). r.0) made in
          let still = posix.create_fails (dir full) d1 clean_dir no_temp q cq in
          ap (λ (r : Option String × D). content q r.1) (sym made) ∙ still ∙ same q cq)
    after_create-IsPut d d1 (some t, d2) same made =
        let named_t : (disk.create_temp (dir full) d1).0 ≡ some t =
          ap (λ (r : Option String × D). r.0) made in
        let (clean_t, new, empty, kept) = posix.create_new (dir full) t d1 clean_dir named_t in
        let kept2 : Keeps t d d2 = λ q cq h.
          ap (λ (r : Option String × D). content q r.1) (sym made) ∙ kept q cq h ∙ same q cq in
        let empty2 : content t d2 ≡ some "" =
          ap (λ (r : Option String × D). content t r.1) (sym made) ∙ empty in
        after_copy-IsPut posix full body clean d t clean_t (sym (same t clean_t) ∙ new)
          (named (dir full) t d1 named_t) (disk.copy_to t body d2)
          (λ q cq h. posix.copy_keeps t body d2 clean_t q cq h ∙ kept2 q cq h)
          (posix.copied t body d2 clean_t empty2)

    after_mkdir-IsPut :
        (d : D) (r : Bool × D) → KeepsAll d r.1 → IsPut full body d (after_mkdir disk full body r)
    after_mkdir-IsPut d (false, d1) same = KeepsAll-IsPut full body failed d d1 clean same
    after_mkdir-IsPut d (true, d1) same =
        after_create-IsPut d d1 (disk.create_temp (dir full) d1) same refl

  -- On an operating system that keeps what it documents, whichever of its calls fail, and below a
  -- clean root of at least one part: a Put under a valid key whose file is never a temporary one
  -- either answers nil, and the file has the body, or it answers an error, and the file, or its
  -- absence, is as before; every other file that was there has its text as before.
  pub put-IsPut :
      (s key body full : String) (d : D)
      → IsPlain s
      → IsPosix
      → resolve ("/" <> s) key ≡ some full
      → IsNoTemp full
      → IsPut full body d (put disk ("/" <> s) key body d)
  unfolding put
  put-IsPut s key body full d plain posix found named =
      let (clean, clean_dir) = resolve-IsClean s key full plain found in
      rw found (
        after_mkdir-IsPut posix full body clean clean_dir named d (disk.mkdir_all (dir full) d)
          (posix.mkdir_keeps (dir full) d clean_dir))
