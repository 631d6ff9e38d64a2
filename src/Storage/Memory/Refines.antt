-- ===== src/Storage/Memory/Refines.antt =====
-- Memory, of internal/storage/memory.go, implements a map from names to texts.
use iot_backend.Base.{
  String, Bool, true, false, List, [], ◌∷◌, Option, none, some, ◌||◌, ◌&&◌, str_eq, eq_iff,
  if◌then◌else◌, filter, any, any-map, any-filter, map, ◌≡◌, refl, ap, ◌∙◌, arith, Bool-cases, inl,
  inr,
}
use iot_backend.Text.{trim_space}
use iot_backend.Text.Search.{text_le}
use iot_backend.Dict.{lookup, lookup-insert}
use iot_backend.Repository.{place, order_by}
use iot_backend.Storage.{Error, invalid_key, Answer, done, refused}
use iot_backend.Storage.Key.{normalize_key}
use iot_backend.Storage.Memory.{Blob, put, put_at, get, get_at, found, list, is_listed}

-- What a store promises: a map from names to texts, and calls that see and change it.
abbrev pub Contents : Type 0
Contents = String → Option String

pub data Op : Type 0 where
  put_op : (key body : String) → Op
  get_op : (key : String) → Op
  list_op : (prefix : String) → Op

pub data Reply : Type 0 where
  written : Option Error → Reply
  text : Answer String → Reply
  names : List String → Reply

abbrev holds : Option String → Bool
holds none = false
holds (some s) = true

abbrev pub with_text : Option String → String → Contents → Contents
with_text none body f k = f k
with_text (some key) body f k = if str_eq key k then some body else f k

-- The map after a call: a put writes the normalized name, if there is one.
abbrev pub next : Op → Contents → Contents
next (put_op key body) f = with_text (normalize_key key) body f
next (get_op key) f = f
next (list_op prefix) f = f

abbrev put_reply : Option String → Option Error
put_reply none = some invalid_key
put_reply (some key) = none

abbrev text_reply : Option String → Contents → Answer String
text_reply none f = refused invalid_key
text_reply (some key) f = found (f key)

-- The answer that a map gives: that of a name that is not valid is an error, a text is the last one
-- written, and the names listed are all those of the map that have the prefix.
abbrev pub IsReply : Op → Contents → Reply → Type 0
IsReply (put_op key body) f r = r ≡ written (put_reply (normalize_key key))
IsReply (get_op key) f r = r ≡ text (text_reply (normalize_key key) f)
IsReply (list_op prefix) f r =
    (ks : List String) × (r ≡ names ks)
    × ((k : String) → any (λ j. str_eq j k) ks ≡ (holds (f k) && is_listed (trim_space prefix) k))

-- The answers to some calls, one after another.
abbrev pub IsTrace : List Op → Contents → List Reply → Type 0
IsTrace [] f [] = Unit
IsTrace (op ∷ ops) f (r ∷ rs) = IsReply op f r × IsTrace ops (next op f) rs
IsTrace _ f _ = ⊥

abbrev listed : Answer (List String) → Reply
listed (done ks) = names ks
listed (refused e) = names []

-- Memory's answer, and its next state.
abbrev pub reply : Op → Blob → Reply × Blob
reply (put_op key body) m = let (e, m') = put key body m in (written e, m')
reply (get_op key) m = let (a, m') = get key m in (text a, m')
reply (list_op prefix) m = let (a, m') = list prefix m in (listed a, m')

unfoldable pub replies : List Op → Blob → List Reply
unfolding put get list
replies [] m = []
replies (op ∷ ops) m = let (r, m') = reply op m in r ∷ replies ops m'

module _ (p : String → Bool) where
  any-place : (x : String) (ys : List String) → any p (place text_le x ys) ≡ (p x || any p ys)
  any-place x [] = ground arith
  any-place x (y ∷ ys) = elim (Bool-cases (text_le x y)) [
    | inl le ↦ rw le (ground arith)
    | inr gt ↦ rw gt (ground (arith, any-place x ys))
  ]

  any-order_by : (xs : List String) → any p (order_by text_le xs) ≡ any p xs
  any-order_by [] = refl
  any-order_by (x ∷ xs) = ground (arith, any-place x (order_by text_le xs), any-order_by xs)

any-keys :
    (k : String) (p : String → Bool) (m : Blob)
    → any (λ e. str_eq e.0 k && p e.0) m ≡ (holds (lookup k m) && p k)
unfolding lookup
any-keys k p [] = refl
any-keys k p ((j, v) ∷ m) = elim (Bool-cases (str_eq j k)) [
  | inl here ↦
      let same : j ≡ k = (eq_iff j k).0 here in rw (here, same, any-keys k p m) (ground arith)
  | inr there ↦ rw there (any-keys k p m)
]

module _ (m : Blob) (f : Contents) (same : (k : String) → lookup k m ≡ f k) where
  reply-IsReply : (op : Op) → IsReply op f (reply op m).0
  unfolding put get list
  reply-IsReply (put_op key body) = at_name (normalize_key key)
    where
      at_name : (o : Option String) → written (put_at o body m).0 ≡ written (put_reply o)
      at_name none = refl
      at_name (some k) = refl
  reply-IsReply (get_op key) = at_name (normalize_key key)
    where
      at_name : (o : Option String) → text (get_at o m) ≡ text (text_reply o f)
      at_name none = refl
      at_name (some k) = ap (λ o. text (found o)) (same k)
  reply-IsReply (list_op prefix) = (
    _,
    refl,
    λ k.
        let p = is_listed (trim_space prefix) in
        any-order_by (λ j. str_eq j k) (filter p (map (λ e. e.0) m))
        ∙ any-filter (λ j. str_eq j k) p (map (λ e. e.0) m)
        ∙ any-map (λ j. str_eq j k && p j) (λ e. e.0) m
        ∙ any-keys k p m
        ∙ ap (λ o. holds o && p k) (same k),
  )

  next-same : (op : Op) (k : String) → lookup k (reply op m).1 ≡ next op f k
  unfolding put get list
  next-same (put_op key body) k = at_name (normalize_key key)
    where
      at_name : (o : Option String) → lookup k (put_at o body m).1 ≡ with_text o body f k
      at_name none = same k
      at_name (some j) = rw (lookup-insert j k body m, same k) refl
  next-same (get_op key) k = same k
  next-same (list_op prefix) k = same k

-- Memory answers any calls of Put, Get and List, one after another, as a map from names to texts
-- does: Put writes the normalized name and Get reads it, a name that is not valid is refused and
-- changes nothing, and List gives the names of the map with the prefix and no others.
pub replies-IsTrace :
    (ops : List Op) (m : Blob) (f : Contents)
    → ((k : String) → lookup k m ≡ f k)
    → IsTrace ops f (replies ops m)
unfolding replies
replies-IsTrace [] m f same = tt
replies-IsTrace (op ∷ ops) m f same = (
  reply-IsReply m f same op,
  replies-IsTrace ops (reply op m).1 (next op f) (next-same m f same op),
)
