-- ===== src/Storage.antt =====
-- internal/storage: store.go, the interface of an object store, and its errors.
pub mod Key
pub mod Memory
pub mod Filesystem
use iot_backend.Base.{String, Bool, Option, List}

-- ErrNotFound, ErrInvalidKey, ErrUnavailable, and every other error.
pub data Error : Type 0 where
  not_found invalid_key unavailable failed : Error

-- A result of an object store.
pub data Answer {ℓ} (A : Type ℓ) : Type ℓ where
  done : A → Answer A
  refused : Error → Answer A

-- Store, on a state S: a call may change the state, and fails as the state decides. `none` is the
-- nil error of Put; its content type is left out.
pub record Objects (S : Type 0) : Type 0 where
  pub put : (key body : String) → S → Option Error × S
  pub get : (key : String) → S → Answer String × S
  pub list : (prefix : String) → S → Answer (List String) × S

-- What Put of a Store has done with a reader: its error, `none` for nil, and whether it has read all
-- that the reader gives.
pub record Upload : Type 0 where
  pub error : Option Error
  pub read_all : Bool

-- Put of a Store on a reader that gives a text, and then ends, or fails with an error.
abbrev pub Stream : Type 0 → Type 0
Stream S = (key text : String) → Option Error → S → Upload × S
