-- ===== src/Python/Exception.antt =====
-- Exceptions as values. The classes that a handler names are constructors, `other` is any class
-- that no handler names; each carries what `str(exc)` gives. `storage_error` is GoogleDriveError or
-- DropboxError, and an HTTPException has its status and its detail.
use event_creator.Prelude.{ℕ, ◌≡◌, refl, ◌++◌}
use event_creator.Python.Text.{Text, lit, str_ℕ}

pub data Exception : Type 0 where
  value_error overflow_error validation_error archive_error gemini_error runtime_error :
      Text → Exception
  not_implemented_error os_error eof_error zlib_error bad_zip_file storage_error other :
      Text → Exception
  http_exception : ℕ → Text → Exception

abbrev pub str_exception : Exception → Text
str_exception (value_error t) = t
str_exception (overflow_error t) = t
str_exception (validation_error t) = t
str_exception (archive_error t) = t
str_exception (gemini_error t) = t
str_exception (runtime_error t) = t
str_exception (not_implemented_error t) = t
str_exception (os_error t) = t
str_exception (eof_error t) = t
str_exception (zlib_error t) = t
str_exception (bad_zip_file t) = t
str_exception (storage_error t) = t
str_exception (other t) = t
str_exception (http_exception status detail) = str_ℕ status ++ (lit ": " ++ detail)

pub data Result {ℓ} (A : Type ℓ) : Type ℓ where
  ok : A → Result A
  err : Exception → Result A

-- What follows in the function, which an exception skips.
infixl 5 ◌>>=◌
abbrev pub ◌>>=◌ {ℓ κ} :
    {A : Type ℓ} {B : Type κ} (before : Result A) (after : A → Result B) → Result B
ok value >>= after = after value
err exception >>= after = err exception

-- A function that returned has passed its first part.
pub >>=-eq-ok {ℓ κ} :
    {A : Type ℓ} {B : Type κ} (before : Result A) (after : A → Result B) {last : B}
    → (before >>= after) ≡ ok last
    → (value : A) × (before ≡ ok value) × (after value ≡ ok last)
>>=-eq-ok (ok value) after returned = (value, refl, returned)
>>=-eq-ok (err exception) after returned = cc
