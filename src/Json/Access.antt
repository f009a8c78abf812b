-- ===== src/Json/Access.antt =====
-- How an expression over a document ends: with a value, by an exception, or outside the defined
-- behaviour of C++. The reads that the program's handlers make of a `const json&`.
use open_madt.Prelude.{Option, none, some, String, Bytes, if◌then◌else◌}
use open_madt.Prelude.Int.{ℤ}
use open_madt.Json.{JsonLib}

pub data Outcome {ℓ} (A : Type ℓ) : Type ℓ where
  ok : A → Outcome A
  throws : Outcome A
  undefined : Outcome A

infixl 5 ◌>>=◌
abbrev pub ◌>>=◌ {ℓ κ} : {A : Type ℓ} {B : Type κ} → Outcome A → (A → Outcome B) → Outcome B
ok a >>= f = f a
throws >>= f = throws
undefined >>= f = undefined

abbrev pub or_throw {ℓ} : {A : Type ℓ} → Option A → Outcome A
or_throw none = throws
or_throw (some a) = ok a

module _ {J : Type 0} (lib : JsonLib J) where
  -- `operator[]` of a `const json&`: it throws at a value that is no object, and its behaviour at a
  -- missing key is undefined.
  unfoldable pub at : J → String → Outcome J
  at j k =
      if lib.is_object j then elim (lib.find j k) [ none ↦ undefined | some v ↦ ok v ] else throws

  -- `j[k]` where a `std::string` is expected.
  unfoldable pub string_at : J → String → Outcome Bytes
  unfolding at
  string_at j k = at j k >>= λ v. or_throw (lib.get_string v)

  -- `j.value(k, default)` for a string and for an `int`.
  unfoldable pub string_or : J → String → Bytes → Outcome Bytes
  string_or j k default =
      if lib.is_object j
      then elim (lib.find j k) [ none ↦ ok default | some v ↦ or_throw (lib.get_string v) ]
      else throws

  unfoldable pub int_or : J → String → ℤ → Outcome ℤ
  int_or j k default =
      if lib.is_object j
      then elim (lib.find j k) [ none ↦ ok default | some v ↦ or_throw (lib.get_int v) ]
      else throws

  -- `j.contains(k) && j[k].is_string()`, with the string.
  unfoldable pub string_field : J → String → Option Bytes
  string_field j k = elim (lib.find j k) [ none ↦ none | some v ↦ lib.get_string v ]
