-- ===== src/Json.antt =====
-- The interface of the JSON library nlohmann/json, which the program calls and which is not part of
-- the repository. The type of documents and these operations are parameters of the model.
pub mod Access
use open_madt.Prelude.{
  Bool, true, Option, some, List, ◌∷◌, String, Bytes, ◌≡◌, has, [], none, if◌then◌else◌,
}
use open_madt.Prelude.Int.{ℤ}
use text.Mathlib.Text.{◌==◌ as same_text}

pub record JsonLib (J : Type 0) : Type 0 where
  -- `is_object()`, `is_null()` and `is_number_integer()`
  pub is_object : J → Bool
  pub is_null : J → Bool
  pub is_number_integer : J → Bool
  -- `find(key)`; `none` is `end()`, also where the value is no object
  pub find : J → String → Option J
  -- `is_string()` with `get<std::string>()`, and `is_boolean()` with `get<bool>()`: `none` if the
  -- value is of another kind, where `get` throws
  pub get_string : J → Option Bytes
  pub get_bool : J → Option Bool
  -- `get<int>()`; `none` if it throws
  pub get_int : J → Option ℤ
  -- `items()` of an object
  pub items : J → List (Bytes × J)
  -- `json::parse`; `none` if it throws
  pub parse : Bytes → Option J
  -- values built by the program
  pub null : J
  pub text : Bytes → J
  pub int : ℤ → J
  pub object : List (String × J) → J
  pub array : List J → J

-- The first of the fields with this key.
unfoldable pub first_field {ℓ} : {J : Type ℓ} → String → List (String × J) → Option J
first_field k [] = none
first_field k ((j, v) ∷ fields) = if same_text j k then some v else first_field k fields

-- What the library documents of the values that the program builds and reads.
pub record JsonLaws {J : Type 0} (lib : JsonLib J) : Type 0 where
  pub is_object-object : (fields : List (String × J)) → lib.is_object (lib.object fields) ≡ true
  pub find-object :
      (fields : List (String × J)) (k : String)
      → lib.find (lib.object fields) k ≡ first_field k fields
  pub get_string-text : (b : Bytes) → lib.get_string (lib.text b) ≡ some b
  pub get_int-int : (i : ℤ) → lib.get_int (lib.int i) ≡ some i
  pub is_number_integer-int : (i : ℤ) → lib.is_number_integer (lib.int i) ≡ true
  -- `get<int>` does not throw at an integer
  pub get_int_integer : (j : J) → lib.is_number_integer j ≡ true → has (lib.get_int j) ≡ true
  -- only an object has fields
  pub find_is_object : (j : J) (k : String) → has (lib.find j k) ≡ true → lib.is_object j ≡ true
