-- ===== src/Browser/Tally.antt =====
-- How many elements of a list pass a test: the measure in which madt-server/Browser.cpp gives each
-- position to at most one page.
use open_madt.Prelude.{
  ℕ, zero, suc, ◌+◌, ◌≤◌, Bool, true, false, none, some, List, [], ◌∷◌, ◌++◌, Bytes, ◌≡◌, ap, refl,
  arith, equal, equal_iff, has, length, drop, Bool-cases, inl, inr,
}
use open_madt.Prelude.Map.{Map, lookup, replace, place, insert, erase, bytes_key}
use open_madt.Prelude.Entries.{IsDistinct}
use mathlib.Core.Option.{some-injective}
use open_madt.Browser.{insert_sorted, sort}

abbrev pub one : Bool → ℕ
one true = 1
one false = 0

module _ {A : Type 0} where
  unfoldable pub tally : (A → Bool) → List A → ℕ
  tally p [] = 0
  tally p (x ∷ xs) = one (p x) + tally p xs

  pub tally-append : (p : A → Bool) (xs ys : List A) → tally p (xs ++ ys) ≡ tally p xs + tally p ys
  unfolding tally
  tally-append p [] ys = omega arith
  tally-append p (x ∷ xs) ys = omega (arith, tally-append p xs ys)

  tally-insert_sorted :
      (p : A → Bool) (before : A → A → Bool) (x : A) (xs : List A)
      → tally p (insert_sorted before x xs) ≡ one (p x) + tally p xs
  unfolding tally insert_sorted
  tally-insert_sorted p before x [] = refl
  tally-insert_sorted p before x (y ∷ ys) = elim (Bool-cases (before x y)) [
    | inl e ↦ rw (e, insert_sorted) refl
    | inr e ↦ rw (e, insert_sorted) (omega (arith, tally-insert_sorted p before x ys))
  ]

  pub tally-sort :
      (p : A → Bool) (before : A → A → Bool) (xs : List A) → tally p (sort before xs) ≡ tally p xs
  unfolding tally sort
  tally-sort p before [] = refl
  tally-sort p before (x ∷ xs) =
      omega (arith, tally-insert_sorted p before x (sort before xs), tally-sort p before xs)

  pub tally-drop_le : (p : A → Bool) (n : ℕ) (xs : List A) → tally p (drop n xs) ≤ tally p xs
  unfolding tally
  tally-drop_le p zero xs = omega arith
  tally-drop_le p (suc n) [] = omega arith
  tally-drop_le p (suc n) (x ∷ xs) = omega (arith, tally-drop_le p n xs)

  length-insert_sorted :
      (before : A → A → Bool) (x : A) (xs : List A)
      → length (insert_sorted before x xs) ≡ suc (length xs)
  unfolding insert_sorted
  length-insert_sorted before x [] = refl
  length-insert_sorted before x (y ∷ ys) = ground (arith, length-insert_sorted before x ys)

  pub length-sort : (before : A → A → Bool) (xs : List A) → length (sort before xs) ≡ length xs
  unfolding sort
  length-sort before [] = refl
  length-sort before (x ∷ xs) =
      omega (arith, length-insert_sorted before x (sort before xs), length-sort before xs)

-- A new entry.
pub tally-place :
    {V : Type 0} (p : Bytes × V → Bool) (k : Bytes) (v : V) (m : Map Bytes V)
    → tally p (place k v m) ≡ one (p (k, v)) + tally p m
unfolding tally place
tally-place p k v [] = refl
tally-place p k v ((j, w) ∷ m) = ground (arith, tally-place p k v m)

-- Entries of a map, by a test of their values.
module _ {V : Type 0} (q : V → Bool) where
  abbrev pub value : Bytes × V → Bool
  value (k, v) = q v

  pub tally-erase_le : (k : Bytes) (m : Map Bytes V) → tally value (erase k m) ≤ tally value m
  unfolding tally erase
  tally-erase_le k [] = omega arith
  tally-erase_le k ((j, v) ∷ m) = ground (arith, tally-erase_le k m)

  tally-replace_le :
      (k : Bytes) (v : V) (m : Map Bytes V)
      → tally value (replace k v m) ≤ one (q v) + tally value m
  unfolding tally replace
  tally-replace_le k v [] = omega arith
  tally-replace_le k v ((j, w) ∷ m) = ground (arith, tally-replace_le k v m)

  pub tally-insert_le :
      (k : Bytes) (v : V) (m : Map Bytes V) → tally value (insert k v m) ≤ one (q v) + tally value m
  unfolding insert
  tally-insert_le k v m = elim (Bool-cases (has (lookup k m))) [
    | inl e ↦ rw (e, insert) (tally-replace_le k v m)
    | inr e ↦ rw (e, insert) (omega (arith, tally-place value k v m))
  ]

abbrev pub key_is : {V : Type 0} → Bytes → Bytes × V → Bool
key_is k (j, v) = equal j k

module _ {V : Type 0} where
  tally-unknown : (k : Bytes) (m : Map Bytes V) → lookup k m ≡ none → tally (key_is k) m ≡ 0
  unfolding tally lookup
  tally-unknown k [] h = refl
  tally-unknown k ((j, v) ∷ m) h = ground (arith, tally-unknown k m)

  -- Distinct keys: at most one entry of each key.
  pub tally-IsDistinct_le : (k : Bytes) (m : Map Bytes V) → IsDistinct m → tally (key_is k) m ≤ 1
  unfolding tally
  tally-IsDistinct_le k [] d = omega arith
  tally-IsDistinct_le k ((j, v) ∷ m) d = elim (Bool-cases (equal j k)) [
    | inl e ↦ ground (arith, equal_iff j k, tally-unknown j m, d.0)
    | inr e ↦ ground (arith, tally-IsDistinct_le k m, d.1)
  ]

module _ {V : Type 0} (q : V → Bool) where
  tally-replace_same :
      (k : Bytes) (v w : V) (m : Map Bytes V)
      → lookup k m ≡ some w
      → q v ≡ q w
      → tally (value q) (replace k v m) ≡ tally (value q) m
  unfolding tally replace lookup
  tally-replace_same k v w [] h e = absurd (ground arith)
  tally-replace_same k v w ((j, u) ∷ m) h e = elim (Bool-cases (equal j k)) [
    | inl i ↦ ground (arith, ap q, some-injective u w (rw (i, lookup) at h))
    | inr i ↦ ground (arith, tally-replace_same k v w m (rw (i, lookup) at h) e)
  ]

  -- An entry that is overwritten by a value with the same answer.
  pub tally-insert_same :
      (k : Bytes) (v w : V) (m : Map Bytes V)
      → lookup k m ≡ some w
      → q v ≡ q w
      → tally (value q) (insert k v m) ≡ tally (value q) m
  unfolding insert
  tally-insert_same k v w m h e = rw (h, insert) (tally-replace_same k v w m h e)
