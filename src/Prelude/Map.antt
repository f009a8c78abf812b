-- ===== src/Prelude/Map.antt =====
-- `std::map` and `std::set`: the entries in the order of their keys. The laws on `lookup` hold of any
-- list of entries, so they need no invariant.
use Prim.Native.Nat.{ℕ}
use mathlib.Core.Path.{◌≡◌, refl}
use mathlib.Core.Logic.{◌↔◌, inl, inr}
use mathlib.Core.Bool.{Bool, true, false}
use mathlib.Core.Option.{Option, none, some}
use mathlib.Core.List.{List, [], ◌∷◌}
use native.Mathlib.Omega.{arith}
use open_madt.Prelude.Tests.{◌==◌, ==_iff, ltb, has, Option-cases, if◌then◌else◌}
use open_madt.Prelude.Text.{Bytes, equal, less, equal_iff}

pub record Key (K : Type 0) : Type 0 where
  pub same : K → K → Bool
  pub before : K → K → Bool
  pub same_iff : (a b : K) → (same a b ≡ true) ↔ (a ≡ b)

instance abbrev pub bytes_key : Key Bytes
bytes_key = record { same = equal; before = less; same_iff = equal_iff }

instance abbrev pub nat_key : Key ℕ
nat_key = record { same = ◌==◌; before = ltb; same_iff = ==_iff }

abbrev pub Map : Type 0 → Type 0 → Type 0
Map K V = List (K × V)

module _ {K V : Type 0} ⦃o : Key K⦄ where
  unfoldable pub lookup : K → Map K V → Option V
  lookup k [] = none
  lookup k ((j, v) ∷ m) = if o.same j k then some v else lookup k m

  unfoldable pub replace : K → V → Map K V → Map K V
  replace k v [] = []
  replace k v ((j, w) ∷ m) =
      let rest = replace k v m in if o.same j k then (j, v) ∷ m else (j, w) ∷ rest

  -- A new key goes in front of the first greater one.
  unfoldable pub place : K → V → Map K V → Map K V
  place k v [] = (k, v) ∷ []
  place k v ((j, w) ∷ m) =
      let rest = place k v m in if o.before k j then (k, v) ∷ (j, w) ∷ m else (j, w) ∷ rest

  -- `m[k] = v`
  unfoldable pub insert : K → V → Map K V → Map K V
  unfolding lookup replace place
  insert k v m = if has (lookup k m) then replace k v m else place k v m

  unfoldable pub erase : K → Map K V → Map K V
  erase k [] = []
  erase k ((j, v) ∷ m) = let rest = erase k m in if o.same j k then rest else (j, v) ∷ rest

  -- `map::emplace`: an entry that is there stays.
  unfoldable pub emplace : K → V → Map K V → Map K V
  emplace k v m = if has (lookup k m) then m else insert k v m

  lookup-replace :
      (k j : K) (v : V) (m : Map K V)
      → has (lookup k m) ≡ true
      → lookup j (replace k v m) ≡ (if o.same k j then some v else lookup j m)
  unfolding lookup replace
  lookup-replace k j v [] h = ground arith
  lookup-replace k j v ((i, w) ∷ m) h =
      ground (arith, o.same_iff k j, o.same_iff i k, o.same_iff i j, lookup-replace k j v m)

  pub lookup-replace_ne :
      (k j : K) (v : V) (m : Map K V) → o.same j k ≡ false → lookup j (replace k v m) ≡ lookup j m
  unfolding lookup replace
  lookup-replace_ne k j v [] h = refl
  lookup-replace_ne k j v ((i, w) ∷ m) h =
      ground (arith, o.same_iff j k, o.same_iff i k, o.same_iff i j, lookup-replace_ne k j v m)

  pub lookup-place :
      (k j : K) (v : V) (m : Map K V)
      → lookup k m ≡ none
      → lookup j (place k v m) ≡ (if o.same k j then some v else lookup j m)
  unfolding lookup place
  lookup-place k j v [] h = refl
  lookup-place k j v ((i, w) ∷ m) h =
      ground (arith, o.same_iff k j, o.same_iff i k, o.same_iff i j, lookup-place k j v m)

  pub lookup-insert :
      (k j : K) (v : V) (m : Map K V)
      → lookup j (insert k v m) ≡ (if o.same k j then some v else lookup j m)
  unfolding insert
  lookup-insert k j v m = elim (Option-cases (lookup k m)) [
    | inl e ↦ rw (e, insert) (lookup-place k j v m e)
    | inr (w, e) ↦ rw (e, insert) (lookup-replace k j v m (rw e))
  ]

  pub lookup-erase :
      (k j : K) (m : Map K V) → lookup j (erase k m) ≡ (if o.same k j then none else lookup j m)
  unfolding lookup erase
  lookup-erase k j [] = ground arith
  lookup-erase k j ((i, w) ∷ m) =
      ground (arith, o.same_iff k j, o.same_iff i k, o.same_iff i j, lookup-erase k j m)

  pub erase-unknown : (k : K) (m : Map K V) → lookup k m ≡ none → erase k m ≡ m
  unfolding erase lookup
  erase-unknown k [] h = refl
  erase-unknown k ((j, v) ∷ m) h = ground (arith, erase-unknown k m)

  erase-place : (k : K) (v : V) (m : Map K V) → lookup k m ≡ none → erase k (place k v m) ≡ m
  unfolding erase place lookup
  erase-place k v [] h = ground (arith, o.same_iff k k)
  erase-place k v ((j, w) ∷ m) h =
      ground (arith, o.same_iff k k, erase-unknown k m, erase-place k v m)

  -- A new entry taken out again.
  pub erase-insert_new :
      (k : K) (v : V) (m : Map K V) → lookup k m ≡ none → erase k (insert k v m) ≡ m
  unfolding insert
  erase-insert_new k v m h = rw (h, insert) (erase-place k v m h)

  pub lookup-emplace :
      (k j : K) (v : V) (m : Map K V)
      → lookup j (emplace k v m)
        ≡ (if o.same k j then (if has (lookup k m) then lookup k m else some v) else lookup j m)
  unfolding emplace
  lookup-emplace k j v m = ground (arith, o.same_iff k j, lookup-insert k j v m)

pub same_refl : {K : Type 0} (o : Key K) (k : K) → o.same k k ≡ true
same_refl o k = (o.same_iff k k).1 refl
