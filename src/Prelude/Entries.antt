-- ===== src/Prelude/Entries.antt =====
-- Properties of all entries of a map, and maps whose keys are distinct.
use mathlib.Core.Path.{◌≡◌, refl, sym, ◌∙◌, subst, subst₂}
use mathlib.Core.Logic.{inl, inr}
use mathlib.Core.Bool.{false}
use mathlib.Core.Option.{none, some, some-injective}
use mathlib.Core.List.{List, [], ◌∷◌}
use native.Mathlib.Omega.{arith}
use open_madt.Prelude.Tests.{Bool-cases, Option-cases}
use open_madt.Prelude.Lists.{All}
use open_madt.Prelude.Map.{
  Key, Map, lookup, insert, replace, place, erase, lookup-erase, lookup-place, lookup-replace_ne,
}

module _ {K V : Type 0} ⦃o : Key K⦄ where
  abbrev pub IsDistinct : Map K V → Type 0
  IsDistinct [] = Unit
  IsDistinct ((k, v) ∷ m) = (lookup k m ≡ none) × IsDistinct m

  pub erase-IsDistinct : (k : K) (m : Map K V) → IsDistinct m → IsDistinct (erase k m)
  unfolding erase
  erase-IsDistinct k [] d = tt
  erase-IsDistinct k ((j, v) ∷ m) d = ground (arith, erase-IsDistinct k m d.1, lookup-erase k j m)

  replace-IsDistinct : (k : K) (v : V) (m : Map K V) → IsDistinct m → IsDistinct (replace k v m)
  unfolding replace
  replace-IsDistinct k v [] d = tt
  replace-IsDistinct k v ((j, w) ∷ m) d = elim (Bool-cases (o.same j k)) [
    | inl e ↦ rw (e, replace) d
    | inr e ↦ rw (e, replace) (lookup-replace_ne k j v m e ∙ d.0, replace-IsDistinct k v m d.1)
  ]

  place-IsDistinct :
      (k : K) (v : V) (m : Map K V) → lookup k m ≡ none → IsDistinct m → IsDistinct (place k v m)
  unfolding place lookup
  place-IsDistinct k v [] h d = (refl, tt)
  place-IsDistinct k v ((j, w) ∷ m) h d =
      ground (arith, lookup-place k j v m, place-IsDistinct k v m, o.same_iff k j, o.same_iff j k)

  pub insert-IsDistinct : (k : K) (v : V) (m : Map K V) → IsDistinct m → IsDistinct (insert k v m)
  unfolding insert
  insert-IsDistinct k v m d = elim (Option-cases (lookup k m)) [
    | inl e ↦ rw (e, insert) (place-IsDistinct k v m e d)
    | inr (w, e) ↦ rw (e, insert) (replace-IsDistinct k v m d)
  ]

module _ {K V : Type 0} ⦃o : Key K⦄ (P : K × V → Type 0) where
  pub All-lookup : (k : K) (v : V) (m : Map K V) → All P m → lookup k m ≡ some v → P (k, v)
  unfolding lookup
  All-lookup k v [] a h = absurd (ground arith)
  All-lookup k v ((j, w) ∷ m) a h = elim (Bool-cases (o.same j k)) [
    | inl e ↦
        subst₂ (λ i x. P (i, x)) ((o.same_iff j k).0 e) (some-injective w v (rw (e, lookup) at h))
          a.0
    | inr e ↦ All-lookup k v m a.1 (rw (e, lookup) at h)
  ]

  All-replace : (k : K) (v : V) (m : Map K V) → All P m → P (k, v) → All P (replace k v m)
  unfolding replace
  All-replace k v [] a h = tt
  All-replace k v ((j, w) ∷ m) a h = elim (Bool-cases (o.same j k)) [
    | inl e ↦ rw (e, replace) (subst (λ i. P (i, v)) (sym ((o.same_iff j k).0 e)) h, a.1)
    | inr e ↦ rw (e, replace) (a.0, All-replace k v m a.1 h)
  ]

  All-place : (k : K) (v : V) (m : Map K V) → All P m → P (k, v) → All P (place k v m)
  unfolding place
  All-place k v [] a h = (h, tt)
  All-place k v ((j, w) ∷ m) a h = ground (arith, All-place k v m a.1 h)

  pub All-insert : (k : K) (v : V) (m : Map K V) → All P m → P (k, v) → All P (insert k v m)
  unfolding insert
  All-insert k v m a h = elim (Option-cases (lookup k m)) [
    | inl e ↦ rw (e, insert) (All-place k v m a h)
    | inr (w, e) ↦ rw (e, insert) (All-replace k v m a h)
  ]

  -- What is left once a key is erased: the property, of other keys.
  pub All-erase :
      (k : K) (m : Map K V)
      → All P m
      → All (λ (e : K × V). P e × (o.same e.0 k ≡ false)) (erase k m)
  unfolding erase
  All-erase k [] a = tt
  All-erase k ((j, v) ∷ m) a = elim (Bool-cases (o.same j k)) [
    | inl e ↦ rw (e, erase) (All-erase k m a.1)
    | inr e ↦ rw (e, erase) ((a.0, e), All-erase k m a.1)
  ]

pub All-map {ℓ} :
    {A : Type ℓ} (P Q : A → Type 0) (xs : List A) → ((a : A) → P a → Q a) → All P xs → All Q xs
All-map P Q [] f a = tt
All-map P Q (x ∷ xs) f a = (f x a.0, All-map P Q xs f a.1)
