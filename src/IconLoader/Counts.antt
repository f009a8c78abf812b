-- ===== src/IconLoader/Counts.antt =====
-- The callbacks and requests of madt-server/IconLoader.cpp that belong to a URL.
use open_madt.Prelude.{
  ℕ, ◌+◌, ◌&&◌, ◌==◌, Bool, false, Option, none, some, List, [], ◌∷◌, ◌++◌, Bytes, equal, equal_iff,
  ◌≡◌, refl, arith, if◌then◌else◌, Bool-cases, inl, inr,
}
use open_madt.IconLoader.{Delivery, without, call_all}

-- How often a URL is in a list.
unfoldable pub times : Bytes → List Bytes → ℕ
times key [] = 0
times key (k ∷ keys) = let rest = times key keys in if equal k key then 1 + rest else rest

-- The callbacks that were asked for with a URL, or called for it, in order.
abbrev pub is_for : Bytes → Option Bytes → Bool
is_for key none = false
is_for key (some url) = equal url key

unfoldable pub asked_for : Bytes → List (Option Bytes × ℕ) → List ℕ
asked_for key [] = []
asked_for key ((url, c) ∷ asked) =
    let rest = asked_for key asked in if is_for key url then c ∷ rest else rest

module _ {Icon : Type 0} where
  unfoldable pub called_for : Bytes → List (Delivery Icon) → List ℕ
  called_for key [] = []
  called_for key (d ∷ deliveries) =
      let rest = called_for key deliveries in if is_for key d.url then d.callback ∷ rest else rest

  pub called_for-append :
      (key : Bytes) (xs ys : List (Delivery Icon))
      → called_for key (xs ++ ys) ≡ called_for key xs ++ called_for key ys
  unfolding called_for
  called_for-append key [] ys = refl
  called_for-append key (d ∷ xs) ys = elim (Bool-cases (is_for key d.url)) [
    | inl e ↦ rw (e, called_for, called_for-append key xs ys) refl
    | inr e ↦ rw (e, called_for, called_for-append key xs ys) refl
  ]

  pub called_for-call_all :
      (key url : Bytes) (icon : Icon) (callbacks : List ℕ)
      → called_for key (call_all url icon callbacks) ≡ (if equal url key then callbacks else [])
  unfolding called_for call_all
  called_for-call_all key url icon [] = ground arith
  called_for-call_all key url icon (c ∷ callbacks) =
      ground (arith, called_for-call_all key url icon callbacks)

pub asked_for-append :
    (key : Bytes) (xs ys : List (Option Bytes × ℕ))
    → asked_for key (xs ++ ys) ≡ asked_for key xs ++ asked_for key ys
unfolding asked_for
asked_for-append key [] ys = refl
asked_for-append key ((url, c) ∷ xs) ys = elim (Bool-cases (is_for key url)) [
  | inl e ↦ rw (e, asked_for, asked_for-append key xs ys) refl
  | inr e ↦ rw (e, asked_for, asked_for-append key xs ys) refl
]

pub times-append :
    (key : Bytes) (xs ys : List Bytes) → times key (xs ++ ys) ≡ times key xs + times key ys
unfolding times
times-append key [] ys = ground arith
times-append key (k ∷ xs) ys = ground (arith, times-append key xs ys)

pub times-without :
    (key url : Bytes) (xs : List Bytes)
    → times key (without url xs) + (if equal url key then 1 else 0)
      ≡ times key xs + (if equal url key && times url xs == 0 then 1 else 0)
unfolding times without
times-without key url [] = ground arith
times-without key url (k ∷ xs) =
    ground (arith, equal_iff k url, equal_iff k key, equal_iff url key, times-without key url xs)
