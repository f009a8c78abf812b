-- ===== src/IconLoader.antt =====
-- madt-server/IconLoader.cpp: the icons of tabs and shortcuts, each fetched once. A callback is a number.
-- The answers of the network are inputs, in any order.
pub mod Counts
pub mod Fair
pub mod Steps
pub mod Served
use open_madt.Prelude.{
  ℕ, Bool, Option, none, some, List, [], ◌∷◌, ◌++◌, Bytes, length, ltb, equal, if◌then◌else◌,
}
use open_madt.Prelude.Map.{Map, bytes_key, lookup, insert, erase}

-- A call of a callback, with the URL that it was for, if that was usable.
pub record Delivery (Icon : Type 0) : Type 0 where
  pub url : Option Bytes
  pub callback : ℕ
  pub icon : Icon

-- `requests` are the URLs whose replies have not finished, `deliveries` the calls of callbacks so far.
pub record IconLoader (Icon : Type 0) : Type 0 where
  pub cache : Map Bytes Icon
  pub pending : Map Bytes (List ℕ)
  pub requests : List Bytes
  pub deliveries : List (Delivery Icon)

-- `pending[key]`, which is empty where there is none
abbrev pub callbacks_of : Option (List ℕ) → List ℕ
callbacks_of none = []
callbacks_of (some callbacks) = callbacks

-- A reply has finished.
unfoldable pub without : Bytes → List Bytes → List Bytes
without key [] = []
without key (k ∷ keys) = let rest = without key keys in if equal k key then keys else k ∷ rest

unfoldable pub call_all : {Icon : Type 0} → Bytes → Icon → List ℕ → List (Delivery Icon)
call_all key icon [] = []
call_all key icon (c ∷ callbacks) =
    record { url = some key; callback = c; icon = icon } ∷ call_all key icon callbacks

module _ {Icon : Type 0} where
  abbrev pub new_loader : IconLoader Icon
  new_loader = record { cache = []; pending = []; requests = []; deliveries = [] }

  abbrev pub deliver : Option Bytes → ℕ → Icon → IconLoader Icon → IconLoader Icon
  deliver url callback icon s = record s {
    deliveries = s.deliveries ++ record { url = url; callback = callback; icon = icon } ∷ [];
  }

  -- One that is not the first for its URL waits for the reply to the first.
  unfoldable pub wait_for : Bytes → ℕ → IconLoader Icon → IconLoader Icon
  wait_for key callback s =
      let callbacks = callbacks_of (lookup key s.pending) ++ callback ∷ [] in
      let waiting = record s { pending = insert key callbacks s.pending } in
      if ltb 1 (length callbacks)
      then waiting
      else record waiting { requests = s.requests ++ key ∷ [] }

  -- The URL is `none` if it is not valid or is empty.
  unfoldable pub load_icon : Icon → Option Bytes → ℕ → IconLoader Icon → IconLoader Icon
  unfolding wait_for
  load_icon null_icon none callback s = deliver none callback null_icon s
  load_icon null_icon (some key) callback s = elim (lookup key s.cache) [
    | some icon ↦ deliver (some key) callback icon s
    | none ↦ wait_for key callback s
  ]

  -- The callback of a reply; the icon is the null icon if the reply is an error or no picture.
  unfoldable pub finished : Bytes → Icon → IconLoader Icon → IconLoader Icon
  unfolding call_all without
  finished key icon s =
      let done = record s { cache = insert key icon s.cache; requests = without key s.requests } in
      elim (lookup key s.pending) [
        | some callbacks ↦ record done {
          deliveries = s.deliveries ++ call_all key icon callbacks;
          pending = erase key s.pending;
        }
        | none ↦ done
      ]
