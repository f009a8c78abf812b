-- ===== src/IconLoader/Served.antt =====
-- The end of all replies of madt-server/IconLoader.cpp.
use open_madt.Prelude.{
  ℕ, ◌<◌, Option, none, some, List, [], ◌∷◌, ◌++◌, Bytes, true, equal, equal_iff, has, ◌≡◌, refl,
  sym, ap, arith, ◌∙◌, Option-cases, inl, inr, All, if◌then◌else◌,
}
use mathlib.Core.List.{append-nil}
use open_madt.Prelude.Map.{bytes_key, lookup}
use open_madt.IconLoader.{IconLoader, callbacks_of, without, finished}
use open_madt.IconLoader.Counts.{times, asked_for, called_for}
use open_madt.IconLoader.Fair.{Shows}
use open_madt.IconLoader.Steps.{Runs, replies, Runs-IsFair}

no_callbacks : (m : Option (List ℕ)) → ◌≡◌ {A = ℕ} 0 (if has m then 1 else 0) → callbacks_of m ≡ []
no_callbacks none h = refl
no_callbacks (some callbacks) h = absurd (omega (arith, h))

module _ {Icon : Type 0} where
  -- The replies finish in the order of the requests, each with the icon that is given for its URL.
  unfoldable pub answer_all : (Bytes → Icon) → List Bytes → IconLoader Icon → IconLoader Icon
  answer_all icons [] s = s
  answer_all icons (key ∷ keys) s = answer_all icons keys (finished key (icons key) s)

  finished-requests :
      (s : IconLoader Icon) (key : Bytes) (icon : Icon)
      → (finished key icon s).requests ≡ without key s.requests
  unfolding finished
  finished-requests s key icon = elim (Option-cases (lookup key s.pending)) [
    | inl e ↦ rw (e, finished) refl
    | inr (cs, e) ↦ rw (e, finished) refl
  ]

  module _ (null_icon : Icon) (icons : Bytes → Icon) where
    answer_all-Runs :
        (asked : List (Option Bytes × ℕ)) (keys : List Bytes) (s : IconLoader Icon)
        → s.requests ≡ keys
        → Runs null_icon asked s
        → Runs null_icon asked (answer_all icons keys s) × ((answer_all icons keys s).requests ≡ [])
    unfolding answer_all without times
    answer_all-Runs asked [] s e r = (r, e)
    answer_all-Runs asked (key ∷ keys) s e r =
        let same : equal key key ≡ true = (equal_iff key key).1 refl in
        let there : 0 < times key s.requests = rw (e, same) (omega arith) in
        let left : (finished key (icons key) s).requests ≡ keys =
          finished-requests s key (icons key) ∙ rw (e, same) refl in
        answer_all-Runs asked keys (finished key (icons key) s) left
          (replies asked s key (icons key) there r)

    -- From whatever point of a run of the loader, once the replies that are outstanding have finished,
    -- none is outstanding and, for each usable URL, the callbacks that were called are those that had
    -- been asked for, in that order, each once. Each was called with the icon that the cache holds for
    -- its URL, or with the null icon where there was no usable URL.
    pub Runs-Served :
        (asked : List (Option Bytes × ℕ)) (s : IconLoader Icon)
        → Runs null_icon asked s
        → ((answer_all icons s.requests s).requests ≡ [])
          × ((key : Bytes)
              → called_for key (answer_all icons s.requests s).deliveries ≡ asked_for key asked)
          × All
              (Shows null_icon (answer_all icons s.requests s).cache)
              (answer_all icons s.requests s).deliveries
    unfolding times
    Runs-Served asked s r =
        let (ends, idle) = answer_all-Runs asked s.requests s refl r in
        let fair = Runs-IsFair null_icon asked (answer_all icons s.requests s) ends in
        (
          idle,
          (λ key.
              let at_end = fair.one_request key in
              let left = no_callbacks _ (rw idle at at_end) in
              sym (append-nil _)
              ∙ ap (λ (l : List ℕ). called_for key (answer_all icons s.requests s).deliveries ++ l)
                  (sym left)
              ∙ fair.in_order key),
          fair.shown,
        )
