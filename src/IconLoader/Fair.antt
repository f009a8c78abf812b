-- ===== src/IconLoader/Fair.antt =====
-- The callbacks of madt-server/IconLoader.cpp: which are called, with what, in any order of replies.
use open_madt.Prelude.{
  ℕ, ◌<◌, true, false, Option, none, some, List, [], ◌∷◌, ◌++◌, Bytes, length, length-append, equal,
  equal_iff, has, ◌≡◌, sym, ap, arith, ◌∙◌, if◌then◌else◌, Bool-cases, inl, inr, All, All-append,
}
use mathlib.Core.List.{append_assoc, append-nil}
use open_madt.Prelude.Map.{Map, bytes_key, lookup, insert, lookup-insert}
use open_madt.IconLoader.Counts.{
  times, is_for, asked_for, called_for, called_for-append, asked_for-append,
}
use open_madt.IconLoader.{Delivery, IconLoader, callbacks_of, deliver}

module _ {Icon : Type 0} (null_icon : Icon) where
  -- The icon is the null icon without a URL, and else the one that was fetched.
  abbrev pub Shows : Map Bytes Icon → Delivery Icon → Type 0
  Shows cache d = elim d.url [
    | none ↦ d.icon ≡ null_icon
    | some key ↦ lookup key cache ≡ some d.icon
  ]

  pub record IsFair (asked : List (Option Bytes × ℕ)) (s : IconLoader Icon) : Type 0 where
    pub in_order :
        (key : Bytes)
        → called_for key s.deliveries ++ callbacks_of (lookup key s.pending) ≡ asked_for key asked
    pub one_request :
        (key : Bytes) → times key s.requests ≡ (if has (lookup key s.pending) then 1 else 0)
    pub cached :
        (key : Bytes) → has (lookup key s.cache) ≡ true → has (lookup key s.pending) ≡ false
    pub some_callback :
        (key : Bytes) (callbacks : List ℕ)
        → lookup key s.pending ≡ some callbacks
        → 0 < length callbacks
    pub shown : All (Shows s.cache) s.deliveries

  asked_for-end :
      (key : Bytes) (asked : List (Option Bytes × ℕ)) (url : Option Bytes) (c : ℕ)
      → asked_for key (asked ++ (url, c) ∷ [])
        ≡ asked_for key asked ++ (if is_for key url then c ∷ [] else [])
  unfolding asked_for
  asked_for-end key asked url c = asked_for-append key asked ((url, c) ∷ [])

  called_for-end :
      (key : Bytes) (xs : List (Delivery Icon)) (d : Delivery Icon)
      → called_for key (xs ++ d ∷ [])
        ≡ called_for key xs ++ (if is_for key d.url then d.callback ∷ [] else [])
  unfolding called_for
  called_for-end key xs d = called_for-append key xs (d ∷ [])

  pub deliver-IsFair :
      (asked : List (Option Bytes × ℕ)) (s : IconLoader Icon) (url : Option Bytes) (c : ℕ)
      (icon : Icon)
      → IsFair asked s
      → Shows s.cache (record { url = url; callback = c; icon = icon })
      → ((key : Bytes) → is_for key url ≡ true → callbacks_of (lookup key s.pending) ≡ [])
      → IsFair (asked ++ (url, c) ∷ []) (deliver url c icon s)
  deliver-IsFair asked s url c icon k shows free = record {
    in_order = λ key.
        let d : Delivery Icon = record { url = url; callback = c; icon = icon } in
        rw (called_for-end key s.deliveries d, asked_for-end key asked url c)
          (elim (Bool-cases (is_for key url)) [
            | inl e ↦
                let same : called_for key s.deliveries ++ [] ≡ asked_for key asked =
                  ap (λ (l : List ℕ). called_for key s.deliveries ++ l) (sym (free key e))
                  ∙ k.in_order key in
                rw (e, free key e)
                  (append-nil _
                    ∙ ap (λ (l : List ℕ). l ++ c ∷ [])
                        (sym (append-nil (called_for key s.deliveries)) ∙ same))
            | inr e ↦
                rw (e, append-nil (called_for key s.deliveries), append-nil (asked_for key asked))
                  (k.in_order key)
          ]);
    one_request = k.one_request;
    cached = k.cached;
    some_callback = k.some_callback;
    shown = All-append (Shows s.cache) s.deliveries _ k.shown (shows, tt);
  }

  unfoldable pub queued : Bytes → ℕ → List Bytes → IconLoader Icon → IconLoader Icon
  queued key c requests s = record s {
    pending = insert key (callbacks_of (lookup key s.pending) ++ c ∷ []) s.pending;
    requests = requests;
  }

  pub queued-IsFair :
      (asked : List (Option Bytes × ℕ)) (s : IconLoader Icon) (key : Bytes) (c : ℕ)
      (requests : List Bytes)
      → IsFair asked s
      → has (lookup key s.cache) ≡ false
      → ((k : Bytes) → times k requests ≡ (if equal key k then 1 else times k s.requests))
      → IsFair (asked ++ (some key, c) ∷ []) (queued key c requests s)
  unfolding queued
  queued-IsFair asked s key c requests k free once =
      let callbacks = callbacks_of (lookup key s.pending) ++ c ∷ [] in
      record {
        in_order = λ j.
            rw (asked_for-end j asked (some key) c, lookup-insert key j callbacks s.pending)
              (elim (Bool-cases (equal key j)) [
                | inl e ↦
                    rw (e, (equal_iff key j).0 e)
                      (sym (
                          append_assoc (called_for j s.deliveries)
                            (callbacks_of (lookup j s.pending)) (c ∷ []))
                        ∙ ap (λ (l : List ℕ). l ++ c ∷ []) (k.in_order j))
                | inr e ↦ rw (e, append-nil) (k.in_order j)
              ]);
        one_request =
            λ j. ground (arith, once j, lookup-insert key j callbacks s.pending, k.one_request j);
        cached = λ j h.
            ground (arith, lookup-insert key j callbacks s.pending, k.cached j, equal_iff key j);
        some_callback = λ j cs h. ground (
          arith,
          lookup-insert key j callbacks s.pending,
          k.some_callback j cs,
          length-append (callbacks_of (lookup key s.pending)) (c ∷ []),
        );
        shown = k.shown;
      }
