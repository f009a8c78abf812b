-- ===== src/IconLoader/Steps.antt =====
-- The loader of madt-server/IconLoader.cpp, its callers and the network, in any order.
use open_madt.Prelude.{
  ℕ, ◌<◌, true, false, Option, none, some, List, [], ◌∷◌, ◌++◌, Bytes, length, length-append, ltb,
  equal, equal_iff, has, ◌≡◌, refl, sym, ap, subst, arith, ◌∙◌, Bool-cases, Option-cases, inl, inr,
  All, All-append,
}
use mathlib.Core.List.{append-nil}
use open_madt.Prelude.Map.{Map, bytes_key, lookup, insert, erase, lookup-insert, lookup-erase}
use open_madt.IconLoader.Counts.{
  times, asked_for, called_for, called_for-append, called_for-call_all, times-append, times-without,
}
use open_madt.IconLoader.{
  Delivery, IconLoader, callbacks_of, without, call_all, new_loader, wait_for, load_icon, finished,
}
use open_madt.IconLoader.Fair.{Shows, IsFair, deliver-IsFair, queued, queued-IsFair}

module _ {Icon : Type 0} (null_icon : Icon) where
  -- The loader, its callers and the network, in any order.
  pub data Runs : List (Option Bytes × ℕ) → IconLoader Icon → Type 0 where
    begins : Runs [] new_loader
    asks :
        (asked : List (Option Bytes × ℕ)) (s : IconLoader Icon) (url : Option Bytes) (callback : ℕ)
        → Runs asked s
        → Runs (asked ++ (url, callback) ∷ []) (load_icon null_icon url callback s)
    replies :
        (asked : List (Option Bytes × ℕ)) (s : IconLoader Icon) (key : Bytes) (icon : Icon)
        → 0 < times key s.requests
        → Runs asked s
        → Runs asked (finished key icon s)

  one-cached :
      (key : Bytes) (icon : Icon) (cache : Map Bytes Icon) (url : Option Bytes) (c : ℕ)
      (shown : Icon)
      → has (lookup key cache) ≡ false
      → Shows null_icon cache (record { url = url; callback = c; icon = shown })
      → Shows null_icon (insert key icon cache) (record { url = url; callback = c; icon = shown })
  one-cached key icon cache none c shown free h = h
  one-cached key icon cache (some url) c shown free h =
      ground (arith, lookup-insert key url icon cache, equal_iff key url)

  All-cached :
      (key : Bytes) (icon : Icon) (cache : Map Bytes Icon) (xs : List (Delivery Icon))
      → has (lookup key cache) ≡ false
      → All (Shows null_icon cache) xs
      → All (Shows null_icon (insert key icon cache)) xs
  All-cached key icon cache [] free h = tt
  All-cached key icon cache (d ∷ xs) free h = (
    one-cached key icon cache d.url d.callback d.icon free h.0,
    All-cached key icon cache xs free h.1,
  )

  call_all-Shows :
      (cache : Map Bytes Icon) (key : Bytes) (icon : Icon) (callbacks : List ℕ)
      → lookup key cache ≡ some icon
      → All (Shows null_icon cache) (call_all key icon callbacks)
  unfolding call_all
  call_all-Shows cache key icon [] e = tt
  call_all-Shows cache key icon (c ∷ callbacks) e = (e, call_all-Shows cache key icon callbacks e)

  wait_for-IsFair :
      (asked : List (Option Bytes × ℕ)) (s : IconLoader Icon) (key : Bytes) (c : ℕ)
      → IsFair null_icon asked s
      → has (lookup key s.cache) ≡ false
      → IsFair null_icon (asked ++ (some key, c) ∷ []) (wait_for key c s)
  unfolding wait_for times queued
  wait_for-IsFair asked s key c k e = elim (Option-cases (lookup key s.pending)) [
    | inl w ↦
        let first : ltb 1 (length (callbacks_of (lookup key s.pending) ++ c ∷ [])) ≡ false =
          rw w refl in
        subst (IsFair null_icon (asked ++ (some key, c) ∷ [])) (rw (first, wait_for, queued) refl) (
          queued-IsFair null_icon asked s key c (s.requests ++ key ∷ []) k e (λ j.
            ground (arith, times-append j s.requests (key ∷ []), k.one_request j, equal_iff key j)))
    | inr (cs, w) ↦
        let later : ltb 1 (length (callbacks_of (lookup key s.pending) ++ c ∷ [])) ≡ true =
          rw w (ground (arith, length-append cs (c ∷ []), k.some_callback key cs w)) in
        subst (IsFair null_icon (asked ++ (some key, c) ∷ [])) (rw (later, wait_for, queued) refl) (
          queued-IsFair null_icon asked s key c s.requests k e
            (λ j. ground (arith, k.one_request j, equal_iff key j)))
  ]

  pub finished_lem :
      (s : IconLoader Icon) (key : Bytes) (icon : Icon) (callbacks : List ℕ)
      → lookup key s.pending ≡ some callbacks
      → finished key icon s ≡ record {
        cache = insert key icon s.cache;
        pending = erase key s.pending;
        requests = without key s.requests;
        deliveries = s.deliveries ++ call_all key icon callbacks;
      }
  unfolding finished
  finished_lem s key icon callbacks e = rw (e, finished) refl

  finished-IsFair :
      (asked : List (Option Bytes × ℕ)) (s : IconLoader Icon) (key : Bytes) (icon : Icon)
      → IsFair null_icon asked s
      → 0 < times key s.requests
      → IsFair null_icon asked (finished key icon s)
  finished-IsFair asked s key icon k h = elim (Option-cases (lookup key s.pending)) [
    | inl e ↦ absurd (ground (arith, k.one_request key))
    | inr (cs, e) ↦ subst (IsFair null_icon asked) (sym (finished_lem s key icon cs e)) (record {
      in_order = λ j.
          rw
            (
              called_for-append j s.deliveries (call_all key icon cs),
              called_for-call_all j key icon cs,
              lookup-erase key j s.pending,
            )
            (elim (Bool-cases (equal key j)) [
              | inl q ↦
                  let at_j : lookup j s.pending ≡ some cs =
                    ap (λ (i : Bytes). lookup i s.pending) (sym ((equal_iff key j).0 q)) ∙ e in
                  rw (q, append-nil (called_for j s.deliveries ++ cs))
                    (ap (λ (l : Option (List ℕ)). called_for j s.deliveries ++ callbacks_of l)
                        (sym at_j)
                      ∙ k.in_order j)
              | inr q ↦ rw (q, append-nil (called_for j s.deliveries)) (k.in_order j)
            ]);
      one_request = λ j. ground (
        arith,
        lookup-erase key j s.pending,
        times-without j key s.requests,
        k.one_request j,
        equal_iff key j,
      );
      cached = λ j q. ground (
        arith,
        lookup-erase key j s.pending,
        lookup-insert key j icon s.cache,
        k.cached j,
        equal_iff key j,
      );
      some_callback = λ j ds q. ground (arith, lookup-erase key j s.pending, k.some_callback j ds);
      shown =
          All-append (Shows null_icon (insert key icon s.cache)) s.deliveries (call_all key icon cs)
            (All-cached key icon s.cache s.deliveries (ground (arith, k.cached key)) k.shown)
            (call_all-Shows (insert key icon s.cache) key icon cs
              (ground (arith, lookup-insert key key icon s.cache, equal_iff key key)));
    })
  ]

  load_icon-IsFair :
      (asked : List (Option Bytes × ℕ)) (s : IconLoader Icon) (url : Option Bytes) (c : ℕ)
      → IsFair null_icon asked s
      → IsFair null_icon (asked ++ (url, c) ∷ []) (load_icon null_icon url c s)
  unfolding load_icon
  load_icon-IsFair asked s none c k =
      deliver-IsFair null_icon asked s none c null_icon k refl (λ key e. absurd cc)
  load_icon-IsFair asked s (some key) c k = elim (Option-cases (lookup key s.cache)) [
    | inl e ↦ rw (e, load_icon) (wait_for-IsFair asked s key c k (rw e refl))
    | inr (icon, e) ↦
        rw (e, load_icon)
          (deliver-IsFair null_icon asked s (some key) c icon k e
            (λ j q. ground (arith, k.cached j, equal_iff key j)))
  ]

  pub Runs-IsFair :
      (asked : List (Option Bytes × ℕ)) (s : IconLoader Icon)
      → Runs asked s
      → IsFair null_icon asked s
  unfolding lookup times called_for asked_for
  Runs-IsFair asked s begins = record {
    in_order = λ key. refl;
    one_request = λ key. refl;
    cached = λ key h. refl;
    some_callback = λ key callbacks h. absurd cc;
    shown = tt;
  }
  Runs-IsFair asked s (asks before t url c r) =
      load_icon-IsFair before t url c (Runs-IsFair before t r)
  Runs-IsFair asked s (replies before t key icon h r) =
      finished-IsFair before t key icon (Runs-IsFair before t r) h
