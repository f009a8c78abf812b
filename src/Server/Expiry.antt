-- ===== src/Server/Expiry.antt =====
-- The end of leases (madt-server/madt-server.cpp): the periodic cleanup.
use open_madt.Prelude.{
  ℕ, Bool, true, false, ◌||◌, Option, none, some, List, [], ◌∷◌, Bytes, ◌≡◌, ap, refl, arith, equal,
  equal_iff, is_empty, leb, if◌then◌else◌, ◌∙◌,
}
use open_madt.Prelude.Map.{Map, lookup, bytes_key, nat_key, lookup-erase}
use open_madt.Prelude.Entries.{IsDistinct}
use open_madt.Gui.{GuiLib}
use open_madt.Server.State.{ControlNonce, Leases, Server, World}
use open_madt.Server.Leases.{
  expired_keys, prune_nonces, forget_owned_tab, discard_tab, discard_tabs, discard_shortcut,
  discard_shortcuts, prune_expired_tabs,
}

abbrev pub contains : Bytes → List Bytes → Bool
contains id [] = false
contains id (k ∷ ks) = if equal k id then true else contains id ks

-- What is left of a lease at a time: nothing once its own time has come.
abbrev pub lease_at : ℕ → Option (Option ℕ) → Option (Option ℕ)
lease_at now none = none
lease_at now (some none) = some none
lease_at now (some (some t)) = if leb t now then none else some (some t)

-- What is left of a nonce at a time: nothing once it is used or its time has come.
abbrev pub nonce_at : ℕ → Option ControlNonce → Option ControlNonce
nonce_at now none = none
nonce_at now (some n) = if n.used || leb n.expires_at now then none else some n

lookup-prune_nonces :
    (now : ℕ) (id : Bytes) (nonces : Map Bytes ControlNonce)
    → IsDistinct nonces
    → lookup id (prune_nonces now nonces) ≡ nonce_at now (lookup id nonces)
unfolding prune_nonces lookup
lookup-prune_nonces now id [] d = refl
lookup-prune_nonces now id ((k, n) ∷ nonces) d =
    ground (arith, equal_iff k id, d.0, lookup-prune_nonces now id nonces d.1)

unknown-expired :
    (now : ℕ) (id : Bytes) (leases : Leases)
    → lookup id leases ≡ none
    → contains id (expired_keys now leases) ≡ false
unfolding expired_keys lookup
unknown-expired now id [] e = refl
unknown-expired now id ((k, none) ∷ leases) e = ground (arith, unknown-expired now id leases)
unknown-expired now id ((k, some t) ∷ leases) e = ground (arith, unknown-expired now id leases)

expired-lease :
    (now : ℕ) (id : Bytes) (leases : Leases)
    → IsDistinct leases
    → (if contains id (expired_keys now leases) then none else lookup id leases)
      ≡ lease_at now (lookup id leases)
unfolding expired_keys lookup
expired-lease now id [] d = refl
expired-lease now id ((k, none) ∷ leases) d = ground (
  arith,
  equal_iff k id,
  d.0,
  ap (λ (x : Bytes). lookup x leases),
  unknown-expired now id leases,
  expired-lease now id leases d.1,
)
expired-lease now id ((k, some t) ∷ leases) d = ground (
  arith,
  equal_iff k id,
  d.0,
  ap (λ (x : Bytes). lookup x leases),
  unknown-expired now id leases,
  expired-lease now id leases d.1,
)

module _ {J : Type 0} where
  pub lookup-forget :
      (id key : Bytes) (s : Server J)
      → is_empty id ≡ false
      → lookup id (forget_owned_tab key s).tab_leases
        ≡ (if equal key id then none else lookup id s.tab_leases)
  unfolding forget_owned_tab
  lookup-forget id key s h = ground (arith, equal_iff key id, lookup-erase key id s.tab_leases)

  forget-shortcuts :
      (key : Bytes) (s : Server J) → (forget_owned_tab key s).shortcut_leases ≡ s.shortcut_leases
  unfolding forget_owned_tab
  forget-shortcuts key s = ground arith

  forget-nonces :
      (key : Bytes) (s : Server J) → (forget_owned_tab key s).control_nonces ≡ s.control_nonces
  unfolding forget_owned_tab
  forget-nonces key s = ground arith

module _ {J G : Type 0} (gui : GuiLib J G) where
  discard_tabs-lookup :
      (ids : List Bytes) (id : Bytes) (w : World J G)
      → is_empty id ≡ false
      → lookup id (discard_tabs gui ids w).server.tab_leases
        ≡ (if contains id ids then none else lookup id w.server.tab_leases)
  unfolding discard_tabs discard_tab
  discard_tabs-lookup [] id w h = refl
  discard_tabs-lookup (k ∷ ks) id w h =
      discard_tabs-lookup ks id (discard_tab gui k w) h
      ∙ ground (arith, lookup-forget id k w.server h)

  discard_tabs-shortcuts :
      (ids : List Bytes) (w : World J G)
      → (discard_tabs gui ids w).server.shortcut_leases ≡ w.server.shortcut_leases
  unfolding discard_tabs discard_tab
  discard_tabs-shortcuts [] w = refl
  discard_tabs-shortcuts (k ∷ ks) w =
      discard_tabs-shortcuts ks (discard_tab gui k w) ∙ forget-shortcuts k w.server

  discard_tabs-nonces :
      (ids : List Bytes) (w : World J G)
      → (discard_tabs gui ids w).server.control_nonces ≡ w.server.control_nonces
  unfolding discard_tabs discard_tab
  discard_tabs-nonces [] w = refl
  discard_tabs-nonces (k ∷ ks) w =
      discard_tabs-nonces ks (discard_tab gui k w) ∙ forget-nonces k w.server

  discard_shortcuts-lookup :
      (ids : List Bytes) (id : Bytes) (w : World J G)
      → lookup id (discard_shortcuts gui ids w).server.shortcut_leases
        ≡ (if contains id ids then none else lookup id w.server.shortcut_leases)
  unfolding discard_shortcuts discard_shortcut
  discard_shortcuts-lookup [] id w = refl
  discard_shortcuts-lookup (k ∷ ks) id w =
      discard_shortcuts-lookup ks id (discard_shortcut gui k w)
      ∙ ground (arith, lookup-erase k id w.server.shortcut_leases)

  discard_shortcuts-tabs :
      (ids : List Bytes) (w : World J G)
      → (discard_shortcuts gui ids w).server.tab_leases ≡ w.server.tab_leases
  unfolding discard_shortcuts discard_shortcut
  discard_shortcuts-tabs [] w = refl
  discard_shortcuts-tabs (k ∷ ks) w = discard_shortcuts-tabs ks (discard_shortcut gui k w)

  discard_shortcuts-nonces :
      (ids : List Bytes) (w : World J G)
      → (discard_shortcuts gui ids w).server.control_nonces ≡ w.server.control_nonces
  unfolding discard_shortcuts discard_shortcut
  discard_shortcuts-nonces [] w = refl
  discard_shortcuts-nonces (k ∷ ks) w = discard_shortcuts-nonces ks (discard_shortcut gui k w)

  prune_expired_tabs-tabs :
      (now : ℕ) (id : Bytes) (w : World J G)
      → IsDistinct w.server.tab_leases
      → is_empty id ≡ false
      → lookup id (prune_expired_tabs gui now w).server.tab_leases
        ≡ lease_at now (lookup id w.server.tab_leases)
  unfolding prune_expired_tabs
  prune_expired_tabs-tabs now id w d h =
      let ids = expired_keys now w.server.tab_leases in
      let w1 = discard_tabs gui ids w in
      rw
        (discard_shortcuts-tabs (expired_keys now w1.server.shortcut_leases) w1, prune_expired_tabs)
        (discard_tabs-lookup ids id w h ∙ expired-lease now id w.server.tab_leases d)

  prune_expired_tabs-shortcuts :
      (now : ℕ) (id : Bytes) (w : World J G)
      → IsDistinct w.server.shortcut_leases
      → lookup id (prune_expired_tabs gui now w).server.shortcut_leases
        ≡ lease_at now (lookup id w.server.shortcut_leases)
  unfolding prune_expired_tabs
  prune_expired_tabs-shortcuts now id w d =
      let w1 = discard_tabs gui (expired_keys now w.server.tab_leases) w in
      let e = discard_tabs-shortcuts (expired_keys now w.server.tab_leases) w in
      discard_shortcuts-lookup (expired_keys now w1.server.shortcut_leases) id w1
      ∙ rw e (expired-lease now id w.server.shortcut_leases d)

  prune_expired_tabs-nonces :
      (now : ℕ) (id : Bytes) (w : World J G)
      → IsDistinct w.server.control_nonces
      → lookup id (prune_expired_tabs gui now w).server.control_nonces
        ≡ nonce_at now (lookup id w.server.control_nonces)
  unfolding prune_expired_tabs
  prune_expired_tabs-nonces now id w d =
      let w1 = discard_tabs gui (expired_keys now w.server.tab_leases) w in
      ap (λ nonces. lookup id (prune_nonces now nonces))
        (discard_shortcuts-nonces (expired_keys now w1.server.shortcut_leases) w1
          ∙ discard_tabs-nonces (expired_keys now w.server.tab_leases) w)
      ∙ lookup-prune_nonces now id w.server.control_nonces d

  -- The cleanup, if no map holds a key twice: a lease goes if it has a time of its own that has come,
  -- and stays as it is otherwise, for each tab with an id that is not empty and each shortcut; a nonce
  -- goes if it is used or over, and stays otherwise.
  pub prune_expired_tabs-expiry :
      (now : ℕ) (id : Bytes) (w : World J G)
      → IsDistinct w.server.tab_leases
      → IsDistinct w.server.shortcut_leases
      → IsDistinct w.server.control_nonces
      → is_empty id ≡ false
      → (lookup id (prune_expired_tabs gui now w).server.tab_leases
          ≡ lease_at now (lookup id w.server.tab_leases))
        × (lookup id (prune_expired_tabs gui now w).server.shortcut_leases
            ≡ lease_at now (lookup id w.server.shortcut_leases))
        × (lookup id (prune_expired_tabs gui now w).server.control_nonces
            ≡ nonce_at now (lookup id w.server.control_nonces))
  prune_expired_tabs-expiry now id w dt ds dn h = (
    prune_expired_tabs-tabs now id w dt h,
    prune_expired_tabs-shortcuts now id w ds,
    prune_expired_tabs-nonces now id w dn,
  )
