-- ===== src/Server/Closing.antt =====
-- The end of a connection (madt-server/madt-server.cpp): the tabs that it owns lose their leases.
use open_madt.Prelude.{
  ℕ, true, false, none, some, [], ◌∷◌, Bytes, ◌≡◌, ap, inl, inr, refl, arith, has, equal_iff,
  is_empty, Option-cases, Bool-cases, ◌==◌, if◌then◌else◌, ◌∙◌,
}
use open_madt.Prelude.Map.{Map, lookup, bytes_key, nat_key, lookup-erase}
use open_madt.Gui.{GuiLib}
use open_madt.Server.State.{World}
use open_madt.Server.Leases.{
  erase_connection, discard_tab, discard_owned, erase_owned_tabs, close_connection,
}
use open_madt.Server.Expiry.{lookup-forget}

-- The tabs of a connection.
abbrev pub tabs_of : ℕ → Map ℕ (Map Bytes (Unit {0})) → Map Bytes (Unit {0})
tabs_of bev owned = elim (lookup bev owned) [ none ↦ [] | some tabs ↦ tabs ]

module _ {J G : Type 0} (gui : GuiLib J G) where
  discard_owned-lookup :
      (tabs : Map Bytes (Unit {0})) (id : Bytes) (w : World J G)
      → is_empty id ≡ false
      → lookup id (discard_owned gui tabs w).server.tab_leases
        ≡ (if has (lookup id tabs) then none else lookup id w.server.tab_leases)
  unfolding discard_owned discard_tab lookup
  discard_owned-lookup [] id w h = refl
  discard_owned-lookup ((k, _) ∷ ks) id w h = elim (Bool-cases (is_empty k)) [
    | inl e ↦
        rw (e, discard_owned)
          (discard_owned-lookup ks id w h ∙ ground (arith, equal_iff k id, ap is_empty))
    | inr e ↦
        rw (e, discard_owned)
          (discard_owned-lookup ks id (discard_tab gui k w) h
            ∙ ground (arith, lookup-forget id k w.server h))
  ]

  owned-lease :
      (bev : ℕ) (id : Bytes) (w : World J G)
      → w.server.runtime_config.tab_lifetime_by_connection ≡ true
      → (bev == 0) ≡ false
      → is_empty id ≡ false
      → lookup id (erase_owned_tabs gui bev w).server.tab_leases ≡ (
          if has (lookup id (tabs_of bev w.server.connection_tabs))
          then none
          else lookup id w.server.tab_leases)
  unfolding erase_owned_tabs lookup
  owned-lease bev id w lifetime live h = elim (Option-cases (lookup bev w.server.connection_tabs)) [
    | inl e ↦ ground (arith, e, lifetime, live)
    | inr (tabs, e) ↦ ground (arith, e, lifetime, live, discard_owned-lookup tabs id w h)
  ]

  -- The end of a connection, where the lifetime of tabs is that of their connection: the tabs that it
  -- owns lose their leases, every other tab keeps its lease as it is, and the connection owns nothing
  -- and has no buffer any more. The id of the tab is not empty, and the connection is not null.
  pub close_connection-leases :
      (bev : ℕ) (id : Bytes) (w : World J G)
      → w.server.runtime_config.tab_lifetime_by_connection ≡ true
      → (bev == 0) ≡ false
      → is_empty id ≡ false
      → (lookup id (close_connection gui bev w).server.tab_leases ≡ (
          if has (lookup id (tabs_of bev w.server.connection_tabs))
          then none
          else lookup id w.server.tab_leases))
        × (lookup bev (close_connection gui bev w).server.connection_tabs ≡ none)
        × (lookup bev (close_connection gui bev w).server.connection_buffers ≡ none)
  unfolding close_connection erase_connection
  close_connection-leases bev id w lifetime live h =
      let s = (erase_owned_tabs gui bev w).server in
      (
        owned-lease bev id w lifetime live h,
        ground (arith, lookup-erase bev bev s.connection_tabs),
        ground (arith, lookup-erase bev bev s.connection_buffers),
      )
