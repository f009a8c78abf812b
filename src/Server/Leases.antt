-- ===== src/Server/Leases.antt =====
-- The tabs and shortcuts that the server knows: ownership by connections, leases and their expiry
-- (madt-server/madt-server.cpp).
use open_madt.Prelude.{
  ℕ, Bool, true, ◌&&◌, ◌||◌, not, none, some, List, [], ◌∷◌, Bytes, ◌==◌, leb, equal, is_empty, has,
  if◌then◌else◌,
}
use open_madt.Prelude.Map.{Map, lookup, insert, erase, emplace, bytes_key, nat_key}
use open_madt.Gui.{ResultCode, GuiCall, GuiReply, GuiLib}
use open_madt.Server.State.{
  ReturnCode, ControlNonce, Leases, Server, World, M, gui_call, modify, lift, ◌>>=◌, ◌>>◌,
  reply_code,
}
use open_madt.Json.Access.{Outcome}

-- `connectionTabs[bev].insert(tabId)`
unfoldable pub insert_owned :
    ℕ → Bytes → Map ℕ (Map Bytes (Unit {0})) → Map ℕ (Map Bytes (Unit {0}))
insert_owned bev tab_id owned = elim (lookup bev owned) [
  | none ↦ insert bev ((tab_id, tt) ∷ []) owned
  | some tabs ↦ insert bev (insert tab_id tt tabs) owned
]

-- A set stays only if it is not empty.
unfoldable pub keep_tabs :
    ℕ → Map Bytes (Unit {0}) → Map ℕ (Map Bytes (Unit {0})) → Map ℕ (Map Bytes (Unit {0}))
keep_tabs bev [] rest = rest
keep_tabs bev (t ∷ ts) rest = (bev, t ∷ ts) ∷ rest

-- The loop of `forgetOwnedTab`: the tab leaves every set.
unfoldable pub drop_owned : Bytes → Map ℕ (Map Bytes (Unit {0})) → Map ℕ (Map Bytes (Unit {0}))
unfolding keep_tabs
drop_owned tab_id [] = []
drop_owned tab_id ((bev, tabs) ∷ owned) =
    keep_tabs bev (erase tab_id tabs) (drop_owned tab_id owned)

-- The keys of the leases that have a time, which has come.
unfoldable pub expired_keys : ℕ → Leases → List Bytes
expired_keys now [] = []
expired_keys now ((key, none) ∷ leases) = expired_keys now leases
expired_keys now ((key, some t) ∷ leases) =
    let rest = expired_keys now leases in if leb t now then key ∷ rest else rest

-- The loop over `controlNonces` of `pruneExpiredTabs`.
unfoldable pub prune_nonces : ℕ → Map Bytes ControlNonce → Map Bytes ControlNonce
prune_nonces now [] = []
prune_nonces now ((key, n) ∷ nonces) =
    let rest = prune_nonces now nonces in
    if n.used || leb n.expires_at now then rest else (key, n) ∷ rest

unfoldable pub has_lease : Leases → Bytes → Bool
has_lease leases id = has (lookup id leases)

module _ {J : Type 0} where
  unfoldable pub remember_owned_tab : ℕ → Bytes → Server J → Server J
  unfolding insert_owned
  remember_owned_tab bev tab_id s = if bev == 0 || is_empty tab_id then s else record s {
    tab_leases = emplace tab_id none s.tab_leases;
    connection_tabs =
        if s.runtime_config.tab_lifetime_by_connection
        then insert_owned bev tab_id s.connection_tabs
        else s.connection_tabs;
  }

  unfoldable pub forget_owned_tab : Bytes → Server J → Server J
  unfolding drop_owned
  forget_owned_tab tab_id s = if is_empty tab_id then s else record s {
    tab_leases = erase tab_id s.tab_leases;
    extra_tab_id = if equal s.extra_tab_id tab_id then [] else s.extra_tab_id;
    connection_tabs = drop_owned tab_id s.connection_tabs;
  }

  unfoldable pub has_tab : Bytes → Server J → Bool
  has_tab tab_id s = has (lookup tab_id s.tab_leases)

  unfoldable pub is_extra_tab : Bytes → Server J → Bool
  is_extra_tab tab_id s = not (is_empty tab_id) && equal tab_id s.extra_tab_id

  -- `tabLeases[id]` and `shortcutLeases[id]` with a time.
  unfoldable pub renew_tab : Bytes → ℕ → Server J → Server J
  renew_tab id deadline s = record s { tab_leases = insert id (some deadline) s.tab_leases }

  unfoldable pub renew_shortcut : Bytes → ℕ → Server J → Server J
  renew_shortcut id deadline s = record s {
    shortcut_leases = insert id (some deadline) s.shortcut_leases;
  }

  -- `eraseConnection`
  unfoldable pub erase_connection : ℕ → Server J → Server J
  erase_connection bev s = record s {
    connection_tabs = erase bev s.connection_tabs;
    connection_buffers = erase bev s.connection_buffers;
  }

  -- What `killTabInternal` does once the call has its reply.
  unfoldable pub after_kill : Bytes → Bool → GuiReply J → Server J → Server J
  after_kill tab_id force (GuiReply.answered ResultCode.ok payload) s =
      if force then forget_owned_tab tab_id s else s
  after_kill tab_id force (GuiReply.answered ResultCode.tab_not_found payload) s = s
  after_kill tab_id force (GuiReply.answered ResultCode.exec_error payload) s = s
  after_kill tab_id force GuiReply.refused s = s

module _ {J G : Type 0} (gui : GuiLib J G) where
  unfoldable pub kill_tab_internal : Bytes → Bool → M J G ReturnCode
  kill_tab_internal tab_id force = do
    reply ← gui_call gui (GuiCall.kill_tab tab_id force)
    modify (after_kill tab_id force reply)
    lift (Outcome.ok (reply_code reply))

  -- A tab that the server gives up: the call has no `CmdResponse`, and its result is not waited for.
  unfoldable pub discard_tab : Bytes → World J G → World J G
  discard_tab tab_id w =
      let (_, g) = gui.call w.gui (GuiCall.kill_tab tab_id true) in
      record w { gui = g; server = forget_owned_tab tab_id w.server }

  unfoldable pub discard_shortcut : Bytes → World J G → World J G
  discard_shortcut id w =
      let (_, g) = gui.call w.gui (GuiCall.kill_shortcut id) in
      record w {
        gui = g;
        server = record w.server { shortcut_leases = erase id w.server.shortcut_leases };
      }

  unfoldable pub discard_tabs : List Bytes → World J G → World J G
  discard_tabs [] w = w
  discard_tabs (id ∷ ids) w = discard_tabs ids (discard_tab id w)

  unfoldable pub discard_shortcuts : List Bytes → World J G → World J G
  discard_shortcuts [] w = w
  discard_shortcuts (id ∷ ids) w = discard_shortcuts ids (discard_shortcut id w)

  -- The loop of `eraseOwnedTabs` over a copy of the set; it passes over an empty key.
  unfoldable pub discard_owned : Map Bytes (Unit {0}) → World J G → World J G
  discard_owned [] w = w
  discard_owned ((id, _) ∷ ids) w = discard_owned ids (if is_empty id then w else discard_tab id w)

  unfoldable pub erase_owned_tabs : ℕ → World J G → World J G
  erase_owned_tabs bev w =
      if not w.server.runtime_config.tab_lifetime_by_connection || bev == 0
      then w
      else elim (lookup bev w.server.connection_tabs) [
        | none ↦ w
        | some tabs ↦ discard_owned tabs w
      ]

  unfoldable pub prune_expired_tabs : ℕ → World J G → World J G
  prune_expired_tabs now w =
      let w1 = discard_tabs (expired_keys now w.server.tab_leases) w in
      let w2 = discard_shortcuts (expired_keys now w1.server.shortcut_leases) w1 in
      record w2 {
        server = record w2.server { control_nonces = prune_nonces now w2.server.control_nonces };
      }

  -- `eventcb` at the end of a connection.
  unfoldable pub close_connection : ℕ → World J G → World J G
  close_connection bev w =
      let w1 = erase_owned_tabs bev w in record w1 { server = erase_connection bev w1.server }
