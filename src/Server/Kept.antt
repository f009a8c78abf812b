-- ===== src/Server/Kept.antt =====
-- What every request keeps (madt-server/madt-server.cpp): owned tabs have leases, and spent nonces stay
-- spent.
use open_madt.Prelude.{
  ℕ, Bool, true, false, ◌||◌, none, Bytes, ◌≡◌, inl, inr, refl, arith, has, equal, equal_refl,
  is_empty, Bool-cases, Option-cases, subst, sym, ◌==◌, if◌then◌else◌,
}
use open_madt.Prelude.Int.{ℤ, eq_ℤ}
use open_madt.Prelude.Map.{lookup, erase, emplace, bytes_key, lookup-emplace, insert, lookup-insert}
use open_madt.Json.{JsonLib}
use open_madt.Crypto.{CryptoLib}
use open_madt.Settings.{SettingsState}
use open_madt.Gui.{GuiLib, GuiReply, ResultCode}
use open_madt.Server.State.{ControlNonce, Server, World, Moment, is_ok, reply_code}
use open_madt.Server.Leases.{
  remember_owned_tab, forget_owned_tab, after_kill, renew_tab, renew_shortcut,
}
use open_madt.Server.Tabs.{adopt_tab, adopt_shortcut, release_shortcut, pos_extra}
use open_madt.Server.Control.{adopt_settings}
use open_madt.Server.Dispatch.{serve_text}
use open_madt.Server.Stable.{Stable, serve_text-Holds}
use open_madt.Server.Auth.{Nonces, authorize_control_request, read_token}
use open_madt.Server.Replay.{IsSpentIn, consume_nonce-IsSpentIn}
use open_madt.Server.Ownership.{IsOwned, remember-IsOwned, forget-IsOwned, renew-IsOwned}

module _ {J G : Type 0} (lib : JsonLib J) (crypto : CryptoLib) (gui : GuiLib J G)
    (swvers : Bytes) where
  either : (b : Bool) (s t : Server J) → IsOwned s → IsOwned t → IsOwned (if b then s else t)
  either true s t hs ht = hs
  either false s t hs ht = ht

  adopted-extra :
      (bev : ℕ) (id : Bytes) (s : Server J)
      → (bev == 0 || is_empty id) ≡ false
      → has (lookup id (remember_owned_tab bev id s).tab_leases) ≡ true
  unfolding remember_owned_tab
  adopted-extra bev id s fresh =
      rw (fresh, remember_owned_tab)
        (ground (arith, lookup-emplace id id none s.tab_leases, equal_refl id))

  adopt-IsOwned :
      (bev : ℕ) (id : Bytes) (preferred : ℤ) (reply : GuiReply J) (s : Server J)
      → (bev == 0 || is_empty id) ≡ false
      → IsOwned s
      → IsOwned (adopt_tab lib gui bev id preferred reply s)
  unfolding adopt_tab
  adopt-IsOwned bev id preferred reply s fresh h = elim (Bool-cases (is_ok (reply_code reply))) [
    | inr e ↦ rw (e, adopt_tab) h
    | inl e ↦ elim (Bool-cases (eq_ℤ preferred pos_extra)) [
      | inr k ↦ rw (e, k, adopt_tab) (remember-IsOwned bev id s h)
      | inl k ↦
          rw (e, k, adopt_tab)
            (record {
              owned = (remember-IsOwned bev id s h).owned;
              extra = λ x. adopted-extra bev id s fresh;
            })
    ]
  ]

  killed-IsOwned :
      (id : Bytes) (force : Bool) (reply : GuiReply J) (s : Server J)
      → IsOwned s
      → IsOwned (after_kill id force reply s)
  unfolding after_kill
  killed-IsOwned id true (GuiReply.answered ResultCode.ok payload) s h = forget-IsOwned id s h
  killed-IsOwned id false (GuiReply.answered ResultCode.ok payload) s h = h
  killed-IsOwned id force (GuiReply.answered ResultCode.tab_not_found payload) s h = h
  killed-IsOwned id force (GuiReply.answered ResultCode.exec_error payload) s h = h
  killed-IsOwned id force GuiReply.refused s h = h

  settings-IsOwned :
      (m : Moment) (settings : SettingsState J) (reply : GuiReply J) (s : Server J)
      → IsOwned s
      → IsOwned (adopt_settings swvers m settings reply s)
  unfolding adopt_settings
  settings-IsOwned m settings reply s h = elim (Bool-cases (is_ok (reply_code reply))) [
    | inl e ↦ rw (e, adopt_settings) (record { owned = h.owned; extra = h.extra })
    | inr e ↦ rw (e, adopt_settings) h
  ]

  Stable-IsOwned :
      (bev : ℕ) (m : Moment)
      → (bev == 0 || is_empty m.uuid) ≡ false
      → Stable lib crypto gui swvers bev m (λ s. IsOwned s)
  unfolding adopt_shortcut release_shortcut renew_shortcut adopt_settings
  Stable-IsOwned bev m fresh = record {
    adopted = λ preferred reply s. adopt-IsOwned bev m.uuid preferred reply s fresh;
    killed = killed-IsOwned;
    renewed = renew-IsOwned;
    shortcut_adopted = λ reply s h.
        either (is_ok (reply_code reply))
          (record s { shortcut_leases = emplace m.uuid none s.shortcut_leases }) s
          (record { owned = h.owned; extra = h.extra }) h;
    shortcut_released = λ id reply s h.
        either (is_ok (reply_code reply))
          (record s { shortcut_leases = erase id s.shortcut_leases }) s
          (record { owned = h.owned; extra = h.extra }) h;
    shortcut_renewed = λ id deadline s h. record { owned = h.owned; extra = h.extra };
    settings_adopted = settings-IsOwned m;
    nonce_added = λ nonce before s h. record { owned = h.owned; extra = h.extra };
    authorized = λ request name s h. record { owned = h.owned; extra = h.extra };
  }

  -- With a connection and a UUID that is not empty, as libuuid makes them, a request that finds every
  -- owned tab with a lease leaves every owned tab with a lease, whatever its text.
  pub serve_text-IsOwned :
      (bev : ℕ) (m : Moment) (text : Bytes) (w : World J G)
      → (bev == 0 || is_empty m.uuid) ≡ false
      → IsOwned w.server
      → IsOwned (serve_text lib crypto gui swvers bev m text w).1.server
  serve_text-IsOwned bev m text w fresh h =
      serve_text-Holds lib crypto gui swvers bev m (λ s. IsOwned s) (Stable-IsOwned bev m fresh)
        text w h

  settings-nonces :
      (m : Moment) (settings : SettingsState J) (reply : GuiReply J) (s : Server J)
      → (adopt_settings swvers m settings reply s).control_nonces ≡ s.control_nonces
  unfolding adopt_settings
  settings-nonces m settings reply s = ground arith

  killed-nonces :
      (id : Bytes) (force : Bool) (reply : GuiReply J) (s : Server J)
      → (after_kill id force reply s).control_nonces ≡ s.control_nonces
  unfolding after_kill forget_owned_tab
  killed-nonces id force (GuiReply.answered ResultCode.ok payload) s = ground arith
  killed-nonces id force (GuiReply.answered ResultCode.tab_not_found payload) s = refl
  killed-nonces id force (GuiReply.answered ResultCode.exec_error payload) s = refl
  killed-nonces id force GuiReply.refused s = refl

  adopted-nonces :
      (bev : ℕ) (id : Bytes) (preferred : ℤ) (reply : GuiReply J) (s : Server J)
      → (adopt_tab lib gui bev id preferred reply s).control_nonces ≡ s.control_nonces
  unfolding adopt_tab remember_owned_tab
  adopted-nonces bev id preferred reply s = ground arith

  shortcut_adopted-nonces :
      (id : Bytes) (reply : GuiReply J) (s : Server J)
      → (adopt_shortcut lib gui id reply s).control_nonces ≡ s.control_nonces
  unfolding adopt_shortcut
  shortcut_adopted-nonces id reply s = ground arith

  shortcut_released-nonces :
      (id : Bytes) (reply : GuiReply J) (s : Server J)
      → (release_shortcut lib gui id reply s).control_nonces ≡ s.control_nonces
  unfolding release_shortcut
  shortcut_released-nonces id reply s = ground arith

  authorized-IsSpent :
      (id : Bytes) (request : J) (name : Bytes) (now : ℕ) (s : Server J)
      → IsSpentIn id s.control_nonces
      → IsSpentIn id (authorize_control_request lib crypto request name now s).1
  unfolding authorize_control_request
  authorized-IsSpent id request name now s h =
      elim (Bool-cases (is_empty s.runtime_config.control_psk)) [
        | inl e ↦ rw (e, authorize_control_request) h
        | inr e ↦ elim (Option-cases (read_token lib crypto request)) [
          | inl k ↦ rw (e, k, authorize_control_request) h
          | inr (token, k) ↦
              rw (e, k, authorize_control_request)
                (consume_nonce-IsSpentIn lib crypto s.runtime_config.control_psk name id now token
                  s.control_nonces h)
        ]
      ]

  added-IsSpent :
      (id uuid : Bytes) (nonce : ControlNonce) (nonces : Nonces)
      → equal uuid id ≡ false
      → IsSpentIn id nonces
      → IsSpentIn id (insert uuid nonce nonces)
  added-IsSpent id uuid nonce nonces other h n e =
      ground (arith, h n, lookup-insert uuid id nonce nonces)

  Stable-IsSpent :
      (bev : ℕ) (m : Moment) (id : Bytes)
      → equal m.uuid id ≡ false
      → Stable lib crypto gui swvers bev m (λ s. IsSpentIn id s.control_nonces)
  unfolding renew_shortcut renew_tab
  Stable-IsSpent bev m id other = record {
    adopted = λ preferred reply s.
        subst (IsSpentIn id) (sym (adopted-nonces bev m.uuid preferred reply s));
    killed = λ key force reply s. subst (IsSpentIn id) (sym (killed-nonces key force reply s));
    renewed = λ key deadline s h. h;
    shortcut_adopted =
        λ reply s. subst (IsSpentIn id) (sym (shortcut_adopted-nonces m.uuid reply s));
    shortcut_released =
        λ key reply s. subst (IsSpentIn id) (sym (shortcut_released-nonces key reply s));
    shortcut_renewed = λ key deadline s h. h;
    settings_adopted =
        λ settings reply s. subst (IsSpentIn id) (sym (settings-nonces m settings reply s));
    nonce_added = λ nonce before s. added-IsSpent id m.uuid _ s.control_nonces other;
    authorized = λ request name s. authorized-IsSpent id request name m.now s;
  }

  -- A nonce that was used or given up does not come back: no request makes it usable again, unless
  -- the request's UUID is the id of the nonce.
  pub serve_text-IsSpent :
      (bev : ℕ) (m : Moment) (text id : Bytes) (w : World J G)
      → equal m.uuid id ≡ false
      → IsSpentIn id w.server.control_nonces
      → IsSpentIn id (serve_text lib crypto gui swvers bev m text w).1.server.control_nonces
  serve_text-IsSpent bev m text id w other h =
      serve_text-Holds lib crypto gui swvers bev m (λ s. IsSpentIn id s.control_nonces)
        (Stable-IsSpent bev m id other) text w h
