-- ===== src/Browser/Popup/Current.antt =====
-- What the popup of the shortcuts shows (madt-server/Browser.cpp).
use open_madt.Prelude.{
  ℕ, suc, ◌+◌, ◌*◌, ◌<◌, Bool, true, false, not, ◌||◌, Option, none, some, List, [], ◌∷◌, Bytes,
  length, ◌≡◌, ◌⊎◌, refl, sym, subst, arith, inl, inr, has, if-cases, Option-cases, ltb,
  if◌then◌else◌,
}
use native.Mathlib.Nat.{div-add-mod', mod-lt}
use open_madt.Prelude.Int.{ℤ, pos_part}
use open_madt.Prelude.Map.{lookup, insert, erase, bytes_key, erase-insert_new}
use open_madt.Config.{RuntimeConfig}
use open_madt.Gui.{ResultCode, tab_not_found, exec_error}
use open_madt.Browser.{ShortcutEntry, Browser, sort}
use open_madt.Browser.Handlers.{
  max_shortcut_count, add_shortcut, shelve, on_new_shortcut, on_kill_shortcut,
  shortcuts_in_display_order,
}
use open_madt.Browser.Popup.{
  Button, Panel, columns_of, button_at, fill_grid, has_none, update_shortcut_launcher_state,
  rebuild_shortcut_popup, setup_shortcut_ui, toggle_shortcut_popup, activate_shortcut,
  show_shortcuts, new_shortcut, kill_shortcut,
}

-- The cells are those of the grid from a number on, row by row.
unfoldable pub FillCells : ℕ → ℕ → List Button → Type 0
FillCells columns i [] = Unit
FillCells columns i (b ∷ buttons) =
    (b.row * columns + b.column ≡ i) × (b.column < columns) × FillCells columns (suc i) buttons

module _ {J : Type 0} where
  columns_of-positive : (config : RuntimeConfig J) → 0 < columns_of config
  columns_of-positive config =
      let n = pos_part config.shortcut_popup_columns in
      if-cases (λ (c : ℕ). 0 < c) (ltb 1 n) _ _ (λ e. ground arith) (λ e. omega arith)

  fill_grid-FillCells :
      (config : RuntimeConfig J) (i : ℕ) (shortcuts : List ShortcutEntry)
      → FillCells (columns_of config) i (fill_grid config i shortcuts)
  unfolding FillCells fill_grid button_at
  fill_grid-FillCells config i [] = tt
  fill_grid-FillCells config i (shortcut ∷ rest) = (
    div-add-mod' i (columns_of config),
    mod-lt i (columns_of-positive config),
    fill_grid-FillCells config (suc i) rest,
  )

  -- The buttons are those of the shortcuts in their order, the launcher is enabled and counts them if
  -- there are any, and the popup is not open without them.
  pub record IsCurrent (p : Panel J) : Type 0 where
    pub buttons :
        p.buttons ≡ fill_grid p.browser.runtime_config 0 (shortcuts_in_display_order p.browser)
    pub enabled : p.launcher.enabled ≡ not (has_none p.browser.shortcuts)
    pub number :
        p.launcher.number
        ≡ (if has_none p.browser.shortcuts then none else some (length p.browser.shortcuts))
    pub closed : has_none p.browser.shortcuts ≡ true → p.popup_visible ≡ false

  hidden : Bool → Panel J → Panel J
  hidden v p = record p { popup_visible = v }

  hidden-IsCurrent :
      (v : Bool) (p : Panel J)
      → (has_none p.browser.shortcuts ≡ true → v ≡ false)
      → IsCurrent p
      → IsCurrent (hidden v p)
  unfolding hidden
  hidden-IsCurrent v p h k = record {
    buttons = k.buttons;
    enabled = k.enabled;
    number = k.number;
    closed = h;
  }

  show-IsCurrent : (b : Browser J) (p : Panel J) → IsCurrent (show_shortcuts ResultCode.ok b p)
  unfolding show_shortcuts update_shortcut_launcher_state rebuild_shortcut_popup
  show-IsCurrent b p = record {
    buttons = refl;
    enabled = refl;
    number = refl;
    closed = λ e. rw e refl;
  }

  -- A call that is not answered with OK leaves the browser as it was.
  abbrev Refuses : Browser J → ResultCode × Browser J → Type 0
  Refuses b (code, after) = (code ≡ ResultCode.ok) ⊎ (after ≡ b)

  shown-IsCurrent :
      (r : ResultCode × Browser J) (p : Panel J)
      → Refuses p.browser r
      → IsCurrent p
      → IsCurrent (show_shortcuts r.0 r.1 p)
  unfolding show_shortcuts
  shown-IsCurrent (ResultCode.ok, b) p h k = show-IsCurrent b p
  shown-IsCurrent (tab_not_found, b) p (inl e) k = absurd cc
  shown-IsCurrent (tab_not_found, b) p (inr e) k =
      subst (λ (c : Browser J). IsCurrent (record p { browser = c })) (sym e) k
  shown-IsCurrent (exec_error, b) p (inl e) k = absurd cc
  shown-IsCurrent (exec_error, b) p (inr e) k =
      subst (λ (c : Browser J). IsCurrent (record p { browser = c })) (sym e) k

  add_shortcut-Refuses :
      (entry : ShortcutEntry) (b : Browser J) (n : Option ℕ)
      → lookup entry.shortcut_id b.shortcuts ≡ none
      → Refuses b (add_shortcut entry (insert entry.shortcut_id entry b.shortcuts) b n)
  unfolding add_shortcut
  add_shortcut-Refuses entry b (some n) h = inl refl
  add_shortcut-Refuses entry b none h =
      inr (rw (erase-insert_new entry.shortcut_id entry b.shortcuts h) refl)

  new-Refuses :
      (url icon_url : Bytes) (preferred_pos flags : ℤ) (id : Bytes) (b : Browser J)
      → lookup id b.shortcuts ≡ none
      → Refuses b (on_new_shortcut url icon_url preferred_pos flags id b)
  unfolding on_new_shortcut shelve
  new-Refuses url icon_url preferred_pos flags id b h =
      if-cases (Refuses b) (not b.runtime_config.shortcuts_enabled) _ _ (λ e. inr refl)
        (λ e.
          if-cases (Refuses b) (ltb (length b.shortcuts) (max_shortcut_count b)) _ _
            (λ q. add_shortcut-Refuses _ b _ h) (λ q. inr refl))

  kill-Refuses : (id : Bytes) (b : Browser J) → Refuses b (on_kill_shortcut id b)
  unfolding on_kill_shortcut
  kill-Refuses id b =
      if-cases (Refuses b) (has (lookup id b.shortcuts))
        (ResultCode.ok, record b { shortcuts = erase id b.shortcuts }) (tab_not_found, b)
        (λ e. inl refl) (λ e. inr refl)

  toggle-IsCurrent : (p : Panel J) → IsCurrent p → IsCurrent (toggle_shortcut_popup p)
  unfolding toggle_shortcut_popup rebuild_shortcut_popup hidden
  toggle-IsCurrent p k =
      if-cases IsCurrent
        (has_none p.browser.shortcuts
          || not p.browser.runtime_config.shortcuts_enabled
          || not p.browser.runtime_config.shortcut_launcher_visible)
        _ _ (λ e. k)
        (λ e.
          let some_there : has_none p.browser.shortcuts ≡ false = ground arith in
          if-cases IsCurrent p.popup_visible _ _ (λ q. hidden-IsCurrent false p (λ h. refl) k)
            (λ q. record {
              buttons = refl;
              enabled = k.enabled;
              number = k.number;
              closed = λ h. absurd cc;
            }))

  activate-IsCurrent :
      (id : Bytes) (p : Panel J) → IsCurrent p → IsCurrent (activate_shortcut id p).1
  unfolding activate_shortcut hidden
  activate-IsCurrent id p k = elim (Option-cases (lookup id p.browser.shortcuts)) [
    | inl e ↦ rw (e, activate_shortcut) k
    | inr (s, e) ↦
        rw (e, activate_shortcut)
          (if-cases IsCurrent p.browser.runtime_config.shortcut_auto_close _ _
            (λ q. hidden-IsCurrent false p (λ h. refl) k) (λ q. k))
  ]

  -- The slots with identifiers of their own, the clicks, a click beside the popup, and an icon that was
  -- loaded, from a new browser on.
  pub data Runs : Browser J → Panel J → Type 0 where
    begins : (b : Browser J) → Runs b (setup_shortcut_ui b)
    adds :
        (b : Browser J) (p : Panel J) (url icon_url : Bytes) (preferred_pos flags : ℤ) (id : Bytes)
        → lookup id p.browser.shortcuts ≡ none
        → Runs b p
        → Runs b (new_shortcut url icon_url preferred_pos flags id p).1
    kills : (b : Browser J) (p : Panel J) (id : Bytes) → Runs b p → Runs b (kill_shortcut id p).1
    toggles : (b : Browser J) (p : Panel J) → Runs b p → Runs b (toggle_shortcut_popup p)
    activates :
        (b : Browser J) (p : Panel J) (id : Bytes) → Runs b p → Runs b (activate_shortcut id p).1
    leaves : (b : Browser J) (p : Panel J) → Runs b p → Runs b (record p { popup_visible = false })
    loads_icon : (b : Browser J) (p : Panel J) → Runs b p → Runs b (rebuild_shortcut_popup p)

  rebuild-IsCurrent : (p : Panel J) → IsCurrent p → IsCurrent (rebuild_shortcut_popup p)
  unfolding rebuild_shortcut_popup
  rebuild-IsCurrent p k = record {
    buttons = refl;
    enabled = k.enabled;
    number = k.number;
    closed = k.closed;
  }

  setup-IsCurrent : (b : Browser J) → IsCurrent (setup_shortcut_ui b)
  unfolding setup_shortcut_ui shortcuts_in_display_order fill_grid sort
  setup-IsCurrent b = record { buttons = refl; enabled = refl; number = refl; closed = λ e. refl }

  Runs-IsCurrent' : (b : Browser J) (p : Panel J) → Runs b p → IsCurrent p
  unfolding new_shortcut kill_shortcut hidden
  Runs-IsCurrent' b p (begins _) = setup-IsCurrent b
  Runs-IsCurrent' b p (adds _ q url icon_url preferred_pos flags id fresh r) =
      shown-IsCurrent (on_new_shortcut url icon_url preferred_pos flags id q.browser) q
        (new-Refuses url icon_url preferred_pos flags id q.browser fresh) (Runs-IsCurrent' b q r)
  Runs-IsCurrent' b p (kills _ q id r) =
      shown-IsCurrent (on_kill_shortcut id q.browser) q (kill-Refuses id q.browser)
        (Runs-IsCurrent' b q r)
  Runs-IsCurrent' b p (toggles _ q r) = toggle-IsCurrent q (Runs-IsCurrent' b q r)
  Runs-IsCurrent' b p (activates _ q id r) = activate-IsCurrent id q (Runs-IsCurrent' b q r)
  Runs-IsCurrent' b p (leaves _ q r) = hidden-IsCurrent false q (λ h. refl) (Runs-IsCurrent' b q r)
  Runs-IsCurrent' b p (loads_icon _ q r) = rebuild-IsCurrent q (Runs-IsCurrent' b q r)

  -- From a new browser on, whatever shortcuts are added with identifiers of their own, removed and
  -- activated, and whenever the popup is opened and closed and icons arrive: the buttons of the popup
  -- are those of the shortcuts in their order and stand row by row in cells of their own, the launcher is
  -- enabled if there are shortcuts and counts them, and the popup is closed if there are none.
  pub Runs-IsCurrent :
      (b : Browser J) (p : Panel J)
      → Runs b p
      → IsCurrent p × FillCells (columns_of p.browser.runtime_config) 0 p.buttons
  Runs-IsCurrent b p r =
      let k = Runs-IsCurrent' b p r in
      (
        k,
        subst (FillCells (columns_of p.browser.runtime_config) 0) (sym k.buttons)
            (fill_grid-FillCells p.browser.runtime_config 0 (shortcuts_in_display_order p.browser)),
      )
