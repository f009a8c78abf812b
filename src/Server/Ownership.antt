-- ===== src/Server/Ownership.antt =====
-- Which tabs a connection owns, and what happens to them when it closes.
use open_madt.Prelude.{
  ℕ, Bool, true, false, ◌||◌, Option, none, some, [], ◌∷◌, Bytes, ◌≡◌, inl, inr, arith, has, All,
  equal, equal_iff, equal_refl, is_empty, Option-cases, Bool-cases, ◌==◌, if◌then◌else◌,
}
use open_madt.Prelude.Map.{
  Map, lookup, insert, erase, emplace, bytes_key, nat_key, lookup-insert, lookup-erase,
  lookup-emplace,
}
use open_madt.Prelude.Entries.{All-lookup, All-insert, All-erase, All-map}
use open_madt.Server.State.{Leases, Server}
use open_madt.Server.Leases.{
  insert_owned, keep_tabs, drop_owned, remember_owned_tab, forget_owned_tab, erase_connection,
  renew_tab,
}

abbrev pub Tabs : Type 0
Tabs = Map Bytes (Unit {0})

-- Every tab of a set has a lease.
abbrev pub IsKnown : Leases → ℕ × Tabs → Type 0
IsKnown leases (bev, tabs) = All (λ (t : Bytes × Unit {0}). has (lookup t.0 leases) ≡ true) tabs

-- Every tab that a connection owns has a lease, and so has the tab of the extra zone.
pub record IsOwned {J : Type 0} (s : Server J) : Type 0 where
  pub owned : All (IsKnown s.tab_leases) s.connection_tabs
  pub extra : is_empty s.extra_tab_id ≡ false → has (lookup s.extra_tab_id s.tab_leases) ≡ true

-- More leases: `next` knows what `leases` knows.
abbrev Grows : Leases → Leases → Type 0
Grows leases next = (id : Bytes) → has (lookup id leases) ≡ true → has (lookup id next) ≡ true

grow-owned :
    (leases next : Leases) (owned : Map ℕ Tabs)
    → Grows leases next
    → All (IsKnown leases) owned
    → All (IsKnown next) owned
grow-owned leases next owned g a =
    All-map (IsKnown leases) (IsKnown next) owned (λ e k. All-map _ _ e.1 (λ t. g t.0) k) a

emplace-Grows : (id : Bytes) (v : Option ℕ) (leases : Leases) → Grows leases (emplace id v leases)
emplace-Grows id v leases j h = ground (arith, lookup-emplace id j v leases, equal_iff id j)

insert-Grows : (id : Bytes) (v : Option ℕ) (leases : Leases) → Grows leases (insert id v leases)
insert-Grows id v leases j h = ground (arith, lookup-insert id j v leases)

insert_owned-IsKnown :
    (leases : Leases) (bev : ℕ) (id : Bytes) (owned : Map ℕ Tabs)
    → has (lookup id leases) ≡ true
    → All (IsKnown leases) owned
    → All (IsKnown leases) (insert_owned bev id owned)
unfolding insert_owned
insert_owned-IsKnown leases bev id owned h a = elim (Option-cases (lookup bev owned)) [
  | inl e ↦ rw (e, insert_owned) (All-insert (IsKnown leases) bev _ owned a (h, tt))
  | inr (tabs, e) ↦
      rw (e, insert_owned)
        (All-insert (IsKnown leases) bev _ owned a
          (All-insert _ id tt tabs (All-lookup (IsKnown leases) bev tabs owned a e) h))
]

keep_tabs-IsKnown :
    (leases : Leases) (bev : ℕ) (tabs : Tabs) (rest : Map ℕ Tabs)
    → IsKnown leases (bev, tabs)
    → All (IsKnown leases) rest
    → All (IsKnown leases) (keep_tabs bev tabs rest)
unfolding keep_tabs
keep_tabs-IsKnown leases bev [] rest k a = a
keep_tabs-IsKnown leases bev (t ∷ ts) rest k a = (k, a)

erased-known :
    (leases : Leases) (id : Bytes) (t : Bytes × Unit {0})
    → (has (lookup t.0 leases) ≡ true) × (equal t.0 id ≡ false)
    → has (lookup t.0 (erase id leases)) ≡ true
erased-known leases id t h =
    ground (arith, lookup-erase id t.0 leases, equal_iff id t.0, equal_iff t.0 id, h.0, h.1)

drop_owned-IsKnown :
    (leases : Leases) (id : Bytes) (owned : Map ℕ Tabs)
    → All (IsKnown leases) owned
    → All (IsKnown (erase id leases)) (drop_owned id owned)
unfolding drop_owned
drop_owned-IsKnown leases id [] a = tt
drop_owned-IsKnown leases id ((bev, tabs) ∷ owned) a =
    keep_tabs-IsKnown (erase id leases) bev (erase id tabs) (drop_owned id owned)
      (All-map _ _ (erase id tabs) (erased-known leases id)
        (All-erase (λ (t : Bytes × Unit {0}). has (lookup t.0 leases) ≡ true) id tabs a.0))
      (drop_owned-IsKnown leases id owned a.1)

erase-IsKnown :
    (leases : Leases) (bev : ℕ) (owned : Map ℕ Tabs)
    → All (IsKnown leases) owned
    → All (IsKnown leases) (erase bev owned)
erase-IsKnown leases bev owned a =
    All-map _ _ (erase bev owned) (λ e k. k.0) (All-erase (IsKnown leases) bev owned a)

module _ {J : Type 0} where
  remembered-IsOwned :
      (bev : ℕ) (id : Bytes) (s : Server J)
      → IsOwned s
      → (lifetime : Bool)
      → All
          (IsKnown (emplace id none s.tab_leases))
          (if lifetime then insert_owned bev id s.connection_tabs else s.connection_tabs)
  remembered-IsOwned bev id s h true =
      insert_owned-IsKnown _ bev id s.connection_tabs
        (ground (arith, lookup-emplace id id none s.tab_leases, equal_refl id))
        (grow-owned s.tab_leases _ s.connection_tabs (emplace-Grows id none s.tab_leases) h.owned)
  remembered-IsOwned bev id s h false =
      grow-owned s.tab_leases _ s.connection_tabs (emplace-Grows id none s.tab_leases) h.owned

  pub remember-IsOwned :
      (bev : ℕ) (id : Bytes) (s : Server J) → IsOwned s → IsOwned (remember_owned_tab bev id s)
  unfolding remember_owned_tab
  remember-IsOwned bev id s h = elim (Bool-cases (bev == 0 || is_empty id)) [
    | inl e ↦ rw (e, remember_owned_tab) h
    | inr e ↦
        rw (e, remember_owned_tab)
          (record {
            owned = remembered-IsOwned bev id s h s.runtime_config.tab_lifetime_by_connection;
            extra = λ x. emplace-Grows id none s.tab_leases s.extra_tab_id (h.extra x);
          })
  ]

  forgotten-extra :
      (id : Bytes) (s : Server J)
      → IsOwned s
      → is_empty (if equal s.extra_tab_id id then [] else s.extra_tab_id) ≡ false
      → has
          (lookup (if equal s.extra_tab_id id then [] else s.extra_tab_id) (erase id s.tab_leases))
        ≡ true
  unfolding is_empty
  forgotten-extra id s h x = elim (Bool-cases (equal s.extra_tab_id id)) [
    | inl e ↦ absurd (ground arith)
    | inr e ↦ ground (arith, erased-known s.tab_leases id (s.extra_tab_id, tt), h.extra)
  ]

  pub forget-IsOwned : (id : Bytes) (s : Server J) → IsOwned s → IsOwned (forget_owned_tab id s)
  unfolding forget_owned_tab
  forget-IsOwned id s h = elim (Bool-cases (is_empty id)) [
    | inl e ↦ rw (e, forget_owned_tab) h
    | inr e ↦
        rw (e, forget_owned_tab)
          (record {
            owned = drop_owned-IsKnown s.tab_leases id s.connection_tabs h.owned;
            extra = forgotten-extra id s h;
          })
  ]

  pub erase_connection-IsOwned :
      (bev : ℕ) (s : Server J) → IsOwned s → IsOwned (erase_connection bev s)
  unfolding erase_connection
  erase_connection-IsOwned bev s h = record {
    owned = erase-IsKnown s.tab_leases bev s.connection_tabs h.owned;
    extra = h.extra;
  }

  pub renew-IsOwned :
      (id : Bytes) (deadline : ℕ) (s : Server J) → IsOwned s → IsOwned (renew_tab id deadline s)
  unfolding renew_tab
  renew-IsOwned id deadline s h = record {
    owned =
        grow-owned s.tab_leases _ s.connection_tabs (insert-Grows id (some deadline) s.tab_leases)
          h.owned;
    extra = λ x. insert-Grows id (some deadline) s.tab_leases s.extra_tab_id (h.extra x);
  }
