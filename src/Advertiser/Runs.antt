-- ===== src/Advertiser/Runs.antt =====
-- Runs of the advertiser (madt-server/AvahiService.cpp): its functions and the callbacks of Avahi, in any
-- order. The callback that Avahi makes within `avahi_client_new` is taken to come after `start`.
use open_madt.Prelude.{
  ℕ, Bool, true, false, List, ◌∷◌, Bytes, ◌≡◌, refl, sym, ap, subst, arith, ◌∙◌, Bool-cases, inl,
  inr, if-cases, if◌then◌else◌, not,
}
use open_madt.Advertiser.{
  Call, Calls, AvahiService, ClientState, GroupState, s_running, s_registering, s_collision,
  failure, connecting, uncommited, registering, established, collision, group_failure, poll_new,
  client_new, poll_start, poll_lock, poll_unlock, group_reset, new_service, perform, next_name,
  reset_group, start, free_group, free_client, stop, set_txt, handle_client_state,
  handle_group_state, create_or_update_service,
}
use open_madt.Advertiser.Frame.{update-SameService}
use open_madt.Advertiser.Published.{
  Grants, Publishes, update-Publishes, renew-Publishes, group_of, absent,
}

pub record IsPublished (s : AvahiService) : Type 0 where
  pub content : Publishes s
  pub idle : s.running ≡ false → s.group ≡ false

module _ (answer : Calls → Call → Bool) (grants : Grants answer) where
  start_lem :
      (s : AvahiService)
      → s.running ≡ false
      → (start answer s).1 ≡ record s {
        poll = true;
        client = true;
        running = true;
        calls = (poll_start, true) ∷ (client_new, true) ∷ (poll_new, true) ∷ s.calls;
      }
  unfolding start
  start_lem s off =
      let calls = (poll_new, true) ∷ s.calls in
      rw
        (
          off,
          grants s.calls poll_new,
          grants calls client_new,
          grants ((client_new, true) ∷ calls) poll_start,
        )
        refl

  start_on : (s : AvahiService) → s.running ≡ true → (start answer s).1 ≡ s
  unfolding start
  start_on s on = simp on

  start-IsPublished : (s : AvahiService) → IsPublished s → IsPublished (start answer s).1
  unfolding start
  start-IsPublished s k = elim (Bool-cases s.running) [
    | inl on ↦ subst IsPublished (sym (start_on s on)) k
    | inr off ↦
        subst IsPublished (sym (start_lem s off))
          (record { content = k.content; idle = λ e. k.idle off })
  ]

  running_after : (s : AvahiService) → (create_or_update_service answer s).running ≡ s.running
  running_after s = (update-SameService answer s).running

  updated-IsPublished :
      (s t : AvahiService)
      → t ≡ create_or_update_service answer s
      → s.running ≡ true
      → Publishes t
      → IsPublished t
  updated-IsPublished s t e on p = record {
    content = p;
    idle = λ off.
        let same : t.running ≡ s.running =
          ap (λ (u : AvahiService). u.running) e ∙ running_after s in
        absurd cc;
  }

  without_group :
      (txt : List (Bytes × Bytes)) (s : AvahiService)
      → IsPublished s
      → s.group ≡ false
      → Publishes (record s { txt = txt })
  without_group txt s k g = let c = k.content in ground arith

  unlocked-IsPublished :
      (s : AvahiService)
      → s.running ≡ true
      → Publishes (create_or_update_service answer s)
      → IsPublished (perform poll_unlock (create_or_update_service answer s))
  unlocked-IsPublished s on p =
      let k = updated-IsPublished s (create_or_update_service answer s) refl on p in
      record { content = k.content; idle = k.idle }

  set_txt-IsPublished :
      (txt : List (Bytes × Bytes)) (s : AvahiService)
      → IsPublished s
      → IsPublished (set_txt answer txt s)
  unfolding set_txt reset_group
  set_txt-IsPublished txt s k =
      let locked = perform poll_lock (record s { txt = txt }) in
      let update = λ (b : Bool). IsPublished (
        perform poll_unlock
          (create_or_update_service answer (if b then perform group_reset locked else locked))) in
      if-cases IsPublished (not s.running) (record s { txt = txt }) _
        (λ off. record {
          content = without_group txt s k (k.idle (ground (arith, off)));
          idle = k.idle;
        })
        (λ on.
          let running : s.running ≡ true = ground (arith, on) in
          elim (Bool-cases s.group) [
            | inl g ↦ subst update (sym g) (
                unlocked-IsPublished (perform group_reset locked) running
                  (renew-Publishes answer grants locked g))
            | inr g ↦ subst update (sym g) (
                unlocked-IsPublished locked running
                  (update-Publishes answer grants locked (without_group txt s k g)))
          ])

  handle_client_state-IsPublished :
      (state : ClientState) (s : AvahiService)
      → s.running ≡ true
      → IsPublished s
      → IsPublished (handle_client_state answer state s)
  unfolding handle_client_state
  handle_client_state-IsPublished s_running s on k =
      updated-IsPublished s _ refl on (update-Publishes answer grants s k.content)
  handle_client_state-IsPublished s_registering s on k = k
  handle_client_state-IsPublished s_collision s on k = k
  handle_client_state-IsPublished failure s on k = k
  handle_client_state-IsPublished connecting s on k = k

  handle_group_state-IsPublished :
      (state : GroupState) (s : AvahiService)
      → s.running ≡ true
      → s.group ≡ true
      → IsPublished s
      → IsPublished (handle_group_state answer state s)
  unfolding handle_group_state next_name reset_group
  handle_group_state-IsPublished collision s on g k =
      updated-IsPublished (perform group_reset (next_name s)) _ refl on
        (renew-Publishes answer grants (next_name s) g)
  handle_group_state-IsPublished uncommited s on g k = k
  handle_group_state-IsPublished registering s on g k = k
  handle_group_state-IsPublished established s on g k = k
  handle_group_state-IsPublished group_failure s on g k = k

free_group-absent :
    (s : AvahiService)
    → Publishes s
    → (group_of (free_group s).calls ≡ absent) × ((free_group s).group ≡ false)
free_group-absent s p = elim (Bool-cases s.group) [
  | inl g ↦ simp (g) (refl, refl)
  | inr g ↦ ground (arith, g, p)
]

free_client-absent :
    (s : AvahiService)
    → (group_of s.calls ≡ absent) × (s.group ≡ false)
    → (group_of (free_client s).calls ≡ absent) × ((free_client s).group ≡ false)
free_client-absent s p =
    if-cases (λ (t : AvahiService). (group_of t.calls ≡ absent) × (t.group ≡ false)) s.client _ _
      (λ c. p) (λ c. p)

stop-IsPublished : (s : AvahiService) → IsPublished s → IsPublished (stop s)
unfolding stop
stop-IsPublished s k =
    let (gone, none_there) =
      free_client-absent (free_group (perform poll_lock s))
        (free_group-absent (perform poll_lock s) k.content) in
    if-cases IsPublished (not s.running) s _ (λ off. k)
      (λ on. record { content = rw none_there gone; idle = λ off. none_there })

-- One function or callback, from the service before to the service after. Avahi calls back while the
-- service runs, and about a group that is there.
pub data Event (answer : Calls → Call → Bool) (s s' : AvahiService) : Type 0 where
  started : s' ≡ (start answer s).1 → Event answer s s'
  stopped : s' ≡ stop s → Event answer s s'
  txt_given : (txt : List (Bytes × Bytes)) → s' ≡ set_txt answer txt s → Event answer s s'
  client_changed :
      (state : ClientState)
      → s.running ≡ true
      → s' ≡ handle_client_state answer state s
      → Event answer s s'
  group_changed :
      (state : GroupState)
      → s.running ≡ true
      → s.group ≡ true
      → s' ≡ handle_group_state answer state s
      → Event answer s s'

pub data Runs (answer : Calls → Call → Bool) : AvahiService → AvahiService → Type 0 where
  here : (s : AvahiService) → Runs answer s s
  onward : (s s' last : AvahiService) → Event answer s s' → Runs answer s' last → Runs answer s last

module _ (answer : Calls → Call → Bool) (grants : Grants answer) where
  Event-IsPublished : (s s' : AvahiService) → Event answer s s' → IsPublished s → IsPublished s'
  Event-IsPublished s s' (started e) k = rw e (start-IsPublished answer grants s k)
  Event-IsPublished s s' (stopped e) k = rw e (stop-IsPublished s k)
  Event-IsPublished s s' (txt_given txt e) k = rw e (set_txt-IsPublished answer grants txt s k)
  Event-IsPublished s s' (client_changed state on e) k =
      rw e (handle_client_state-IsPublished answer grants state s on k)
  Event-IsPublished s s' (group_changed state on g e) k =
      rw e (handle_group_state-IsPublished answer grants state s on g k)

  after-IsPublished :
      (s last : AvahiService) → Runs answer s last → IsPublished s → IsPublished last
  after-IsPublished s last (here _) k = k
  after-IsPublished s last (onward _ s' _ e more) k =
      after-IsPublished s' last more (Event-IsPublished s s' e k)

  -- If Avahi grants what it is asked for, then in every run of a new advertiser, whatever texts it is
  -- given, however often its name collides and it is started and stopped: what Avahi publishes is the
  -- service with the name, the type, the port and the texts that the advertiser has now, or there is no
  -- group; and there is none while the advertiser is stopped.
  pub Runs-IsPublished :
      (name service_type : Bytes) (port : ℕ) (last : AvahiService)
      → Runs answer (new_service name service_type port) last
      → IsPublished last
  Runs-IsPublished name service_type port last run =
      after-IsPublished (new_service name service_type port) last run
        (record { content = refl; idle = λ e. refl })
