-- ===== src/Examples/Advertiser.antt =====
-- The advertiser at a concrete run, with an Avahi that grants everything.
use open_madt.Prelude.{ℕ, Bool, true, codes, ◌≡◌, ◌≢◌, refl, arith}
use open_madt.Advertiser.{
  Call, Calls, AvahiService, group_is_empty, s_running, collision, new_service, start,
  handle_client_state, handle_group_state,
}
use open_madt.Advertiser.Published.{Grants, group_of, is_blank}
use open_madt.Advertiser.Runs.{Event, Runs, IsPublished, Runs-IsPublished}
use open_madt.Advertiser.Names.{after_collisions, after_collisions-current_name_ne}

abbrev obliging : Calls → Call → Bool
obliging calls c = elim c [ group_is_empty ↦ is_blank (group_of calls) | _ ↦ true ]

obliging-Grants : Grants obliging
obliging-Grants calls c = refl

abbrev fresh : AvahiService
fresh = new_service (codes "bus_madt") (codes "_itxpt_socket._tcp") 25000

abbrev started : AvahiService
started = (start obliging fresh).1

abbrev shown : AvahiService
shown = handle_client_state obliging s_running started

abbrev renamed : AvahiService
renamed = handle_group_state obliging collision shown

shown-running : shown.running ≡ true
unfolding start handle_client_state
shown-running = refl

shown-group : shown.group ≡ true
unfolding start handle_client_state
shown-group = refl

run : Runs obliging fresh renamed
unfolding start
run = Runs.onward fresh started renamed (Event.started refl) (
    Runs.onward started shown renamed (Event.client_changed s_running refl refl) (
      Runs.onward shown renamed renamed
        (Event.group_changed collision shown-running shown-group refl) (Runs.here renamed)))

Runs-IsPublished_example : IsPublished renamed
Runs-IsPublished_example =
    Runs-IsPublished obliging obliging-Grants (codes "bus_madt") (codes "_itxpt_socket._tcp") 25000
      renamed run

ne : ◌≢◌ {A = ℕ} 0 2
ne e = omega arith

shown-name : shown.current_name ≡ shown.base_name
unfolding start handle_client_state
shown-name = refl

after_collisions-current_name_ne_example :
    (after_collisions obliging 0 shown).current_name
    ≢ (after_collisions obliging 2 shown).current_name
after_collisions-current_name_ne_example =
    after_collisions-current_name_ne obliging 0 2 shown shown-name ne
