-- ===== src/Advertiser.antt =====
-- `AvahiService` of madt-server/AvahiService.h and AvahiService.cpp, as it is built with Avahi. Avahi is
-- a parameter: how it answers each call, given the calls that it has had and their answers.
pub mod Frame
pub mod Published
pub mod Names
pub mod Runs
use open_madt.Prelude.{
  ℕ, ◌+◌, Bool, true, false, not, List, [], ◌∷◌, ◌++◌, Bytes, codes, if◌then◌else◌,
}
use open_madt.Prelude.Decimal.{to_string}
use open_madt.Json.Access.{Outcome}

-- The calls of Avahi. A call that returns nothing is answered with `true`.
pub data Call : Type 0 where
  poll_new client_new poll_start poll_lock poll_unlock poll_stop poll_free client_free : Call
  group_new group_free group_reset group_is_empty group_commit : Call
  -- name, type, port, text records
  add_service : Bytes → Bytes → ℕ → List (Bytes × Bytes) → Call

-- The calls that were made, the last one in front, each with whether it succeeded or held.
abbrev pub Calls : Type 0
Calls = List (Call × Bool)

-- `AvahiClientState`
pub data ClientState : Type 0 where
  s_registering s_running s_collision failure connecting : ClientState

-- `AvahiEntryGroupState`
pub data GroupState : Type 0 where
  uncommited registering established collision group_failure : GroupState

-- The pointers say whether they are set.
pub record AvahiService : Type 0 where
  pub poll : Bool
  pub client : Bool
  pub group : Bool
  pub base_name : Bytes
  pub current_name : Bytes
  pub service_type : Bytes
  pub port : ℕ
  pub txt : List (Bytes × Bytes)
  pub running : Bool
  pub rename_count : ℕ
  pub calls : Calls

-- The constructor.
abbrev pub new_service : Bytes → Bytes → ℕ → AvahiService
new_service name service_type port = record {
  poll = false;
  client = false;
  group = false;
  base_name = name;
  current_name = name;
  service_type = service_type;
  port = port;
  txt = [];
  running = false;
  rename_count = 0;
  calls = [];
}

abbrev pub perform : Call → AvahiService → AvahiService
perform c s = record s { calls = (c, true) ∷ s.calls }

unfoldable pub next_name : AvahiService → AvahiService
next_name s =
    let count = s.rename_count + 1 in
    record s { rename_count = count; current_name = s.base_name ++ codes "-" ++ to_string count }

-- The group is `nullptr` or not.
unfoldable pub reset_group : Bool → AvahiService → AvahiService
reset_group group s = if group then perform group_reset s else s

module _ (answer : Calls → Call → Bool) where
  abbrev pub ask : Call → AvahiService → Bool × AvahiService
  ask c s = let r = answer s.calls c in (r, record s { calls = (c, r) ∷ s.calls })

  -- `start`, which throws if Avahi fails.
  unfoldable pub start_polling : AvahiService → Outcome (Unit {0}) × AvahiService
  start_polling s =
      let (started, s') = ask poll_start s in
      if started then (Outcome.ok tt, record s' { running = true }) else (Outcome.throws, s')

  unfoldable pub start_client : AvahiService → Outcome (Unit {0}) × AvahiService
  unfolding start_polling
  start_client s =
      let (made, s') = ask client_new s in
      let held = record s' { client = made } in
      if made then start_polling held else (Outcome.throws, held)

  unfoldable pub start : AvahiService → Outcome (Unit {0}) × AvahiService
  unfolding start_client
  start s =
      let (made, s') = ask poll_new s in
      let held = record s' { poll = made } in
      if s.running
      then (Outcome.ok tt, s)
      else if made
      then start_client held
      else (Outcome.throws, held)

  unfoldable pub add_to_group : AvahiService → AvahiService
  add_to_group s =
      let (added, s') = ask (add_service s.current_name s.service_type s.port s.txt) s in
      if added then (ask group_commit s').1 else s'

  -- From the group that is there on.
  unfoldable pub fill_group : AvahiService → AvahiService
  unfolding add_to_group
  fill_group s = let (empty, s') = ask group_is_empty s in if empty then add_to_group s' else s'

  unfoldable pub create_or_update_service : AvahiService → AvahiService
  unfolding fill_group
  create_or_update_service s =
      let (made, s') = ask group_new s in
      let held = record s' { group = made } in
      if s.group then fill_group s else if made then fill_group held else held

  unfoldable pub set_txt : List (Bytes × Bytes) → AvahiService → AvahiService
  unfolding create_or_update_service reset_group
  set_txt txt s =
      let s' = record s { txt = txt } in
      if not s.running
      then s'
      else perform poll_unlock
          (create_or_update_service (reset_group s.group (perform poll_lock s')))

  unfoldable pub handle_client_state : ClientState → AvahiService → AvahiService
  unfolding create_or_update_service
  handle_client_state s_running s = create_or_update_service s
  handle_client_state s_collision s = s
  handle_client_state s_registering s = s
  handle_client_state failure s = s
  handle_client_state connecting s = s

  -- The callback of a group, which is there.
  unfoldable pub handle_group_state : GroupState → AvahiService → AvahiService
  unfolding next_name reset_group create_or_update_service
  handle_group_state collision s = create_or_update_service (reset_group true (next_name s))
  handle_group_state uncommited s = s
  handle_group_state registering s = s
  handle_group_state established s = s
  handle_group_state group_failure s = s

abbrev pub free_group : AvahiService → AvahiService
free_group s = if s.group then record (perform group_free s) { group = false } else s

abbrev pub free_client : AvahiService → AvahiService
free_client s = if s.client then record (perform client_free s) { client = false } else s

unfoldable pub stop : AvahiService → AvahiService
stop s =
    let freed = free_client (free_group (perform poll_lock s)) in
    let closed = perform poll_free (perform poll_stop (perform poll_unlock freed)) in
    if not s.running then s else record closed { poll = false; running = false }
