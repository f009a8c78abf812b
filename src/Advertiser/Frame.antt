-- ===== src/Advertiser/Frame.antt =====
-- What an update of the published service leaves as it is (madt-server/AvahiService.cpp).
use open_madt.Prelude.{Bool, ◌≡◌, arith}
use open_madt.Advertiser.{
  Call, Calls, AvahiService, reset_group, create_or_update_service, fill_group, add_to_group,
}

pub record SameService (s s' : AvahiService) : Type 0 where
  pub base : s'.base_name ≡ s.base_name
  pub current : s'.current_name ≡ s.current_name
  pub count : s'.rename_count ≡ s.rename_count
  pub service_type : s'.service_type ≡ s.service_type
  pub port : s'.port ≡ s.port
  pub txt : s'.txt ≡ s.txt
  pub running : s'.running ≡ s.running
  pub poll : s'.poll ≡ s.poll
  pub client : s'.client ≡ s.client

module _ (answer : Calls → Call → Bool) where
  add_to_group-SameService : (s : AvahiService) → SameService s (add_to_group answer s)
  unfolding add_to_group
  add_to_group-SameService s = ground arith

  fill_group-SameService : (s : AvahiService) → SameService s (fill_group answer s)
  unfolding fill_group
  fill_group-SameService s = ground (arith, add_to_group-SameService _)

  pub update-SameService : (s : AvahiService) → SameService s (create_or_update_service answer s)
  unfolding create_or_update_service
  update-SameService s = ground (arith, fill_group-SameService s)

pub reset_group-SameService :
    (group : Bool) (s : AvahiService) → SameService s (reset_group group s)
unfolding reset_group
reset_group-SameService group s = ground arith
