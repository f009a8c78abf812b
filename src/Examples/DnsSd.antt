-- ===== src/Examples/DnsSd.antt =====
-- The names of the terminal at concrete texts.
use open_madt.Prelude.{codes, none, some, ◌≡◌, refl, [], is_empty}
use open_madt.Prelude.Decimal.{to_string}
use open_madt.DnsSd.{sanitize_unique_id, resolve_service_name, build_dns_sd_service_name}
use open_madt.DnsSd.UniqueId.{IsUniqueId, sanitize_unique_id-IsUniqueId}

host_name : sanitize_unique_id (codes "_bus 17.depot_") ≡ codes "bus-17-depot"
unfolding sanitize_unique_id
host_name = refl

second_name : resolve_service_name [] (some (codes "bus_17")) 1 ≡ codes "bus-17-2_madt"
unfolding resolve_service_name to_string
second_name = refl

no_host : build_dns_sd_service_name [] none ≡ codes "madt-host_madt"
unfolding build_dns_sd_service_name is_empty
no_host = refl

sanitize_unique_id-IsUniqueId_example :
    IsUniqueId (sanitize_unique_id (codes "_bus 17.depot_"))
    × (sanitize_unique_id (sanitize_unique_id (codes "_bus 17.depot_"))
        ≡ sanitize_unique_id (codes "_bus 17.depot_"))
sanitize_unique_id-IsUniqueId_example = sanitize_unique_id-IsUniqueId (codes "_bus 17.depot_")
