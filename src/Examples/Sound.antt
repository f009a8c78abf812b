-- ===== src/Examples/Sound.antt =====
-- A PlaySound request whose flags have a bit above the lower 32.
use open_madt.Prelude.{codes, some, ◌%◌, ◌^◌, ◌≡◌, refl, arith, equal}
use open_madt.Prelude.Decimal.{to_string}
use open_madt.Json.Access.{string_field}
use open_madt.Server.Sound.{
  choose_sound, requested_sound, any_flag, is_supported_sound_alias, is_one_of,
}
use open_madt.Server.Sound.Flags.{requested_sound-wraps}
use open_madt.Examples.Docs.{Doc, word, record_of, field, end, docs}

abbrev request : Doc
request = record_of (
    field "soundId" (word (codes "SystemHand"))
      (field "soundFlags" (word (to_string 0x100010000)) end))

requested_sound-wraps_example :
    requested_sound docs request ≡ choose_sound (codes "SystemHand") (0x100010000 % 2 ^ 32)
unfolding string_field
requested_sound-wraps_example =
    requested_sound-wraps docs request (codes "SystemHand") 0x100010000 refl refl (omega arith)

-- The sound is played.
played : choose_sound (codes "SystemHand") 0x10000 ≡ some (codes "SystemHand", 0x10000)
unfolding choose_sound any_flag is_supported_sound_alias is_one_of equal
played = refl
