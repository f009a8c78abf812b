-- ===== src/Server/Sound/Flags.antt =====
-- The sound flags of a PlaySound request (madt-server/madt-server.cpp).
use open_madt.Prelude.{ℕ, ◌%◌, ◌^◌, ◌<◌, some, [], ◌∷◌, Bytes, ◌≡◌, refl, arith, All}
use open_madt.Prelude.Decimal.{to_string}
use open_madt.Json.{JsonLib}
use open_madt.Json.Access.{string_field}
use open_madt.Number.{ulong_mod}
use open_madt.Number.RoundTrip.{IsDecimal, to_string-All, strtoull-to_string}
use open_madt.Server.Sound.{c_str, flags_of, choose_sound, parse_sound_flags, requested_sound}

c_str-decimal : (s : Bytes) → All IsDecimal s → c_str s ≡ s
unfolding c_str
c_str-decimal [] h = refl
c_str-decimal (c ∷ cs) h = ground (arith, c_str-decimal cs, h)

module _ {J : Type 0} (lib : JsonLib J) where
  parse_sound_flags_lem :
      (request : J) (n : ℕ)
      → string_field lib request "soundFlags" ≡ some (to_string n)
      → n < ulong_mod
      → parse_sound_flags lib request ≡ some (n % 2 ^ 32)
  unfolding parse_sound_flags flags_of
  parse_sound_flags_lem request n e h =
      rw
        (
          e,
          parse_sound_flags,
          c_str-decimal (to_string n) (to_string-All n),
          strtoull-to_string n h,
        )
        refl

  -- If a request names a sound and its flags are the decimal text of a number below 2^64, the sound is
  -- chosen by the lower 32 bits of that number: the upper ones are not tested.
  pub requested_sound-wraps :
      (request : J) (id : Bytes) (n : ℕ)
      → string_field lib request "soundId" ≡ some id
      → string_field lib request "soundFlags" ≡ some (to_string n)
      → n < ulong_mod
      → requested_sound lib request ≡ choose_sound id (n % 2 ^ 32)
  unfolding requested_sound
  requested_sound-wraps request id n e f h =
      rw (e, requested_sound, parse_sound_flags_lem request n f h) refl
