-- ===== src/Server/Sound.antt =====
-- PlaySound (madt-server/madt-server.cpp): its flags, the sound names and the handler.
pub mod Flags
use Prim.Native.Nat.{bit_and}
use open_madt.Prelude.{
  ℕ, ◌-◌, ◌%◌, ◌^◌, Bool, false, ◌||◌, not, Option, none, some, List, [], ◌∷◌, Bytes, codes, ◌==◌,
  equal, is_empty, if◌then◌else◌,
}
use open_madt.Prelude.Map.{Map, lookup, bytes_key}
use open_madt.Json.{JsonLib}
use open_madt.Json.Access.{string_field}
use open_madt.Number.{Conversion, nothing, out_of_range, converted, strtoull}
use open_madt.Gui.{GuiCall, GuiLib}
use open_madt.Server.State.{
  mtsrc_bad_request, M, gets, send_response, gui_call, ◌>>=◌, reply_code, code_response,
}

-- `c_str()` is read up to its first NUL.
unfoldable pub c_str : Bytes → Bytes
c_str [] = []
c_str (c ∷ cs) = let rest = c_str cs in if c == 0 then [] else c ∷ rest

-- Without digits the end pointer is the start of the text: it is at the end only if the text is
-- empty, and the value is 0.
unfoldable pub flags_of : Bytes → Conversion → Option ℕ
flags_of text nothing = if is_empty text then some 0 else none
flags_of text out_of_range = none
flags_of text (converted value []) = some (value % 2 ^ 32)
flags_of text (converted value (c ∷ rest)) = none

abbrev pub soundflag_nodefault : ℕ
soundflag_nodefault = 0x2

abbrev pub soundflag_alias : ℕ
soundflag_alias = 0x10000

-- `~SUPPORTED_SOUND_FLAGS` of an `unsigned int`.
abbrev pub unsupported_sound_flags : ℕ
unsupported_sound_flags = 0xFFFFFFFF - 0x10013

-- `(flags & mask) != 0U`
unfoldable pub any_flag : ℕ → ℕ → Bool
any_flag flags mask = not (bit_and flags mask == 0)

abbrev pub supported_aliases : List Bytes
supported_aliases =
    codes "SystemAsterisk"
    ∷ codes "SystemExclamation"
    ∷ codes "SystemExit"
    ∷ codes "SystemHand"
    ∷ codes "SystemNotification"
    ∷ codes "SystemQuestion"
    ∷ codes "SystemStart"
    ∷ []

unfoldable pub is_one_of : Bytes → List Bytes → Bool
is_one_of id [] = false
is_one_of id (name ∷ names) = equal id name || is_one_of id names

unfoldable pub is_supported_sound_alias : Bytes → Bool
unfolding is_one_of
is_supported_sound_alias id = is_one_of id supported_aliases

-- The sound to play and its flags, or the refusal of the request.
unfoldable pub choose_sound : Bytes → ℕ → Option (Bytes × ℕ)
choose_sound id flags =
    if any_flag flags unsupported_sound_flags
    then none
    else if not (any_flag flags soundflag_alias)
    then none
    else if is_supported_sound_alias id
    then some (id, flags)
    else if any_flag flags soundflag_nodefault
    then none
    else some (codes "SystemNotification", flags)

module _ {J : Type 0} (lib : JsonLib J) where
  unfoldable pub parse_sound_flags : J → Option ℕ
  unfolding flags_of c_str strtoull
  parse_sound_flags request = elim (string_field lib request "soundFlags") [
    | none ↦ none
    | some text ↦ flags_of (c_str text) (strtoull 0 (c_str text))
  ]

  unfoldable pub requested_sound : J → Option (Bytes × ℕ)
  unfolding choose_sound
  requested_sound request = elim (string_field lib request "soundId") [
    | none ↦ none
    | some id ↦ elim (parse_sound_flags request) [
      | none ↦ none
      | some flags ↦ choose_sound id flags
    ]
  ]

unfoldable pub resolve_sound_file : Bytes → Map Bytes Bytes → Bytes
resolve_sound_file id files = elim (lookup id files) [ none ↦ [] | some file ↦ file ]

module _ {J G : Type 0} (lib : JsonLib J) (gui : GuiLib J G) where
  unfoldable pub play : ℕ → Option (Bytes × ℕ) → M J G (Unit {0})
  play bev none = send_response bev (code_response lib mtsrc_bad_request)
  play bev (some (id, flags)) = do
    s ← gets (λ s. s)
    reply ← gui_call gui (
        GuiCall.play_sound id flags (resolve_sound_file id s.runtime_config.sound_files)
          s.runtime_config.sound_player_command)
    send_response bev (code_response lib (reply_code reply))

  unfoldable pub handle_play_sound : ℕ → J → M J G (Unit {0})
  unfolding play requested_sound
  handle_play_sound bev request = play bev (requested_sound lib request)
