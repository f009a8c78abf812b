-- ===== src/DnsSd.antt =====
-- The names under which the terminal is announced: those of madt-server/dns-sd-advertiser.cpp, which the
-- build does not use, and those of `buildDnsSdServiceName` in madt-server/madt-server.cpp. What
-- `gethostname` says is an argument: `none` if it fails.
pub mod UniqueId
use open_madt.Prelude.{
  ℕ, zero, suc, ◌+◌, Bool, true, false, not, ◌&&◌, ◌||◌, Option, none, some, List, [], ◌∷◌, ◌++◌,
  Bytes, codes, map, length, take, leb, ltb, ◌==◌, is_empty, if◌then◌else◌,
}
use open_madt.Prelude.Decimal.{to_string}

abbrev pub dash : ℕ
dash = b'-'

-- `std::isalnum` in the C locale.
abbrev pub is_alnum : ℕ → Bool
is_alnum c = leb b'0' c && leb c b'9' || leb b'A' c && leb c b'Z' || leb b'a' c && leb c b'z'

unfoldable pub unique_id_char : ℕ → ℕ
unique_id_char c =
    let d = if c == b'_' then dash else c in if is_alnum d || d == dash then d else dash

unfoldable pub strip_leading : Bytes → Bytes
strip_leading [] = []
strip_leading (c ∷ cs) = let rest = strip_leading cs in if c == dash then rest else c ∷ cs

-- Also the loop `while (value.back() == '-') value.pop_back()`.
unfoldable pub strip_trailing : Bytes → Bytes
strip_trailing [] = []
strip_trailing (c ∷ cs) =
    let rest = strip_trailing cs in if c == dash && is_empty rest then [] else c ∷ rest

abbrev pub max_unique_id_length : ℕ
max_unique_id_length = 48

abbrev pub or_madt : Bytes → Bytes
or_madt s = if is_empty s then codes "madt" else s

unfoldable pub cut : Bytes → Bytes
unfolding strip_trailing is_empty
cut s =
    if ltb max_unique_id_length (length s)
    then or_madt (strip_trailing (take max_unique_id_length s))
    else or_madt s

unfoldable pub sanitize_unique_id : Bytes → Bytes
unfolding unique_id_char strip_leading strip_trailing cut
sanitize_unique_id s = cut (strip_trailing (strip_leading (map unique_id_char s)))

unfoldable pub detect_host_unique_id : Option Bytes → Bytes
unfolding sanitize_unique_id
detect_host_unique_id none = codes "madt"
detect_host_unique_id (some host) = sanitize_unique_id host

-- `resolveServiceName`
unfoldable pub resolve_service_name : Bytes → Option Bytes → ℕ → Bytes
unfolding sanitize_unique_id detect_host_unique_id
resolve_service_name unique_id host attempt =
    let id =
      if is_empty unique_id then detect_host_unique_id host else sanitize_unique_id unique_id in
    if attempt == 0
    then id ++ codes "_madt"
    else id ++ codes "-" ++ to_string (attempt + 1) ++ codes "_madt"

abbrev pub label_char : ℕ → ℕ
label_char c = if c == b'_' then dash else c

unfoldable pub sanitize_dns_sd_label : Bytes → Bytes
sanitize_dns_sd_label s = map label_char s

abbrev pub host_label : Option Bytes → Option Bytes
host_label none = none
host_label (some []) = none
host_label (some (c ∷ cs)) = some (c ∷ cs)

unfoldable pub build_dns_sd_service_name : Bytes → Option Bytes → Bytes
unfolding sanitize_dns_sd_label
build_dns_sd_service_name unique_id host =
    if not (is_empty unique_id)
    then sanitize_dns_sd_label unique_id ++ codes "_madt"
    else elim (host_label host) [
      | none ↦ codes "madt-host_madt"
      | some name ↦ sanitize_dns_sd_label name ++ codes "_madt"
    ]
