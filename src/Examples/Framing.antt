-- ===== src/Examples/Framing.antt =====
-- The framing at concrete texts.
use open_madt.Prelude.{some, [], ◌∷◌, ◌++◌, codes, ◌≡◌, refl, arith}
use open_madt.Framing.{extract_single_json_object, is_space, skip_space, find_end, scan_byte}
use open_madt.Framing.Grammar.{raw, escaped, Body, IsBody, done, plain, quoted, group, print_object}
use open_madt.Framing.RoundTrip.{extract-print_object}
use open_madt.Framing.Progress.{extract_parts}

-- `{"}\"":{a}}`
abbrev body : Body
body = quoted (raw b'}' ∷ escaped b'"' ∷ []) (plain b':' (group (plain b'a' done) done))

body-IsBody : IsBody body
body-IsBody = (
  ((λ e. omega (arith, e), λ e. omega (arith, e)), (tt, tt)),
  (
    λ e. omega (arith, e),
    λ e. omega (arith, e),
    λ e. omega (arith, e),
    ((λ e. omega (arith, e), λ e. omega (arith, e), λ e. omega (arith, e), tt), tt),
  ),
)

extract-print_object_example :
    extract_single_json_object (codes " \n" ++ print_object body ++ codes "rest")
    ≡ (some (print_object body), codes "rest")
unfolding is_space
extract-print_object_example =
    extract-print_object (codes " \n") body (codes "rest") (refl, (refl, tt)) body-IsBody

extract_parts_example : codes "{a}" ++ codes " " ≡ skip_space (codes "  {a} ")
unfolding extract_single_json_object find_end scan_byte
extract_parts_example = extract_parts (codes "  {a} ") (codes "{a}") (codes " ") refl
