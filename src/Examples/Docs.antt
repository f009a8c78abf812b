-- ===== src/Examples/Docs.antt =====
-- A small JSON library, an OpenSSL and a user interface for the examples. The library parses two
-- request texts; the interface is the model of madt-server/Browser.cpp.
use open_madt.Prelude.{
  Bool, true, false, Option, none, some, List, [], ◌∷◌, ◌++◌, String, Bytes, codes, equal, ◌≡◌,
  refl, has, if◌then◌else◌,
}
use open_madt.Prelude.Int.{ℤ}
use text.Mathlib.Text.{◌==◌ as same_text}
use open_madt.Json.{JsonLib, JsonLaws, first_field}
use open_madt.Json.Access.{Outcome}
use open_madt.Crypto.{CryptoLib}
use open_madt.Gui.{GuiLib, GuiCall, GuiReply, ResultCode}
use open_madt.Settings.{default_settings}
use open_madt.Config.{RuntimeConfig, default_config}
use open_madt.Browser.{Browser}
use open_madt.Terminal.{Shown, browser_gui}
use open_madt.Server.State.{Server, World, Moment}

mutual
  pub data Doc : Type 0 where
    nothing : Doc
    flag : Bool → Doc
    number : ℤ → Doc
    word : Bytes → Doc
    record_of : Fields → Doc
    array_of : Fields → Doc

  pub data Fields : Type 0 where
    end : Fields
    field : String → Doc → Fields → Fields

abbrev pub fields_of : List (String × Doc) → Fields
fields_of [] = end
fields_of ((k, v) ∷ fields) = field k v (fields_of fields)

abbrev pub elements_of : List Doc → Fields
elements_of [] = end
elements_of (v ∷ elements) = field "" v (elements_of elements)

abbrev pub find_in : Fields → String → Option Doc
find_in end k = none
find_in (field j v fields) k = if same_text j k then some v else find_in fields k

abbrev pub items_in : Fields → List (Bytes × Doc)
items_in end = []
items_in (field j v fields) = (codes j, v) ∷ items_in fields

abbrev is_object : Doc → Bool
is_object (record_of fields) = true
is_object _ = false

abbrev is_null : Doc → Bool
is_null nothing = true
is_null _ = false

abbrev is_number_integer : Doc → Bool
is_number_integer (number i) = true
is_number_integer _ = false

abbrev find : Doc → String → Option Doc
find (record_of fields) k = find_in fields k
find _ k = none

abbrev get_string : Doc → Option Bytes
get_string (word b) = some b
get_string _ = none

abbrev get_bool : Doc → Option Bool
get_bool (flag b) = some b
get_bool _ = none

abbrev get_int : Doc → Option ℤ
get_int (number i) = some i
get_int _ = none

abbrev items : Doc → List (Bytes × Doc)
items (record_of fields) = items_in fields
items _ = []

abbrev pub settings_text : Bytes
settings_text = codes "{\"req\":\"GetSettings\"}"

abbrev pub unnamed_text : Bytes
unnamed_text = codes "{}"

abbrev parse : Bytes → Option Doc
parse b =
    if equal b settings_text
    then some (record_of (field "req" (word (codes "GetSettings")) end))
    else if equal b unnamed_text
    then some (record_of end)
    else none

abbrev pub docs : JsonLib Doc
docs = record {
  is_object = is_object;
  is_null = is_null;
  is_number_integer = is_number_integer;
  find = find;
  get_string = get_string;
  get_bool = get_bool;
  get_int = get_int;
  items = items;
  parse = parse;
  null = nothing;
  text = word;
  int = number;
  object = λ fields. record_of (fields_of fields);
  array = λ elements. array_of (elements_of elements);
}

find-fields_of :
    (fields : List (String × Doc)) (k : String)
    → find_in (fields_of fields) k ≡ first_field k fields
unfolding first_field
find-fields_of [] k = refl
find-fields_of ((j, v) ∷ fields) k = rw (find-fields_of fields k) refl

integer-get_int : (j : Doc) → is_number_integer j ≡ true → has (get_int j) ≡ true
integer-get_int nothing h = cc
integer-get_int (flag b) h = cc
integer-get_int (number i) h = refl
integer-get_int (word b) h = cc
integer-get_int (record_of fields) h = cc
integer-get_int (array_of ds) h = cc

found-is_object : (j : Doc) (k : String) → has (find j k) ≡ true → is_object j ≡ true
found-is_object nothing k h = cc
found-is_object (flag b) k h = cc
found-is_object (number i) k h = cc
found-is_object (word b) k h = cc
found-is_object (record_of fields) k h = refl
found-is_object (array_of ds) k h = cc

pub docs-laws : JsonLaws docs
docs-laws = record {
  is_object-object = λ fields. refl;
  find-object = find-fields_of;
  get_string-text = λ b. refl;
  get_int-int = λ i. refl;
  is_number_integer-int = λ i. refl;
  get_int_integer = integer-get_int;
  find_is_object = found-is_object;
}

abbrev pub crypto : CryptoLib
crypto = record {
  encode_block = λ b. b;
  decode_block = λ b. some b;
  hmac_sha256 = λ key message. some (key ++ message);
}

-- The widgets say that all is well.
abbrev pub widgets : Browser Doc → GuiCall Doc → GuiReply Doc
widgets b c = GuiReply.answered ResultCode.ok nothing

abbrev pub gui : GuiLib Doc (Shown Doc)
gui = browser_gui docs widgets

abbrev pub config : RuntimeConfig Doc
config = record (default_config docs) { tab_lifetime_by_connection = true }

abbrev pub no_tabs : Browser Doc
no_tabs = record {
  runtime_config = config;
  current_settings = default_settings docs;
  list = [];
  shortcuts = [];
}

-- A server with the tab "t" of connection 1.
abbrev pub server : Server Doc
server = record {
  runtime_config = config;
  settings_state = default_settings docs;
  announced = none;
  tab_leases = (codes "t", some 5) ∷ [];
  shortcut_leases = [];
  control_nonces = [];
  connection_tabs = (1, (codes "t", tt) ∷ []) ∷ [];
  connection_buffers = [];
  extra_tab_id = [];
}

abbrev pub world : World Doc (Shown Doc)
world = record { server = server; gui = Outcome.ok no_tabs; sent = []; exit_code = none }

abbrev pub moment : Moment
moment = record { now = 9; uuid = codes "u"; random = some (codes "r"); timestamp = codes "now" }
