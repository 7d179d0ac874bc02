-- ===== src/Config.antt =====
-- The configuration (src/config.hpp): its defaults, and how it is read from JSON and written.
pub mod RoundTrip
pub mod Instance
use nanocap.Prelude.{
  is_name, ℕ, ◌≡◌, ◌^◌, ◌<◌, ◌≤◌, Bool, true, false, String, List, [], ◌∷◌, ◌++◌, Option, none,
  some, Outcome, ok, throw, Parser, pure, ◌>>=◌,
}
use nanocap.Stream.{Bytes}
use nanocap.Util.Text.{codes}

-- A machine integer: `negsuc n` is -(n + 1).
pub data ℤ : Type 0 where
  pos negsuc : ℕ → ℤ

-- The range of a signed integer of `w + 1` bits.
abbrev pub Fits : ℕ → ℤ → Type 0
Fits w (pos n) = n < 2 ^ w
Fits w (negsuc n) = n < 2 ^ w

-- The first field of a name.
abbrev pub lookup : {J : Type 0} → String → List (String × J) → Option J
lookup name [] = none
lookup name ((n, j) ∷ fields) = elim (is_name n name) [ true ↦ some j | false ↦ lookup name fields ]

-- What the program calls of `nlohmann::json`. `find` is `count` with `at`; the functions `get_…` are
-- `get_to`, which throws where the type differs; `dump` throws where a string is not UTF-8, and
-- `parse` throws where the text is not JSON. `Text` is the text of a file, which may be empty, and to
-- which `std::endl` adds a line feed.
pub record JsonLibrary : Type 1 where
  pub Json : Type 0
  pub Text : Type 0
  pub no_text : Text
  pub end_line : Text → Text
  pub null_json : Json
  pub bool_json : Bool → Json
  pub string_json : Bytes → Json
  pub number_json : ℤ → Json
  pub object : List (String × Json) → Json
  pub find : Json → String → Option Json
  pub get_bool : Json → Outcome Bool
  pub get_string : Json → Outcome Bytes
  pub get_int : Json → Outcome ℤ
  pub get_int64 : Json → Outcome ℤ
  pub parse : Text → Option Json
  pub dump : Json → Option Text
  pub find-null : (name : String) → find null_json name ≡ none
  pub find-object :
      (fields : List (String × Json)) (name : String)
      → find (object fields) name ≡ lookup name fields
  pub get_bool-json : (b : Bool) → get_bool (bool_json b) ≡ ok b
  pub get_string-json : (t : Bytes) → get_string (string_json t) ≡ ok t
  pub get_int-json : (z : ℤ) → Fits 31 z → get_int (number_json z) ≡ ok z
  pub get_int64-json : (z : ℤ) → Fits 63 z → get_int64 (number_json z) ≡ ok z
  pub parse-dump : (j : Json) (text : Text) → dump j ≡ some text → parse (end_line text) ≡ some j

pub record ConfigCapture : Type 0 where
  pub enabled : Bool
  pub device_ip : Bytes
  pub filter : Bytes
  pub max_capture_megabytes : ℤ
  pub block_details : Bool
  pub bootstrap_details : Bool
  pub connection_details : Bool

pub record ConfigWeb : Type 0 where
  pub enabled : Bool
  pub bind : Bytes
  pub port : ℤ
  pub max_query_result : ℤ

pub record NanocapConfig : Type 0 where
  pub db : Bytes
  pub capture : ConfigCapture
  pub web : ConfigWeb

unfoldable pub default_capture : ConfigCapture
default_capture = record {
  enabled = true;
  device_ip = [];
  filter = [];
  max_capture_megabytes = pos 4096;
  block_details = true;
  bootstrap_details = false;
  connection_details = true;
}

unfoldable pub default_web : ConfigWeb
default_web = record {
  enabled = true;
  bind = codes "0.0.0.0";
  port = pos 8077;
  max_query_result = pos 5000;
}

unfoldable pub default_config : NanocapConfig
unfolding default_capture default_web
default_config = record { db = []; capture = default_capture; web = default_web }

-- The next statement, unless one threw.
infixl 10 ◌then◌
unfoldable pub ◌then◌ : {C : Type 0} → Outcome C → (C → Outcome C) → Outcome C
(ok c) then f = f c
(throw e) then f = throw e

module _ (lib : JsonLibrary) where
  open lib use {
    Json, Text, no_text, end_line, null_json, bool_json, string_json, number_json, object, find,
    get_bool, get_string, get_int, get_int64, parse, dump,
  }

  unfoldable pub to_json_capture : ConfigCapture → Json
  to_json_capture c = object (
      ("enabled", bool_json c.enabled)
      ∷ ("device_ip", string_json c.device_ip)
      ∷ ("filter", string_json c.filter)
      ∷ ("max_capture_megabytes", number_json c.max_capture_megabytes)
      ∷ ("block_details", bool_json c.block_details)
      ∷ ("bootstrap_details", bool_json c.bootstrap_details)
      ∷ ("connection_details", bool_json c.connection_details)
      ∷ [])

  unfoldable pub to_json_web : ConfigWeb → Json
  to_json_web c = object (
      ("enabled", bool_json c.enabled)
      ∷ ("bind", string_json c.bind)
      ∷ ("port", number_json c.port)
      ∷ ("max_query_result", number_json c.max_query_result)
      ∷ [])

  unfoldable pub to_json : NanocapConfig → Json
  to_json c = object (
      ("database", string_json c.db)
      ∷ ("capture", to_json_capture c.capture)
      ∷ ("web", to_json_web c.web)
      ∷ [])

  -- A field is assigned where the object has its name. The object that is read into is the state.
  unfoldable pub read_field :
      {C A : Type 0} → Json → String → (Json → Outcome A) → (A → C → C) → C → Outcome C
  read_field j name get put c = elim (find j name) [
    | none ↦ ok c
    | some v ↦ elim (get v) [ ok a ↦ ok (put a c) | throw e ↦ throw e ]
  ]

  unfoldable pub from_json_capture : Json → ConfigCapture → Outcome ConfigCapture
  from_json_capture j c =
      read_field j "enabled" get_bool (λ v d. record d { enabled = v }) c
      then read_field j "device_ip" get_string (λ v d. record d { device_ip = v })
      then read_field j "filter" get_string (λ v d. record d { filter = v })
      then read_field j "max_capture_megabytes" get_int64
          (λ v d. record d { max_capture_megabytes = v })
      then read_field j "block_details" get_bool (λ v d. record d { block_details = v })
      then read_field j "bootstrap_details" get_bool (λ v d. record d { bootstrap_details = v })
      then read_field j "connection_details" get_bool (λ v d. record d { connection_details = v })

  unfoldable pub from_json_web : Json → ConfigWeb → Outcome ConfigWeb
  from_json_web j c =
      read_field j "enabled" get_bool (λ v d. record d { enabled = v }) c
      then read_field j "bind" get_string (λ v d. record d { bind = v })
      then read_field j "port" get_int (λ v d. record d { port = v })
      then read_field j "max_query_result" get_int (λ v d. record d { max_query_result = v })

  -- A part is read into what it was.
  unfoldable pub read_web : Json → NanocapConfig → Outcome NanocapConfig
  read_web j c = elim (find j "web") [
    | none ↦ ok c
    | some v ↦ elim (from_json_web v c.web) [ ok w ↦ ok (record c { web = w }) | throw e ↦ throw e ]
  ]

  unfoldable pub read_capture : Json → NanocapConfig → Outcome NanocapConfig
  read_capture j c = elim (find j "capture") [
    | none ↦ ok c
    | some v ↦ elim (from_json_capture v c.capture) [
      | ok w ↦ ok (record c { capture = w })
      | throw e ↦ throw e
    ]
  ]

  unfoldable pub from_json : Json → NanocapConfig → Outcome NanocapConfig
  from_json j c =
      read_field j "database" get_string (λ v d. record d { db = v }) c
      then read_web j
      then read_capture j

  -- A file that is not JSON is a null. Only the error of `parse` is caught.
  unfoldable pub load_config : Text → Outcome NanocapConfig
  load_config file = elim (parse file) [
    | none ↦ from_json null_json default_config
    | some j ↦ from_json j default_config
  ]

  -- The text of the file: it is emptied, also where nothing can be written.
  unfoldable pub save_config : NanocapConfig → Text
  save_config c = elim (dump (to_json c)) [ none ↦ no_text | some text ↦ end_line text ]
