-- ===== src/Config/RoundTrip.antt =====
-- A configuration that is written is read back, and what has no field keeps its value.
use nanocap.Prelude.{◌≡◌, refl, String, List, none, some, Outcome, ok}
use nanocap.Config.{
  Fits, lookup, JsonLibrary, ConfigCapture, ConfigWeb, NanocapConfig, default_config,
  to_json_capture, to_json_web, to_json, read_field, ◌then◌, from_json_capture, from_json_web,
  read_web, read_capture, from_json, load_config, save_config,
}

module _ (lib : JsonLibrary) where
  open lib use {Json, object, find, get_bool, get_string, get_int, get_int64, parse, dump}

  -- A field that an object has.
  field_of :
      {C A : Type 0} (fields : List (String × Json)) (name : String) (get : Json → Outcome A)
      (put : A → C → C) (c : C) (v : Json) (a : A)
      → lookup name fields ≡ some v
      → get v ≡ ok a
      → read_field lib (object fields) name get put c ≡ ok (put a c)
  unfolding read_field
  field_of fields name get put c v a there value =
      rw (lib.find-object fields name, read_field, lookup, there, value) refl

  then_field :
      {C A : Type 0} (o : Outcome C) (fields : List (String × Json)) (name : String)
      (get : Json → Outcome A) (put : A → C → C) (c : C) (v : Json) (a : A)
      → o ≡ ok c
      → lookup name fields ≡ some v
      → get v ≡ ok a
      → (o then read_field lib (object fields) name get put) ≡ ok (put a c)
  unfolding ◌then◌
  then_field o fields name get put c v a before there value =
      rw before (field_of fields name get put c v a there value)

  capture-round :
      (c d : ConfigCapture)
      → Fits 63 c.max_capture_megabytes
      → from_json_capture lib (to_json_capture lib c) d ≡ ok c
  unfolding from_json_capture to_json_capture
  capture-round c d fits =
      then_field _ _ "connection_details" get_bool _ _ _ _
        (then_field _ _ "bootstrap_details" get_bool _ _ _ _
          (then_field _ _ "block_details" get_bool _ _ _ _
            (then_field _ _ "max_capture_megabytes" get_int64 _ _ _ _
              (then_field _ _ "filter" get_string _ _ _ _
                (then_field _ _ "device_ip" get_string _ _ _ _
                  (field_of _ "enabled" get_bool _ _ _ _ refl (lib.get_bool-json c.enabled)) refl
                  (lib.get_string-json c.device_ip))
                refl (lib.get_string-json c.filter))
              refl (lib.get_int64-json c.max_capture_megabytes fits))
            refl (lib.get_bool-json c.block_details))
          refl (lib.get_bool-json c.bootstrap_details))
        refl (lib.get_bool-json c.connection_details)

  web-round :
      (c d : ConfigWeb)
      → Fits 31 c.port
      → Fits 31 c.max_query_result
      → from_json_web lib (to_json_web lib c) d ≡ ok c
  unfolding from_json_web to_json_web
  web-round c d port_fits result_fits =
      then_field _ _ "max_query_result" get_int _ _ _ _
        (then_field _ _ "port" get_int _ _ _ _
          (then_field _ _ "bind" get_string _ _ _ _
            (field_of _ "enabled" get_bool _ _ _ _ refl (lib.get_bool-json c.enabled)) refl
            (lib.get_string-json c.bind))
          refl (lib.get_int-json c.port port_fits))
        refl (lib.get_int-json c.max_query_result result_fits)

  read_web-part :
      (fields : List (String × Json)) (c : NanocapConfig) (w : ConfigWeb)
      → lookup "web" fields ≡ some (to_json_web lib w)
      → Fits 31 w.port
      → Fits 31 w.max_query_result
      → read_web lib (object fields) c ≡ ok (record c { web = w })
  unfolding read_web
  read_web-part fields c w there port_fits result_fits =
      rw
        (
          lib.find-object fields "web",
          read_web,
          lookup,
          there,
          web-round w c.web port_fits result_fits,
        )
        refl

  read_capture-part :
      (fields : List (String × Json)) (c : NanocapConfig) (w : ConfigCapture)
      → lookup "capture" fields ≡ some (to_json_capture lib w)
      → Fits 63 w.max_capture_megabytes
      → read_capture lib (object fields) c ≡ ok (record c { capture = w })
  unfolding read_capture
  read_capture-part fields c w there fits =
      rw
        (
          lib.find-object fields "capture",
          read_capture,
          lookup,
          there,
          capture-round w c.capture fits,
        )
        refl

  -- A configuration is read back from its JSON, over any other configuration.
  from_json-round :
      (c d : NanocapConfig)
      → Fits 63 c.capture.max_capture_megabytes
      → Fits 31 c.web.port
      → Fits 31 c.web.max_query_result
      → from_json lib (to_json lib c) d ≡ ok c
  unfolding from_json to_json ◌then◌
  from_json-round c d megabytes_fit port_fits result_fits =
      rw
        (
          field_of _ "database" get_string _ d _ _ refl (lib.get_string-json c.db),
          read_web-part _ _ c.web refl port_fits result_fits,
        )
        (read_capture-part _ _ c.capture refl megabytes_fit)

  -- A configuration whose numbers fit their integer types, and whose JSON can be written, is read
  -- back from the file to which it was saved.
  pub load_config-save_config :
      (c : NanocapConfig) (text : lib.Text)
      → Fits 63 c.capture.max_capture_megabytes
      → Fits 31 c.web.port
      → Fits 31 c.web.max_query_result
      → dump (to_json lib c) ≡ some text
      → load_config lib (save_config lib c) ≡ ok c
  unfolding load_config save_config
  load_config-save_config c text megabytes_fit port_fits result_fits written =
      rw (written, save_config, lib.parse-dump (to_json lib c) text written, load_config)
        (from_json-round c default_config megabytes_fit port_fits result_fits)

  nothing_read : from_json lib lib.null_json default_config ≡ ok default_config
  unfolding from_json read_field read_web read_capture ◌then◌
  nothing_read =
      rw
        (
          lib.find-null "database",
          read_field,
          lib.find-null "web",
          read_web,
          lib.find-null "capture",
          read_capture,
        )
        refl

  -- A file that is not JSON gives the default configuration and no exception.
  load_config-defaults :
      (file : lib.Text) → parse file ≡ none → load_config lib file ≡ ok default_config
  unfolding load_config
  load_config-defaults file bad = rw (bad, load_config) nothing_read
