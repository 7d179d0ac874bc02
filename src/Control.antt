-- ===== src/Control.antt =====
-- The control of a live capture (src/packet_handler.cpp), and the requests of the REST interface that
-- use it (src/webserver.cpp).
pub mod Counts
pub mod Paired
use nanocap.Prelude.{
  ℕ, ◌+◌, ◌&&◌, ◌||◌, not, Bool, true, false, Option, none, some, List, [], ◌∷◌, ◌++◌,
  if◌then◌else◌,
}
use nanocap.Stream.{Bytes}
use nanocap.Util.Text.{codes}
use nanocap.Db.{Db}
use nanocap.Db.Query.{same_bytes, AdminCall, destroy_capture_data}

-- What the program calls of Pcap++: the devices of the machine with their addresses, and whether one
-- opens, and takes a filter.
pub record Devices : Type 1 where
  pub Device : Type 0
  pub device_by_ip : Bytes → Option Device
  pub device_list : List Device
  pub ipv4_text : Device → Bytes
  pub opens : Device → Bool
  pub takes_filter : Device → Bytes → Bool

abbrev pub is_empty : Bytes → Bool
is_empty [] = true
is_empty (b ∷ bs) = false

-- A function that returns, or ends the program.
pub data Returned {ℓ} (A : Type ℓ) : Type ℓ where
  returned : A → Returned A
  exited : ℕ → Returned A

-- The requests `capture/start`, `capture/stop`, `capture/toggle` and `capture/destroy`.
pub data Request : Type 0 where
  start_request stop_request toggle_request destroy_request : Request

-- The answer of a request: an empty object, or the error of an import that goes on.
pub data Answer : Type 0 where
  empty_object import_in_progress : Answer

module _ (pcap : Devices) where
  open pcap use {Device, device_by_ip, device_list, ipv4_text, opens, takes_filter}

  pub data DeviceCall : Type 0 where
    open_device start_device stop_device close_device : Device → DeviceCall
    set_filter : Device → Bytes → DeviceCall

  -- The capture fields of the configuration, the flags, the device, and the calls of devices.
  pub record Control : Type 0 where
    pub device_ip : Bytes
    pub filter : Bytes
    pub capturing : Bool
    pub importing : Bool
    pub dev : Option Device
    pub calls : List DeviceCall

  -- The loop over the devices, which ends at the first with an address to use.
  unfoldable pub first_device : List Device → Option Device
  first_device [] = none
  first_device (d ∷ ds) =
      if not (same_bytes (ipv4_text d) (codes "0.0.0.0"))
        && not (same_bytes (ipv4_text d) (codes "127.0.0.1"))
      then device_by_ip (ipv4_text d)
      else first_device ds

  -- The configured device; where there is none, or it is not found, the first of the list.
  unfoldable pub choose_device : Bytes → Option Device
  unfolding first_device
  choose_device [] = first_device device_list
  choose_device (b ∷ bs) = elim (device_by_ip (b ∷ bs)) [
    | some d ↦ some d
    | none ↦ first_device device_list
  ]

  abbrev pub filter_calls : Device → Bytes → List DeviceCall
  filter_calls d [] = []
  filter_calls d (b ∷ bs) = set_filter d (b ∷ bs) ∷ []

  abbrev pub filter_ok : Device → Bytes → Bool
  filter_ok d filter = is_empty filter || takes_filter d filter

  -- `start_capture`, on the device that was chosen.
  unfoldable pub start_device_of : Option Device → Control → Returned Control
  start_device_of none c = exited 1
  start_device_of (some d) c =
      if not (opens d)
      then exited 1
      else if filter_ok d c.filter
      then returned (record c {
        capturing = true;
        dev = some d;
        calls = c.calls ++ (open_device d ∷ (filter_calls d c.filter ++ start_device d ∷ []));
      })
      else exited 0

  unfoldable pub start_capture : Control → Returned Control
  unfolding choose_device start_device_of
  start_capture c = start_device_of (choose_device c.device_ip) c

  -- `stop_capture`, on the device that is open.
  unfoldable pub stop_device_of : Option Device → Control → Control
  stop_device_of none c = record c { capturing = false }
  stop_device_of (some d) c = record c {
    capturing = false;
    dev = none;
    calls = c.calls ++ stop_device d ∷ close_device d ∷ [];
  }

  unfoldable pub stop_capture : Control → Control
  unfolding stop_device_of
  stop_capture c = stop_device_of c.dev c

  -- The server's state: the capture, the database, and what the removals made it execute.
  pub record Server : Type 0 where
    pub control : Control
    pub db : Db
    pub removals : List AdminCall

  abbrev pub with_control : Server → Returned Control → Returned (Server × Answer)
  with_control s (returned c) = returned (record s { control = c }, empty_object)
  with_control s (exited code) = exited code

  abbrev pub removed : List Bytes → Control → Server → Server
  removed tables c s =
      let (admin, db') = destroy_capture_data tables s.db in
      record { control = c; db = db'; removals = s.removals ++ admin }

  -- The removal of the captured data, between a stop and a start where a capture was live.
  unfoldable pub destroy_while : Bool → List Bytes → Server → Returned (Server × Answer)
  unfolding start_capture stop_capture destroy_capture_data
  destroy_while true tables s =
      with_control (removed tables (stop_capture s.control) s)
        (start_capture (stop_capture s.control))
  destroy_while false tables s = returned (removed tables s.control s, empty_object)

  unfoldable pub handle_destroy : List Bytes → Server → Returned (Server × Answer)
  unfolding destroy_while
  handle_destroy tables s = destroy_while s.control.capturing tables s

  unfoldable pub handle_request : List Bytes → Request → Server → Returned (Server × Answer)
  unfolding start_capture stop_capture handle_destroy
  handle_request tables start_request s = with_control s (start_capture s.control)
  handle_request tables stop_request s =
      returned (record s { control = stop_capture s.control }, empty_object)
  handle_request tables toggle_request s =
      if s.control.importing
      then returned (s, import_in_progress)
      else if s.control.capturing
      then returned (record s { control = stop_capture s.control }, empty_object)
      else with_control s (start_capture s.control)
  handle_request tables destroy_request s = handle_destroy tables s
