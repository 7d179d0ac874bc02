-- ===== src/Control/Paired.antt =====
-- Every device that a capture starts is stopped before another one starts.
use nanocap.Prelude.{
  if_both, ◌+◌, ◌≡◌, refl, sym, subst, ◌∙◌, ap, arith, Bool, true, false, not, Bool-cases, inl, inr,
  Option, none, some, List, [], ◌∷◌, ◌++◌, if◌then◌else◌,
}
use nanocap.Stream.{Bytes}
use nanocap.Capture.Run.Order.{Option-cases}
use nanocap.Control.{
  Devices, DeviceCall, open_device, start_device, stop_device, close_device, Control, Returned,
  returned, exited, filter_calls, filter_ok, choose_device, start_device_of, start_capture,
  stop_device_of, stop_capture, Request, start_request, stop_request, toggle_request,
  destroy_request, Answer, Server, with_control, destroy_while, removed, empty_object,
  handle_destroy, handle_request,
}
use nanocap.Control.Counts.{starts, stops, starts-append, stops-append}

module _ (pcap : Devices) where
  open pcap use {Device, opens}

  abbrev pub is_some : Option Device → Bool
  is_some none = false
  is_some (some d) = true

  -- The flag says whether there is a device, and one more device was started than was stopped
  -- exactly while there is one.
  pub record IsPaired (c : Control pcap) : Type 0 where
    pub flag : c.capturing ≡ is_some c.dev
    pub pairs : starts pcap c.calls ≡ stops pcap c.calls + (if c.capturing then 1 else 0)

  filter-starts : (d : Device) (f : Bytes) → starts pcap (filter_calls pcap d f) ≡ 0
  filter-starts d [] = refl
  filter-starts d (b ∷ bs) = refl

  filter-stops : (d : Device) (f : Bytes) → stops pcap (filter_calls pcap d f) ≡ 0
  filter-stops d [] = refl
  filter-stops d (b ∷ bs) = refl

  -- The pairs, by the device.
  pairs_of :
      (o : Option Device) (c : Control pcap)
      → c.dev ≡ o
      → IsPaired c
      → starts pcap c.calls ≡ stops pcap c.calls + (if is_some o then 1 else 0)
  pairs_of o c e h =
      h.pairs ∙ ap (λ b. stops pcap c.calls + (if b then 1 else 0)) (h.flag ∙ ap is_some e)

  stop_device_of-IsPaired :
      (o : Option Device) (c : Control pcap)
      → c.dev ≡ o
      → IsPaired c
      → IsPaired (stop_device_of pcap o c)
  unfolding stop_device_of
  stop_device_of-IsPaired none c e h = record {
    flag = sym (ap is_some e);
    pairs = pairs_of none c e h;
  }
  stop_device_of-IsPaired (some d) c e h =
      let more : List (DeviceCall pcap) = stop_device d ∷ close_device d ∷ [] in
      record {
        flag = refl;
        pairs = omega (
          arith,
          starts-append pcap c.calls more,
          stops-append pcap c.calls more,
          pairs_of (some d) c e h,
        );
      }

  start_calls :
      (d : Device) (f : Bytes)
      → (starts pcap (open_device d ∷ (filter_calls pcap d f ++ start_device d ∷ [])) ≡ 1)
        × (stops pcap (open_device d ∷ (filter_calls pcap d f ++ start_device d ∷ [])) ≡ 0)
  start_calls d [] = (refl, refl)
  start_calls d (b ∷ bs) = (refl, refl)

  -- What a start returns, if it returns.
  abbrev pub Starts : Control pcap → Returned (Control pcap) → Type 0
  Starts c (exited code) = Unit
  Starts c (returned c') = IsPaired c'

  started-IsPaired :
      (o : Option Device) (c : Control pcap)
      → starts pcap c.calls ≡ stops pcap c.calls
      → Starts c (start_device_of pcap o c)
  unfolding start_device_of
  started-IsPaired none c even = tt
  started-IsPaired (some d) c even =
      let more : List (DeviceCall pcap) =
        open_device d ∷ (filter_calls pcap d c.filter ++ start_device d ∷ []) in
      if_both (Starts c) (not (opens d)) tt (
        if_both (Starts c) (filter_ok pcap d c.filter)
          (record {
            flag = refl;
            pairs = omega (
              arith,
              starts-append pcap c.calls more,
              stops-append pcap c.calls more,
              (start_calls d c.filter).0,
              (start_calls d c.filter).1,
              even,
            );
          })
          tt)

  even_when_idle :
      (c : Control pcap)
      → c.capturing ≡ false
      → IsPaired c
      → starts pcap c.calls ≡ stops pcap c.calls
  even_when_idle c idle h =
      h.pairs ∙ ap (λ b. stops pcap c.calls + (if b then 1 else 0)) idle ∙ omega arith

  abbrev Serves : Returned (Server pcap × Answer) → Type 0
  Serves (exited code) = Unit
  Serves (returned (s, answer)) = IsPaired s.control

  with_control-Serves :
      (s : Server pcap) (c : Control pcap) (r : Returned (Control pcap))
      → Starts c r
      → Serves (with_control pcap s r)
  with_control-Serves s c (returned c') h = h
  with_control-Serves s c (exited code) h = tt

  start-Serves :
      (s : Server pcap)
      → s.control.capturing ≡ false
      → IsPaired s.control
      → Serves (with_control pcap s (start_capture pcap s.control))
  unfolding start_capture
  start-Serves s idle h = with_control-Serves s s.control _ (
      started-IsPaired (choose_device pcap s.control.device_ip) s.control
        (even_when_idle s.control idle h))

  stop-IsPaired : (c : Control pcap) → IsPaired c → IsPaired (stop_capture pcap c)
  unfolding stop_capture
  stop-IsPaired c h = stop_device_of-IsPaired c.dev c refl h

  stop-idle : (c : Control pcap) → (stop_capture pcap c).capturing ≡ false
  unfolding stop_capture stop_device_of
  stop-idle c = elim (Option-cases c.dev) [ inl e ↦ rw e refl | inr (d, e) ↦ rw e refl ]

  destroy-Serves :
      (live : Bool) (tables : List Bytes) (s : Server pcap)
      → IsPaired s.control
      → Serves (destroy_while pcap live tables s)
  unfolding destroy_while
  destroy-Serves true tables s h =
      start-Serves (removed pcap tables (stop_capture pcap s.control) s) (stop-idle s.control)
        (stop-IsPaired s.control h)
  destroy-Serves false tables s h = h

  toggle-Serves :
      (tables : List Bytes) (s : Server pcap)
      → IsPaired s.control
      → Serves (handle_request pcap tables toggle_request s)
  unfolding handle_request
  toggle-Serves tables s h =
      if_both Serves s.control.importing h (elim (Bool-cases s.control.capturing) [
        | inl live ↦
            subst
              (λ b. Serves (
                if b
                then returned (record s { control = stop_capture pcap s.control }, empty_object)
                else with_control pcap s (start_capture pcap s.control)))
              (sym live) (stop-IsPaired s.control h)
        | inr idle ↦
            subst
              (λ b. Serves (
                if b
                then returned (record s { control = stop_capture pcap s.control }, empty_object)
                else with_control pcap s (start_capture pcap s.control)))
              (sym idle) (start-Serves s idle h)
      ])

  request-Serves :
      (tables : List Bytes) (r : Request) (s : Server pcap)
      → IsPaired s.control
      → (r ≡ start_request → s.control.capturing ≡ false)
      → Serves (handle_request pcap tables r s)
  unfolding handle_request handle_destroy
  request-Serves tables start_request s h idle = start-Serves s (idle refl) h
  request-Serves tables stop_request s h idle = stop-IsPaired s.control h
  request-Serves tables toggle_request s h idle = toggle-Serves tables s h
  request-Serves tables destroy_request s h idle = destroy-Serves s.control.capturing tables s h

  -- Let the flag of the live capture say whether there is a device, and one more device have been
  -- started than stopped exactly while there is one. Then every request of the REST interface that
  -- returns keeps this so, a request to start a capture only where none is live.
  pub handle_request-IsPaired :
      (tables : List Bytes) (r : Request) (s s' : Server pcap) (answer : Answer)
      → IsPaired s.control
      → (r ≡ start_request → s.control.capturing ≡ false)
      → handle_request pcap tables r s ≡ returned (s', answer)
      → IsPaired s'.control
  handle_request-IsPaired tables r s s' answer h idle e =
      subst Serves e (request-Serves tables r s h idle)
