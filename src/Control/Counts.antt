-- ===== src/Control/Counts.antt =====
-- The devices that some calls start and stop.
use nanocap.Prelude.{ℕ, suc, ◌+◌, ◌≡◌, arith, List, [], ◌∷◌, ◌++◌}
use nanocap.Control.{
  Devices, DeviceCall, open_device, start_device, stop_device, close_device, set_filter,
}

module _ (pcap : Devices) where
  abbrev pub starts : List (DeviceCall pcap) → ℕ
  starts [] = 0
  starts (start_device d ∷ cs) = suc (starts cs)
  starts (open_device d ∷ cs) = starts cs
  starts (stop_device d ∷ cs) = starts cs
  starts (close_device d ∷ cs) = starts cs
  starts (set_filter d f ∷ cs) = starts cs

  abbrev pub stops : List (DeviceCall pcap) → ℕ
  stops [] = 0
  stops (stop_device d ∷ cs) = suc (stops cs)
  stops (open_device d ∷ cs) = stops cs
  stops (start_device d ∷ cs) = stops cs
  stops (close_device d ∷ cs) = stops cs
  stops (set_filter d f ∷ cs) = stops cs

  pub starts-append : (cs ds : List (DeviceCall pcap)) → starts (cs ++ ds) ≡ starts cs + starts ds
  starts-append [] ds = omega arith
  starts-append (start_device d ∷ cs) ds = omega (arith, starts-append cs ds)
  starts-append (open_device d ∷ cs) ds = starts-append cs ds
  starts-append (stop_device d ∷ cs) ds = starts-append cs ds
  starts-append (close_device d ∷ cs) ds = starts-append cs ds
  starts-append (set_filter d f ∷ cs) ds = starts-append cs ds

  pub stops-append : (cs ds : List (DeviceCall pcap)) → stops (cs ++ ds) ≡ stops cs + stops ds
  stops-append [] ds = omega arith
  stops-append (stop_device d ∷ cs) ds = omega (arith, stops-append cs ds)
  stops-append (open_device d ∷ cs) ds = stops-append cs ds
  stops-append (start_device d ∷ cs) ds = stops-append cs ds
  stops-append (close_device d ∷ cs) ds = stops-append cs ds
  stops-append (set_filter d f ∷ cs) ds = stops-append cs ds
