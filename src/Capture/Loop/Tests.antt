-- ===== src/Capture/Loop/Tests.antt =====
-- Two devices, the second of which is opened and gives one packet before the flag is set.
use ocellus_network_monitor.Prelude.{
  ℕ, ◌≡◌, refl, true, false, ◌⊎◌, none, some, String, List, [], ◌∷◌, All, done, arith,
}
use text.Mathlib.Text.{◌==◌ as str_eq}
use ocellus_network_monitor.Packet.{ethernet, RawPacket}
use ocellus_network_monitor.Config.{Config}
use ocellus_network_monitor.Ring
use ocellus_network_monitor.Ring.Newest.{push_all}
use ocellus_network_monitor.Capture.Parse.{pcap_linktype_to_enum}
use ocellus_network_monitor.Capture.Loop.{
  ok, err, Pcap, CaptureError, interface_not_found, capture_failed, packet, timeout_expired,
  no_more_packets, Round, returns, CaptureState, find_device, resolve_device, open_device,
  run_capture,
}
use ocellus_network_monitor.Capture.Loop.Pushes.{
  HasSound, ending, arrivals, Captured, run_capture_pushes,
}
use ocellus_network_monitor.Capture.Loop.Devices.{IsSetup, IsFirst, run_capture_error}

abbrev two_devices : Pcap
two_devices = record {
  Error = ℕ;
  Device = String;
  Inactive = String;
  Active = String;
  name = λ d. d;
  list = ok ("lo" ∷ "eth0" ∷ []);
  lookup = ok none;
  from_device = λ d. ok d;
  activate = λ d. ok d;
  get_datalink = λ d. 1;
  filter = λ d text. err 3;
}

abbrev plain : Config
plain = record {
  list_devices = false;
  interface = some "eth0";
  bpf_filter = none;
  channel_capacity = 1024;
  grpc_addr = none;
  grpc_batch_size = none;
  grpc_flush_ms = none;
  heartbeat_interval_secs = none;
  agent_id = none;
  register_token = none;
  test_send = false;
  test_packets_per_tick = none;
  test_tick_ms = none;
  test_max_ticks = none;
}

abbrev rounds : List (Round ℕ)
rounds =
    record { shutdown = false; next = timeout_expired }
    ∷ record {
      shutdown = false;
      next = packet (record { len = 60; caplen = 2; tv_sec = 1; tv_usec = 5 }) (1 ∷ 2 ∷ []);
    }
    ∷ record { shutdown = true; next = no_more_packets }
    ∷ []

abbrev empty : CaptureState
empty = record { buffer = Ring.new 4; packet_counter = 0 }

plain-opens : open_device two_devices plain ≡ ok ("eth0", ethernet)
unfolding open_device resolve_device find_device pcap_linktype_to_enum
plain-opens = refl

rounds-HasSound : All HasSound rounds
rounds-HasSound = (tt, (((omega arith, (omega arith, (omega arith, tt))), tt), (tt, tt)))

run_capture_pushes_example :
    (s' : CaptureState) × (ps : List RawPacket) × (run_capture two_devices plain rounds empty
      ≡ done (ending rounds, s'))
    × (s'.buffer ≡ push_all empty.buffer ps)
    × Captured "eth0" ethernet empty.packet_counter (arrivals rounds) ps
run_capture_pushes_example =
    run_capture_pushes two_devices plain "eth0" ethernet rounds empty plain-opens rounds-HasSound

abbrev Found : String → Type 0
Found interface =
    ((d : String) × (resolve_device two_devices (some interface) ≡ ok d)
      × IsFirst two_devices interface ("lo" ∷ "eth0" ∷ []) d)
    ⊎ ((resolve_device two_devices (some interface) ≡ err (interface_not_found interface))
        × All (λ d. str_eq d interface ≡ false) ("lo" ∷ "eth0" ∷ []))

abbrev missing : Config
missing = record plain { interface = some "wlan0" }

missing-fails :
    run_capture two_devices missing rounds empty
    ≡ done (returns (err (interface_not_found "wlan0")), empty)
unfolding run_capture open_device resolve_device find_device
missing-fails = refl

abbrev no_wlan : CaptureError ℕ
no_wlan = interface_not_found "wlan0"

run_capture_error_example :
    (IsSetup no_wlan × (empty ≡ empty))
    ⊎ ((cause : ℕ) × (no_wlan ≡ capture_failed cause) × (ending rounds ≡ returns (err no_wlan)))
run_capture_error_example =
    run_capture_error two_devices missing rounds empty empty no_wlan missing-fails
