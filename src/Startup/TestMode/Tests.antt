-- ===== src/Startup/TestMode/Tests.antt =====
-- The mode of synthetic packets on a concrete configuration.
use ocellus_network_monitor.Prelude.{
  ℕ, ◌≡◌, refl, false, true, some, none, List, [], ◌∷◌, ◌++◌, ◌*◌, length, arith, index,
  from_option, slice, Outcome, done, panic,
}
use ocellus_network_monitor.Packet.{IpAddr, RawPacket}
use ocellus_network_monitor.Text.{Str}
use ocellus_network_monitor.Config.{Config}
use ocellus_network_monitor.Client.{Wake, received, ticked, start, run_packet_stream}
use ocellus_network_monitor.Client.Batches.{events_of}
use ocellus_network_monitor.TestSender.{
  frame_of, build_frame, transport_of, frame_to_raw, Sender, first, generate, next_tick, run_wakes,
  run_test_sender,
}
use ocellus_network_monitor.TestSender.Samples.{udp_draws}
use ocellus_network_monitor.TestSender.Ticks.{readies}
use ocellus_network_monitor.Startup.{test_cfg, stream_cfg}
use ocellus_network_monitor.Startup.TestMode.{test_mode_delivers}

-- Two ticks of one packet, in batches of three.
abbrev two_ticks : Config
two_ticks = record {
  list_devices = false;
  interface = none;
  bpf_filter = none;
  channel_capacity = 1024;
  grpc_addr = none;
  grpc_batch_size = some 3;
  grpc_flush_ms = none;
  heartbeat_interval_secs = none;
  agent_id = none;
  register_token = none;
  test_send = true;
  test_packets_per_tick = some 1;
  test_tick_ms = none;
  test_max_ticks = some 2;
}

abbrev no_hash : List ℕ → List ℕ
no_hash bytes = []

abbrev no_text : IpAddr → Str
no_text ip = []

abbrev of_done : Outcome Sender → Sender
of_done (done s) = s
of_done panic = first

abbrev after : Sender
after = of_done (run_test_sender (test_cfg two_ticks) (λ t i. udp_draws) (λ t i. 7) (readies 4))

abbrev taken : List RawPacket → List Wake
taken [] = ticked ∷ []
taken (raw ∷ raws) = received (some raw) ∷ taken raws

test_mode_delivers_example :
    let out =
      run_packet_stream no_hash no_text "agent" 3 start
        (taken after.sent ++ (received none ∷ [])) in
    (out.running ≡ false) × (length (events_of out.handed) ≡ 2 * 1) × (length out.pending ≡ 0)
unfolding run_test_sender next_tick run_wakes generate build_frame frame_of frame_to_raw
    transport_of index from_option slice test_cfg stream_cfg
test_mode_delivers_example =
    test_mode_delivers no_hash no_text two_ticks "agent" 2 4 (λ t i. udp_draws) (λ t i. 7) after
      (taken after.sent) refl (omega arith) (λ t i. (omega arith, omega arith, omega arith))
      (omega arith) (omega arith) refl refl
