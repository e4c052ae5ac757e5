-- ===== src/Startup/TestMode.antt =====
-- src/main.rs with `--test-send`: the test sender and the packet stream as `main` configures them.
mod Tests
use ocellus_network_monitor.Prelude.{
  ℕ, suc, ◌*◌, ◌^◌, ◌≤◌, ◌<◌, ◌≡◌, false, some, none, String, List, [], ◌∷◌, ◌++◌, length, Outcome,
  done,
}
use ocellus_network_monitor.Text.{Str}
use ocellus_network_monitor.Packet.{IpAddr}
use ocellus_network_monitor.Config.{Config}
use ocellus_network_monitor.Client.{Wake, received, start, run_packet_stream}
use ocellus_network_monitor.Client.Batches.{events_of}
use ocellus_network_monitor.Client.Heartbeat.{or_else}
use ocellus_network_monitor.TestSender.{Draws, Sender, run_test_sender}
use ocellus_network_monitor.TestSender.Generate.{InRange}
use ocellus_network_monitor.TestSender.Ticks.{readies}
use ocellus_network_monitor.TestSender.Delivers.{hears, test_send_delivers}
use ocellus_network_monitor.Startup.{test_cfg, stream_cfg}

-- With `--test-send`, a limit of the ticks (in `u64`), random numbers in the ranges that the sender asks
-- for, and a positive batch size: when the sender has gone undisturbed through its ticks, and the
-- packet stream has taken its packets from the channel, with any events of the timer in between, and found
-- the channel closed, then the stream has stopped, its batches have a message for each packet of each
-- tick, and none is pending.
pub test_mode_delivers :
    (blake3 : List ℕ → List ℕ) (ip_to_string : IpAddr → Str) (config : Config) (agent_id : String)
    (m n : ℕ) (draws : ℕ → ℕ → Draws) (clock : ℕ → ℕ → ℕ) (s : Sender) (ws : List Wake)
    → config.test_max_ticks ≡ some m
    → m < 2 ^ 64
    → ((t i : ℕ) → InRange (draws t i))
    → 0 < (stream_cfg config agent_id).batch_size
    → m * suc (or_else 20 config.test_packets_per_tick) ≤ n
    → run_test_sender (test_cfg config) draws clock (readies n) ≡ done s
    → hears ws ≡ some s.sent
    → let out =
        run_packet_stream blake3 ip_to_string agent_id
          (stream_cfg config agent_id).batch_size
          start
          (ws ++ (received none ∷ [])) in
      (out.running ≡ false)
      × (length (events_of out.handed) ≡ m * or_else 20 config.test_packets_per_tick)
      × (length out.pending ≡ 0)
unfolding test_cfg
test_mode_delivers blake3 ip_to_string config agent_id m n draws clock s ws last fits range h enough
      returned heard =
    test_send_delivers blake3 ip_to_string agent_id (test_cfg config) m draws clock
      (stream_cfg config agent_id).batch_size n s ws last fits range h enough returned heard
