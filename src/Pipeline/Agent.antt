-- ===== src/Pipeline/Agent.antt =====
-- src/main.rs in capture mode with the way of the batches to the server (src/grpc_client.rs): the threads
-- and tasks of Pipeline beside the two tasks and the channel of Client.Link, which share the stream.
pub mod EndToEnd
mod Tests
use ocellus_network_monitor.Prelude.{ℕ, ◌≡◌, true, false, Option, String, List, []}
use ocellus_network_monitor.Packet.{RawPacket}
use ocellus_network_monitor.Text.{Str}
use ocellus_network_monitor.Mpsc.{Mpsc}
use ocellus_network_monitor.Client.{PacketBatch, Wake, cancelled}
use ocellus_network_monitor.Client.Link.{
  Link, link_started, LinkStep, asking, accepted, answer, wake,
}
use ocellus_network_monitor.Ids.Baseline
use ocellus_network_monitor.Ids.Blacklist
use ocellus_network_monitor.Ids.Engine.{Externals}
use ocellus_network_monitor.Pipeline.{System, started, stream_step, stop_stream, Step}

module _ (externals : Externals) (mpsc : Mpsc RawPacket) (blake3 : List ℕ → List ℕ)
    (to_json : Baseline.BaselineState externals.decimals → Option Str) (E : Type 0)
    (batches : Mpsc PacketBatch) where
  open externals use {bloom, decimals, to_lowercase, ip_to_string}

  pub record Agent : Type 0 where
    pub system : System externals mpsc blake3 to_json
    pub link : Link E batches

  unfoldable pub agent_started :
      ℕ → Baseline.Baseline decimals → Blacklist.Blacklist bloom to_lowercase → Agent
  agent_started channel_capacity baseline blacklist = record {
    system = started externals mpsc blake3 to_json channel_capacity baseline blacklist;
    link = link_started E batches;
  }

  module _ (agent_id : String) (batch_size : ℕ) where
    -- A move of either side that leaves the stream alone, an event of the stream, which both sides see, and
    -- the refusal of the stream by the server.
    pub data AgentStep (a : Agent) : Agent → Type 0 where
      system_moves :
          (s : System externals mpsc blake3 to_json)
          → Step externals mpsc blake3 to_json agent_id batch_size a.system s
          → s.stream ≡ a.system.stream
          → AgentStep a (record a { system = s })
      link_moves :
          (l : Link E batches)
          → LinkStep E batches blake3 ip_to_string agent_id batch_size a.link l
          → l.stream ≡ a.link.stream
          → AgentStep a (record a { link = l })
      stream_wakes :
          (s : System externals mpsc blake3 to_json) (w : Wake)
          → Step externals mpsc blake3 to_json agent_id batch_size a.system s
          → s.stream
            ≡ stream_step externals mpsc blake3 to_json agent_id batch_size a.system.stream w
          → a.link.opening ≡ accepted
          → a.link.stream.running ≡ true
          → a.link.waiting ≡ []
          → AgentStep a (record {
            system = s;
            link = wake E batches blake3 ip_to_string agent_id batch_size w a.link;
          })
      refuses :
          a.system.stream.running ≡ true
          → a.system.taken ≡ []
          → a.system.stream.pending ≡ []
          → a.link.opening ≡ asking
          → AgentStep a (record {
            system = stop_stream externals mpsc blake3 to_json agent_id batch_size a.system;
            link = answer E batches false a.link;
          })

    pub data AgentReach (a : Agent) : Agent → Type 0 where
      agent_here : AgentReach a a
      agent_next : {b c : Agent} → AgentReach a b → AgentStep b c → AgentReach a c
