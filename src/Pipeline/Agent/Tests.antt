-- ===== src/Pipeline/Agent/Tests.antt =====
-- One packet from the capture to the server.
use mathlib.Core.List.{Sublist}
use ocellus_network_monitor.Prelude.{
  ◌||◌, ◌==◌, true, ℕ, ◌+◌, ◌≡◌, refl, none, some, List, [], ◌∷◌, ◌++◌, length, arith, index,
  from_option, ℕ_discrete, Outcome, done, panic,
}
use ocellus_network_monitor.Prelude.Map.{contains, lookup}
use ocellus_network_monitor.Packet.{v4, RawPacket}
use ocellus_network_monitor.Mpsc.Queue.{list_channel, queue_channel, push_back, pop_front}
use ocellus_network_monitor.Ring
use ocellus_network_monitor.Analyzer.Batch.{Schedules}
use ocellus_network_monitor.Ids.Score.{from_signals, sum_scores}
use ocellus_network_monitor.Ids.Baseline
use ocellus_network_monitor.Ids.Blacklist
use ocellus_network_monitor.Ids.RateLimit
use ocellus_network_monitor.Ids.Engine
use ocellus_network_monitor.Analyzer.{
  Job, Analysis, turn, turn_at, score_batch, score_one, with_result, forward,
}
use ocellus_network_monitor.Pipeline.{
  started, capture_packet, receive, captures, analyzes, stream_receives, in_flight,
}
use ocellus_network_monitor.Pipeline.Flow.{marks, holds}
use ocellus_network_monitor.Pipeline.Account.{messages_of}
use ocellus_network_monitor.Client.{PacketBatch, received, step, enqueue, flush, parse_packet}
use ocellus_network_monitor.Client.Batches.{events_of}
use ocellus_network_monitor.Client.Link.{
  link_started, answer, wake, answered, sends, call_takes, server_receives,
}
use ocellus_network_monitor.Client.Link.Delivers.{in_order}
use ocellus_network_monitor.Ids.Samples.{samples}
use ocellus_network_monitor.Pipeline.Tests.{no_hash, no_json, fresh, no_list, ping, clock, no_jobs}
use ocellus_network_monitor.Pipeline.Agent.{
  Agent, agent_started, AgentReach, agent_here, agent_next, link_moves, system_moves, stream_wakes,
}
use ocellus_network_monitor.Pipeline.Agent.EndToEnd.{agent_delivers}

-- An echo request.
abbrev echo : RawPacket
echo = record (ping 1) {
  transport = some (record {
    src_ip = v4 1;
    dst_ip = v4 2;
    src_port = none;
    dst_port = none;
    protocol = 1;
    tcp_flags = none;
    ttl = 64;
    ip_flags = 0;
    ip_frag_offset = 0;
    icmp_type = some 8;
    icmp_code = some 0;
    eth_src_mac = none;
    vlan_id = none;
    payload_offset = 42;
  });
}

abbrev A : Type 0
A = Agent samples list_channel no_hash no_json ℕ queue_channel

abbrev a0 : A
a0 = agent_started samples list_channel no_hash no_json ℕ queue_channel 1 fresh no_list

abbrev a1 : A
a1 = record a0 { link = answer ℕ queue_channel true a0.link }

abbrev a2 : A
a2 = record a1 { system = capture_packet samples list_channel no_hash no_json echo a1.system }

abbrev of_done :
    Analysis samples list_channel
    → Outcome (Analysis samples list_channel)
    → Analysis samples list_channel
of_done a (done b) = b
of_done a panic = a

abbrev turned : List Job → A → A
turned jobs a = record a {
  system = record a.system {
    analysis = of_done a.system.analysis (turn samples list_channel jobs a.system.analysis);
  };
}

abbrev a3 : A
a3 = turned [] a2

abbrev one_job : List Job
one_job = (0, clock) ∷ []

abbrev a4 : A
a4 = turned one_job a3

abbrev a5 : A
a5 = turned one_job a4

abbrev scored : RawPacket
scored = with_result echo (from_signals [] 0)

abbrev Reached : A → A → Type 0
Reached = AgentReach samples list_channel no_hash no_json ℕ queue_channel "agent" 1

a2-Reached : Reached a0 a2
unfolding agent_started link_started answer capture_packet started
a2-Reached =
    agent_next (agent_next agent_here (link_moves _ (answered true refl) refl))
      (system_moves a2.system (captures echo refl) refl)

a3-Reached : Reached a0 a3
unfolding agent_started link_started answer capture_packet started turn_at Ring.new Ring.push
    Ring.make_room Ring.drain_batch in_flight
a3-Reached =
    agent_next a2-Reached
      (system_moves a3.system (analyzes [] a3.system.analysis no_jobs refl) refl)

one_job-Schedules : Schedules 1 one_job
one_job-Schedules = record { within = (omega arith, tt); once = (refl, tt); covers = (refl, tt) }

a4-Reached : Reached a0 a4
unfolding agent_started link_started answer capture_packet started turn_at Ring.new Ring.push
    Ring.make_room Ring.drain_batch in_flight score_batch score_one with_result index from_option
    Engine.analyze Engine.new Engine.run_detectors Engine.check_addresses Engine.check_source
    Engine.raise_option Engine.raise Engine.check_rate Engine.check_ports Engine.check_handshake
    Engine.check_headers Engine.note_if Engine.check_country Engine.scan_payload
    Engine.dns_query_name Engine.check_dns Engine.check_unusual_port Engine.check_vlan
    Engine.conclude RateLimit.inspect RateLimit.new RateLimit.pass RateLimit.consume
    RateLimit.verdict Blacklist.new Blacklist.check_ip Baseline.new contains ℕ_discrete lookup
    from_signals sum_scores RateLimit.count_packet RateLimit.roll_window
a4-Reached =
    agent_next a3-Reached
      (system_moves a4.system (analyzes one_job a4.system.analysis one_job-Schedules refl) refl)

-- The packet as it was scored.
abbrev head_or : RawPacket → List RawPacket → RawPacket
head_or pkt [] = pkt
head_or pkt (p ∷ ps) = p

abbrev result : RawPacket
result = head_or echo a5.system.analysis.grpc_tx.items

abbrev a6 : A
a6 = record {
  system =
      receive samples list_channel no_hash no_json "agent" 1 result
        (record a5.system.analysis.grpc_tx { items = [] }) a5.system;
  link =
      wake ℕ queue_channel no_hash samples.ip_to_string "agent" 1 (received (some result)) a5.link;
}

a6-Reached : Reached a0 a6
unfolding agent_started link_started answer capture_packet started turn_at Ring.new Ring.push
    Ring.make_room Ring.drain_batch in_flight score_batch score_one with_result index from_option
    Engine.analyze Engine.new Engine.run_detectors Engine.check_addresses Engine.check_source
    Engine.raise_option Engine.raise Engine.check_rate Engine.check_ports Engine.check_handshake
    Engine.check_headers Engine.note_if Engine.check_country Engine.scan_payload
    Engine.dns_query_name Engine.check_dns Engine.check_unusual_port Engine.check_vlan
    Engine.conclude RateLimit.inspect RateLimit.new RateLimit.pass RateLimit.consume
    RateLimit.verdict Blacklist.new Blacklist.check_ip Baseline.new contains ℕ_discrete lookup
    from_signals sum_scores RateLimit.count_packet RateLimit.roll_window forward receive wake step
    enqueue flush parse_packet push_back pop_front
a6-Reached =
    agent_next
      (agent_next a4-Reached
        (system_moves a5.system (analyzes one_job a5.system.analysis one_job-Schedules refl) refl))
      (stream_wakes a6.system (received (some result))
        (stream_receives result (record a5.system.analysis.grpc_tx { items = [] }) refl refl) refl
        refl refl refl)

abbrev batch_or : PacketBatch → List PacketBatch → PacketBatch
batch_or b [] = b
batch_or b (c ∷ cs) = c

abbrev batch : PacketBatch
batch = batch_or (record { events = []; seq = 0; agent_id = "" }) a6.link.waiting

-- The batch of the packet is in the channel, then with the call, and then with the server.
abbrev a7 : A
a7 = record a6 {
  link = record a6.link { batch_tx = record a6.link.batch_tx { items = batch ∷ [] }; waiting = [] };
}

abbrev a8 : A
a8 = record a7 { link = record a7.link { batch_tx = a6.link.batch_tx; in_flight = batch ∷ [] } }

abbrev a9 : A
a9 = record a8 { link = record a8.link { in_flight = []; delivered = batch ∷ [] } }

a9-Reached : Reached a0 a9
unfolding agent_started link_started answer capture_packet started turn_at Ring.new Ring.push
    Ring.make_room Ring.drain_batch in_flight score_batch score_one with_result index from_option
    Engine.analyze Engine.new Engine.run_detectors Engine.check_addresses Engine.check_source
    Engine.raise_option Engine.raise Engine.check_rate Engine.check_ports Engine.check_handshake
    Engine.check_headers Engine.note_if Engine.check_country Engine.scan_payload
    Engine.dns_query_name Engine.check_dns Engine.check_unusual_port Engine.check_vlan
    Engine.conclude RateLimit.inspect RateLimit.new RateLimit.pass RateLimit.consume
    RateLimit.verdict Blacklist.new Blacklist.check_ip Baseline.new contains ℕ_discrete lookup
    from_signals sum_scores RateLimit.count_packet RateLimit.roll_window forward receive wake step
    enqueue flush parse_packet push_back pop_front
a9-Reached =
    agent_next
      (agent_next
        (agent_next a6-Reached
          (link_moves a7.link (sends batch [] a7.link.batch_tx refl refl) refl))
        (link_moves a8.link (call_takes batch a8.link.batch_tx refl) refl))
      (link_moves a9.link (server_receives batch [] refl) refl)

-- The server has the packet's message.
arrived : length (events_of a9.link.delivered) ≡ 1
unfolding agent_started link_started answer capture_packet started turn_at Ring.new Ring.push
    Ring.make_room Ring.drain_batch in_flight score_batch score_one with_result index from_option
    Engine.analyze Engine.new Engine.run_detectors Engine.check_addresses Engine.check_source
    Engine.raise_option Engine.raise Engine.check_rate Engine.check_ports Engine.check_handshake
    Engine.check_headers Engine.note_if Engine.check_country Engine.scan_payload
    Engine.dns_query_name Engine.check_dns Engine.check_unusual_port Engine.check_vlan
    Engine.conclude RateLimit.inspect RateLimit.new RateLimit.pass RateLimit.consume
    RateLimit.verdict Blacklist.new Blacklist.check_ip Baseline.new contains ℕ_discrete lookup
    from_signals sum_scores RateLimit.count_packet RateLimit.roll_window forward receive wake step
    enqueue flush parse_packet push_back pop_front events_of
arrived = refl

agent_delivers_example :
    (events_of (in_order no_hash samples.ip_to_string "agent" 1 ℕ queue_channel a9.link)
        ++ a9.link.stream.pending
      ≡ messages_of samples list_channel no_hash no_json "agent" a9.system.taken)
    × ((queue_channel.is_closed a9.link.batch_tx || length a9.link.lost == 0) ≡ true)
    × Sublist
        (marks
          (a9.system.taken ++ (a9.system.freed ++ holds samples list_channel a9.system.analysis)))
        (marks a9.system.captured)
    × (length a9.system.captured
        ≡ length
            (a9.system.taken ++ (a9.system.freed ++ holds samples list_channel a9.system.analysis))
          + length a9.system.analysis.refused
          + length a9.system.evictions)
unfolding wake answer
agent_delivers_example =
    agent_delivers samples list_channel no_hash no_json ℕ queue_channel "agent" 1 1 fresh no_list a9
      (omega arith) a9-Reached refl
