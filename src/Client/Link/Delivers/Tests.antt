-- ===== src/Client/Link/Delivers/Tests.antt =====
-- A batch that the server takes, and one after the server ended the stream.
use ocellus_network_monitor.Prelude.{
  not, ℕ, ◌≡◌, refl, true, false, ◌||◌, ◌==◌, none, some, List, [], ◌++◌, length, All, any, arith,
}
use ocellus_network_monitor.Packet.{IpAddr, v4, ethernet, RawPacket}
use ocellus_network_monitor.Text.{Str}
use ocellus_network_monitor.Mpsc.Queue.{queue_channel, push_back, pop_front}
use ocellus_network_monitor.Client.{received, step, enqueue, flush, parse_packet}
use ocellus_network_monitor.Client.Batches.{events_of, IsSized, Numbered, messages}
use ocellus_network_monitor.Client.Link.{
  ack_received, ack_closed, ack_step, Link, link_started, answer, wake, LinkReach, link_here,
  link_next, answered, wakes_for, sends, send_fails, call_takes, server_receives, server_ends,
}
use ocellus_network_monitor.Client.Link.Delivers.{in_order, is_end, link_delivers, closed_loses}

-- The task ends when the server closes.
acks_end :
    (ack_step {E = ℕ}
      (ack_step
        (record { logged = []; running = true })
        (ack_received (record { seq = 0; accepted = 1; rejected = 0; message = "" })))
      ack_closed).running
    ≡ false
unfolding ack_step
acks_end = refl

abbrev no_hash : List ℕ → List ℕ
no_hash bytes = []

abbrev no_text : IpAddr → Str
no_text ip = []

abbrev ping : ℕ → RawPacket
ping n = record {
  timestamp = n;
  bytes = [];
  orig_len = 84;
  cap_len = 84;
  interface = "eth0";
  link_type = ethernet;
  transport = some (record {
    src_ip = v4 1;
    dst_ip = v4 2;
    src_port = none;
    dst_port = none;
    protocol = 1;
    tcp_flags = none;
    ttl = 64;
    ip_flags = 0;
    ip_frag_offset = 0;
    icmp_type = some 8;
    icmp_code = some 0;
    eth_src_mac = none;
    vlan_id = none;
    payload_offset = 42;
  });
  is_truncated = false;
  packet_id = n;
  ids_score = 0;
  ids_flag = 0;
}

abbrev L : Type 0
L = Link ℕ queue_channel

abbrev Reached : L → L → Type 0
Reached = LinkReach ℕ queue_channel no_hash no_text "agent" 1

abbrev handled : ℕ → L → L
handled n s = wake ℕ queue_channel no_hash no_text "agent" 1 (received (some (ping n))) s

abbrev first : L
first = link_started ℕ queue_channel

abbrev waits : L
waits = handled 1 (answer ℕ queue_channel true first)

-- The batch of the first packet is with the server, which then ends the stream.
abbrev ended : L
ended = record waits {
  batch_tx = record { capacity = 64; attached = false; items = [] };
  waiting = [];
  delivered = waits.waiting;
}

ended-Reached : Reached first ended
unfolding link_started answer wake step enqueue flush parse_packet push_back pop_front
ended-Reached =
    link_next
      (link_next
        (link_next
          (link_next
            (link_next (link_next link_here (answered true refl))
              (wakes_for (received (some (ping 1))) refl refl refl))
            (sends _ [] _ refl refl))
          (call_takes _ _ refl))
        (server_receives _ [] refl))
      server_ends

link_delivers_example :
    (events_of (in_order no_hash no_text "agent" 1 ℕ queue_channel ended) ++ ended.stream.pending
      ≡ messages no_hash no_text "agent" ended.wakes)
    × All (IsSized 1) (in_order no_hash no_text "agent" 1 ℕ queue_channel ended)
    × Numbered 0 (in_order no_hash no_text "agent" 1 ℕ queue_channel ended)
    × ((not ended.batch_tx.attached || length ended.lost == 0) ≡ true)
link_delivers_example =
    link_delivers no_hash no_text "agent" 1 ℕ queue_channel ended (omega arith) ended-Reached

-- The batch of the second packet.
abbrev later : L
later = record (handled 2 ended) { waiting = []; lost = (handled 2 ended).waiting }

later-Reached : Reached ended later
unfolding link_started answer wake step enqueue flush parse_packet
later-Reached =
    link_next (link_next link_here (wakes_for (received (some (ping 2))) refl refl refl))
      (send_fails _ [] refl refl)

closed_loses_example :
    (not later.batch_tx.attached ≡ true)
    × (later.delivered ≡ ended.delivered)
    × (ended.delivered ++ (later.lost ++ later.waiting) ≡ later.stream.handed)
    × ((later.stream.running || any is_end later.wakes) ≡ true)
closed_loses_example =
    closed_loses no_hash no_text "agent" 1 ℕ queue_channel ended later ended-Reached refl
      later-Reached
