-- ===== src/Pipeline/Tests.antt =====
-- Two packets captured and one batch drained.
use mathlib.Core.List.{Sublist}
use ocellus_network_monitor.Prelude.{
  ◌||◌, ◌==◌, true, ℕ, ◌+◌, ◌≤◌, ◌≡◌, ◌≢◌, ◌%◌, ◌^◌, refl, false, Option, none, List, [], ◌∷◌, ◌++◌,
  length, done, arith,
}
use ocellus_network_monitor.Packet.{ethernet, RawPacket}
use ocellus_network_monitor.Text.{Str}
use ocellus_network_monitor.Mpsc.Queue.{list_channel}
use ocellus_network_monitor.Ids.Baseline
use ocellus_network_monitor.Ids.Blacklist
use ocellus_network_monitor.Ring
use ocellus_network_monitor.Analyzer.Batch.{Schedules}
use ocellus_network_monitor.Ids.Engine.{Clock}
use ocellus_network_monitor.Analyzer.{Job, Analysis, scoring, exited, turn, turn_at}
use ocellus_network_monitor.Pipeline.{
  System, started, capture_packet, Reach, here, next, captures, analyzes, joined, finished,
  ring_size, in_flight,
}
use ocellus_network_monitor.Pipeline.Flow.{marks, holds}
use ocellus_network_monitor.Pipeline.Account.{messages_of}
use ocellus_network_monitor.Pipeline.Conserve.{pipeline_conserves, turn-returns}
use ocellus_network_monitor.Pipeline.Shutdown.{shutdown_hangs}
use ocellus_network_monitor.Client.Batches.{events_of}
use ocellus_network_monitor.Ids.Samples.{exact_bloom, ascii_lowercase, whole_decimals, samples}

abbrev pub no_hash : List ℕ → List ℕ
no_hash bytes = []

abbrev pub no_json : Baseline.BaselineState whole_decimals → Option Str
no_json b = none

abbrev pub fresh : Baseline.Baseline whole_decimals
fresh = Baseline.new whole_decimals 0 none none

abbrev pub no_list : Blacklist.Blacklist exact_bloom ascii_lowercase
no_list = Blacklist.new exact_bloom ascii_lowercase

abbrev pub ping : ℕ → RawPacket
ping n = record {
  timestamp = n;
  bytes = [];
  orig_len = 84;
  cap_len = 84;
  interface = "eth0";
  link_type = ethernet;
  transport = none;
  is_truncated = false;
  packet_id = n;
  ids_score = 0;
  ids_flag = 0;
}

abbrev Sys : Type 0
Sys = System samples list_channel no_hash no_json

abbrev first : Sys
first = started samples list_channel no_hash no_json 1 fresh no_list

abbrev Reached : Sys → Sys → Type 0
Reached = Reach samples list_channel no_hash no_json "agent" 2

abbrev captured_two : Sys
captured_two =
    capture_packet samples list_channel no_hash no_json (ping 2)
      (capture_packet samples list_channel no_hash no_json (ping 1) first)

captured_two-Reached : Reached first captured_two
unfolding capture_packet started
captured_two-Reached = next (next here (captures (ping 1) refl)) (captures (ping 2) refl)

abbrev draining_two : Sys
draining_two = record captured_two {
  analysis = record captured_two.analysis {
    ring = record captured_two.analysis.ring { buf = [] };
    position = scoring (ping 1 ∷ ping 2 ∷ []);
  };
}

pub no_jobs : Schedules 0 []
no_jobs = record { within = tt; once = tt; covers = tt }

draining_two-Reached : Reached first draining_two
unfolding capture_packet started turn_at Ring.new Ring.push Ring.make_room Ring.drain_batch
    in_flight
draining_two-Reached = next captured_two-Reached (analyzes [] draining_two.analysis no_jobs refl)

abbrev pub clock : Clock
clock = record {
  rate = record {
    created_refill = 5;
    created_start = 5;
    checked = 5;
    restarted = 5;
    consumed = 5;
    sum = λ a b. a + b;
  };
  ports = 5;
  sources = 5;
  handshake = record { created = 5; checked = 5; restarted = 5; opened = 5 };
}

-- The workers pick the second packet first.
abbrev both : List Job
both = (1, clock) ∷ (0, clock) ∷ []

both-Schedules : Schedules 2 both
both-Schedules = record {
  within = (omega arith, (omega arith, tt));
  once = (refl, (refl, tt));
  covers = (refl, (refl, tt));
}

turn-returns_example :
    (a : Analysis samples list_channel) × (turn samples list_channel both draining_two.analysis
      ≡ done a)
unfolding in_flight
turn-returns_example =
    turn-returns samples list_channel no_hash no_json "agent" 2 1 fresh no_list draining_two both
      (omega arith) draining_two-Reached both-Schedules

shutdown_hangs_example :
    (draining_two.analysis.ring.closed ≡ false)
    × (draining_two.analysis.position ≢ exited)
    × (draining_two.capture ≢ joined)
    × (draining_two.main ≢ finished)
shutdown_hangs_example =
    shutdown_hangs samples list_channel no_hash no_json "agent" 2 1 fresh no_list draining_two
      draining_two-Reached

pipeline_conserves_example :
    let s = draining_two in
    (length s.analysis.ring.buf ≤ ring_size)
    × Sublist
        (marks (s.taken ++ (s.freed ++ holds samples list_channel s.analysis)))
        (marks s.captured)
    × (length s.captured
        ≡ length (s.taken ++ (s.freed ++ holds samples list_channel s.analysis))
          + length s.analysis.refused
          + length s.evictions)
    × (s.analysis.ring.dropped ≡ length s.evictions % 2 ^ 64)
    × (events_of s.stream.handed ++ s.stream.pending
        ≡ messages_of samples list_channel no_hash no_json "agent" s.taken)
    × ((s.stream.running || length s.stream.pending == 0) ≡ true)
pipeline_conserves_example =
    pipeline_conserves samples list_channel no_hash no_json "agent" 2 1 fresh no_list draining_two
      (omega arith) draining_two-Reached
