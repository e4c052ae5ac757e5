-- ===== src/Lib.antt =====
-- Ocellus network monitor: an agent that captures packets, parses their headers, scores each packet
-- with a set of intrusion detectors and sends the scored packets to a server.
--
-- The capture thread (src/capture.rs) parses each frame and pushes it onto a bounded ring
-- (src/ring_buffer.rs). The analyzer thread (src/analyzer.rs) drains the ring in batches, whose packets
-- its workers score with the engine (src/ids/mod.rs): it runs the detectors on a packet, adds up their
-- signals (src/ids/score.rs) and lets the baseline (src/ids/baseline.rs) learn from it. The analyzer hands
-- the scored packets over a bounded channel to the client (src/grpc_client.rs), which sends them in
-- batches, beside a loop of heartbeats. A sweeper thread drops stale detector state. src/main.rs builds
-- all of this from the environment and the configuration, and waits for its end.
--
-- Files:
--   Ring           src/ring_buffer.rs: `RingInner` and each method as one atomic step; Newest, Schedule
--                  and Batch reason about series of calls.
--   Packet         src/raw_packet.rs: the metadata of a packet.
--   Capture        src/capture.rs: `parse_transport` and its parts (Parse), and its safety (Safe). Loop has
--                  `run_capture`, with src/error.rs: the device (Devices), the packets pushed (Pushes).
--   Text           the operations of `str` and `Ipv4Addr` that the program calls, over code points;
--                  Utf8 has the lossy decoder and the encoder.
--   Ids.Score      src/ids/score.rs: `IdsResult::from_signals`, `Severity::from_score`.
--   Ids.Blacklist  src/ids/blacklist.rs: CIDR entries, the Bloom filter in front of the exact set, domains,
--                  the list loaders.
--   Ids.PortScan   src/ids/port_scan.rs: sliding sets, both scans, the sweep.
--   Ids.SynFlood   src/ids/syn_flood.rs: counters, the half-open table, resets, the sweep.
--   Ids.RateLimit  src/ids/rate_limit.rs: token buckets and window counters.
--   Ids.Dns        src/ids/dns.rs: the query name reader and the anomaly checks.
--   Ids.Payload    src/ids/payload.rs: the signature table and the scans.
--   Ids.Baseline   src/ids/baseline.rs: the learned sets, the phase, persistence as a returned write.
--   Ids.Engine     src/ids/mod.rs: `analyze` in the order of the code, `sweep_tick`; Checks has the report
--                  and the checks that need no detector. Workers has calls of `analyze` that run at the
--                  same time: one step (Advance), any interleaving (Together, Learning).
--   Ids.Geo        src/ids/geo.rs: the country of an address.
--   Mpsc           the bounded channel, a parameter; Queue is one, for the tests.
--   Analyzer       src/analyzer.rs: the thread's loop as steps from one place to the next (`turn_at`), the
--                  scoring of a batch in any order of its packets (Batch, Scores).
--   Client         src/grpc_client.rs: `parse_packet`, `decode_tcp_flags` and the loop of `run_packet_stream`;
--                  Heartbeat has `run_heartbeat_loop`, `register_agent` and `read_mem_usage_mb`; Link the
--                  stream's opening, its channel of batches and the task of the acknowledgements.
--   Identity       src/agent_identity.rs: `resolve`.
--   Config         src/config.rs: the options.
--   Startup        src/main.rs: what `main` builds before it starts the threads and tasks. TestMode has
--                  the mode of synthetic packets.
--   TestSender     src/tests/test_sender.rs: the frames that `build_frame` makes (Build), what the sender and
--                  the parser of the capture read in them (Read, Frames, Ports), the loop of
--                  `run_test_sender` (Generate, Ticks) and its way through the packet stream (Delivers).
--   Pipeline       src/main.rs: the threads and tasks of capture mode with the ring, the channel and the
--                  engine that they share, as a step relation; Account, Flow, Moves and Conserve follow the
--                  packets through it, Shutdown its end. Agent joins it with Client.Link, from the
--                  captured packet to the batch at the server.
--   Prelude        shared names, tests, list, map, bit and panic lemmas.
--   Tests modules  concrete runs; Ids.Samples has the concrete externals that they use.
--
-- Conventions. Bytes and machine integers are natural numbers, with the wrap-around written out where
-- the code can overflow. An index or slice out of range is `panic` of `Outcome`. Each reading of the
-- clock is an argument. A `DashMap`, `HashMap` or `HashSet` is an association list or a list of distinct
-- elements. Scores are whole numbers of points, which `f32` adds exactly. The ratio of SYNs to
-- acknowledgements is compared as its `f32` quotient. Tokens of a bucket are whole units of 10^-9 tokens, and
-- the `f64` sum of a refill is an argument, with a law on its rounding. The query name reader runs on fuel, the payload's length:
-- each label takes at least two bytes, and running out of fuel counts as a panic, so that the theorems
-- on its return cover its termination.
--
-- Parameters, with what is assumed of them: the Bloom filter (it never denies what was set), the
-- Aho-Corasick automaton (its matches are occurrences, and it finds one where there is one), the hasher,
-- the `f64` operations of the entropy and of the moving averages, the Unicode lowercase mapping, the text
-- of an address, the JSON encoder and decoder, the payload hash, the channel of tokio (its content is
-- what was sent and not received, in order, and it is closed once its receiver is dropped), the file
-- system (a written file reads back), the `pcap` and `maxminddb` crates, the calls of the server, and the
-- random numbers of the test sender (they lie in the ranges that it asks for).
--
-- Not modelled: what the logs say, the generated protobuf code, the parser of the command line, and the
-- list of devices that `main` can print. In Analyzer and Pipeline a call of `analyze` is one
-- step: those of several workers are taken in any order, one after the other. Ids.Engine.Workers has the
-- interleavings of the steps inside the calls, where a detector's own `inspect` is one step.
pub mod Prelude
pub mod Ring
pub mod TestSender
pub mod Text
pub mod Packet
pub mod Capture
pub mod Config
pub mod Identity
pub mod Client
pub mod Ids
pub mod Mpsc
pub mod Analyzer
pub mod Pipeline
pub mod Startup
