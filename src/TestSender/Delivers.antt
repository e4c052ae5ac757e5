-- ===== src/TestSender/Delivers.antt =====
-- src/main.rs with `--test-send`: the packets of the test sender through the packet stream.
use mathlib.Core.Option.{some-injective}
use ocellus_network_monitor.Prelude.{
  ℕ, suc, ◌*◌, ◌^◌, ◌≤◌, ◌<◌, ◌≡◌, refl, sym, ◌∙◌, ap, subst, Bool-cases, inl, inr, false, Option,
  none, some, String, List, [], ◌∷◌, ◌++◌, length, length-append, All, if◌then◌else◌, arith, done,
}
use ocellus_network_monitor.Text.{Str}
use ocellus_network_monitor.Packet.{IpAddr, TransportMeta, RawPacket}
use ocellus_network_monitor.Client.{
  PacketEvent, Wake, cancelled, received, ticked, Stream, start, step, event_of, parse_packet,
  run_packet_stream,
}
use ocellus_network_monitor.Client.Batches.{
  to_list, messages, events_of, run_packet_stream-append, run_packet_stream_delivers,
}
use ocellus_network_monitor.TestSender.{TestSenderConfig, Draws, Sender, run_test_sender}
use ocellus_network_monitor.TestSender.Generate.{Genuine, InRange}
use ocellus_network_monitor.TestSender.Ticks.{readies, run_test_sender-ends}

abbrev cons_option : RawPacket → Option (List RawPacket) → Option (List RawPacket)
cons_option raw none = none
cons_option raw (some raws) = some (raw ∷ raws)

-- The packets that the stream takes from the channel, on events that do not end it.
abbrev pub hears : List Wake → Option (List RawPacket)
hears [] = some []
hears (cancelled ∷ ws) = none
hears (received none ∷ ws) = none
hears (received (some raw) ∷ ws) = cons_option raw (hears ws)
hears (ticked ∷ ws) = hears ws

module _ (blake3 : List ℕ → List ℕ) (ip_to_string : IpAddr → Str) (agent_id : String) where
  parse_packet-some :
      (raw : RawPacket) (tm : TransportMeta)
      → raw.transport ≡ some tm
      → parse_packet blake3 ip_to_string raw agent_id
        ≡ some (event_of blake3 ip_to_string raw agent_id tm)
  unfolding parse_packet
  parse_packet-some raw tm h = rw h refl

  -- A message for each packet.
  messages-hears :
      (ws : List Wake) (raws : List RawPacket)
      → hears ws ≡ some raws
      → All Genuine raws
      → length (messages blake3 ip_to_string agent_id (ws ++ (received none ∷ []))) ≡ length raws
  unfolding messages
  messages-hears [] [] h all = refl
  messages-hears [] (raw ∷ raws) h all = absurd (cc h)
  messages-hears (cancelled ∷ ws) raws h all = absurd (cc h)
  messages-hears (received none ∷ ws) raws h all = absurd (cc h)
  messages-hears (received (some raw) ∷ ws) raws h all =
      by_rest (hears ws) refl h λ raws' e others. messages-hears ws raws' e others
    where
      rest : List PacketEvent
      rest = messages blake3 ip_to_string agent_id (ws ++ (received none ∷ []))

      by_rest :
          (o : Option (List RawPacket))
          → hears ws ≡ o
          → cons_option raw o ≡ some raws
          → ((raws' : List RawPacket)
              → hears ws ≡ some raws'
              → All Genuine raws'
              → length rest ≡ length raws')
          → length (to_list (parse_packet blake3 ip_to_string raw agent_id) ++ rest) ≡ length raws
      by_rest none e k go = absurd (cc k)
      by_rest (some raws') e k go =
          let same : raws ≡ raw ∷ raws' = sym (some-injective _ _ k) in
          let ((tm, tm', has, _, _), others) = subst (All Genuine) same all in
          rw (same, parse_packet-some raw tm has) (ap (λ n. suc n) (go raws' e others))
  messages-hears (ticked ∷ ws) raws h all = messages-hears ws raws h all

  -- The stream ends where the channel is closed.
  stream_stops :
      (size : ℕ) (ws : List Wake)
      → (run_packet_stream blake3 ip_to_string agent_id size start
          (ws ++ (received none ∷ []))).running
        ≡ false
  unfolding step
  stream_stops size ws =
      let s = run_packet_stream blake3 ip_to_string agent_id size start ws in
      ap (λ (t : Stream). t.running)
        (run_packet_stream-append blake3 ip_to_string agent_id size start ws (received none))
      ∙ by_running s
    where
      by_running :
          (s : Stream)
          → (if s.running
              then step blake3 ip_to_string agent_id size s (received none)
              else s).running
            ≡ false
      by_running s = elim (Bool-cases s.running) [ inl on ↦ rw on refl | inr off ↦ rw off refl ]

  -- The packets of an undisturbed sender, through a stream that takes them all.
  pub test_send_delivers :
      (cfg : TestSenderConfig) (m : ℕ) (draws : ℕ → ℕ → Draws) (clock : ℕ → ℕ → ℕ) (size n : ℕ)
      (s : Sender) (ws : List Wake)
      → cfg.max_ticks ≡ some m
      → m < 2 ^ 64
      → ((t i : ℕ) → InRange (draws t i))
      → 0 < size
      → m * suc cfg.packets_per_tick ≤ n
      → run_test_sender cfg draws clock (readies n) ≡ done s
      → hears ws ≡ some s.sent
      → let out =
          run_packet_stream blake3 ip_to_string agent_id size start (ws ++ (received none ∷ [])) in
        (out.running ≡ false)
        × (length (events_of out.handed) ≡ m * cfg.packets_per_tick)
        × (length out.pending ≡ 0)
  test_send_delivers cfg m draws clock size n s ws last fits range h enough returned heard =
      let ws' = ws ++ (received none ∷ []) in
      let out = run_packet_stream blake3 ip_to_string agent_id size start ws' in
      let (s', returned', _, count, all) =
        run_test_sender-ends cfg m draws clock last fits range n enough in
      let same : s' ≡ s = cc (returned, returned') in
      let (order, _, _, _, quiet, _) =
        run_packet_stream_delivers blake3 ip_to_string agent_id size ws' h in
      let stops = stream_stops size ws in
      let made = messages-hears ws s.sent heard (subst (λ t. All Genuine t.sent) same all) in
      let total = subst (λ t. length t.sent ≡ m * cfg.packets_per_tick) same count in
      let none_pending : length out.pending ≡ 0 = ground arith in
      let split = length-append (events_of out.handed) out.pending in
      let whole = ap length order in (stops, omega arith, none_pending)
