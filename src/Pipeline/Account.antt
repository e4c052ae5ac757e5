-- ===== src/Pipeline/Account.antt =====
-- The account of the captured packets: the line they stand in and what a state of the agent keeps of it.
use mathlib.Core.List.{Sublist, sublist-append_right}
use mathlib.Core.List.Sublist
use ocellus_network_monitor.Prelude.{
  ◌||◌, ◌==◌, true, map-append, ℕ, ◌+◌, ◌%◌, ◌^◌, ◌≡◌, refl, sym, ◌∙◌, ap, subst, Option, String,
  List, [], ◌∷◌, ◌++◌, append_assoc, length,
}
use ocellus_network_monitor.Packet.{RawPacket}
use ocellus_network_monitor.Text.{Str}
use ocellus_network_monitor.Mpsc.{Mpsc}
use ocellus_network_monitor.Ring.Newest.{IsValid}
use ocellus_network_monitor.Client.{PacketEvent, parse_packet}
use ocellus_network_monitor.Client.Batches.{Keeps, to_list}
use ocellus_network_monitor.Ids.Baseline
use ocellus_network_monitor.Ids.Payload
use ocellus_network_monitor.Ids.Engine.{Externals}
use ocellus_network_monitor.Analyzer.Batch.{unscored}
use ocellus_network_monitor.Pipeline.{System, ring_size}
use ocellus_network_monitor.Pipeline.Flow.{marks, holds}

-- The line with the ring's part at its end.
pub regroup :
    (t f c i b : List RawPacket) → t ++ (f ++ (c ++ (i ++ b))) ≡ (t ++ (f ++ (c ++ i))) ++ b
regroup t f c i b =
    ap (λ l. t ++ (f ++ l)) (sym (append_assoc c i b))
    ∙ ap (λ l. t ++ l) (sym (append_assoc f (c ++ i) b))
    ∙ sym (append_assoc t (f ++ (c ++ i)) b)

-- A list that loses a part in the middle and gains a packet at its end.
pub evict_order :
    (front lost b b' captured : List RawPacket) (pkt : RawPacket)
    → b ++ (pkt ∷ []) ≡ lost ++ b'
    → Sublist (marks (front ++ b)) (marks captured)
    → Sublist (marks (front ++ b')) (marks (captured ++ (pkt ∷ [])))
evict_order front lost b b' captured pkt e h =
    let last = pkt ∷ [] in
    let gap : Sublist (marks (front ++ b')) (marks (front ++ (lost ++ b'))) =
      rw
        (
          map-append unscored front b',
          map-append unscored front (lost ++ b'),
          map-append unscored lost b',
        )
        (Sublist.append (Sublist.refl (marks front))
          (sublist-append_right (marks lost) (marks b'))) in
    let grown : Sublist (marks ((front ++ b) ++ last)) (marks (captured ++ last)) =
      rw (map-append unscored (front ++ b) last, map-append unscored captured last)
        (Sublist.append h (Sublist.refl (marks last))) in
    let same : (front ++ b) ++ last ≡ front ++ (lost ++ b') =
      append_assoc front b last ∙ ap (λ l. front ++ l) e in
    Sublist.trans gap (subst (λ l. Sublist (marks l) (marks (captured ++ last))) same grown)

pub line_order :
    (t f l' l : List RawPacket)
    → Sublist (marks l') (marks l)
    → Sublist (marks (t ++ (f ++ l'))) (marks (t ++ (f ++ l)))
line_order t f l' l h =
    rw
      (
        map-append unscored t (f ++ l'),
        map-append unscored f l',
        map-append unscored t (f ++ l),
        map-append unscored f l,
      )
      (Sublist.append (Sublist.refl (marks t)) (Sublist.append (Sublist.refl (marks f)) h))

module _ (externals : Externals) (mpsc : Mpsc RawPacket) (blake3 : List ℕ → List ℕ)
    (to_json : Baseline.BaselineState externals.decimals → Option Str) where
  open externals use {bloom, crate, decimals, to_lowercase, ip_to_string}
  open mpsc use {contents, contents-try_recv, contents-drop_receiver, contents-channel, channel}

  abbrev S : Type 0
  S = System externals mpsc blake3 to_json

  abbrev pub held : S → List RawPacket
  held s = holds externals mpsc s.analysis

  -- The messages of packets.
  unfoldable pub messages_of : String → List RawPacket → List PacketEvent
  messages_of agent_id [] = []
  messages_of agent_id (pkt ∷ ps) =
      to_list (parse_packet blake3 ip_to_string pkt agent_id) ++ messages_of agent_id ps

  pub messages_of-append :
      (agent_id : String) (ps qs : List RawPacket)
      → messages_of agent_id (ps ++ qs) ≡ messages_of agent_id ps ++ messages_of agent_id qs
  unfolding messages_of
  messages_of-append agent_id [] qs = refl
  messages_of-append agent_id (p ∷ ps) qs =
      ap (λ l. to_list (parse_packet blake3 ip_to_string p agent_id) ++ l)
        (messages_of-append agent_id ps qs)
      ∙ sym (
          append_assoc (to_list (parse_packet blake3 ip_to_string p agent_id))
            (messages_of agent_id ps) (messages_of agent_id qs))

  -- From the packet received first to the one captured last.
  abbrev pub line : S → List RawPacket
  line s = s.taken ++ (s.freed ++ held s)

  pub record Flows (agent_id : String) (batch_size : ℕ) (s : S) : Type 0 where
    pub valid : IsValid s.analysis.ring
    pub capacity : s.analysis.ring.cap ≡ ring_size
    pub order : Sublist (marks (line s)) (marks s.captured)
    pub size : length s.captured ≡ length (line s) + length s.analysis.refused + length s.evictions
    pub counted : s.analysis.ring.dropped ≡ length s.evictions % 2 ^ 64
    pub scanner : s.analysis.engine.payload_scanner ≡ Payload.new crate
    pub quiet : s.stream.running ≡ true → s.freed ≡ []
    pub reports : Keeps batch_size (messages_of agent_id s.taken) s.stream
    pub rested : (s.stream.running || length s.stream.pending == 0) ≡ true
