-- ===== src/Pipeline/Agent/EndToEnd.antt =====
-- From the captured packets to the batches that the server receives.
use mathlib.Core.List.{Sublist}
use ocellus_network_monitor.Prelude.{
  ℕ, ◌+◌, ◌<◌, ◌≡◌, refl, sym, ◌∙◌, ap, ◌⊎◌, inl, inr, true, false, ◌||◌, ◌==◌, Option, String,
  List, ◌++◌, length,
}
use ocellus_network_monitor.Packet.{RawPacket}
use ocellus_network_monitor.Text.{Str}
use ocellus_network_monitor.Mpsc.{Mpsc}
use ocellus_network_monitor.Client.{PacketBatch, Stream, step}
use ocellus_network_monitor.Client.Batches.{events_of}
use ocellus_network_monitor.Client.Link.{
  Link, link_started, LinkStep, answered, wakes_for, sends, send_fails, call_takes, server_receives,
  server_ends, acknowledges, LinkReach, link_here, link_next, accepted, refused, answer, wake,
}
use ocellus_network_monitor.Client.Link.Delivers.{in_order, in_order-sent, link_delivers}
use ocellus_network_monitor.Ids.Baseline
use ocellus_network_monitor.Ids.Blacklist
use ocellus_network_monitor.Ids.Engine.{Externals}
use ocellus_network_monitor.Pipeline.{started, Reach, here, next, stream_fails}
use ocellus_network_monitor.Pipeline.Account.{messages_of}
use ocellus_network_monitor.Pipeline.Conserve.{pipeline_conserves}
use ocellus_network_monitor.Pipeline.Flow.{marks, holds}
use ocellus_network_monitor.Pipeline.Agent.{
  Agent, agent_started, AgentStep, system_moves, link_moves, stream_wakes, refuses, AgentReach,
  agent_here, agent_next,
}

module _ (externals : Externals) (mpsc : Mpsc RawPacket) (blake3 : List ℕ → List ℕ)
    (to_json : Baseline.BaselineState externals.decimals → Option Str) (E : Type 0)
    (batches : Mpsc PacketBatch) where
  open externals use {bloom, decimals, to_lowercase, ip_to_string}
  open batches use {is_closed}

  abbrev A : Type 0
  A = Agent externals mpsc blake3 to_json E batches

  module _ (agent_id : String) (batch_size : ℕ) (a0 : A) where
    -- The parts move by their own rules, and share the stream unless the server has refused it.
    record Joint (a : A) : Type 0 where
      sys : Reach externals mpsc blake3 to_json agent_id batch_size a0.system a.system
      lnk : LinkReach E batches blake3 ip_to_string agent_id batch_size a0.link a.link
      shared : (a.system.stream ≡ a.link.stream) ⊎ (a.link.opening ≡ refused)

    stays_refused :
        {l l' : Link E batches}
        → LinkStep E batches blake3 ip_to_string agent_id batch_size l l'
        → l.opening ≡ refused
        → l'.opening ≡ refused
    unfolding wake
    stays_refused (answered yes_no asks) h = absurd (cc (asks, h))
    stays_refused (wakes_for w opened on free) h = h
    stays_refused (sends b rest c w s) h = h
    stays_refused (send_fails b rest w s) h = h
    stays_refused (call_takes b c t) h = h
    stays_refused (server_receives b rest t) h = h
    stays_refused server_ends h = h
    stays_refused (acknowledges w on) h = h

    step-Joint :
        {a b : A}
        → AgentStep externals mpsc blake3 to_json E batches agent_id batch_size a b
        → Joint a
        → Joint b
    unfolding wake answer
    step-Joint (system_moves s st same) j = record {
      sys = next j.sys st;
      lnk = j.lnk;
      shared = elim j.shared [ inl e ↦ inl (same ∙ e) | inr r ↦ inr r ];
    }
    step-Joint (link_moves l st same) j = record {
      sys = j.sys;
      lnk = link_next j.lnk st;
      shared = elim j.shared [ inl e ↦ inl (e ∙ sym same) | inr r ↦ inr (stays_refused st r) ];
    }
    step-Joint (stream_wakes s w st same opened on free) j = record {
      sys = next j.sys st;
      lnk = link_next j.lnk (wakes_for w opened on free);
      shared = elim j.shared [
        | inl e ↦ inl (same ∙ ap (λ t. step blake3 ip_to_string agent_id batch_size t w) e)
        | inr r ↦ absurd (cc (opened, r))
      ];
    }
    step-Joint (refuses on none_taken none_pending asks) j = record {
      sys = next j.sys (stream_fails on none_taken none_pending);
      lnk = link_next j.lnk (answered false asks);
      shared = inr refl;
    }

    Joint-reach :
        {a b : A}
        → AgentReach externals mpsc blake3 to_json E batches agent_id batch_size a b
        → Joint a
        → Joint b
    Joint-reach agent_here j = j
    Joint-reach (agent_next r st) j = step-Joint st (Joint-reach r j)

  -- In capture mode with a positive batch size, in every state that the agent can reach in whatever order
  -- its threads and tasks and the server move, once the server has accepted the stream: the batches that the
  -- server received, then those lost, those that the call is bringing to it, those in the channel of batches
  -- and the one in `send`, carry with the messages still pending exactly the messages of the packets that the stream received, in order, and no
  -- batch is lost unless the server has ended the stream. Those packets, with those freed and those still
  -- on their way, taken without their scores, are a subsequence of the packets captured, and with those
  -- that the channel refused and those that the ring evicted they are as many as were captured.
  pub agent_delivers :
      (agent_id : String) (batch_size channel_capacity : ℕ) (baseline : Baseline.Baseline decimals)
      (blacklist : Blacklist.Blacklist bloom to_lowercase) (a : A)
      → 0 < batch_size
      → AgentReach externals mpsc blake3 to_json E batches agent_id batch_size
          (agent_started externals mpsc blake3 to_json E batches channel_capacity baseline
            blacklist)
          a
      → a.link.opening ≡ accepted
      → (events_of (in_order blake3 ip_to_string agent_id batch_size E batches a.link)
            ++ a.link.stream.pending
          ≡ messages_of externals mpsc blake3 to_json agent_id a.system.taken)
        × ((is_closed a.link.batch_tx || length a.link.lost == 0) ≡ true)
        × Sublist
            (marks (a.system.taken ++ (a.system.freed ++ holds externals mpsc a.system.analysis)))
            (marks a.system.captured)
        × (length a.system.captured
            ≡ length (a.system.taken ++ (a.system.freed ++ holds externals mpsc a.system.analysis))
              + length a.system.analysis.refused
              + length a.system.evictions)
  unfolding agent_started started link_started
  agent_delivers agent_id batch_size channel_capacity baseline blacklist a positive r opened =
      let a0 =
        agent_started externals mpsc blake3 to_json E batches channel_capacity baseline blacklist in
      let j =
        Joint-reach agent_id batch_size a0 r
          record { sys = here; lnk = link_here; shared = inl refl } in
      let same : a.system.stream ≡ a.link.stream = elim j.shared [
        | inl e ↦ e
        | inr z ↦ absurd (cc (opened, z))
      ] in
      let (_, order, size, _, report, _) =
        pipeline_conserves externals mpsc blake3 to_json agent_id batch_size channel_capacity
          baseline blacklist a.system positive j.sys in
      let (_, _, _, kept) =
        link_delivers blake3 ip_to_string agent_id batch_size E batches a.link positive j.lnk in
      let flow = in_order-sent blake3 ip_to_string agent_id batch_size E batches a.link j.lnk in
      (
        ap (λ bs. events_of bs ++ a.link.stream.pending) flow
            ∙ ap (λ (t : Stream). events_of t.handed ++ t.pending) (sym same)
            ∙ report,
        kept,
        order,
        size,
      )
