-- ===== src/Analyzer.antt =====
-- src/analyzer.rs: the loop of the analyzer thread, one atomic access of shared state at a time, and the
-- parallel scoring of a batch. A worker's call of `analyze` is one step on the engine.
pub mod Batch
pub mod Scores
use ocellus_network_monitor.Prelude.{
  ℕ, Option, none, some, List, [], ◌∷◌, ◌++◌, set, index, Outcome, done, ◌>>=◌,
}
use ocellus_network_monitor.Packet.{RawPacket}
use ocellus_network_monitor.Mpsc.{Mpsc}
use ocellus_network_monitor.Ring.{RingInner, Wait, returns, waits, drain_batch, pop_blocking}
use ocellus_network_monitor.Ids.Score.{IdsResult}
use ocellus_network_monitor.Ids.Engine.{Clock, Externals, IdsEngine, analyze}

-- A worker's pick: the place of a packet in the batch, with the clock readings of its analysis.
abbrev pub Job : Type 0
Job = ℕ × Clock

-- Where the thread is: before `drain_batch`, inside `pop_blocking`, scoring, forwarding, or after its loop.
pub data Position : Type 0 where
  draining popping exited : Position
  scoring : List RawPacket → Position
  forwarding : List RawPacket → Position

-- An empty batch leads to `pop_blocking`.
abbrev pub after_drain : List RawPacket → Position
after_drain [] = popping
after_drain (p ∷ ps) = scoring (p ∷ ps)

abbrev pub after_pop : Wait RawPacket → Position
after_pop (returns none) = exited
after_pop (returns (some pkt)) = scoring (pkt ∷ [])
after_pop waits = popping

unfoldable pub with_result : RawPacket → IdsResult → RawPacket
with_result pkt result = record pkt {
  ids_score = result.total_score;
  ids_flag = result.flag_reason;
}

module _ (externals : Externals) (mpsc : Mpsc RawPacket) where
  open mpsc use {Channel, try_send}

  -- The thread's handles, where it is, and the packets that `try_send` refused.
  pub record Analysis : Type 0 where
    pub ring : RingInner RawPacket
    pub engine : IdsEngine externals
    pub grpc_tx : Channel
    pub position : Position
    pub refused : List RawPacket

  unfoldable pub score_one :
      Clock → IdsEngine externals → RawPacket → Outcome (RawPacket × IdsEngine externals)
  score_one clock e pkt = do
    (result, e') ← analyze externals clock e pkt
    done (with_result pkt result, e')

  -- The parallel `map`: the workers take the packets in the order of the jobs, and each result goes to
  -- the place of its packet.
  unfoldable pub score_batch :
      List Job
      → IdsEngine externals
      → List RawPacket
      → Outcome (List RawPacket × IdsEngine externals)
  score_batch [] e ps = done (ps, e)
  score_batch ((i, clock) ∷ jobs) e ps = do
    pkt ← index ps i
    (scored, e') ← score_one clock e pkt
    score_batch jobs e' (set ps i scored)

  abbrev pub forward_option : RawPacket → Option Channel → Analysis → Analysis
  forward_option pkt none a = record a { refused = a.refused ++ (pkt ∷ []) }
  forward_option pkt (some c) a = record a { grpc_tx = c }

  -- A packet that does not fit is dropped.
  unfoldable pub forward : RawPacket → Analysis → Analysis
  forward pkt a = forward_option pkt (try_send a.grpc_tx pkt) a

  abbrev pub go_to : Position → Analysis → Analysis
  go_to p a = record a { position = p }

  -- One step of the thread from a place of its loop.
  unfoldable pub turn_at : List Job → Position → Analysis → Outcome Analysis
  turn_at jobs draining a =
      let (batch, r) = drain_batch a.ring 64 in
      done (record a { ring = r; position = after_drain batch })
  turn_at jobs popping a =
      let (w, r) = pop_blocking a.ring in done (record a { ring = r; position = after_pop w })
  turn_at jobs (scoring ps) a = do
    (scored, e) ← score_batch jobs a.engine ps
    done (record a { engine = e; position = forwarding scored })
  turn_at jobs (forwarding []) a = done (go_to draining a)
  turn_at jobs (forwarding (pkt ∷ ps)) a = done (go_to (forwarding ps) (forward pkt a))
  turn_at jobs exited a = done a

  abbrev pub turn : List Job → Analysis → Outcome Analysis
  turn jobs a = turn_at jobs a.position a
