-- ===== src/Client/Heartbeat.antt =====
-- src/grpc_client.rs: the counters that the packet stream shares with the heartbeat loop, the heartbeats,
-- and the agent's registration. The arithmetic of `f32`, the environment and the two calls of the server
-- are parameters.
pub mod Reports
use ocellus_network_monitor.Prelude.{
  ℕ, zero, suc, ◌+◌, ◌*◌, ◌/◌, ◌%◌, ◌^◌, Bool, true, false, Option, none, some, String, List, [],
  ◌∷◌, ◌++◌, get_elem?, if◌then◌else◌, ◌⊎◌, inl, inr,
}
use ocellus_network_monitor.Packet.{IpAddr}
use ocellus_network_monitor.Text.{Str, lines, has_prefix, split_whitespace}
use ocellus_network_monitor.Client.{Stream, Wake, start, step}

-- `f32`
pub record Float32 : Type 1 where
  pub F32 : Type 0
  pub of_nat : ℕ → F32
  pub parse : Str → Option F32
  pub div : F32 → F32 → F32

-- `captured` is a field of the stream's state.
pub record AgentCounters : Type 0 where
  pub captured : ℕ
  pub flagged : ℕ
  pub dropped : ℕ

-- `interval` in seconds
pub record HeartbeatConfig : Type 0 where
  pub agent_id : String
  pub interval : ℕ
  pub agent_version : String
  pub hostname : String
  pub os_info : String

abbrev pub or_else : {A : Type 0} → A → Option A → A
or_else a none = a
or_else a (some b) = b

-- The variable HOSTNAME, if it is set.
unfoldable pub hostname_or_default : Option String → String
hostname_or_default variable = or_else "unknown" variable

pub record RegisterAgentRequest : Type 0 where
  pub token : String
  pub agent_id : String
  pub hostname : String
  pub os_info : String
  pub agent_version : String

pub record RegisterAgentResponse : Type 0 where
  pub ok : Bool
  pub message : String

-- A `tonic::Status` that the program makes, or one that the call returned.
pub data Status (E : Type 0) : Type 0 where
  unknown : String → Status E
  call_failed : E → Status E

-- The call of the server, on a request; then `none` for a registered agent.
unfoldable pub register_agent :
    {E : Type 0}
    → (RegisterAgentRequest → E ⊎ RegisterAgentResponse)
    → Option String
    → String
    → String
    → String
    → String
    → Option (Status E)
register_agent call variable os_info token agent_id agent_version =
    elim (call (record {
      token = token;
      agent_id = agent_id;
      hostname = hostname_or_default variable;
      os_info = os_info;
      agent_version = agent_version;
    })) [
      | inl e ↦ some (call_failed e)
      | inr resp ↦ if resp.ok then none else some (unknown resp.message)
    ]

-- "VmRSS:"
abbrev pub vm_rss : Str
vm_rss = b'V' ∷ b'm' ∷ b'R' ∷ b'S' ∷ b'S' ∷ b':' ∷ []

-- What a heartbeat reads: the system clock in nanoseconds since the epoch, unless it is before it, and
-- /proc/self/status.
pub record Reading : Type 0 where
  pub now : Option ℕ
  pub status : Option Str

module _ (float32 : Float32) where
  open float32 use {F32, of_nat, parse, div}

  pub record AgentHeartbeat : Type 0 where
    pub agent_id : String
    pub seconds : ℕ
    pub nanos : ℕ
    pub packets_captured : ℕ
    pub packets_flagged : ℕ
    pub packets_dropped : ℕ
    pub cpu_usage_pct : F32
    pub mem_usage_mb : F32
    pub agent_version : String
    pub hostname : String
    pub os_info : String

  abbrev pub parse_word : Option Str → Option F32
  parse_word none = none
  parse_word (some w) = parse w

  unfoldable pub mem_of_lines : List Str → F32
  mem_of_lines [] = of_nat 0
  mem_of_lines (l ∷ ls) =
      let rest = mem_of_lines ls in
      if has_prefix vm_rss l
      then div (or_else (of_nat 0) (parse_word (get_elem? (split_whitespace l) 1))) (of_nat 1024)
      else rest

  unfoldable pub read_mem_usage_mb : Option Str → F32
  read_mem_usage_mb none = of_nat 0
  read_mem_usage_mb (some status) = mem_of_lines (lines status)

  unfoldable pub heartbeat : HeartbeatConfig → AgentCounters → Reading → AgentHeartbeat
  heartbeat cfg counters reading =
      let now = or_else 0 reading.now in
      record {
        agent_id = cfg.agent_id;
        seconds = now / 10 ^ 9;
        nanos = now % 10 ^ 9;
        packets_captured = counters.captured;
        packets_flagged = counters.flagged;
        packets_dropped = counters.dropped;
        cpu_usage_pct = of_nat 0;
        mem_usage_mb = read_mem_usage_mb reading.status;
        agent_version = cfg.agent_version;
        hostname = cfg.hostname;
        os_info = cfg.os_info;
      }

  -- The two tasks: the stream, the counters that only it could share, the heartbeats sent, and whether
  -- the heartbeat loop still runs.
  pub record Tasks : Type 0 where
    pub stream : Stream
    pub counters : AgentCounters
    pub beats : List AgentHeartbeat
    pub beating : Bool

  abbrev pub tasks_started : Tasks
  tasks_started = record {
    stream = start;
    counters = record { captured = 0; flagged = 0; dropped = 0 };
    beats = [];
    beating = true;
  }

  -- What one of the tasks wakes for.
  pub data Event : Type 0 where
    stream_wakes : Wake → Event
    beat_due : Reading → Event
    beat_cancelled : Event

  module _ (blake3 : List ℕ → List ℕ) (ip_to_string : IpAddr → Str) (cfg : HeartbeatConfig)
      (batch_size : ℕ) where
    -- The stream's count is the shared counter.
    unfoldable pub task_step : Tasks → Event → Tasks
    unfolding step
    task_step t (stream_wakes w) =
        let stream =
          if t.stream.running
          then step blake3 ip_to_string cfg.agent_id batch_size t.stream w
          else t.stream in
        record t { stream = stream; counters = record t.counters { captured = stream.captured } }
    task_step t (beat_due reading) =
        if t.beating
        then record t { beats = t.beats ++ (heartbeat cfg t.counters reading ∷ []) }
        else t
    task_step t beat_cancelled = record t { beating = false }

    unfoldable pub run_tasks : Tasks → List Event → Tasks
    run_tasks t [] = t
    run_tasks t (e ∷ es) = run_tasks (task_step t e) es
