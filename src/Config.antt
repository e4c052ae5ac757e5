-- ===== src/Config.antt =====
-- src/config.rs: what `clap` parses from the command line and the environment, with the default that the
-- program gives it (`channel_capacity`, 1024).
use ocellus_network_monitor.Prelude.{ℕ, Bool, Option, String}

pub record Config : Type 0 where
  pub list_devices : Bool
  pub interface : Option String
  pub bpf_filter : Option String
  pub channel_capacity : ℕ
  pub grpc_addr : Option String
  pub grpc_batch_size : Option ℕ
  pub grpc_flush_ms : Option ℕ
  pub heartbeat_interval_secs : Option ℕ
  pub agent_id : Option String
  pub register_token : Option String
  pub test_send : Bool
  pub test_packets_per_tick : Option ℕ
  pub test_tick_ms : Option ℕ
  pub test_max_ticks : Option ℕ
