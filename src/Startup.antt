-- ===== src/Startup.antt =====
-- src/main.rs: what `main` builds from the environment, the files and the configuration before it starts
-- its threads and tasks.
pub mod Files
pub mod TestMode
use ocellus_network_monitor.Prelude.{ℕ, ◌⊎◌, Option, none, some, String, List, [], ◌∷◌}
use ocellus_network_monitor.Text.{Str}
use ocellus_network_monitor.Config.{Config}
use ocellus_network_monitor.TestSender.{TestSenderConfig}
use ocellus_network_monitor.Client.Heartbeat.{
  HeartbeatConfig, RegisterAgentRequest, RegisterAgentResponse, Status, register_agent, or_else,
  hostname_or_default,
}
use ocellus_network_monitor.Ids.Baseline
use ocellus_network_monitor.Ids.Blacklist
use ocellus_network_monitor.Ids.Blacklist.{load_ip_list, load_domain_list}
use ocellus_network_monitor.Ids.Geo
use ocellus_network_monitor.Ids.Geo.{Maxmind, GeoDetector, load, country_code, try_with}
use ocellus_network_monitor.Ids.Engine
use ocellus_network_monitor.Ids.Engine.{Externals, IdsEngine}

-- The variables that `main` reads, and the files that can be read as text.
pub record Environment : Type 0 where
  pub ids_baseline_path : Option Str
  pub geoip_mmdb_path : Option Str
  pub ids_ip_blacklist_path : Option Str
  pub ids_domain_blacklist_path : Option Str
  pub hostname : Option String
  pub read_to_string : Str → Option Str

-- The file of a variable that is set.
abbrev pub file_of : Environment → Option Str → Option Str
file_of env variable = try_with variable env.read_to_string

-- `flush_interval` in milliseconds
pub record PacketStreamConfig : Type 0 where
  pub agent_id : String
  pub batch_size : ℕ
  pub flush_interval : ℕ

unfoldable pub grpc_addr_of : Config → String
grpc_addr_of config = or_else "http://127.0.0.1:50051" config.grpc_addr

unfoldable pub stream_cfg : Config → String → PacketStreamConfig
stream_cfg config agent_id = record {
  agent_id = agent_id;
  batch_size = or_else 50 config.grpc_batch_size;
  flush_interval = or_else 200 config.grpc_flush_ms;
}

-- The configuration of the test sender, which runs in place of the capture with `--test-send`.
unfoldable pub test_cfg : Config → TestSenderConfig
test_cfg config = record {
  packets_per_tick = or_else 20 config.test_packets_per_tick;
  tick_interval = or_else 200 config.test_tick_ms;
  max_ticks = config.test_max_ticks;
}

-- With the version and the operating system that the build fixes.
unfoldable pub hb_cfg : Config → Environment → String → String → String → HeartbeatConfig
hb_cfg config env agent_id agent_version os_info = record {
  agent_id = agent_id;
  interval = or_else 10 config.heartbeat_interval_secs;
  agent_version = agent_version;
  hostname = hostname_or_default env.hostname;
  os_info = os_info;
}

unfoldable pub build_geo : (maxmind : Maxmind) → Environment → GeoDetector maxmind
build_geo maxmind env = elim env.geoip_mmdb_path [
  | none ↦ Geo.new maxmind
  | some mmdb_path ↦ load maxmind mmdb_path (Geo.new maxmind)
]

-- The engine's lookups of a country go to the detector.
unfoldable pub with_geo : (maxmind : Maxmind) → Externals → GeoDetector maxmind → Externals
with_geo maxmind externals geo = record externals { country_code = country_code maxmind geo }

module _ (externals : Externals) where
  open externals use {bloom, decimals, to_lowercase}

  abbrev L : Type 0
  L = Blacklist.Blacklist bloom to_lowercase

  abbrev pub with_ips : L → Option Str → L
  with_ips b none = b
  with_ips b (some content) = load_ip_list bloom to_lowercase b content

  abbrev pub with_domains : L → Option Str → L
  with_domains b none = b
  with_domains b (some content) = load_domain_list bloom to_lowercase b content

  unfoldable pub build_blacklist : Environment → L
  build_blacklist env =
      with_domains
        (with_ips (Blacklist.new bloom to_lowercase) (file_of env env.ids_ip_blacklist_path))
        (file_of env env.ids_domain_blacklist_path)

  -- At a time of the clock, with the decoder of the stored state.
  unfoldable pub build_baseline :
      (Str → Option (Baseline.BaselineState decimals))
      → Environment
      → ℕ
      → Baseline.Baseline decimals
  build_baseline from_json env now =
      Baseline.new decimals now env.ids_baseline_path
        (try_with (file_of env env.ids_baseline_path) from_json)

  unfoldable pub build_engine :
      (maxmind : Maxmind)
      → (Str → Option (Baseline.BaselineState decimals))
      → (env : Environment) → ℕ
      → IdsEngine (with_geo maxmind externals (build_geo maxmind env))
  unfolding with_geo
  build_engine maxmind from_json env now =
      Engine.new (with_geo maxmind externals (build_geo maxmind env))
        (build_baseline from_json env now) (build_blacklist env)

-- The registration where there is a token, with the error that `main` logs before it goes on.
unfoldable pub registration :
    {E : Type 0}
    → (RegisterAgentRequest → E ⊎ RegisterAgentResponse)
    → Config
    → Environment
    → String
    → String
    → String
    → Option (Option (Status E))
registration call config env os_info agent_id agent_version = elim config.register_token [
  | none ↦ none
  | some token ↦ some (register_agent call env.hostname os_info token agent_id agent_version)
]
