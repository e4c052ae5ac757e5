-- ===== src/Ids.antt =====
-- src/ids: the detectors, the scoring model and the engine that runs them on each packet.
pub mod Samples
pub mod Geo
pub mod Score
pub mod Baseline
pub mod Blacklist
pub mod PortScan
pub mod SynFlood
pub mod RateLimit
pub mod Dns
pub mod Engine
pub mod Payload
