-- ===== src/Capture/Safe.antt =====
-- On every frame the parser returns, and its result is in range.
mod Fields
mod Headers
pub use Fields.{IsByte, Within, HasPorts, FieldsFit}
pub use Headers.{IsMac, FitsPacket, Fits, parse_transport-Fits}
