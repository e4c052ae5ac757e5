-- ===== src/Capture.antt =====
-- src/capture.rs: the header parser that runs on every captured frame. An index or a slice out of
-- range panics, `?` on an `Option` returns `none`; shifts are divisions by a power of two.
pub mod Parse
pub mod Safe
pub mod Loop
mod Tests
