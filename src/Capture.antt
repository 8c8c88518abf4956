-- ===== src/Capture.antt =====
-- internal/capture/engine.go: the packet capture engine, from bytes of a TCP stream to messages.
pub mod Scan
pub mod Frame
pub mod Parse
pub mod Sni
pub mod Stream
pub mod Assembler
mod Settings
pub mod Writer
