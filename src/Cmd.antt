-- ===== src/Cmd.antt =====
-- The programs of cmd/: `Consumer` is cmd/consumer, `Producer` is cmd/producer, `Api` is cmd/api,
-- `Node` is cmd/broker, and `Flags` the lists in the flags of all of them.
pub mod Consumer
pub mod Producer
pub mod Flags
pub mod Api
pub mod Node
mod Tests
