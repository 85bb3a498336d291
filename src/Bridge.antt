-- ===== src/Bridge.antt =====
-- src/num8lora_num8_bridge.c: a received batch update is applied to a NUM8 engine, which is a library
-- of its own and so a parameter.
pub mod Engine
mod Defs
pub mod Sets
pub mod Receive
unfoldable pub use Defs.*
