-- ===== src/Receiver.antt =====
-- include/num8lora_receiver.h and src/num8lora_receiver.c: the receiver of the split protocol.
-- Pointers to structs and buffers are non-NULL; `apply_fn` may be NULL, which is `none`.
mod Defs
pub mod Order
pub mod History
pub mod Answers
pub mod Beacon
unfoldable pub use Defs.*
