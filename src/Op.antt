-- ===== src/Op.antt =====
-- include/num8lora_op.h and src/num8lora_op.c: the frames of the single-operation protocol.
-- Pointers are non-NULL; what an encoder writes to `out_buf[0 .. *out_len)` is the list it returns.
mod Types
mod Encode
mod Decode
pub mod Shape
pub mod Payload
pub mod RoundTrip
pub mod Reject
pub use Types.*
unfoldable pub use Encode.*
unfoldable pub use Decode.*
