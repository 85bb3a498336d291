-- ===== src/Runtime.antt =====
-- src/num8lora_runtime.c: the sender and the receiver of the batch protocol, each a context that its
-- operations change. Pointers are non-NULL, except those to arrays of numbers.
mod Types
mod Sender
mod Receiver
pub mod Steps
pub mod Invariant
pub mod Retries
pub mod Accept
pub use Types.*
unfoldable pub use Sender.*
unfoldable pub use Receiver.*
