-- ===== src/Batch.antt =====
-- include/num8lora.h and src/num8lora.c: the frames of the batch protocol, in which one update
-- carries a list of numbers to remove and a list of numbers to add.
-- Pointers are non-NULL, except those to arrays of numbers: such a pointer is an Option.
mod Types
mod Update
mod Encode
mod Decode
pub mod Words
pub mod Shape
pub mod Payload
pub mod Inverse
pub mod RoundTrip
pub mod Validity
pub mod Bounds
pub use Types.*
unfoldable pub use Update.*
unfoldable pub use Encode.*
unfoldable pub use Decode.*
