-- ===== src/Sender.antt =====
-- include/num8lora_sender.h and src/num8lora_sender.c: the sender of the split protocol.
-- Pointers to structs are non-NULL, and the two storage arrays are lists of `op_capacity` and
-- `receiver_capacity` elements; a pointer into the receivers is an index.
mod Types
mod Log
mod Registry
mod Transmit
mod Receive
pub mod Ring
pub mod LogLaws
pub mod Reclaim
pub mod Inv
pub mod RegistryInv
pub mod Enqueue
pub mod Full
pub mod Grown
pub mod EnqueueLists
pub mod EnqueueAll
pub mod TransmitInv
pub mod ReceiveInv
pub mod Offer
pub mod Polling
pub mod Unique
pub use Types.*
unfoldable pub use Log.*
unfoldable pub use Registry.*
unfoldable pub use Transmit.*
unfoldable pub use Receive.*
