-- ===== src/Exchange.antt =====
-- The exchange of src/num8lora_runtime.c: BEACON, UPDATE_REQUEST, UPDATE_DATA, and ACK.
pub mod Frames
pub mod Offer
pub mod Accept
pub mod Apply
pub mod Session
