-- ===== src/Session.antt =====
-- The sender and the receiver together: one operation from the log of src/num8lora_sender.c to
-- the callback of src/num8lora_receiver.c and its acknowledgement back.
pub mod Offers
pub mod Delivery
