-- ===== src/Lib.antt =====
-- num8lora: sets of numbers kept up to date over a lossy radio link, by two protocols. In the split
-- protocol numbered operations (add or remove a value) travel from a sender to its receivers, one
-- operation per frame, acknowledged one by one. In the batch protocol one update carries the numbers
-- to remove and the numbers to add, and leads from one version of the data set to the next.
--
-- Parts, with paths from the repository's root:
--   Codec     src/num8lora_codec.c: the CRC-16, little-endian words, checked arithmetic, zero bytes.
--   Op        include/num8lora_op.h, src/num8lora_op.c: the frames of the split protocol. Types holds
--             the structs, Encode and Decode the num8lora_op_encode_* and num8lora_op_decode_*
--             functions.
--   Sender    include/num8lora_sender.h, src/num8lora_sender.c. Types holds the structs, Log the
--             ring of operations (find_op, sender_active_floor, sender_reclaim_history, enqueue_*),
--             Registry the table of receivers and num8lora_sender_init, Transmit build_beacon,
--             emit_data and poll_tx, Receive handle_request and handle_rx.
--   Receiver  include/num8lora_receiver.h, src/num8lora_receiver.c: Defs holds the struct and
--             num8lora_receiver_init, handle_beacon and handle_data.
--   Session   the sender and the receiver together, joined by the bytes that they exchange.
--   Batch     include/num8lora.h, src/num8lora.c: the frames of the batch protocol. Types holds the
--             structs, Update the numbers (num8lora_validate_update_numbers,
--             num8lora_decode_update_numbers, num8lora_compute_update_payload_crc16), Encode and
--             Decode the num8lora_encode_* and num8lora_decode_* functions and
--             num8lora_classify_frame.
--   Runtime   src/num8lora_runtime.c: the two contexts. Sender holds the num8lora_sender_* functions,
--             Receiver the num8lora_receiver_* functions, Steps the sender's calls as events.
--   Bridge    src/num8lora_num8_bridge.c and num8lora_receiver_apply_num8 of src/num8lora_receiver.c:
--             an update, or an operation, on a NUM8 engine.
--   Metadata  include/num8lora_metadata.h, src/num8lora_metadata.c: the record of the last operation.
--   Files     src/num8lora_meta.c: that record in a file, saved by way of a temporary file.
--   Exchange  the batch sender, the batch receiver and an engine together, joined by the four frames.
--   Base      the names that all share, Tests the concrete runs.
--
-- How the code is translated. A struct is a record, and a function that changes it returns the new
-- one. A buffer with its length is the list of its bytes, and `&p[k]` is `drop k p`. A function that
-- writes a frame and returns 0 or 1 returns an Option of the bytes, `none` standing for the return
-- value 0 with `*out_len` at 0; a decoder returns its status and what the two output structs hold.
-- A pointer into the table of receivers is an index. Arithmetic on 8, 16, 32 and 64 bits wraps as in
-- C, by the functions of Base.Words. Flags of type uint8_t are Booleans. Pointers to structs and
-- buffers are non-NULL (the code returns 0 at once for NULL); a NULL storage pointer of the sender is
-- kept as a flag, a NULL callback as `none`, and a NULL array of numbers as `none`. An output array
-- of numbers is a list whose length is the capacity given with it. The callback is a parameter: a
-- function on the user's state. The NUM8 engine is a parameter too, a record of its three calls, and
-- `Bridge.Engine.IsLawful` says how the calls change the set it holds. So are the files of the C
-- library, with `Files.Stdio.IsLawful` for what their calls do to the contents; a path is the list of
-- its characters, and different paths are different files. Every call on a file may fail.
-- `SIZE_MAX`, the element sizes and what is left of a partly zeroed element are parameters of
-- sender_init, which takes the arrays with what they hold and clears as many bytes as the code does.
--
-- Loops run over lists or over a counter that the code's loop has too: the polling loop takes
-- `receiver_capacity` rounds, so that no fuel is chosen. The invariant `Sender.Inv.Inv` holds the
-- log in its ring (numbers without gaps from the oldest to the latest one), capacities up to 2^31,
-- an operation number that leaves room below 2^32, and for each slot that waits: it is active, and
-- the operation in flight is the next one of its receiver and still in the log. The invariant of the
-- batch sender, `Runtime.Steps.IsInv`, holds the retries within their limit and, unless the sender is
-- idle, an update that may go on air with the CRC of its payload.
--
-- Not modelled: the branches for Windows of src/num8lora_meta.c, and the program in examples/. Where
-- num8lora_codec_zero_bytes clears one struct, the model has the zeroed record.
pub mod Base
pub mod Codec
pub mod Op
pub mod Sender
pub mod Receiver
pub mod Session
pub mod Batch
pub mod Runtime
pub mod Bridge
pub mod Metadata
pub mod Files
pub mod Exchange
pub mod Tests
