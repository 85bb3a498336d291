-- ===== src/Tests/Numbers.antt =====
-- The update of the batch protocol: its numbers, its CRC and its frame.
use num8_lup.Base.{◌≤◌, ℕ, ◌≡◌, ◌↔◌, refl, arith, true, none, some, List, [], ◌∷◌, length}
use num8_lup.Codec.{crc16_ccitt_false}
use num8_lup.Op.{clear_common}
use num8_lup.Op.Shape.{header_of}
use num8_lup.Batch.{
  BeaconPayload, UpdateRequestPayload, AckPayload, NackPayload, encode_beacon,
  encode_update_request, encode_ack, encode_nack, array, missing, read_numbers,
  validate_update_numbers, compute_update_payload_crc16, update_bytes, encode_update_data,
  decode_update_data_header, msg_update_data,
}
use num8_lup.Batch.Words.{compute_update_payload_crc16_lem}
use num8_lup.Batch.Validity.{AreValid, validate_update_numbers_iff}
use num8_lup.Batch.Bounds.{length-encode}
use num8_lup.Batch.RoundTrip.{decode_update_data-encode_update_data}
use num8_lup.Tests.Updates.{update, removes, adds, update-IsUpdate, update_frame}

compute_update_payload_crc16_lem_example :
    compute_update_payload_crc16 update removes adds
    ≡ some (crc16_ccitt_false (update_bytes update (10 ∷ []) (20 ∷ 30 ∷ [])))
compute_update_payload_crc16_lem_example = compute_update_payload_crc16_lem update removes adds

validate_update_numbers_iff_example :
    (validate_update_numbers update removes adds ≡ none) ↔ AreValid update removes adds
validate_update_numbers_iff_example = validate_update_numbers_iff update removes adds

update_made : encode_update_data 64 7 9 2 update removes adds ≡ some update_frame
unfolding encode_update_data num8_lup.Batch.finalize_crc num8_lup.Batch.encode_common
    num8_lup.Codec.write_u16_le num8_lup.Codec.write_u32_le crc16_ccitt_false
update_made = refl

decode_update_data-encode_update_data_example :
    (remove_bytes : List ℕ) × (add_bytes : List ℕ) × (decode_update_data_header update_frame
        clear_common
      ≡ (true, header_of msg_update_data 7 9 2, update, some (remove_bytes, add_bytes)))
    × (read_numbers 1 remove_bytes ≡ 10 ∷ [])
    × (read_numbers 2 add_bytes ≡ 20 ∷ 30 ∷ [])
    × (length update_frame ≡ 38)
decode_update_data-encode_update_data_example =
    decode_update_data-encode_update_data 64 7 2 clear_common 9
      (omega arith, omega arith, omega arith) update removes adds update-IsUpdate update_made

abbrev a_beacon : BeaconPayload
a_beacon = record {
  current_update_id = 5;
  dataset_version_from = 1;
  dataset_version_to = 2;
  remove_count = 1;
  add_count = 2;
  update_payload_size = 28;
  update_payload_crc16 = 13733;
}

abbrev beacon_image : List ℕ
beacon_image =
    1 ∷ 1 ∷ 7 ∷ 0 ∷ 0 ∷ 0 ∷ 2 ∷ 0 ∷ 5 ∷ 0 ∷ 0 ∷ 0 ∷ 1 ∷ 0 ∷ 0 ∷ 0 ∷ 2 ∷ 0 ∷ 0 ∷ 0 ∷ 1 ∷ 2 ∷ 28 ∷ 0
    ∷ 165 ∷ 53 ∷ 66 ∷ 67 ∷ []

beacon_made : encode_beacon 64 7 2 a_beacon ≡ some beacon_image
unfolding encode_beacon num8_lup.Batch.finalize_crc num8_lup.Batch.encode_common
    num8_lup.Codec.write_u16_le num8_lup.Codec.write_u32_le crc16_ccitt_false
beacon_made = refl

abbrev a_request : UpdateRequestPayload
a_request = record { requested_update_id = 5; receiver_dataset_ver = 1 }

abbrev request_image : List ℕ
request_image = 1 ∷ 2 ∷ 7 ∷ 0 ∷ 9 ∷ 0 ∷ 2 ∷ 0 ∷ 5 ∷ 0 ∷ 0 ∷ 0 ∷ 1 ∷ 0 ∷ 0 ∷ 0 ∷ 172 ∷ 7 ∷ []

request_made : encode_update_request 64 7 9 2 a_request ≡ some request_image
unfolding encode_update_request num8_lup.Batch.finalize_crc num8_lup.Batch.encode_common
    num8_lup.Codec.write_u16_le num8_lup.Codec.write_u32_le crc16_ccitt_false
request_made = refl

abbrev an_ack : AckPayload
an_ack = record { ack_update_id = 5; receiver_dataset_ver = 2 }

abbrev ack_image : List ℕ
ack_image = 1 ∷ 4 ∷ 7 ∷ 0 ∷ 9 ∷ 0 ∷ 2 ∷ 0 ∷ 5 ∷ 0 ∷ 0 ∷ 0 ∷ 2 ∷ 0 ∷ 0 ∷ 0 ∷ 27 ∷ 74 ∷ []

ack_made : encode_ack 64 7 9 2 an_ack ≡ some ack_image
unfolding encode_ack num8_lup.Batch.finalize_crc num8_lup.Batch.encode_common
    num8_lup.Codec.write_u16_le num8_lup.Codec.write_u32_le crc16_ccitt_false
ack_made = refl

abbrev a_nack : NackPayload
a_nack = record { nack_update_id = 5; error_code = 7; detail = 0 }

abbrev nack_image : List ℕ
nack_image = 1 ∷ 5 ∷ 7 ∷ 0 ∷ 9 ∷ 0 ∷ 2 ∷ 0 ∷ 5 ∷ 0 ∷ 0 ∷ 0 ∷ 7 ∷ 0 ∷ 0 ∷ 0 ∷ 162 ∷ 88 ∷ []

nack_made : encode_nack 64 7 9 2 a_nack ≡ some nack_image
unfolding encode_nack num8_lup.Batch.finalize_crc num8_lup.Batch.encode_common
    num8_lup.Codec.write_u16_le num8_lup.Codec.write_u32_le crc16_ccitt_false
nack_made = refl

length-encode_example :
    ((length beacon_image ≡ 28) × (length beacon_image ≤ 64))
    × ((length request_image ≡ 18) × (length request_image ≤ 64))
    × ((length ack_image ≡ 18) × (length ack_image ≤ 64))
    × ((length nack_image ≡ 18) × (length nack_image ≤ 64))
    × ((length update_frame ≡ 38) × (length update_frame ≤ 64) × (length update_frame ≤ 2066))
length-encode_example =
    length-encode 7 9 2 (omega arith, omega arith, omega arith) a_beacon a_request update removes
      adds an_ack a_nack 64 64 64 64 64
      (omega arith, omega arith, omega arith, omega arith, omega arith, omega arith) update-IsUpdate
      beacon_made request_made update_made ack_made nack_made
