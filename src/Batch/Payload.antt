-- ===== src/Batch/Payload.antt =====
-- The payloads of the batch frames, read at their offsets.
use num8_lup.Base.{
  ap, ℕ, ◌+◌, ◌*◌, ◌^◌, ◌<◌, ◌≡◌, refl, sym, arith, List, ◌∷◌, ◌++◌, length, get_or, drop,
  drop_left, length-append,
}
use num8_lup.Codec.{read_u16_le, read_u32_le, write_u16_le, write_u32_le, crc16_ccitt_false}
use num8_lup.Codec.Words.{write_u16_bytes, write_u32_bytes, read_u16_le-write_u16_le}
use mathlib.Core.List.{append_assoc, []}
use num8_lup.Op.Shape.{frame, length-frame, drop-frame, drop-drop, get_or-drop}
use num8_lup.Op.Payload.{read_u32_at, read_u16_at}
use num8_lup.Batch.Types.{BeaconPayload, UpdateHeader, NackPayload}
use num8_lup.Batch.Encode.{write_numbers, update_bytes}
use num8_lup.Batch.Words.{IsWord, length-write_numbers}

abbrev pub beacon_bytes : BeaconPayload → List ℕ
beacon_bytes p =
    write_u32_le p.current_update_id
    ++ (write_u32_le p.dataset_version_from
        ++ (write_u32_le p.dataset_version_to
            ++ (p.remove_count
                ∷ p.add_count
                ∷ (write_u16_le p.update_payload_size ++ write_u16_le p.update_payload_crc16))))

abbrev pub nack_bytes : NackPayload → List ℕ
nack_bytes p = write_u32_le p.nack_update_id ++ (write_u16_le p.error_code ++ write_u16_le p.detail)

-- Three words and two bytes start a BEACON's payload and an update's.
abbrev front : ℕ → ℕ → ℕ → ℕ → ℕ → List ℕ → List ℕ
front x y z a b rest = write_u32_le x ++ (write_u32_le y ++ (write_u32_le z ++ (a ∷ b ∷ rest)))

front_words :
    (x y z a b : ℕ) (rest end : List ℕ)
    → let l = front x y z a b rest ++ end in
      (drop 0 l ≡ write_u32_le x ++ drop 4 l)
      × (drop 4 l ≡ write_u32_le y ++ drop 8 l)
      × (drop 8 l ≡ write_u32_le z ++ drop 12 l)
      × (drop 12 l ≡ a ∷ b ∷ (rest ++ end))
      × (drop 14 l ≡ rest ++ end)
      × (length (front x y z a b rest) ≡ 14 + length rest)
front_words x y z a b rest end =
    rw (write_u32_bytes x, write_u32_bytes y, write_u32_bytes z)
      (refl, refl, refl, refl, refl, omega arith)

nack_words :
    (p : NackPayload) (end : List ℕ)
    → let l = nack_bytes p ++ end in
      (drop 0 l ≡ write_u32_le p.nack_update_id ++ drop 4 l)
      × (drop 4 l ≡ write_u16_le p.error_code ++ drop 6 l)
      × (drop 6 l ≡ write_u16_le p.detail ++ end)
      × (length (nack_bytes p) ≡ 8)
nack_words p end =
    rw (write_u32_bytes p.nack_update_id, write_u16_bytes p.error_code, write_u16_bytes p.detail)
      (refl, refl, refl, refl)

module _ (t s r q : ℕ) where
  front_read :
      (x y z a b : ℕ) (rest : List ℕ)
      → IsWord x
      → IsWord y
      → IsWord z
      → let payload = front x y z a b rest in
        let f = frame t s r q payload in
        (length f ≡ 24 + length rest)
        × (read_u32_le (drop 8 f) ≡ x)
        × (read_u32_le (drop 12 f) ≡ y)
        × (read_u32_le (drop 16 f) ≡ z)
        × (get_or f 20 0 ≡ a)
        × (get_or f 21 0 ≡ b)
        × (drop 22 f
            ≡ rest ++ write_u16_le (crc16_ccitt_false (num8_lup.Op.header t s r q ++ payload)))
  front_read x y z a b rest hx hy hz =
      let payload = front x y z a b rest in
      let f = frame t s r q payload in
      let w = front_words x y z a b rest _ in
      (
        omega (arith, length-frame t s r q payload, w.5),
        read_u32_at t s r q payload 8 0 x _ (omega arith) w.0 hx,
        read_u32_at t s r q payload 12 4 y _ (omega arith) w.1 hy,
        read_u32_at t s r q payload 16 8 z _ (omega arith) w.2 hz,
        rw (
          get_or-drop 20 20 0 f (omega arith),
          drop-drop 20 8 12 f (omega arith),
          drop-frame t s r q payload,
          w.3,
        ),
        rw (
          get_or-drop 21 20 1 f (omega arith),
          drop-drop 20 8 12 f (omega arith),
          drop-frame t s r q payload,
          w.3,
        ),
        rw (drop-drop 22 8 14 f (omega arith), drop-frame t s r q payload) w.4,
      )

  pub beacon_read :
      (p : BeaconPayload)
      → IsWord p.current_update_id
      → IsWord p.dataset_version_from
      → IsWord p.dataset_version_to
      → p.update_payload_size < 2 ^ 16
      → p.update_payload_crc16 < 2 ^ 16
      → let f = frame t s r q (beacon_bytes p) in
        (length f ≡ 28)
        × (read_u32_le (drop 8 f) ≡ p.current_update_id)
        × (read_u32_le (drop 12 f) ≡ p.dataset_version_from)
        × (read_u32_le (drop 16 f) ≡ p.dataset_version_to)
        × (get_or f 20 0 ≡ p.remove_count)
        × (get_or f 21 0 ≡ p.add_count)
        × (read_u16_le (drop 22 f) ≡ p.update_payload_size)
        × (read_u16_le (drop 24 f) ≡ p.update_payload_crc16)
  beacon_read p hx hy hz hs hc =
      let f = frame t s r q (beacon_bytes p) in
      let rest = write_u16_le p.update_payload_size ++ write_u16_le p.update_payload_crc16 in
      let w =
        front_read p.current_update_id p.dataset_version_from p.dataset_version_to p.remove_count
          p.add_count rest hx hy hz in
      let size : length rest ≡ 4 =
        rw (write_u16_bytes p.update_payload_size, write_u16_bytes p.update_payload_crc16) in
      (
        omega (arith, w.0, size),
        w.1,
        w.2,
        w.3,
        w.4,
        w.5,
        rw
            (
              w.6,
              append_assoc (write_u16_le p.update_payload_size)
                  (write_u16_le p.update_payload_crc16) _,
            )
            (read_u16_le-write_u16_le p.update_payload_size _ hs),
        rw
            (
              drop-drop 24 22 2 f (omega arith),
              w.6,
              append_assoc (write_u16_le p.update_payload_size)
                  (write_u16_le p.update_payload_crc16) _,
              drop_left (write_u16_le p.update_payload_size) _ 2
                  (rw (write_u16_bytes p.update_payload_size)),
            )
            (read_u16_le-write_u16_le p.update_payload_crc16 _ hc),
      )

  -- The two arrays stand behind the update header, in front of the CRC.
  pub update_read :
      (hdr : UpdateHeader) (xs ys : List ℕ)
      → IsWord hdr.update_id
      → IsWord hdr.dataset_version_from
      → IsWord hdr.dataset_version_to
      → let f = frame t s r q (update_bytes hdr xs ys) in
        (length f ≡ 26 + 4 * length xs + 4 * length ys)
        × (read_u32_le (drop 8 f) ≡ hdr.update_id)
        × (read_u32_le (drop 12 f) ≡ hdr.dataset_version_from)
        × (read_u32_le (drop 16 f) ≡ hdr.dataset_version_to)
        × (get_or f 20 0 ≡ hdr.remove_count)
        × (get_or f 21 0 ≡ hdr.add_count)
        × (read_u16_le (drop 22 f) ≡ 0)
        × (rest : List ℕ) × (drop 24 f ≡ write_numbers xs ++ (write_numbers ys ++ rest))
        × (drop (24 + 4 * length xs) f ≡ write_numbers ys ++ rest)
  unfolding update_bytes
  update_read hdr xs ys hx hy hz =
      let f = frame t s r q (update_bytes hdr xs ys) in
      let numbers = write_numbers xs ++ write_numbers ys in
      let crc =
        write_u16_le (crc16_ccitt_false (num8_lup.Op.header t s r q ++ update_bytes hdr xs ys)) in
      let w =
        front_read hdr.update_id hdr.dataset_version_from hdr.dataset_version_to hdr.remove_count
          hdr.add_count (write_u16_le 0 ++ numbers) hx hy hz in
      let two : length (write_u16_le 0) ≡ 2 = rw (write_u16_bytes 0) in
      let at : drop 24 f ≡ write_numbers xs ++ (write_numbers ys ++ crc) =
        rw
          (
            drop-drop 24 22 2 f (omega arith),
            w.6,
            append_assoc (write_u16_le 0) numbers crc,
            drop_left (write_u16_le 0) (numbers ++ crc) 2 (sym two),
          )
          (append_assoc (write_numbers xs) (write_numbers ys) crc) in
      (
        omega (
          arith,
          w.0,
          two,
          length-append (write_u16_le 0) numbers,
          length-append (write_numbers xs) (write_numbers ys),
          length-write_numbers xs,
          length-write_numbers ys,
        ),
        w.1,
        w.2,
        w.3,
        w.4,
        w.5,
        rw (w.6, append_assoc (write_u16_le 0) numbers crc)
            (read_u16_le-write_u16_le 0 (numbers ++ crc) (omega arith)),
        crc,
        at,
        rw (drop-drop (24 + 4 * length xs) 24 (4 * length xs) f refl, at)
            (drop_left (write_numbers xs) _ (4 * length xs)
              (omega (arith, length-write_numbers xs))),
      )

  pub nack_read :
      (p : NackPayload)
      → IsWord p.nack_update_id
      → p.error_code < 2 ^ 16
      → p.detail < 2 ^ 16
      → let f = frame t s r q (nack_bytes p) in
        (length f ≡ 18)
        × (read_u32_le (drop 8 f) ≡ p.nack_update_id)
        × (read_u16_le (drop 12 f) ≡ p.error_code)
        × (read_u16_le (drop 14 f) ≡ p.detail)
  nack_read p hx he hd =
      let w = nack_words p _ in
      let body = nack_bytes p in
      (
        omega (arith, length-frame t s r q body, w.3),
        read_u32_at t s r q body 8 0 p.nack_update_id _ (omega arith) w.0 hx,
        read_u16_at t s r q body 12 4 p.error_code _ (omega arith) w.1 he,
        read_u16_at t s r q body 14 6 p.detail _ (omega arith) w.2 hd,
      )

pub length-beacon_bytes : (p : BeaconPayload) → length (beacon_bytes p) ≡ 18
length-beacon_bytes p = omega (
  arith,
  (front_words p.current_update_id p.dataset_version_from p.dataset_version_to p.remove_count
      p.add_count (write_u16_le p.update_payload_size ++ write_u16_le p.update_payload_crc16) []).5,
  ap length (write_u16_bytes p.update_payload_size),
  ap length (write_u16_bytes p.update_payload_crc16),
  length-append (write_u16_le p.update_payload_size) (write_u16_le p.update_payload_crc16),
)

pub length-nack_bytes : (p : NackPayload) → length (nack_bytes p) ≡ 8
length-nack_bytes p = (nack_words p []).3
