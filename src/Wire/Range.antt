-- ===== src/Wire/Range.antt =====
-- The PDUs of the second `Att::encode`: a range of handles, a UUID, a value.
use btle_js.Prelude.{
  ℕ, ◌+◌, ◌/◌, ◌%◌, ◌≤◌, ◌<◌, ◌≡◌, refl, ap, List, [], ◌∷◌, ◌++◌, Option, none, some, done, fault,
  ltb-false, length, drop, length-drop, take_prefix, take_all, append-nil, arith,
}
use btle_js.Host.{Host, HostLaws, Uuid, unspec, uuid16, uuid32, uuid128}
use btle_js.Wire.{att_put_u32, att_put_u128, copy_value, put_uuid, put_value, encode_range, sent}
use btle_js.Wire.Memory.{write_at_next, write_at_past, load_bytes-take}
use btle_js.Wire.Encode.{range_header, put_u16_next, copy_value_next}

-- A UUID whose members have their sizes.
abbrev pub IsUuid : Option Uuid → Type 0
IsUuid none = Unit {0}
IsUuid (some unspec) = ⊥
IsUuid (some (uuid16 v)) = v < 65536
IsUuid (some (uuid32 v)) = Unit {0}
IsUuid (some (uuid128 v)) = length v ≡ 16

-- A UUID in Bluetooth byte order.
abbrev pub uuid_bytes : Host → Option Uuid → List ℕ
uuid_bytes h none = []
uuid_bytes h (some unspec) = []
uuid_bytes h (some (uuid16 v)) = (v % 256) ∷ (v / 256) ∷ []
uuid_bytes h (some (uuid32 v)) = h.store32 (h.htobl v)
uuid_bytes h (some (uuid128 v)) = h.htob128 v

module _ (h : Host) (laws : HostLaws h) where
  put_uuid_next :
      (u : Option Uuid) (pre rest : List ℕ)
      → IsUuid u
      → 5 ≡ length pre
      → length (uuid_bytes h u) ≤ length rest
      → put_uuid h u (pre ++ rest)
        ≡ done (
          (pre ++ uuid_bytes h u) ++ drop (length (uuid_bytes h u)) rest,
          some (length (uuid_bytes h u)),
        )
  unfolding put_uuid
  put_uuid_next none pre rest hu e hr = rw (append-nil pre)
  put_uuid_next (some unspec) pre rest hu e hr = absurd hu
  put_uuid_next (some (uuid16 v)) pre rest hu e hr = rw (put_u16_next h laws v 5 pre rest hu e hr)
  put_uuid_next (some (uuid32 v)) pre rest hu e hr =
      unfold att_put_u32 in
      rw (write_at_next pre rest (h.store32 (h.htobl v)) 5 e hr, laws.store32_length (h.htobl v))
  put_uuid_next (some (uuid128 v)) pre rest hu e hr =
      unfold att_put_u128 in
      rw (write_at_next pre rest (h.htob128 v) 5 e hr, laws.htob128_length v hu)

  -- The header and the UUID are in place before the value is looked at.
  range_prefix :
      (opcode s t : ℕ) (u : Option Uuid) (buflen : ℕ) (buffer : List ℕ) (value : Option (List ℕ))
      (vlen : ℕ)
      → s < 65536
      → t < 65536
      → IsUuid u
      → 5 + length (uuid_bytes h u) ≤ buflen
      → buflen ≡ length buffer
      → encode_range h opcode s t u (some buffer) buflen value vlen
        ≡ put_value
            ((range_header opcode s t ++ uuid_bytes h u)
              ++ drop (length (uuid_bytes h u)) (drop 5 buffer))
            value
            vlen
            (5 + length (uuid_bytes h u))
  unfolding encode_range
  range_prefix opcode s t u buflen (a ∷ b ∷ c ∷ d ∷ f ∷ rest) value vlen hs ht hu hb e = rw (
    ltb-false buflen 5 (omega arith),
    write_at_next [] (a ∷ b ∷ c ∷ d ∷ f ∷ rest) (opcode ∷ []) 0 refl (omega arith),
    put_u16_next h laws s 1 (opcode ∷ []) (b ∷ c ∷ d ∷ f ∷ rest) hs refl (omega arith),
    put_u16_next h laws t 3 (opcode ∷ (s % 256) ∷ (s / 256) ∷ []) (d ∷ f ∷ rest) ht refl
        (omega arith),
    put_uuid_next u (range_header opcode s t) rest hu refl (omega arith),
  )
  range_prefix opcode s t u buflen buffer value vlen hs ht hu hb e = absurd (omega arith)

  -- On a host that obeys the laws, for handles of 16 bits and a UUID whose members have their
  -- sizes, or none, in a buffer with room for both: `encode` for a range, without a value, writes
  -- the opcode, both handles in little-endian order and the UUID in Bluetooth order.
  pub encode_range-uuid :
      (opcode s t : ℕ) (u : Option Uuid) (buflen : ℕ) (buffer : List ℕ)
      → s < 65536
      → t < 65536
      → IsUuid u
      → 5 + length (uuid_bytes h u) ≤ buflen
      → buflen ≡ length buffer
      → sent (encode_range h opcode s t u (some buffer) buflen none 0)
        ≡ done (range_header opcode s t ++ uuid_bytes h u)
  unfolding put_value
  encode_range-uuid opcode s t u buflen buffer hs ht hu hb e =
      rw (range_prefix opcode s t u buflen buffer none 0 hs ht hu hb e)
        (ap done (take_prefix _ (range_header opcode s t ++ uuid_bytes h u) _ (omega arith)))

  -- On a host that obeys the laws, for handles and a UUID of 16 bits and a value that fits the
  -- buffer behind them: `encode` for a range writes the opcode, the handles, the UUID and the
  -- value.
  pub encode_range-value :
      (opcode s t v buflen : ℕ) (buffer value : List ℕ)
      → s < 65536
      → t < 65536
      → v < 65536
      → 7 + length value ≤ buflen
      → buflen ≡ length buffer
      → sent (
          encode_range h opcode s t
            (some (uuid16 v))
            (some buffer)
            buflen
            (some value)
            (length value))
        ≡ done (range_header opcode s t ++ (v % 256) ∷ (v / 256) ∷ value)
  unfolding put_value
  encode_range-value opcode s t v buflen buffer value hs ht hv hb e =
      rw
        (
          range_prefix opcode s t (some (uuid16 v)) buflen buffer (some value) (length value) hs ht
              hv (omega arith) e,
          copy_value_next (range_header opcode s t ++ (v % 256) ∷ (v / 256) ∷ [])
              (drop 2 (drop 5 buffer)) value 7 (length value) refl (omega arith)
              (omega (arith, length-drop 2 (drop 5 buffer), length-drop 5 buffer)),
          take_all (length value) value (omega arith),
        )
        (ap done (
          take_prefix _ (range_header opcode s t ++ (v % 256) ∷ (v / 256) ∷ value) _ (omega arith)))

  -- On a host that obeys the laws, for handles and a UUID of 16 bits and a buffer of `buflen` bytes
  -- that holds both: a value that does not fit behind them is copied past the end of the buffer.
  pub encode_range_overflow :
      (opcode s t v buflen : ℕ) (buffer value : List ℕ)
      → s < 65536
      → t < 65536
      → v < 65536
      → 7 ≤ buflen
      → buflen < 7 + length value
      → buflen ≡ length buffer
      → encode_range h opcode s t (some (uuid16 v)) (some buffer) buflen (some value) (length value)
        ≡ fault
  unfolding put_value copy_value
  encode_range_overflow opcode s t v buflen buffer value hs ht hv hb over e = rw (
    range_prefix opcode s t (some (uuid16 v)) buflen buffer (some value) (length value) hs ht hv hb
        e,
    load_bytes-take value (length value) (omega arith),
    take_all (length value) value (omega arith),
    write_at_past (range_header opcode s t ++ (v % 256) ∷ (v / 256) ∷ drop 2 (drop 5 buffer)) value
        7 (omega (arith, length-drop 2 (drop 5 buffer), length-drop 5 buffer)),
  )
