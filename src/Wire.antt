-- ===== src/Wire.antt =====
-- src/btio.h: the accessors of attribute PDUs, and the two `Att::encode` of src/att.cc. Memory is
-- a list of bytes; a pointer into it is the list from there on, or `none` for NULL.
pub mod Memory
pub mod Encode
pub mod Range
pub mod Load
pub mod Ends
use btle_js.Prelude.{
  ℕ, ◌+◌, ◌-◌, List, [], ◌∷◌, Option, none, some, Outcome, done, fault, ◌>>=◌, if◌then◌else◌, ltb,
  take,
}
use btle_js.Host.{Host, Uuid, unspec, uuid16, uuid32, uuid128}
use Memory.{load_bytes, write_at}

-- `att_get_u16`, with the pointer advanced past the value.
unfoldable pub att_get_u16 : Host → List ℕ → Outcome (ℕ × List ℕ)
att_get_u16 h ptr = do
  (bytes, next) ← load_bytes (some ptr) 2
  done (h.btohs (h.load16 bytes), next)

pub att_get_u128 : Host → List ℕ → Outcome (List ℕ × List ℕ)
att_get_u128 h ptr = do (bytes, next) ← load_bytes (some ptr) 16; done (h.btoh128 bytes, next)

unfoldable pub att_get_uuid16 : Host → List ℕ → Outcome (Uuid × List ℕ)
att_get_uuid16 h ptr = do (value, next) ← att_get_u16 h ptr; done (h.uuid16_create value, next)

pub att_get_uuid128 : Host → List ℕ → Outcome (Uuid × List ℕ)
att_get_uuid128 h ptr = do (value, next) ← att_get_u128 h ptr; done (h.uuid128_create value, next)

-- `att_put_u16(src, &buffer[off])`, and so for the others.
unfoldable pub att_put_u16 : Host → ℕ → List ℕ → ℕ → Outcome (List ℕ)
att_put_u16 h src buffer off = write_at buffer off (h.store16 (h.htobs src))

pub att_put_u32 : Host → ℕ → List ℕ → ℕ → Outcome (List ℕ)
att_put_u32 h src buffer off = write_at buffer off (h.store32 (h.htobl src))

pub att_put_u128 : Host → List ℕ → List ℕ → ℕ → Outcome (List ℕ)
att_put_u128 h src buffer off = write_at buffer off (h.htob128 src)

-- `memcpy(&buffer[off], value, vlen)`
pub copy_value : List ℕ → ℕ → Option (List ℕ) → ℕ → Outcome (List ℕ)
copy_value buffer off value vlen = do (bytes, _) ← load_bytes value vlen; write_at buffer off bytes

-- What fits behind a header of `ret` bytes.
truncate_to : ℕ → ℕ → ℕ → ℕ
truncate_to buflen ret vlen =
    if ltb 0 vlen then (if ltb (buflen - ret) vlen then buflen - ret else vlen) else vlen

write_value : List ℕ → Option (List ℕ) → ℕ → Outcome (List ℕ)
write_value buffer value vlen = if ltb 0 vlen then copy_value buffer 3 value vlen else done buffer

-- `Att::encode(opcode, handle, buffer, buflen, value, vlen)`: the buffer and the length of the PDU.
pub encode :
    Host → ℕ → ℕ → Option (List ℕ) → ℕ → Option (List ℕ) → ℕ → Outcome (Option (List ℕ) × ℕ)
unfolding truncate_to
encode h opcode handle none buflen value vlen = done (none, 0)
encode h opcode handle (some buffer) buflen value vlen =
    if ltb buflen 3 then done (some buffer, 0) else do
      let fits = truncate_to buflen 3 vlen
      buffer ← write_at buffer 0 (opcode ∷ [])
      buffer ← att_put_u16 h handle buffer 1
      buffer ← write_value buffer value fits
      done (some buffer, 3 + fits)

-- The UUID at offset 5 and its size; `none` is the early `return 0` of an unknown type.
put_uuid : Host → Option Uuid → List ℕ → Outcome (List ℕ × Option ℕ)
put_uuid h none buffer = done (buffer, some 0)
put_uuid h (some (uuid16 v)) buffer = do buffer ← att_put_u16 h v buffer 5; done (buffer, some 2)
put_uuid h (some (uuid32 v)) buffer = do buffer ← att_put_u32 h v buffer 5; done (buffer, some 4)
put_uuid h (some (uuid128 v)) buffer = do buffer ← att_put_u128 h v buffer 5; done (buffer, some 16)
put_uuid h (some unspec) buffer = done (buffer, none)

put_value : List ℕ → Option (List ℕ) → ℕ → ℕ → Outcome (Option (List ℕ) × ℕ)
put_value buffer none vlen ret = done (some buffer, ret)
put_value buffer (some value) vlen ret = do
  buffer ← copy_value buffer 7 (some value) vlen
  done (some buffer, ret + vlen)

finish_range : List ℕ → Option ℕ → Option (List ℕ) → ℕ → Outcome (Option (List ℕ) × ℕ)
finish_range buffer none value vlen = done (some buffer, 0)
finish_range buffer (some width) value vlen = put_value buffer value vlen (5 + width)

-- `Att::encode(opcode, startHandle, endHandle, uuid, buffer, buflen, value, vlen)`
unfoldable pub encode_range :
    Host
    → ℕ
    → ℕ
    → ℕ
    → Option Uuid
    → Option (List ℕ)
    → ℕ
    → Option (List ℕ)
    → ℕ
    → Outcome (Option (List ℕ) × ℕ)
unfolding put_uuid finish_range put_value
encode_range h opcode start_handle end_handle uuid none buflen value vlen = done (none, 0)
encode_range h opcode start_handle end_handle uuid (some buffer) buflen value vlen =
    if ltb buflen 5 then done (some buffer, 0) else do
      buffer ← write_at buffer 0 (opcode ∷ [])
      buffer ← att_put_u16 h start_handle buffer 1
      buffer ← att_put_u16 h end_handle buffer 3
      (buffer, width) ← put_uuid h uuid buffer
      finish_range buffer width value vlen

-- What is sent of a filled buffer: `buf.len = len`.
abbrev pub contents : Option (List ℕ) → ℕ → List ℕ
contents none len = []
contents (some buffer) len = take len buffer

abbrev pub sent : Outcome (Option (List ℕ) × ℕ) → Outcome (List ℕ)
sent m = m >>= λ r. done (contents r.0 r.1)
