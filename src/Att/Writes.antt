-- ===== src/Att/Writes.antt =====
-- What the requests with one handle put on the wire.
use btle_js.Prelude.{
  ℕ, ◌-◌, ◌≤◌, ◌<◌, ◌≡◌, refl, sym, List, [], ◌∷◌, ◌++◌, Option, some, Outcome, done, take, length,
  ◌>>=◌,
}
use btle_js.Host.{Host, HostLaws}
use btle_js.Wire.{encode, sent}
use btle_js.Wire.Encode.{handle_header, encode-contents, sent_lem}
use btle_js.Connection.{buffer_size, get_buffer, write, uv_write}
use btle_js.Att.State.{Att, Event, on_connection}
use btle_js.Att.Request.{send_handle, write_command, write_request}
use btle_js.Att.Collect.{wire}

-- The client and the PDUs of a run.
abbrev pub sends : Outcome (Att × List Event) → Outcome (Att × List (List ℕ))
sends run = run >>= λ r. done (r.0, wire r.1)

-- One PDU, with the callback that its write is given.
pub send_handle_lem :
    (h : Host) (a : Att) (opcode handle : ℕ) (value : Option (List ℕ)) (vlen : ℕ)
    (callback : Option ℕ) (d : ℕ) {bytes : List ℕ}
    → let n = buffer_size a.connection in
      sent (encode h opcode handle (some (h.new_bytes n)) n value vlen) ≡ done bytes
      → (base : Option (List ℕ)) × (send_handle h a opcode handle value vlen callback d
          ≡ done (
            a,
            on_connection (
                  uv_write a.connection.tcp bytes
                    (record { callback = callback; data_ptr = d; buffer = base }))
                ∷ [],
          ))
unfolding send_handle get_buffer write
send_handle_lem h a opcode handle value vlen callback d e =
    let n = buffer_size a.connection in
    let (base, len, filled, pdu) =
      sent_lem (encode h opcode handle (some (h.new_bytes n)) n value vlen) e in
    (base, rw (filled, pdu) refl)

module _ (h : Host) (laws : HostLaws h) (a : Att) (handle : ℕ) where
  abbrev room : ℕ
  room = buffer_size a.connection - 3

  send_value :
      (opcode : ℕ) (value : List ℕ) (callback : Option ℕ) (d : ℕ)
      → handle < 65536
      → 3 ≤ buffer_size a.connection
      → sends (send_handle h a opcode handle (some value) (length value) callback d)
        ≡ done (a, (handle_header opcode handle ++ take room value) ∷ [])
  unfolding send_handle get_buffer write
  send_value opcode value callback d hh fits =
      let n = buffer_size a.connection in
      let (base, len, filled, pdu) =
        sent_lem (encode h opcode handle (some (h.new_bytes n)) n (some value) (length value)) (
          encode-contents h laws opcode handle n (h.new_bytes n) value hh fits
            (sym (laws.new_bytes_length n))) in
      rw (filled, pdu)

  -- On a host that obeys the laws, for a handle of 16 bits and a buffer of at least three bytes:
  -- both kinds of write send the header and as much of the value as one PDU holds, drop the rest,
  -- and register no request.
  pub writes_wire :
      (value : List ℕ) (callback : Option ℕ) (d : ℕ)
      → handle < 65536
      → 3 ≤ buffer_size a.connection
      → (sends (write_command h a handle (some value) (length value) callback d)
          ≡ done (a, (handle_header 0x52 handle ++ take room value) ∷ []))
        × (sends (write_request h a handle (some value) (length value) callback d)
            ≡ done (a, (handle_header 0x12 handle ++ take room value) ∷ []))
  unfolding write_command write_request
  writes_wire value callback d hh fits =
      (send_value 0x52 value callback d hh fits, send_value 0x12 value callback d hh fits)
