-- ===== src/Discovery/Values.antt =====
-- The value of one attribute: read, notified and written.
use btle_js.Prelude.{
  ℕ, ◌+◌, ◌≤◌, ◌≡◌, refl, sym, done, List, [], ◌∷◌, ◌++◌, length, none, some, true, pos, arith,
}
use btle_js.Host.{HostLaws}
use btle_js.Wire.Encode.{handle_header, encode-header}
use btle_js.Wire.Memory.{load_bytes-append}
use btle_js.Connection.{buffer_size, uv_write, WriteData}
use btle_js.Att.State.{
  Att, ReadData, on_connection, delete_request, call_attribute, new_read_data, on_read_attribute,
}
use btle_js.Att.Request
use btle_js.Att.Read.{handle_read, handle_response, byte_at}
use btle_js.Att.Respond.{call_back, callback_current_request, handle_read_attribute}
use btle_js.Att.Writes.{send_handle_lem}
use btle_js.Parse.{load_byte}
use btle_js.Peripheral.State.{
  Peripheral, CallbackData, World, Event, seen, null, buffer, call, delete_data, on_att, free,
  alloc, fn_read_attribute,
}
use btle_js.Peripheral.Methods.{read_handle, handle_of, single_data, request, checked}
use btle_js.Peripheral.Replies.{on_read_notification}
use btle_js.Peripheral.Replies
use btle_js.Peripheral.Dispatch.{call_attribute_callback, after, att_events, att_event}
use btle_js.Peripheral.Connect.{read}
use btle_js.Discovery.{pdus}
use btle_js.Discovery.Steps.{IsOpen, read_lem}
use btle_js.Peripheral.Data.{handle_of-lt, alloc_live, free_live}

module _ {Value : Type 0} (w : World Value) (laws : HostLaws w.host) (p : Peripheral Value)
    (a : Att) (at : p.att ≡ some a) (is_open : IsOpen a.connection)
    (room : 3 ≤ buffer_size a.connection) (handle k : Value)
    (ok_handle : w.js.is_uint32 handle ≡ true) (ok_k : w.js.is_function k ≡ true) where
  abbrev slot : ReadData
  slot = record new_read_data {
    request = 10;
    expected_response = 11;
    data_ptr = p.next;
    handle = handle_of w handle;
    callback = some on_read_attribute;
    read_attr_cb = some fn_read_attribute;
  }

  abbrev asking : Att
  asking = record a { current_request = some slot }

  abbrev kept : CallbackData Value
  kept = single_data w (some k)

  asked :
      a.current_request ≡ none
      → (wd : WriteData) × (read_handle w p (handle ∷ k ∷ [])
          ≡ done (
            record (alloc p kept) { att = some asking },
            on_att (
                  on_connection
                    (uv_write a.connection.tcp (handle_header 10 (handle_of w handle)) wd))
                ∷ [],
          ))
  unfolding read_handle request checked after att_events att_event Request.read_attribute
  asked idle =
      let n = buffer_size a.connection in
      let (base, run) = send_handle_lem w.host asking 10 (handle_of w handle) none 0 none 0 (
        encode-header w.host laws 10 (handle_of w handle) n (w.host.new_bytes n)
          (handle_of-lt w handle) room (sym (laws.new_bytes_length n))) in
      (
        record { callback = none; data_ptr = 0; buffer = base },
        rw (ok_handle, ok_k, at, idle, run) refl,
      )

  abbrev quiet : Att
  quiet = record a { current_request = none }

  answered :
      (value slack : List ℕ)
      → handle_read w.host asking (some (11 ∷ (value ++ slack))) (length value + 1) none
        ≡ done (
          quiet,
          delete_request slot
              ∷ call_attribute fn_read_attribute 0 p.next
                  (some (value ++ slack))
                  (pos (length value))
                  none
              ∷ [],
        )
  unfolding handle_read byte_at load_byte handle_response callback_current_request call_back
      handle_read_attribute
  answered value slack = ground arith

  abbrev over : Peripheral Value
  over = free (record (alloc p kept) { att = some quiet }) p.next

  told :
      (value slack : List ℕ)
      → after w
          (record (alloc p kept) { att = some asking })
          (handle_read w.host asking (some (11 ∷ (value ++ slack))) (length value + 1) none)
        ≡ done (
          over,
          on_att (delete_request slot)
              ∷ call k (null ∷ buffer value ∷ [])
              ∷ delete_data p.next
              ∷ [],
        )
  unfolding after att_events att_event call_attribute_callback Replies.on_read_attribute
      on_read_notification
  told value slack =
      rw
        (answered value slack, alloc_live p kept, load_bytes-append value slack (length value) refl)
        refl

  over_att : a.current_request ≡ none → over.att ≡ some a
  unfolding free
  over_att idle i = some (record a { current_request = sym idle i })

  -- On a host that obeys the laws, over an open connection with a buffer of at least 3 bytes, for a
  -- client with no outstanding request: `readHandle` with an unsigned number and a function writes
  -- one Read Request for the handle; and when a Read Response with any value comes, whatever the
  -- buffer holds behind it, the function is called once, with null and the value; the client is
  -- what it was, and the callback data is deleted.
  pub read_value :
      (value slack : List ℕ)
      → a.current_request ≡ none
      → (p' p'' : Peripheral Value) × (sent got : List (Event Value)) × (read_handle w p
            (handle ∷ k ∷ [])
          ≡ done (p', sent))
        × (pdus sent ≡ handle_header 10 (handle_of w handle) ∷ [])
        × (read w p' (pos (length value + 1)) (some (11 ∷ (value ++ slack))) ≡ done (p'', got))
        × (seen got ≡ call k (null ∷ buffer value ∷ []) ∷ [])
        × (p''.att ≡ some a)
        × (p''.live p.next ≡ none)
  read_value value slack idle =
      let (wd, start) = asked idle in
      let q = record (alloc p kept) { att = some asking } in
      (
        q,
        over,
        _,
        _,
        start,
        refl,
        read_lem w q asking asking
            (record { buffer = 11 ∷ (value ++ slack); nread = length value + 1 }) refl is_open over
            _ (told value slack),
        refl,
        over_att idle,
        free_live _ p.next,
      )
