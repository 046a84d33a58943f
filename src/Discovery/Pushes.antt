-- ===== src/Discovery/Pushes.antt =====
-- Notifications that reach a listener, and writes that are reported.
use btle_js.Prelude.{
  ℕ, ◌+◌, ◌-◌, ◌≤◌, ◌≡◌, refl, sym, done, List, [], ◌∷◌, ◌++◌, length, take, Option, none, some,
  true, pos, ℤ, if◌then◌else◌, is_neg, Bool-cases, inl, inr,
}
use btle_js.Host.{HostLaws}
use btle_js.Wire.Encode.{handle_header, encode-contents}
use btle_js.Wire.Memory.{load_bytes-append}
use btle_js.Connection.{buffer_size, uv_write, delete_buffer, WriteData}
use btle_js.Connection
use btle_js.Att.State.{Att, on_connection, call_attribute}
use btle_js.Att.Request.{find, listen_for_notifications}
use btle_js.Att.Request
use btle_js.Att.Read.{handle_read}
use btle_js.Att.Writes.{send_handle_lem}
use btle_js.Att.Notify.{handle_read-listen}
use btle_js.Peripheral.State.{
  Peripheral, CallbackData, World, Event, Reply, seen, null, buffer, errno_exception, call,
  delete_data, on_att, on_link, free, alloc, fn_read_notification, fn_write,
}
use btle_js.Peripheral.Methods.{
  add_notification_listener, write_command, handle_of, single_data, request, checked,
}
use btle_js.Peripheral.Data.{handle_of-lt, alloc_live, free_live}
use btle_js.Peripheral.Replies.{on_read_notification}
use btle_js.Peripheral.Replies
use btle_js.Peripheral.Dispatch.{
  call_attribute_callback, after, att_events, att_event, link_events, link_event,
}
use btle_js.Peripheral.Connect.{read, written}
use btle_js.Discovery.Steps.{IsOpen, read_lem}

module _ {Value : Type 0} (w : World Value) (p : Peripheral Value) (a : Att) (at : p.att ≡ some a)
    (handle k : Value) (ok_handle : w.js.is_uint32 handle ≡ true)
    (ok_k : w.js.is_function k ≡ true) where
  abbrev kept : CallbackData Value
  kept = single_data w (some k)

  abbrev listening : Att
  listening = listen_for_notifications a (handle_of w handle) fn_read_notification p.next

  abbrev heard : Peripheral Value
  heard = record (alloc p kept) { att = some listening }

  listens : add_notification_listener w p (handle ∷ k ∷ []) ≡ done (heard, [])
  unfolding add_notification_listener request checked after att_events att_event
  listens = rw (ok_handle, ok_k, at) refl

  told :
      (value slack : List ℕ)
      → after w heard (
          done (
            listening,
            call_attribute fn_read_notification 0 p.next
                  (some (value ++ slack))
                  (pos (length value))
                  none
                ∷ [],
          ))
        ≡ done (heard, call k (null ∷ buffer value ∷ []) ∷ [])
  unfolding after att_events att_event call_attribute_callback on_read_notification
  told value slack = rw (alloc_live p kept, load_bytes-append value slack (length value) refl) refl

  listening-IsOpen : IsOpen a.connection → IsOpen listening.connection
  unfolding listen_for_notifications
  listening-IsOpen is_open = is_open

  delivered :
      (x y : ℕ) (value slack : List ℕ)
      → w.host.load16 (x ∷ y ∷ []) ≡ handle_of w handle
      → find (handle_of w handle) a.notification_map ≡ none
      → handle_read w.host listening (some (27 ∷ x ∷ y ∷ (value ++ slack))) (length value + 3) none
        ≡ done (
          listening,
          call_attribute fn_read_notification 0 p.next
                (some (value ++ slack))
                (pos (length value))
                none
              ∷ [],
        )
  delivered x y value slack same new =
      rw (← same)
        (handle_read-listen w.host a fn_read_notification p.next x y value slack (rw same new))

  -- Over an open connection, for a handle that has no listener: `addNotificationListener` with an
  -- unsigned number and a function sends nothing; and when a notification for the handle comes,
  -- whatever the value and what the buffer holds behind it, the function is called once, with null
  -- and the value, and the object is as it was before the read, so that the next notification is
  -- told as well.
  pub notification_told :
      (x y : ℕ) (value slack : List ℕ)
      → IsOpen a.connection
      → w.host.load16 (x ∷ y ∷ []) ≡ handle_of w handle
      → find (handle_of w handle) a.notification_map ≡ none
      → let packet = 27 ∷ x ∷ y ∷ (value ++ slack) in
        (p' : Peripheral Value) × (add_notification_listener w p (handle ∷ k ∷ []) ≡ done (p', []))
        × (read w p' (pos (length value + 3)) (some packet)
            ≡ done (
              p',
              call k (null ∷ buffer value ∷ []) ∷ on_link (delete_buffer (some packet)) ∷ [],
            ))
  notification_told x y value slack is_open same new = (
    heard,
    listens,
    read_lem w heard listening listening
        (record { buffer = 27 ∷ x ∷ y ∷ (value ++ slack); nread = length value + 3 }) refl
        (listening-IsOpen is_open) heard (call k (null ∷ buffer value ∷ []) ∷ [])
        (rw (delivered x y value slack same new) (told value slack)),
  )

  -- What a write's callback is told.
  abbrev pub outcome : ℤ → Reply
  outcome status = if is_neg status then errno_exception "write" w.message else null

  abbrev writing : Peripheral Value
  writing = record (alloc p kept) { att = some a }

  abbrev flying : Option (List ℕ) → WriteData
  flying base = record { callback = some fn_write; data_ptr = p.next; buffer = base }

  abbrev noticed : Option (List ℕ) → ℤ → List (Event Value)
  noticed base status =
      call k (outcome status ∷ []) ∷ delete_data p.next ∷ on_link (delete_buffer base) ∷ []

  reported :
      (base : Option (List ℕ)) (status : ℤ)
      → written w writing (flying base) status ≡ done (free writing p.next, noticed base status)
  unfolding written link_events link_event Replies.on_write Connection.on_write
  reported base status = elim (Bool-cases (is_neg status)) [
    | inl failed ↦ rw (failed, alloc_live p kept) refl
    | inr fine ↦ rw (fine, alloc_live p kept) refl
  ]

  free_att : (free writing p.next).att ≡ some a
  unfolding free
  free_att = refl

  -- On a host that obeys the laws, over a connection with a buffer of at least 3 bytes:
  -- `writeCommand` with an unsigned number, a buffer and a function writes one Write Command with
  -- as much of the value as fits; and libuv's report on it, whatever the status, calls the function
  -- once, with an exception when the status is negative and with null otherwise, leaves the client
  -- as it was and deletes the callback data.
  pub write_told :
      HostLaws w.host
      → 3 ≤ buffer_size a.connection
      → (value : Value) (status : ℤ) → w.js.is_buffer value ≡ true
      → let bytes =
          handle_header 0x52 (handle_of w handle)
          ++ take (buffer_size a.connection - 3) (w.js.buffer_data value) in
        (p' p'' : Peripheral Value) × (wd : WriteData) × (got : List (Event Value)) × (write_command
            w p
            (handle ∷ value ∷ k ∷ [])
          ≡ done (p', on_att (on_connection (uv_write a.connection.tcp bytes wd)) ∷ []))
        × (written w p' wd status ≡ done (p'', got))
        × (seen got ≡ call k (outcome status ∷ []) ∷ [])
        × (p''.att ≡ some a)
        × (p''.live p.next ≡ none)
  unfolding write_command request checked after att_events att_event Request.write_command
  write_told laws room value status ok_value =
      let n = buffer_size a.connection in
      let (base, run) =
        send_handle_lem w.host a 0x52 (handle_of w handle) (some (w.js.buffer_data value))
          (length (w.js.buffer_data value)) (some fn_write) p.next
          (encode-contents w.host laws 0x52 (handle_of w handle) n (w.host.new_bytes n)
            (w.js.buffer_data value) (handle_of-lt w handle) room
            (sym (laws.new_bytes_length n))) in
      (
        writing,
        free writing p.next,
        flying base,
        noticed base status,
        rw (ok_handle, ok_k, ok_value, at, run) refl,
        reported base status,
        refl,
        free_att,
        free_live writing p.next,
      )
