-- ===== src/Peripheral/Methods.antt =====
-- The methods by which JavaScript makes requests.
use btle_js.Prelude.{
  ℕ, ◌^◌, Outcome, done, deref, ◌>>=◌, List, [], ◌∷◌, length, Option, none, some, String, Bool,
  if◌then◌else◌,
}
use btle_js.Js.{wrap, get_int_value}
use btle_js.Att.State.{Att}
use btle_js.Att.State
use btle_js.Att.Request
use btle_js.Peripheral.State.{
  Peripheral, CallbackData, World, throw_error, alloc, this, fn_close, fn_find_information,
  fn_find_by_type, fn_read_by_type, fn_read_by_group_type, fn_read_attribute, fn_read_notification,
  fn_write,
}
use btle_js.Peripheral.Dispatch.{Step, after}

module _ {Value : Type 0} (w : World Value) where
  -- An argument that is a handle: the `int` that `getIntValue` leaves, as a `uint16_t`.
  unfoldable pub handle_of : Value → ℕ
  unfolding get_int_value
  handle_of v = wrap (2 ^ 16) (get_int_value w.js v w.junk).1

  unfoldable pub throws : Peripheral Value → String → Step w
  throws p message = done (p, throw_error message ∷ [])

  -- `if (!test) { ThrowException(…); return; }`, one after the other.
  unfoldable pub checked : Peripheral Value → List (Bool × String) → Step w → Step w
  unfolding throws
  checked p [] body = body
  checked p ((test, message) ∷ rest) body = if test then checked p rest body else throws p message

  -- New callback data, and a request of the `Att` with the pointer to it.
  unfoldable pub request :
      Peripheral Value → CallbackData Value → (Att → ℕ → Outcome (Att × List State.Event)) → Step w
  unfolding alloc after
  request p cd ask = do a ← deref p.att; after w (alloc p cd) (ask a p.next)

  abbrev wrong_number : String
  wrong_number = "Wrong number of arguments"

  -- The tests that the first two arguments are handles.
  abbrev handles_first : Value → Value → List (Bool × String) → List (Bool × String)
  handles_first s e rest =
      (w.js.is_uint32 s, "First argument must be a handle number")
      ∷ (w.js.is_uint32 e, "Second argument must be a handle number")
      ∷ rest

  -- The callback data of a request for a range.
  abbrev pub range_data : Value → Value → Value → CallbackData Value
  range_data s e callback = record {
    callback = some callback;
    start_handle = handle_of s;
    end_handle = handle_of e;
  }

  abbrev pub single_data : Option Value → CallbackData Value
  single_data callback = record { callback = callback; start_handle = 0; end_handle = 0 }

  -- `FindInformation`
  unfoldable pub find_information : Peripheral Value → List Value → Step w
  unfolding throws checked handle_of request Request.find_information
  find_information p (s ∷ e ∷ callback ∷ rest) =
      checked p
        (handles_first s e ((w.js.is_function callback, "Third argument must be a callback") ∷ []))
        (request p (range_data s e callback) λ a d.
          Request.find_information w.host a (handle_of s) (handle_of e) fn_find_information d)
  find_information p args = throws p wrong_number

  -- `FindByTypeValue`
  unfoldable pub find_by_type_value : Peripheral Value → List Value → Step w
  unfolding throws checked handle_of request Request.find_by_type_value
  find_by_type_value p (s ∷ e ∷ type ∷ value ∷ callback ∷ rest) =
      checked p
        (handles_first s e (
          (w.js.is_string type, "Third argument must be a string")
          ∷ (w.js.is_buffer value, "Fourth argument must be a buffer")
          ∷ (w.js.is_function callback, "Fifth argument must be a callback")
          ∷ []))
        (request p (range_data s e callback) λ a d.
          Request.find_by_type_value w.host a (handle_of s) (handle_of e)
            (w.uuid_of (w.js.string_of type)) (some (w.js.buffer_data value))
            (length (w.js.buffer_data value)) fn_find_by_type d)
  find_by_type_value p args = throws p wrong_number

  abbrev type_checks : Value → Value → Value → Value → List (Bool × String)
  type_checks s e type callback = handles_first s e (
      (w.js.is_string type, "Third argument must be a string")
      ∷ (w.js.is_function callback, "Fourth argument must be a callback")
      ∷ [])

  -- `ReadByType`
  unfoldable pub read_by_type : Peripheral Value → List Value → Step w
  unfolding throws checked handle_of request Request.read_by_type
  read_by_type p (s ∷ e ∷ type ∷ callback ∷ rest) = checked p (type_checks s e type callback) (
      request p (range_data s e callback) λ a d.
        Request.read_by_type w.host a (handle_of s) (handle_of e) (w.uuid_of (w.js.string_of type))
          fn_read_by_type d)
  read_by_type p args = throws p wrong_number

  -- `ReadByGroupType`
  unfoldable pub read_by_group_type : Peripheral Value → List Value → Step w
  unfolding throws checked handle_of request Request.read_by_group_type
  read_by_group_type p (s ∷ e ∷ type ∷ callback ∷ rest) =
      checked p (type_checks s e type callback) (
        request p (range_data s e callback) λ a d.
          Request.read_by_group_type w.host a (handle_of s) (handle_of e)
            (w.uuid_of (w.js.string_of type)) fn_read_by_group_type d)
  read_by_group_type p args = throws p wrong_number

  abbrev handle_and_callback : Value → Value → List (Bool × String)
  handle_and_callback handle callback =
      (w.js.is_uint32 handle, "First argument must be a handle number")
      ∷ (w.js.is_function callback, "Second argument must be a callback")
      ∷ []

  -- `ReadHandle`
  unfoldable pub read_handle : Peripheral Value → List Value → Step w
  unfolding throws checked handle_of request Request.read_attribute
  read_handle p (handle ∷ callback ∷ rest) = checked p (handle_and_callback handle callback) (
      request p (single_data (some callback))
        λ a d. Request.read_attribute w.host a (handle_of handle) fn_read_attribute d)
  read_handle p args = throws p wrong_number

  -- `AddNotificationListener`
  unfoldable pub add_notification_listener : Peripheral Value → List Value → Step w
  unfolding throws checked handle_of request Request.listen_for_notifications
  add_notification_listener p (handle ∷ callback ∷ rest) =
      checked p (handle_and_callback handle callback) (
        request p (single_data (some callback)) λ a d.
          done (Request.listen_for_notifications a (handle_of handle) fn_read_notification d, []))
  add_notification_listener p args = throws p wrong_number

  abbrev handle_and_buffer : Value → Value → List (Bool × String)
  handle_and_buffer handle value =
      (w.js.is_uint32 handle, "First argument must be a handle number")
      ∷ (w.js.is_buffer value, "Second argument must be a buffer")
      ∷ []

  write_value : Peripheral Value → Value → Value → Option Value → Step w
  unfolding handle_of request Request.write_command
  write_value p handle value callback = request p (single_data callback) λ a d.
      Request.write_command w.host a (handle_of handle) (some (w.js.buffer_data value))
        (length (w.js.buffer_data value)) (some fn_write) d

  -- `WriteCommand`
  unfoldable pub write_command : Peripheral Value → List Value → Step w
  unfolding throws checked write_value
  write_command p (handle ∷ value ∷ []) =
      checked p (handle_and_buffer handle value) (write_value p handle value none)
  write_command p (handle ∷ value ∷ callback ∷ rest) = checked p (handle_and_buffer handle value) (
      checked p ((w.js.is_function callback, "Third argument must be a callback") ∷ [])
        (write_value p handle value (some callback)))
  write_command p args = throws p wrong_number

  -- `WriteRequest`, with no callback.
  unfoldable pub write_request : Peripheral Value → List Value → Step w
  unfolding throws checked handle_of after Request.write_request
  write_request p (handle ∷ value ∷ rest) = checked p (handle_and_buffer handle value) (do
    a ← deref p.att
    after w p (
        Request.write_request w.host a (handle_of handle) (some (w.js.buffer_data value))
          (length (w.js.buffer_data value)) none 0))
  write_request p args = throws p wrong_number

  close_att : Peripheral Value → Step w
  unfolding after Request.close
  close_att p = elim p.att [
    | none ↦ done (p, [])
    | some a ↦ after w p (done (Request.close a (some fn_close) this))
  ]

  -- The callback that `Close` records is its second argument, where the first was tested.
  abbrev pub second : List Value → Value
  second [] = w.js.undefined
  second (v ∷ rest) = v

  -- `Close`
  unfoldable pub close : Peripheral Value → List Value → Step w
  unfolding throws checked close_att
  close p [] = close_att p
  close p (callback ∷ rest) =
      checked p ((w.js.is_function callback, "Argument must be a callback") ∷ [])
        (close_att (record p { close_callback = some (second rest) }))
