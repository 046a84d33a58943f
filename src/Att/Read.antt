-- ===== src/Att/Read.antt =====
-- `Att::handleRead`: what arrives from the device.
use btle_js.Prelude.{
  ℕ, List, [], ◌∷◌, Option, none, some, String, Outcome, done, deref, ◌>>=◌, if◌then◌else◌, ◌==◌,
  pos, sub_ℕ, drop, false, Bool,
}
use btle_js.Host.{Host}
use btle_js.Wire.Memory.{load_bytes}
use btle_js.Parse.{load_byte}
use btle_js.Pdu.{att_op_error, att_op_handle_notify, get_error_string, get_opcode_name}
use btle_js.Att.State.{
  Att, ReadData, Event, Message, text, error_named, error_code, unexpected_notification,
  unexpected_data, call_error,
}
use btle_js.Att.Respond.{call_back, callback_current_request}
use btle_js.Att.Request.{find}

-- `buf[i]`, and the `uint16_t` at `&buf[i]` as the machine reads it.
unfoldable pub byte_at : List ℕ → ℕ → Outcome ℕ
byte_at buf i = do (b, _) ← load_byte (some (drop i buf)); done b

unfoldable pub host_u16_at : Host → List ℕ → ℕ → Outcome ℕ
host_u16_at h buf i = do (bytes, _) ← load_bytes (some (drop i buf)) 2; done (h.load16 bytes)

-- `if (errorHandler != NULL) errorHandler(errorData, …)`
unfoldable pub report : Att → Message → Outcome (Att × List Event)
report a message = elim a.error_handler [
  | none ↦ done (a, [])
  | some e ↦ done (a, call_error e.callback e.data_ptr message ∷ [])
]

unfoldable pub error_message : ℕ → ℕ → ℕ → Message
error_message request handle code = elim (get_error_string code) [
  | none ↦ error_code (get_opcode_name request) handle code
  | some message ↦ error_named (get_opcode_name request) handle message
]

unfoldable pub is_current : Att → ℕ → Bool
is_current a request = elim a.current_request [ none ↦ false | some rd ↦ rd.request == request ]

unfoldable pub handle_error : Host → Att → List ℕ → Outcome (Att × List Event)
unfolding error_message is_current report byte_at host_u16_at callback_current_request
handle_error h a buf = do
  request ← byte_at buf 1
  code ← byte_at buf 4
  handle ← host_u16_at h buf 2
  let message = error_message request handle code
  if is_current a request
      then callback_current_request h a code none (pos 0) (some message)
      else report a message

-- The listener that the map has for the handle, or none.
unfoldable pub notify_to :
    Host → Att → List ℕ → ℕ → ℕ → Option ReadData → Outcome (Att × List Event)
unfolding report call_back
notify_to h a buf nread handle none = report a (unexpected_notification handle)
notify_to h a buf nread handle (some rd) =
    call_back h a rd.callback 0 rd (some (drop 3 buf)) (sub_ℕ nread 3) none

unfoldable pub handle_notify : Host → Att → List ℕ → ℕ → Outcome (Att × List Event)
unfolding notify_to host_u16_at find
handle_notify h a buf nread = do
  handle ← host_u16_at h buf 1
  notify_to h a buf nread handle (find handle a.notification_map)

unfoldable pub handle_response : Host → Att → ℕ → List ℕ → ℕ → Outcome (Att × List Event)
unfolding report callback_current_request
handle_response h a opcode buf nread = elim a.current_request [
  | none ↦ report a (unexpected_data opcode)
  | some _ ↦ callback_current_request h a 0 (some (drop 1 buf)) (sub_ℕ nread 1) none
]

-- `buf` is the whole buffer that libuv filled, `nread` the number of bytes that arrived.
unfoldable pub handle_read :
    Host → Att → Option (List ℕ) → ℕ → Option String → Outcome (Att × List Event)
unfolding handle_error handle_notify handle_response byte_at
handle_read h a buf nread (some error) =
    callback_current_request h a 0 none (pos 0) (some (text error))
handle_read h a buf nread none = do
  buf ← deref buf
  opcode ← byte_at buf 0
  if opcode == att_op_error
      then handle_error h a buf
      else if opcode == att_op_handle_notify
      then handle_notify h a buf nread
      else handle_response h a opcode buf nread
