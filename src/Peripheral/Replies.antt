-- ===== src/Peripheral/Replies.antt =====
-- The callbacks that `Att` and `Connection` make, up to the calls of JavaScript.
use btle_js.Prelude.{
  ℕ, zero, suc, Outcome, done, fault, deref, ◌>>=◌, List, [], ◌∷◌, ◌++◌, map, Option, none, some,
  String, if◌then◌else◌, ℤ, pos, negsuc, take,
}
use mathlib.Core.Option
use btle_js.Wire.Memory.{load_bytes}
use btle_js.Parse.{AttributeInfo, HandlesInfo, AttributeData, GroupAttributeData}
use btle_js.Pdu.{get_error_string}
use btle_js.Att.State.{Message, AttrList}
use btle_js.Att.State
use btle_js.Peripheral.State.{
  Peripheral, CallbackData, Item, Event, World, attribute_info, handles_info, attribute_data,
  group_attribute_data, null, self, text, errno_exception, error_object, buffer, array, emit, call,
  delete_data, free,
}

module _ {Value : Type 0} (w : World Value) where
  unfoldable pub get_attribute_info : AttributeInfo → Item
  get_attribute_info a = attribute_info a.handle (w.uuid_text a.type)

  -- `emit_error()` and `emit_error(errorMessage)`
  unfoldable pub emit_error : Event Value
  emit_error = emit "error" (errno_exception "connect" w.message ∷ self ∷ [])

  unfoldable pub emit_error_text : Message → Event Value
  emit_error_text message = emit "error" (text message ∷ self ∷ [])

  -- `handleConnect`
  unfoldable pub handle_connect : Peripheral Value → ℤ → List (Event Value)
  unfolding emit_error
  handle_connect p (pos zero) = elim p.connection_callback [
    | none ↦ emit "connect" (self ∷ []) ∷ []
    | some k ↦ call k (null ∷ self ∷ []) ∷ []
  ]
  handle_connect p status = elim p.connection_callback [
    | none ↦ emit_error ∷ []
    | some k ↦ call k (errno_exception "connect" w.message ∷ self ∷ []) ∷ []
  ]

  -- `onClose`. What `close` recorded need not be a function.
  unfoldable pub on_close : Peripheral Value → Outcome (List (Event Value))
  on_close p = elim p.close_callback [
    | none ↦ done (emit "close" [] ∷ [])
    | some k ↦ if w.js.is_function k then done (call k (null ∷ []) ∷ []) else fault
  ]

unfoldable pub get_handles_info : HandlesInfo → Item
get_handles_info a = handles_info a.handle a.group_end_handle

unfoldable pub get_attribute_data : AttributeData → Item
get_attribute_data a = attribute_data a.handle (take a.len a.bytes)

unfoldable pub get_group_attribute_data : GroupAttributeData → Item
get_group_attribute_data a = group_attribute_data a.handle a.group_end_handle (take a.len a.bytes)

-- `createErrorMessage`. The text of an unknown code is put into a local array, which is gone when
-- the pointer to it comes back: `none` is such a pointer.
unfoldable pub create_error_message : ℕ → Option Message
create_error_message err = Option.map State.text (get_error_string err)

-- `error == NULL ? createErrorMessage(err) : error`, as it is read.
unfoldable pub error_text : ℕ → Option Message → Outcome Message
unfolding create_error_message
error_text err none = deref (create_error_message err)
error_text err (some error) = done error

-- The bytes of a value and their number, as a new buffer.
copy_buffer : Option (List ℕ) → ℤ → Outcome (List ℕ)
copy_buffer buf (pos len) = do (bytes, _) ← load_bytes buf len; done bytes
copy_buffer buf (negsuc len) = fault

module _ {Value : Type 0} where
  -- `sendError`
  unfoldable pub send_error :
      Peripheral Value
      → ℕ
      → CallbackData Value
      → ℕ
      → Option Message
      → Outcome (Peripheral Value × List (Event Value))
  unfolding error_text free
  send_error p d cd err error = do
    callback ← deref cd.callback
    message ← error_text err error
    done (free p d, call callback (error_object err message ∷ null ∷ []) ∷ delete_data d ∷ [])

  -- The body that the four handlers of lists share; `list` is the pointer to the list.
  unfoldable pub handle_list :
      {A : Type 0}
      → (A → Item)
      → Peripheral Value
      → ℕ
      → ℕ
      → Option (List A)
      → Option Message
      → Outcome (Peripheral Value × List (Event Value))
  unfolding send_error free
  handle_list item p d status list (some error) = do
    cd ← deref (p.live d)
    send_error p d cd status (some error)
  handle_list item p d zero list none = do
    cd ← deref (p.live d)
    items ← deref list
    callback ← deref cd.callback
    done (free p d, call callback (null ∷ array (map item items) ∷ []) ∷ delete_data d ∷ [])
  handle_list item p d (suc status) list none = do
    cd ← deref (p.live d)
    send_error p d cd (suc status) none

  -- `onReadNotification`
  unfoldable pub on_read_notification :
      Peripheral Value
      → ℕ
      → ℕ
      → Option (List ℕ)
      → ℤ
      → Option Message
      → Outcome (Peripheral Value × List (Event Value))
  unfolding copy_buffer error_text
  on_read_notification p d zero buf len none = do
    cd ← deref (p.live d)
    callback ← deref cd.callback
    bytes ← copy_buffer buf len
    done (p, call callback (null ∷ buffer bytes ∷ []) ∷ [])
  on_read_notification p d status buf len error = do
    cd ← deref (p.live d)
    callback ← deref cd.callback
    message ← error_text status error
    done (p, call callback (text message ∷ null ∷ []) ∷ [])

  -- `onReadAttribute`, which deletes the callback data of a success, and that only.
  unfoldable pub on_read_attribute :
      Peripheral Value
      → ℕ
      → ℕ
      → Option (List ℕ)
      → ℤ
      → Option Message
      → Outcome (Peripheral Value × List (Event Value))
  unfolding on_read_notification copy_buffer free
  on_read_attribute p d zero buf len none = do
    (p, events) ← on_read_notification p d zero buf len none
    done (free p d, events ++ (delete_data d ∷ []))
  on_read_attribute p d status buf len error = on_read_notification p d status buf len error

  -- `onWrite`
  unfoldable pub on_write :
      World Value
      → Peripheral Value
      → ℕ
      → Option String
      → Outcome (Peripheral Value × List (Event Value))
  unfolding emit_error_text free
  on_write w p d error = do
    cd ← deref (p.live d)
    let told : List (Event Value) = elim error [
      | some message ↦ elim cd.callback [
        | none ↦ emit_error_text w (State.text message) ∷ []
        | some k ↦ call k (errno_exception "write" message ∷ []) ∷ []
      ]
      | none ↦ elim cd.callback [ none ↦ [] | some k ↦ call k (null ∷ []) ∷ [] ]
    ]
    done (free p d, told ++ (delete_data d ∷ []))
