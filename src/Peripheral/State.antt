-- ===== src/Peripheral/State.antt =====
-- The members of `Peripheral`, the callback data that it allocates, and what JavaScript is handed.
-- `Value` is the type of JavaScript values.
use btle_js.Prelude.{ℕ, suc, List, [], ◌∷◌, Option, none, some, String, ℤ, if◌then◌else◌, ◌==◌}
use btle_js.Host.{Host, Uuid}
use btle_js.Js.{Js}
use btle_js.Options.{Bluetooth, SetOpts}
use btle_js.Att.State.{Att, Message}
use btle_js.Att.State
use btle_js.Connection

-- `struct callbackData`; its `peripheral` is always the one that allocated it.
pub record CallbackData (Value : Type 0) : Type 0 where
  pub callback : Option Value
  pub start_handle : ℕ
  pub end_handle : ℕ

-- `live` gives the callback data behind a pointer, and `next` is a pointer not given out before.
-- A null pointer to a function is a handle that is `IsEmpty`.
pub record Peripheral (Value : Type 0) : Type 0 where
  pub att : Option Att
  pub connection_callback : Option Value
  pub close_callback : Option Value
  pub live : ℕ → Option (CallbackData Value)
  pub next : ℕ

-- The objects that lists of results are turned into.
pub data Item : Type 0 where
  attribute_info : ℕ → String → Item
  handles_info : ℕ → ℕ → Item
  attribute_data : ℕ → List ℕ → Item
  group_attribute_data : ℕ → ℕ → List ℕ → Item

-- The values that the addon makes for JavaScript. `errno_exception` is `ErrnoException`, of a call
-- and libuv's text; `error_object` has the members `errorCode` and `errorMessage`.
pub data Reply : Type 0 where
  null : Reply
  self : Reply
  text : Message → Reply
  errno_exception : String → String → Reply
  error_object : ℕ → Message → Reply
  buffer : List ℕ → Reply
  array : List Item → Reply

-- What the object does to the outside: exceptions, emitted events, calls of JavaScript functions,
-- the deletion of callback data, and what the layers below it do.
pub data Event (Value : Type 0) : Type 0 where
  throw_error : String → Event Value
  emit : String → List Reply → Event Value
  call : Value → List Reply → Event Value
  delete_data : ℕ → Event Value
  on_att : State.Event → Event Value
  on_link : Connection.Event → Event Value

-- What is not in the repository. `junk` is what an uninitialised `int` holds; `uuid_of` is what
-- `bt_string_to_uuid` leaves in its argument; `message` is libuv's text for its last error.
pub record World (Value : Type 0) : Type 0 where
  pub js : Js Value
  pub host : Host
  pub bluetooth : Bluetooth
  pub properties : Value → String → Option Value
  pub bt_io_connect : SetOpts → ℤ
  pub errno : ℕ
  pub message : String
  pub junk : ℤ
  pub uuid_of : String → Uuid
  pub uuid_text : Uuid → String

-- The static functions that are handed to `Att` and `Connection`, as numbers.
abbrev pub fn_connect : ℕ
fn_connect = 1

abbrev pub fn_close : ℕ
fn_close = 2

abbrev pub fn_error : ℕ
fn_error = 3

abbrev pub fn_find_information : ℕ
fn_find_information = 4

abbrev pub fn_find_by_type : ℕ
fn_find_by_type = 5

abbrev pub fn_read_by_type : ℕ
fn_read_by_type = 6

abbrev pub fn_read_by_group_type : ℕ
fn_read_by_group_type = 7

abbrev pub fn_read_attribute : ℕ
fn_read_attribute = 8

abbrev pub fn_read_notification : ℕ
fn_read_notification = 9

abbrev pub fn_write : ℕ
fn_write = 10

-- `Att::onRead`, and the pointers to the `Att` and to the `Peripheral` itself.
abbrev pub fn_att_read : ℕ
fn_att_read = 11

abbrev pub this : ℕ
this = 0

module _ {Value : Type 0} where
  -- `Peripheral::Peripheral`
  unfoldable pub init : Peripheral Value
  init = record {
    att = none;
    connection_callback = none;
    close_callback = none;
    live = λ d. none;
    next = 1;
  }

  -- `new struct callbackData()`, filled.
  unfoldable pub alloc : Peripheral Value → CallbackData Value → Peripheral Value
  alloc p cd = record p { live = λ d. if d == p.next then some cd else p.live d; next = suc p.next }

  -- `delete cd`
  unfoldable pub free : Peripheral Value → ℕ → Peripheral Value
  free p d = record p { live = λ e. if e == d then none else p.live e }

  -- What JavaScript sees: exceptions, the calls of its functions and the emitted events.
  abbrev pub seen : List (Event Value) → List (Event Value)
  seen [] = []
  seen (call k replies ∷ r) = call k replies ∷ seen r
  seen (emit name replies ∷ r) = emit name replies ∷ seen r
  seen (throw_error message ∷ r) = throw_error message ∷ seen r
  seen (_ ∷ r) = seen r
