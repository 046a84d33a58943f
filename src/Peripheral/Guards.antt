-- ===== src/Peripheral/Guards.antt =====
-- Which arguments the methods take, and what they do with the others.
use btle_js.Prelude.{◌≡◌, Bool, true, false, ◌&&◌, done, fault, List, [], ◌∷◌, none, String, arith}
use btle_js.Peripheral.State.{Peripheral, World, throw_error}
use btle_js.Peripheral.Dispatch.{Step}
use btle_js.Peripheral.Methods.{
  request, throws, checked, find_information, find_by_type_value, read_by_type, read_by_group_type,
  read_handle, add_notification_listener, write_command, write_request,
}

-- The methods that need a connection.
pub data Method : Type 0 where
  find_info find_type read_type read_group read_one listen write_one request_write : Method

module _ {Value : Type 0} (w : World Value) where
  unfoldable pub invoke : Method → Peripheral Value → List Value → Step w
  unfolding find_information find_by_type_value read_by_type read_by_group_type read_handle
      add_notification_listener write_command write_request
  invoke find_info = find_information w
  invoke find_type = find_by_type_value w
  invoke read_type = read_by_type w
  invoke read_group = read_by_group_type w
  invoke read_one = read_handle w
  invoke listen = add_notification_listener w
  invoke write_one = write_command w
  invoke request_write = write_request w

  -- The arguments that the methods are meant for; more of them may follow.
  abbrev pub accepts : Method → List Value → Bool
  accepts find_info (s ∷ e ∷ k ∷ rest) = w.js.is_uint32 s && w.js.is_uint32 e && w.js.is_function k
  accepts find_type (s ∷ e ∷ type ∷ value ∷ k ∷ rest) =
      w.js.is_uint32 s
      && w.js.is_uint32 e
      && w.js.is_string type
      && w.js.is_buffer value
      && w.js.is_function k
  accepts read_type (s ∷ e ∷ type ∷ k ∷ rest) =
      w.js.is_uint32 s && w.js.is_uint32 e && w.js.is_string type && w.js.is_function k
  accepts read_group (s ∷ e ∷ type ∷ k ∷ rest) =
      w.js.is_uint32 s && w.js.is_uint32 e && w.js.is_string type && w.js.is_function k
  accepts read_one (handle ∷ k ∷ rest) = w.js.is_uint32 handle && w.js.is_function k
  accepts listen (handle ∷ k ∷ rest) = w.js.is_uint32 handle && w.js.is_function k
  accepts write_one (handle ∷ value ∷ []) = w.js.is_uint32 handle && w.js.is_buffer value
  accepts write_one (handle ∷ value ∷ k ∷ rest) =
      w.js.is_uint32 handle && w.js.is_buffer value && w.js.is_function k
  accepts request_write (handle ∷ value ∷ rest) = w.js.is_uint32 handle && w.js.is_buffer value
  accepts _ _ = false

  -- The text of the one exception of a run.
  abbrev exception : Step w → String
  exception (done (q, throw_error message ∷ [])) = message
  exception _ = ""

  -- Each of the eight methods that need a connection, called with too few arguments or with one of
  -- the wrong type, throws exactly one exception and does nothing else, connected or not.
  pub invoke-Throws :
      (m : Method) (p : Peripheral Value) (args : List Value)
      → accepts m args ≡ false
      → (message : String) × (invoke m p args ≡ done (p, throw_error message ∷ []))
  unfolding invoke checked throws
  invoke-Throws m p args e = (exception (invoke m p args), ground arith)

  -- Each of the eight methods that need a connection, called with good arguments on an object that
  -- has no `Att`, as before `connect`, faults.
  pub invoke_unconnected :
      (m : Method) (p : Peripheral Value) (args : List Value)
      → accepts m args ≡ true
      → p.att ≡ none
      → invoke m p args ≡ fault
  unfolding invoke checked throws request
  invoke_unconnected m p args e at = ground arith
