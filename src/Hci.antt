-- ===== src/Hci.antt =====
-- src/hci.cc: the socket to the Bluetooth adapter and the commands for advertising. `ThrowException`
-- only notes an exception: the code runs on behind it.
pub mod Socket
pub mod Advertising
pub mod Arguments
use btle_js.Prelude.{
  ℕ, zero, suc, ◌%◌, Outcome, done, ◌>>=◌, List, [], ◌∷◌, ◌++◌, Option, none, some, String, Bool,
  true, false, not, ◌&&◌, if◌then◌else◌, ltb, ◌==◌, ℤ, pos, negsuc, is_neg, replicate, length,
}
use btle_js.Wire.Memory.{load_bytes, write_at}
use btle_js.Js.{Js}

pub data HciState : Type 0 where
  down : HciState
  up : HciState

-- `is_up` is the HCI_UP bit of `hciDevInfo.flags`. The three other states of the enumeration are
-- never used.
pub record Hci : Type 0 where
  pub hci_socket : ℤ
  pub state : HciState
  pub socket_closed : Bool
  pub is_up : Bool
  pub is_advertising : Bool

-- `le_set_advertising_parameters_cp`, as far as the code sets it.
pub record Parameters : Type 0 where
  pub min_interval : ℕ
  pub max_interval : ℕ
  pub advtype : ℕ
  pub chan_map : ℕ

-- A command: to enable or disable advertising, its parameters, and the bytes of its data structures.
pub data Command : Type 0 where
  advertise_enable : ℕ → Command
  advertising_parameters : Parameters → Command
  advertising_data : List ℕ → Command
  scan_response_data : List ℕ → Command

pub data Event : Type 0 where
  open_dev : ℤ → Event
  close_dev : ℤ → Event
  dev_info : ℤ → Event
  send : ℤ → Command → Event
  throw_error : String → Event

-- What the adapter and the kernel answer, given what happened so far, the latest first: the
-- descriptor, the HCI_UP bit unless the `ioctl` fails, the result of a command, and the byte that
-- its status is then found to hold.
pub record Adapter : Type 0 where
  pub hci_open_dev : List Event → ℤ
  pub get_dev_info : List Event → Option Bool
  pub send_result : List Event → ℤ
  pub status : List Event → ℕ

-- The object and what happened, the latest first.
pub record Run : Type 0 where
  pub hci : Hci
  pub trace : List Event

pub init : Hci
init = record {
  hci_socket = negsuc 0;
  state = down;
  socket_closed = true;
  is_up = false;
  is_advertising = false;
}

abbrev pub note : Run → Event → Run
note r event = record r { trace = event ∷ r.trace }

-- `HCI::closeHCISocket`
unfoldable pub close_hci_socket : Run → Run
close_hci_socket r =
    if not r.hci.socket_closed && not (is_neg r.hci.hci_socket)
    then record {
      hci = record r.hci { hci_socket = negsuc 0; socket_closed = true };
      trace = close_dev r.hci.hci_socket ∷ r.trace;
    }
    else r

-- `HCI::getAdapterState`
unfoldable pub get_adapter_state : Run → Run
get_adapter_state r = record r { hci = record r.hci { state = if r.hci.is_up then up else down } }

module _ (adapter : Adapter) where
  open_socket : Run → Run
  open_socket r =
      let sock = adapter.hci_open_dev r.trace in
      let r' : Run = record {
        hci = record r.hci { hci_socket = sock; socket_closed = false };
        trace = open_dev sock ∷ r.trace;
      } in
      if is_neg sock then note r' (throw_error "Error opening HCI socket") else r'

  read_info : Run → Run
  unfolding close_hci_socket
  read_info r =
      let r' = note r (dev_info r.hci.hci_socket) in
      elim (adapter.get_dev_info r.trace) [
        | none ↦ note (close_hci_socket r') (throw_error "Error getting HCI socket state")
        | some is_up ↦ record r' { hci = record r'.hci { is_up = is_up } }
      ]

  check_state : Run → Run
  unfolding close_hci_socket
  check_state r = elim r.hci.state [
    | up ↦ r
    | down ↦
        if is_neg r.hci.hci_socket
        then r
        else note (close_hci_socket r) (throw_error "Adapter never came up")
  ]

  -- `HCI::getHCISocket`; the result is the member `hciSocket`.
  unfoldable pub get_hci_socket : Run → Run
  unfolding open_socket read_info get_adapter_state check_state
  get_hci_socket r =
      if r.hci.socket_closed then check_state (get_adapter_state (read_info (open_socket r))) else r

  -- One command on the socket, and whether it failed.
  unfoldable pub send_command : Run → Command → Run × Bool
  unfolding get_hci_socket
  send_command r command =
      let r = get_hci_socket r in
      (note r (send r.hci.hci_socket command), is_neg (adapter.send_result r.trace))

  -- `HCI::setAdvertisingParameters`
  unfoldable pub set_advertising_parameters : Run → Parameters → Run
  unfolding send_command
  set_advertising_parameters r params =
      let (r, failed) = send_command r (advertising_parameters params) in
      if failed then note r (throw_error "Error setting advertising parameters") else r

  -- The command, and what is thrown for its result and for its status.
  send_checked : Run → Command → Run
  unfolding send_command
  send_checked r command =
      let (sent, failed) = send_command r command in
      let reported =
        if failed then note sent (throw_error "Error setting advertising data") else sent in
      if adapter.status reported.trace == 0
      then reported
      else note reported (throw_error "Error setting advertising data")

  -- A structure of a length and 31 bytes, cleared and filled, and its command.
  send_data : (List ℕ → Command) → Run → List ℕ → ℕ → Outcome Run
  unfolding send_checked
  send_data command r content length = do
    (bytes, _) ← load_bytes (some content) length
    field ← write_at (replicate 31 0) 0 bytes
    done (send_checked r (command (length ∷ field)))

  -- `HCI::setAdvertisingData` and `HCI::setScanResponseData`: the length is a `uint8_t`.
  unfoldable pub set_advertising_data : Run → List ℕ → ℕ → Outcome Run
  unfolding send_data
  set_advertising_data r content length = send_data advertising_data r content (length % 256)

  unfoldable pub set_scan_response_data : Run → List ℕ → ℕ → Outcome Run
  unfolding send_data
  set_scan_response_data r content length = send_data scan_response_data r content (length % 256)

  -- `HCI::stopAdvertising`
  unfoldable pub stop_advertising : Run → Run
  unfolding send_command
  stop_advertising r =
      let (r, _) = send_command r (advertise_enable 0) in
      record r { hci = record r.hci { is_advertising = false } }

  enable_advertising : Run → Run
  unfolding send_command
  enable_advertising r =
      let (r, failed) = send_command r (advertise_enable 1) in
      if failed then note r (throw_error "Error enabling advertising") else r

  -- `HCI::startAdvertising`, whose length is a `uint8_t` that is only passed on.
  unfoldable pub start_advertising : Run → List ℕ → ℕ → Outcome Run
  unfolding stop_advertising enable_advertising set_advertising_data
  start_advertising r content length = do
    r ← set_advertising_data (enable_advertising (stop_advertising r)) content length
    done (record r { hci = record r.hci { is_advertising = true } })

  configure : Run → Option Parameters → Run
  unfolding set_advertising_parameters
  configure r none = r
  configure r (some params) = set_advertising_parameters r params

  answer_scans : Run → Option (List ℕ) → Outcome Run
  unfolding set_scan_response_data
  answer_scans r none = done r
  answer_scans r (some bytes) = set_scan_response_data r bytes (length bytes)

  -- The end of `HCI::StartAdvertising`: parameters if there were options, a scan response if there
  -- was a buffer for it, and the start.
  unfoldable pub start_with : Run → Option Parameters → List ℕ → Option (List ℕ) → Outcome Run
  unfolding configure answer_scans start_advertising
  start_with r params content scan = do
    r ← answer_scans (configure r params) scan
    start_advertising r content (length content)
