-- ===== src/Hci/Socket.antt =====
-- The descriptor of the adapter.
use btle_js.Prelude.{
  ℕ, ◌≡◌, done, List, [], ◌∷◌, Option, none, some, true, if◌then◌else◌, ◌||◌, ℤ, is_neg, same,
  String, ◌%◌, length, replicate, arith, >>=-eq-done,
}
use btle_js.Hci.{
  Hci, Run, Event, Adapter, Command, Parameters, open_dev, close_dev, init, get_hci_socket,
  close_hci_socket, set_advertising_parameters, set_advertising_data, set_scan_response_data,
  stop_advertising, start_advertising, start_with, send_command, enable_advertising, configure,
  answer_scans, send_checked, advertising_parameters, advertising_data, scan_response_data,
  advertise_enable, note, throw_error,
}
use btle_js.Wire.Memory.{load_bytes, write_at}

-- The descriptors that a trace, the latest event first, leaves open, the last opened first. A close
-- of any other than that one closes nothing.
abbrev pub open_after : List Event → List ℤ
open_after [] = []
open_after (open_dev sock ∷ t) = if is_neg sock then open_after t else sock ∷ open_after t
open_after (close_dev sock ∷ t) = elim (open_after t) [
  | [] ↦ []
  | x ∷ rest ↦ if same x sock then rest else x ∷ rest
]
open_after (_ ∷ t) = open_after t

-- The descriptor that the object holds.
abbrev pub held : Hci → List ℤ
held s = if s.socket_closed || is_neg s.hci_socket then [] else s.hci_socket ∷ []

pub record IsTight (r : Run) : Type 0 where
  pub holds : open_after r.trace ≡ held r.hci

close-IsTight : (r : Run) → IsTight r → IsTight (close_hci_socket r)
unfolding close_hci_socket
close-IsTight r v = ground arith

module _ (adapter : Adapter) where
  socket-IsTight : (r : Run) → IsTight r → IsTight (get_hci_socket adapter r)
  unfolding get_hci_socket
  socket-IsTight r v = ground arith

  -- When the socket is closed and `hci_open_dev` fails, the descriptor is invalid, and a further
  -- call returns it as it is: the adapter is not asked again.
  pub open_failure_stays :
      (r : Run)
      → r.hci.socket_closed ≡ true
      → is_neg (adapter.hci_open_dev r.trace) ≡ true
      → let failed = get_hci_socket adapter r in
        (is_neg failed.hci.hci_socket ≡ true) × (get_hci_socket adapter failed ≡ failed)
  unfolding get_hci_socket
  open_failure_stays r c f = ground arith

  send-IsTight : (r : Run) (c : Command) → IsTight r → IsTight (send_command adapter r c).0
  unfolding send_command
  send-IsTight r c v = let w = socket-IsTight r v in ground arith

  parameters-IsTight :
      (r : Run) (p : Parameters) → IsTight r → IsTight (set_advertising_parameters adapter r p)
  unfolding set_advertising_parameters
  parameters-IsTight r p v = let w = send-IsTight r (advertising_parameters p) v in ground arith

  checked-IsTight : (r : Run) (c : Command) → IsTight r → IsTight (send_checked adapter r c)
  unfolding send_checked
  checked-IsTight r c v = let w = send-IsTight r c v in ground arith

  data-IsTight :
      (r : Run) (content : List ℕ) (n : ℕ) {q : Run}
      → IsTight r
      → set_advertising_data adapter r content n ≡ done q
      → IsTight q
  unfolding set_advertising_data
  data-IsTight r content n v e =
      let (x, _, e) = >>=-eq-done (load_bytes (some content) (n % 256)) _ e in
      let (field, _, e) = >>=-eq-done (write_at (replicate 31 0) 0 x.0) _ e in
      let w = checked-IsTight r (advertising_data (n % 256 ∷ field)) v in ground arith

  scan-IsTight :
      (r : Run) (content : List ℕ) (n : ℕ) {q : Run}
      → IsTight r
      → set_scan_response_data adapter r content n ≡ done q
      → IsTight q
  unfolding set_scan_response_data
  scan-IsTight r content n v e =
      let (x, _, e) = >>=-eq-done (load_bytes (some content) (n % 256)) _ e in
      let (field, _, e) = >>=-eq-done (write_at (replicate 31 0) 0 x.0) _ e in
      let w = checked-IsTight r (scan_response_data (n % 256 ∷ field)) v in ground arith

  stop-IsTight : (r : Run) → IsTight r → IsTight (stop_advertising adapter r)
  unfolding stop_advertising
  stop-IsTight r v = let w = send-IsTight r (advertise_enable 0) v in ground arith

  enable-IsTight : (r : Run) → IsTight r → IsTight (enable_advertising adapter r)
  unfolding enable_advertising
  enable-IsTight r v = let w = send-IsTight r (advertise_enable 1) v in ground arith

  start-IsTight :
      (r : Run) (content : List ℕ) (n : ℕ) {q : Run}
      → IsTight r
      → start_advertising adapter r content n ≡ done q
      → IsTight q
  unfolding start_advertising
  start-IsTight r content n v e =
      let enabled = enable_advertising adapter (stop_advertising adapter r) in
      let (x, sent, e) = >>=-eq-done (set_advertising_data adapter enabled content n) _ e in
      let w = data-IsTight enabled content n (enable-IsTight _ (stop-IsTight r v)) sent in
      ground arith

  configure-IsTight :
      (r : Run) (params : Option Parameters) → IsTight r → IsTight (configure adapter r params)
  unfolding configure
  configure-IsTight r none v = v
  configure-IsTight r (some p) v = parameters-IsTight r p v

  answer_scans-IsTight :
      (r : Run) (scan : Option (List ℕ)) {q : Run}
      → IsTight r
      → answer_scans adapter r scan ≡ done q
      → IsTight q
  unfolding answer_scans
  answer_scans-IsTight r none v e = ground arith
  answer_scans-IsTight r (some bytes) v e = scan-IsTight r bytes (length bytes) v e

  start_with-IsTight :
      (r : Run) (params : Option Parameters) (content : List ℕ) (scan : Option (List ℕ)) {q : Run}
      → IsTight r
      → start_with adapter r params content scan ≡ done q
      → IsTight q
  unfolding start_with
  start_with-IsTight r params content scan v e =
      let (x, sent, e) = >>=-eq-done (answer_scans adapter (configure adapter r params) scan) _ e in
      start-IsTight x content (length content)
        (answer_scans-IsTight (configure adapter r params) scan (configure-IsTight r params v) sent)
        e

-- What is called on an object, up to its destructor; `throws` is an argument or an option that is
-- thrown for.
pub data History (adapter : Adapter) : Run → Type 0 where
  new : History adapter (record { hci = init; trace = [] })
  starts :
      {r q : Run}
      → History adapter r
      → (params : Option Parameters) (content : List ℕ) (scan : Option (List ℕ))
      → start_with adapter r params content scan ≡ done q
      → History adapter q
  throws :
      {r : Run}
      → History adapter r
      → (message : String) → History adapter (note r (throw_error message))
  stops : {r : Run} → History adapter r → History adapter (stop_advertising adapter r)
  destroyed : {r : Run} → History adapter r → History adapter (close_hci_socket r)

-- After any history of an object, from its construction through starts that return, exceptions for
-- arguments and options, stops and its destructor, whatever the adapter answers: the descriptors
-- that were opened and not closed are the one that the object holds, or none.
pub History-IsTight : (adapter : Adapter) {r : Run} → History adapter r → IsTight r
unfolding init
History-IsTight adapter new = ground arith
History-IsTight adapter (starts {r} h params content scan e) =
    start_with-IsTight adapter r params content scan (History-IsTight adapter h) e
History-IsTight adapter (throws {r} h message) = record {
  holds = (History-IsTight adapter h).holds;
}
History-IsTight adapter (stops {r} h) = stop-IsTight adapter r (History-IsTight adapter h)
History-IsTight adapter (destroyed {r} h) = close-IsTight r (History-IsTight adapter h)
