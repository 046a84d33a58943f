-- ===== src/Hci/Advertising.antt =====
-- What reaches the adapter when advertising starts.
use btle_js.Prelude.{
  ℕ, ◌≤◌, ◌<◌, ◌≡◌, refl, ◌∙◌, done, fault, List, [], ◌∷◌, ◌++◌, some, true, false, is_neg, length,
  drop, replicate, take, take_all, length-take, Option, none, stuck, ◌≢◌, ◌%◌, Outcome, ◌>>=◌,
  arith,
}
use native.Mathlib.Nat.{mod-eq_of_lt}
use btle_js.Wire.Memory.{load_bytes, write_at, load_bytes-take, write_at_past, write_at_next}
use btle_js.Hci.{
  note, Run, Event, Adapter, Command, send, get_hci_socket, set_advertising_data, stop_advertising,
  start_advertising, enable_advertising, send_checked, send_command, advertising_data,
  advertise_enable, start_with, answer_scans, set_scan_response_data, configure, Parameters,
}

-- The 31 bytes of a data structure.
abbrev pub field : List ℕ → List ℕ
field content = content ++ drop (length content) (replicate 31 0)

-- The length that arrives at the structure, for at most 255 bytes.
byte_length : (content : List ℕ) → length content ≤ 31 → length content % 256 ≡ length content
byte_length content h = mod-eq_of_lt (omega arith)

load_content :
    (content : List ℕ) (n : ℕ)
    → n ≤ length content
    → load_bytes (some content) n ≡ done (take n content, drop n content)
load_content content n h = load_bytes-take content n h

fill_field :
    (content : List ℕ)
    → length content ≤ 31
    → write_at (replicate 31 0) 0 content ≡ done (field content)
fill_field content h = write_at_next [] (replicate 31 0) content 0 refl (omega arith)

faults_after :
    (m : Outcome Run) (f : Run → Outcome Run)
    → m ≢ stuck
    → ((r : Run) → f r ≡ fault)
    → (m >>= f) ≡ fault
faults_after (done r) f h k = k r
faults_after fault f h k = refl
faults_after stuck f h k = absurd (h refl)

module _ (adapter : Adapter) (content : List ℕ) where
  data_sent :
      (r : Run)
      → length content ≤ 31
      → set_advertising_data adapter r content (length content)
        ≡ done (send_checked adapter r (advertising_data (length content ∷ field content)))
  unfolding set_advertising_data
  data_sent r h =
      rw
        (
          byte_length content h,
          load_content content (length content) (omega arith),
          take_all (length content) content (omega arith),
          fill_field content h,
        )
        refl

  started :
      (r : Run)
      → length content ≤ 31
      → let enabled = enable_advertising adapter (stop_advertising adapter r) in
        let filled =
          send_checked adapter enabled (advertising_data (length content ∷ field content)) in
        start_advertising adapter r content (length content)
        ≡ done (record filled { hci = record filled.hci { is_advertising = true } })
  unfolding start_advertising
  started r h = rw (data_sent (enable_advertising adapter (stop_advertising adapter r)) h) refl

  start_past :
      (r : Run)
      → 31 < length content % 256
      → start_advertising adapter r content (length content) ≡ fault
  unfolding start_advertising set_advertising_data
  start_past r h =
      let n = length content % 256 in
      let fits : n ≤ length content = omega arith in
      rw
        (
          load_content content n fits,
          write_at_past (replicate 31 0) (take n content) 0 (omega (arith, length-take n content)),
        )
        refl

  scan_ends : (r : Run) (scan : Option (List ℕ)) → answer_scans adapter r scan ≢ stuck
  unfolding answer_scans set_scan_response_data load_bytes write_at
  scan_ends r none = λ e. cc
  scan_ends r (some bytes) = λ e. ground arith

  -- In any state and for any adapter, parameters and scan response: when the number of bytes of
  -- data, modulo 256, is more than 31, `HCI::StartAdvertising` faults behind its arguments: it
  -- writes past the end of a structure.
  pub start_overflow :
      (r : Run) (params : Option Parameters) (scan : Option (List ℕ))
      → 31 < length content % 256
      → start_with adapter r params content scan ≡ fault
  unfolding start_with
  start_overflow r params scan h =
      faults_after (answer_scans adapter (configure adapter r params) scan)
        (λ q. start_advertising adapter q content (length content))
        (scan_ends (configure adapter r params) scan) (λ q. start_past q h)

  -- In any state and whatever the adapter answers, for at most 31 bytes of data: `startAdvertising`
  -- returns, and the object is marked as advertising.
  pub start_marks :
      (r : Run)
      → length content ≤ 31
      → (q : Run) × (start_advertising adapter r content (length content) ≡ done q)
        × (q.hci.is_advertising ≡ true)
  start_marks r h = (_, started r h, refl)

module _ (adapter : Adapter) (accepts : (t : List Event) → is_neg (adapter.send_result t) ≡ false)
    (agrees : (t : List Event) → adapter.status t ≡ 0) where
  stopped :
      (r : Run)
      → r.hci.socket_closed ≡ false
      → stop_advertising adapter r ≡ record {
        hci = record r.hci { is_advertising = false };
        trace = send r.hci.hci_socket (advertise_enable 0) ∷ r.trace;
      }
  unfolding stop_advertising send_command get_hci_socket
  stopped r o = ground (arith, accepts r.trace)

  enabled :
      (r : Run)
      → r.hci.socket_closed ≡ false
      → enable_advertising adapter r ≡ note r (send r.hci.hci_socket (advertise_enable 1))
  unfolding enable_advertising send_command get_hci_socket
  enabled r o = ground (arith, accepts r.trace)

  checked :
      (r : Run) (c : Command)
      → r.hci.socket_closed ≡ false
      → send_checked adapter r c ≡ note r (send r.hci.hci_socket c)
  unfolding send_checked send_command get_hci_socket
  checked r c o = ground (arith, accepts r.trace, agrees (send r.hci.hci_socket c ∷ r.trace))

  -- With an open socket and an adapter that takes every command, for at most 31 bytes of data:
  -- `startAdvertising` disables advertising, enables it and sends the length and the data filled up
  -- to 31 bytes, in this order, and the object is marked as advertising.
  pub start_commands :
      (r : Run) (content : List ℕ)
      → r.hci.socket_closed ≡ false
      → length content ≤ 31
      → start_advertising adapter r content (length content)
        ≡ done (record {
          hci = record r.hci { is_advertising = true };
          trace =
              send r.hci.hci_socket (advertising_data (length content ∷ field content))
              ∷ send r.hci.hci_socket (advertise_enable 1)
              ∷ send r.hci.hci_socket (advertise_enable 0)
              ∷ r.trace;
        })
  start_commands r content o h =
      let idle : Run = record {
        hci = record r.hci { is_advertising = false };
        trace = send r.hci.hci_socket (advertise_enable 0) ∷ r.trace;
      } in
      let on = note idle (send r.hci.hci_socket (advertise_enable 1)) in
      started adapter content r h
      ∙ rw
          (
            stopped r o,
            enabled idle o,
            checked on (advertising_data (length content ∷ field content)) o,
          )
          refl
