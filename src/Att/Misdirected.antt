-- ===== src/Att/Misdirected.antt =====
-- src/att.cc: a write request while a read is outstanding, and the responses to both.
use btle_js.Prelude.{
  ℕ, ◌-◌, ◌≤◌, ◌<◌, ◌≡◌, refl, sym, List, [], ◌∷◌, ◌++◌, Option, none, some, Outcome, done, take,
  length, ◌>>=◌, pos, arith,
}
use btle_js.Host.{Host, HostLaws}
use btle_js.Wire.Encode.{handle_header, encode-header, encode-contents}
use btle_js.Parse.{load_byte}
use btle_js.Connection.{buffer_size, uv_write}
use btle_js.Att.State.{
  Att, ReadData, Event, Message, new_read_data, on_read_attribute, call_list, call_attribute,
  call_error, unexpected_data, on_connection, delete_request,
}
use btle_js.Att.Request.{read_attribute, write_request}
use btle_js.Att.Read.{handle_read, handle_response, byte_at, report}
use btle_js.Att.Respond.{call_back, callback_current_request, handle_read_attribute}
use btle_js.Att.Collect.{wire}
use btle_js.Att.Writes.{send_handle_lem}

-- The calls of the user's functions.
abbrev pub told : List Event → List Event
told [] = []
told (call_list k status d list error ∷ r) = call_list k status d list error ∷ told r
told (call_attribute k status d buf n error ∷ r) = call_attribute k status d buf n error ∷ told r
told (call_error k d message ∷ r) = call_error k d message ∷ told r
told (_ ∷ r) = told r

-- What the user hears of a message that belongs to no request.
abbrev pub complaint : Att → Message → List Event
complaint a message = elim a.error_handler [
  | none ↦ []
  | some e ↦ call_error e.callback e.data_ptr message ∷ []
]

report_lem : (a : Att) (message : Message) → report a message ≡ done (a, complaint a message)
unfolding report
report_lem a message = ground arith

told-complaint : (a : Att) (message : Message) → told (complaint a message) ≡ complaint a message
told-complaint a message = ground arith

-- What an exchange sends, and whom its two responses reach.
pub record Exchange : Type 0 where
  pub after : Att
  pub pdus : List (List ℕ)
  pub at_write_response : List Event
  pub at_read_response : List Event

-- The read of one attribute and the write of another, then two responses.
pub exchange :
    Host → Att → ℕ → ℕ → ℕ → ℕ → List ℕ → Option ℕ → ℕ → List ℕ → List ℕ → ℕ → Outcome Exchange
exchange h a reads k d writes value callback cb_data response answer size = do
  (a, asked) ← read_attribute h a reads k d
  (a, wrote) ← write_request h a writes (some value) (length value) callback cb_data
  (a, first) ← handle_read h a (some response) 1 none
  (a, second) ← handle_read h a (some answer) size none
  done (record {
    after = a;
    pdus = wire asked ++ wire wrote;
    at_write_response = told first;
    at_read_response = told second;
  })

module _ (h : Host) (laws : HostLaws h) (a : Att) (idle : a.current_request ≡ none)
    (room : 3 ≤ buffer_size a.connection) (reads k d : ℕ) where
  abbrev slot : ReadData
  slot = record new_read_data {
    request = 10;
    expected_response = 11;
    data_ptr = d;
    handle = reads;
    callback = some on_read_attribute;
    read_attr_cb = some k;
  }

  abbrev asking : Att
  asking = record a { current_request = some slot }

  abbrev quiet : Att
  quiet = record a { current_request = none }

  quiet_lem : quiet ≡ a
  quiet_lem i = record a { current_request = sym idle i }

  asked :
      reads < 65536
      → (events : List Event) × (read_attribute h a reads k d ≡ done (asking, events))
        × (wire events ≡ handle_header 10 reads ∷ [])
  unfolding read_attribute
  asked small =
      let n = buffer_size a.connection in
      let (base, run) = send_handle_lem h asking 10 reads none 0 none 0 (
        encode-header h laws 10 reads n (h.new_bytes n) small room
          (sym (laws.new_bytes_length n))) in
      (
        on_connection (
              uv_write a.connection.tcp (handle_header 10 reads)
                (record { callback = none; data_ptr = 0; buffer = base }))
            ∷ [],
        rw (idle, run) refl,
        refl,
      )

  wrote :
      (writes : ℕ) (value : List ℕ) (callback : Option ℕ) (cb_data : ℕ)
      → writes < 65536
      → (events : List Event) × (write_request h asking writes
            (some value)
            (length value)
            callback
            cb_data
          ≡ done (asking, events))
        × (wire events
            ≡ (handle_header 18 writes ++ take (buffer_size a.connection - 3) value) ∷ [])
  unfolding write_request
  wrote writes value callback cb_data small =
      let n = buffer_size a.connection in
      let (base, run) =
        send_handle_lem h asking 18 writes (some value) (length value) callback cb_data (
          encode-contents h laws 18 writes n (h.new_bytes n) value small room
            (sym (laws.new_bytes_length n))) in
      (_, run, refl)

  -- The response to the write goes to the read.
  misdirected :
      (slack : List ℕ)
      → (events : List Event) × (handle_read h asking (some (19 ∷ slack)) 1 none
          ≡ done (quiet, events))
        × (told events ≡ call_attribute k 0 d (some slack) (pos 0) none ∷ [])
  unfolding handle_read byte_at load_byte handle_response callback_current_request call_back
      handle_read_attribute
  misdirected slack = (
    delete_request slot ∷ call_attribute k 0 d (some slack) (pos 0) none ∷ [],
    ground arith,
    refl,
  )

  -- The response to the read is for nobody.
  late :
      (content : List ℕ) (size : ℕ)
      → (events : List Event) × (handle_read h quiet (some (11 ∷ content)) size none
          ≡ done (quiet, events))
        × (told events ≡ complaint a (unexpected_data 11))
  unfolding handle_read byte_at load_byte handle_response
  late content size =
      (complaint a (unexpected_data 11), report_lem quiet (unexpected_data 11), told-complaint a _)

  -- On a host that obeys the laws, with a buffer of at least three bytes, for a client with no
  -- outstanding request and two handles of 16 bits: when an attribute is read and then another is
  -- written by `writeRequest`, both requests are sent, the value cut to what one PDU holds. The
  -- Write Response that then comes ends the read: the read's function is called once, with no bytes
  -- and no error. A Read Response that comes after it, of any bytes, calls no function but the
  -- error handler, if there is one, for unexpected data with opcode 11; and the client is what it
  -- was.
  pub write_completes_read :
      (writes : ℕ) (value : List ℕ) (callback : Option ℕ) (cb_data : ℕ) (slack content : List ℕ)
      (size : ℕ)
      → reads < 65536
      → writes < 65536
      → exchange h a reads k d writes value callback cb_data (19 ∷ slack) (11 ∷ content) size
        ≡ done (record {
          after = a;
          pdus =
              handle_header 10 reads
              ∷ (handle_header 18 writes ++ take (buffer_size a.connection - 3) value)
              ∷ [];
          at_write_response = call_attribute k 0 d (some slack) (pos 0) none ∷ [];
          at_read_response = complaint a (unexpected_data 11);
        })
  unfolding exchange
  write_completes_read writes value callback cb_data slack content size small small' =
      let (e1, run1, saw1) = asked small in
      let (e2, run2, saw2) = wrote writes value callback cb_data small' in
      let (e3, run3, saw3) = misdirected slack in
      let (e4, run4, saw4) = late content size in
      rw (run1, run2, run3, run4, saw1, saw2, saw3, saw4, quiet_lem) refl
