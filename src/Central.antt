-- ===== src/Central.antt =====
-- src/central.cc: a listening socket that becomes a connection to a central. Calls of libuv, of the
-- kernel and of JavaScript are events; JavaScript code that they run is not followed.
pub mod Outcomes
use btle_js.Prelude.{
  ℕ, zero, suc, ◌^◌, Outcome, done, fault, ◌>>=◌, List, [], ◌∷◌, ◌++◌, Option, none, some, String,
  Bool, true, false, if◌then◌else◌, ltb, ℤ, pos, negsuc, is_neg, length, take,
}
use btle_js.Js.{Js, wrap}
use btle_js.Options.{Bluetooth, SetOpts, Parsed, ok, threw, set_opts}

pub data Handle : Type 0 where
  poll : Handle
  stream : Handle

-- What JavaScript, libuv or the kernel is asked for. `Value` is the type of JavaScript values.
pub data Event (Value : Type 0) : Type 0 where
  throw_error : String → Event Value
  throw_oversized : ℕ → ℕ → Event Value
  poll_start : ℤ → Event Value
  poll_stop : Event Value
  uv_close : Handle → Event Value
  close_socket : ℤ → Event Value
  tcp_open : ℤ → Event Value
  read_start : Event Value
  read_stop : Event Value
  uv_write : List ℕ → Option Value → Event Value
  emit : String → Event Value
  emit_error : Option String → String → Event Value
  emit_data : List ℕ → Event Value
  call_connected : Value → Event Value
  call_failed : Value → String → String → Event Value
  call_written : Value → Option String → Event Value
  delete_handle : Handle → Event Value
  delete_request : Event Value

-- A `Central`. The two addresses, which only a trace message reads, are left out.
pub record Central (Value : Type 0) : Type 0 where
  pub sock : ℤ
  pub cid : ℕ
  pub mtu : ℕ
  pub has_poll_handle : Bool
  pub has_tcp : Bool
  pub connection_callback : Option Value

-- What a method comes to: a return with its events, or a C++ exception with an `errno`.
pub data Result (Value : Type 0) : Type 0 where
  returns : Central Value → List (Event Value) → Result Value
  raises : Central Value → ℕ → Result Value

module _ {Value : Type 0} where
  pub init : Central Value
  init = record {
    sock = negsuc 0;
    cid = 0;
    mtu = 0;
    has_poll_handle = false;
    has_tcp = false;
    connection_callback = none;
  }

  unfoldable pub get_mtu : Central Value → ℕ
  get_mtu c = c.mtu

  -- `Central::close`
  unfoldable pub close : Central Value → List (Event Value)
  close c =
      (if c.has_tcp then uv_close stream ∷ [] else [])
      ++ (if c.has_poll_handle then uv_close poll ∷ [] else [])

  -- `Central::onClose`
  unfoldable pub on_close : Central Value → Handle → Central Value × List (Event Value)
  on_close c stream =
      if c.has_tcp
      then (record c { has_tcp = false }, delete_handle stream ∷ emit "close" ∷ [])
      else (c, [])
  on_close c poll =
      if c.has_poll_handle
      then (record c { has_poll_handle = false }, delete_handle poll ∷ [])
      else (c, [])

  -- The event or the call that a connection, or a failure of one, ends in.
  connected : Option Value → Event Value
  connected none = emit "connect"
  connected (some callback) = call_connected callback

  failed : Option Value → String → String → Event Value
  failed none syscall message = emit_error (some syscall) message
  failed (some callback) syscall message = call_failed callback syscall message

  fail : Central Value → String → String → Central Value × List (Event Value)
  unfolding failed
  fail c syscall message = (
    record c { sock = negsuc 0 },
    close_socket c.sock ∷ failed c.connection_callback syscall message ∷ [],
  )

  -- `accept` returned `cli_sock`; `options` is what `bt_io_get` leaves in `cid` and `mtu`.
  accept_socket : Central Value → ℤ → ℕ × ℕ → String → Central Value × List (Event Value)
  unfolding connected fail
  accept_socket c cli_sock options message = if is_neg cli_sock then fail c "accept" message else (
    record c { sock = cli_sock; cid = options.0; mtu = options.1; has_tcp = true },
    close_socket c.sock ∷ tcp_open cli_sock ∷ read_start ∷ connected c.connection_callback ∷ [],
  )

  connect_socket : Central Value → ℤ → ℤ → ℕ × ℕ → String → Central Value × List (Event Value)
  unfolding accept_socket fail
  connect_socket c (pos zero) cli_sock options message = accept_socket c cli_sock options message
  connect_socket c (pos (suc n)) cli_sock options message = fail c "connect" message
  connect_socket c (negsuc n) cli_sock options message = fail c "connect" message

  -- `Central::onConnect`; `message` is libuv's text for its last error.
  unfoldable pub on_connect :
      Central Value → ℤ → ℤ → ℕ × ℕ → String → Central Value × List (Event Value)
  unfolding connect_socket
  on_connect c status cli_sock options message =
      let (c, events) = connect_socket c status cli_sock options message in
      (c, poll_stop ∷ uv_close poll ∷ events)

  -- `Central::onRead` of `nread` bytes at the start of `base`. `is_reset` is whether libuv's last
  -- error is UV_ECONNRESET.
  unfoldable pub on_read : Central Value → ℤ → List ℕ → Bool → String → List (Event Value)
  unfolding close
  on_read c (negsuc n) base is_reset message =
      read_stop
      ∷ (if is_reset then emit "remoteClose" ∷ close c else emit_error (some "read") message ∷ [])
  on_read c (pos zero) base is_reset message = []
  on_read c (pos (suc n)) base is_reset message = emit_data (take (suc n) base) ∷ []

  -- `Central::write`: without a `WriteData` it makes one with no callback. The stream must be there.
  unfoldable pub write_bytes :
      Central Value → List ℕ → Option (Option Value) → Outcome (List (Event Value))
  write_bytes c content none = if c.has_tcp then done (uv_write content none ∷ []) else fault
  write_bytes c content (some callback) =
      if c.has_tcp then done (uv_write content callback ∷ []) else fault

  report_write : Option Value → ℤ → String → List (Event Value)
  report_write callback status message =
      if is_neg status
      then elim callback [
        | none ↦ emit_error none message ∷ []
        | some k ↦ call_written k (some message) ∷ []
      ]
      else elim callback [ none ↦ [] | some k ↦ call_written k none ∷ [] ]

  -- `Central::onWrite`
  unfoldable pub on_write : Option Value → ℤ → String → List (Event Value)
  unfolding report_write
  on_write callback status message =
      elim callback [ none ↦ report_write none status message | some k ↦ [] ]
      ++ (delete_request ∷ [])

module _ {Value : Type 0} (js : Js Value) where
  -- `Central::SetMTU`. A `size_t` has 64 bits.
  unfoldable pub set_mtu : Central Value → List Value → Central Value × List (Event Value)
  set_mtu c [] = (c, throw_error "No argument provided" ∷ [])
  set_mtu c (value ∷ rest) =
      if js.is_number value
      then (record c { mtu = wrap (2 ^ 64) (js.integer_of value) }, [])
      else (c, throw_error "Argument must be a number" ∷ [])

  write_data : Central Value → List ℕ → Option Value → Outcome (List (Event Value))
  unfolding write_bytes
  write_data c content callback =
      let written = write_bytes c content (some callback) in
      if ltb c.mtu (length content)
      then (do events ← written; done (throw_oversized (length content) c.mtu ∷ events))
      else written

  write_buffer : Central Value → Value → List Value → Outcome (List (Event Value))
  unfolding write_data
  write_buffer c value [] = write_data c (js.buffer_data value) none
  write_buffer c value (callback ∷ rest) =
      if js.is_function callback
      then write_data c (js.buffer_data value) (some callback)
      else done (throw_error "Second argument must be a callback" ∷ [])

  -- `Central::Write`: an exception for the MTU is thrown, and the data is written all the same.
  unfoldable pub write : Central Value → List Value → Outcome (List (Event Value))
  unfolding write_buffer
  write c [] = done (throw_error "Wrong number of arguments" ∷ [])
  write c (value ∷ rest) =
      if js.is_buffer value
      then write_buffer c value rest
      else done (throw_error "First argument must be a Buffer" ∷ [])

-- What `listen` calls: the properties of an object, and `bt_io_listen` with its `errno`.
pub record Listening (Value : Type 0) : Type 0 where
  pub bluetooth : Bluetooth
  pub properties : Value → String → Option Value
  pub bt_io_listen : SetOpts → ℤ
  pub errno : ℕ

module _ {Value : Type 0} (js : Js Value) (l : Listening Value) where
  open_listener : Central Value → ℤ → Result Value
  open_listener c (negsuc zero) = raises (record c { sock = negsuc 0 }) l.errno
  open_listener c sock =
      returns (record c { sock = sock; has_poll_handle = true }) (poll_start sock ∷ [])

  listen_with : Central Value → (String → Option Value) → Result Value
  unfolding open_listener
  listen_with c options = elim (set_opts js l.bluetooth options) [
    | ok opts ↦ open_listener c (l.bt_io_listen opts)
    | threw message ↦ returns c (throw_error message ∷ [])
  ]

  listen_options : Central Value → Value → List Value → Result Value
  unfolding listen_with
  listen_options c value [] = listen_with c (l.properties value)
  listen_options c value (callback ∷ rest) =
      if js.is_function callback
      then listen_with (record c { connection_callback = some callback }) (l.properties value)
      else returns c (throw_error "Second argument must be a callback" ∷ [])

  -- `Central::Listen`. Without an argument `setOpts` follows an empty handle.
  unfoldable pub listen : Central Value → List Value → Outcome (Result Value)
  unfolding listen_with listen_options
  listen c [] = fault
  listen c (value ∷ rest) =
      if js.is_function value
      then done (listen_with (record c { connection_callback = some value }) (λ _. none))
      else (if js.is_object value
          then done (listen_options c value rest)
          else done (
              returns c
                (throw_error "First argument must be either listen options or a callback" ∷ [])))
