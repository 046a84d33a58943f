-- ===== src/Central/Outcomes.antt =====
-- What a program sees of a listening socket, from `listen` to the close of the connection.
use btle_js.Prelude.{
  ℕ, zero, ◌≡◌, ◌^◌, ◌%◌, refl, done, List, [], ◌∷◌, ◌++◌, Option, none, some, String, Bool, true,
  false, if◌then◌else◌, ℤ, pos, negsuc, length, arith, ltb, Bool-cases, inl, inr, ◌⊎◌,
}
use btle_js.Js.{Js}
use btle_js.Central.{
  Central, Event, Handle, Listening, poll, stream, throw_error, throw_oversized, close_socket,
  uv_write, uv_close, emit, emit_error, emit_data, call_connected, call_failed, call_written,
  on_connect, on_close, on_read, on_write, close, set_mtu, get_mtu, write, write_bytes, listen,
  returns,
}

module _ {Value : Type 0} where
  -- The descriptors that a run closes.
  abbrev pub closed : List (Event Value) → List ℤ
  closed [] = []
  closed (close_socket sock ∷ r) = sock ∷ closed r
  closed (_ ∷ r) = closed r

  -- What JavaScript sees of a run: its events and the calls of its functions.
  abbrev pub seen : List (Event Value) → List (Event Value)
  seen [] = []
  seen (emit name ∷ r) = emit name ∷ seen r
  seen (emit_error syscall message ∷ r) = emit_error syscall message ∷ seen r
  seen (emit_data content ∷ r) = emit_data content ∷ seen r
  seen (call_connected k ∷ r) = call_connected k ∷ seen r
  seen (call_failed k syscall message ∷ r) = call_failed k syscall message ∷ seen r
  seen (call_written k message ∷ r) = call_written k message ∷ seen r
  seen (_ ∷ r) = seen r

  -- Exactly one notice: of the connection when the status is 0 and `accept` gave a descriptor, of
  -- the failure else.
  abbrev pub notice : Option Value → ℤ → ℤ → String → Event Value
  notice none (pos zero) (pos n) message = emit "connect"
  notice (some k) (pos zero) (pos n) message = call_connected k
  notice none (pos zero) (negsuc n) message = emit_error (some "accept") message
  notice (some k) (pos zero) (negsuc n) message = call_failed k "accept" message
  notice none status cli_sock message = emit_error (some "connect") message
  notice (some k) status cli_sock message = call_failed k "connect" message

  -- A connection attempt, whatever its status and whatever `accept` returns, closes the listening
  -- socket and no other, and JavaScript sees exactly one notice of it: of the connection when the
  -- status is 0 and `accept` gave a descriptor, of the failure otherwise.
  pub on_connect-notice :
      (c : Central Value) (status cli_sock : ℤ) (options : ℕ × ℕ) (message : String)
      → (closed (on_connect c status cli_sock options message).1 ≡ c.sock ∷ [])
        × (seen (on_connect c status cli_sock options message).1
            ≡ notice c.connection_callback status cli_sock message ∷ [])
  unfolding on_connect
  on_connect-notice c status cli_sock options message = ground arith

  -- The handles that a run asks libuv to close.
  abbrev pub handles : List (Event Value) → List Handle
  handles [] = []
  handles (uv_close h ∷ r) = h ∷ handles r
  handles (_ ∷ r) = handles r

  -- A connection that is accepted, the close of the poll handle, then the end of the connection, by
  -- a reset or by `close`, and the close of the stream.
  pub serve : Central Value → ℕ → ℕ × ℕ → Bool → Central Value × List (Event Value)
  serve c cli_sock options is_reset =
      let (c, opened) = on_connect c (pos 0) (pos cli_sock) options "" in
      let (c, polled) = on_close c poll in
      let ending = if is_reset then on_read c (negsuc 0) [] true "" else close c in
      let (c, ended) = on_close c stream in (c, opened ++ (polled ++ (ending ++ ended)))

  -- The other order: the connection ends before libuv has closed the poll handle, as when the
  -- function that is told of the connection calls `close`.
  pub serve_early : Central Value → ℕ → ℕ × ℕ → Bool → List (Event Value)
  serve_early c cli_sock options is_reset =
      let (c, opened) = on_connect c (pos 0) (pos cli_sock) options "" in
      opened ++ (if is_reset then on_read c (negsuc 0) [] true "" else close c)

  serve_lem :
      (c : Central Value) (n : ℕ) (options : ℕ × ℕ) (is_reset : Bool)
      → c.has_poll_handle ≡ true
      → ((serve c n options is_reset).0.has_poll_handle ≡ false)
        × ((serve c n options is_reset).0.has_tcp ≡ false)
        × (handles (serve c n options is_reset).1 ≡ poll ∷ stream ∷ [])
        × (seen (serve c n options is_reset).1
            ≡ notice c.connection_callback (pos 0) (pos n) ""
              ∷ (if is_reset then emit "remoteClose" ∷ emit "close" ∷ [] else emit "close" ∷ []))
  unfolding serve on_connect on_close on_read close
  serve_lem c n options is_reset h = ground arith

  serve_early_lem :
      (c : Central Value) (n : ℕ) (options : ℕ × ℕ) (is_reset : Bool)
      → c.has_poll_handle ≡ true
      → handles (serve_early c n options is_reset) ≡ poll ∷ stream ∷ poll ∷ []
  unfolding serve_early on_connect on_read close
  serve_early_lem c n options is_reset h = ground arith

  -- The buffers that libuv is asked to write.
  abbrev pub sent : List (Event Value) → List (List ℕ)
  sent [] = []
  sent (uv_write content callback ∷ r) = content ∷ sent r
  sent (_ ∷ r) = sent r

  -- The exceptions of a run: the text of one, or the length and the limit that another names.
  abbrev pub thrown : List (Event Value) → List (String ⊎ ℕ × ℕ)
  thrown [] = []
  thrown (throw_error message ∷ r) = inl message ∷ thrown r
  thrown (throw_oversized size limit ∷ r) = inr (size, limit) ∷ thrown r
  thrown (_ ∷ r) = thrown r

-- What is said of a size above a limit, and nothing else.
abbrev pub excess : ℕ → ℕ → List (String ⊎ ℕ × ℕ)
excess size limit = if ltb limit size then inr (size, limit) ∷ [] else []

module _ {Value : Type 0} (js : Js Value) where
  -- After `setMTU` of a number n that is no less than 0, `getMTU` answers n modulo 2^64. On an open
  -- stream, for a buffer of any length with a function after it or nothing, `write` then returns
  -- and has libuv write the whole buffer, once; it throws one exception, with the length and the
  -- MTU, when the buffer is longer than that, and none otherwise. So the MTU stops no write.
  pub set_mtu_unenforced :
      (c : Central Value) (number value : Value) (callback : Option Value) (n : ℕ)
      → js.is_number number ≡ true
      → js.integer_of number ≡ pos n
      → c.has_tcp ≡ true
      → js.is_buffer value ≡ true
      → ((k : Value) → callback ≡ some k → js.is_function k ≡ true)
      → let limit = n % 2 ^ 64 in
        let content = js.buffer_data value in
        let (after, noted) = set_mtu js c (number ∷ []) in
        (noted ≡ [])
        × (get_mtu after ≡ limit)
        × (events : List (Event Value)) × (write js after
              (value ∷ elim callback [ none ↦ [] | some k ↦ k ∷ [] ])
            ≡ done events)
        × (sent events ≡ content ∷ [])
        × (thrown events ≡ excess (length content) limit)
  unfolding set_mtu get_mtu write write_bytes
  set_mtu_unenforced c number value none n a e opened buffer f =
      elim (Bool-cases (ltb (n % 2 ^ 64) (length (js.buffer_data value)))) [
        | inl l ↦ rw (a, e, buffer, opened, l) (refl, refl, _, refl, refl, refl)
        | inr l ↦ rw (a, e, buffer, opened, l) (refl, refl, _, refl, refl, refl)
      ]
  set_mtu_unenforced c number value (some k) n a e opened buffer f =
      elim (Bool-cases (ltb (n % 2 ^ 64) (length (js.buffer_data value)))) [
        | inl l ↦ rw (a, e, buffer, opened, f k refl, l) (refl, refl, _, refl, refl, refl)
        | inr l ↦ rw (a, e, buffer, opened, f k refl, l) (refl, refl, _, refl, refl, refl)
      ]

  -- When `write` is given a second argument and returns, neither it nor libuv's report on the
  -- write, whatever the status, calls a JavaScript function or emits an event.
  pub write_silent :
      (c : Central Value) (value k : Value) (status : ℤ) (message : String)
      {events : List (Event Value)}
      → write js c (value ∷ k ∷ []) ≡ done events
      → seen (events ++ on_write (some k) status message) ≡ []
  unfolding write write_bytes on_write
  write_silent c value k status message e = ground arith

module _ {Value : Type 0} (js : Js Value) (l : Listening Value) where
  -- When `listen` is given a function first and starts to poll, a peer that connects is announced
  -- to that function; when libuv closes the poll handle next, the end of the connection, by a reset
  -- (emitted as "remoteClose") or by `close`, is emitted as "close", once, each handle is closed
  -- once, and none is left. When the connection ends in that way before libuv has closed the poll
  -- handle, libuv is asked to close that handle twice.
  pub served :
      (c : Central Value) (k : Value) (rest : List Value) (n : ℕ) (options : ℕ × ℕ)
      (is_reset : Bool) {listening : Central Value} {started : List (Event Value)}
      → js.is_function k ≡ true
      → listen js l c (k ∷ rest) ≡ done (returns listening started)
      → listening.has_poll_handle ≡ true
      → ((serve listening n options is_reset).0.has_poll_handle ≡ false)
        × ((serve listening n options is_reset).0.has_tcp ≡ false)
        × (handles (serve listening n options is_reset).1 ≡ poll ∷ stream ∷ [])
        × (handles (serve_early listening n options is_reset) ≡ poll ∷ stream ∷ poll ∷ [])
        × (seen (serve listening n options is_reset).1
            ≡ call_connected k
              ∷ (if is_reset then emit "remoteClose" ∷ emit "close" ∷ [] else emit "close" ∷ []))
  unfolding listen
  served c k rest n options is_reset {listening} f e h =
      let kept : listening.connection_callback ≡ some k = ground arith in
      ground (
        arith,
        serve_lem listening n options is_reset h,
        serve_early_lem listening n options is_reset h,
      )
