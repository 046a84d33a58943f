-- ===== src/Connection.antt =====
-- src/connection.cc: one socket under libuv. A call of libuv or of a callback is an event; pointers
-- to functions and to their data are numbers.
pub mod Lifecycle
use btle_js.Prelude.{
  ℕ, zero, suc, Outcome, done, fault, deref, ◌>>=◌, List, [], ◌∷◌, ◌++◌, Option, none, some, String,
  if◌then◌else◌, ◌==◌, ℤ, pos, negsuc, is_neg, Bool, true, false,
}
use btle_js.Host.{Host}
use btle_js.Wire.{contents}

pub record ConnectData : Type 0 where
  pub callback : ℕ
  pub data_ptr : ℕ

pub record WriteData : Type 0 where
  pub callback : Option ℕ
  pub data_ptr : ℕ
  pub buffer : Option (List ℕ)

pub record CloseData : Type 0 where
  pub callback : Option ℕ
  pub data_ptr : ℕ

-- What the `data` member of the TCP handle points to: the connection, then the close data.
pub data TcpData : Type 0 where
  reading : TcpData
  closing : CloseData → TcpData

pub record Connection : Type 0 where
  pub sock : ℤ
  pub tcp : Option TcpData
  pub poll_handle : Option (Option ConnectData)
  pub imtu : ℕ
  pub cid : ℕ
  pub read_cb : Option ℕ
  pub read_data : ℕ

pub data Event : Type 0 where
  poll_start : ℤ → Event
  poll_stop : Event
  close_poll : Event
  close_tcp : Event
  tcp_open : ℤ → Event
  read_start : Event
  uv_write : Option TcpData → List ℕ → WriteData → Event
  delete_buffer : Option (List ℕ) → Event
  call_connect : ℕ → ℕ → ℤ → ℕ → Event
  call_write : ℕ → ℕ → Option String → Event
  call_close : ℕ → ℕ → Event
  call_read : ℕ → ℕ → Option (List ℕ) → ℤ → Option String → Event

pub data Connected : Type 0 where
  throws : Connection → ℕ → Connected
  returns : Connection → List Event → Connected

unfoldable pub init : Connection
init = record {
  sock = pos 0;
  tcp = none;
  poll_handle = none;
  imtu = 0;
  cid = 0;
  read_cb = none;
  read_data = 0;
}

-- `Connection::connect`: `sock` is what `bt_io_connect` returned, and `errno` is left by it.
unfoldable pub connect : Connection → ℤ → ℕ → ℕ → ℕ → Connected
connect c (negsuc zero) errno callback data_ptr = throws (record c { sock = negsuc 0 }) errno
connect c sock errno callback data_ptr =
    returns
      (record c {
        sock = sock;
        poll_handle = some (some (record { callback = callback; data_ptr = data_ptr }));
      })
      (poll_start sock ∷ [])

-- `Connection::registerReadCallback`
unfoldable pub register_read_callback : Connection → ℕ → ℕ → Connection
register_read_callback c callback data_ptr = record c {
  read_cb = some callback;
  read_data = data_ptr;
}

abbrev pub att_cid : ℕ
att_cid = 4

abbrev pub att_default_le_mtu : ℕ
att_default_le_mtu = 23

-- `Connection::getBuffer`: fresh memory and its size.
unfoldable pub buffer_size : Connection → ℕ
buffer_size c = if c.cid == att_cid then att_default_le_mtu else c.imtu

unfoldable pub get_buffer : Host → Connection → Option (List ℕ) × ℕ
unfolding buffer_size
get_buffer h c = (some (h.new_bytes (buffer_size c)), buffer_size c)

-- `Connection::write` of the first `len` bytes at `base`.
unfoldable pub write : Connection → Option (List ℕ) → ℕ → Option ℕ → ℕ → Event
write c base len callback data_ptr =
    uv_write c.tcp (contents base len)
      (record { callback = callback; data_ptr = data_ptr; buffer = base })

-- `Connection::close`
unfoldable pub close : Connection → Option ℕ → ℕ → Connection × List Event
close c callback data_ptr = elim c.tcp [
  | none ↦ (c, [])
  | some _ ↦ (
    record c { tcp = some (closing (record { callback = callback; data_ptr = data_ptr })) },
    close_tcp ∷ [],
  )
]

-- `Connection::onWrite`; `message` is libuv's text for its last error.
unfoldable pub on_write : WriteData → ℤ → String → List Event
on_write wd status message = elim wd.callback [
  | none ↦ delete_buffer wd.buffer ∷ []
  | some callback ↦
      call_write callback wd.data_ptr (if is_neg status then some message else none)
      ∷ delete_buffer wd.buffer
      ∷ []
]

call_close_callback : Option CloseData → List Event
call_close_callback none = []
call_close_callback (some cd) = elim cd.callback [
  | none ↦ []
  | some callback ↦ call_close callback cd.data_ptr ∷ []
]

-- `Connection::onClose` of the poll handle, whose `data` is a `connectData` or NULL, and of the TCP
-- handle. The code takes either for a `closeData`: another object there is a fault.
unfoldable pub on_close_poll : Option ConnectData → Outcome (List Event)
unfolding call_close_callback
on_close_poll none = done (call_close_callback none)
on_close_poll (some cd) = fault

unfoldable pub on_close_tcp : TcpData → Outcome (List Event)
unfolding call_close_callback
on_close_tcp (closing cd) = done (call_close_callback (some cd))
on_close_tcp reading = fault

call_read_callback : Connection → Option ℕ → ℤ → Option (List ℕ) → String → List Event
call_read_callback c none nread buf message = []
call_read_callback c (some callback) nread buf message =
    if is_neg nread
    then call_read callback c.read_data none nread (some message) ∷ []
    else call_read callback c.read_data buf nread none ∷ []

-- `Connection::onRead`; the stream's `data` is taken for the connection.
unfoldable pub on_read : Connection → TcpData → ℤ → Option (List ℕ) → String → Outcome (List Event)
unfolding call_read_callback
on_read c reading nread buf message =
    done (call_read_callback c c.read_cb nread buf message ++ (delete_buffer buf ∷ []))
on_read c (closing cd) nread buf message = fault

-- The socket's MTU and channel, which `bt_io_get` may write.
abbrev start_reading : Connection → ℤ → ℕ × ℕ → Connection × List Event
start_reading c fd options = (
  record c { imtu = options.0; cid = options.1; tcp = some reading },
  tcp_open fd ∷ read_start ∷ [],
)

open_socket : Connection → ℤ → ℤ → ℕ × ℕ → Connection × List Event
open_socket c (pos zero) fd options = start_reading c fd options
open_socket c status fd options = (c, [])

-- `Connection::onConnect`: the poll handle's `data` is cleared before it is closed. `options` is
-- what `bt_io_get` leaves in `imtu` and `cid`.
unfoldable pub on_connect : Connection → ℤ → ℕ → ℤ → ℕ × ℕ → Outcome (Connection × List Event)
unfolding open_socket
on_connect c status events fd options = do
  handle ← deref c.poll_handle
  cd ← deref handle
  let (opened, started) = open_socket (record c { poll_handle = some none }) status fd options
  let called = call_connect cd.callback cd.data_ptr status events ∷ []
  done (opened, (poll_stop ∷ close_poll ∷ []) ++ (started ++ called))
