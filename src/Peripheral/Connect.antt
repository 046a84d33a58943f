-- ===== src/Peripheral/Connect.antt =====
-- `Connect`, and what libuv reports of the connection afterwards.
use btle_js.Prelude.{
  ℕ, done, deref, ◌>>=◌, List, [], ◌∷◌, map, Option, none, some, String, not, ◌&&◌, if◌then◌else◌,
  ℤ,
}
use btle_js.Options.{SetOpts, ok, threw, set_opts_to}
use btle_js.Connection.{TcpData, WriteData, CloseData}
use btle_js.Connection
use btle_js.Att.State.{Att}
use btle_js.Att.State
use btle_js.Att.Request
use btle_js.Peripheral.State.{Peripheral, World, on_link, fn_connect, fn_error, fn_att_read, this}
use btle_js.Peripheral.Replies.{emit_error}
use btle_js.Peripheral.Dispatch.{Step, link_events}
use btle_js.Peripheral.Methods.{throws, checked}

module _ {Value : Type 0} (w : World Value) where
  -- `Att::connect`, and the handler of the exception of `Connection::connect`.
  open_att : Peripheral Value → Att → SetOpts → Step w
  unfolding emit_error
  open_att p a opts =
      elim (Connection.connect a.connection (w.bt_io_connect opts) w.errno fn_connect this) [
        | Connection.throws c errno ↦
            done (record p { att = some (record a { connection = c }) }, emit_error w ∷ [])
        | Connection.returns c events ↦
            done (record p { att = some (record a { connection = c }) }, map on_link events)
      ]

  connect_with : Peripheral Value → Value → (String → Option Value) → Value → Step w
  unfolding throws open_att set_opts_to
  connect_with p destination options callback =
      elim (set_opts_to w.js w.bluetooth (w.js.string_of destination) options) [
        | threw message ↦ throws w p message
        | ok opts ↦
            let a = Request.on_error (State.init fn_att_read this) fn_error this in
            open_att (record p { connection_callback = some callback }) a opts
      ]

  connect_options : Peripheral Value → Value → Value → List Value → Step w
  unfolding throws connect_with
  connect_options p destination options [] = throws w p "Wrong number of arguments"
  connect_options p destination options (callback ∷ rest) =
      if w.js.is_function callback
      then connect_with p destination (w.properties options) callback
      else throws w p "Third argument must be a callback"

  -- `Connect`
  unfoldable pub connect : Peripheral Value → List Value → Step w
  unfolding throws checked connect_with connect_options
  connect p (destination ∷ second ∷ rest) =
      checked w p ((w.js.is_string destination, "Destination object must be a string") ∷ []) (
        if w.js.is_object second && not (w.js.is_function second)
        then connect_options p destination second rest
        else (if w.js.is_function second
            then connect_with p destination (λ _. none) second
            else throws w p "Second argument must be either a callback or options"))
  connect p args = throws w p "Wrong number of arguments"

  -- libuv's report on the connection that `connect` began.
  unfoldable pub connected : Peripheral Value → ℤ → ℕ → ℤ → ℕ × ℕ → Step w
  unfolding link_events
  connected p status events fd options = do
    a ← deref p.att
    (c, done_events) ← Connection.on_connect a.connection status events fd options
    link_events w (record p { att = some (record a { connection = c }) }) done_events

  -- libuv's read of `nread` bytes into `buf`.
  unfoldable pub read : Peripheral Value → ℤ → Option (List ℕ) → Step w
  unfolding link_events
  read p nread buf = do
    a ← deref p.att
    stream ← deref a.connection.tcp
    events ← Connection.on_read a.connection stream nread buf w.message
    link_events w p events

  -- libuv's report on a write.
  unfoldable pub written : Peripheral Value → WriteData → ℤ → Step w
  unfolding link_events
  written p wd status = link_events w p (Connection.on_write wd status w.message)

  -- libuv's close of the stream.
  unfoldable pub closed : Peripheral Value → CloseData → Step w
  unfolding link_events
  closed p cd = do events ← Connection.on_close_tcp (Connection.closing cd); link_events w p events
