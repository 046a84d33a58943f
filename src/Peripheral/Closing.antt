-- ===== src/Peripheral/Closing.antt =====
-- The end of a connection: `Close`, then libuv's report.
use btle_js.Prelude.{Outcome, done, ◌>>=◌, List, ◌++◌, some}
use btle_js.Connection.{CloseData, closing, close_tcp}
use btle_js.Connection
use btle_js.Att.State.{Att}
use btle_js.Att.Request
use btle_js.Peripheral.State.{Peripheral, World, Event, fn_close, this, seen}
use btle_js.Peripheral.Methods.{close}
use btle_js.Peripheral.Connect.{closed}

module _ {Value : Type 0} (w : World Value) where
  -- `Close`, and what libuv reports when the stream is closed, with what `Connection` registered.
  unfoldable pub close_run : Peripheral Value → List Value → Outcome (List (Event Value))
  unfolding close closed
  close_run p args = do
    (p, events) ← close w p args
    (p, more) ← closed w p (record { callback = some fn_close; data_ptr = this })
    done (seen (events ++ more))
