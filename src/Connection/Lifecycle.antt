-- ===== src/Connection/Lifecycle.antt =====
-- A connection from `connect` to the close callback.
use btle_js.Prelude.{
  ℕ, ◌≡◌, ◌≢◌, Outcome, done, deref, ◌>>=◌, List, [], ◌∷◌, ◌++◌, none, some, ℤ, pos, arith,
}
use btle_js.Connection.{
  Connection, Event, ConnectData, CloseData, returns, throws, call_connect, call_write, call_close,
  call_read, connect, on_connect, close, on_close_poll, on_close_tcp,
}

-- The callbacks that a run makes, in order.
abbrev pub calls : List Event → List Event
calls [] = []
calls (call_connect cb d status e ∷ r) = call_connect cb d status e ∷ calls r
calls (call_write cb d message ∷ r) = call_write cb d message ∷ calls r
calls (call_close cb d ∷ r) = call_close cb d ∷ calls r
calls (call_read cb d buf n message ∷ r) = call_read cb d buf n message ∷ calls r
calls (_ ∷ r) = calls r

-- libuv's close callbacks once both handles are closed: that of the poll handle, which
-- `onConnect` closes, and that of the TCP handle, if there is one.
finish : Connection → Outcome (List Event)
finish c = do
  handle ← deref c.poll_handle
  polled ← on_close_poll handle
  closed ← elim c.tcp [ none ↦ done [] | some data_ptr ↦ on_close_tcp data_ptr ]
  done (polled ++ closed)

-- What the outside brings to a session: the descriptor, libuv's report on it, `bt_io_get`'s answer.
pub record World : Type 0 where
  pub sock : ℕ
  pub status : ℤ
  pub events : ℕ
  pub options : ℕ × ℕ

-- Connect, let libuv report, close, and let libuv close the handles.
pub session : Connection → World → ConnectData → CloseData → Outcome (List Event)
unfolding finish
session c w cd closed = elim (connect c (pos w.sock) 0 cd.callback cd.data_ptr) [
  | throws _ _ ↦ done []
  | returns c started ↦ do
    (c, opened) ← on_connect c w.status w.events (pos w.sock) w.options
    let (c, closes) = close c closed.callback closed.data_ptr
    last ← finish c
    done (started ++ (opened ++ (closes ++ last)))
]

abbrev pub callbacks : Outcome (List Event) → Outcome (List Event)
callbacks run = run >>= λ trace. done (calls trace)

module _ (c : Connection) (w : World) (cd : ConnectData) (k d : ℕ) where
  -- When libuv reports status 0 for a connection that `connect` began, `close` and the end of both
  -- handles follow: the connect callback is called once, then the close callback once, each with
  -- its data, and no other callback is.
  pub session_opened :
      w.status ≡ pos 0
      → callbacks (session c w cd (record { callback = some k; data_ptr = d }))
        ≡ done (call_connect cd.callback cd.data_ptr (pos 0) w.events ∷ call_close k d ∷ [])
  unfolding session connect on_connect close on_close_poll on_close_tcp
  session_opened e = ground arith

  -- When libuv reports another status, and no TCP handle is left from an earlier connection, the
  -- connect callback is called with that status, and the close callback that is given to `close` is
  -- never called.
  pub session_failed :
      w.status ≢ pos 0
      → c.tcp ≡ none
      → callbacks (session c w cd (record { callback = some k; data_ptr = d }))
        ≡ done (call_connect cd.callback cd.data_ptr w.status w.events ∷ [])
  unfolding session connect on_connect close on_close_poll on_close_tcp
  session_failed e t = ground arith
