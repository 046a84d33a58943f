-- ===== src/Discovery/Steps.antt =====
-- One read of the connection, up to JavaScript.
use btle_js.Prelude.{ℕ, ◌≡◌, refl, done, fault, List, [], ◌∷◌, ◌++◌, map, none, some, pos, arith}
use btle_js.Parse.{AttributeInfo}
use btle_js.Connection.{delete_buffer, call_read, uv_write, WriteData, reading}
use btle_js.Connection
use btle_js.Att.State.{Att, ReadData, attributes, call_list, delete_request, on_connection, Message}
use btle_js.Att.State
use btle_js.Att.Read.{handle_read}
use btle_js.Att.Collect.{Packet}
use btle_js.Peripheral.State.{
  Peripheral, CallbackData, Event, World, null, array, call, delete_data, on_att, on_link, free,
  fn_att_read, fn_find_information,
}
use btle_js.Peripheral.Replies.{get_attribute_info, handle_list}
use btle_js.Peripheral.Dispatch.{
  after, att_events, att_event, link_events, link_event, info_list, call_list_callback,
}
use btle_js.Peripheral.Connect.{read}

-- The connection is open, and its reads go to the `Att`.
pub record IsOpen (c : Connection.Connection) : Type 0 where
  pub streams : c.tcp ≡ some reading
  pub listens : c.read_cb ≡ some fn_att_read

-- A list callback for `findInformation` without a list.
pub null_list :
    {Value : Type 0} (w : World Value) (p : Peripheral Value) (b : Att) (rd : ReadData) (d : ℕ)
    → after w p
        (done (b, delete_request rd ∷ call_list fn_find_information 0 d State.null none ∷ []))
      ≡ fault
unfolding after att_events att_event call_list_callback info_list handle_list
null_list w p b rd d = ground arith

module _ {Value : Type 0} (w : World Value) (p : Peripheral Value) (a b : Att) (packet : Packet)
    (at : p.att ≡ some a) (is_open : IsOpen a.connection) where
  abbrev got : Event Value
  got = on_link (delete_buffer (some packet.buffer))

  on_read_lem :
      Connection.on_read a.connection reading (pos packet.nread) (some packet.buffer) w.message
      ≡ done (
          call_read fn_att_read a.connection.read_data (some packet.buffer) (pos packet.nread) none
          ∷ delete_buffer (some packet.buffer)
          ∷ [])
  unfolding Connection.on_read
  on_read_lem = rw is_open.listens refl

  linked :
      (p' : Peripheral Value) (events : List (Event Value))
      → after w p (handle_read w.host a (some packet.buffer) packet.nread none) ≡ done (p', events)
      → link_events w p (
          call_read fn_att_read a.connection.read_data (some packet.buffer) (pos packet.nread) none
          ∷ delete_buffer (some packet.buffer)
          ∷ [])
        ≡ done (p', events ++ (got ∷ []))
  unfolding link_events
  linked p' events e = ground arith

  pub read_lem :
      (p' : Peripheral Value) (events : List (Event Value))
      → after w p (handle_read w.host a (some packet.buffer) packet.nread none) ≡ done (p', events)
      → read w p (pos packet.nread) (some packet.buffer) ≡ done (p', events ++ (got ∷ []))
  unfolding read
  read_lem p' events e = ground (arith, on_read_lem, linked p' events e)

  pub read_fault :
      after w p (handle_read w.host a (some packet.buffer) packet.nread none) ≡ fault
      → read w p (pos packet.nread) (some packet.buffer) ≡ fault
  unfolding read link_events link_event
  read_fault e = ground (arith, on_read_lem)

  -- A response that makes the client send one more PDU.
  pub read_more :
      {bytes : List ℕ} {wd : WriteData}
      → handle_read w.host a (some packet.buffer) packet.nread none
        ≡ done (b, on_connection (uv_write a.connection.tcp bytes wd) ∷ [])
      → read w p (pos packet.nread) (some packet.buffer)
        ≡ done (
          record p { att = some b },
          on_att (on_connection (uv_write a.connection.tcp bytes wd)) ∷ got ∷ [],
        )
  unfolding after
  read_more {bytes} {wd} e =
      read_lem (record p { att = some b })
        (on_att (on_connection (uv_write a.connection.tcp bytes wd)) ∷ []) (rw e refl)

  -- A response that ends a `findInformation`.
  pub read_last :
      {rd : ReadData} {d : ℕ} {list : List AttributeInfo} {cd : CallbackData Value} {k : Value}
      → handle_read w.host a (some packet.buffer) packet.nread none
        ≡ done
            (b, delete_request rd ∷ call_list fn_find_information 0 d (attributes list) none ∷ [])
      → p.live d ≡ some cd
      → cd.callback ≡ some k
      → read w p (pos packet.nread) (some packet.buffer)
        ≡ done (
          free (record p { att = some b }) d,
          on_att (delete_request rd)
              ∷ call k (null ∷ array (map (get_attribute_info w) list) ∷ [])
              ∷ delete_data d
              ∷ got
              ∷ [],
        )
  unfolding after
  read_last {rd} {d} {list} {cd} {k} e l c =
      read_lem (free (record p { att = some b }) d)
        (on_att (delete_request rd)
          ∷ call k (null ∷ array (map (get_attribute_info w) list) ∷ [])
          ∷ delete_data d
          ∷ [])
        (rw e (ground arith))
