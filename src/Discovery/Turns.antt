-- ===== src/Discovery/Turns.antt =====
-- One turn of a conversation over `findInformation`.
use btle_js.Prelude.{ℕ, suc, ◌≡◌, refl, done, stuck, List, [], ◌∷◌, map, none, some}
use btle_js.Parse.{AttributeInfo}
use btle_js.Connection.{uv_write, delete_buffer, WriteData}
use btle_js.Att.State.{Att, ReadData, on_connection, delete_request, call_list, attributes}
use btle_js.Att.Read.{handle_read}
use btle_js.Att.Collect.{Packet}
use btle_js.Peripheral.State.{
  seen, Peripheral, CallbackData, World, Event, null, array, call, delete_data, on_att, on_link,
  free, fn_find_information,
}
use btle_js.Peripheral.Replies.{get_attribute_info}
use btle_js.Discovery.{converse}
use btle_js.Discovery.Steps.{IsOpen, read_more, read_last}

module _ {Value : Type 0} (w : World Value) (respond : List ℕ → Packet) (rd : ReadData)
    (cd : CallbackData Value) (k : Value) (calls : cd.callback ≡ some k) where
  abbrev pub finished : Peripheral Value → Att → Peripheral Value
  finished p a =
      free (record p { att = some (record a { current_request = none; attribute_list = none }) })
        rd.data_ptr

  abbrev pub told : List AttributeInfo → Event Value
  told list = call k (null ∷ array (map (get_attribute_info w) list) ∷ [])

  -- A response that ends the request.
  pub ends :
      (fuel : ℕ) (p : Peripheral Value) (a : Att) (pdu : List ℕ) (list : List AttributeInfo)
      → p.att ≡ some a
      → IsOpen a.connection
      → p.live rd.data_ptr ≡ some cd
      → handle_read w.host a (some (respond pdu).buffer) (respond pdu).nread none
        ≡ done (
          record a { current_request = none; attribute_list = none },
          delete_request rd
              ∷ call_list fn_find_information 0 rd.data_ptr (attributes list) none
              ∷ [],
        )
      → (events : List (Event Value)) × (converse w respond (suc fuel) p (pdu ∷ [])
          ≡ done (finished p a, events))
        × (seen events ≡ told list ∷ [])
  unfolding converse
  ends fuel p a pdu list at is_open live e =
      let b = record a { current_request = none; attribute_list = none } in
      (
        on_att (delete_request rd)
            ∷ told list
            ∷ delete_data rd.data_ptr
            ∷ on_link (delete_buffer (some (respond pdu).buffer))
            ∷ [],
        rw (read_last w p a b (respond pdu) at is_open e live calls) refl,
        refl,
      )

  -- A response that makes the client ask on.
  pub continues :
      (fuel : ℕ) (p q : Peripheral Value) (a b : Att) (pdu next : List ℕ) (wd : WriteData)
      (events : List (Event Value))
      → p.att ≡ some a
      → IsOpen a.connection
      → handle_read w.host a (some (respond pdu).buffer) (respond pdu).nread none
        ≡ done (b, on_connection (uv_write a.connection.tcp next wd) ∷ [])
      → converse w respond fuel (record p { att = some b }) (next ∷ []) ≡ done (q, events)
      → converse w respond (suc fuel) p (pdu ∷ [])
        ≡ done (
          q,
          on_att (on_connection (uv_write a.connection.tcp next wd))
              ∷ on_link (delete_buffer (some (respond pdu).buffer))
              ∷ events,
        )
  unfolding converse
  continues fuel p q a b pdu next wd events at is_open e run =
      rw (read_more w p a b (respond pdu) at is_open e, run) refl

  -- The same for a conversation that runs out of answers.
  pub continues_stuck :
      (fuel : ℕ) (p : Peripheral Value) (a b : Att) (pdu next : List ℕ) (wd : WriteData)
      → p.att ≡ some a
      → IsOpen a.connection
      → handle_read w.host a (some (respond pdu).buffer) (respond pdu).nread none
        ≡ done (b, on_connection (uv_write a.connection.tcp next wd) ∷ [])
      → converse w respond fuel (record p { att = some b }) (next ∷ []) ≡ stuck
      → converse w respond (suc fuel) p (pdu ∷ []) ≡ stuck
  unfolding converse
  continues_stuck fuel p a b pdu next wd at is_open e run =
      rw (read_more w p a b (respond pdu) at is_open e, run) refl
