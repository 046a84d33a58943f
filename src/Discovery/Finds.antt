-- ===== src/Discovery/Finds.antt =====
-- What JavaScript gets of a `findInformation` with good arguments, against any device with a table.
use btle_js.Prelude.{
  ℕ, zero, suc, ◌≤◌, ◌<◌, ◌≡◌, ◌≢◌, refl, ap, sym, ◌∙◌, inl, inr, done, fault, List, [], ◌∷◌, map,
  length, length-append, none, some, true, arith,
}
use btle_js.Host.{HostLaws}
use btle_js.Wire.Encode.{range_header}
use btle_js.Parse.{AttributeInfo}
use btle_js.Connection.{buffer_size, uv_write, WriteData}
use btle_js.Att.State.{Att, ReadData, on_connection, on_find_info}
use btle_js.Att.Respond.{or_new}
use btle_js.Att.Request.{list_request}
use btle_js.Att.Collect.{Packet, items, ask}
use btle_js.Att.Session.{not_found_step, idle_start}
use btle_js.Peripheral.State.{
  seen, Peripheral, CallbackData, World, Event, null, array, call, on_att, free, alloc,
  fn_find_information, attribute_info,
}
use btle_js.Peripheral.Replies.{get_attribute_info}
use btle_js.Peripheral.Data.{handle_of-lt, alloc_live, free_live}
use btle_js.Peripheral.Methods.{find_information, handle_of, range_data, request, checked}
use btle_js.Peripheral.Dispatch.{after, att_events, att_event}
use btle_js.Discovery.{in_range, Serves, converse, discover}
use btle_js.Discovery.Complete.{converse_lem}
use btle_js.Discovery.Steps.{read_fault, null_list, IsOpen}

-- An open connection with room for a request, and a client with nothing to do.
pub record IsIdle {Value : Type 0} (p : Peripheral Value) (a : Att) : Type 0 where
  pub att : p.att ≡ some a
  pub is_open : IsOpen a.connection
  pub room : 5 ≤ buffer_size a.connection
  pub idle : a.current_request ≡ none
  pub unlisted : a.attribute_list ≡ none

-- The call passes every test of the method.
pub record IsCall {Value : Type 0} (w : World Value) (p : Peripheral Value) (a : Att)
    (s e k : Value) : Type 0 where
  pub ready : IsIdle p a
  pub ok_s : w.js.is_uint32 s ≡ true
  pub ok_e : w.js.is_uint32 e ≡ true
  pub ok_k : w.js.is_function k ≡ true

module _ {Value : Type 0} (w : World Value) (laws : HostLaws w.host) (respond : List ℕ → Packet)
    (p : Peripheral Value) (a : Att) (s e k : Value) (rest : List Value)
    (c : IsCall w p a s e k) where
  abbrev pub slot : ReadData
  slot = list_request on_find_info 4 5 p.next (handle_of w e) none fn_find_information

  abbrev pub asking : Att
  asking = record a { current_request = some slot }

  abbrev pub kept : CallbackData Value
  kept = range_data w s e k

  pub asked :
      (wd : WriteData) × (find_information w p (s ∷ e ∷ k ∷ rest)
        ≡ done (
          record (alloc p kept) { att = some asking },
          on_att (
                on_connection
                  (uv_write a.connection.tcp (range_header 4 (handle_of w s) (handle_of w e)) wd))
              ∷ [],
        ))
  unfolding find_information request checked after att_events att_event
  asked =
      let (wd, run) =
        ask w.host laws asking (handle_of w s) (handle_of w e) (handle_of-lt w s) (handle_of-lt w e)
          c.ready.room in
      (
        wd,
        rw
            (
              c.ok_s,
              c.ok_e,
              c.ok_k,
              c.ready.att,
              idle_start w.host a (handle_of w s) (handle_of w e) fn_find_information p.next
                  c.ready.idle,
              run,
            )
            refl,
      )

  pub begins :
      (fuel : ℕ) (p' : Peripheral Value) (events : List (Event Value))
      → converse w respond fuel
          (record (alloc p kept) { att = some asking })
          (range_header 4 (handle_of w s) (handle_of w e) ∷ [])
        ≡ done (p', events)
      → (all : List (Event Value)) × (discover w respond fuel p (s ∷ e ∷ k ∷ rest) ≡ done (p', all))
        × (seen all ≡ seen events)
  unfolding discover
  begins fuel p' events run =
      let (wd, start) = asked in
      (
        on_att (
              on_connection
                (uv_write a.connection.tcp (range_header 4 (handle_of w s) (handle_of w e)) wd))
            ∷ events,
        rw (start, run) refl,
        refl,
      )

  abbrev pub quiet : Att
  quiet = record asking { current_request = none; attribute_list = none }

  abbrev pub over : Peripheral Value
  over = free (record (alloc p kept) { att = some quiet }) p.next

  quiet_lem : quiet ≡ a
  quiet_lem i = record a {
    current_request = sym c.ready.idle i;
    attribute_list = sym c.ready.unlisted i;
  }

  pub over_att : over.att ≡ some a
  unfolding free
  over_att = ap some quiet_lem

  -- The device that answers.
  module _ (table : List AttributeInfo) (serves : Serves w.host table respond) where
    abbrev wanted : List AttributeInfo
    wanted = in_range (handle_of w s) (handle_of w e) table

    -- On a host that obeys the laws of libbluetooth, over an open connection with a buffer of at
    -- least 5 bytes, for a client with no outstanding request and no cached attributes: let
    -- JavaScript call `findInformation` with two unsigned numbers, which are taken as handles of 16
    -- bits, and a function, and let any device answer that has a sorted table of 16-bit attributes
    -- and puts as many of the first attributes of the range that is left into each response as it
    -- likes, one at least. When attributes of the table lie in the range, and with fuel for one
    -- answer more than there are, the conversation ends; the function is called once, with null and
    -- exactly those attributes in order; nothing else reaches JavaScript; the client is what it
    -- was, and the callback data is deleted.
    pub discover_finds :
        (fuel : ℕ)
        → wanted ≢ []
        → length wanted < fuel
        → (p' : Peripheral Value) × (events : List (Event Value)) × (discover w respond fuel p
              (s ∷ e ∷ k ∷ rest)
            ≡ done (p', events))
          × (p'.att ≡ some a)
          × (p'.live p.next ≡ none)
          × (seen events
              ≡ call k (
                  null
                  ∷ array (map (λ x. attribute_info x.handle (w.uuid_text x.type)) wanted)
                  ∷ [])
                ∷ [])
    unfolding get_attribute_info
    discover_finds fuel nonempty enough =
        let (events, run, saw) =
          converse_lem w laws table respond serves slot kept k refl refl refl (handle_of-lt w e)
            refl fuel (handle_of w s) (record (alloc p kept) { att = some asking }) asking [] refl
            refl (ap or_new c.ready.unlisted) c.ready.is_open c.ready.room (alloc_live p kept)
            (handle_of-lt w s) (λ empty. absurd (nonempty empty)) enough in
        let (all, went, same) = begins fuel over events run in
        (over, all, went, over_att, free_live _ p.next, same ∙ saw)

    -- On a host that obeys the laws of libbluetooth, over an open connection with a buffer of at
    -- least 5 bytes, for a client with no outstanding request and no cached attributes, and against
    -- any device that serves a sorted table of 16-bit attributes: when `findInformation` is called
    -- with two unsigned numbers and a function, no attribute of the table lies in the range, and
    -- there is fuel for one answer, the conversation faults.
    pub discover_empty :
        (fuel : ℕ) → wanted ≡ [] → 0 < fuel → discover w respond fuel p (s ∷ e ∷ k ∷ rest) ≡ fault
    unfolding discover converse
    discover_empty zero empty h = absurd (omega arith)
    discover_empty (suc fuel) empty h =
        let (wd, start) = asked in
        elim (serves.answer (handle_of w s) (handle_of w e) (handle_of-lt w s) (handle_of-lt w e)) [
          | inl (_, lo, hi, slack, answered) ↦
              let run =
                not_found_step w.host asking slot fn_find_information lo hi slack refl refl refl
                  refl in
              rw
                (
                  start,
                  read_fault w (record (alloc p kept) { att = some asking }) asking asking
                      (respond (range_header 4 (handle_of w s) (handle_of w e))) refl
                      c.ready.is_open
                      (rw (answered, run, c.ready.unlisted) (null_list w _ _ slot p.next)),
                )
                refl
          | inr (page, rest, splits, answered) ↦ absurd (
              omega (
                arith,
                ap length empty,
                ap length splits,
                length-append (items page) rest,
                length-append page.front (page.last ∷ []),
              ))
        ]
