-- ===== src/Att/Collect.antt =====
-- A whole `findInformation`: the responses of a device, page after page, and the one callback.
use btle_js.Prelude.{
  ℕ, ◌+◌, ◌%◌, ◌≤◌, ◌<◌, ◌≡◌, refl, sym, ◌∙◌, List, [], ◌∷◌, ◌++◌, append_assoc, none, some,
  Outcome, drop, done, ◌>>=◌, pos, length, All, lt→ltb, ltb-false, get_last?, arith, sub_ℕ,
}
use btle_js.Host.{Host, HostLaws}
use btle_js.Wire.{encode_range}
use btle_js.Wire.Encode.{sent_lem, range_header}
use btle_js.Wire.Range.{encode_range-uuid}
use btle_js.Parse.{AttributeInfo, load_byte}
use btle_js.Parse.Loop.{printed}
use btle_js.Parse.RoundTrip.{attribute_print, IsShortInfo, parse_attribute_list-short}
use btle_js.Connection.{uv_write, WriteData, buffer_size, get_buffer, write}
use btle_js.Att.State.{
  Att, ReadData, ReadCallback, Event, attributes, on_connection, call_list, delete_request,
  on_find_info,
}
use btle_js.Att.Respond.{
  do_find_information, next_find_info, handle_find_info, finish_list, or_new, call_back,
  callback_current_request,
}
use btle_js.Att.Read.{handle_read, handle_response, byte_at}

-- The PDUs that were written, and the calls of the user's list callbacks.
abbrev pub wire : List Event → List (List ℕ)
wire [] = []
wire (on_connection (uv_write tcp bytes wd) ∷ r) = bytes ∷ wire r
wire (_ ∷ r) = wire r

abbrev pub list_calls : List Event → List Event
list_calls [] = []
list_calls (call_list k s d list error ∷ r) = call_list k s d list error ∷ list_calls r
list_calls (_ ∷ r) = list_calls r

-- One read of libuv: its buffer and the number of bytes that arrived.
pub record Packet : Type 0 where
  pub buffer : List ℕ
  pub nread : ℕ

unfoldable pub deliver : Host → Att → List Packet → Outcome (Att × List Event)
deliver h a [] = done (a, [])
deliver h a (p ∷ ps) = do
  (a, events) ← handle_read h a (some p.buffer) p.nread none
  (a, more) ← deliver h a ps
  done (a, events ++ more)

-- A page of a device's answer; it is never empty.
pub record Page : Type 0 where
  pub front : List AttributeInfo
  pub last : AttributeInfo
  pub slack : List ℕ

abbrev pub items : Page → List AttributeInfo
items p = p.front ++ (p.last ∷ [])

-- Find Information Response, 16-bit format.
abbrev pub page_packet : Host → Page → Packet
page_packet h p =
    let body = printed (attribute_print h) (items p) in
    record { buffer = 5 ∷ 1 ∷ (body ++ p.slack); nread = 2 + length body }

get_last?-append : (l : List AttributeInfo) (x : AttributeInfo) → get_last? (l ++ (x ∷ [])) ≡ some x
get_last?-append [] x = refl
get_last?-append (y ∷ []) x = refl
get_last?-append (y ∷ z ∷ r) x = get_last?-append (z ∷ r) x

last_item :
    (l front : List AttributeInfo) (x : AttributeInfo)
    → get_last? (l ++ (front ++ (x ∷ []))) ≡ some x
last_item l front x = rw (← append_assoc) (get_last?-append (l ++ front) x)

module _ (h : Host) (laws : HostLaws h) where
  -- A request for a range is one PDU.
  pub ask :
      (a : Att) (s e : ℕ)
      → s < 65536
      → e < 65536
      → 5 ≤ buffer_size a.connection
      → (wd : WriteData) × (do_find_information h a s e
          ≡ done (a, on_connection (uv_write a.connection.tcp (range_header 4 s e) wd) ∷ []))
  unfolding do_find_information get_buffer write
  ask a s e hs he room =
      let n = buffer_size a.connection in
      let bytes =
        encode_range-uuid h laws 4 s e none n (h.new_bytes n) hs he tt (omega arith)
          (sym (laws.new_bytes_length n)) in
      let (base, len, filled, pdu) =
        sent_lem (encode_range h 4 s e none (some (h.new_bytes n)) n none 0) bytes in
      (
        record { callback = none; data_ptr = 0; buffer = base },
        rw (filled, do_find_information, pdu),
      )

  -- A response goes to the handler that the outstanding request names.
  pub response_to :
      (a : Att) (rd : ReadData) (cb : ReadCallback) (opcode : ℕ) (buf : List ℕ) (nread : ℕ)
      → a.current_request ≡ some rd
      → rd.callback ≡ some cb
      → handle_response h a opcode buf nread
        ≡ call_back h a (some cb) 0 rd (some (drop 1 buf)) (sub_ℕ nread 1) none
  unfolding handle_response callback_current_request
  response_to a rd cb opcode buf nread busy named = ground arith

  -- A page on an idle list or on one that has begun.
  page_step :
      (a : Att) (rd : ReadData) (p : Page)
      → a.current_request ≡ some rd
      → rd.callback ≡ some on_find_info
      → All IsShortInfo (items p)
      → let packet = page_packet h p in
        let list = or_new a.attribute_list ++ items p in
        handle_read h a (some packet.buffer) packet.nread none
        ≡ next_find_info h (record a { attribute_list = some list }) rd 0 list none
  unfolding handle_read byte_at load_byte call_back handle_find_info
  page_step a rd p busy named good =
      let body = printed (attribute_print h) (items p) in
      let len : sub_ℕ (2 + length body) 1 ≡ pos (1 + length body) = ground arith in
      response_to a rd on_find_info 5 (page_packet h p).buffer (page_packet h p).nread busy named
      ∙ rw (len, parse_attribute_list-short h laws (or_new a.attribute_list) (items p) p.slack good)

  -- Before the end of the range: the list is kept and the rest is asked for.
  pub page_more :
      (a : Att) (rd : ReadData) (p : Page)
      → a.current_request ≡ some rd
      → rd.callback ≡ some on_find_info
      → rd.handle < 65536
      → 5 ≤ buffer_size a.connection
      → All IsShortInfo (items p)
      → p.last.handle < rd.handle
      → let packet = page_packet h p in
        (wd : WriteData) × (handle_read h a (some packet.buffer) packet.nread none
          ≡ done (
            record a { attribute_list = some (or_new a.attribute_list ++ items p) },
            on_connection
                  (uv_write a.connection.tcp (range_header 4 (p.last.handle + 1) rd.handle) wd)
                ∷ [],
          ))
  unfolding next_find_info
  page_more a rd p busy named he room good more =
      let list = or_new a.attribute_list ++ items p in
      let a' = record a { attribute_list = some list } in
      let start : (p.last.handle + 1) % 65536 ≡ p.last.handle + 1 = omega arith in
      let (wd, asked) = ask a' (p.last.handle + 1) rd.handle (omega arith) he room in
      (
        wd,
        page_step a rd p busy named good
            ∙ rw
                (
                  last_item (or_new a.attribute_list) p.front p.last,
                  lt→ltb p.last.handle rd.handle more,
                  start,
                )
                asked,
      )

  -- At the end of the range: the request is removed and the whole list handed over.
  pub page_last :
      (a : Att) (rd : ReadData) (p : Page) (k : ℕ)
      → a.current_request ≡ some rd
      → rd.callback ≡ some on_find_info
      → rd.attr_list_cb ≡ some k
      → All IsShortInfo (items p)
      → rd.handle ≤ p.last.handle
      → let packet = page_packet h p in
        handle_read h a (some packet.buffer) packet.nread none
        ≡ done (
          record a { current_request = none; attribute_list = none },
          delete_request rd
              ∷ call_list k 0 rd.data_ptr (attributes (or_new a.attribute_list ++ items p)) none
              ∷ [],
        )
  unfolding next_find_info finish_list
  page_last a rd p k busy named listed good over =
      page_step a rd p busy named good
      ∙ rw
          (
            last_item (or_new a.attribute_list) p.front p.last,
            ltb-false p.last.handle rd.handle over,
          )
          (ground arith)
