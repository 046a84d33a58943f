-- ===== src/Att/Session.antt =====
-- A whole `findInformation` that the device ends with "attribute not found".
use btle_js.Prelude.{
  ℕ, ◌+◌, ◌≤◌, ◌<◌, ◌≡◌, refl, List, [], ◌∷◌, ◌++◌, append_assoc, append-nil, map, none, some,
  Outcome, done, ◌>>=◌, All, arith,
}
use btle_js.Host.{Host, HostLaws}
use btle_js.Wire.Encode.{range_header}
use btle_js.Parse.{AttributeInfo, load_byte}
use btle_js.Parse.RoundTrip.{IsShortInfo}
use btle_js.Connection.{buffer_size, uv_write}
use btle_js.Att.State.{
  Att, ReadData, Event, attributes, list_ptr, call_list, on_connection, delete_request,
  on_find_info, set_current_request,
}
use btle_js.Att.Respond.{
  do_find_information, handle_find_info, finish_list, call_back, callback_current_request, or_new,
}
use btle_js.Att.Request.{find_information, list_request}
use btle_js.Att.Read.{handle_read, handle_error, byte_at}
use btle_js.Wire.Memory.{load_bytes}
use btle_js.Att.Collect.{
  Page, Packet, items, page_packet, page_more, ask, deliver, wire, list_calls,
}

-- Error Response to Find Information: "attribute not found" at a handle.
abbrev pub not_found : ℕ → ℕ → List ℕ → Packet
not_found lo hi slack = record { buffer = 1 ∷ 4 ∷ lo ∷ hi ∷ 10 ∷ slack; nread = 5 }

abbrev pub all_items : List Page → List AttributeInfo
all_items [] = []
all_items (p ∷ ps) = items p ++ all_items ps

-- A page that the protocol allows before the end of a range.
abbrev pub IsPage : ℕ → Page → Type 0
IsPage end_handle p = All IsShortInfo (items p) × (p.last.handle < end_handle)

abbrev pub next_requests : ℕ → List Page → List (List ℕ)
next_requests end_handle [] = []
next_requests end_handle (p ∷ ps) =
    range_header 4 (p.last.handle + 1) end_handle ∷ next_requests end_handle ps

-- `findInformation`, and then what arrives.
unfoldable pub session : Host → Att → ℕ → ℕ → ℕ → ℕ → List Packet → Outcome (Att × List Event)
session h a start_handle end_handle callback data_ptr packets = do
  (a, asked) ← find_information h a start_handle end_handle callback data_ptr
  (a, events) ← deliver h a packets
  done (a, asked ++ events)

-- "Attribute not found" hands over what was collected, as a success.
pub not_found_step :
    (h : Host) (a : Att) (rd : ReadData) (k lo hi : ℕ) (slack : List ℕ)
    → a.current_request ≡ some rd
    → rd.request ≡ 4
    → rd.callback ≡ some on_find_info
    → rd.attr_list_cb ≡ some k
    → handle_read h a (some (not_found lo hi slack).buffer) 5 none
      ≡ done (
        record a { current_request = none; attribute_list = none },
        delete_request rd
            ∷ call_list k 0 rd.data_ptr (list_ptr attributes a.attribute_list) none
            ∷ [],
      )
unfolding handle_read byte_at load_byte handle_error load_bytes callback_current_request call_back
    handle_find_info finish_list
not_found_step h a rd k lo hi slack busy asked named listed = ground arith

module _ (h : Host) (laws : HostLaws h) (rd : ReadData) (k lo hi : ℕ) (slack : List ℕ)
    (asked : rd.request ≡ 4) (named : rd.callback ≡ some on_find_info)
    (listed : rd.attr_list_cb ≡ some k) (he : rd.handle < 65536) where
  deliver_pages :
      (a : Att) (l : List AttributeInfo) (pages : List Page)
      → a.current_request ≡ some rd
      → a.attribute_list ≡ some l
      → 5 ≤ buffer_size a.connection
      → All (IsPage rd.handle) pages
      → (events : List Event) × (deliver h a
            (map (page_packet h) pages ++ (not_found lo hi slack ∷ []))
          ≡ done (record a { current_request = none; attribute_list = none }, events))
        × (wire events ≡ next_requests rd.handle pages)
        × (list_calls events
            ≡ call_list k 0 rd.data_ptr (attributes (l ++ all_items pages)) none ∷ [])
  unfolding deliver
  deliver_pages a l [] busy begun room good = (
    delete_request rd ∷ call_list k 0 rd.data_ptr (attributes l) none ∷ [],
    rw (not_found_step h a rd k lo hi slack busy asked named listed, begun),
    refl,
    rw append-nil,
  )
  deliver_pages a l (p ∷ ps) busy begun room good =
      let (wd, step) = page_more h laws a rd p busy named he room good.0.0 good.0.1 in
      let begun' : or_new a.attribute_list ≡ l = rw begun in
      let a' = record a { attribute_list = some (or_new a.attribute_list ++ items p) } in
      let (events, rest, asks, calls) =
        deliver_pages a' (or_new a.attribute_list ++ items p) ps busy refl room good.1 in
      (
        on_connection (uv_write a.connection.tcp (range_header 4 (p.last.handle + 1) rd.handle) wd)
            ∷ events,
        rw (step, rest),
        rw asks,
        rw (calls, begun', append_assoc),
      )

pub idle_start :
    (h : Host) (a : Att) (s e k d : ℕ)
    → a.current_request ≡ none
    → find_information h a s e k d
      ≡ do_find_information h
          (record a { current_request = some (list_request on_find_info 4 5 d e none k) })
          s
          e
unfolding find_information set_current_request
idle_start h a s e k d idle = ground arith

-- On a host that obeys the laws of libbluetooth, for an idle client with no cached attributes and a
-- buffer of at least 5 bytes, and for handles of 16 bits: when a device answers `findInformation`
-- with any pages of 16-bit attributes, one at least, that each end before the end of the range, and
-- then with "attribute not found", the client sends one request for the range and one for what is
-- left behind each page, and makes one list callback, with status 0 and the attributes of all pages
-- in order. It is then idle again.
pub find_information_collects :
    (h : Host)
    → HostLaws h
    → (a : Att) (s e k d lo hi : ℕ) (slack : List ℕ) (p : Page) (ps : List Page)
    → a.current_request ≡ none
    → a.attribute_list ≡ none
    → 5 ≤ buffer_size a.connection
    → s < 65536
    → e < 65536
    → All (IsPage e) (p ∷ ps)
    → let packets = map (page_packet h) (p ∷ ps) ++ (not_found lo hi slack ∷ []) in
      (events : List Event) × (session h a s e k d packets
        ≡ done (record a { current_request = none; attribute_list = none }, events))
      × (wire events ≡ range_header 4 s e ∷ next_requests e (p ∷ ps))
      × (list_calls events ≡ call_list k 0 d (attributes (all_items (p ∷ ps))) none ∷ [])
unfolding session deliver
find_information_collects h laws a s e k d lo hi slack p ps idle empty room hs he good =
    let rd = list_request on_find_info 4 5 d e none k in
    let a₁ = record a { current_request = some rd } in
    let (w₁, asked) = ask h laws a₁ s e hs he room in
    let (w₂, step) = page_more h laws a₁ rd p refl refl he room good.0.0 good.0.1 in
    let first : or_new a.attribute_list ≡ [] = rw empty in
    let a₂ = record a₁ { attribute_list = some (or_new a.attribute_list ++ items p) } in
    let (events, rest, asks, calls) =
      deliver_pages h laws rd k lo hi slack refl refl refl he a₂
        (or_new a.attribute_list ++ items p) ps refl refl room good.1 in
    (
      on_connection (uv_write a.connection.tcp (range_header 4 s e) w₁)
          ∷ on_connection (uv_write a.connection.tcp (range_header 4 (p.last.handle + 1) e) w₂)
          ∷ events,
      rw (idle_start h a s e k d idle, asked, step, rest),
      rw asks,
      rw (calls, first),
    )
