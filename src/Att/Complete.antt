-- ===== src/Att/Complete.antt =====
-- A whole `findInformation` whose last response reaches the end of the range.
use btle_js.Prelude.{
  ℕ, ◌+◌, ◌≤◌, ◌<◌, ◌≡◌, refl, ap, sym, ◌∙◌, List, [], ◌∷◌, ◌++◌, append_assoc, map, none, some,
  done, All,
}
use btle_js.Host.{Host, HostLaws}
use btle_js.Wire.Encode.{range_header}
use btle_js.Parse.{AttributeInfo}
use btle_js.Parse.RoundTrip.{IsShortInfo}
use btle_js.Connection.{buffer_size, uv_write}
use btle_js.Att.State.{
  Att, ReadData, Event, attributes, call_list, on_connection, delete_request, on_find_info,
}
use btle_js.Att.Respond.{or_new}
use btle_js.Att.Request.{list_request}
use btle_js.Att.Collect.{
  Page, items, page_packet, page_more, page_last, ask, deliver, wire, list_calls,
}
use btle_js.Att.Session.{session, all_items, IsPage, next_requests, idle_start}

together : (l xs ys zs : List AttributeInfo) → (l ++ xs) ++ (ys ++ zs) ≡ l ++ ((xs ++ ys) ++ zs)
together l xs ys zs = append_assoc l xs (ys ++ zs) ∙ ap (◌++◌ l) (sym (append_assoc xs ys zs))

module _ (h : Host) (laws : HostLaws h) (rd : ReadData) (k : ℕ) (q : Page)
    (named : rd.callback ≡ some on_find_info) (listed : rd.attr_list_cb ≡ some k)
    (he : rd.handle < 65536) (short : All IsShortInfo (items q))
    (over : rd.handle ≤ q.last.handle) where
  deliver_to_end :
      (a : Att) (l : List AttributeInfo) (pages : List Page)
      → a.current_request ≡ some rd
      → or_new a.attribute_list ≡ l
      → 5 ≤ buffer_size a.connection
      → All (IsPage rd.handle) pages
      → (events : List Event) × (deliver h a (map (page_packet h) pages ++ (page_packet h q ∷ []))
          ≡ done (record a { current_request = none; attribute_list = none }, events))
        × (wire events ≡ next_requests rd.handle pages)
        × (list_calls events
            ≡ call_list k 0 rd.data_ptr (attributes (l ++ (all_items pages ++ items q))) none ∷ [])
  unfolding deliver
  deliver_to_end a l [] busy begun room good = (
    delete_request rd
        ∷ call_list k 0 rd.data_ptr (attributes (or_new a.attribute_list ++ items q)) none
        ∷ [],
    rw (page_last h laws a rd q k busy named listed short over) refl,
    refl,
    rw begun,
  )
  deliver_to_end a l (p ∷ ps) busy begun room good =
      let (wd, step) = page_more h laws a rd p busy named he room good.0.0 good.0.1 in
      let a' = record a { attribute_list = some (or_new a.attribute_list ++ items p) } in
      let (events, rest, asks, calls) =
        deliver_to_end a' (or_new a.attribute_list ++ items p) ps busy refl room good.1 in
      (
        on_connection (uv_write a.connection.tcp (range_header 4 (p.last.handle + 1) rd.handle) wd)
            ∷ events,
        rw (step, rest),
        rw asks,
        rw (calls, begun, together l (items p) (all_items ps) (items q)),
      )

-- On a host that obeys the laws of libbluetooth, for an idle client with no cached attributes and a
-- buffer of at least 5 bytes, and for handles of 16 bits: when a device answers `findInformation`
-- with any pages of 16-bit attributes that each end before the end of the range, and then with one
-- that reaches it, the client sends one request for the range and one for what is left behind each
-- of the former pages, and makes one list callback, with status 0 and the attributes of all pages
-- in order. It is then idle again.
pub find_information_completes :
    (h : Host)
    → HostLaws h
    → (a : Att) (s e k d : ℕ) (ps : List Page) (q : Page) → a.current_request ≡ none
    → a.attribute_list ≡ none
    → 5 ≤ buffer_size a.connection
    → s < 65536
    → e < 65536
    → All (IsPage e) ps
    → All IsShortInfo (items q)
    → e ≤ q.last.handle
    → (events : List Event) × (session h a s e k d
          (map (page_packet h) ps ++ (page_packet h q ∷ []))
        ≡ done (record a { current_request = none; attribute_list = none }, events))
      × (wire events ≡ range_header 4 s e ∷ next_requests e ps)
      × (list_calls events ≡ call_list k 0 d (attributes (all_items ps ++ items q)) none ∷ [])
unfolding session
find_information_completes h laws a s e k d ps q idle empty room hs he good short over =
    let rd = list_request on_find_info 4 5 d e none k in
    let a₁ = record a { current_request = some rd } in
    let (w₁, asked) = ask h laws a₁ s e hs he room in
    let first : or_new a.attribute_list ≡ [] = rw empty in
    let (events, rest, asks, calls) =
      deliver_to_end h laws rd k q refl refl he short over a₁ [] ps refl first room good in
    (
      on_connection (uv_write a.connection.tcp (range_header 4 s e) w₁) ∷ events,
      rw (idle_start h a s e k d idle, asked, rest),
      rw asks,
      calls,
    )
