-- ===== src/Discovery/Complete.antt =====
-- `findInformation` from JavaScript and back, against any device with a table.
use btle_js.Prelude.{
  ℕ, zero, suc, ◌+◌, ◌≤◌, ◌<◌, ◌≡◌, refl, ap, sym, ◌∙◌, inl, inr, done, List, [], ◌∷◌, ◌++◌,
  append_assoc, append-nil, length, length-append, some, Bool-cases, ltb, arith, All,
}
use mathlib.Core.Path.{subst}
use btle_js.Host.{HostLaws}
use btle_js.Wire.Encode.{range_header}
use btle_js.Parse.{AttributeInfo}
use btle_js.Parse.RoundTrip.{IsShortInfo}
use btle_js.Connection.{buffer_size, uv_write, delete_buffer}
use btle_js.Att.State.{Att, ReadData, on_connection, on_find_info}
use btle_js.Att.Respond.{or_new}
use btle_js.Att.Collect.{Packet, Page, items, page_more, page_last}
use btle_js.Att.Session.{not_found_step}
use btle_js.Peripheral.State.{
  seen, Peripheral, CallbackData, World, Event, on_att, on_link, fn_find_information,
}
use btle_js.Discovery.{in_range, Serves, converse}
use btle_js.Discovery.Table.{All-part, All-middle, in_range_bounds, in_range_behind, in_range_empty}
use btle_js.Discovery.Turns.{finished, told, ends, continues}
use btle_js.Discovery.Steps.{IsOpen}

-- The last attribute of a page lies in the range, and what is behind it is the rest.
last_in_range :
    (s e : ℕ) (t : List AttributeInfo) (p : Page) (rest : List AttributeInfo)
    → in_range s e t ≡ items p ++ rest
    → (s ≤ p.last.handle) × (p.last.handle ≤ e)
last_in_range s e t p rest h =
    let P = λ (a : AttributeInfo). (s ≤ a.handle) × (a.handle ≤ e) in
    All-middle P p.front p.last rest
      (subst (All P) (h ∙ append_assoc p.front (p.last ∷ []) rest) (in_range_bounds s e t))

module _ {Value : Type 0} (w : World Value) (laws : HostLaws w.host) (table : List AttributeInfo)
    (respond : List ℕ → Packet) (serves : Serves w.host table respond) (rd : ReadData)
    (cd : CallbackData Value) (k : Value) (asked : rd.request ≡ 4)
    (named : rd.callback ≡ some on_find_info) (listed : rd.attr_list_cb ≡ some fn_find_information)
    (he : rd.handle < 65536) (calls : cd.callback ≡ some k) where
  rest_behind :
      (s : ℕ) (page : Page) (rest : List AttributeInfo)
      → in_range s rd.handle table ≡ items page ++ rest
      → in_range (page.last.handle + 1) rd.handle table ≡ rest
  rest_behind s page rest splits =
      let (lo, hi) = last_in_range s rd.handle table page rest splits in
      in_range_behind s rd.handle table page.front page.last rest serves.sorted lo hi
        (splits ∙ append_assoc page.front (page.last ∷ []) rest)

  fewer :
      (s fuel : ℕ) (page : Page) (rest : List AttributeInfo)
      → in_range s rd.handle table ≡ items page ++ rest
      → length (in_range s rd.handle table) < suc fuel
      → length (in_range (page.last.handle + 1) rd.handle table) < fuel
  fewer s fuel page rest splits enough = omega (
    arith,
    ap length (rest_behind s page rest splits),
    ap length splits,
    length-append (items page) rest,
    length-append page.front (page.last ∷ []),
  )

  nothing_behind :
      (s : ℕ) (page : Page) (rest : List AttributeInfo)
      → in_range s rd.handle table ≡ items page ++ rest
      → rd.handle ≤ page.last.handle
      → rest ≡ []
  nothing_behind s page rest splits over =
      sym (rest_behind s page rest splits)
      ∙ in_range_empty (page.last.handle + 1) rd.handle table (omega arith)

  pub converse_lem :
      (fuel s : ℕ) (p : Peripheral Value) (a : Att) (l : List AttributeInfo)
      → p.att ≡ some a
      → a.current_request ≡ some rd
      → or_new a.attribute_list ≡ l
      → IsOpen a.connection
      → 5 ≤ buffer_size a.connection
      → p.live rd.data_ptr ≡ some cd
      → s < 65536
      → (in_range s rd.handle table ≡ [] → a.attribute_list ≡ some l)
      → length (in_range s rd.handle table) < fuel
      → (events : List (Event Value)) × (converse w respond fuel p (range_header 4 s rd.handle ∷ [])
          ≡ done (finished w respond rd cd k calls p a, events))
        × (seen events ≡ told w respond rd cd k calls (l ++ in_range s rd.handle table) ∷ [])
  converse_lem zero s p a l at busy begun is_open room live hs first enough = absurd (omega arith)
  converse_lem (suc fuel) s p a l at busy begun is_open room live hs first enough =
      elim (serves.answer s rd.handle hs he) [
        | inl (empty, lo, hi, slack, answered) ↦
            let e =
              not_found_step w.host a rd fn_find_information lo hi slack busy asked named listed in
            let (events, run, saw) =
              ends w respond rd cd k calls fuel p a (range_header 4 s rd.handle) l at is_open live
                (rw (answered, e, first empty) refl) in
            (events, run, rw (saw, empty, append-nil) refl)
        | inr (page, rest, splits, answered) ↦ elim (Bool-cases (ltb page.last.handle rd.handle)) [
          | inl more ↦
              let good =
                All-part IsShortInfo s rd.handle table (items page) rest serves.short splits in
              let behind = rest_behind s page rest splits in
              let (wd, e) =
                page_more w.host laws a rd page busy named he room good (ground arith) in
              let b = record a { attribute_list = some (or_new a.attribute_list ++ items page) } in
              let (events, run, saw) =
                converse_lem fuel (page.last.handle + 1) (record p { att = some b }) b
                  (or_new a.attribute_list ++ items page) refl busy refl is_open room live
                  (ground arith) (λ _. refl) (fewer s fuel page rest splits enough) in
              (
                on_att (
                      on_connection (
                        uv_write a.connection.tcp (range_header 4 (page.last.handle + 1) rd.handle)
                          wd))
                    ∷ on_link (delete_buffer (some (respond (range_header 4 s rd.handle)).buffer))
                    ∷ events,
                continues w respond rd cd k calls fuel p (finished w respond rd cd k calls p a) a b
                    (range_header 4 s rd.handle) (range_header 4 (page.last.handle + 1) rd.handle)
                    wd events at is_open (rw answered e) run,
                rw
                    (
                      saw,
                      behind,
                      splits,
                      sym begun,
                      append_assoc (or_new a.attribute_list) (items page) rest,
                    )
                    refl,
              )
          | inr over ↦
              let good =
                All-part IsShortInfo s rd.handle table (items page) rest serves.short splits in
              let e =
                page_last w.host laws a rd page fn_find_information busy named listed good
                  (ground arith) in
              let (events, run, saw) =
                ends w respond rd cd k calls fuel p a (range_header 4 s rd.handle)
                  (or_new a.attribute_list ++ items page) at is_open live (rw answered e) in
              (
                events,
                run,
                rw
                    (
                      saw,
                      splits,
                      sym begun,
                      nothing_behind s page rest splits (ground arith),
                      append-nil,
                    )
                    refl,
              )
        ]
      ]
