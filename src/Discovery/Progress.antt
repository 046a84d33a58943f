-- ===== src/Discovery/Progress.antt =====
-- Whether a `findInformation` ends, against devices that send any pages.
use btle_js.Prelude.{
  ℕ, zero, suc, ◌+◌, ◌≤◌, ◌<◌, ◌≡◌, refl, ◌∙◌, inl, inr, done, stuck, List, [], ◌∷◌, ◌++◌, map,
  none, some, Bool-cases, ltb, arith, All,
}
use btle_js.Host.{Host, HostLaws}
use btle_js.Wire.Encode.{range_header}
use btle_js.Parse.{AttributeInfo}
use btle_js.Parse.RoundTrip.{IsShortInfo}
use btle_js.Connection.{buffer_size, uv_write, delete_buffer}
use btle_js.Att.State.{Att, ReadData, on_connection, on_find_info}
use btle_js.Att.Respond.{or_new}
use btle_js.Att.Collect.{Packet, Page, items, page_packet, page_more, page_last}
use btle_js.Peripheral.State.{
  seen, Peripheral, CallbackData, World, Event, null, array, call, on_att, on_link, alloc,
  fn_find_information,
}
use btle_js.Peripheral.Replies.{get_attribute_info}
use btle_js.Peripheral.Data.{handle_of-lt, alloc_live, free_live}
use btle_js.Peripheral.Methods.{handle_of}
use btle_js.Discovery.{converse, discover}
use btle_js.Discovery.Steps.{IsOpen}
use btle_js.Discovery.Turns.{finished, told, ends, continues, continues_stuck}
use btle_js.Discovery.Finds.{IsCall, slot, asking, kept, over, asked, begins, over_att}

-- A device that answers every request for a range up to `e` with a page of 16-bit attributes. The
-- page need not lie in the range, nor be sorted.
pub record Pages (h : Host) (e : ℕ) (respond : List ℕ → Packet) (P : ℕ → Page → Type 0)
    : Type 0 where
  pub page : ℕ → Page
  pub answer : (s : ℕ) → s < 65536 → respond (range_header 4 s e) ≡ page_packet h (page s)
  pub short : (s : ℕ) → s < 65536 → All IsShortInfo (items (page s))
  pub ensures : (s : ℕ) → s < 65536 → P s (page s)

-- The last handle of a page is not below the start of the request.
abbrev pub Moves : ℕ → Page → Type 0
Moves s p = s ≤ p.last.handle

-- The last handle of a page is below the end of the range.
abbrev pub StaysBelow : ℕ → ℕ → Page → Type 0
StaysBelow e s p = p.last.handle < e

module _ {Value : Type 0} (w : World Value) (laws : HostLaws w.host) (respond : List ℕ → Packet)
    (rd : ReadData) (cd : CallbackData Value) (k : Value) (named : rd.callback ≡ some on_find_info)
    (listed : rd.attr_list_cb ≡ some fn_find_information) (he : rd.handle < 65536)
    (calls : cd.callback ≡ some k) where
  converse_ends :
      (d : Pages w.host rd.handle respond Moves) (fuel s : ℕ) (p : Peripheral Value) (a : Att)
      → p.att ≡ some a
      → a.current_request ≡ some rd
      → IsOpen a.connection
      → 5 ≤ buffer_size a.connection
      → p.live rd.data_ptr ≡ some cd
      → s < 65536
      → 0 < fuel
      → rd.handle < s + fuel
      → (list : List AttributeInfo) × (events : List (Event Value)) × (converse w respond fuel p
            (range_header 4 s rd.handle ∷ [])
          ≡ done (finished w respond rd cd k calls p a, events))
        × (seen events ≡ told w respond rd cd k calls list ∷ [])
  converse_ends d zero s p a at busy is_open room live hs some_fuel enough = absurd (omega arith)
  converse_ends d (suc fuel) s p a at busy is_open room live hs some_fuel enough =
      let page = d.page s in
      let pdu = range_header 4 s rd.handle in
      let moves : s ≤ page.last.handle = d.ensures s hs in
      elim (Bool-cases (ltb page.last.handle rd.handle)) [
        | inl more ↦
            let below : page.last.handle < rd.handle = ground arith in
            let (wd, e) = page_more w.host laws a rd page busy named he room (d.short s hs) below in
            let b = record a { attribute_list = some (or_new a.attribute_list ++ items page) } in
            let (list, events, run, saw) =
              converse_ends d fuel (page.last.handle + 1) (record p { att = some b }) b refl busy
                is_open room live (omega arith) (omega arith) (omega arith) in
            (
              list,
              on_att (
                    on_connection (
                      uv_write a.connection.tcp (range_header 4 (page.last.handle + 1) rd.handle)
                        wd))
                  ∷ on_link (delete_buffer (some (respond pdu).buffer))
                  ∷ events,
              continues w respond rd cd k calls fuel p (finished w respond rd cd k calls p a) a b
                  pdu (range_header 4 (page.last.handle + 1) rd.handle) wd events at is_open
                  (rw (d.answer s hs) e) run,
              saw,
            )
        | inr over ↦
            let list = or_new a.attribute_list ++ items page in
            let e =
              page_last w.host laws a rd page fn_find_information busy named listed (d.short s hs)
                (ground arith) in
            let (events, run, saw) =
              ends w respond rd cd k calls fuel p a pdu list at is_open live
                (rw (d.answer s hs) e) in
            (list, events, run, saw)
      ]

  converse_stuck :
      (d : Pages w.host rd.handle respond (StaysBelow rd.handle)) (fuel s : ℕ)
      (p : Peripheral Value) (a : Att)
      → p.att ≡ some a
      → a.current_request ≡ some rd
      → IsOpen a.connection
      → 5 ≤ buffer_size a.connection
      → s < 65536
      → converse w respond fuel p (range_header 4 s rd.handle ∷ []) ≡ stuck
  unfolding converse
  converse_stuck d zero s p a at busy is_open room hs = refl
  converse_stuck d (suc fuel) s p a at busy is_open room hs =
      let page = d.page s in
      let below : page.last.handle < rd.handle = d.ensures s hs in
      let (wd, e) = page_more w.host laws a rd page busy named he room (d.short s hs) below in
      let b = record a { attribute_list = some (or_new a.attribute_list ++ items page) } in
      continues_stuck w respond rd cd k calls fuel p a b (range_header 4 s rd.handle)
        (range_header 4 (page.last.handle + 1) rd.handle) wd at is_open (rw (d.answer s hs) e)
        (converse_stuck d fuel (page.last.handle + 1) (record p { att = some b }) b refl busy
          is_open room (omega arith))

module _ {Value : Type 0} (w : World Value) (laws : HostLaws w.host) (respond : List ℕ → Packet)
    (p : Peripheral Value) (a : Att) (s e k : Value) (rest : List Value)
    (c : IsCall w p a s e k) where
  -- On a host that obeys the laws of libbluetooth, over an open connection with a buffer of at
  -- least 5 bytes, for a client with no outstanding request and no cached attributes: when
  -- `findInformation` is called with two unsigned numbers and a function, and any device answers
  -- each request for a range up to the same end with a page of 16-bit attributes whose last handle
  -- is not below the start of the request, then with fuel for one answer at least, and for as many
  -- as there are handles in the range, the conversation ends, the function is called once, with
  -- null and an array, the client is what it was, and the callback data is deleted.
  pub discover_ends :
      (d : Pages w.host (handle_of w e) respond Moves) (fuel : ℕ)
      → 0 < fuel
      → handle_of w e < handle_of w s + fuel
      → (list : List AttributeInfo) × (p' : Peripheral Value) × (events : List (Event Value))
        × (discover w respond fuel p (s ∷ e ∷ k ∷ rest) ≡ done (p', events))
        × (p'.att ≡ some a)
        × (p'.live p.next ≡ none)
        × (seen events ≡ call k (null ∷ array (map (get_attribute_info w) list) ∷ []) ∷ [])
  discover_ends d fuel some_fuel enough =
      let rd = slot w laws respond p a s e k rest c in
      let b = asking w laws respond p a s e k rest c in
      let cd = kept w laws respond p a s e k rest c in
      let (list, events, run, saw) =
        converse_ends w laws respond rd cd k refl refl (handle_of-lt w e) refl d fuel
          (handle_of w s) (record (alloc p cd) { att = some b }) b refl refl c.ready.is_open
          c.ready.room (alloc_live p cd) (handle_of-lt w s) some_fuel enough in
      let q = over w laws respond p a s e k rest c in
      let (all, went, same) = begins w laws respond p a s e k rest c fuel q events run in
      (list, q, all, went, over_att w laws respond p a s e k rest c, free_live _ p.next, same ∙ saw)

  -- On a host that obeys the laws of libbluetooth, over an open connection with a buffer of at
  -- least 5 bytes, for a client with no outstanding request and no cached attributes: when
  -- `findInformation` is called with two unsigned numbers and a function, against any device that
  -- answers each request for a range up to the same end with a page of 16-bit attributes whose last
  -- handle is below that end, whatever was asked for, the client asks on after any number of
  -- answers.
  pub discover_never_ends :
      (d : Pages w.host (handle_of w e) respond (StaysBelow (handle_of w e))) (fuel : ℕ)
      → discover w respond fuel p (s ∷ e ∷ k ∷ rest) ≡ stuck
  unfolding discover
  discover_never_ends d fuel =
      let rd = slot w laws respond p a s e k rest c in
      let b = asking w laws respond p a s e k rest c in
      let cd = kept w laws respond p a s e k rest c in
      let (wd, start) = asked w laws respond p a s e k rest c in
      let run =
        converse_stuck w laws respond rd cd k refl refl (handle_of-lt w e) refl d fuel
          (handle_of w s) (record (alloc p cd) { att = some b }) b refl refl c.ready.is_open
          c.ready.room (handle_of-lt w s) in
      rw (start, run) refl
