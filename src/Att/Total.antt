-- ===== src/Att/Total.antt =====
-- Whatever arrives is dealt with in finitely many steps.
use btle_js.Prelude.{
  ℕ, ◌≢◌, List, [], Option, none, some, String, Outcome, stuck, >>=-ne-stuck, deref-ne-stuck, ℤ,
  drop, length-drop, sub_ℕ, get_last?, Option-cases, if◌then◌else◌, Bool, true, false, inl, inr,
  ltb, ◌==◌, arith,
}
use btle_js.Host.{Host, Uuid}
use btle_js.Wire.Ends.{encode_range-ne-stuck}
use btle_js.Wire.Memory.{load_bytes-ne-stuck}
use btle_js.Parse.{AttributeInfo, HandlesInfo, GroupAttributeData}
use btle_js.Parse.Loop.{IsSmall}
use btle_js.Parse.Total.{
  parse_attribute_list-ne-stuck, parse_handles-ne-stuck, parse_attribute_data-ne-stuck,
  parse_group-ne-stuck, load_byte-ne-stuck,
}
use btle_js.Connection.{get_buffer}
use btle_js.Att.State.{
  Att, ReadData, ReadCallback, unexpected_data, Message, AttrList, on_find_info, on_find_by_type,
  on_read_by_type, on_read_by_group_type, on_read_attribute, on_notification,
}
use btle_js.Att.Respond.{
  send_range, do_find_information, do_find_by_type, do_read_by_group_type, finish_list,
  end_find_by_type, next_find_info, next_find_by_type, next_read_by_group_type, handle_find_info,
  handle_find_by_type, handle_read_by_type, handle_read_by_group_type, handle_read_attribute,
  handle_notification, call_back, callback_current_request,
}
use btle_js.Att.Read.{
  handle_read, handle_error, notify_to, handle_notify, handle_response, byte_at, host_u16_at,
  report, is_current,
}

if-ne-stuck {ℓ} :
    {A : Type ℓ} (b : Bool) (x y : Outcome A) → x ≢ stuck → y ≢ stuck → (if b then x else y) ≢ stuck
if-ne-stuck true x y p q = p
if-ne-stuck false x y p q = q

finish_list-ne-stuck :
    (a : Att) (rd : ReadData) (status : ℕ) (list : AttrList) (error : Option Message)
    → finish_list a rd status list error ≢ stuck
unfolding finish_list
finish_list-ne-stuck a rd status list error =
    >>=-ne-stuck _ _ (deref-ne-stuck rd.attr_list_cb) λ k _ x. cc

module _ (h : Host) where
  send_range-ne-stuck :
      (a : Att) (opcode s e : ℕ) (u : Option Uuid) (value : Option (List ℕ)) (n : ℕ)
      → send_range h a opcode s e u value n ≢ stuck
  unfolding send_range
  send_range-ne-stuck a opcode s e u value n =
      >>=-ne-stuck _ _
        (encode_range-ne-stuck h opcode s e u (get_buffer h a.connection).0
          (get_buffer h a.connection).1 value n)
        λ r _ x. cc

  module _ (rd : ReadData) (status : ℕ) (error : Option Message) where
    next_find_info-ne-stuck :
        (a : Att) (list : List AttributeInfo) → next_find_info h a rd status list error ≢ stuck
    unfolding next_find_info do_find_information
    next_find_info-ne-stuck a list = >>=-ne-stuck _ _ (deref-ne-stuck (get_last? list)) λ last _.
        if-ne-stuck (ltb last.handle rd.handle) _ _ (send_range-ne-stuck a 4 _ _ _ _ _)
          (finish_list-ne-stuck _ rd status _ error)

    next_find_by_type-ne-stuck :
        (a : Att) (list : List HandlesInfo) → next_find_by_type h a rd status list error ≢ stuck
    unfolding next_find_by_type do_find_by_type
    next_find_by_type-ne-stuck a list = >>=-ne-stuck _ _ (deref-ne-stuck (get_last? list)) λ last _.
        if-ne-stuck (ltb last.handle rd.handle) _ _ (send_range-ne-stuck a 6 _ _ _ _ _)
          (finish_list-ne-stuck _ rd status _ error)

    next_read_by_group_type-ne-stuck :
        (a : Att) (list : List GroupAttributeData)
        → next_read_by_group_type h a rd status list error ≢ stuck
    unfolding next_read_by_group_type do_read_by_group_type
    next_read_by_group_type-ne-stuck a list =
        >>=-ne-stuck _ _ (deref-ne-stuck (get_last? list)) λ last _.
          if-ne-stuck (ltb last.handle rd.handle) _ _ (send_range-ne-stuck a 16 _ _ _ _ _)
            (finish_list-ne-stuck _ rd status _ error)

  end_find_by_type-ne-stuck :
      (a : Att) (rd : ReadData) (status : ℕ) (list : Option (List HandlesInfo))
      → end_find_by_type a rd status list ≢ stuck
  unfolding end_find_by_type
  end_find_by_type-ne-stuck a rd status none = finish_list-ne-stuck _ rd 0 _ _
  end_find_by_type-ne-stuck a rd status (some list) = finish_list-ne-stuck _ rd 0 _ _

  module _ (a : Att) (status : ℕ) (rd : ReadData) (buf : Option (List ℕ)) (len : ℤ)
      (small : IsSmall buf) where
    find_info-ne-stuck :
        (error : Option Message) → handle_find_info h a status rd buf len error ≢ stuck
    unfolding handle_find_info
    find_info-ne-stuck error =
        if-ne-stuck (status == 0) _ _
          (>>=-ne-stuck _ _ (parse_attribute_list-ne-stuck h buf len small _)
            λ l _. next_find_info-ne-stuck rd status error _ l)
          (if-ne-stuck (status == 10) _ _ (finish_list-ne-stuck _ rd 0 _ none)
            (finish_list-ne-stuck _ rd status _ error))

    find_by_type-ne-stuck :
        (error : Option Message) → handle_find_by_type h a status rd buf len error ≢ stuck
    unfolding handle_find_by_type
    find_by_type-ne-stuck error =
        if-ne-stuck (status == 0) _ _
          (>>=-ne-stuck _ _ (parse_handles-ne-stuck h buf len small _)
            λ l _. next_find_by_type-ne-stuck rd status error _ l)
          (if-ne-stuck (status == 10) _ _
            (end_find_by_type-ne-stuck a rd status a.handles_info_list)
            (finish_list-ne-stuck _ rd status _ error))

    read_by_type-ne-stuck :
        (error : Option Message) → handle_read_by_type h a status rd buf len error ≢ stuck
    unfolding handle_read_by_type
    read_by_type-ne-stuck (some error) = finish_list-ne-stuck _ rd status _ _
    read_by_type-ne-stuck none =
        >>=-ne-stuck _ _ (parse_attribute_data-ne-stuck h buf len small [])
          λ l _. finish_list-ne-stuck _ rd status _ _

    read_by_group_type-ne-stuck :
        (error : Option Message) → handle_read_by_group_type h a status rd buf len error ≢ stuck
    unfolding handle_read_by_group_type
    read_by_group_type-ne-stuck error =
        if-ne-stuck (status == 0) _ _
          (>>=-ne-stuck _ _ (parse_group-ne-stuck h buf len small _)
            λ l _. next_read_by_group_type-ne-stuck rd status error _ l)
          (if-ne-stuck (status == 10) _ _ (finish_list-ne-stuck _ rd 0 _ none)
            (finish_list-ne-stuck _ rd status _ error))

    call_back-ne-stuck :
        (cb : Option ReadCallback) (error : Option Message)
        → call_back h a cb status rd buf len error ≢ stuck
    unfolding call_back handle_read_attribute handle_notification
    call_back-ne-stuck none error = λ e. cc
    call_back-ne-stuck (some on_find_info) error = find_info-ne-stuck error
    call_back-ne-stuck (some on_find_by_type) error = find_by_type-ne-stuck error
    call_back-ne-stuck (some on_read_by_type) error = read_by_type-ne-stuck error
    call_back-ne-stuck (some on_read_by_group_type) error = read_by_group_type-ne-stuck error
    call_back-ne-stuck (some on_read_attribute) error =
        >>=-ne-stuck _ _ (deref-ne-stuck rd.read_attr_cb) λ k _ x. cc
    call_back-ne-stuck (some on_notification) error =
        >>=-ne-stuck _ _ (deref-ne-stuck rd.read_attr_cb) λ k _ x. cc

  module _ (a : Att) where
    callback-ne-stuck :
        (status : ℕ) (buf : Option (List ℕ)) (len : ℤ) (error : Option Message)
        → IsSmall buf
        → callback_current_request h a status buf len error ≢ stuck
    unfolding callback_current_request
    callback-ne-stuck status buf len error small =
        >>=-ne-stuck _ _ (deref-ne-stuck a.current_request)
          λ rd _. call_back-ne-stuck a status rd buf len small rd.callback error

    byte_at-ne-stuck : (buf : List ℕ) (i : ℕ) → byte_at buf i ≢ stuck
    unfolding byte_at
    byte_at-ne-stuck buf i = >>=-ne-stuck _ _ (load_byte-ne-stuck (some (drop i buf))) λ r _ x. cc

    u16_at-ne-stuck : (buf : List ℕ) (i : ℕ) → host_u16_at h buf i ≢ stuck
    unfolding host_u16_at
    u16_at-ne-stuck buf i = >>=-ne-stuck _ _ (load_bytes-ne-stuck (some (drop i buf)) 2) λ r _ x. cc

    report-ne-stuck : (m : Message) → report a m ≢ stuck
    unfolding report
    report-ne-stuck m e = ground arith

    error-ne-stuck : (buf : List ℕ) → handle_error h a buf ≢ stuck
    unfolding handle_error
    error-ne-stuck buf = >>=-ne-stuck _ _ (byte_at-ne-stuck buf 1) λ request _.
        >>=-ne-stuck _ _ (byte_at-ne-stuck buf 4) λ code _.
          >>=-ne-stuck _ _ (u16_at-ne-stuck buf 2) λ handle _.
            if-ne-stuck (is_current a request) _ _ (callback-ne-stuck code none _ _ tt)
              (report-ne-stuck _)

    IsSmall-rest : (buf : List ℕ) (i : ℕ) → IsSmall (some buf) → IsSmall (some (drop i buf))
    IsSmall-rest buf i s = omega (arith, length-drop i buf)

    notify_to-ne-stuck :
        (buf : List ℕ) (nread handle : ℕ) (o : Option ReadData)
        → IsSmall (some buf)
        → notify_to h a buf nread handle o ≢ stuck
    unfolding notify_to
    notify_to-ne-stuck buf nread handle none s = report-ne-stuck _
    notify_to-ne-stuck buf nread handle (some rd) s =
        call_back-ne-stuck a 0 rd (some (drop 3 buf)) _ (IsSmall-rest buf 3 s) rd.callback none

    notify-ne-stuck :
        (buf : List ℕ) (nread : ℕ) → IsSmall (some buf) → handle_notify h a buf nread ≢ stuck
    unfolding handle_notify
    notify-ne-stuck buf nread s =
        >>=-ne-stuck _ _ (u16_at-ne-stuck buf 1) λ handle _. notify_to-ne-stuck buf nread handle _ s

    response-ne-stuck :
        (opcode nread : ℕ) (buf : List ℕ)
        → IsSmall (some buf)
        → handle_response h a opcode buf nread ≢ stuck
    unfolding handle_response
    response-ne-stuck opcode nread buf s = elim (Option-cases a.current_request) [
      | inl idle ↦ rw (idle, handle_response) (report-ne-stuck (unexpected_data opcode))
      | inr (rd, busy) ↦
          rw (busy, handle_response)
            (callback-ne-stuck 0 (some (drop 1 buf)) (sub_ℕ nread 1) none (IsSmall-rest buf 1 s))
    ]

    -- In any state, a read whose buffer is null or less than 2^63 bytes long is dealt with,
    -- whatever the bytes, the length and the error are: no loop of the parsers runs on.
    pub handle_read-ne-stuck :
        (buf : Option (List ℕ)) (nread : ℕ) (error : Option String)
        → IsSmall buf
        → handle_read h a buf nread error ≢ stuck
    unfolding handle_read
    handle_read-ne-stuck buf nread (some error) s = callback-ne-stuck 0 none _ _ tt
    handle_read-ne-stuck none nread none s = λ e. cc
    handle_read-ne-stuck (some buf) nread none s =
        >>=-ne-stuck _ _ (byte_at-ne-stuck buf 0) λ opcode _.
          if-ne-stuck (opcode == 1) _ _ (error-ne-stuck buf) (
            if-ne-stuck (opcode == 27) _ _ (notify-ne-stuck buf nread s)
              (response-ne-stuck opcode nread buf s))
