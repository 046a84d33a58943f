-- ===== src/Att/Invariant.antt =====
-- What holds between any two events: a cached list belongs to the outstanding request.
use btle_js.Prelude.{
  ℕ, ◌≡◌, refl, ap, ◌⊎◌, inl, inr, List, [], ◌∷◌, Option, none, some, String, done, >>=-eq-done, ℤ,
  All, drop, sub_ℕ, ◌==◌, Option-cases, if-eq, arith, pos,
}
use btle_js.Host.{Host}
use btle_js.Pdu.{att_op_error, att_op_handle_notify}
use btle_js.Att.State.{
  Att, ReadData, ReadCallback, Event, Message, text, unexpected_notification, unexpected_data,
  on_find_info, on_find_by_type, on_read_by_type, on_read_by_group_type, on_read_attribute,
  on_notification,
}
use btle_js.Att.Respond.{
  do_find_information, do_find_by_type, do_read_by_group_type, finish_list, handle_find_info,
  handle_find_by_type, handle_read_by_type, handle_read_by_group_type, handle_read_attribute,
  handle_notification, call_back, callback_current_request,
}
use btle_js.Att.Request.{find}
use btle_js.Att.Read.{
  handle_read, handle_error, notify_to, handle_notify, handle_response, report, byte_at,
  host_u16_at, error_message, is_current,
}

-- The handler of the outstanding request.
abbrev pub kind : Option ReadData → Option ReadCallback
kind none = none
kind (some rd) = rd.callback

abbrev pub Listens : ℕ × ReadData → Type 0
Listens entry = entry.1.callback ≡ some on_notification

pub record IsValid (a : Att) : Type 0 where
  pub attributes_owned : (a.attribute_list ≡ none) ⊎ (kind a.current_request ≡ some on_find_info)
  pub handles_owned : (a.handles_info_list ≡ none) ⊎ (kind a.current_request ≡ some on_find_by_type)
  pub groups_owned :
      (a.group_attribute_list ≡ none) ⊎ (kind a.current_request ≡ some on_read_by_group_type)
  pub listeners : All Listens a.notification_map

pub find-Listens :
    (handle : ℕ) (m : List (ℕ × ReadData)) (rd : ReadData)
    → All Listens m
    → find handle m ≡ some rd
    → rd.callback ≡ some on_notification
unfolding find
find-Listens handle [] rd l e = cc
find-Listens handle (x ∷ m) rd l e = ground (arith, find-Listens handle m rd l.1)

module _ (h : Host) (a b : Att) (events : List Event) (v : IsValid a) where
  module _ (status : ℕ) (rd : ReadData) (buf : Option (List ℕ)) (len : ℤ)
      (error : Option Message) where
    find_info-IsValid :
        kind a.current_request ≡ some on_find_info
        → handle_find_info h a status rd buf len error ≡ done (b, events)
        → IsValid b
    unfolding handle_find_info do_find_information finish_list
    find_info-IsValid k d = ground arith

    find_by_type-IsValid :
        kind a.current_request ≡ some on_find_by_type
        → handle_find_by_type h a status rd buf len error ≡ done (b, events)
        → IsValid b
    unfolding handle_find_by_type do_find_by_type finish_list
    find_by_type-IsValid k d = ground arith

    read_by_type-IsValid :
        kind a.current_request ≡ some on_read_by_type
        → handle_read_by_type h a status rd buf len error ≡ done (b, events)
        → IsValid b
    unfolding handle_read_by_type finish_list
    read_by_type-IsValid k d = ground arith

    read_by_group_type-IsValid :
        kind a.current_request ≡ some on_read_by_group_type
        → handle_read_by_group_type h a status rd buf len error ≡ done (b, events)
        → IsValid b
    unfolding handle_read_by_group_type do_read_by_group_type finish_list
    read_by_group_type-IsValid k d = ground arith

    read_attribute-IsValid :
        kind a.current_request ≡ some on_read_attribute
        → handle_read_attribute a status rd buf len error ≡ done (b, events)
        → IsValid b
    unfolding handle_read_attribute
    read_attribute-IsValid k d = ground arith

    notification-IsValid :
        handle_notification a status rd buf len error ≡ done (b, events) → IsValid b
    unfolding handle_notification
    notification-IsValid d = ground arith

    call_back-IsValid :
        (cb : Option ReadCallback)
        → kind a.current_request ≡ cb
        → call_back h a cb status rd buf len error ≡ done (b, events)
        → IsValid b
    unfolding call_back
    call_back-IsValid none k d = ground arith
    call_back-IsValid (some on_find_info) k d = find_info-IsValid k d
    call_back-IsValid (some on_find_by_type) k d = find_by_type-IsValid k d
    call_back-IsValid (some on_read_by_type) k d = read_by_type-IsValid k d
    call_back-IsValid (some on_read_by_group_type) k d = read_by_group_type-IsValid k d
    call_back-IsValid (some on_read_attribute) k d = read_attribute-IsValid k d
    call_back-IsValid (some on_notification) k d = notification-IsValid d

    listener-IsValid :
        rd.callback ≡ some on_notification
        → call_back h a rd.callback status rd buf len error ≡ done (b, events)
        → IsValid b
    unfolding call_back handle_notification
    listener-IsValid k d = notification-IsValid (rw k at d)

  callback-IsValid :
      (o : Option ReadData) (status : ℕ) (buf : Option (List ℕ)) (len : ℤ) (error : Option Message)
      → a.current_request ≡ o
      → callback_current_request h a status buf len error ≡ done (b, events)
      → IsValid b
  unfolding callback_current_request
  callback-IsValid none status buf len error e d = ground arith
  callback-IsValid (some rd) status buf len error e d =
      call_back-IsValid status rd buf len error rd.callback (ap kind e) (ground arith)

  report-IsValid : (m : Message) → report a m ≡ done (b, events) → IsValid b
  unfolding report
  report-IsValid m d = ground arith

  error-IsValid : (buf : List ℕ) → handle_error h a buf ≡ done (b, events) → IsValid b
  unfolding handle_error
  error-IsValid buf d =
      let (request, _, d) = >>=-eq-done (byte_at buf 1) _ d in
      let (code, _, d) = >>=-eq-done (byte_at buf 4) _ d in
      let (handle, _, d) = >>=-eq-done (host_u16_at h buf 2) _ d in
      let message = error_message request handle code in
      elim (if-eq (is_current a request) _ _ d) [
        | inl (_, d) ↦ callback-IsValid a.current_request code none (pos 0) (some message) refl d
        | inr (_, d) ↦ report-IsValid message d
      ]

  notified-IsValid :
      (buf : List ℕ) (nread handle : ℕ) (o : Option ReadData)
      → find handle a.notification_map ≡ o
      → notify_to h a buf nread handle o ≡ done (b, events)
      → IsValid b
  unfolding notify_to
  notified-IsValid buf nread handle none e d = report-IsValid (unexpected_notification handle) d
  notified-IsValid buf nread handle (some rd) e d =
      listener-IsValid 0 rd (some (drop 3 buf)) (sub_ℕ nread 3) none
        (find-Listens handle a.notification_map rd v.listeners e) d

  notify-IsValid :
      (buf : List ℕ) (nread : ℕ) → handle_notify h a buf nread ≡ done (b, events) → IsValid b
  unfolding handle_notify
  notify-IsValid buf nread d =
      let (handle, _, d) = >>=-eq-done (host_u16_at h buf 1) _ d in
      notified-IsValid buf nread handle (find handle a.notification_map) refl d

  response-IsValid :
      (opcode nread : ℕ) (buf : List ℕ)
      → handle_response h a opcode buf nread ≡ done (b, events)
      → IsValid b
  unfolding handle_response
  response-IsValid opcode nread buf d = elim (Option-cases a.current_request) [
    | inl idle ↦ report-IsValid (unexpected_data opcode) (ground arith)
    | inr (rd, busy) ↦
        callback-IsValid a.current_request 0 (some (drop 1 buf)) (sub_ℕ nread 1) none refl
          (ground arith)
  ]

  -- Whatever arrives, well formed or not.
  pub handle_read-IsValid :
      (buf : Option (List ℕ)) (nread : ℕ) (error : Option String)
      → handle_read h a buf nread error ≡ done (b, events)
      → IsValid b
  unfolding handle_read
  handle_read-IsValid buf nread (some error) d =
      callback-IsValid a.current_request 0 none (pos 0) (some (text error)) refl d
  handle_read-IsValid none nread none d = ground arith
  handle_read-IsValid (some buf) nread none d =
      let (opcode, _, d) = >>=-eq-done (byte_at buf 0) _ d in
      elim (if-eq (opcode == att_op_error) (handle_error h a buf) _ d) [
        | inl (_, d) ↦ error-IsValid buf d
        | inr (_, d) ↦
            elim (if-eq (opcode == att_op_handle_notify) (handle_notify h a buf nread) _ d) [
              | inl (_, d) ↦ notify-IsValid buf nread d
              | inr (_, d) ↦ response-IsValid opcode nread buf d
            ]
      ]
