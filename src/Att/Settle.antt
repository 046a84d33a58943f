-- ===== src/Att/Settle.antt =====
-- What a read does to the outstanding request: nothing, or its end.
use btle_js.Prelude.{
  ℕ, ◌≡◌, ◌≢◌, refl, ap, ◌∙◌, ◌⊎◌, inl, inr, List, [], ◌∷◌, Option, none, some, String, done,
  >>=-eq-done, ℤ, drop, sub_ℕ, ◌==◌, Bool, true, false, Option-cases, if-eq, arith, pos,
}
use btle_js.Host.{Host}
use btle_js.Connection.{uv_write, write}
use btle_js.Pdu.{att_op_error, att_op_handle_notify}
use btle_js.Att.State.{
  Att, ReadData, ReadCallback, Event, Message, text, unexpected_data, call_list, call_attribute,
  on_connection, remove_current_request, on_find_info, on_find_by_type, on_read_by_type,
  on_read_by_group_type, on_read_attribute, on_notification,
}
use btle_js.Att.Respond.{
  do_find_information, do_find_by_type, do_read_by_group_type, finish_list, handle_find_info,
  handle_find_by_type, handle_read_by_type, handle_read_by_group_type, handle_read_attribute,
  handle_notification, call_back, callback_current_request,
}
use btle_js.Att.Read.{
  handle_read, handle_error, notify_to, handle_notify, handle_response, report, byte_at,
  host_u16_at, error_message, is_current,
}
use btle_js.Att.Invariant.{kind, IsValid, find-Listens}
use btle_js.Att.Request.{find}
use btle_js.Parse.{load_byte}

-- The data pointers that callbacks are called with.
abbrev pub data_calls : List Event → List ℕ
data_calls [] = []
data_calls (call_list k status d list error ∷ r) = d ∷ data_calls r
data_calls (call_attribute k status d buf len error ∷ r) = d ∷ data_calls r
data_calls (_ ∷ r) = data_calls r

-- The data pointer that the outstanding request holds.
abbrev pub held : Option ReadData → List ℕ
held none = []
held (some rd) = rd.data_ptr ∷ []

-- The data pointers of the writes that report back.
abbrev pub flights : List Event → List ℕ
flights [] = []
flights (on_connection (uv_write tcp bytes wd) ∷ r) = elim wd.callback [
  | none ↦ flights r
  | some k ↦ wd.data_ptr ∷ flights r
]
flights (_ ∷ r) = flights r

-- No write reports back and no listener changes. The request stays and no callback is called, or it
-- goes and its callback is called once.
abbrev pub Settled : Att → Att → List Event → Type 0
Settled a b events =
    (b.notification_map ≡ a.notification_map)
    × (flights events ≡ [])
    × (((b.current_request ≡ a.current_request) × (data_calls events ≡ []))
        ⊎ ((b.current_request ≡ none) × (data_calls events ≡ held a.current_request)))

module _ (h : Host) (a b : Att) (events : List Event) where
  module _ (status : ℕ) (rd : ReadData) (buf : Option (List ℕ)) (len : ℤ) (error : Option Message)
      (busy : a.current_request ≡ some rd) where
    find_info-Settled :
        handle_find_info h a status rd buf len error ≡ done (b, events) → Settled a b events
    unfolding handle_find_info do_find_information write finish_list remove_current_request
    find_info-Settled d = ground arith

    find_by_type-Settled :
        handle_find_by_type h a status rd buf len error ≡ done (b, events) → Settled a b events
    unfolding handle_find_by_type do_find_by_type write finish_list remove_current_request
    find_by_type-Settled d = ground arith

    read_by_type-Settled :
        handle_read_by_type h a status rd buf len error ≡ done (b, events) → Settled a b events
    unfolding handle_read_by_type finish_list remove_current_request
    read_by_type-Settled d = ground arith

    read_by_group_type-Settled :
        handle_read_by_group_type h a status rd buf len error ≡ done (b, events)
        → Settled a b events
    unfolding handle_read_by_group_type do_read_by_group_type write finish_list
        remove_current_request
    read_by_group_type-Settled d = ground arith

    read_attribute-Settled :
        handle_read_attribute a status rd buf len error ≡ done (b, events) → Settled a b events
    unfolding handle_read_attribute remove_current_request
    read_attribute-Settled d = ground arith

    call_back-Settled :
        (cb : Option ReadCallback)
        → cb ≢ some on_notification
        → call_back h a cb status rd buf len error ≡ done (b, events)
        → Settled a b events
    unfolding call_back
    call_back-Settled none k d = ground arith
    call_back-Settled (some on_find_info) k d = find_info-Settled d
    call_back-Settled (some on_find_by_type) k d = find_by_type-Settled d
    call_back-Settled (some on_read_by_type) k d = read_by_type-Settled d
    call_back-Settled (some on_read_by_group_type) k d = read_by_group_type-Settled d
    call_back-Settled (some on_read_attribute) k d = read_attribute-Settled d
    call_back-Settled (some on_notification) k d = absurd (k refl)

  module _ (asks : kind a.current_request ≢ some on_notification) where
    callback-Settled :
        (o : Option ReadData) (status : ℕ) (buf : Option (List ℕ)) (len : ℤ)
        (error : Option Message)
        → a.current_request ≡ o
        → callback_current_request h a status buf len error ≡ done (b, events)
        → Settled a b events
    unfolding callback_current_request
    callback-Settled none status buf len error e d = ground arith
    callback-Settled (some rd) status buf len error e d =
        call_back-Settled status rd buf len error e rd.callback (λ q. asks (ap kind e ∙ q))
          (ground arith)

    report-Settled : (m : Message) → report a m ≡ done (b, events) → Settled a b events
    unfolding report
    report-Settled m d = ground arith

    error-Settled : (buf : List ℕ) → handle_error h a buf ≡ done (b, events) → Settled a b events
    unfolding handle_error
    error-Settled buf d =
        let (request, _, d) = >>=-eq-done (byte_at buf 1) _ d in
        let (code, _, d) = >>=-eq-done (byte_at buf 4) _ d in
        let (handle, _, d) = >>=-eq-done (host_u16_at h buf 2) _ d in
        let message = error_message request handle code in
        elim (if-eq (is_current a request) _ _ d) [
          | inl (_, d) ↦ callback-Settled a.current_request code none (pos 0) (some message) refl d
          | inr (_, d) ↦ report-Settled message d
        ]

    response-Settled :
        (opcode nread : ℕ) (buf : List ℕ)
        → handle_response h a opcode buf nread ≡ done (b, events)
        → Settled a b events
    unfolding handle_response
    response-Settled opcode nread buf d = elim (Option-cases a.current_request) [
      | inl idle ↦ report-Settled (unexpected_data opcode) (ground arith)
      | inr (rd, busy) ↦
          callback-Settled a.current_request 0 (some (drop 1 buf)) (sub_ℕ nread 1) none refl
            (ground arith)
    ]

-- A packet with the opcode of a notification.
abbrev pub is_notice : Option (List ℕ) → Option String → Bool
is_notice (some (opcode ∷ rest)) none = opcode == att_op_handle_notify
is_notice _ _ = false

notify_to-current :
    (h : Host) (a b : Att) (events : List Event) (v : IsValid a) (buf : List ℕ) (nread handle : ℕ)
    (o : Option ReadData)
    → find handle a.notification_map ≡ o
    → notify_to h a buf nread handle o ≡ done (b, events)
    → b.current_request ≡ a.current_request
unfolding notify_to report call_back handle_notification
notify_to-current h a b events v buf nread handle none e d = ground arith
notify_to-current h a b events v buf nread handle (some rd) e d =
    let k = find-Listens handle a.notification_map rd v.listeners e in ground (arith, k)

module _ (h : Host) (a b : Att) (events : List Event) where
  -- What is no notification settles.
  pub handle_read-Settled :
      (buf : Option (List ℕ)) (nread : ℕ) (error : Option String)
      → kind a.current_request ≢ some on_notification
      → is_notice buf error ≡ false
      → handle_read h a buf nread error ≡ done (b, events)
      → Settled a b events
  unfolding handle_read byte_at load_byte
  handle_read-Settled buf nread (some error) asks n d =
      callback-Settled h a b events asks a.current_request 0 none (pos 0) (some (text error)) refl d
  handle_read-Settled none nread none asks n d = ground arith
  handle_read-Settled (some []) nread none asks n d = ground arith
  handle_read-Settled (some (opcode ∷ rest)) nread none asks n d =
      elim (if-eq (opcode == att_op_error) (handle_error h a (opcode ∷ rest)) _ d) [
        | inl (_, d) ↦ error-Settled h a b events asks (opcode ∷ rest) d
        | inr (_, d) ↦ response-Settled h a b events asks opcode nread (opcode ∷ rest) (rw n at d)
      ]

  handle_notify-current :
      IsValid a
      → (opcode nread : ℕ) (rest : List ℕ)
      → handle_notify h a (opcode ∷ rest) nread ≡ done (b, events)
      → b.current_request ≡ a.current_request
  unfolding handle_notify
  handle_notify-current v opcode nread rest d =
      let (handle, _, d) = >>=-eq-done (host_u16_at h (opcode ∷ rest) 1) _ d in
      notify_to-current h a b events v (opcode ∷ rest) nread handle (find handle a.notification_map)
        refl d

  pub handle_read-current :
      IsValid a
      → (buf : Option (List ℕ)) (nread : ℕ) (error : Option String) → is_notice buf error ≡ true
      → handle_read h a buf nread error ≡ done (b, events)
      → b.current_request ≡ a.current_request
  unfolding handle_read byte_at load_byte handle_notify
  handle_read-current v buf nread (some error) n d = ground arith
  handle_read-current v none nread none n d = ground arith
  handle_read-current v (some []) nread none n d = ground arith
  handle_read-current v (some (opcode ∷ rest)) nread none n d =
      elim (if-eq (opcode == att_op_error) (handle_error h a (opcode ∷ rest)) _ d) [
        | inl (one, d) ↦ absurd (ground arith)
        | inr (_, d) ↦ handle_notify-current v opcode nread rest (rw n at d)
      ]

-- A notification is handed to `handleNotify`.
pub handle_read_notice :
    (h : Host) (a b : Att) (events : List Event) (buf : Option (List ℕ)) (nread : ℕ)
    (error : Option String)
    → is_notice buf error ≡ true
    → handle_read h a buf nread error ≡ done (b, events)
    → (opcode : ℕ) × (rest : List ℕ) × (handle_notify h a (opcode ∷ rest) nread ≡ done (b, events))
unfolding handle_read byte_at load_byte
handle_read_notice h a b events buf nread (some error) n d = absurd (ground arith)
handle_read_notice h a b events none nread none n d = absurd (ground arith)
handle_read_notice h a b events (some []) nread none n d = absurd (ground arith)
handle_read_notice h a b events (some (opcode ∷ rest)) nread none n d =
    elim (if-eq (opcode == att_op_error) (handle_error h a (opcode ∷ rest)) _ d) [
      | inl (one, d) ↦ absurd (ground arith)
      | inr (_, d) ↦ (opcode, rest, rw n at d)
    ]
