-- ===== src/Att/Request.antt =====
-- The methods by which the peripheral makes requests.
use btle_js.Prelude.{
  ℕ, List, [], ◌∷◌, Option, none, some, Outcome, done, deref, ◌>>=◌, if◌then◌else◌, ◌==◌, pos, map,
}
use btle_js.Host.{Host, Uuid}
use btle_js.Wire.{encode}
use btle_js.Connection.{get_buffer, write, Connected, CloseData}
use btle_js.Connection
use btle_js.Pdu.{
  att_op_find_info_req, att_op_find_info_resp, att_op_find_by_type_req, att_op_find_by_type_resp,
  att_op_read_by_type_req, att_op_read_by_type_resp, att_op_read_by_group_req,
  att_op_read_by_group_resp, att_op_read_req, att_op_read_resp, att_op_write_cmd, att_op_write_req,
  get_opcode_name,
}
use btle_js.Att.State.{
  Att, Event, ReadData, ReadCallback, new_read_data, null, pending, on_connection, call_list,
  call_attribute, set_current_request, on_find_info, on_find_by_type, on_read_by_type,
  on_read_by_group_type, on_read_attribute, on_notification,
}
use btle_js.Att.Respond.{
  do_find_information, do_find_by_type, do_read_by_type, do_read_by_group_type,
}

-- `if (setCurrentRequest(…)) …; else callback(0, data, NULL, "Request already pending: …")`
request_list : Att → ReadData → ℕ → (Att → Outcome (Att × List Event)) → Outcome (Att × List Event)
unfolding set_current_request
request_list a rd callback start =
    let (a', set) = set_current_request a rd in
    if set then start a' else (do
      r ← deref a'.current_request
      let error = pending (get_opcode_name r.request)
      done (a', call_list callback 0 rd.data_ptr null (some error) ∷ []))

-- The handle is the last of the range, so that a response can tell whether to ask on.
abbrev pub list_request : ReadCallback → ℕ → ℕ → ℕ → ℕ → Option Uuid → ℕ → ReadData
list_request on_response request response data_ptr end_handle type callback = record new_read_data {
  request = request;
  expected_response = response;
  data_ptr = data_ptr;
  handle = end_handle;
  type = type;
  callback = some on_response;
  attr_list_cb = some callback;
}

unfoldable pub find_information : Host → Att → ℕ → ℕ → ℕ → ℕ → Outcome (Att × List Event)
unfolding request_list
find_information h a start_handle end_handle callback data_ptr =
    request_list a
      (list_request on_find_info att_op_find_info_req att_op_find_info_resp data_ptr end_handle none
        callback)
      callback λ a. do_find_information h a start_handle end_handle

unfoldable pub find_by_type_value :
    Host → Att → ℕ → ℕ → Uuid → Option (List ℕ) → ℕ → ℕ → ℕ → Outcome (Att × List Event)
unfolding request_list
find_by_type_value h a start_handle end_handle type value vlen callback data_ptr =
    let rd =
      list_request on_find_by_type att_op_find_by_type_req att_op_find_by_type_resp data_ptr
        end_handle (some type) callback in
    let rd = record rd { value = value; vlen = elim value [ none ↦ 0 | some _ ↦ vlen ] } in
    request_list a rd callback
      λ a. do_find_by_type h a start_handle end_handle (some type) value vlen

unfoldable pub read_by_type : Host → Att → ℕ → ℕ → Uuid → ℕ → ℕ → Outcome (Att × List Event)
unfolding request_list
read_by_type h a start_handle end_handle type callback data_ptr =
    request_list a
      (list_request on_read_by_type att_op_read_by_type_req att_op_read_by_type_resp data_ptr
        end_handle (some type) callback)
      callback λ a. do_read_by_type h a start_handle end_handle (some type)

unfoldable pub read_by_group_type : Host → Att → ℕ → ℕ → Uuid → ℕ → ℕ → Outcome (Att × List Event)
unfolding request_list
read_by_group_type h a start_handle end_handle type callback data_ptr =
    request_list a
      (list_request on_read_by_group_type att_op_read_by_group_req att_op_read_by_group_resp
        data_ptr end_handle (some type) callback)
      callback λ a. do_read_by_group_type h a start_handle end_handle (some type)

-- A PDU with one handle: a buffer, `encode`, `Connection::write`.
unfoldable pub send_handle :
    Host → Att → ℕ → ℕ → Option (List ℕ) → ℕ → Option ℕ → ℕ → Outcome (Att × List Event)
send_handle h a opcode handle value vlen callback cb_data = do
  let buf = get_buffer h a.connection
  (base, len) ← encode h opcode handle buf.0 buf.1 value vlen
  done (a, on_connection (write a.connection base len callback cb_data) ∷ [])

unfoldable pub read_attribute : Host → Att → ℕ → ℕ → ℕ → Outcome (Att × List Event)
unfolding set_current_request send_handle
read_attribute h a handle callback data_ptr =
    let rd = record new_read_data {
      request = att_op_read_req;
      expected_response = att_op_read_resp;
      data_ptr = data_ptr;
      handle = handle;
      callback = some on_read_attribute;
      read_attr_cb = some callback;
    } in
    let (a', set) = set_current_request a rd in
    if set then send_handle h a' att_op_read_req handle none 0 none 0 else (do
      r ← deref a'.current_request
      let error = pending (get_opcode_name r.request)
      done (a', call_attribute callback 0 data_ptr none (pos 0) (some error) ∷ []))

unfoldable pub write_command :
    Host → Att → ℕ → Option (List ℕ) → ℕ → Option ℕ → ℕ → Outcome (Att × List Event)
unfolding send_handle
write_command h a handle value length callback cb_data =
    send_handle h a att_op_write_cmd handle value length callback cb_data

unfoldable pub write_request :
    Host → Att → ℕ → Option (List ℕ) → ℕ → Option ℕ → ℕ → Outcome (Att × List Event)
unfolding send_handle
write_request h a handle value length callback cb_data =
    send_handle h a att_op_write_req handle value length callback cb_data

-- `std::map::find` and `std::map::insert`, which keeps the entry of a key that is there.
unfoldable pub find : ℕ → List (ℕ × ReadData) → Option ReadData
find handle [] = none
find handle ((k, rd) ∷ rest) = if k == handle then some rd else find handle rest

unfoldable pub insert : ℕ → ReadData → List (ℕ × ReadData) → List (ℕ × ReadData)
unfolding find
insert handle rd map = elim (find handle map) [ none ↦ (handle, rd) ∷ map | some _ ↦ map ]

unfoldable pub listen_for_notifications : Att → ℕ → ℕ → ℕ → Att
unfolding insert
listen_for_notifications a handle callback data_ptr =
    let rd = record new_read_data {
      data_ptr = data_ptr;
      handle = handle;
      callback = some on_notification;
      read_attr_cb = some callback;
    } in
    record a { notification_map = insert handle rd a.notification_map }

-- `Att::onError`
unfoldable pub on_error : Att → ℕ → ℕ → Att
on_error a handler data_ptr = record a {
  error_handler = some (record { callback = handler; data_ptr = data_ptr });
}

-- `Att::close`
unfoldable pub close : Att → Option ℕ → ℕ → Att × List Event
close a callback data_ptr =
    let (c, events) = Connection.close a.connection callback data_ptr in
    (record a { connection = c }, map on_connection events)
