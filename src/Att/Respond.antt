-- ===== src/Att/Respond.antt =====
-- The requests on the wire and the handlers of their responses.
use btle_js.Prelude.{
  ℕ, ◌+◌, ◌%◌, List, [], ◌∷◌, ◌++◌, Option, none, some, Outcome, done, deref, ◌>>=◌, ◌==◌, ltb,
  if◌then◌else◌, ℤ, get_last?,
}
use mathlib.Core.Option
use btle_js.Host.{Host, Uuid}
use btle_js.Wire.{encode_range}
use btle_js.Connection.{get_buffer, write}
use btle_js.Parse.{
  AttributeInfo, HandlesInfo, GroupAttributeData, parse_attribute_list,
  parse_handles_information_list, parse_attribute_data_list, parse_group_attribute_data_list,
}
use btle_js.Pdu.{
  att_op_find_info_req, att_op_find_by_type_req, att_op_read_by_type_req, att_op_read_by_group_req,
  att_ecode_attr_not_found, get_error_string,
}
use btle_js.Att.State.{
  Att, Event, ReadData, ReadCallback, Message, AttrList, null, attributes, handles, attribute_data,
  groups, list_ptr, text, on_connection, call_list, call_attribute, remove_current_request,
  on_find_info, on_find_by_type, on_read_by_type, on_read_by_group_type, on_read_attribute,
  on_notification,
}

-- The body that the four functions `do…` share: a buffer, `encode`, `Connection::write`.
unfoldable pub send_range :
    Host → Att → ℕ → ℕ → ℕ → Option Uuid → Option (List ℕ) → ℕ → Outcome (Att × List Event)
send_range h a opcode start_handle end_handle uuid value vlen = do
  let buf = get_buffer h a.connection
  (base, len) ← encode_range h opcode start_handle end_handle uuid buf.0 buf.1 value vlen
  done (a, on_connection (write a.connection base len none 0) ∷ [])

unfoldable pub do_find_information : Host → Att → ℕ → ℕ → Outcome (Att × List Event)
unfolding send_range
do_find_information h a start_handle end_handle =
    send_range h a att_op_find_info_req start_handle end_handle none none 0

unfoldable pub do_find_by_type :
    Host → Att → ℕ → ℕ → Option Uuid → Option (List ℕ) → ℕ → Outcome (Att × List Event)
unfolding send_range
do_find_by_type h a start_handle end_handle type value vlen =
    send_range h a att_op_find_by_type_req start_handle end_handle type value vlen

unfoldable pub do_read_by_type : Host → Att → ℕ → ℕ → Option Uuid → Outcome (Att × List Event)
unfolding send_range
do_read_by_type h a start_handle end_handle type =
    send_range h a att_op_read_by_type_req start_handle end_handle type none 0

unfoldable pub do_read_by_group_type : Host → Att → ℕ → ℕ → Option Uuid → Outcome (Att × List Event)
unfolding send_range
do_read_by_group_type h a start_handle end_handle type =
    send_range h a att_op_read_by_group_req start_handle end_handle type none 0

-- `removeCurrentRequest(); rd->attrListCb(status, data, list, error);`
unfoldable pub finish_list :
    Att → ReadData → ℕ → AttrList → Option Message → Outcome (Att × List Event)
unfolding remove_current_request
finish_list a rd status list error = do
  let (a, deleted) = remove_current_request a
  callback ← deref rd.attr_list_cb
  done (a, deleted ++ (call_list callback status rd.data_ptr list error ∷ []))

abbrev pub or_new : {A : Type 0} → Option (List A) → List A
or_new none = []
or_new (some list) = list

-- After a response was parsed into `list`: ask on behind its last handle, or call back.
unfoldable pub next_find_info :
    Host → Att → ReadData → ℕ → List AttributeInfo → Option Message → Outcome (Att × List Event)
next_find_info h a rd status list error = do
  last ← deref (get_last? list)
  if ltb last.handle rd.handle
      then do_find_information h a ((last.handle + 1) % 65536) rd.handle
      else finish_list (record a { attribute_list = none }) rd status (attributes list) error

unfoldable pub handle_find_info :
    Host → Att → ℕ → ReadData → Option (List ℕ) → ℤ → Option Message → Outcome (Att × List Event)
unfolding next_find_info
handle_find_info h a status rd buf len error =
    let list = list_ptr attributes a.attribute_list in
    let a' = record a { attribute_list = none } in
    if status == 0
    then (do
      list ← parse_attribute_list h (or_new a.attribute_list) buf len
      next_find_info h (record a { attribute_list = some list }) rd status list error)
    else if status == att_ecode_attr_not_found
    then finish_list a' rd 0 list none
    else finish_list a' rd status list error

unfoldable pub next_find_by_type :
    Host → Att → ReadData → ℕ → List HandlesInfo → Option Message → Outcome (Att × List Event)
next_find_by_type h a rd status list error = do
  last ← deref (get_last? list)
  if ltb last.handle rd.handle
      then do_find_by_type h a ((last.handle + 1) % 65536) rd.handle rd.type rd.value rd.vlen
      else finish_list (record a { handles_info_list = none }) rd status (handles list) error

-- "Attribute not found" ends the list, if there is one.
unfoldable pub end_find_by_type :
    Att → ReadData → ℕ → Option (List HandlesInfo) → Outcome (Att × List Event)
end_find_by_type a rd status none =
    finish_list a rd 0 null (Option.map text (get_error_string status))
end_find_by_type a rd status (some list) =
    finish_list (record a { handles_info_list = none }) rd 0 (handles list) none

unfoldable pub handle_find_by_type :
    Host → Att → ℕ → ReadData → Option (List ℕ) → ℤ → Option Message → Outcome (Att × List Event)
unfolding next_find_by_type end_find_by_type
handle_find_by_type h a status rd buf len error =
    let list = list_ptr handles a.handles_info_list in
    if status == 0
    then (do
      list ← parse_handles_information_list h (or_new a.handles_info_list) buf len
      next_find_by_type h (record a { handles_info_list = some list }) rd status list error)
    else if status == att_ecode_attr_not_found
    then end_find_by_type a rd status a.handles_info_list
    else finish_list (record a { handles_info_list = none }) rd status list error

-- Here the error text decides, not the status.
unfoldable pub handle_read_by_type :
    Host → Att → ℕ → ReadData → Option (List ℕ) → ℤ → Option Message → Outcome (Att × List Event)
handle_read_by_type h a status rd buf len (some error) =
    finish_list a rd status (attribute_data []) (some error)
handle_read_by_type h a status rd buf len none = do
  list ← parse_attribute_data_list h [] buf len
  finish_list a rd status (attribute_data list) none

unfoldable pub next_read_by_group_type :
    Host
    → Att
    → ReadData
    → ℕ
    → List GroupAttributeData
    → Option Message
    → Outcome (Att × List Event)
next_read_by_group_type h a rd status list error = do
  last ← deref (get_last? list)
  if ltb last.handle rd.handle
      then do_read_by_group_type h a ((last.handle + 1) % 65536) rd.handle rd.type
      else finish_list (record a { group_attribute_list = none }) rd status (groups list) error

unfoldable pub handle_read_by_group_type :
    Host → Att → ℕ → ReadData → Option (List ℕ) → ℤ → Option Message → Outcome (Att × List Event)
unfolding next_read_by_group_type
handle_read_by_group_type h a status rd buf len error =
    let list = list_ptr groups a.group_attribute_list in
    let a' = record a { group_attribute_list = none } in
    if status == 0
    then (do
      list ← parse_group_attribute_data_list h (or_new a.group_attribute_list) buf len
      next_read_by_group_type h (record a { group_attribute_list = some list }) rd status list
          error)
    else if status == att_ecode_attr_not_found
    then finish_list a' rd 0 list none
    else finish_list a' rd status list error

-- `rd->readAttrCb(status, data, buf, len, error)`
call_read_attr_cb :
    Att
    → List Event
    → ℕ
    → ReadData
    → Option (List ℕ)
    → ℤ
    → Option Message
    → Outcome (Att × List Event)
call_read_attr_cb a before status rd buf len error = do
  callback ← deref rd.read_attr_cb
  done (a, before ++ (call_attribute callback status rd.data_ptr buf len error ∷ []))

-- `Att::onReadAttribute`
unfoldable pub handle_read_attribute :
    Att → ℕ → ReadData → Option (List ℕ) → ℤ → Option Message → Outcome (Att × List Event)
unfolding call_read_attr_cb remove_current_request
handle_read_attribute a status rd buf len error =
    let (a', deleted) = remove_current_request a in
    call_read_attr_cb a' deleted status rd buf len error

-- `Att::onNotification`
unfoldable pub handle_notification :
    Att → ℕ → ReadData → Option (List ℕ) → ℤ → Option Message → Outcome (Att × List Event)
unfolding call_read_attr_cb
handle_notification a status rd buf len error = call_read_attr_cb a [] status rd buf len error

-- `rd->callback(status, rd, buf, len, error)`
unfoldable pub call_back :
    Host
    → Att
    → Option ReadCallback
    → ℕ
    → ReadData
    → Option (List ℕ)
    → ℤ
    → Option Message
    → Outcome (Att × List Event)
call_back h a none status rd buf len error = done (a, [])
call_back h a (some on_find_info) status rd buf len error =
    handle_find_info h a status rd buf len error
call_back h a (some on_find_by_type) status rd buf len error =
    handle_find_by_type h a status rd buf len error
call_back h a (some on_read_by_type) status rd buf len error =
    handle_read_by_type h a status rd buf len error
call_back h a (some on_read_by_group_type) status rd buf len error =
    handle_read_by_group_type h a status rd buf len error
call_back h a (some on_read_attribute) status rd buf len error =
    handle_read_attribute a status rd buf len error
call_back h a (some on_notification) status rd buf len error =
    handle_notification a status rd buf len error

-- `Att::callbackCurrentRequest`
unfoldable pub callback_current_request :
    Host → Att → ℕ → Option (List ℕ) → ℤ → Option Message → Outcome (Att × List Event)
unfolding call_back
callback_current_request h a status buf len error = do
  rd ← deref a.current_request
  call_back h a rd.callback status rd buf len error
