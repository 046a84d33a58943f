-- ===== src/Peripheral/Dispatch.antt =====
-- What the calls of `Att` and of `Connection` through their callbacks come to.
use btle_js.Prelude.{
  ℕ, Outcome, done, fault, deref, ◌>>=◌, List, [], ◌∷◌, ◌++◌, Option, none, some, if◌then◌else◌,
  ◌==◌, ℤ, pos, negsuc,
}
use btle_js.Parse.{AttributeInfo, HandlesInfo, AttributeData, GroupAttributeData}
use btle_js.Connection.{
  Connection, Connected, TcpData, CloseData, WriteData, call_connect, call_write, call_close,
  call_read,
}
use btle_js.Connection
use btle_js.Att.State.{
  Att, AttrList, Message, attributes, handles, groups, call_list, call_attribute, call_error,
  on_connection,
}
use btle_js.Att.State
use btle_js.Att.Read
use btle_js.Peripheral.State.{
  Peripheral, Event, World, on_att, on_link, fn_find_information, fn_find_by_type, fn_read_by_type,
  fn_read_by_group_type, fn_read_attribute, fn_read_notification,
}
use btle_js.Peripheral.Replies.{
  get_attribute_info, get_handles_info, get_attribute_data, get_group_attribute_data, handle_list,
  on_read_attribute, on_read_notification, on_write, on_close, handle_connect, emit_error_text,
}

-- `(Att::AttributeInfoList*) list`, and so for the others: a pointer to another list is a fault.
unfoldable pub info_list : AttrList → Outcome (Option (List AttributeInfo))
info_list State.null = done none
info_list (attributes list) = done (some list)
info_list _ = fault

unfoldable pub handles_list : AttrList → Outcome (Option (List HandlesInfo))
handles_list State.null = done none
handles_list (handles list) = done (some list)
handles_list _ = fault

unfoldable pub data_list : AttrList → Outcome (Option (List AttributeData))
data_list State.null = done none
data_list (State.attribute_data list) = done (some list)
data_list _ = fault

unfoldable pub group_list : AttrList → Outcome (Option (List GroupAttributeData))
group_list State.null = done none
group_list (groups list) = done (some list)
group_list _ = fault

module _ {Value : Type 0} (w : World Value) where
  abbrev pub Step : Type 0
  Step = Outcome (Peripheral Value × List (Event Value))

  -- `onFindInformation` and `handleFindInformation`
  unfoldable pub on_find_information : Peripheral Value → ℕ → ℕ → AttrList → Option Message → Step
  unfolding info_list handle_list
  on_find_information p d status list error = do
    list ← info_list list
    handle_list (get_attribute_info w) p d status list error

  -- `onFindByType` and `handleFindByType`
  unfoldable pub on_find_by_type : Peripheral Value → ℕ → ℕ → AttrList → Option Message → Step
  unfolding handles_list handle_list
  on_find_by_type p d status list error = do
    list ← handles_list list
    handle_list get_handles_info p d status list error

  -- `onReadByType` and `handleReadByType`
  unfoldable pub on_read_by_type : Peripheral Value → ℕ → ℕ → AttrList → Option Message → Step
  unfolding data_list handle_list
  on_read_by_type p d status list error = do
    list ← data_list list
    handle_list get_attribute_data p d status list error

  -- `onReadByGroupType` and `handleReadByGroupType`
  unfoldable pub on_read_by_group_type : Peripheral Value → ℕ → ℕ → AttrList → Option Message → Step
  unfolding group_list handle_list
  on_read_by_group_type p d status list error = do
    list ← group_list list
    handle_list get_group_attribute_data p d status list error

  -- A call of an `AttributeListCallback` by its number.
  unfoldable pub call_list_callback :
      Peripheral Value → ℕ → ℕ → ℕ → AttrList → Option Message → Step
  unfolding on_find_information on_find_by_type on_read_by_type on_read_by_group_type
  call_list_callback p k status d list error =
      if k == fn_find_information
      then on_find_information p d status list error
      else if k == fn_find_by_type
      then on_find_by_type p d status list error
      else if k == fn_read_by_type
      then on_read_by_type p d status list error
      else if k == fn_read_by_group_type
      then on_read_by_group_type p d status list error
      else fault

  -- A call of a `ReadAttributeCallback` by its number.
  unfoldable pub call_attribute_callback :
      Peripheral Value → ℕ → ℕ → ℕ → Option (List ℕ) → ℤ → Option Message → Step
  unfolding on_read_attribute on_read_notification
  call_attribute_callback p k status d buf len error =
      if k == fn_read_attribute
      then on_read_attribute p d status buf len error
      else if k == fn_read_notification
      then on_read_notification p d status buf len error
      else fault

  -- One event of `Att`; `onError` emits the text.
  unfoldable pub att_event : Peripheral Value → State.Event → Step
  unfolding call_list_callback call_attribute_callback emit_error_text
  att_event p (call_list k status d list error) = call_list_callback p k status d list error
  att_event p (call_attribute k status d buf len error) =
      call_attribute_callback p k status d buf len error
  att_event p (call_error k d message) = done (p, emit_error_text w message ∷ [])
  att_event p event = done (p, on_att event ∷ [])

  unfoldable pub att_events : Peripheral Value → List State.Event → Step
  unfolding att_event
  att_events p [] = done (p, [])
  att_events p (event ∷ rest) = do
    (p, events) ← att_event p event
    (p, more) ← att_events p rest
    done (p, events ++ more)

  -- The next state of the `Att` and what it did.
  unfoldable pub after : Peripheral Value → Outcome (Att × List State.Event) → Step
  unfolding att_events
  after p run = do (a, events) ← run; att_events (record p { att = some a }) events

  abbrev pub size : ℤ → ℕ
  size (pos n) = n
  size (negsuc n) = 0

  -- One event of the `Connection`. `Att::onRead` hands a read to `handleRead`, where the length
  -- counts only if there is no error.
  unfoldable pub link_event : Peripheral Value → Connection.Event → Step
  unfolding after handle_connect on_write on_close
  link_event p (call_connect k d status events) = done (p, handle_connect w p status)
  link_event p (call_write k d error) = on_write w p d error
  link_event p (call_close k d) = do events ← on_close w p; done (p, events)
  link_event p (call_read k d buf nread error) = do
    a ← deref p.att
    after p (Read.handle_read w.host a buf (size nread) error)
  link_event p event = done (p, on_link event ∷ [])

  unfoldable pub link_events : Peripheral Value → List Connection.Event → Step
  unfolding link_event
  link_events p [] = done (p, [])
  link_events p (event ∷ rest) = do
    (p, events) ← link_event p event
    (p, more) ← link_events p rest
    done (p, events ++ more)
