-- ===== src/Att/State.antt =====
-- The members of `Att` and of `readData`, and what the class does to the outside. Pointers to the
-- user's functions and to their data are numbers.
use btle_js.Prelude.{ℕ, List, [], ◌∷◌, Option, none, some, String, ℤ, Bool, true, false}
use btle_js.Host.{Uuid}
use btle_js.Parse.{AttributeInfo, HandlesInfo, AttributeData, GroupAttributeData}
use btle_js.Connection.{Connection, register_read_callback}
use btle_js.Connection

-- The static functions that a request may name as its `callback`.
pub data ReadCallback : Type 0 where
  on_find_info on_find_by_type on_read_by_type on_read_by_group_type : ReadCallback
  on_read_attribute on_notification : ReadCallback

-- `value` is the bytes behind the pointer of that name.
pub record ReadData : Type 0 where
  pub request : ℕ
  pub expected_response : ℕ
  pub data_ptr : ℕ
  pub handle : ℕ
  pub type : Option Uuid
  pub value : Option (List ℕ)
  pub vlen : ℕ
  pub callback : Option ReadCallback
  pub read_attr_cb : Option ℕ
  pub attr_list_cb : Option ℕ

-- `readData()`
abbrev pub new_read_data : ReadData
new_read_data = record {
  request = 0;
  expected_response = 0;
  data_ptr = 0;
  handle = 0;
  type = none;
  value = none;
  vlen = 0;
  callback = none;
  read_attr_cb = none;
  attr_list_cb = none;
}

-- The texts that are put together with `sprintf`, and those that come from elsewhere.
pub data Message : Type 0 where
  text : String → Message
  pending : Option String → Message
  error_named : Option String → ℕ → String → Message
  error_code : Option String → ℕ → ℕ → Message
  unexpected_notification : ℕ → Message
  unexpected_data : ℕ → Message

-- The `void* list` of an `AttributeListCallback`.
pub data AttrList : Type 0 where
  null : AttrList
  attributes : List AttributeInfo → AttrList
  handles : List HandlesInfo → AttrList
  attribute_data : List AttributeData → AttrList
  groups : List GroupAttributeData → AttrList

abbrev pub list_ptr : {A : Type 0} → (List A → AttrList) → Option (List A) → AttrList
list_ptr f none = null
list_ptr f (some list) = f list

pub record ErrorHandler : Type 0 where
  pub callback : ℕ
  pub data_ptr : ℕ

pub record Att : Type 0 where
  pub connection : Connection
  pub error_handler : Option ErrorHandler
  pub current_request : Option ReadData
  pub attribute_list : Option (List AttributeInfo)
  pub group_attribute_list : Option (List GroupAttributeData)
  pub handles_info_list : Option (List HandlesInfo)
  pub notification_map : List (ℕ × ReadData)

-- `delete_request` is the `delete rd` of `removeCurrentRequest`.
pub data Event : Type 0 where
  on_connection : Connection.Event → Event
  delete_request : ReadData → Event
  call_list : ℕ → ℕ → ℕ → AttrList → Option Message → Event
  call_attribute : ℕ → ℕ → ℕ → Option (List ℕ) → ℤ → Option Message → Event
  call_error : ℕ → ℕ → Message → Event

-- `Att::Att`; `self` is the number of the object and `on_read` that of `Att::onRead`.
unfoldable pub init : ℕ → ℕ → Att
init on_read self = record {
  connection = register_read_callback Connection.init on_read self;
  error_handler = none;
  current_request = none;
  attribute_list = none;
  group_attribute_list = none;
  handles_info_list = none;
  notification_map = [];
}

-- `Att::setCurrentRequest`: a compare-and-swap against NULL.
unfoldable pub set_current_request : Att → ReadData → Att × Bool
set_current_request a rd = elim a.current_request [
  | none ↦ (record a { current_request = some rd }, true)
  | some _ ↦ (a, false)
]

-- `Att::removeCurrentRequest`
unfoldable pub remove_current_request : Att → Att × List Event
remove_current_request a = (
  record a { current_request = none },
  elim a.current_request [ none ↦ [] | some rd ↦ delete_request rd ∷ [] ],
)
