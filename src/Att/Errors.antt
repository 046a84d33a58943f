-- ===== src/Att/Errors.antt =====
-- What an error on the connection or from the device comes to.
use btle_js.Prelude.{
  ℕ, ◌+◌, ◌≡◌, ◌≢◌, refl, List, [], ◌∷◌, ◌++◌, Option, none, some, String, done, fault, pos, ℤ,
  arith,
}
use btle_js.Host.{Host}
use btle_js.Parse.{
  parse_attribute_list, parse_handles_information_list, parse_group_attribute_data_list, load_byte,
}
use btle_js.Pdu.{get_error_string}
use btle_js.Att.State.{
  Att, ReadData, ReadCallback, Message, text, null, attribute_data, call_list, call_attribute,
  delete_request, on_find_info, on_find_by_type, on_read_by_type, on_read_by_group_type,
  on_read_attribute, remove_current_request,
}
use btle_js.Att.Respond.{
  handle_find_info, handle_find_by_type, handle_read_by_type, handle_read_by_group_type,
  handle_read_attribute, finish_list, call_back, callback_current_request,
}
use btle_js.Att.Read.{handle_read, handle_response, byte_at}

-- A client that waits for the response that the handler `cb` takes.
abbrev pub awaiting : Att → ReadData → ReadCallback → ℕ → Att
awaiting a rd cb k = record a {
  current_request =
      some (record rd { callback = some cb; read_attr_cb = some k; attr_list_cb = some k });
}

abbrev pub request_of : ReadData → ReadCallback → ℕ → ReadData
request_of rd cb k = record rd { callback = some cb; read_attr_cb = some k; attr_list_cb = some k }

module _ (h : Host) (a : Att) (rd : ReadData) (k : ℕ) (buf : Option (List ℕ)) (nread : ℕ)
    (message : String) where
  -- While a read by type or a read of one attribute is outstanding, a read error removes the
  -- request and is handed to its callback, with status 0.
  pub read_error_reported :
      (handle_read h (awaiting a rd on_read_by_type k) buf nread (some message)
        ≡ done (
          record a { current_request = none },
          delete_request (request_of rd on_read_by_type k)
              ∷ call_list k 0 rd.data_ptr (attribute_data []) (some (text message))
              ∷ [],
        ))
      × (handle_read h (awaiting a rd on_read_attribute k) buf nread (some message)
          ≡ done (
            record a { current_request = none },
            delete_request (request_of rd on_read_attribute k)
                ∷ call_attribute k 0 rd.data_ptr none (pos 0) (some (text message))
                ∷ [],
          ))
  unfolding handle_read callback_current_request call_back handle_read_by_type handle_read_attribute
      finish_list
  read_error_reported = (refl, refl)

  -- A read error faults in four states: with no outstanding request, by a null pointer; with one
  -- for attributes or for groups, by parsing the missing buffer; with one by type and value for
  -- which nothing is collected, by the last element of an empty list.
  pub read_error_faults :
      (handle_read h (record a { current_request = none }) buf nread (some message) ≡ fault)
      × (handle_read h (awaiting a rd on_find_info k) buf nread (some message) ≡ fault)
      × (handle_read h (awaiting a rd on_read_by_group_type k) buf nread (some message) ≡ fault)
      × (handle_read h
            (awaiting (record a { handles_info_list = none }) rd on_find_by_type k)
            buf
            nread
            (some message)
          ≡ fault)
  unfolding handle_read callback_current_request call_back handle_find_info
      handle_read_by_group_type handle_find_by_type parse_attribute_list
      parse_group_attribute_data_list parse_handles_information_list
  read_error_faults = (refl, refl, refl, refl)

module _ (h : Host) (a : Att) (rd : ReadData) (k : ℕ) (buf : Option (List ℕ)) (len : ℤ)
    (error : Option Message) where
  -- "Attribute not found" when nothing is collected: the requests for attributes and for groups
  -- report success with a null list and no error, the request by type and value a null list and the
  -- text of the error.
  pub not_found_at_once :
      (handle_find_info h
          (record a { attribute_list = none })
          10
          (request_of rd on_find_info k)
          buf
          len
          error
        ≡ done (
          (remove_current_request (record a { attribute_list = none })).0,
          (remove_current_request a).1 ++ (call_list k 0 rd.data_ptr null none ∷ []),
        ))
      × (handle_read_by_group_type h
            (record a { group_attribute_list = none })
            10
            (request_of rd on_read_by_group_type k)
            buf
            len
            error
          ≡ done (
            (remove_current_request (record a { group_attribute_list = none })).0,
            (remove_current_request a).1 ++ (call_list k 0 rd.data_ptr null none ∷ []),
          ))
      × (handle_find_by_type h
            (record a { handles_info_list = none })
            10
            (request_of rd on_find_by_type k)
            buf
            len
            error
          ≡ done (
            (remove_current_request (record a { handles_info_list = none })).0,
            (remove_current_request a).1
                ++ (call_list k 0 rd.data_ptr null
                      (some (text "No attribute found corresponding to the given handle"))
                    ∷ []),
          ))
  unfolding handle_find_info handle_read_by_group_type handle_find_by_type get_error_string
      finish_list
  not_found_at_once = (refl, refl, refl)

-- While an attribute is being read, a PDU with any opcode but 0x01 and 0x1B completes the request
-- with what follows the opcode: the expected response is not compared.
pub any_response_completes :
    (h : Host) (a : Att) (rd : ReadData) (k opcode nread : ℕ) (payload : List ℕ)
    → opcode ≢ 1
    → opcode ≢ 27
    → handle_read h (awaiting a rd on_read_attribute k) (some (opcode ∷ payload)) (nread + 1) none
      ≡ done (
        record a { current_request = none },
        delete_request (request_of rd on_read_attribute k)
            ∷ call_attribute k 0 rd.data_ptr (some payload) (pos nread) none
            ∷ [],
      )
unfolding handle_read byte_at load_byte handle_response callback_current_request call_back
    handle_read_attribute
any_response_completes h a rd k opcode nread payload e n = ground arith
