-- ===== src/Pdu.antt =====
-- src/btio.h: opcodes and error codes of the attribute protocol. src/att.cc: their names.
pub mod Names
use btle_js.Prelude.{ℕ, String, List, [], ◌∷◌, Option, none, some, ◌==◌, if◌then◌else◌}

abbrev pub att_op_error : ℕ
att_op_error = 0x01

abbrev pub att_op_mtu_req : ℕ
att_op_mtu_req = 0x02

abbrev pub att_op_mtu_resp : ℕ
att_op_mtu_resp = 0x03

abbrev pub att_op_find_info_req : ℕ
att_op_find_info_req = 0x04

abbrev pub att_op_find_info_resp : ℕ
att_op_find_info_resp = 0x05

abbrev pub att_op_find_by_type_req : ℕ
att_op_find_by_type_req = 0x06

abbrev pub att_op_find_by_type_resp : ℕ
att_op_find_by_type_resp = 0x07

abbrev pub att_op_read_by_type_req : ℕ
att_op_read_by_type_req = 0x08

abbrev pub att_op_read_by_type_resp : ℕ
att_op_read_by_type_resp = 0x09

abbrev pub att_op_read_req : ℕ
att_op_read_req = 0x0A

abbrev pub att_op_read_resp : ℕ
att_op_read_resp = 0x0B

abbrev pub att_op_read_blob_req : ℕ
att_op_read_blob_req = 0x0C

abbrev pub att_op_read_blob_resp : ℕ
att_op_read_blob_resp = 0x0D

abbrev pub att_op_read_multi_req : ℕ
att_op_read_multi_req = 0x0E

abbrev pub att_op_read_multi_resp : ℕ
att_op_read_multi_resp = 0x0F

abbrev pub att_op_read_by_group_req : ℕ
att_op_read_by_group_req = 0x10

abbrev pub att_op_read_by_group_resp : ℕ
att_op_read_by_group_resp = 0x11

abbrev pub att_op_write_req : ℕ
att_op_write_req = 0x12

abbrev pub att_op_write_resp : ℕ
att_op_write_resp = 0x13

abbrev pub att_op_write_cmd : ℕ
att_op_write_cmd = 0x52

abbrev pub att_op_prep_write_req : ℕ
att_op_prep_write_req = 0x16

abbrev pub att_op_prep_write_resp : ℕ
att_op_prep_write_resp = 0x17

abbrev pub att_op_exec_write_req : ℕ
att_op_exec_write_req = 0x18

abbrev pub att_op_exec_write_resp : ℕ
att_op_exec_write_resp = 0x19

abbrev pub att_op_handle_notify : ℕ
att_op_handle_notify = 0x1B

abbrev pub att_op_handle_ind : ℕ
att_op_handle_ind = 0x1D

abbrev pub att_op_handle_cnf : ℕ
att_op_handle_cnf = 0x1E

abbrev pub att_op_signed_write_cmd : ℕ
att_op_signed_write_cmd = 0xD2

abbrev pub att_ecode_invalid_handle : ℕ
att_ecode_invalid_handle = 0x01

abbrev pub att_ecode_read_not_perm : ℕ
att_ecode_read_not_perm = 0x02

abbrev pub att_ecode_write_not_perm : ℕ
att_ecode_write_not_perm = 0x03

abbrev pub att_ecode_invalid_pdu : ℕ
att_ecode_invalid_pdu = 0x04

abbrev pub att_ecode_authentication : ℕ
att_ecode_authentication = 0x05

abbrev pub att_ecode_req_not_supp : ℕ
att_ecode_req_not_supp = 0x06

abbrev pub att_ecode_invalid_offset : ℕ
att_ecode_invalid_offset = 0x07

abbrev pub att_ecode_authorization : ℕ
att_ecode_authorization = 0x08

abbrev pub att_ecode_prep_queue_full : ℕ
att_ecode_prep_queue_full = 0x09

abbrev pub att_ecode_attr_not_found : ℕ
att_ecode_attr_not_found = 0x0A

abbrev pub att_ecode_attr_not_long : ℕ
att_ecode_attr_not_long = 0x0B

abbrev pub att_ecode_insuff_encr_key_size : ℕ
att_ecode_insuff_encr_key_size = 0x0C

abbrev pub att_ecode_inval_attr_value_len : ℕ
att_ecode_inval_attr_value_len = 0x0D

abbrev pub att_ecode_unlikely : ℕ
att_ecode_unlikely = 0x0E

abbrev pub att_ecode_insuff_enc : ℕ
att_ecode_insuff_enc = 0x0F

abbrev pub att_ecode_unsupp_grp_type : ℕ
att_ecode_unsupp_grp_type = 0x10

abbrev pub att_ecode_insuff_resources : ℕ
att_ecode_insuff_resources = 0x11

abbrev pub att_ecode_io : ℕ
att_ecode_io = 0x80

abbrev pub att_ecode_timeout : ℕ
att_ecode_timeout = 0x81

abbrev pub att_ecode_aborted : ℕ
att_ecode_aborted = 0x82

-- A `switch` whose cases return a text; the default returns NULL.
unfoldable pub switch : ℕ → List (ℕ × String) → Option String
switch code [] = none
switch code ((c, name) ∷ rest) = if code == c then some name else switch code rest

abbrev pub error_strings : List (ℕ × String)
error_strings =
    (att_ecode_invalid_handle, "Invalid handle")
    ∷ (att_ecode_read_not_perm, "Attribute cannot be read")
    ∷ (att_ecode_write_not_perm, "Attribute cannot be written")
    ∷ (att_ecode_invalid_pdu, "Attribute PDU is invalid")
    ∷ (att_ecode_authentication, "Authentication required")
    ∷ (att_ecode_req_not_supp, "Client request not supported")
    ∷ (att_ecode_invalid_offset, "Offset specified was past end of attribute")
    ∷ (att_ecode_authorization, "Authorization required")
    ∷ (att_ecode_prep_queue_full, "Too many prepare writes have been queued")
    ∷ (att_ecode_attr_not_found, "No attribute found corresponding to the given handle")
    ∷ (att_ecode_attr_not_long, "Attribute cannot be read using the Read Blob request")
    ∷ (att_ecode_insuff_encr_key_size, "Encryption key size is insufficient")
    ∷ (att_ecode_inval_attr_value_len, "Attribute value length was invalid for this operation")
    ∷ (att_ecode_unlikely, "Attribute request encountered unlikely error")
    ∷ (att_ecode_insuff_enc, "Attribute requires encryption before it can be read or written")
    ∷ (att_ecode_unsupp_grp_type, "Attribute type is not a supported grouping attribute")
    ∷ (att_ecode_insuff_resources, "Insufficient Resources to complete the request")
    ∷ []

unfoldable pub get_error_string : ℕ → Option String
unfolding switch
get_error_string code = switch code error_strings

abbrev pub opcode_names : List (ℕ × String)
opcode_names =
    (att_op_error, "error response")
    ∷ (att_op_mtu_req, "exchange MTU request")
    ∷ (att_op_mtu_resp, "exchange MTU response")
    ∷ (att_op_find_info_req, "find info request")
    ∷ (att_op_find_info_resp, "find info response")
    ∷ (att_op_find_by_type_req, "find by type request")
    ∷ (att_op_find_by_type_resp, "find by type response")
    ∷ (att_op_read_by_type_req, "read by type request")
    ∷ (att_op_read_by_type_resp, "read by type response")
    ∷ (att_op_read_req, "read request")
    ∷ (att_op_read_resp, "read response")
    ∷ (att_op_read_blob_req, "read blob request")
    ∷ (att_op_read_blob_resp, "read blob response")
    ∷ (att_op_read_multi_req, "read multiple request")
    ∷ (att_op_read_multi_resp, "read multiple response")
    ∷ (att_op_read_by_group_req, "read by group type request")
    ∷ (att_op_read_by_group_resp, "read by group type response")
    ∷ (att_op_write_req, "write request")
    ∷ (att_op_write_resp, "write response")
    ∷ (att_op_write_cmd, "write command")
    ∷ (att_op_prep_write_req, "prepare write request")
    ∷ (att_op_prep_write_resp, "prepare write response")
    ∷ (att_op_exec_write_req, "execute write request")
    ∷ (att_op_exec_write_resp, "execute write response")
    ∷ (att_op_handle_notify, "handle value notification")
    ∷ (att_op_handle_ind, "handle value indication")
    ∷ (att_op_handle_cnf, "handle value confirmation")
    ∷ (att_op_signed_write_cmd, "signed write command")
    ∷ []

unfoldable pub get_opcode_name : ℕ → Option String
unfolding switch
get_opcode_name opcode = switch opcode opcode_names
