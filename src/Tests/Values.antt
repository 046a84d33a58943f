-- ===== src/Tests/Values.antt =====
-- JavaScript values that are numbers, functions, strings or buffers, and the constants of bluez.
use btle_js.Prelude.{
  ℕ, List, [], String, true, false, ℤ, pos, negsuc, if◌then◌else◌, ltb, ◌^◌, ◌-◌, same,
}
use btle_js.Js.{Js}
use btle_js.Options.{Bluetooth}

pub data Value : Type 0 where
  number : ℤ → Value
  function : ℕ → Value
  buffer : List ℕ → Value
  string : String → Value
  undefined : Value

-- A cast of a number to `int`, as x86 does it.
abbrev pub to_int : ℤ → ℤ
to_int (pos n) = if ltb n (2 ^ 31) then pos n else negsuc (2 ^ 31 - 1)
to_int (negsuc n) = if ltb n (2 ^ 31) then negsuc n else negsuc (2 ^ 31 - 1)

abbrev pub js : Js Value
js = record {
  is_string = λ v. elim v [ string _ ↦ true | _ ↦ false ];
  is_number = λ v. elim v [ number _ ↦ true | _ ↦ false ];
  is_uint32 = λ v. elim v [ number (pos _) ↦ true | _ ↦ false ];
  is_boolean = λ v. false;
  is_function = λ v. elim v [ function _ ↦ true | _ ↦ false ];
  is_object = λ v. elim v [ buffer _ ↦ true | function _ ↦ true | _ ↦ false ];
  is_null = λ v. false;
  is_buffer = λ v. elim v [ buffer _ ↦ true | _ ↦ false ];
  int_of = λ v. elim v [ number n ↦ to_int n | _ ↦ pos 0 ];
  is_exact = λ v. elim v [ number n ↦ same n (to_int n) | _ ↦ false ];
  integer_of = λ v. elim v [ number n ↦ n | _ ↦ pos 0 ];
  boolean_of = λ v. false;
  string_of = λ v. elim v [ string s ↦ s | _ ↦ "" ];
  buffer_data = λ v. elim v [ buffer bytes ↦ bytes | _ ↦ [] ];
  undefined = undefined;
}

abbrev pub bluetooth : Bluetooth
bluetooth = record {
  bdaddr_bredr = 0;
  bdaddr_le_public = 1;
  bdaddr_le_random = 2;
  bt_security_sdp = 0;
  bt_security_low = 1;
  bt_security_high = 3;
  l2cap_mode_basic = 0;
  l2cap_mode_streaming = 4;
  bdaddr_any = 0;
  hci_address = λ src. 11;
  str2ba = λ src. 12;
}
