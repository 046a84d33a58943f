-- ===== src/Options.antt =====
-- `setOpts` of src/util.cc: the options of a connection from a JavaScript object, into `struct
-- set_opts` of src/btio.h.
pub mod Ranges
use btle_js.Prelude.{
  ℕ, ◌^◌, Bool, true, false, ◌&&◌, Option, none, some, String, ℤ, pos, negsuc, leb, if◌then◌else◌,
}
use text.Mathlib.Text.{starts_with}
use btle_js.Js.{Js, wrap, get_int_value, get_boolean_value}

-- Constants and address functions of libbluetooth. `hci_address` is `hci_devba(atoi(src + 3))`.
pub record Bluetooth : Type 0 where
  pub bdaddr_bredr : ℕ
  pub bdaddr_le_public : ℕ
  pub bdaddr_le_random : ℕ
  pub bt_security_sdp : ℕ
  pub bt_security_low : ℕ
  pub bt_security_high : ℕ
  pub l2cap_mode_basic : ℕ
  pub l2cap_mode_streaming : ℕ
  pub bdaddr_any : ℕ
  pub hci_address : String → ℕ
  pub str2ba : String → ℕ

abbrev pub bt_io_l2cap : ℕ
bt_io_l2cap = 0

abbrev pub bt_io_sco : ℕ
bt_io_sco = 2

abbrev att_cid : ℕ
att_cid = 4

pub record SetOpts : Type 0 where
  pub src : ℕ
  pub dst : ℕ
  pub type : ℕ
  pub src_type : ℕ
  pub dst_type : ℕ
  pub defer : ℤ
  pub sec_level : ℤ
  pub channel : ℕ
  pub psm : ℕ
  pub cid : ℕ
  pub mtu : ℕ
  pub imtu : ℕ
  pub omtu : ℕ
  pub master : ℤ
  pub mode : ℕ
  pub flushable : ℤ
  pub priority : ℕ

-- `threw` is `ThrowException(Exception::TypeError(…)); return false;`.
pub data Parsed {ℓ} (A : Type ℓ) : Type ℓ where
  ok : A → Parsed A
  threw : String → Parsed A

infixl 5 ◌>>=◌
unfoldable pub ◌>>=◌ {ℓ κ} : {A : Type ℓ} {B : Type κ} → Parsed A → (A → Parsed B) → Parsed B
ok a >>= f = f a
threw message >>= f = threw message

-- `lo <= n && n <= hi` on `int`s, `lo` and `hi` being no less than 0.
abbrev pub is_within : ℕ → ℕ → ℤ → Bool
is_within lo hi (pos n) = leb lo n && leb n hi
is_within lo hi (negsuc n) = false

abbrev pub is_any : ℤ → Bool
is_any n = true

-- The defaults, over a cleared structure.
unfoldable pub defaults : Bluetooth → SetOpts
defaults bt = record {
  src = 0;
  dst = 0;
  type = bt_io_l2cap;
  src_type = bt.bdaddr_le_public;
  dst_type = bt.bdaddr_le_public;
  defer = pos 30;
  sec_level = pos bt.bt_security_low;
  channel = 0;
  psm = 0;
  cid = att_cid;
  mtu = 0;
  imtu = 0;
  omtu = 0;
  master = negsuc 0;
  mode = bt.l2cap_mode_basic;
  flushable = negsuc 0;
  priority = 0;
}

module _ {Value : Type 0} (js : Js Value) where
  -- One block of `setOpts`: an absent key leaves the options, a value that is no number or not
  -- allowed throws, any other is stored.
  unfoldable pub int_option :
      Option Value
      → (ℤ → Bool)
      → String
      → String
      → (SetOpts → ℤ → SetOpts)
      → SetOpts
      → Parsed SetOpts
  unfolding get_int_value
  int_option none allowed not_number not_allowed store opts = ok opts
  int_option (some value) allowed not_number not_allowed store opts =
      let (exact, n) = get_int_value js value (pos 0) in
      if js.is_number value
      then (if exact && allowed n then ok (store opts n) else threw not_allowed)
      else threw not_number

  unfoldable pub boolean_option : Option Value → SetOpts → Parsed SetOpts
  unfolding get_boolean_value
  boolean_option none opts = ok opts
  boolean_option (some value) opts =
      if js.is_boolean value
      then ok (record opts { flushable = get_boolean_value js value })
      else threw "Flushable option must be true or false"

  -- `getSourceAddr`, or `BDADDR_ANY`.
  unfoldable pub source_option : Bluetooth → Option Value → SetOpts → Parsed SetOpts
  source_option bt none opts = ok (record opts { src = bt.bdaddr_any })
  source_option bt (some value) opts =
      let src = js.string_of value in
      if js.is_string value
      then ok (record opts {
        src = if starts_with src "hci" then bt.hci_address src else bt.str2ba src;
      })
      else threw "Source option must be a string"

  -- `setOpts(opts, options)`: the blocks in the order of the source. The structure is cleared, given
  -- its defaults, and then overwritten key by key.
  unfoldable pub set_opts : Bluetooth → (String → Option Value) → Parsed SetOpts
  unfolding defaults source_option int_option boolean_option
  set_opts bt options = do
    opts ← source_option bt (options "source") (defaults bt)
    opts ←
        int_option (options "type") (is_within bt_io_l2cap bt_io_sco) "Type option must be a number"
          "Type option must be one of the BtIOType values"
          (λ o n. record o { type = wrap (2 ^ 32) n }) opts
    opts ←
        int_option (options "sourceType") (is_within bt.bdaddr_bredr bt.bdaddr_le_random)
          "SourceType option must be a number"
          "SourceType option must be one of the BtAddrType values"
          (λ o n. record o { src_type = wrap (2 ^ 8) n }) opts
    opts ←
        int_option (options "destType") (is_within bt.bdaddr_bredr bt.bdaddr_le_random)
          "DestType option must be a number" "DestType option must be one of the BtAddrType values"
          (λ o n. record o { dst_type = wrap (2 ^ 8) n }) opts
    opts ←
        int_option (options "defer") (is_any) "Defer option must be a number"
          "Defer option must be an integer" (λ o n. record o { defer = n }) opts
    opts ←
        int_option (options "securityLevel") (is_within bt.bt_security_sdp bt.bt_security_high)
          "SecurityLevel option must be a number"
          "SecurityLevel option must be one of the BtSecurityLevel values"
          (λ o n. record o { sec_level = n }) opts
    opts ←
        int_option (options "channel") (is_any) "Channel option must be a number"
          "Channel option must be an integer" (λ o n. record o { channel = wrap (2 ^ 8) n }) opts
    opts ←
        int_option (options "psm") (is_any) "PSM option must be a number"
          "PSM option must be an integer" (λ o n. record o { psm = wrap (2 ^ 16) n }) opts
    opts ←
        int_option (options "cid") (is_any) "CID option must be a number"
          "CID option must be an integer" (λ o n. record o { cid = wrap (2 ^ 16) n }) opts
    opts ←
        int_option (options "mtu") (is_any) "MTU option must be a number"
          "MTU option must be an integer" (λ o n. record o { mtu = wrap (2 ^ 16) n }) opts
    opts ←
        int_option (options "imtu") (is_any) "IMTU option must be a number"
          "IMTU option must be an integer" (λ o n. record o { imtu = wrap (2 ^ 16) n }) opts
    opts ←
        int_option (options "omtu") (is_any) "OMTU option must be a number"
          "OMTU option must be an integer" (λ o n. record o { omtu = wrap (2 ^ 16) n }) opts
    opts ←
        int_option (options "master") (is_any) "Master option must be a number"
          "Master option must be an integer" (λ o n. record o { master = n }) opts
    opts ←
        int_option (options "mode") (is_within bt.l2cap_mode_basic bt.l2cap_mode_streaming)
          "Mode option must be a number"
          "Mode option must be an integer and one of the BtMode values"
          (λ o n. record o { mode = wrap (2 ^ 8) n }) opts
    opts ← boolean_option (options "flushable") opts
    int_option (options "priority") (is_any) "Priority option must be a number"
        "Priority option must be an integer" (λ o n. record o { priority = wrap (2 ^ 32) n }) opts

  -- `setOpts(opts, destination, options)`. After a throw the structure is not used, and is left out.
  unfoldable pub set_opts_to : Bluetooth → String → (String → Option Value) → Parsed SetOpts
  unfolding set_opts
  set_opts_to bt destination options = do
    opts ← set_opts bt options
    ok (record opts { dst = bt.str2ba destination })
