-- ===== src/Pdu/Names.antt =====
-- Which codes have a name.
use btle_js.Prelude.{ℕ, ◌≡◌, Bool, true, false, ◌&&◌, leb, Option, none, some, String, arith}
use btle_js.Pdu.{get_error_string}

abbrev pub has_text : Option String → Bool
has_text none = false
has_text (some text) = true

-- The error codes of the protocol, 0x01 to 0x11, have a text, and no other code has one.
pub get_error_string_range :
    (code : ℕ) → has_text (get_error_string code) ≡ (leb 1 code && leb code 17)
unfolding get_error_string
get_error_string_range code = ground arith
