-- ===== src/Parse.antt =====
-- The four list parsers of src/att.cc and the structures of src/att.h that they fill.
pub mod Loop
pub mod RoundTrip
pub mod Total
pub mod Decoder
use btle_js.Prelude.{
  ℕ, zero, suc, ◌+◌, ◌-◌, ◌%◌, ◌^◌, List, [], ◌∷◌, ◌++◌, Option, none, some, Outcome, done, fault,
  stuck, deref, ◌>>=◌, true, false, if◌then◌else◌, ◌==◌, ℤ, pos, negsuc, below,
}
use btle_js.Host.{Host, Uuid}
use btle_js.Wire.{att_get_u16, att_get_uuid16, att_get_uuid128}
use btle_js.Wire.Memory.{load_bytes}

pub record AttributeInfo : Type 0 where
  pub handle : ℕ
  pub type : Uuid

pub record HandlesInfo : Type 0 where
  pub handle : ℕ
  pub group_end_handle : ℕ

-- `bytes` is the used part of the array `data`, `len` the field `length`.
pub record AttributeData : Type 0 where
  pub handle : ℕ
  pub bytes : List ℕ
  pub len : ℕ

pub record GroupAttributeData : Type 0 where
  pub handle : ℕ
  pub group_end_handle : ℕ
  pub bytes : List ℕ
  pub len : ℕ

-- `*ptr++`
unfoldable pub load_byte : Option (List ℕ) → Outcome (ℕ × List ℕ)
load_byte none = fault
load_byte (some []) = fault
load_byte (some (b ∷ next)) = done (b, next)

-- `while (ptr - buf < len) { …; list.push_back(…); }`, where `off` is `ptr - buf`. An entry says
-- how many bytes it took.
module _ {A : Type 0} (entry : List ℕ → Outcome (A × ℕ × List ℕ)) where
  unfoldable pub entries : ℕ → ℕ → Option (List ℕ) → ℤ → List A → Outcome (List A)
  entries zero off ptr len list = if below off len then stuck else done list
  entries (suc fuel) off ptr len list = elim (below off len) [
    | false ↦ done list
    | true ↦ do
      p ← deref ptr
      (a, n, next) ← entry p
      entries fuel (off + n) (some next) len (list ++ (a ∷ []))
  ]

-- A round takes a byte at least, so `len` rounds are enough.
abbrev pub rounds : ℤ → ℕ
rounds (pos n) = n
rounds (negsuc n) = 0

abbrev att_find_info_resp_fmt_16bit : ℕ
att_find_info_resp_fmt_16bit = 0x01

unfoldable pub attribute_entry : Host → ℕ → List ℕ → Outcome (AttributeInfo × ℕ × List ℕ)
attribute_entry h format ptr = do
  (handle, ptr) ← att_get_u16 h ptr
  if format == att_find_info_resp_fmt_16bit
      then (do
        (type, ptr) ← att_get_uuid16 h ptr
        done (record { handle = handle; type = type }, 4, ptr))
      else (do
        (type, ptr) ← att_get_uuid128 h ptr
        done (record { handle = handle; type = type }, 18, ptr))

unfoldable pub parse_attribute_list :
    Host → List AttributeInfo → Option (List ℕ) → ℤ → Outcome (List AttributeInfo)
unfolding load_byte attribute_entry entries
parse_attribute_list h list buf len = do
  (format, ptr) ← load_byte buf
  entries (attribute_entry h format) (rounds len) 1 (some ptr) len list

unfoldable pub handles_entry : Host → List ℕ → Outcome (HandlesInfo × ℕ × List ℕ)
handles_entry h ptr = do
  (handle, ptr) ← att_get_u16 h ptr
  (group_end_handle, ptr) ← att_get_u16 h ptr
  done (record { handle = handle; group_end_handle = group_end_handle }, 4, ptr)

unfoldable pub parse_handles_information_list :
    Host → List HandlesInfo → Option (List ℕ) → ℤ → Outcome (List HandlesInfo)
unfolding handles_entry entries
parse_handles_information_list h list buf len =
    entries (handles_entry h) (rounds len) 0 buf len list

-- The third argument of a `memcpy`: the `int` `a - b` as a `size_t`.
abbrev pub size_sub : ℕ → ℕ → ℕ
size_sub a b = (a + 2 ^ 64 - b) % 2 ^ 64

unfoldable pub data_entry : Host → ℕ → List ℕ → Outcome (AttributeData × ℕ × List ℕ)
data_entry h length ptr = do
  (handle, ptr) ← att_get_u16 h ptr
  (bytes, ptr) ← load_bytes (some ptr) (size_sub length 2)
  done (record { handle = handle; bytes = bytes; len = size_sub length 2 }, length, ptr)

unfoldable pub parse_attribute_data_list :
    Host → List AttributeData → Option (List ℕ) → ℤ → Outcome (List AttributeData)
unfolding load_byte data_entry entries
parse_attribute_data_list h list buf len = do
  (length, ptr) ← load_byte buf
  entries (data_entry h length) (rounds len) 1 (some ptr) len list

unfoldable pub group_entry : Host → ℕ → List ℕ → Outcome (GroupAttributeData × ℕ × List ℕ)
group_entry h length ptr = do
  (handle, ptr) ← att_get_u16 h ptr
  (group_end_handle, ptr) ← att_get_u16 h ptr
  (bytes, ptr) ← load_bytes (some ptr) (size_sub length 4)
  done (
    record {
      handle = handle;
      group_end_handle = group_end_handle;
      bytes = bytes;
      len = size_sub length 4;
    },
    length,
    ptr,
  )

unfoldable pub parse_group_attribute_data_list :
    Host → List GroupAttributeData → Option (List ℕ) → ℤ → Outcome (List GroupAttributeData)
unfolding load_byte group_entry entries
parse_group_attribute_data_list h list buf len = do
  (length, ptr) ← load_byte buf
  entries (group_entry h length) (rounds len) 1 (some ptr) len list
