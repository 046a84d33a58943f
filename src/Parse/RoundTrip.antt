-- ===== src/Parse/RoundTrip.antt =====
-- The responses of the attribute protocol as a server prints them, and their parsers' round trips.
-- `slack` is what the read buffer holds behind the received bytes.
use btle_js.Prelude.{ℕ, ◌+◌, ◌<◌, ◌≡◌, List, ◌∷◌, ◌++◌, some, done, pos, length, All, arith}
use btle_js.Host.{Host, HostLaws, Uuid, uuid16, uuid128}
use btle_js.Wire.Load.{le16, get_u16-le16, get_uuid16-le16, get_uuid128-htob128}
use btle_js.Wire.Range.{uuid_bytes}
use btle_js.Wire.Memory.{load_bytes-append}
use btle_js.Parse.{
  AttributeInfo, HandlesInfo, AttributeData, GroupAttributeData, attribute_entry, handles_entry,
  data_entry, group_entry, parse_attribute_list, parse_handles_information_list,
  parse_attribute_data_list, parse_group_attribute_data_list, load_byte, size_sub,
}
use native.Mathlib.Nat.{zero-add}
use btle_js.Parse.Loop.{printed, entries-printed}

abbrev pub attribute_print : Host → AttributeInfo → List ℕ
attribute_print h a = le16 a.handle ++ uuid_bytes h (some a.type)

abbrev pub handles_print : HandlesInfo → List ℕ
handles_print a = le16 a.handle ++ le16 a.group_end_handle

abbrev pub data_print : AttributeData → List ℕ
data_print a = le16 a.handle ++ a.bytes

abbrev pub group_print : GroupAttributeData → List ℕ
group_print a = le16 a.handle ++ (le16 a.group_end_handle ++ a.bytes)

-- What format 1 can carry, and what format 2 can.
abbrev pub IsShort : Uuid → Type 0
IsShort (uuid16 v) = v < 65536
IsShort _ = ⊥

abbrev pub IsLong : Uuid → Type 0
IsLong (uuid128 v) = length v ≡ 16
IsLong _ = ⊥

abbrev pub IsShortInfo : AttributeInfo → Type 0
IsShortInfo a = (a.handle < 65536) × IsShort a.type

abbrev pub IsLongInfo : AttributeInfo → Type 0
IsLongInfo a = (a.handle < 65536) × IsLong a.type

abbrev pub IsHandles : HandlesInfo → Type 0
IsHandles a = (a.handle < 65536) × (a.group_end_handle < 65536)

-- An entry of `n` bytes, handle included.
abbrev pub IsData : ℕ → AttributeData → Type 0
IsData n a = (a.handle < 65536) × (length a.bytes + 2 ≡ n) × (a.len + 2 ≡ n)

abbrev pub IsGroup : ℕ → GroupAttributeData → Type 0
IsGroup n a =
    (a.handle < 65536) × (a.group_end_handle < 65536) × (length a.bytes + 4 ≡ n) × (a.len + 4 ≡ n)

module _ (h : Host) (laws : HostLaws h) where
  short_reads :
      (handle : ℕ) (type : Uuid) (rest : List ℕ)
      → handle < 65536
      → IsShort type
      → attribute_entry h 1 ((le16 handle ++ uuid_bytes h (some type)) ++ rest)
        ≡ done (
          record { handle = handle; type = type },
          length (le16 handle ++ uuid_bytes h (some type)),
          rest,
        )
  unfolding attribute_entry
  short_reads handle (uuid16 v) rest hh ht =
      rw (get_u16-le16 h laws handle (le16 v ++ rest) hh, get_uuid16-le16 h laws v rest ht)
  short_reads handle type rest hh ht = absurd ht

  long_reads :
      (handle : ℕ) (type : Uuid) (rest : List ℕ)
      → handle < 65536
      → IsLong type
      → attribute_entry h 2 ((le16 handle ++ uuid_bytes h (some type)) ++ rest)
        ≡ done (
          record { handle = handle; type = type },
          length (le16 handle ++ uuid_bytes h (some type)),
          rest,
        )
  unfolding attribute_entry
  long_reads handle (uuid128 v) rest hh ht = rw (
    get_u16-le16 h laws handle (h.htob128 v ++ rest) hh,
    get_uuid128-htob128 h laws v rest ht,
    laws.htob128_length v ht,
  )
  long_reads handle type rest hh ht = absurd ht

  handles_reads :
      (a : HandlesInfo) (rest : List ℕ)
      → IsHandles a
      → handles_entry h (handles_print a ++ rest) ≡ done (a, length (handles_print a), rest)
  unfolding handles_entry
  handles_reads a rest g = rw (
    get_u16-le16 h laws a.handle (le16 a.group_end_handle ++ rest) g.0,
    get_u16-le16 h laws a.group_end_handle rest g.1,
  )

  data_reads :
      (n : ℕ)
      → n < 256
      → (a : AttributeData) (rest : List ℕ) → IsData n a
      → data_entry h n (data_print a ++ rest) ≡ done (a, length (data_print a), rest)
  unfolding data_entry
  data_reads n hn a rest g =
      let size : size_sub n 2 ≡ a.len = omega arith in
      let total : n ≡ length (data_print a) = omega arith in
      rw (
        get_u16-le16 h laws a.handle (a.bytes ++ rest) g.0,
        size,
        load_bytes-append a.bytes rest a.len (omega arith),
        total,
      )

  group_reads :
      (n : ℕ)
      → n < 256
      → (a : GroupAttributeData) (rest : List ℕ) → IsGroup n a
      → group_entry h n (group_print a ++ rest) ≡ done (a, length (group_print a), rest)
  unfolding group_entry
  group_reads n hn a rest g =
      let size : size_sub n 4 ≡ a.len = omega arith in
      let total : n ≡ length (group_print a) = omega arith in
      rw (
        get_u16-le16 h laws a.handle (le16 a.group_end_handle ++ (a.bytes ++ rest)) g.0,
        get_u16-le16 h laws a.group_end_handle (a.bytes ++ rest) g.1,
        size,
        load_bytes-append a.bytes rest a.len (omega arith),
        total,
      )

  -- On a host that obeys the laws, the parser of Find Information Responses reads back the
  -- attributes that a server prints in the 16-bit format, for handles and UUIDs of 16 bits, behind
  -- those that are in the list, and ignores what the buffer holds behind the received bytes.
  pub parse_attribute_list-short :
      (list items : List AttributeInfo) (slack : List ℕ)
      → All IsShortInfo items
      → let body = printed (attribute_print h) items in
        parse_attribute_list h list (some (1 ∷ (body ++ slack))) (pos (1 + length body))
        ≡ done (list ++ items)
  unfolding parse_attribute_list load_byte
  parse_attribute_list-short list items slack g =
      entries-printed (attribute_entry h 1) (attribute_print h) IsShortInfo
        (λ a rest k. short_reads a.handle a.type rest k.0 k.1) (λ a k. omega arith) items _ 1 slack
        list g (omega arith)

  -- The same for the 128-bit format, for handles of 16 bits and UUIDs of 16 bytes.
  pub parse_attribute_list-long :
      (list items : List AttributeInfo) (slack : List ℕ)
      → All IsLongInfo items
      → let body = printed (attribute_print h) items in
        parse_attribute_list h list (some (2 ∷ (body ++ slack))) (pos (1 + length body))
        ≡ done (list ++ items)
  unfolding parse_attribute_list load_byte
  parse_attribute_list-long list items slack g =
      entries-printed (attribute_entry h 2) (attribute_print h) IsLongInfo
        (λ a rest k. long_reads a.handle a.type rest k.0 k.1) (λ a k. omega arith) items _ 1 slack
        list g (omega arith)

  -- On a host that obeys the laws, the parser of Find By Type Value Responses reads back the ranges
  -- that a server prints, for handles of 16 bits, behind those that are in the list, and ignores
  -- what the buffer holds behind the received bytes.
  pub parse_handles-printed :
      (list items : List HandlesInfo) (slack : List ℕ)
      → All IsHandles items
      → let body = printed handles_print items in
        parse_handles_information_list h list (some (body ++ slack)) (pos (length body))
        ≡ done (list ++ items)
  unfolding parse_handles_information_list
  parse_handles-printed list items slack g = rw zero-add at (
      entries-printed (handles_entry h) handles_print IsHandles handles_reads (λ a k. omega arith)
        items (length (printed handles_print items)) 0 slack list g (omega arith))

  -- On a host that obeys the laws, the parser of Read By Type Responses reads back the attributes
  -- that a server prints with entries of n < 256 bytes each, for handles of 16 bits, behind those
  -- that are in the list, and ignores what the buffer holds behind the received bytes.
  pub parse_attribute_data-printed :
      (n : ℕ) (list items : List AttributeData) (slack : List ℕ)
      → n < 256
      → All (IsData n) items
      → let body = printed data_print items in
        parse_attribute_data_list h list (some (n ∷ (body ++ slack))) (pos (1 + length body))
        ≡ done (list ++ items)
  unfolding parse_attribute_data_list load_byte
  parse_attribute_data-printed n list items slack hn g =
      entries-printed (data_entry h n) data_print (IsData n) (data_reads n hn) (λ a k. omega arith)
        items _ 1 slack list g (omega arith)

  -- On a host that obeys the laws, the parser of Read By Group Type Responses reads back the groups
  -- that a server prints with entries of n < 256 bytes each, for handles of 16 bits, behind those
  -- that are in the list, and ignores what the buffer holds behind the received bytes.
  pub parse_group-printed :
      (n : ℕ) (list items : List GroupAttributeData) (slack : List ℕ)
      → n < 256
      → All (IsGroup n) items
      → let body = printed group_print items in
        parse_group_attribute_data_list h list (some (n ∷ (body ++ slack))) (pos (1 + length body))
        ≡ done (list ++ items)
  unfolding parse_group_attribute_data_list load_byte
  parse_group-printed n list items slack hn g =
      entries-printed (group_entry h n) group_print (IsGroup n) (group_reads n hn)
        (λ a k. omega arith) items _ 1 slack list g (omega arith)
