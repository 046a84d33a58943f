-- ===== src/Tests/Wire.antt =====
-- PDUs that are written and read on a little-endian machine.
use btle_js.Prelude.{
  ℕ, ◌≡◌, ◌≢◌, ◌>>=◌, refl, List, [], ◌∷◌, ◌++◌, none, some, done, fault, stuck, pos, arith,
}
use btle_js.Host.{uuid16, uuid128}
use btle_js.Wire.{encode, encode_range, sent}
use btle_js.Wire.Encode.{handle_header, range_header, encode-contents}
use btle_js.Wire.Range.{encode_range-uuid, encode_range_overflow}
use btle_js.Parse.{
  AttributeInfo, HandlesInfo, AttributeData, GroupAttributeData, parse_attribute_list,
  parse_handles_information_list, parse_attribute_data_list, parse_group_attribute_data_list,
}
use btle_js.Parse.Decoder.{decode, parse_attribute_list-eq-decode}
use btle_js.Parse.RoundTrip.{
  parse_handles-printed, parse_attribute_data-printed, parse_group-printed,
}
use btle_js.Parse.Total.{parsers_end}
use btle_js.Tests.Sample.{host, host_laws}

encode-contents_example :
    sent (encode host 0x12 3 (some (0 ∷ 0 ∷ 0 ∷ 0 ∷ [])) 4 (some (7 ∷ 8 ∷ [])) 2)
    ≡ done (handle_header 0x12 3 ++ (7 ∷ []))
encode-contents_example =
    encode-contents host host_laws 0x12 3 4 (0 ∷ 0 ∷ 0 ∷ 0 ∷ []) (7 ∷ 8 ∷ []) (omega arith)
      (omega arith) refl

encode_range-uuid_example :
    sent (
      encode_range host 8 1 255
        (some (uuid16 0x2803))
        (some (0 ∷ 0 ∷ 0 ∷ 0 ∷ 0 ∷ 0 ∷ 0 ∷ 0 ∷ []))
        8
        none
        0)
    ≡ done (range_header 8 1 255 ++ (3 ∷ 0x28 ∷ []))
encode_range-uuid_example =
    encode_range-uuid host host_laws 8 1 255 (some (uuid16 0x2803)) 8
      (0 ∷ 0 ∷ 0 ∷ 0 ∷ 0 ∷ 0 ∷ 0 ∷ 0 ∷ []) (omega arith) (omega arith) (omega arith) (omega arith)
      refl

encode_range_overflow_example :
    encode_range host 6 1 255
      (some (uuid16 0x2800))
      (some (0 ∷ 0 ∷ 0 ∷ 0 ∷ 0 ∷ 0 ∷ 0 ∷ []))
      7
      (some (9 ∷ []))
      1
    ≡ fault
encode_range_overflow_example =
    encode_range_overflow host host_laws 6 1 255 0x2800 7 (0 ∷ 0 ∷ 0 ∷ 0 ∷ 0 ∷ 0 ∷ 0 ∷ []) (9 ∷ [])
      (omega arith) (omega arith) (omega arith) (omega arith) (omega arith) refl

abbrev info : AttributeInfo
info = record { handle = 0x0102; type = uuid16 0x2800 }

abbrev sixteen : List ℕ
sixteen = 0 ∷ 1 ∷ 2 ∷ 3 ∷ 4 ∷ 5 ∷ 6 ∷ 7 ∷ 8 ∷ 9 ∷ 10 ∷ 11 ∷ 12 ∷ 13 ∷ 14 ∷ 15 ∷ []

abbrev long_info : AttributeInfo
long_info = record { handle = 3; type = uuid128 sixteen }

abbrev range : HandlesInfo
range = record { handle = 1; group_end_handle = 4 }

parse_handles-printed_example :
    parse_handles_information_list host [] (some (1 ∷ 0 ∷ 4 ∷ 0 ∷ 99 ∷ [])) (pos 4)
    ≡ done (range ∷ [])
parse_handles-printed_example =
    parse_handles-printed host host_laws [] (range ∷ []) (99 ∷ []) ((omega arith, omega arith), tt)

abbrev declaration : AttributeData
declaration = record { handle = 2; bytes = 10 ∷ 3 ∷ []; len = 2 }

parse_attribute_data-printed_example :
    parse_attribute_data_list host [] (some (4 ∷ 2 ∷ 0 ∷ 10 ∷ 3 ∷ [])) (pos 5)
    ≡ done (declaration ∷ [])
parse_attribute_data-printed_example =
    parse_attribute_data-printed host host_laws 4 [] (declaration ∷ []) [] (omega arith)
      ((omega arith, refl, refl), tt)

abbrev service : GroupAttributeData
service = record { handle = 1; group_end_handle = 4; bytes = 0 ∷ 0x18 ∷ []; len = 2 }

parse_group-printed_example :
    parse_group_attribute_data_list host [] (some (6 ∷ 1 ∷ 0 ∷ 4 ∷ 0 ∷ 0 ∷ 0x18 ∷ [])) (pos 7)
    ≡ done (service ∷ [])
parse_group-printed_example =
    parse_group-printed host host_laws 6 [] (service ∷ []) [] (omega arith)
      ((omega arith, omega arith, refl, refl), tt)

-- The last entry of each of these is cut short.
parsers_end_example :
    (parse_attribute_list host [] (some (1 ∷ 2 ∷ 0 ∷ [])) (pos 3) ≢ stuck)
    × (parse_handles_information_list host [] (some (1 ∷ 2 ∷ 0 ∷ [])) (pos 3) ≢ stuck)
    × (parse_attribute_data_list host [] (some (1 ∷ 2 ∷ 0 ∷ [])) (pos 3) ≢ stuck)
    × (parse_group_attribute_data_list host [] (some (1 ∷ 2 ∷ 0 ∷ [])) (pos 3) ≢ stuck)
parsers_end_example = parsers_end host (some (1 ∷ 2 ∷ 0 ∷ [])) (pos 3) (omega arith) [] [] [] []

-- Five bytes were received: the second entry is completed from behind them.
parse_attribute_list-eq-decode_example :
    parse_attribute_list host
      (info ∷ [])
      (some (1 ∷ 2 ∷ 1 ∷ 0 ∷ 0x28 ∷ 3 ∷ 1 ∷ 2 ∷ 0x28 ∷ []))
      (pos 6)
    ≡ (decode (2 ∷ 1 ∷ 0 ∷ 0x28 ∷ 3 ∷ 1 ∷ 2 ∷ 0x28 ∷ []) 5 >>= λ items. done (info ∷ items))
parse_attribute_list-eq-decode_example =
    parse_attribute_list-eq-decode host host_laws (info ∷ [])
      (2 ∷ 1 ∷ 0 ∷ 0x28 ∷ 3 ∷ 1 ∷ 2 ∷ 0x28 ∷ []) 5
      (
        omega arith,
        (
          omega arith,
          (
            omega arith,
            (omega arith, (omega arith, (omega arith, (omega arith, (omega arith, tt))))),
          ),
        ),
      )
