-- ===== src/Tests/Client.antt =====
-- Runs of a client on a little-endian machine, over an open connection with an MTU of 23.
use btle_js.Prelude.{
  ◌+◌, ◌≡◌, ◌≢◌, refl, List, [], ◌∷◌, ◌++◌, none, some, done, fault, stuck, pos, map, arith,
}
use btle_js.Host.{uuid16}
use btle_js.Wire.{encode_range, att_put_u16}
use btle_js.Att.Respond.{do_find_information, finish_list}
use btle_js.Wire.Encode.{range_header, handle_header}
use btle_js.Parse.{load_byte}
use btle_js.Connection.{Connection, reading, buffer_size, register_read_callback}
use btle_js.Connection
use btle_js.Wire.Memory.{load_bytes, write_at}
use btle_js.Att.State.{
  Att, Event, ReadData, attributes, new_read_data, call_list, call_attribute, call_error,
  unexpected_data, on_find_info, on_find_by_type, on_read_by_group_type, on_notification, init,
}
use btle_js.Att.Respond.{handle_find_info, call_back, handle_notification}
use btle_js.Att.Request.{
  find_information, read_attribute, listen_for_notifications, find, on_error, write_command,
  write_request,
}
use btle_js.Att.Read.{handle_read, handle_notify, notify_to, byte_at, host_u16_at}
use btle_js.Att.Collect.{items, Page, page_packet, wire, list_calls}
use btle_js.Att.Complete.{find_information_completes}
use btle_js.Att.Session.{session, next_requests, all_items}
use btle_js.Att.Invariant.{IsValid}
use btle_js.Att.Reach.{
  Reach, Call, find_info, read_one, links, reads, handle_errors, listen, here, next, step,
  Reach-IsValid,
}
use btle_js.Att.Settle.{held}
use btle_js.Att.Ledger.{play, count, all_handed, answered_once}
use btle_js.Att.Errors.{awaiting, read_error_faults}
use btle_js.Att.Writes.{writes_wire, sends}
use btle_js.Att.Misdirected.{exchange, write_completes_read}
use btle_js.Att.Total.{handle_read-ne-stuck}
use btle_js.Tests.Sample.{host, host_laws}

abbrev link : Connection
link = record {
  sock = pos 5;
  tcp = some reading;
  poll_handle = some none;
  imtu = 672;
  cid = 4;
  read_cb = some 1;
  read_data = 2;
}

abbrev idle : Att
idle = record {
  connection = link;
  error_handler = none;
  current_request = none;
  attribute_list = none;
  group_attribute_list = none;
  handles_info_list = none;
  notification_map = [];
}

abbrev busy : Att
busy = record idle { current_request = some (record new_read_data { request = 10 }) }

abbrev first_page : Page
first_page = record {
  front = record { handle = 1; type = uuid16 0x2800 } ∷ [];
  last = record { handle = 2; type = uuid16 0x2803 };
  slack = 0 ∷ [];
}

abbrev second_page : Page
second_page = record { front = []; last = record { handle = 5; type = uuid16 0x2a00 }; slack = [] }

abbrev end_page : Page
end_page = record { front = []; last = record { handle = 9; type = uuid16 0x2901 }; slack = [] }

find_information_completes_example :
    (events : List Event) × (session host idle 1 9 7 8
        (map (page_packet host) (first_page ∷ []) ++ (page_packet host end_page ∷ []))
      ≡ done (record idle { current_request = none; attribute_list = none }, events))
    × (wire events ≡ range_header 4 1 9 ∷ next_requests 9 (first_page ∷ []))
    × (list_calls events
        ≡ call_list 7 0 8 (attributes (all_items (first_page ∷ []) ++ items end_page)) none ∷ [])
unfolding buffer_size
find_information_completes_example =
    find_information_completes host host_laws idle 1 9 7 8 (first_page ∷ []) end_page refl refl
      (omega arith) (omega arith) (omega arith)
      ((((omega arith, omega arith), ((omega arith, omega arith), tt)), omega arith), tt)
      ((omega arith, omega arith), tt) (omega arith)

abbrev listening : Att
listening = record idle {
  connection = record link {
    sock = pos 0;
    tcp = none;
    poll_handle = none;
    imtu = 0;
    cid = 0;
    read_cb = some 1;
  };
  error_handler = some (record { callback = 3; data_ptr = 4 });
  notification_map =
      (
        9,
        record new_read_data {
          data_ptr = 6;
          handle = 9;
          callback = some on_notification;
          read_attr_cb = some 5;
        },
      )
      ∷ [];
}

-- A new client gets an error handler and a listener, and reads one notification.
history : Reach host (init 1 2) listening
unfolding init register_read_callback step on_error listen_for_notifications handle_read
    handle_notify notify_to byte_at load_byte host_u16_at find call_back handle_notification
    load_bytes Connection.init
history =
    next (next (next here (handle_errors 3 4) [] refl) (listen 9 5 6) [] refl)
      (reads (some (27 ∷ 9 ∷ 0 ∷ 77 ∷ [])) 4 none)
      (call_attribute 5 0 6 (some (77 ∷ [])) (pos 1) none ∷ []) refl

Reach-IsValid_example : IsValid listening
Reach-IsValid_example = Reach-IsValid host 1 2 history

handle_read-ne-stuck_example :
    handle_read host busy (some (1 ∷ 10 ∷ 3 ∷ 0 ∷ 10 ∷ [])) 5 none ≢ stuck
handle_read-ne-stuck_example =
    handle_read-ne-stuck host busy (some (1 ∷ 10 ∷ 3 ∷ 0 ∷ 10 ∷ [])) 5 none (omega arith)

abbrev waiting : ReadData
waiting = record new_read_data { data_ptr = 8 }

read_error_faults_example :
    (handle_read host (record idle { current_request = none }) none 0 (some "reset") ≡ fault)
    × (handle_read host (awaiting idle waiting on_find_info 7) none 0 (some "reset") ≡ fault)
    × (handle_read host (awaiting idle waiting on_read_by_group_type 7) none 0 (some "reset")
        ≡ fault)
    × (handle_read host
          (awaiting (record idle { handles_info_list = none }) waiting on_find_by_type 7)
          none
          0
          (some "reset")
        ≡ fault)
read_error_faults_example = read_error_faults host idle waiting 7 none 0 "reset"

writes_wire_example :
    (sends (write_command host idle 3 (some (1 ∷ 2 ∷ [])) 2 none 0)
      ≡ done (idle, (handle_header 0x52 3 ++ (1 ∷ 2 ∷ [])) ∷ []))
    × (sends (write_request host idle 3 (some (1 ∷ 2 ∷ [])) 2 none 0)
        ≡ done (idle, (handle_header 0x12 3 ++ (1 ∷ 2 ∷ [])) ∷ []))
unfolding buffer_size
writes_wire_example =
    writes_wire host host_laws idle 3 (1 ∷ 2 ∷ []) none 0 (omega arith) (omega arith)

abbrev handled : Att
handled = record idle { error_handler = some (record { callback = 4; data_ptr = 5 }) }

write_completes_read_example :
    exchange host handled 3 7 8 5 (1 ∷ 2 ∷ []) none 0 (19 ∷ []) (11 ∷ 9 ∷ []) 2
    ≡ done (record {
      after = handled;
      pdus = handle_header 10 3 ∷ (handle_header 18 5 ++ (1 ∷ 2 ∷ [])) ∷ [];
      at_write_response = call_attribute 7 0 8 (some []) (pos 0) none ∷ [];
      at_read_response = call_error 4 5 (unexpected_data 11) ∷ [];
    })
unfolding buffer_size
write_completes_read_example =
    write_completes_read host host_laws handled refl (omega arith) 3 7 8 5 (1 ∷ 2 ∷ []) none 0 []
      (9 ∷ []) 2 (omega arith) (omega arith)

-- A search, a read that is refused, and the end of the search.
abbrev calls : List Call
calls =
    links link
    ∷ find_info 1 9 7 8
    ∷ read_one 3 7 12
    ∷ reads (some (1 ∷ 4 ∷ 1 ∷ 0 ∷ 10 ∷ [])) 5 none
    ∷ []

played : (a : Att) × (play host (init 1 2) calls ≡ done (a, 12 ∷ 8 ∷ []))
unfolding play step find_information read_attribute init buffer_size handle_read byte_at load_byte
    load_bytes do_find_information encode_range att_put_u16 write_at Connection.get_buffer
    handle_find_info finish_list
played = (_, refl)

answered_once_example :
    count 8 (12 ∷ 8 ∷ []) + count 8 (held played.0.current_request) ≡ count 8 (all_handed calls)
answered_once_example = answered_once host 1 2 calls played.0 (12 ∷ 8 ∷ []) played.1 8
