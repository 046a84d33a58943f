-- ===== src/Tests/Adapter.antt =====
-- Runs of the adapter's socket.
use btle_js.Prelude.{
  ◌≡◌, refl, done, fault, [], ◌∷◌, none, some, true, false, pos, negsuc, replicate, arith,
}
use btle_js.Hci.{
  Run, Adapter, up, down, init, open_dev, send, advertise_enable, advertising_data,
  close_hci_socket, stop_advertising, start_advertising, start_with,
}
use btle_js.Hci.Socket.{IsTight, new, stops, destroyed, History-IsTight}
use btle_js.Hci.Advertising.{field, start_overflow, start_commands}

-- An adapter that is up and does what it is told, and one that is not there.
abbrev present : Adapter
present = record {
  hci_open_dev = λ t. pos 7;
  get_dev_info = λ t. some true;
  send_result = λ t. pos 0;
  status = λ t. 0;
}

abbrev absent : Adapter
absent = record present { hci_open_dev = λ t. negsuc 0 }

abbrev closed : Run
closed = record {
  hci = record {
    hci_socket = negsuc 0;
    state = down;
    socket_closed = true;
    is_up = false;
    is_advertising = false;
  };
  trace = [];
}

abbrev opened : Run
opened = record {
  hci = record {
    hci_socket = pos 7;
    state = up;
    socket_closed = false;
    is_up = true;
    is_advertising = false;
  };
  trace = open_dev (pos 7) ∷ [];
}

History-IsTight_example :
    IsTight (close_hci_socket (stop_advertising present (record { hci = init; trace = [] })))
History-IsTight_example = History-IsTight present (destroyed (stops new))

start_overflow_example :
    start_with present opened none (replicate 32 1) (some (2 ∷ 1 ∷ 6 ∷ [])) ≡ fault
start_overflow_example =
    start_overflow present (replicate 32 1) opened none (some (2 ∷ 1 ∷ 6 ∷ [])) (omega arith)

start_commands_example :
    start_advertising present opened (2 ∷ 1 ∷ 6 ∷ []) 3
    ≡ done (record {
      hci = record opened.hci { is_advertising = true };
      trace =
          send (pos 7) (advertising_data (3 ∷ field (2 ∷ 1 ∷ 6 ∷ [])))
          ∷ send (pos 7) (advertise_enable 1)
          ∷ send (pos 7) (advertise_enable 0)
          ∷ open_dev (pos 7)
          ∷ [];
    })
start_commands_example =
    start_commands present (λ t. refl) (λ t. refl) opened (2 ∷ 1 ∷ 6 ∷ []) refl (omega arith)
