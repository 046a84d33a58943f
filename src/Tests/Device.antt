-- ===== src/Tests/Device.antt =====
-- Runs of the methods against a device that puts one attribute into each response.
use btle_js.Prelude.{
  ℕ, ◌+◌, ◌*◌, ◌%◌, ◌/◌, ◌≡◌, refl, List, [], ◌∷◌, ◌++◌, map, none, some, String, done, fault, pos,
  negsuc, arith, inl, inr, ◌⊎◌,
}
use btle_js.Host.{uuid16}
use btle_js.Wire.Encode.{range_header}
use btle_js.Parse.{AttributeInfo}
use btle_js.Js.{get_int_value}
use btle_js.Connection.{WriteData, uv_write, delete_buffer, reading, buffer_size}
use btle_js.Att.State.{Att, on_connection}
use btle_js.Att.State
use btle_js.Att.Collect.{Page, items, Packet, page_packet}
use btle_js.Att.Session.{not_found}
use btle_js.Peripheral.State.{
  seen, init, throw_error, buffer, errno_exception, on_att, on_link, Peripheral, World, Event, null,
  array, call, fn_att_read, this, attribute_info,
}
use btle_js.Peripheral.Methods.{handle_of, read_handle, add_notification_listener, write_command}
use btle_js.Peripheral.Connect.{connect, connected, read, written}
use btle_js.Peripheral.Owned.{flying, IsOwned}
use btle_js.Peripheral.Owned.Life.{Life, news, calls, opens, connects, Life-IsOwned}
use btle_js.Options.{set_opts, set_opts_to, ◌>>=◌}
use btle_js.Connection
use btle_js.Peripheral.Guards.{
  find_info, listen, write_one, invoke, invoke-Throws, invoke_unconnected,
}
use btle_js.Discovery.Values.{read_value}
use btle_js.Discovery.Pushes.{notification_told, write_told}
use btle_js.Att.Request.{find}
use btle_js.Discovery.{in_range, Serves, discover, pdus}
use btle_js.Discovery.Finds.{IsCall, discover_finds, discover_empty}
use btle_js.Tests.Sample.{host, host_laws}
use btle_js.Tests.Values
use btle_js.Tests.Values.{Value, number, function, string, js, bluetooth}

abbrev pub world : World Value
world = record {
  js = js;
  host = host;
  bluetooth = bluetooth;
  properties = λ v key. none;
  bt_io_connect = λ opts. pos 5;
  errno = 0;
  message = "reset";
  junk = pos 77;
  uuid_of = λ s. uuid16 0x2800;
  uuid_text = λ u. "2800";
}

abbrev table : List AttributeInfo
table =
    record { handle = 1; type = uuid16 0x2800 }
    ∷ record { handle = 2; type = uuid16 0x2803 }
    ∷ record { handle = 5; type = uuid16 0x2a00 }
    ∷ []

abbrev answer : ℕ → ℕ → List AttributeInfo → Packet
answer lo hi [] = not_found lo hi []
answer lo hi (a ∷ rest) = page_packet host (record { front = []; last = a; slack = [] })

abbrev respond : List ℕ → Packet
respond (op ∷ s ∷ s' ∷ e ∷ e' ∷ []) = answer s s' (in_range (s + 256 * s') (e + 256 * e') table)
respond pdu = record { buffer = []; nread = 0 }

answer-Serves :
    (s e lo hi : ℕ) (l : List AttributeInfo) (found : Packet)
    → in_range s e table ≡ l
    → found ≡ answer lo hi l
    → ((in_range s e table ≡ [])
        × (lo : ℕ) × (hi : ℕ) × (slack : List ℕ) × (found ≡ not_found lo hi slack))
      ⊎ ((p : Page) × (rest : List AttributeInfo) × (in_range s e table ≡ items p ++ rest)
          × (found ≡ page_packet host p))
answer-Serves s e lo hi [] found h q = inl (h, lo, hi, [], q)
answer-Serves s e lo hi (a ∷ rest) found h q =
    inr (record { front = []; last = a; slack = [] }, rest, h, q)

joined : (n : ℕ) → n % 256 + 256 * (n / 256) ≡ n
joined n = omega arith

serves : Serves host table respond
serves = record {
  sorted = ((omega arith, (omega arith, tt)), ((omega arith, tt), (tt, tt)));
  short =
      ((omega arith, omega arith), ((omega arith, omega arith), ((omega arith, omega arith), tt)));
  answer = λ s e hs he.
      answer-Serves s e (s % 256) (s / 256) (in_range s e table) (respond (range_header 4 s e)) refl
        (rw (joined s, joined e) refl);
}

abbrev pub att : Att
att = record (State.init fn_att_read this) {
  connection = record {
    sock = pos 5;
    tcp = some reading;
    poll_handle = some none;
    imtu = 672;
    cid = 4;
    read_cb = some fn_att_read;
    read_data = 0;
  };
}

abbrev pub ready : Peripheral Value
ready = record {
  att = some att;
  connection_callback = some (function 1);
  close_callback = none;
  live = λ d. none;
  next = 1;
}

pub called : IsCall world ready att (number (pos 1)) (number (pos 4)) (function 9)
unfolding State.init buffer_size
called = record {
  ready = record {
    att = refl;
    is_open = record { streams = refl; listens = refl };
    room = omega arith;
    idle = refl;
    unlisted = refl;
  };
  ok_s = refl;
  ok_e = refl;
  ok_k = refl;
}

discover_finds_example :
    (p' : Peripheral Value) × (events : List (Event Value)) × (discover world respond 3 ready
        (number (pos 1) ∷ number (pos 4) ∷ function 9 ∷ [])
      ≡ done (p', events))
    × (p'.att ≡ some att)
    × (p'.live 1 ≡ none)
    × (seen events
        ≡ call (function 9) (
            null
            ∷ array
                (map (λ x. attribute_info x.handle (world.uuid_text x.type)) (in_range 1 4 table))
            ∷ [])
          ∷ [])
unfolding handle_of get_int_value
discover_finds_example =
    discover_finds world host_laws respond ready att (number (pos 1)) (number (pos 4)) (function 9)
      [] called table serves 3 (λ e. cc) (omega arith)

called_behind : IsCall world ready att (number (pos 3)) (number (pos 4)) (function 9)
called_behind = record { ready = called.ready; ok_s = refl; ok_e = refl; ok_k = refl }

discover_empty_example :
    discover world respond 1 ready (number (pos 3) ∷ number (pos 4) ∷ function 9 ∷ []) ≡ fault
unfolding handle_of get_int_value
discover_empty_example =
    discover_empty world host_laws respond ready att (number (pos 3)) (number (pos 4)) (function 9)
      [] called_behind table serves 1 refl (omega arith)

invoke-Throws_example :
    (message : String) × (invoke world find_info ready
        (number (pos 1) ∷ string "9" ∷ function 9 ∷ [])
      ≡ done (ready, throw_error message ∷ []))
invoke-Throws_example =
    invoke-Throws world find_info ready (number (pos 1) ∷ string "9" ∷ function 9 ∷ []) refl

invoke_unconnected_example :
    invoke world write_one init (number (pos 3) ∷ Values.buffer [] ∷ []) ≡ fault
unfolding init
invoke_unconnected_example =
    invoke_unconnected world write_one init (number (pos 3) ∷ Values.buffer [] ∷ []) refl refl

read_value_example :
    (p' p'' : Peripheral Value) × (sent got : List (Event Value)) × (read_handle world ready
        (number (pos 3) ∷ function 9 ∷ [])
      ≡ done (p', sent))
    × (pdus sent ≡ (10 ∷ 3 ∷ 0 ∷ []) ∷ [])
    × (read world p' (pos 3) (some (11 ∷ 65 ∷ 66 ∷ 0 ∷ [])) ≡ done (p'', got))
    × (seen got ≡ call (function 9) (null ∷ buffer (65 ∷ 66 ∷ []) ∷ []) ∷ [])
    × (p''.att ≡ some att)
    × (p''.live 1 ≡ none)
unfolding handle_of get_int_value State.init buffer_size
read_value_example =
    read_value world host_laws ready att refl (record { streams = refl; listens = refl })
      (omega arith) (number (pos 3)) (function 9) refl refl (65 ∷ 66 ∷ []) (0 ∷ []) refl

notification_told_example :
    (p' : Peripheral Value) × (add_notification_listener world ready
        (number (pos 3) ∷ function 9 ∷ [])
      ≡ done (p', []))
    × (read world p' (pos 4) (some (27 ∷ 3 ∷ 0 ∷ 65 ∷ []))
        ≡ done (
          p',
          call (function 9) (null ∷ buffer (65 ∷ []) ∷ [])
              ∷ on_link (delete_buffer (some (27 ∷ 3 ∷ 0 ∷ 65 ∷ [])))
              ∷ [],
        ))
unfolding handle_of get_int_value State.init find
notification_told_example =
    notification_told world ready att refl (number (pos 3)) (function 9) refl refl 3 0 (65 ∷ []) []
      (record { streams = refl; listens = refl }) refl refl

write_told_example :
    (p' p'' : Peripheral Value) × (wd : WriteData) × (got : List (Event Value)) × (write_command
        world ready
        (number (pos 3) ∷ Values.buffer (65 ∷ []) ∷ function 9 ∷ [])
      ≡ done (p', on_att (on_connection (uv_write (some reading) (82 ∷ 3 ∷ 0 ∷ 65 ∷ []) wd)) ∷ []))
    × (written world p' wd (negsuc 0) ≡ done (p'', got))
    × (seen got ≡ call (function 9) (errno_exception "write" "reset" ∷ []) ∷ [])
    × (p''.att ≡ some att)
    × (p''.live 1 ≡ none)
unfolding handle_of get_int_value State.init buffer_size
write_told_example =
    write_told world ready att refl (number (pos 3)) (function 9) refl refl host_laws (omega arith)
      (Values.buffer (65 ∷ [])) (negsuc 0) refl

-- An object that connects and listens for notifications.
connecting :
    (p : Peripheral Value) × (out : List (Event Value)) × (connect world init
        (string "a" ∷ function 1 ∷ [])
      ≡ done (p, out))
unfolding connect set_opts set_opts_to ◌>>=◌ Connection.connect
connecting = (_, _, refl)

opened :
    (p : Peripheral Value) × (out : List (Event Value)) × (connected world connecting.0
        (pos 0)
        2
        (pos 5)
        (672, 4)
      ≡ done (p, out))
unfolding connecting connected Connection.on_connect
opened = (_, _, refl)

listens :
    (p : Peripheral Value) × (out : List (Event Value)) × (invoke world listen opened.0
        (number (pos 3) ∷ function 9 ∷ [])
      ≡ done (p, out))
unfolding opened connecting invoke
listens = (_, _, refl)

lived : Life world listens.0 (flying listens.1 ++ (flying opened.1 ++ []))
lived =
    calls
      (opens (connects news (string "a" ∷ function 1 ∷ []) connecting.1 connecting.2) (pos 0)
        (pos 5) 2 (672, 4) opened.1 opened.2)
      listen (number (pos 3) ∷ function 9 ∷ []) listens.1 listens.2

Life-IsOwned_example : IsOwned listens.0 (flying listens.1 ++ (flying opened.1 ++ []))
Life-IsOwned_example = Life-IsOwned world lived
