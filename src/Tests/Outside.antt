-- ===== src/Tests/Outside.antt =====
-- Runs of the connection, of the listening socket and of `setOpts`, with JavaScript values that are
-- numbers, functions, strings or buffers.
use btle_js.Prelude.{
  ◌≡◌, refl, List, [], ◌∷◌, Option, none, some, done, String, true, false, pos, arith,
  if◌then◌else◌, ltb, ◌^◌, ℤ, negsuc, inl, inr, Bool-cases,
}
use text.Mathlib.Text.{starts_with}
use btle_js.Js.{get_int_value}
use btle_js.Tests.Values.{Value, number, function, buffer, string, undefined, js, to_int, bluetooth}
use btle_js.Options.{SetOpts, set_opts, defaults, source_option, int_option, boolean_option, ◌>>=◌}
use btle_js.Options.Ranges.{BluetoothLaws, InRange, IsInt, JsLaws, set_opts-InRange}
use btle_js.Connection.{call_connect, call_close}
use btle_js.Connection
use btle_js.Connection.Lifecycle.{session, callbacks, session_opened}
use btle_js.Central.{
  Central, Listening, returns, poll, stream, uv_write, emit, emit_error, call_connected, poll_start,
  on_connect, write, write_bytes, listen, set_mtu, get_mtu, Event,
}
use btle_js.Central.Outcomes.{
  closed, seen, handles, serve, on_connect-notice, serve_early, sent, thrown, served,
  set_mtu_unenforced,
}

bluetooth_laws : BluetoothLaws bluetooth
bluetooth_laws = record {
  public_between = (omega arith, omega arith);
  random_byte = omega arith;
  low_between = (omega arith, omega arith);
  basic_least = omega arith;
  streaming_byte = omega arith;
}

abbrev empty_options : SetOpts
empty_options = record {
  src = 0;
  dst = 0;
  type = 0;
  src_type = 1;
  dst_type = 1;
  defer = pos 30;
  sec_level = pos 1;
  channel = 0;
  psm = 0;
  cid = 4;
  mtu = 0;
  imtu = 0;
  omtu = 0;
  master = negsuc 0;
  mode = 0;
  flushable = negsuc 0;
  priority = 0;
}

number_cast : (n : ℤ) → IsInt (to_int n)
number_cast (pos n) = elim (Bool-cases (ltb n (2 ^ 31))) [
  | inl e ↦ rw e (ground arith)
  | inr e ↦ rw e (omega arith)
]
number_cast (negsuc n) = elim (Bool-cases (ltb n (2 ^ 31))) [
  | inl e ↦ rw e (ground arith)
  | inr e ↦ rw e (omega arith)
]

cast : (v : Value) → IsInt (js.int_of v)
cast (number n) = number_cast n
cast (function k) = omega arith
cast (buffer bytes) = omega arith
cast (string s) = omega arith
cast undefined = omega arith

js_laws : JsLaws js
js_laws = record { casts = cast }

-- A channel that does not fit its byte.
abbrev options : String → Option Value
options key = if starts_with key "channel" then some (number (pos 300)) else none

set_opts-InRange_example : InRange bluetooth (record empty_options { channel = 44 })
unfolding set_opts ◌>>=◌ defaults source_option int_option boolean_option get_int_value
set_opts-InRange_example = set_opts-InRange js js_laws bluetooth bluetooth_laws options refl

session_opened_example :
    callbacks (
      session Connection.init
        (record { sock = 5; status = pos 0; events = 2; options = (672, 4) })
        (record { callback = 1; data_ptr = 2 })
        (record { callback = some 3; data_ptr = 4 }))
    ≡ done (call_connect 1 2 (pos 0) 2 ∷ call_close 3 4 ∷ [])
session_opened_example =
    session_opened Connection.init
      (record { sock = 5; status = pos 0; events = 2; options = (672, 4) })
      (record { callback = 1; data_ptr = 2 }) 3 4 refl

abbrev fresh : Central Value
fresh = record {
  sock = negsuc 0;
  cid = 0;
  mtu = 0;
  has_poll_handle = false;
  has_tcp = false;
  connection_callback = none;
}

abbrev open_central : Central Value
open_central = record fresh { sock = pos 6; mtu = 2; has_tcp = true }

on_connect-notice_example :
    (closed (on_connect fresh (negsuc 0) (negsuc 0) (0, 0) "reset").1 ≡ negsuc 0 ∷ [])
    × (seen (on_connect fresh (negsuc 0) (negsuc 0) (0, 0) "reset").1
        ≡ emit_error (some "connect") "reset" ∷ [])
on_connect-notice_example = on_connect-notice fresh (negsuc 0) (negsuc 0) (0, 0) "reset"

abbrev listening : Listening Value
listening = record {
  bluetooth = bluetooth;
  properties = λ v key. none;
  bt_io_listen = λ opts. pos 5;
  errno = 0;
}

abbrev polling : Central Value
polling = record fresh {
  sock = pos 5;
  has_poll_handle = true;
  connection_callback = some (function 1);
}

starts :
    listen js listening fresh (function 1 ∷ []) ≡ done (returns polling (poll_start (pos 5) ∷ []))
unfolding listen set_opts ◌>>=◌ defaults source_option int_option boolean_option
starts = refl

served_example :
    ((serve polling 6 (4, 23) true).0.has_poll_handle ≡ false)
    × ((serve polling 6 (4, 23) true).0.has_tcp ≡ false)
    × (handles (serve polling 6 (4, 23) true).1 ≡ poll ∷ stream ∷ [])
    × (handles (serve_early polling 6 (4, 23) true) ≡ poll ∷ stream ∷ poll ∷ [])
    × (seen (serve polling 6 (4, 23) true).1
        ≡ call_connected (function 1) ∷ emit "remoteClose" ∷ emit "close" ∷ [])
served_example = served js listening fresh (function 1) [] 6 (4, 23) true refl starts refl

set_mtu_unenforced_example :
    let (after, noted) = set_mtu js open_central (number (pos 2) ∷ []) in
    (noted ≡ [])
    × (get_mtu after ≡ 2)
    × (events : List (Event Value)) × (write js after (buffer (1 ∷ 2 ∷ 3 ∷ []) ∷ []) ≡ done events)
    × (sent events ≡ (1 ∷ 2 ∷ 3 ∷ []) ∷ [])
    × (thrown events ≡ inr (3, 2) ∷ [])
set_mtu_unenforced_example =
    set_mtu_unenforced js open_central (number (pos 2)) (buffer (1 ∷ 2 ∷ 3 ∷ [])) none 2 refl refl
      refl refl (λ k e. cc)

writes :
    write js open_central (buffer (1 ∷ []) ∷ function 1 ∷ [])
    ≡ done (uv_write (1 ∷ []) (some (function 1)) ∷ [])
unfolding write write_bytes
writes = refl
