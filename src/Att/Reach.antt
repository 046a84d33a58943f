-- ===== src/Att/Reach.antt =====
-- Every history of a client: the calls of its user and the reads of its connection, in any order.
use btle_js.Prelude.{ℕ, ◌≡◌, List, [], Option, String, Outcome, done, arith}
use btle_js.Connection.{Connection}
use btle_js.Host.{Host, Uuid}
use btle_js.Att.State.{Att, Event, init, set_current_request}
use btle_js.Att.Respond.{
  do_find_information, do_find_by_type, do_read_by_type, do_read_by_group_type,
}
use btle_js.Att.Request.{
  find_information, find_by_type_value, read_by_type, read_by_group_type, read_attribute,
  write_command, write_request, send_handle, listen_for_notifications, on_error, close,
}
use btle_js.Att.Read.{handle_read}
use btle_js.Att.Invariant.{IsValid, handle_read-IsValid}

-- The calls of `Att`, with their arguments; `links` is what `connect` and libuv's reports on the
-- connection come to, whatever it is.
pub data Call : Type 0 where
  find_info : ℕ → ℕ → ℕ → ℕ → Call
  find_type : ℕ → ℕ → Uuid → Option (List ℕ) → ℕ → ℕ → ℕ → Call
  read_type : ℕ → ℕ → Uuid → ℕ → ℕ → Call
  read_group : ℕ → ℕ → Uuid → ℕ → ℕ → Call
  read_one : ℕ → ℕ → ℕ → Call
  write_one : ℕ → Option (List ℕ) → ℕ → Option ℕ → ℕ → Call
  request_write : ℕ → Option (List ℕ) → ℕ → Option ℕ → ℕ → Call
  listen : ℕ → ℕ → ℕ → Call
  handle_errors : ℕ → ℕ → Call
  closes : Option ℕ → ℕ → Call
  reads : Option (List ℕ) → ℕ → Option String → Call
  links : Connection → Call

unfoldable pub step : Host → Att → Call → Outcome (Att × List Event)
step h a (find_info s e k d) = find_information h a s e k d
step h a (find_type s e type value vlen k d) = find_by_type_value h a s e type value vlen k d
step h a (read_type s e type k d) = read_by_type h a s e type k d
step h a (read_group s e type k d) = read_by_group_type h a s e type k d
step h a (read_one handle k d) = read_attribute h a handle k d
step h a (write_one handle value length k d) = write_command h a handle value length k d
step h a (request_write handle value length k d) = write_request h a handle value length k d
step h a (listen handle k d) = done (listen_for_notifications a handle k d, [])
step h a (handle_errors k d) = done (on_error a k d, [])
step h a (closes k d) = done (close a k d)
step h a (reads buf nread error) = handle_read h a buf nread error
step h a (links c) = done (record a { connection = c }, [])

pub step-IsValid :
    (h : Host) (a b : Att) (c : Call) (events : List Event)
    → IsValid a
    → step h a c ≡ done (b, events)
    → IsValid b
unfolding step find_information find_by_type_value read_by_type read_by_group_type read_attribute
    set_current_request do_find_information do_find_by_type do_read_by_type do_read_by_group_type
    send_handle write_command write_request listen_for_notifications on_error close
step-IsValid h a b (find_info s e k d) ev v r = ground arith
step-IsValid h a b (find_type s e type value vlen k d) ev v r = ground arith
step-IsValid h a b (read_type s e type k d) ev v r = ground arith
step-IsValid h a b (read_group s e type k d) ev v r = ground arith
step-IsValid h a b (read_one handle k d) ev v r = ground arith
step-IsValid h a b (write_one handle value length k d) ev v r = ground arith
step-IsValid h a b (request_write handle value length k d) ev v r = ground arith
step-IsValid h a b (listen handle k d) ev v r = ground arith
step-IsValid h a b (handle_errors k d) ev v r = ground arith
step-IsValid h a b (closes k d) ev v r = ground arith
step-IsValid h a b (reads buf nread error) ev v r = handle_read-IsValid h a b ev v buf nread error r
step-IsValid h a b (links c) ev v r = ground arith

-- What a client can come to.
pub data Reach (h : Host) (a : Att) : Att → Type 0 where
  here : Reach h a a
  next :
      {b c : Att}
      → Reach h a b
      → (call : Call) (events : List Event) → step h b call ≡ done (c, events)
      → Reach h a c

-- After any history of a new client, that is any calls of its methods and any reads of its
-- connection, well formed or not, a cached list belongs to the outstanding request whose handler
-- fills it, and only notification listeners are in the map.
pub Reach-IsValid :
    (h : Host) (on_read self : ℕ) {a : Att} → Reach h (init on_read self) a → IsValid a
unfolding init
Reach-IsValid h on_read self here = ground arith
Reach-IsValid h on_read self (next {b} {c} r call events e) =
    step-IsValid h b c call events (Reach-IsValid h on_read self r) e
