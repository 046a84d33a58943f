-- ===== src/Att/Ledger.antt =====
-- Which data pointers the users of a client hand in, and with which of them callbacks are called.
use btle_js.Prelude.{
  ℕ, ◌+◌, ◌≡◌, ◌≢◌, refl, ap, sym, ◌∙◌, inl, inr, Bool-cases, false, ◌==◌, if◌then◌else◌, List, [],
  ◌∷◌, ◌++◌, map, Option, some, String, Outcome, done, ◌>>=◌, >>=-eq-done, arith,
}
use btle_js.Connection
use btle_js.Host.{Host}
use btle_js.Att.State.{Att, Event, init, on_connection, set_current_request, on_notification}
use btle_js.Att.Respond.{
  do_find_information, do_find_by_type, do_read_by_type, do_read_by_group_type,
}
use btle_js.Att.Request.{
  find_information, find_by_type_value, read_by_type, read_by_group_type, read_attribute,
  write_command, write_request, send_handle, listen_for_notifications, on_error, close,
}
use btle_js.Att.Invariant.{IsValid, kind}
use btle_js.Att.Reach.{
  Call, step, step-IsValid, Reach-IsValid, here, find_info, find_type, read_type, read_group,
  read_one, write_one, request_write, listen, handle_errors, closes, reads, links,
}
use btle_js.Att.Settle.{
  data_calls, held, is_notice, Settled, handle_read-Settled, handle_read-current,
}

abbrev pub count : ℕ → List ℕ → ℕ
count x [] = 0
count x (y ∷ r) = (if x == y then 1 else 0) + count x r

pub count-append : (x : ℕ) (l m : List ℕ) → count x (l ++ m) ≡ count x l + count x m
count-append x [] m = omega arith
count-append x (y ∷ l) m = omega (arith, count-append x l m)

-- The data pointer that a call hands in with a callback for one answer.
abbrev pub handed : Call → List ℕ
handed (find_info s e k d) = d ∷ []
handed (find_type s e type value vlen k d) = d ∷ []
handed (read_type s e type k d) = d ∷ []
handed (read_group s e type k d) = d ∷ []
handed (read_one handle k d) = d ∷ []
handed _ = []

-- The data pointers with which a call's answers come; a notification is no answer.
abbrev pub told : Call → List Event → List ℕ
told (reads buf nread error) events = if is_notice buf error then [] else data_calls events
told call events = data_calls events

-- Calls one after the other, with what they handed in and what was told.
unfoldable pub play : Host → Att → List Call → Outcome (Att × List ℕ)
unfolding step
play h a [] = done (a, [])
play h a (call ∷ rest) = do
  (b, events) ← step h a call
  (c, more) ← play h b rest
  done (c, told call events ++ more)

abbrev pub all_handed : List Call → List ℕ
all_handed [] = []
all_handed (call ∷ rest) = handed call ++ all_handed rest

abbrev Asks : Att → Type 0
Asks a = kind a.current_request ≢ some on_notification

abbrev Balance : Att → Att → Call → List Event → Type 0
Balance a b call events =
    Asks b
    × ((x : ℕ)
        → count x (told call events) + count x (held b.current_request)
          ≡ count x (held a.current_request) + count x (handed call))

Settled-Balance :
    (a b : Att) (events : List Event) (buf : Option (List ℕ)) (nread : ℕ) (error : Option String)
    → Asks a
    → is_notice buf error ≡ false
    → Settled a b events
    → Balance a b (reads buf nread error) events
Settled-Balance a b events buf nread error asks n (_, _, inl (stays, quiet)) =
    (λ q. asks (sym (ap kind stays) ∙ q), λ x. rw (n, quiet, stays) (omega arith))
Settled-Balance a b events buf nread error asks n (_, _, inr (gone, once)) =
    (λ q. absurd (ground (arith, gone)), λ x. rw (n, once, gone) (omega arith))

data_calls_links : (l : List Connection.Event) → data_calls (map on_connection l) ≡ []
data_calls_links [] = refl
data_calls_links (event ∷ l) = data_calls_links l

step-Balance :
    (h : Host) (a b : Att) (call : Call) (events : List Event)
    → IsValid a
    → Asks a
    → step h a call ≡ done (b, events)
    → Balance a b call events
unfolding step find_information find_by_type_value read_by_type read_by_group_type read_attribute
    set_current_request do_find_information do_find_by_type do_read_by_type do_read_by_group_type
    send_handle write_command write_request listen_for_notifications on_error close
step-Balance h a b (find_info s e k d) ev v asks r = ground arith
step-Balance h a b (find_type s e type value vlen k d) ev v asks r = ground arith
step-Balance h a b (read_type s e type k d) ev v asks r = ground arith
step-Balance h a b (read_group s e type k d) ev v asks r = ground arith
step-Balance h a b (read_one handle k d) ev v asks r = ground arith
step-Balance h a b (write_one handle value length k d) ev v asks r = ground arith
step-Balance h a b (request_write handle value length k d) ev v asks r = ground arith
step-Balance h a b (listen handle k d) ev v asks r = ground arith
step-Balance h a b (handle_errors k d) ev v asks r = ground arith
step-Balance h a b (closes k d) ev v asks r = grind (arith, data_calls_links)
step-Balance h a b (links c) ev v asks r = ground arith
step-Balance h a b (reads buf nread error) ev v asks r = elim (Bool-cases (is_notice buf error)) [
  | inl notice ↦
      let stays = handle_read-current h a b ev v buf nread error notice r in
      (λ q. asks (sym (ap kind stays) ∙ q), λ x. rw (notice, stays) (omega arith))
  | inr other ↦
      Settled-Balance a b ev buf nread error asks other
        (handle_read-Settled h a b ev buf nread error asks other r)
]

play-Balance :
    (h : Host) (calls : List Call) (a b : Att) (l : List ℕ)
    → IsValid a
    → Asks a
    → play h a calls ≡ done (b, l)
    → (x : ℕ)
    → count x l + count x (held b.current_request)
      ≡ count x (held a.current_request) + count x (all_handed calls)
unfolding play
play-Balance h [] a b l v asks r x = ground arith
play-Balance h (call ∷ rest) a b l v asks r x =
    let ((c, events), one, r) = >>=-eq-done (step h a call) _ r in
    let ((d, more), others, r) = >>=-eq-done (play h c rest) _ r in
    let (asks', balance) = step-Balance h a c call events v asks one in
    let w = play-Balance h rest c d more (step-IsValid h a c call events v one) asks' others x in
    ground (
      arith,
      w,
      balance x,
      count-append x (told call events) more,
      count-append x (handed call) (all_handed rest),
    )

-- For any calls of a new client, changes of its connection and reads, whatever they bring, that run
-- without a fault: each data pointer has come back in callbacks, those for notifications aside, and
-- is held by the outstanding request, together exactly as often as the calls with a callback for
-- one answer handed it in.
pub answered_once :
    (h : Host) (on_read self : ℕ) (calls : List Call) (a : Att) (l : List ℕ)
    → play h (init on_read self) calls ≡ done (a, l)
    → (x : ℕ) → count x l + count x (held a.current_request) ≡ count x (all_handed calls)
unfolding init
answered_once h on_read self calls a l r x = omega (
  arith,
  play-Balance h calls (init on_read self) a l (Reach-IsValid h on_read self here) (λ q. cc) r x,
)
