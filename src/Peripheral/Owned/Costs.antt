-- ===== src/Peripheral/Owned/Costs.antt =====
-- What each run of a client does with the data pointers that it holds.
use btle_js.Prelude.{
  ℕ, ◌+◌, ◌≤◌, ◌≡◌, refl, ap, sym, ◌∙◌, inl, inr, List, [], ◌∷◌, Option, none, some, String,
  Outcome, done, >>=-eq-done, Bool-cases, arith, All,
}
use btle_js.Host.{Host, Uuid}
use btle_js.Connection.{Connection}
use btle_js.Connection
use btle_js.Att.State.{Att, ReadData, Event, set_current_request, on_notification}
use btle_js.Att.Respond.{
  do_find_information, do_find_by_type, do_read_by_type, do_read_by_group_type, call_back,
  handle_notification,
}
use btle_js.Att.Request.{
  find, find_information, find_by_type_value, read_by_type, read_by_group_type, read_attribute,
  write_command, write_request, send_handle, listen_for_notifications,
}
use btle_js.Att.Read.{handle_read, handle_notify, notify_to, report, host_u16_at}
use btle_js.Att.Invariant.{kind}
use btle_js.Att.Ledger.{count}
use btle_js.Att.Settle.{
  data_calls, flights, is_notice, Settled, handle_read-Settled, handle_read_notice,
}
use btle_js.Peripheral.State.{
  fn_find_information, fn_find_by_type, fn_read_by_type, fn_read_by_group_type, fn_read_attribute,
  fn_read_notification, fn_write,
}
use btle_js.Peripheral.Owned.{freeing, holds, IsTame, Tells}

-- What is freed, held and in flight afterwards is no more than what was held before and what is new.
abbrev pub Pays : Att → Att → List Event → List ℕ → Type 0
Pays a b events new =
    IsTame b
    × ((x : ℕ)
        → count x (freeing events) + holds b x + count x (flights events) ≤ holds a x + count x new)

freeing_calls :
    (events : List Event) (x : ℕ) → count x (freeing events) ≤ count x (data_calls events)
freeing_calls [] x = omega arith
freeing_calls (event ∷ rest) x = ground (arith, freeing_calls rest x)

Settled-Pays :
    (a b : Att) (events : List Event) → IsTame a → Settled a b events → Pays a b events []
Settled-Pays a b events tame (same, still, inl (stays, quiet)) = (
  (λ q. tame.0 (sym (ap kind stays) ∙ q), rw same tame.1),
  λ x. rw (same, still, stays) (omega (arith, freeing_calls events x, ap (count x) quiet)),
)
Settled-Pays a b events tame (same, still, inr (gone, once)) = (
  (λ q. absurd (ground (arith, gone)), rw same tame.1),
  λ x. rw (same, still, gone) (omega (arith, freeing_calls events x, ap (count x) once)),
)

find-Tells :
    (handle : ℕ) (m : List (ℕ × ReadData)) (rd : ReadData)
    → All Tells m
    → find handle m ≡ some rd
    → (rd.callback ≡ some on_notification) × (rd.read_attr_cb ≡ some fn_read_notification)
unfolding find
find-Tells handle [] rd l e = absurd cc
find-Tells handle (x ∷ m) rd l e = ground (arith, find-Tells handle m rd l.1)

module _ (h : Host) (a b : Att) (events : List Event) (tame : IsTame a) where
  notify_to-Pays :
      (buf : List ℕ) (nread handle : ℕ) (o : Option ReadData)
      → find handle a.notification_map ≡ o
      → notify_to h a buf nread handle o ≡ done (b, events)
      → (b ≡ a) × ((x : ℕ) → count x (freeing events) + count x (flights events) ≡ 0)
  unfolding notify_to report call_back handle_notification
  notify_to-Pays buf nread handle none e d = (ground arith, λ x. ground arith)
  notify_to-Pays buf nread handle (some rd) e d =
      let (c, k) = find-Tells handle a.notification_map rd tame.1 e in
      (ground (arith, c, k), λ x. ground (arith, c, k))

  notice-Pays :
      (b ≡ a) × ((x : ℕ) → count x (freeing events) + count x (flights events) ≡ 0)
      → Pays a b events []
  notice-Pays (same, none_freed) = rw same (tame, λ x. omega (arith, none_freed x))

  pub handle_read-Pays :
      (buf : Option (List ℕ)) (nread : ℕ) (error : Option String)
      → handle_read h a buf nread error ≡ done (b, events)
      → Pays a b events []
  unfolding handle_notify
  handle_read-Pays buf nread error d = elim (Bool-cases (is_notice buf error)) [
    | inr other ↦
        Settled-Pays a b events tame
          (handle_read-Settled h a b events buf nread error tame.0 other d)
    | inl notice ↦
        let (opcode, rest, d) = handle_read_notice h a b events buf nread error notice d in
        let (handle, _, d) = >>=-eq-done (host_u16_at h (opcode ∷ rest) 1) _ d in
        notice-Pays
          (notify_to-Pays (opcode ∷ rest) nread handle (find handle a.notification_map) refl d)
  ]

-- What each request makes of a new pointer.
module _ (h : Host) (a b : Att) (events : List Event) (tame : IsTame a) (s e d : ℕ) where
  pub find_information-Pays :
      find_information h a s e fn_find_information d ≡ done (b, events) → Pays a b events (d ∷ [])
  unfolding find_information set_current_request do_find_information Connection.write
  find_information-Pays r = ((ground arith, ground arith), λ x. ground arith)

  pub find_by_type_value-Pays :
      (type : Uuid) (value : Option (List ℕ)) (vlen : ℕ)
      → find_by_type_value h a s e type value vlen fn_find_by_type d ≡ done (b, events)
      → Pays a b events (d ∷ [])
  unfolding find_by_type_value set_current_request do_find_by_type Connection.write
  find_by_type_value-Pays type value vlen r = ((ground arith, ground arith), λ x. ground arith)

  pub read_by_type-Pays :
      (type : Uuid)
      → read_by_type h a s e type fn_read_by_type d ≡ done (b, events)
      → Pays a b events (d ∷ [])
  unfolding read_by_type set_current_request do_read_by_type Connection.write
  read_by_type-Pays type r = ((ground arith, ground arith), λ x. ground arith)

  pub read_by_group_type-Pays :
      (type : Uuid)
      → read_by_group_type h a s e type fn_read_by_group_type d ≡ done (b, events)
      → Pays a b events (d ∷ [])
  unfolding read_by_group_type set_current_request do_read_by_group_type Connection.write
  read_by_group_type-Pays type r = ((ground arith, ground arith), λ x. ground arith)

module _ (h : Host) (a b : Att) (events : List Event) (tame : IsTame a) (handle d : ℕ) where
  pub read_attribute-Pays :
      read_attribute h a handle fn_read_attribute d ≡ done (b, events) → Pays a b events (d ∷ [])
  unfolding read_attribute set_current_request send_handle Connection.write
  read_attribute-Pays r = ((ground arith, ground arith), λ x. ground arith)

  pub listen-Pays :
      ◌≡◌ {A = Outcome (Att × List Event)}
        (done (listen_for_notifications a handle fn_read_notification d, []))
        (done (b, events))
      → Pays a b events (d ∷ [])
  unfolding listen_for_notifications
  listen-Pays r = ((ground arith, ground arith), λ x. ground arith)

  pub write_command-Pays :
      (value : Option (List ℕ)) (length : ℕ)
      → write_command h a handle value length (some fn_write) d ≡ done (b, events)
      → Pays a b events (d ∷ [])
  unfolding write_command send_handle Connection.write
  write_command-Pays value length r = ((ground arith, ground arith), λ x. ground arith)

  pub write_request-Pays :
      (value : Option (List ℕ)) (length : ℕ)
      → write_request h a handle value length none d ≡ done (b, events)
      → Pays a b events []
  unfolding write_request send_handle Connection.write
  write_request-Pays value length r = ((ground arith, ground arith), λ x. ground arith)
