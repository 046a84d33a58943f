-- ===== src/Peripheral/Owned/Reports.antt =====
-- libuv's reports, from the connection up, keep what is held alive.
use btle_js.Prelude.{
  ℕ, String, deref, ◌≡◌, ap, List, [], ◌∷◌, ◌++◌, Option, none, some, done, >>=-eq-done, arith, ℤ,
}
use mathlib.Core.Path.{subst}
use btle_js.Connection.{WriteData}
use btle_js.Connection
use btle_js.Att.State.{Att}
use btle_js.Att.Ledger.{count-append}
use btle_js.Peripheral.State.{Peripheral, Event, World}
use btle_js.Peripheral.Dispatch.{after}
use btle_js.Peripheral.Owned.{flying, holds_all, IsOwned, IsTame}
use btle_js.Peripheral.Owned.Steps.{same_some}
use btle_js.Peripheral.Owned.Links.{landing, IsOwned-less, link_events-IsOwned}
use btle_js.Peripheral.Connect.{connected, read, written, closed}
use btle_js.Connection.{CloseData}
use btle_js.Connection.{call_connect, call_write, call_close, call_read}

-- What libuv hands back when it reports on a write.
abbrev pub flight : WriteData → List ℕ
flight wd = elim wd.callback [ none ↦ [] | some k ↦ wd.data_ptr ∷ [] ]

module _ {Value : Type 0} (w : World Value) where
  on_read-landing :
      (c : Connection.Connection) (stream : Connection.TcpData) (nread : ℤ) (buf : Option (List ℕ))
      (message : String) (events : List Connection.Event)
      → Connection.on_read c stream nread buf message ≡ done events
      → landing events ≡ []
  unfolding Connection.on_read
  on_read-landing c stream nread buf message events e = ground arith

  on_write-landing :
      (wd : WriteData) (status : ℤ) (message : String)
      → landing (Connection.on_write wd status message) ≡ flight wd
  unfolding Connection.on_write
  on_write-landing wd status message = ground arith

  on_connect-landing :
      (c c' : Connection.Connection) (status fd : ℤ) (n : ℕ) (options : ℕ × ℕ)
      (events : List Connection.Event)
      → Connection.on_connect c status n fd options ≡ done (c', events)
      → landing events ≡ []
  unfolding Connection.on_connect
  on_connect-landing c c' status fd n options events e = ground arith

  on_close_tcp-landing :
      (cd : CloseData) (events : List Connection.Event)
      → Connection.on_close_tcp (Connection.closing cd) ≡ done events
      → landing events ≡ []
  unfolding Connection.on_close_tcp
  on_close_tcp-landing cd events e = ground arith

  relink-IsOwned :
      (p : Peripheral Value) (fl : List ℕ) (a : Att) (c : Connection.Connection)
      → IsOwned p fl
      → p.att ≡ some a
      → IsOwned (record p { att = some (record a { connection = c }) }) fl
  relink-IsOwned p fl a c own at = record {
    owned = λ x. omega (arith, own.owned x, ap (λ o. holds_all o x) at);
    fresh = own.fresh;
    tame = λ a' e. subst IsTame (same_some (record a { connection = c }) a' e) (own.tame a at);
  }

  pub read-IsOwned :
      (p q : Peripheral Value) (fl : List ℕ) (nread : ℤ) (buf : Option (List ℕ))
      (out : List (Event Value))
      → IsOwned p fl
      → read w p nread buf ≡ done (q, out)
      → IsOwned q (flying out ++ fl)
  unfolding read
  read-IsOwned p q fl nread buf out own e =
      let (a, at, e) = >>=-eq-done (deref p.att) _ e in
      let (stream, open_tcp, e) = >>=-eq-done (deref a.connection.tcp) _ e in
      let (events, got, e) =
        >>=-eq-done (Connection.on_read a.connection stream nread buf w.message) _ e in
      link_events-IsOwned w p q events fl out
        (IsOwned-less p fl (landing events ++ fl) own (λ x.
          rw (on_read-landing a.connection stream nread buf w.message events got) (omega arith)))
        e

  pub written-IsOwned :
      (p q : Peripheral Value) (before after : List ℕ) (wd : WriteData) (status : ℤ)
      (out : List (Event Value))
      → IsOwned p (before ++ (flight wd ++ after))
      → written w p wd status ≡ done (q, out)
      → IsOwned q (flying out ++ (before ++ after))
  unfolding written
  written-IsOwned p q before after wd status out own e =
      let events = Connection.on_write wd status w.message in
      link_events-IsOwned w p q events (before ++ after) out
        (IsOwned-less p (before ++ (flight wd ++ after)) (landing events ++ (before ++ after)) own
          (λ x. rw (on_write-landing wd status w.message) (
            omega (
              arith,
              count-append x (flight wd) (before ++ after),
              count-append x before after,
              count-append x before (flight wd ++ after),
              count-append x (flight wd) after,
            ))))
        e

  pub connected-IsOwned :
      (p q : Peripheral Value) (fl : List ℕ) (status fd : ℤ) (events : ℕ) (options : ℕ × ℕ)
      (out : List (Event Value))
      → IsOwned p fl
      → connected w p status events fd options ≡ done (q, out)
      → IsOwned q (flying out ++ fl)
  unfolding connected
  connected-IsOwned p q fl status fd events options out own e =
      let (a, at, e) = >>=-eq-done (deref p.att) _ e in
      let ((c, told), got, e) =
        >>=-eq-done (Connection.on_connect a.connection status events fd options) _ e in
      let p' = record p { att = some (record a { connection = c }) } in
      link_events-IsOwned w p' q told fl out
        (IsOwned-less p' fl (landing told ++ fl) (relink-IsOwned p fl a c own (ground (arith, at)))
          (λ x.
            rw (on_connect-landing a.connection c status fd events options told got) (omega arith)))
        e

  pub closed-IsOwned :
      (p q : Peripheral Value) (fl : List ℕ) (cd : CloseData) (out : List (Event Value))
      → IsOwned p fl
      → closed w p cd ≡ done (q, out)
      → IsOwned q (flying out ++ fl)
  unfolding closed
  closed-IsOwned p q fl cd out own e =
      let (events, got, e) = >>=-eq-done (Connection.on_close_tcp (Connection.closing cd)) _ e in
      link_events-IsOwned w p q events fl out
        (IsOwned-less p fl (landing events ++ fl) own
          (λ x. rw (on_close_tcp-landing cd events got) (omega arith)))
        e
