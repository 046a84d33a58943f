-- ===== src/Peripheral/Owned/Links.antt =====
-- libuv's reports keep what is held alive.
use btle_js.Prelude.{
  ℕ, String, deref, ◌+◌, ◌≤◌, ◌≡◌, sym, ◌∙◌, List, [], ◌∷◌, ◌++◌, Option, done, >>=-eq-done, arith,
}
use btle_js.Connection.{WriteData}
use btle_js.Connection
use btle_js.Att.Ledger.{count, count-append}
use btle_js.Peripheral.State.{Peripheral, Event, World, free}
use btle_js.Peripheral.Owned.{flying, alive, IsOwned}
use btle_js.Peripheral.Owned.Steps.{run-IsOwned}
use btle_js.Peripheral.Owned.Runs.{same_pair, flying-append}
use btle_js.Peripheral.Owned.Costs.{handle_read-Pays}
use btle_js.Connection.{call_connect, call_write, call_close, call_read}
use btle_js.Att.Read.{handle_read}
use btle_js.Peripheral.Replies.{on_close, on_write, handle_connect, emit_error}
use btle_js.Peripheral.Dispatch.{size, link_event, link_events}

-- The data pointers that libuv's reports on writes hand back.
abbrev pub landing : List Connection.Event → List ℕ
landing [] = []
landing (call_write k d error ∷ r) = d ∷ landing r
landing (_ ∷ r) = landing r

landing-cons :
    (event : Connection.Event) (rest : List Connection.Event) (x : ℕ)
    → count x (landing (event ∷ rest)) ≡ count x (landing (event ∷ [])) + count x (landing rest)
landing-cons event rest x = ground arith

module _ {Value : Type 0} where
  pub IsOwned-less :
      (p : Peripheral Value) (fl fl' : List ℕ)
      → IsOwned p fl
      → ((x : ℕ) → count x fl' ≤ count x fl)
      → IsOwned p fl'
  IsOwned-less p fl fl' own less = record {
    owned = λ x. omega (arith, own.owned x, less x);
    fresh = own.fresh;
    tame = own.tame;
  }

  -- What is not looked at may change.
  pub IsOwned-same :
      (p q : Peripheral Value) (fl : List ℕ)
      → IsOwned p fl
      → q.att ≡ p.att
      → q.next ≡ p.next
      → ((x : ℕ) → alive q x ≡ alive p x)
      → IsOwned q fl
  IsOwned-same p q fl own at next live = record {
    owned = λ x. rw (at, live x) (own.owned x);
    fresh = λ x le. live x ∙ own.fresh x (omega (arith, next, le));
    tame = λ a e. own.tame a (sym at ∙ e);
  }

  module _ (w : World Value) where
    write-IsOwned :
        (p q : Peripheral Value) (d : ℕ) (error : Option String) (fl : List ℕ)
        (out : List (Event Value))
        → IsOwned p (d ∷ fl)
        → on_write w p d error ≡ done (q, out)
        → IsOwned q (flying out ++ fl)
    unfolding on_write free
    write-IsOwned p q d error fl out own e = record {
      owned = λ x. ground (arith, own.owned x);
      fresh = λ x le. ground (arith, own.fresh x (ground arith));
      tame = λ a at. own.tame a (ground arith);
    }

    quiet-IsOwned :
        (p q : Peripheral Value) (fl : List ℕ) (out : List (Event Value))
        → IsOwned p fl
        → (p ≡ q) × ([] ≡ flying out)
        → IsOwned q (flying out ++ fl)
    quiet-IsOwned p q fl out own (same, quiet) = rw (← same, ← quiet) own

    link_event-IsOwned :
        (p q : Peripheral Value) (event : Connection.Event) (fl : List ℕ) (out : List (Event Value))
        → IsOwned p (landing (event ∷ []) ++ fl)
        → link_event w p event ≡ done (q, out)
        → IsOwned q (flying out ++ fl)
    unfolding link_event handle_connect on_close emit_error
    link_event-IsOwned p q (call_write k d error) fl out own e =
        write-IsOwned p q d error fl out own e
    link_event-IsOwned p q (call_read k d buf nread error) fl out own e =
        let (a, at, e') = >>=-eq-done (deref p.att) _ e in
        run-IsOwned w p q fl own out a (handle_read w.host a buf (size w nread) error)
          (ground (arith, at))
          (λ b ev tame e. handle_read-Pays w.host a b ev tame buf (size w nread) error e) e'
    link_event-IsOwned p q (call_connect k d status events) fl out own e =
        quiet-IsOwned p q fl out own (ground arith, ground arith)
    link_event-IsOwned p q (call_close k d) fl out own e =
        quiet-IsOwned p q fl out own (ground arith, ground arith)
    link_event-IsOwned p q event fl out own e =
        quiet-IsOwned p q fl out own (ground arith, ground arith)

    pub link_events-IsOwned :
        (p q : Peripheral Value) (events : List Connection.Event) (fl : List ℕ)
        (out : List (Event Value))
        → IsOwned p (landing events ++ fl)
        → link_events w p events ≡ done (q, out)
        → IsOwned q (flying out ++ fl)
    unfolding link_events
    link_events-IsOwned p q [] fl out own e =
        quiet-IsOwned p q fl out own (ground arith, ground arith)
    link_events-IsOwned p q (event ∷ rest) fl out own e =
        let ((r, first), one, e) = >>=-eq-done (link_event w p event) _ e in
        let ((s, more), others, e) = >>=-eq-done (link_events w r rest) _ e in
        let (same, joined) = same_pair e in
        let ready =
          IsOwned-less p (landing (event ∷ rest) ++ fl)
            (landing (event ∷ []) ++ (landing rest ++ fl)) own
            (λ x. omega (
              arith,
              landing-cons event rest x,
              count-append x (landing (event ∷ rest)) fl,
              count-append x (landing (event ∷ [])) (landing rest ++ fl),
              count-append x (landing rest) fl,
            )) in
        let middle = link_event-IsOwned p r event (landing rest ++ fl) first ready one in
        let moved =
          IsOwned-less r (flying first ++ (landing rest ++ fl))
            (landing rest ++ (flying first ++ fl)) middle
            (λ x. omega (
              arith,
              count-append x (flying first) (landing rest ++ fl),
              count-append x (landing rest) fl,
              count-append x (landing rest) (flying first ++ fl),
              count-append x (flying first) fl,
            )) in
        let last = link_events-IsOwned r s rest (flying first ++ fl) more moved others in
        rw (← same, ← joined)
          (IsOwned-less s (flying more ++ (flying first ++ fl)) (flying (first ++ more) ++ fl) last
            (λ x. omega (
              arith,
              flying-append first more x,
              count-append x (flying (first ++ more)) fl,
              count-append x (flying more) (flying first ++ fl),
              count-append x (flying first) fl,
            )))
