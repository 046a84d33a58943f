-- ===== src/Peripheral/Owned/Ends.antt =====
-- `Connect` and `Close` keep what is held alive.
use btle_js.Prelude.{
  ℕ, ◌≡◌, refl, sym, ◌∙◌, ◌⊎◌, inl, inr, List, [], ◌∷◌, ◌++◌, Option, none, some, Outcome, done,
  Bool-cases, arith, Option-cases,
}
use btle_js.Connection.{WriteData}
use btle_js.Connection
use btle_js.Att.State.{Att}
use btle_js.Att.State
use btle_js.Att.Request
use btle_js.Peripheral.State.{Peripheral, Event, World, fn_close, this}
use btle_js.Peripheral.Dispatch.{Step, after}
use btle_js.Peripheral.Methods.{checked, throws}
use btle_js.Peripheral.Owned.{flying, alive, IsOwned, IsTame}
use btle_js.Peripheral.Owned.Steps.{run-IsOwned}
use btle_js.Peripheral.Owned.Links.{IsOwned-same}
use btle_js.Peripheral.Connect.{connect}
use btle_js.Peripheral.Methods.{close, second}
use btle_js.Connection.{CloseData}
use btle_js.Peripheral.Owned.Runs.{same_pair}
use btle_js.Peripheral.Owned.Costs.{Pays}
use btle_js.Connection.{call_connect, call_write, call_close, call_read}

module _ {Value : Type 0} (w : World Value) where
  abbrev IsFresh : Option Att → Type 0
  IsFresh none = ⊥
  IsFresh (some a) = (a.current_request ≡ none) × (a.notification_map ≡ [])

  connect_lem :
      (p q : Peripheral Value) (args : List Value) (out : List (Event Value))
      → connect w p args ≡ done (q, out)
      → (q.next ≡ p.next) × ((x : ℕ) → alive q x ≡ alive p x) × ((q.att ≡ p.att) ⊎ IsFresh q.att)
  unfolding connect throws checked State.init Request.on_error Connection.connect
  connect_lem p q args out e = (ground arith, λ x. ground arith, ground arith)

  abbrev ending : Peripheral Value → Step w
  ending p = elim p.att [
    | none ↦ done (p, [])
    | some a ↦ after w p (done (Request.close a (some fn_close) this))
  ]

  fresh-IsTame : (a : Att) → (a.current_request ≡ none) × (a.notification_map ≡ []) → IsTame a
  fresh-IsTame a (idle, empty) = (λ q. absurd (ground (arith, idle)), rw empty tt)

  close-Pays :
      (a b : Att) (events : List State.Event)
      → IsTame a
      → ◌≡◌ {A = Outcome (Att × List State.Event)}
          (done (Request.close a (some fn_close) this))
          (done (b, events))
      → Pays a b events []
  unfolding Request.close Connection.close
  close-Pays a b events tame e = ((ground arith, ground arith), λ x. ground arith)

  pub connect-IsOwned :
      (p q : Peripheral Value) (fl : List ℕ) (args : List Value) (out : List (Event Value))
      → IsOwned p fl
      → connect w p args ≡ done (q, out)
      → IsOwned q fl
  connect-IsOwned p q fl args out own e =
      let (next, live, kind) = connect_lem p q args out e in
      elim kind [
        | inl same ↦ IsOwned-same p q fl own same next live
        | inr fresh ↦ record {
          owned = λ x. ground (arith, own.owned x, live x, fresh);
          fresh = λ x le. live x ∙ own.fresh x (omega (arith, next, le));
          tame = λ a at. fresh-IsTame a (rw at at fresh);
        }
      ]

  ending_off : (p : Peripheral Value) → p.att ≡ none → ending p ≡ done (p, [])
  ending_off p off = ground (arith, off)

  ending-IsOwned :
      (p q : Peripheral Value) (fl : List ℕ) (out : List (Event Value))
      → IsOwned p fl
      → ending p ≡ done (q, out)
      → IsOwned q (flying out ++ fl)
  unfolding after
  ending-IsOwned p q fl out own e = elim (Option-cases p.att) [
    | inl off ↦
        let (same, quiet) = same_pair (sym (ending_off p off) ∙ e) in rw (← same, ← quiet) own
    | inr (a, at) ↦
        run-IsOwned w p q fl own out a (done (Request.close a (some fn_close) this)) at
          (λ b ev tame e. close-Pays a b ev tame e) (rw at at e)
  ]

  pub close-IsOwned :
      (p q : Peripheral Value) (fl : List ℕ) (args : List Value) (out : List (Event Value))
      → IsOwned p fl
      → close w p args ≡ done (q, out)
      → IsOwned q (flying out ++ fl)
  unfolding close checked throws
  close-IsOwned p q fl [] out own e = ending-IsOwned p q fl out own e
  close-IsOwned p q fl (k ∷ rest) out own e = elim (Bool-cases (w.js.is_function k)) [
    | inl good ↦
        let p' = record p { close_callback = some (second w rest) } in
        ending-IsOwned p' q fl out (IsOwned-same p p' fl own refl refl (λ x. refl)) (rw good at e)
    | inr bad ↦ let (same, quiet) = same_pair (rw bad at e) in rw (← same, ← quiet) own
  ]
