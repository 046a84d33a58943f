-- ===== src/Peripheral/Owned/Life.antt =====
-- Every life of an object, with the writes that are in flight.
use btle_js.Prelude.{ℕ, ◌≡◌, refl, List, [], ◌++◌, Option, done, arith, ℤ}
use btle_js.Connection.{WriteData}
use btle_js.Peripheral.State.{Peripheral, Event, World}
use btle_js.Peripheral.Dispatch.{after}
use btle_js.Peripheral.Guards.{Method, invoke}
use btle_js.Peripheral.Owned.{flying, IsOwned}
use btle_js.Peripheral.Owned.Calls.{invoke-IsOwned}
use btle_js.Peripheral.State.{init}
use btle_js.Peripheral.Connect.{connect, connected, read, written, closed}
use btle_js.Peripheral.Methods.{close}
use btle_js.Connection.{CloseData}
use btle_js.Peripheral.Owned.Reports.{
  flight, read-IsOwned, written-IsOwned, connected-IsOwned, closed-IsOwned,
}
use btle_js.Peripheral.Owned.Ends.{connect-IsOwned, close-IsOwned}

module _ {Value : Type 0} (w : World Value) where
  -- The calls of the methods and libuv's reports, in any order; a write is reported on once.
  pub data Life : Peripheral Value → List ℕ → Type 0 where
    news : Life init []
    calls :
        {p q : Peripheral Value} {fl : List ℕ}
        → Life p fl
        → (m : Method) (args : List Value) (out : List (Event Value))
        → invoke w m p args ≡ done (q, out)
        → Life q (flying out ++ fl)
    connects :
        {p q : Peripheral Value} {fl : List ℕ}
        → Life p fl
        → (args : List Value) (out : List (Event Value)) → connect w p args ≡ done (q, out)
        → Life q fl
    opens :
        {p q : Peripheral Value} {fl : List ℕ}
        → Life p fl
        → (status fd : ℤ) (events : ℕ) (options : ℕ × ℕ) (out : List (Event Value))
        → connected w p status events fd options ≡ done (q, out)
        → Life q (flying out ++ fl)
    reads :
        {p q : Peripheral Value} {fl : List ℕ}
        → Life p fl
        → (nread : ℤ) (buf : Option (List ℕ)) (out : List (Event Value))
        → read w p nread buf ≡ done (q, out)
        → Life q (flying out ++ fl)
    writes :
        {p q : Peripheral Value} (before after : List ℕ) (wd : WriteData)
        → Life p (before ++ (flight wd ++ after))
        → (status : ℤ) (out : List (Event Value)) → written w p wd status ≡ done (q, out)
        → Life q (flying out ++ (before ++ after))
    closes :
        {p q : Peripheral Value} {fl : List ℕ}
        → Life p fl
        → (args : List Value) (out : List (Event Value)) → close w p args ≡ done (q, out)
        → Life q (flying out ++ fl)
    ends :
        {p q : Peripheral Value} {fl : List ℕ}
        → Life p fl
        → (cd : CloseData) (out : List (Event Value)) → closed w p cd ≡ done (q, out)
        → Life q (flying out ++ fl)

  init-IsOwned : IsOwned (init {Value = Value}) []
  unfolding init
  init-IsOwned = record { owned = λ x. omega arith; fresh = λ x le. refl; tame = λ a e. absurd cc }

  -- For any life of an object, that is any calls of its methods with any arguments, and any reports
  -- of libuv on its connection, reads, writes in flight and close, in any order, as long as no step
  -- faults: the pointers that the outstanding request, the listeners and the writes in flight hold
  -- are all different, and behind each of them is callback data that was not deleted.
  pub Life-IsOwned : {p : Peripheral Value} {fl : List ℕ} → Life p fl → IsOwned p fl
  Life-IsOwned news = init-IsOwned
  Life-IsOwned (calls {p} {q} {fl} l m args out e) =
      invoke-IsOwned w m p q fl args out (Life-IsOwned l) e
  Life-IsOwned (connects {p} {q} {fl} l args out e) =
      connect-IsOwned w p q fl args out (Life-IsOwned l) e
  Life-IsOwned (opens {p} {q} {fl} l status fd events options out e) =
      connected-IsOwned w p q fl status fd events options out (Life-IsOwned l) e
  Life-IsOwned (reads {p} {q} {fl} l nread buf out e) =
      read-IsOwned w p q fl nread buf out (Life-IsOwned l) e
  Life-IsOwned (writes {p} {q} before after wd l status out e) =
      written-IsOwned w p q before after wd status out (Life-IsOwned l) e
  Life-IsOwned (closes {p} {q} {fl} l args out e) =
      close-IsOwned w p q fl args out (Life-IsOwned l) e
  Life-IsOwned (ends {p} {q} {fl} l cd out e) = closed-IsOwned w p q fl cd out (Life-IsOwned l) e
