-- ===== src/Peripheral/Owned.antt =====
-- Which callback data the pointers that are held lead to.
pub mod Runs
pub mod Costs
pub mod Steps
pub mod Calls
pub mod Links
pub mod Reports
pub mod Ends
pub mod Life
use btle_js.Prelude.{
  ℕ, ◌+◌, ◌≤◌, ◌≡◌, ◌≢◌, List, [], ◌∷◌, ◌++◌, Option, none, some, ◌==◌, if◌then◌else◌, All,
}
use btle_js.Connection.{uv_write}
use btle_js.Att.State.{Att, ReadData, call_list, call_attribute, on_connection, on_notification}
use btle_js.Att.State
use btle_js.Att.Invariant.{kind}
use btle_js.Att.Ledger.{count}
use btle_js.Att.Settle.{held}
use btle_js.Peripheral.State.{Peripheral, Event, CallbackData, on_att, fn_read_notification}

-- The data pointers with which callbacks are called that delete what is behind them.
abbrev pub freeing : List State.Event → List ℕ
freeing [] = []
freeing (call_list k status d list error ∷ r) = d ∷ freeing r
freeing (call_attribute k status d buf len error ∷ r) =
    if k == fn_read_notification then freeing r else d ∷ freeing r
freeing (_ ∷ r) = freeing r

abbrev pub listeners : List (ℕ × ReadData) → List ℕ
listeners [] = []
listeners (entry ∷ r) = entry.1.data_ptr ∷ listeners r

-- How often the client holds a pointer.
abbrev pub holds : Att → ℕ → ℕ
holds a x = count x (held a.current_request) + count x (listeners a.notification_map)

abbrev pub holds_all : Option Att → ℕ → ℕ
holds_all none x = 0
holds_all (some a) x = holds a x

-- An entry of the map that calls `onReadNotification`.
abbrev pub Tells : ℕ × ReadData → Type 0
Tells entry =
    (entry.1.callback ≡ some on_notification) × (entry.1.read_attr_cb ≡ some fn_read_notification)

abbrev pub IsTame : Att → Type 0
IsTame a = (kind a.current_request ≢ some on_notification) × All Tells a.notification_map

module _ {Value : Type 0} where
  -- The data pointers of the writes that report back.
  abbrev pub flying : List (Event Value) → List ℕ
  flying [] = []
  flying (on_att (on_connection (uv_write tcp bytes wd)) ∷ r) = elim wd.callback [
    | none ↦ flying r
    | some k ↦ wd.data_ptr ∷ flying r
  ]
  flying (_ ∷ r) = flying r

  -- 1 for callback data that is there, 0 for none.
  abbrev pub alive : Peripheral Value → ℕ → ℕ
  alive p x = elim (p.live x) [ none ↦ 0 | some cd ↦ 1 ]

  -- Every pointer that the client or a write in flight holds leads to callback data of its own.
  pub record IsOwned (p : Peripheral Value) (fl : List ℕ) : Type 0 where
    pub owned : (x : ℕ) → holds_all p.att x + count x fl ≤ alive p x
    pub fresh : (x : ℕ) → p.next ≤ x → alive p x ≡ 0
    pub tame : (a : Att) → p.att ≡ some a → IsTame a
