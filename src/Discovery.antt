-- ===== src/Discovery.antt =====
-- A device, as the addon meets it: a table of attributes, and answers to Find Information Requests.
-- The device is no part of the repository; its behaviour is that of the attribute protocol.
pub mod Table
pub mod Steps
pub mod Turns
pub mod Complete
pub mod Finds
pub mod Progress
pub mod Values
pub mod Pushes
use btle_js.Prelude.{
  ℕ, zero, suc, ◌+◌, ◌*◌, ◌<◌, ◌≡◌, ◌⊎◌, Outcome, done, stuck, ◌>>=◌, List, [], ◌∷◌, ◌++◌, some,
  Bool, ◌&&◌, leb, if◌then◌else◌, pos, All,
}
use btle_js.Host.{Host}
use btle_js.Wire.Encode.{range_header}
use btle_js.Parse.{AttributeInfo}
use btle_js.Parse.RoundTrip.{IsShortInfo}
use btle_js.Connection.{uv_write}
use btle_js.Att.State.{on_connection}
use btle_js.Att.Collect.{Packet, Page, items, page_packet}
use btle_js.Att.Session.{not_found}
use btle_js.Peripheral.State.{Peripheral, World, Event, on_att, call, emit}
use btle_js.Peripheral.Methods.{find_information}
use btle_js.Peripheral.Connect.{read}
use btle_js.Peripheral.Dispatch.{Step}

-- The attributes whose handles lie in a range, in the order of the table.
abbrev pub in_range : ℕ → ℕ → List AttributeInfo → List AttributeInfo
in_range s e [] = []
in_range s e (a ∷ rest) =
    if leb s a.handle && leb a.handle e then a ∷ in_range s e rest else in_range s e rest

-- Handles grow along a table.
abbrev pub IsSorted : List AttributeInfo → Type 0
IsSorted [] = Unit {0}
IsSorted (a ∷ rest) = All (λ b. a.handle < b.handle) rest × IsSorted rest

-- A device answers a request for a range with "attribute not found" if it has nothing there, or with
-- as many of its first attributes there as it likes, but one at least.
pub record Serves (h : Host) (table : List AttributeInfo) (respond : List ℕ → Packet) : Type 0 where
  pub sorted : IsSorted table
  pub short : All IsShortInfo table
  pub answer :
      (s e : ℕ)
      → s < 65536
      → e < 65536
      → ((in_range s e table ≡ [])
          × (lo : ℕ) × (hi : ℕ) × (slack : List ℕ) × (respond (range_header 4 s e)
              ≡ not_found lo hi slack))
        ⊎ ((p : Page) × (rest : List AttributeInfo) × (in_range s e table ≡ items p ++ rest)
            × (respond (range_header 4 s e) ≡ page_packet h p))

module _ {Value : Type 0} where
  -- The PDUs that were written.
  abbrev pub pdus : List (Event Value) → List (List ℕ)
  pdus [] = []
  pdus (on_att (on_connection (uv_write tcp bytes wd)) ∷ r) = bytes ∷ pdus r
  pdus (_ ∷ r) = pdus r

module _ {Value : Type 0} (w : World Value) (respond : List ℕ → Packet) where
  -- Every PDU that the addon writes is answered, until it writes no more. The fuel is the number of
  -- answers.
  unfoldable pub converse : ℕ → Peripheral Value → List (List ℕ) → Step w
  converse fuel p [] = done (p, [])
  converse zero p (pdu ∷ rest) = stuck
  converse (suc fuel) p (pdu ∷ rest) = do
    (p, events) ← read w p (pos (respond pdu).nread) (some (respond pdu).buffer)
    (p, more) ← converse fuel p (rest ++ pdus events)
    done (p, events ++ more)

  -- JavaScript calls `findInformation`, and the device answers.
  unfoldable pub discover : ℕ → Peripheral Value → List Value → Step w
  unfolding converse
  discover fuel p args = do
    (p, events) ← find_information w p args
    (p, more) ← converse fuel p (pdus events)
    done (p, events ++ more)
