-- ===== src/Host.antt =====
-- src/uuid.h, and what the addon takes from the machine and from libbluetooth: byte orders, the
-- memory image of an integer, the constructors of UUIDs. None of that code is in the repository.
use btle_js.Prelude.{ℕ, ◌+◌, ◌*◌, ◌/◌, ◌%◌, ◌<◌, ◌≡◌, List, [], ◌∷◌, length}

-- `bt_uuid_t`: its tag and the member of the union that the tag selects.
pub data Uuid : Type 0 where
  unspec : Uuid
  uuid16 : ℕ → Uuid
  uuid32 : ℕ → Uuid
  uuid128 : List ℕ → Uuid

-- A `uint128_t` is its sixteen bytes. `store16 v` are the bytes of a `uint16_t` in memory, and
-- `load16` reads them back; `new_bytes n` is what a fresh array of `n` bytes holds.
pub record Host : Type 0 where
  pub htobs : ℕ → ℕ
  pub btohs : ℕ → ℕ
  pub htobl : ℕ → ℕ
  pub htob128 : List ℕ → List ℕ
  pub btoh128 : List ℕ → List ℕ
  pub store16 : ℕ → List ℕ
  pub load16 : List ℕ → ℕ
  pub store32 : ℕ → List ℕ
  pub uuid16_create : ℕ → Uuid
  pub uuid128_create : List ℕ → Uuid
  pub new_bytes : ℕ → List ℕ

-- The documented behaviour: Bluetooth order is little-endian, and conversions lose nothing.
pub record HostLaws (h : Host) : Type 0 where
  pub store16_order : (v : ℕ) → v < 65536 → h.store16 (h.htobs v) ≡ (v % 256) ∷ (v / 256) ∷ []
  pub load16_order : (a b : ℕ) → a < 256 → b < 256 → h.btohs (h.load16 (a ∷ b ∷ [])) ≡ a + 256 * b
  pub store16_length : (v : ℕ) → length (h.store16 v) ≡ 2
  pub store32_length : (v : ℕ) → length (h.store32 v) ≡ 4
  pub htob128_length : (v : List ℕ) → length v ≡ 16 → length (h.htob128 v) ≡ 16
  pub btoh128-htob128 : (v : List ℕ) → length v ≡ 16 → h.btoh128 (h.htob128 v) ≡ v
  pub uuid16_create_lem : (v : ℕ) → h.uuid16_create v ≡ uuid16 v
  pub uuid128_create_lem : (v : List ℕ) → h.uuid128_create v ≡ uuid128 v
  pub new_bytes_length : (n : ℕ) → length (h.new_bytes n) ≡ n
