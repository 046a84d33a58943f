-- ===== src/Wire/Load.antt =====
-- The loads of src/btio.h at what the stores wrote.
use btle_js.Prelude.{
  ℕ, ◌+◌, ◌*◌, ◌/◌, ◌%◌, ◌<◌, ◌≡◌, ◌≢◌, refl, List, [], ◌∷◌, ◌++◌, some, done, stuck, length,
  >>=-ne-stuck, >>=-eq-done, arith,
}
use btle_js.Host.{Host, HostLaws, Uuid, uuid16, uuid128}
use btle_js.Wire.{att_get_u16, att_get_u128, att_get_uuid16, att_get_uuid128}
use btle_js.Wire.Memory.{load_bytes, load_bytes-append, load_bytes-ne-stuck, load_bytes_moves}

-- A 16-bit number in Bluetooth order.
abbrev pub le16 : ℕ → List ℕ
le16 v = (v % 256) ∷ (v / 256) ∷ []

module _ (h : Host) (laws : HostLaws h) where
  pub get_u16-le16 :
      (v : ℕ) (rest : List ℕ) → v < 65536 → att_get_u16 h (le16 v ++ rest) ≡ done (v, rest)
  unfolding att_get_u16
  get_u16-le16 v rest hv =
      let value : v % 256 + 256 * (v / 256) ≡ v = omega arith in
      rw (
        load_bytes-append (le16 v) rest 2 refl,
        laws.load16_order (v % 256) (v / 256) (omega arith) (omega arith),
        value,
      )

  pub get_uuid16-le16 :
      (v : ℕ) (rest : List ℕ)
      → v < 65536
      → att_get_uuid16 h (le16 v ++ rest) ≡ done (uuid16 v, rest)
  unfolding att_get_uuid16
  get_uuid16-le16 v rest hv = rw (get_u16-le16 v rest hv, laws.uuid16_create_lem v)

  pub get_uuid128-htob128 :
      (v rest : List ℕ)
      → length v ≡ 16
      → att_get_uuid128 h (h.htob128 v ++ rest) ≡ done (uuid128 v, rest)
  unfolding att_get_uuid128 att_get_u128
  get_uuid128-htob128 v rest hv = rw (
    load_bytes-append (h.htob128 v) rest 16 (laws.htob128_length v hv),
    laws.btoh128-htob128 v hv,
    laws.uuid128_create_lem v,
  )

module _ (h : Host) (p : List ℕ) where
  pub get_u16-ne-stuck : att_get_u16 h p ≢ stuck
  unfolding att_get_u16
  get_u16-ne-stuck =
      >>=-ne-stuck (load_bytes (some p) 2) _ (load_bytes-ne-stuck (some p) 2) λ r _ e. cc

  get_u128-ne-stuck : att_get_u128 h p ≢ stuck
  unfolding att_get_u128
  get_u128-ne-stuck =
      >>=-ne-stuck (load_bytes (some p) 16) _ (load_bytes-ne-stuck (some p) 16) λ r _ e. cc

  pub get_uuid16-ne-stuck : att_get_uuid16 h p ≢ stuck
  unfolding att_get_uuid16
  get_uuid16-ne-stuck = >>=-ne-stuck (att_get_u16 h p) _ get_u16-ne-stuck λ r _ e. cc

  pub get_uuid128-ne-stuck : att_get_uuid128 h p ≢ stuck
  unfolding att_get_uuid128
  get_uuid128-ne-stuck = >>=-ne-stuck (att_get_u128 h p) _ get_u128-ne-stuck λ r _ e. cc

  pub get_u16_moves :
      (v : ℕ) (next : List ℕ) → att_get_u16 h p ≡ done (v, next) → length next + 2 ≡ length p
  unfolding att_get_u16
  get_u16_moves v next e =
      let (r, load, d) = >>=-eq-done (load_bytes (some p) 2) _ e in
      ground (arith, load_bytes_moves p r.0 r.1 2 load)

  pub get_uuid16_moves :
      (v : Uuid) (next : List ℕ) → att_get_uuid16 h p ≡ done (v, next) → length next + 2 ≡ length p
  unfolding att_get_uuid16
  get_uuid16_moves v next e =
      let (r, load, d) = >>=-eq-done (att_get_u16 h p) _ e in
      ground (arith, get_u16_moves r.0 r.1 load)

  pub get_uuid128_moves :
      (v : Uuid) (next : List ℕ)
      → att_get_uuid128 h p ≡ done (v, next)
      → length next + 16 ≡ length p
  unfolding att_get_uuid128 att_get_u128
  get_uuid128_moves v next e =
      let (r, whole, d) = >>=-eq-done (att_get_u128 h p) _ e in
      let (q, load, f) = >>=-eq-done (load_bytes (some p) 16) _ whole in
      ground (arith, load_bytes_moves p q.0 q.1 16 load)
