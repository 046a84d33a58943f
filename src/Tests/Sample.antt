-- ===== src/Tests/Sample.antt =====
-- A little-endian machine, and the calls that stand for libbluetooth on it.
use btle_js.Prelude.{ℕ, ◌+◌, ◌*◌, ◌/◌, ◌%◌, refl, List, [], ◌∷◌, length-replicate, replicate, arith}
use btle_js.Host.{Host, HostLaws, uuid16, uuid128}

abbrev load : List ℕ → ℕ
load [] = 0
load (a ∷ r) = a + 256 * load r

abbrev pub host : Host
host = record {
  htobs = λ v. v;
  btohs = λ v. v;
  htobl = λ v. v;
  htob128 = λ v. v;
  btoh128 = λ v. v;
  store16 = λ v. (v % 256) ∷ (v / 256 % 256) ∷ [];
  load16 = load;
  store32 = λ v. (v % 256) ∷ (v / 256 % 256) ∷ (v / 65536 % 256) ∷ (v / 16777216 % 256) ∷ [];
  uuid16_create = uuid16;
  uuid128_create = uuid128;
  new_bytes = λ n. replicate n 0;
}

pub host_laws : HostLaws host
host_laws = record {
  store16_order = λ v h. ground arith;
  load16_order = λ a b p q. omega arith;
  store16_length = λ v. refl;
  store32_length = λ v. refl;
  htob128_length = λ v e. e;
  btoh128-htob128 = λ v e. refl;
  uuid16_create_lem = λ v. refl;
  uuid128_create_lem = λ v. refl;
  new_bytes_length = λ n. length-replicate n 0;
}
