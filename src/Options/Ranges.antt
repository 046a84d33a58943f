-- ===== src/Options/Ranges.antt =====
-- What options a connection can get.
use btle_js.Prelude.{
  ℕ, ◌≤◌, ◌<◌, ◌^◌, ◌%◌, ◌≡◌, refl, Bool, true, false, ◌&&◌, Option, none, some, String, ℤ, pos,
  negsuc, arith, Bool-cases, inl, inr, if◌then◌else◌,
}
use native.Mathlib.Nat.{mod-eq_of_lt}
use mathlib.Core.Path.{subst}
use btle_js.Js.{Js, wrap, get_int_value, get_boolean_value}
use btle_js.Options.{
  Bluetooth, SetOpts, Parsed, ok, threw, is_within, is_any, defaults, int_option, boolean_option,
  source_option, set_opts, bt_io_sco, ◌>>=◌,
}

-- A block throws, or yields options with `P`.
data Ensures (P : SetOpts → Type 0) : Parsed SetOpts → Type 0 where
  yields : {o : SetOpts} → P o → Ensures P (ok o)
  throws : {message : String} → Ensures P (threw message)

module _ {P : SetOpts → Type 0} where
  bind-Ensures :
      {m : Parsed SetOpts} (f : SetOpts → Parsed SetOpts)
      → Ensures P m
      → ((o : SetOpts) → P o → Ensures P (f o))
      → Ensures P (m >>= f)
  unfolding ◌>>=◌
  bind-Ensures f (yields {o} p) k = k o p
  bind-Ensures f throws k = throws

  Ensures-ok : {r : Parsed SetOpts} {q : SetOpts} → Ensures P r → r ≡ ok q → P q
  Ensures-ok (yields p) e = subst P (ground arith) p
  Ensures-ok throws e = absurd (ground arith)

-- The integers of a 32-bit `int`.
abbrev pub IsInt : ℤ → Type 0
IsInt (pos n) = n < 2 ^ 31
IsInt (negsuc n) = n < 2 ^ 31

-- A cast to `int` gives an `int`.
pub record JsLaws {Value : Type 0} (js : Js Value) : Type 0 where
  pub casts : (v : Value) → IsInt (js.int_of v)

-- What every structure that `setOpts` fills satisfies.
pub record InRange (bt : Bluetooth) (o : SetOpts) : Type 0 where
  pub type_range : o.type ≤ bt_io_sco
  pub src_type_range : (bt.bdaddr_bredr ≤ o.src_type) × (o.src_type ≤ bt.bdaddr_le_random)
  pub dst_type_range : (bt.bdaddr_bredr ≤ o.dst_type) × (o.dst_type ≤ bt.bdaddr_le_random)
  pub sec_level_range : is_within bt.bt_security_sdp bt.bt_security_high o.sec_level ≡ true
  pub mode_range : (bt.l2cap_mode_basic ≤ o.mode) × (o.mode ≤ bt.l2cap_mode_streaming)
  pub channel_range : o.channel < 2 ^ 8
  pub psm_range : o.psm < 2 ^ 16
  pub cid_range : o.cid < 2 ^ 16
  pub mtu_range : o.mtu < 2 ^ 16
  pub imtu_range : o.imtu < 2 ^ 16
  pub omtu_range : o.omtu < 2 ^ 16
  pub priority_range : o.priority < 2 ^ 32
  pub defer_range : IsInt o.defer
  pub master_range : IsInt o.master
  pub flushable_range : IsInt o.flushable

-- The constants are ordered as libbluetooth numbers them.
pub record BluetoothLaws (bt : Bluetooth) : Type 0 where
  pub public_between :
      (bt.bdaddr_bredr ≤ bt.bdaddr_le_public) × (bt.bdaddr_le_public ≤ bt.bdaddr_le_random)
  pub random_byte : bt.bdaddr_le_random < 2 ^ 8
  pub low_between :
      (bt.bt_security_sdp ≤ bt.bt_security_low) × (bt.bt_security_low ≤ bt.bt_security_high)
  pub basic_least : bt.l2cap_mode_basic ≤ bt.l2cap_mode_streaming
  pub streaming_byte : bt.l2cap_mode_streaming < 2 ^ 8

pub wrap-lt : (m : ℕ) (n : ℤ) → 0 < m → wrap m n < m
wrap-lt m (pos n) h = omega arith
wrap-lt m (negsuc n) h = omega arith

wrap-within :
    (lo hi m : ℕ) (n : ℤ) → hi < m → is_within lo hi n ≡ true → (lo ≤ wrap m n) × (wrap m n ≤ hi)
wrap-within lo hi m (pos n) h e =
    let low : lo ≤ n = ground arith in
    let high : n ≤ hi = ground arith in
    let same : n % m ≡ n = mod-eq_of_lt (omega arith) in rw same (low, high)
wrap-within lo hi m (negsuc n) h e = cc

if-Ensures :
    {P : SetOpts → Type 0} (b : Bool) {x y : Parsed SetOpts}
    → (b ≡ true → Ensures P x)
    → Ensures P y
    → Ensures P (if b then x else y)
if-Ensures true p q = p refl
if-Ensures false p q = q

and-right : (a b : Bool) → (a && b) ≡ true → b ≡ true
and-right true b e = e
and-right false b e = cc

module _ {Value : Type 0} (js : Js Value) (js_laws : JsLaws js) (bt : Bluetooth)
    (laws : BluetoothLaws bt) where
  get_int_value-IsInt : (v : Value) → IsInt (get_int_value js v (pos 0)).1
  unfolding get_int_value
  get_int_value-IsInt v = elim (Bool-cases (js.is_exact v)) [
    | inl e ↦ rw e (js_laws.casts v)
    | inr e ↦ rw e (omega arith)
  ]

  get_boolean_value-IsInt : (v : Value) → IsInt (get_boolean_value js v)
  unfolding get_boolean_value
  get_boolean_value-IsInt v = elim (Bool-cases (js.boolean_of v)) [
    | inl e ↦ rw e (omega arith)
    | inr e ↦ rw e (omega arith)
  ]

  -- A block keeps the ranges if its store does for every allowed number.
  block :
      (v : Option Value) (allowed : ℤ → Bool) (x y : String) (store : SetOpts → ℤ → SetOpts)
      (o : SetOpts)
      → ((n : ℤ) → allowed n ≡ true → IsInt n → InRange bt (store o n))
      → InRange bt o
      → Ensures (InRange bt) (int_option js v allowed x y store o)
  unfolding int_option
  block none allowed x y store o k r = yields r
  block (some v) allowed x y store o k r =
      let (exact, n) = get_int_value js v (pos 0) in
      if-Ensures (js.is_number v)
        (λ _.
          if-Ensures (exact && allowed n)
            (λ e. yields (k n (and-right exact (allowed n) e) (get_int_value-IsInt v))) throws)
        throws

  source-Ensures : (v : Option Value) → Ensures (InRange bt) (source_option js bt v (defaults bt))
  unfolding source_option defaults
  source-Ensures none =
      yields
        (ground (arith, laws.public_between, laws.random_byte, laws.low_between, laws.basic_least))
  source-Ensures (some v) =
      if-Ensures (js.is_string v)
        (λ _. yields (
          ground
            (arith, laws.public_between, laws.random_byte, laws.low_between, laws.basic_least)))
        throws

  boolean-Ensures :
      (v : Option Value) (o : SetOpts) → InRange bt o → Ensures (InRange bt) (boolean_option js v o)
  unfolding boolean_option
  boolean-Ensures none o r = yields r
  boolean-Ensures (some v) o r =
      if-Ensures (js.is_boolean v) (λ _. yields (let i = get_boolean_value-IsInt v in ground arith))
        throws

  set_opts-Ensures :
      (options : String → Option Value) → Ensures (InRange bt) (set_opts js bt options)
  unfolding set_opts
  set_opts-Ensures options = bind-Ensures _ (source-Ensures (options "source")) λ o r.
      bind-Ensures _
        (block _ (is_within 0 2) _ _ (λ o n. record o { type = wrap (2 ^ 32) n }) o
          (λ n k i. ground (arith, wrap-within 0 2 (2 ^ 32) n)) r)
        λ o r.
          bind-Ensures _
            (block _ (is_within bt.bdaddr_bredr bt.bdaddr_le_random) _ _
              (λ o n. record o { src_type = wrap (2 ^ 8) n }) o
              (λ n k i. ground (arith, wrap-within bt.bdaddr_bredr bt.bdaddr_le_random (2 ^ 8) n))
              r)
            λ o r.
              bind-Ensures _
                (block _ (is_within bt.bdaddr_bredr bt.bdaddr_le_random) _ _
                  (λ o n. record o { dst_type = wrap (2 ^ 8) n }) o
                  (λ n k i.
                    ground (arith, wrap-within bt.bdaddr_bredr bt.bdaddr_le_random (2 ^ 8) n))
                  r)
                λ o r.
                  bind-Ensures _
                    (block _ is_any _ _ (λ o n. record o { defer = n }) o (λ n k i. ground arith) r)
                    λ o r.
                      bind-Ensures _
                        (block _ (is_within bt.bt_security_sdp bt.bt_security_high) _ _
                          (λ o n. record o { sec_level = n }) o (λ n k i. ground arith) r)
                        λ o r.
                          bind-Ensures _
                            (block _ is_any _ _ (λ o n. record o { channel = wrap (2 ^ 8) n }) o
                              (λ n k i. ground (arith, wrap-lt (2 ^ 8) n)) r)
                            λ o r.
                              bind-Ensures _
                                (block _ is_any _ _ (λ o n. record o { psm = wrap (2 ^ 16) n }) o
                                  (λ n k i. ground (arith, wrap-lt (2 ^ 16) n)) r)
                                λ o r.
                                  bind-Ensures _
                                    (block _ is_any _ _ (λ o n. record o { cid = wrap (2 ^ 16) n })
                                      o (λ n k i. ground (arith, wrap-lt (2 ^ 16) n)) r)
                                    λ o r.
                                      bind-Ensures _
                                        (block _ is_any _ _
                                          (λ o n. record o { mtu = wrap (2 ^ 16) n }) o
                                          (λ n k i. ground (arith, wrap-lt (2 ^ 16) n)) r)
                                        λ o r.
                                          bind-Ensures _
                                            (block _ is_any _ _
                                              (λ o n. record o { imtu = wrap (2 ^ 16) n }) o
                                              (λ n k i. ground (arith, wrap-lt (2 ^ 16) n)) r)
                                            λ o r.
                                              bind-Ensures _
                                                (block _ is_any _ _
                                                  (λ o n. record o { omtu = wrap (2 ^ 16) n }) o
                                                  (λ n k i. ground (arith, wrap-lt (2 ^ 16) n)) r)
                                                λ o r.
                                                  bind-Ensures _
                                                    (block _ is_any _ _
                                                      (λ o n. record o { master = n }) o
                                                      (λ n k i. ground arith) r)
                                                    λ o r.
                                                      bind-Ensures _
                                                        (block _
                                                          (is_within bt.l2cap_mode_basic
                                                            bt.l2cap_mode_streaming)
                                                          _ _
                                                          (λ o n. record o {
                                                            mode = wrap (2 ^ 8) n;
                                                          })
                                                          o
                                                          (λ n k i. ground (
                                                            arith,
                                                            wrap-within bt.l2cap_mode_basic
                                                            bt.l2cap_mode_streaming (2 ^ 8) n,
                                                          ))
                                                          r)
                                                        λ o r.
                                                          bind-Ensures _ (boolean-Ensures _ o r)
                                                            λ o r.
                                                            block _ is_any _ _
                                                            (λ o n. record o {
                                                            priority = wrap (2 ^ 32) n;
                                                            })
                                                            o
                                                            (λ n k i.
                                                            ground (arith, wrap-lt (2 ^ 32) n))
                                                            r

  -- With the constants of libbluetooth in their order, and casts to `int` that give integers of 32
  -- bits, whatever object `setOpts` is given: if it does not throw, the enumerations of the
  -- structure are within their values and all its other integers within their widths, those of type
  -- `int` too.
  pub set_opts-InRange :
      (options : String → Option Value) {q : SetOpts} → set_opts js bt options ≡ ok q → InRange bt q
  set_opts-InRange options e = Ensures-ok (set_opts-Ensures options) e
