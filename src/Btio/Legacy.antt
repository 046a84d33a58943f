-- ===== src/Btio/Legacy.antt =====
-- Security levels on a kernel without BT_SECURITY, where they are bits of the link mode.
pub mod Master
use btle_js.Prelude.{
  ℕ, zero, suc, ◌≤◌, ◌≡◌, refl, done, List, [], ◌∷◌, Option, none, some, Bool, true, false, not,
  ◌&&◌, ◌==◌, ◌^◌, if◌then◌else◌, ℤ, pos, negsuc, is_neg, same, get_elem?, arith,
}
use btle_js.Options.{SetOpts, is_within}
use btle_js.Btio.{
  Protocol, l2cap, rfcomm, sco, Name, lm, security, Content, Answer, ok, failed, succeeded, Event,
  Trace, getsockopt, setsockopt, Machine, M, pure, ◌>>=◌, succeeds, all_of,
}
use btle_js.Js.{wrap}
use btle_js.Btio.Set.{lm_map, set_lm, set_lm_of, set_security, set_sec_level, l2cap_set, rfcomm_set}
use btle_js.Btio.Get.{level_of, get_lm, get_lm_of, get_sec_level}

abbrev same_protocol : Protocol → Protocol → Bool
same_protocol l2cap l2cap = true
same_protocol rfcomm rfcomm = true
same_protocol sco sco = true
same_protocol _ _ = false

-- The link mode of a socket: what was set last, or what it was at first.
abbrev pub lm_after : Protocol → ℤ → ℕ → Trace → ℕ
lm_after p sock base [] = base
lm_after p sock base (setsockopt s (lm q) v (ok _) ∷ t) =
    if same s sock && same_protocol q p then v else lm_after p sock base t
lm_after p sock base (_ ∷ t) = lm_after p sock base t

-- The constants of libbluetooth.
pub record Documented (w : Machine) : Type 0 where
  pub master : (p : Protocol) → w.constants.lm_master p ≡ 1
  pub auth : (p : Protocol) → w.constants.lm_auth p ≡ 2
  pub encrypt : (p : Protocol) → w.constants.lm_encrypt p ≡ 4
  pub secure : (p : Protocol) → w.constants.lm_secure p ≡ 32
  pub low : w.bluetooth.bt_security_low ≡ 1
  pub medium : w.constants.bt_security_medium ≡ 2
  pub high : w.bluetooth.bt_security_high ≡ 3

-- The kernel knows no BT_SECURITY, and keeps the link mode that it is given; `base` is the first.
pub record IsLegacy (w : Machine) (sock : ℤ) (base : ℕ) : Type 0 where
  pub errno : ℕ
  pub unknown : suc errno ≡ w.constants.enoprotoopt
  pub refuses_set :
      (t : Trace) (v : Content security) → w.kernel.set_option t sock security v ≡ failed errno
  pub refuses_get : (t : Trace) → w.kernel.option_of t sock security ≡ failed errno
  pub accepts : (t : Trace) (p : Protocol) (v : ℕ) → w.kernel.set_option t sock (lm p) v ≡ ok tt
  pub remembers :
      (t : Trace) (p : Protocol) → w.kernel.option_of t sock (lm p) ≡ ok (lm_after p sock base t)

succeeds-done :
    {A : Type 0} (m : M (Answer A)) (t : Trace) {a : Answer A} {t' : Trace}
    → m t ≡ done (a, t')
    → succeeds m t ≡ done (succeeded a, t')
unfolding ◌>>=◌
succeeds-done m t e = ground arith

module _ (w : Machine) (d : Documented w) (sock : ℤ) where
  -- The entries of `lm_map`.
  abbrev bits_of : ℕ → ℕ
  bits_of n = if n == 1 then 2 else if n == 2 then 6 else 38

  get_elem?-lm_map :
      (p : Protocol) (n : ℕ) → 1 ≤ n → n ≤ 3 → get_elem? (lm_map w sock p) n ≡ some (bits_of n)
  unfolding lm_map
  get_elem?-lm_map p zero l u = absurd (omega arith)
  get_elem?-lm_map p (suc zero) l u = rw (d.auth p) refl
  get_elem?-lm_map p (suc (suc zero)) l u = rw (d.auth p) (rw (d.encrypt p) refl)
  get_elem?-lm_map p (suc (suc (suc zero))) l u =
      rw (d.auth p) (rw (d.encrypt p) (rw (d.secure p) refl))
  get_elem?-lm_map p (suc (suc (suc (suc n)))) l u = absurd (omega arith)

  level_of-bits_of : (p : Protocol) (n : ℕ) → 1 ≤ n → n ≤ 3 → level_of w sock p (bits_of n) ≡ n
  unfolding level_of
  level_of-bits_of p zero l u = absurd (omega arith)
  level_of-bits_of p (suc zero) l u =
      rw (d.secure p) (rw (d.encrypt p) (rw (d.auth p) (rw d.low refl)))
  level_of-bits_of p (suc (suc zero)) l u = rw (d.secure p) (rw (d.encrypt p) (rw d.medium refl))
  level_of-bits_of p (suc (suc (suc zero))) l u = rw (d.secure p) (rw d.high refl)
  level_of-bits_of p (suc (suc (suc (suc n)))) l u = absurd (omega arith)

  within :
      (n : ℕ)
      → 1 ≤ n
      → n ≤ 3
      → is_within w.bluetooth.bt_security_low w.bluetooth.bt_security_high (pos n) ≡ true
  within n l u = ground (arith, d.low, d.high)

  -- The protocol whose link mode holds the level.
  abbrev mode_of : Protocol → Protocol
  mode_of l2cap = l2cap
  mode_of _ = rfcomm

  set_lm-writes :
      {base : ℕ} (k : IsLegacy w sock base) (p : Protocol) (n : ℕ) (t : Trace)
      → 1 ≤ n
      → n ≤ 3
      → set_lm w sock p (pos n) t ≡ done (ok tt, setsockopt sock (lm p) (bits_of n) (ok tt) ∷ t)
  unfolding set_lm
  set_lm-writes k p n t l u = rw (get_elem?-lm_map p n l u) (rw (k.accepts t p (bits_of n)) refl)

  set_lm_of-writes :
      {base : ℕ} (k : IsLegacy w sock base) (p : Protocol) (n : ℕ) (t : Trace)
      → 1 ≤ n
      → n ≤ 3
      → set_lm_of w sock p (pos n) t
        ≡ done (ok tt, setsockopt sock (lm (mode_of p)) (bits_of n) (ok tt) ∷ t)
  unfolding set_lm_of
  set_lm_of-writes k l2cap n t l u = set_lm-writes k l2cap n t l u
  set_lm_of-writes k rfcomm n t l u = set_lm-writes k rfcomm n t l u
  set_lm_of-writes k sco n t l u = set_lm-writes k rfcomm n t l u

  -- What is refused, and then what is set.
  abbrev level_calls : Protocol → ℕ → ℕ → Trace → Trace
  level_calls p errno n t =
      setsockopt sock (lm (mode_of p)) (bits_of n) (ok tt)
      ∷ setsockopt sock security (record { level = wrap (2 ^ 8) (pos n); key_size = 0 })
          (failed errno)
      ∷ t

  set_sec_level-calls :
      {base : ℕ} (k : IsLegacy w sock base) (p : Protocol) (n : ℕ) (t : Trace)
      → 1 ≤ n
      → n ≤ 3
      → set_sec_level w sock p (pos n) t ≡ done (true, level_calls p k.errno n t)
  unfolding set_sec_level set_security ◌>>=◌
  set_sec_level-calls k p n t l u =
      let v : Content security = record { level = wrap (2 ^ 8) (pos n); key_size = 0 } in
      let known : (suc k.errno == w.constants.enoprotoopt) ≡ true = ground (arith, k.unknown) in
      rw (within n l u) (
        rw (k.refuses_set t v) (
          rw known (
            succeeds-done (set_lm_of w sock p (pos n))
              (setsockopt sock security v (failed k.errno) ∷ t)
              (set_lm_of-writes k p n (setsockopt sock security v (failed k.errno) ∷ t) l u))))

  get_lm-reads :
      {base : ℕ} (k : IsLegacy w sock base) (p : Protocol) (n : ℕ) (t : Trace)
      → 1 ≤ n
      → n ≤ 3
      → lm_after p sock base t ≡ bits_of n
      → get_lm w sock p t ≡ done (some n, getsockopt sock (lm p) (ok (bits_of n)) ∷ t)
  unfolding get_lm ◌>>=◌
  get_lm-reads k p n t l u e = rw (k.remembers t p) (rw e (rw (level_of-bits_of p n l u) refl))

  get_lm_of-reads :
      {base : ℕ} (k : IsLegacy w sock base) (p : Protocol) (n : ℕ) (t : Trace)
      → 1 ≤ n
      → n ≤ 3
      → lm_after (mode_of p) sock base t ≡ bits_of n
      → get_lm_of w sock p t ≡ done (some n, getsockopt sock (lm (mode_of p)) (ok (bits_of n)) ∷ t)
  unfolding get_lm_of
  get_lm_of-reads k l2cap n t l u e = get_lm-reads k l2cap n t l u e
  get_lm_of-reads k rfcomm n t l u e = get_lm-reads k rfcomm n t l u e
  get_lm_of-reads k sco n t l u e = get_lm-reads k rfcomm n t l u e

  same_self : same sock sock ≡ true
  same_self = ground arith

  lm_after-level_calls :
      (base errno : ℕ) (p : Protocol) (n : ℕ) (t : Trace)
      → lm_after (mode_of p) sock base (level_calls p errno n t) ≡ bits_of n
  lm_after-level_calls base errno l2cap n t = rw same_self refl
  lm_after-level_calls base errno rfcomm n t = rw same_self refl
  lm_after-level_calls base errno sco n t = rw same_self refl

  -- With the documented constants, on a kernel without BT_SECURITY that keeps the link mode it is
  -- given: `set_sec_level` of LOW, MEDIUM or HIGH succeeds, and `get_sec_level` then reads it back.
  pub get_sec_level-set_sec_level :
      {base : ℕ} (k : IsLegacy w sock base) (p : Protocol) (n : ℕ) (t : Trace)
      → 1 ≤ n
      → n ≤ 3
      → (t' : Trace) × (t'' : Trace) × (set_sec_level w sock p (pos n) t ≡ done (true, t'))
        × (get_sec_level w sock p t' ≡ done (some n, t''))
  unfolding get_sec_level ◌>>=◌
  get_sec_level-set_sec_level {base} k p n t l u =
      let t' = level_calls p k.errno n t in
      let known : (suc k.errno == w.constants.enoprotoopt) ≡ true = ground (arith, k.unknown) in
      let read = getsockopt sock security (failed k.errno) ∷ t' in
      (
        t',
        getsockopt sock (lm (mode_of p)) (ok (bits_of n)) ∷ read,
        set_sec_level-calls k p n t l u,
        rw (k.refuses_get t')
            (rw known (get_lm_of-reads k p n read l u (lm_after-level_calls base k.errno p n t))),
      )
